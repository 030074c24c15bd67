-- ===== src/Tests/Connections.antt =====
-- The start of the server and the connection to the node: certificates are numbers, and a file is read as the certificates in it.
use laas_api.Base.{==_iff, [], false, none, ok, some, ℕ, ◌==◌, ◌↔◌, ◌∷◌, ◌≡◌}
use laas_api.Int.{pos}
use laas_api.Api.RateLimit.{new}
use laas_api.Invoice.Worker
use laas_api.Ln
use laas_api.Ln.{Lnd, failure_reason_none}
use laas_api.Ln.Connection
use laas_api.Server.{Config, Machine, Running, into_api_limits}
use laas_api.Tests.Data.{db, node_with, answer}
use laas_api.Ln.Connection.{connect, Tls, Lightning, Node, create_node, create_node-ok, IsTrusted}

abbrev tls : Tls
tls = record {
  Certificate = ℕ;
  eqb = ◌==◌;
  eqb_iff = ==_iff;
  certs = λ file. some file;
  read = λ path. some (5 ∷ []);
  encode = λ bytes. "05";
  presents = λ endpoint. some (5 ∷ []);
}

abbrev lightning : Lightning
lightning = record { endpoint = "https://lnd"; cert = 5 ∷ []; macaroon = "05"; first_block = 90 }

abbrev node : Node
node = record { macaroon = "05"; first_block = 90 }

create_node-ok_example :
    (create_node tls lightning ≡ ok node) ↔ (IsTrusted tls lightning × (node ≡ node))
create_node-ok_example = create_node-ok tls lightning node

abbrev lnd : Lnd
lnd = node_with (answer Ln.PaymentStatus.succeeded failure_reason_none)

abbrev machine : Machine
machine = record {
  connect = λ url. some (record { migrations = none; schema = db });
  execute = λ statement db. some db;
  migration = record { serial_number = 0; sql = "CREATE TABLE users" ∷ [] };
  generate = λ text. text;
  debug_assertions = false;
  now = 1000;
  after_withdrawals = λ db. db;
  after_deposits = λ db. db;
}

abbrev config : Config
config = record {
  database_url = "postgres://laas";
  lnd = record {
    url = "https://lnd";
    macaroon_path = "admin.macaroon";
    cert_path = "tls.cert";
    first_block = 90;
  };
  limits = record {
    payment_min_sats = pos 1;
    payment_max_sats = pos 10;
    payment_daily_sats = pos 100;
    invoice_min_sats = pos 1;
    invoice_max_sats = pos 10;
    invoice_daily_sats = pos 100;
  };
  rate_limit = record { limit = 5; span = 60 };
}

abbrev running : Running
running = record {
  state = record {
    db = db;
    lightning = lightning;
    cash_limits = into_api_limits config.limits;
    rate_limit = new 5;
  };
  withdrawals_tip = 90;
  deposits_tip = 90;
}
