-- ===== src/Server.antt =====
-- src/main.rs: the configuration and the start of the server; api/src/lib.rs and state.rs: what the
-- routes share.
pub mod Start
pub mod Ready
use laas_api.Base.{
  ℕ, Bool, Option, String, Outcome, ok, err, panic, Never, ◌>>=◌, unwrap, if◌then◌else◌,
}
use laas_api.Int.{ℤ}
use laas_api.Btc.{msats}
use laas_api.CashLimits.{CashLimits}
use laas_api.Api.RateLimit.{RateLimit, new}
use laas_api.Chain.{get_chain_tip}
use laas_api.Database.{Database, DateTime}
use laas_api.Database.Migrations.{Store, Migration, run_migrations}
use laas_api.Database.Seeder.{seed_development_data}
use laas_api.Database.Transactions.{Surroundings}
use laas_api.Invoice.Worker
use laas_api.Ln.{Lnd}
use laas_api.Ln.Connection
use laas_api.Ln.Connection.{Tls, Lightning, create_node}

pub record LimitsConfig : Type 0 where
  pub payment_min_sats : ℤ
  pub payment_max_sats : ℤ
  pub payment_daily_sats : ℤ
  pub invoice_min_sats : ℤ
  pub invoice_max_sats : ℤ
  pub invoice_daily_sats : ℤ

-- `api::CashLimits`
pub record ApiLimits : Type 0 where
  pub payment_limits : CashLimits
  pub invoice_limits : CashLimits

-- `LimitsConfig::into_api_limits`
unfoldable pub into_api_limits : LimitsConfig → ApiLimits
into_api_limits c = record {
  payment_limits = record {
    min = msats c.payment_min_sats;
    max = msats c.payment_max_sats;
    daily = msats c.payment_daily_sats;
  };
  invoice_limits = record {
    min = msats c.invoice_min_sats;
    max = msats c.invoice_max_sats;
    daily = msats c.invoice_daily_sats;
  };
}

pub record LndConfig : Type 0 where
  pub url : String
  pub macaroon_path : String
  pub cert_path : String
  pub first_block : ℕ

-- The span is in seconds.
pub record RateLimitConfig : Type 0 where
  pub limit : ℕ
  pub span : ℕ

pub record Config : Type 0 where
  pub database_url : String
  pub lnd : LndConfig
  pub limits : LimitsConfig
  pub rate_limit : RateLimitConfig

-- `RateLimitConfig::into_rate_limit`
abbrev pub into_rate_limit : RateLimitConfig → RateLimit
into_rate_limit c = new c.limit

abbrev pub ln_config : LndConfig → Connection.Config
ln_config c = record {
  endpoint = c.url;
  macaroon_path = c.macaroon_path;
  cert_path = c.cert_path;
  first_block = c.first_block;
}

pub record RocketState : Type 0 where
  pub db : Database
  pub lightning : Lightning
  pub cash_limits : ApiLimits
  pub rate_limit : RateLimit

-- `api::register`, the state that the routes share.
abbrev pub register : Database → Lightning → ApiLimits → RateLimit → RocketState
register db lightning cash_limits rate_limit = record {
  db = db;
  lightning = lightning;
  cash_limits = cash_limits;
  rate_limit = rate_limit;
}

-- The state that the server starts with, and the blocks from which the workers go on.
pub record Running : Type 0 where
  pub state : RocketState
  pub withdrawals_tip : ℕ
  pub deposits_tip : ℕ

-- What the program is started in: the database that a URL leads to, what an SQL statement does, the
-- migration, the passwords and tokens of the development data, whether the build has debug assertions,
-- the time, and what the workers that run already commit before the next one starts.
pub record Machine : Type 0 where
  pub connect : String → Option (Store Database)
  pub execute : String → Database → Option Database
  pub migration : Migration
  pub generate : String → String
  pub debug_assertions : Bool
  pub now : DateTime
  pub after_withdrawals : Database → Database
  pub after_deposits : Database → Database

module _ (tls : Tls) (lnd : Lnd) (machine : Machine) where
  abbrev pub seeded : Database → Outcome Never Database
  seeded db =
      if machine.debug_assertions
      then seed_development_data machine.generate machine.now db
      else ok db

  -- `withdrawal::start_workers` and `chain::listen`, up to the start of their loops.
  abbrev pub withdrawals_from : ℕ → Lightning → Database → Outcome Never ℕ
  withdrawals_from first_block lightning db = do
    sender ← create_node tls lightning
    tip ← get_chain_tip first_block db
    node ← create_node tls lightning
    ok tip

  abbrev pub deposits_from : ℕ → Lightning → Database → Outcome Never ℕ
  deposits_from first_block lightning db = do
    tip ← get_chain_tip first_block db
    node ← create_node tls lightning
    ok tip

  abbrev pub finished : Outcome Never Unit × lnd.State × Database → Outcome Never Database
  finished (ok u, node, db) = ok db
  finished (err e, node, db) = err e
  finished (panic, node, db) = panic

  -- `start_server`, with the surroundings of the invoices that are completed.
  unfoldable pub start_server : (ℕ → ℕ → Surroundings) → lnd.State → Config → Outcome Never Running
  start_server env node config = do
    store ← unwrap (machine.connect config.database_url)
    lightning ← Connection.new tls (ln_config config.lnd)
    migrated ← run_migrations machine.execute machine.migration store
    db ← seeded migrated.schema
    withdrawals_tip ← withdrawals_from config.lnd.first_block lightning db
    let db₁ = machine.after_withdrawals db
    deposits_tip ← deposits_from config.lnd.first_block lightning db₁
    listener ← create_node tls lightning
    db₂ ← finished (Worker.start_worker lnd env node (machine.after_deposits db₁))
    ok (record {
      state =
          register db₂ lightning (into_api_limits config.limits)
            (into_rate_limit config.rate_limit);
      withdrawals_tip = withdrawals_tip;
      deposits_tip = deposits_tip;
    })
