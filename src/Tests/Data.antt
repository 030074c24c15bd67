-- ===== src/Tests/Data.antt =====
-- The data of the examples: a database with two users, and a node that answers in a fixed way.
use laas_api.Base.{none, some, true, false, List, [], ◌∷◌, String, ok}
use laas_api.Int.{ℤ, pos}
use laas_api.Btc.{TxOut}
use laas_api.Database.{UserRow, TokenRow, DepositAddressRow, Database}
use laas_api.Database.Transactions.{Surroundings, quiet}
use laas_api.Ln.{Lnd, LnPayment, SendPaymentResponse, message}
use laas_api.Ln

abbrev pub user_row : ℤ → UserRow
user_row amount = record {
  id = 1;
  email = "ann@example.org";
  password = "secret";
  balance_msats = amount;
  created = 5;
}

abbrev pub other_row : UserRow
other_row = record {
  id = 2;
  email = "bob@example.org";
  password = "secret";
  balance_msats = pos 700;
  created = 6;
}

abbrev pub token_row : TokenRow
token_row = record {
  id = 11;
  user_id = 1;
  name = "key";
  token_hash = "token";
  can_spend = true;
  can_receive = false;
  can_read = true;
  created = 7;
  disabled = none;
}

abbrev pub address_row : DepositAddressRow
address_row = record { user_id = 1; token_id = 11; address = 70; created = 8 }

-- The database in which the first user has an amount.
abbrev pub db_of : ℤ → Database
db_of amount = record {
  users = user_row amount ∷ other_row ∷ [];
  auth_tokens = token_row ∷ [];
  balance_reservations = [];
  tx_outs = [];
  deposit_addresses = address_row ∷ [];
  deposits = [];
  withdrawals = [];
  payments = [];
  invoices = [];
}

abbrev pub db : Database
db = db_of (pos 5000)

abbrev pub env : Surroundings
env = quiet 50 1000

-- A confirmed output of three satoshis to the address of the first user.
abbrev pub out : TxOut
out = record {
  tx = record { id = 9; block_height = some 100 };
  address = 70;
  v_out = pos 0;
  amount = pos 3;
}

abbrev pub answer : Ln.PaymentStatus → Ln.PaymentFailureReason → SendPaymentResponse
answer status reason =
    message (some (record { status = status; failure_reason = reason; htlcs = some (pos 10) ∷ [] }))

-- A node that gives one answer to every payment; the state counts the calls.
abbrev pub node_with : SendPaymentResponse → Lnd
node_with response = record {
  State = List String;
  parse = λ invoice. ok (record {
    amount_milli_satoshis = none;
    payee_pub_key = "payee";
    route_hints = [];
    min_final_cltv_expiry = 18;
  });
  contains = λ text part. false;
  send_payment = λ request calls. (response, "send_payment" ∷ calls);
  estimate_fee = λ address amount calls. (some (pos 1), calls);
  new_address = λ calls. (some 70, calls);
  get_transactions = λ from to calls. some [];
  send_coins = λ address amount label calls. (none, calls);
  add_invoice = λ amount memo expiry calls. (some "invoice", calls);
  payment_hash = λ invoice. [];
  lookup_invoice = λ hash calls. (none, calls);
}
