-- ===== src/Tests/Workers.antt =====
-- The workers of the deposits and the withdrawals.
use laas_api.Base.{
  ℕ, ap, Outcome, Option, zero, suc, ◌+◌, ◌==◌, ◌≡◌, ◌∙◌, refl, sym, subst, some, none, ok, Never,
  true, arith, [], ◌∷◌, Bool-cases, inl, inr,
}
use laas_api.Int.{pos, ◌+ℤ◌, scale, thousand_i64, wrap_i64, add_i64}
use laas_api.Btc.{msats, add, tx_is_confirmed}
use laas_api.Concurrency.{retry_loop, retry_from}
use laas_api.Database.{Database}
use laas_api.Database.Transactions.{Surroundings, quiet}
use laas_api.Balance.{credit, new, changed}
use laas_api.Balance.Queries
use laas_api.Chain.{listen, run, process_all, get_chain_tip}
use laas_api.Ln.Transactions.{get_tx_outs, get_tx_outs_start_end, get_highest_block}
use laas_api.Worker.{start, swallow_panic}
use laas_api.Deposit
use laas_api.Deposit.{Deposit}
use laas_api.Deposit.Queries as Deposits
use laas_api.Deposit.Listener as Listener
use laas_api.Deposit.Worker.{start_worker}
use laas_api.Deposit.Worker.Inserts.{keeps_refl}
use laas_api.Deposit.Worker.Fitness.{AreCalm, IsFit, IsOwned}
use laas_api.Deposit.Worker.Arrivals.{deposit_arrives}
use laas_api.Tests.Data
use laas_api.Tests.Data.{db, db_of, out}
use laas_api.Balance.{debit}
use laas_api.Withdrawal
use laas_api.Withdrawal.{Withdrawal}
use laas_api.Withdrawal.Rows
use laas_api.Withdrawal.Service.{process}
use laas_api.Withdrawal.Worker.{start_listener}
use laas_api.Withdrawal.Worker.Sent
use laas_api.Withdrawal.Worker.Apart.{calls_keep_rows}
use laas_api.Deposit.Worker.Inserts
use laas_api.Withdrawal.Worker.Confirmations.{withdrawal_arrives}
use laas_api.Tests.Withdrawals.{waiting, finished, sent}
use laas_api.Tests.Chains.{lnd, growing, growing-IsBelow, growing-Follows}

-- Every call draws an id of its own, and nobody else commits.
abbrev env : ℕ → ℕ → Surroundings
env n i = quiet (100 + n) 1000

calm : AreCalm env
calm = record {
  first = λ n i x. keeps_refl x;
  second = λ n i x. keeps_refl x;
  distinct = λ n m i j less. ground arith;
}

-- At first nobody has an address; it is stored while the worker sleeps for the first time.
abbrev before : Database
before = record db { deposit_addresses = [] }

abbrev with_address : Database → Database
with_address x = record x { deposit_addresses = Data.address_row ∷ x.deposit_addresses }

abbrev others : ℕ → Database → Database
others zero x = with_address x
others (suc n) x = x

with_address-Keeps : (x : Database) → Inserts.Keeps x (with_address x)
unfolding Deposits.get_address
with_address-Keeps x = record {
  deposits = refl;
  tx_outs = λ tx_id v_out row e. (row, e);
  addresses = λ address a e. elim (Bool-cases (70 == address)) [
    | inl same ↦ (Deposits.address_entity Data.address_row, rw same refl)
    | inr other ↦ (a, rw other e)
  ];
}

others-Keeps : (n : ℕ) (x : Database) → Inserts.Keeps x (others n x)
others-Keeps zero x = with_address-Keeps x
others-Keeps (suc n) x = keeps_refl x

fit : IsFit env 0 before
fit = record { keyed = tt; undrawn = tt }

owned : IsOwned out db
unfolding Deposits.get_address
owned = (Deposits.address_entity Data.address_row, refl)

first_run : start_worker lnd 90 growing others env 12 1 before ≡ ok (some (90, (0, db)))
unfolding start_worker listen run process_all get_chain_tip get_tx_outs get_tx_outs_start_end
    get_highest_block start swallow_panic
first_run = refl

abbrev ended : ℕ × (ℕ × Database) → Outcome Never (Option (ℕ × (ℕ × Database)))
ended x = ok (some x)

same_store : (x y : ℕ × (ℕ × Database)) → ended x ≡ ended y → x.1.1 ≡ y.1.1
same_store x y h = let same : x ≡ y = ground arith in ap (λ z. z.1.1) same

owned_after :
    (tip₁ calls₁ : ℕ) (db₁ : Database)
    → start_worker lnd 90 growing others env 12 1 before ≡ ok (some (tip₁, (calls₁, db₁)))
    → IsOwned out db₁
owned_after tip₁ calls₁ db₁ e =
    subst (IsOwned out) (same_store (90, (0, db)) (tip₁, (calls₁, db₁)) (sym first_run ∙ e)) owned

abbrev deposit : Deposit
deposit = record { id = 100; user_id = 1; tx_out = out; created = 1000; confirmed = some 1000 }

abbrev arrived : Database
arrived = Deposits.with_deposit (db_of (pos 8000)) deposit

deposit_arrives_example :
    (d : Deposit) × (Deposits.get arrived 9 (pos 0) ≡ some d) × (Deposit.is_confirmed d ≡ true)
unfolding start_worker listen run process_all get_chain_tip get_tx_outs get_tx_outs_start_end
    get_highest_block start swallow_panic Listener.process retry_loop retry_from
    Listener.process_once Listener.get_or_start Deposits.get Listener.start Deposits.get_address
    Deposit.start_deposit Deposits.upsert_deposit tx_is_confirmed Deposit.is_confirmed
    Listener.settle Queries.get new Deposit.confirm credit msats thousand_i64 scale wrap_i64 add
    add_i64 ◌+ℤ◌ Queries.update changed
deposit_arrives_example =
    deposit_arrives env calm out refl lnd 90 100 1 growing others 12 2 before 90 101 1 arrived
      growing-IsBelow growing-Follows others-Keeps fit owned_after refl (ground arith) refl
      (ground arith)

is_sent : Sent.IsSent out waiting
is_sent = record {
  row = Rows.withdrawal_row sent;
  tx_out = Deposits.tx_out_row (record out { tx = record { id = 9; block_height = none } });
  found = refl;
  joined = refl;
}

first_sent_run :
    start_listener lnd 90 growing (λ n x. x) (λ n. Data.env) 12 1 waiting
    ≡ ok (some (90, (0, waiting)))
unfolding start_listener listen run process_all get_chain_tip get_tx_outs get_tx_outs_start_end
    get_highest_block start swallow_panic
first_sent_run = refl

sent_after :
    (tip₁ calls₁ : ℕ) (db₁ : Database)
    → start_listener lnd 90 growing (λ n x. x) (λ n. Data.env) 12 1 waiting
      ≡ ok (some (tip₁, (calls₁, db₁)))
    → Sent.IsSent out db₁
sent_after tip₁ calls₁ db₁ e =
    subst (Sent.IsSent out)
      (same_store (90, (0, waiting)) (tip₁, (calls₁, db₁)) (sym first_sent_run ∙ e)) is_sent

withdrawal_arrives_example :
    (w : Withdrawal) × (Rows.get_by_tx_out finished 9 (pos 0) ≡ some w)
    × (Withdrawal.is_confirmed w ≡ true)
unfolding start_listener listen run process_all get_chain_tip get_tx_outs get_tx_outs_start_end
    get_highest_block start swallow_panic process Rows.get_by_tx_out Queries.get_reservation
    Queries.into_entity Queries.status_of_i32 Withdrawal.confirm Withdrawal.is_sent
    Withdrawal.is_confirmed tx_is_confirmed debit Rows.upsert_withdrawal Queries.upsert_reservation
withdrawal_arrives_example =
    withdrawal_arrives (λ n. Data.env) (λ n x. Sent.keeps_refl x) (λ n x. Sent.keeps_refl x) out
      refl lnd 90 100 1 growing (λ n x. x) 12 2 waiting 90 101 1 finished growing-IsBelow
      growing-Follows (λ n x. Sent.keeps_refl x) (refl, tt) sent_after refl (ground arith) refl
      (ground arith)

calls_keep_rows_example :
    Inserts.Keeps waiting (process Data.env out waiting).1
    × Sent.Keeps waiting (Listener.process_once Data.env out waiting).1
calls_keep_rows_example =
    calls_keep_rows Data.env out waiting (λ x. (keeps_refl x, Sent.keeps_refl x))
      (λ x. (keeps_refl x, Sent.keeps_refl x)) tt
