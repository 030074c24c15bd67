-- ===== src/Tests/Withdrawals.antt =====
-- Withdrawals, and the search of the node's transactions.
use laas_api.Base.{
  Option, if◌then◌else◌, List, ◌∷◌, ◌≡◌, refl, none, some, [], Never, ok, err, arith,
}
use laas_api.Int.{ℤ, eqb_ℤ, pos, scale, ◌+ℤ◌, ◌-ℤ◌, ◌≤ℤ◌, ◌<ℤ◌}
use laas_api.Btc.{tx_is_confirmed}
use laas_api.Database.{Database}
use laas_api.Balance.{Balance, Reservation, InsufficientBalance, pending, debited, debit}
use laas_api.Balance.Reservations.{reservation}
use laas_api.Balance.Queries.{
  get_reservation, upsert_reservation, with_reservation, into_entity, status_of_i32,
}
use laas_api.Auth.{SpendGrant}
use laas_api.Ln.{Lnd, failure_reason_none}
use laas_api.Ln
use laas_api.Ln.Transactions.{get_tx}
use laas_api.Ln.Search.{get_tx_misses}
use laas_api.Withdrawal.{Withdrawal, insufficient_balance, start, is_sent, is_confirmed, confirm}
use laas_api.Withdrawal.Outcomes.{started, total, start_outcomes}
use laas_api.Withdrawal.Rows.{with_withdrawal, get_by_tx_out, upsert_withdrawal}
use laas_api.Withdrawal.Service.{process}
use laas_api.Withdrawal.Delivery.{Settles, confirmed_by, process_debits, process_again}
use laas_api.Tests.Data.{db, env, out, node_with, answer}

abbrev lnd : Lnd
lnd = node_with (answer Ln.PaymentStatus.succeeded failure_reason_none)

abbrev grant : SpendGrant
grant = record { token_id = 11; user_id = 1 }

abbrev full : Balance
full = record { user_id = 1; original_amount = pos 5000; amount = pos 5000 }

start_outcomes_example :
    (total (pos 3) (pos 1) ≤ℤ pos 5000
      → start lnd 20 21 900 grant full 80 (pos 3) [] ≡ (
        (
          ok (
            started 20 21 900 grant 80 (pos 3) (pos 1),
            reservation 21 900 full (total (pos 3) (pos 1)),
          ),
          record full { amount = pos 5000 -ℤ total (pos 3) (pos 1) },
        ),
        [],
      ))
    × (pos 5000 <ℤ total (pos 3) (pos 1)
        → start lnd 20 21 900 grant full 80 (pos 3) []
          ≡ ((err (insufficient_balance InsufficientBalance.insufficient_balance), full), []))
start_outcomes_example =
    start_outcomes lnd 20 21 900 grant full 80 (pos 3) (pos 1) [] refl (ground arith) (ground arith)
      refl (ground arith) (unfold scale in ground arith) (unfold scale in ground arith)
      (unfold scale ◌+ℤ◌ in ground arith)

abbrev reserved : Reservation
reserved = record { id = 21; user_id = 1; amount = pos 4000; status = pending; created = 900 }

-- The withdrawal after it was sent, by a transaction that is not confirmed yet.
abbrev pub sent : Withdrawal
sent = record {
  id = 20;
  user_id = 1;
  token_id = 11;
  reservation_id = 21;
  address = 70;
  fee = pos 1;
  amount = pos 3;
  tx_out = some (record out { tx = record { id = 9; block_height = none } });
  created = 900;
  confirmed = none;
}

abbrev confirmed : Withdrawal × Reservation
confirmed = (confirmed_by env out sent, record reserved { status = debited })

confirms :
    confirm {E = Never} 1000 sent out reserved
    ≡ ok (confirmed_by env out sent, record reserved { status = debited })
unfolding confirm is_sent is_confirmed tx_is_confirmed debit
confirms = refl

abbrev pub waiting : Database
waiting = with_withdrawal (with_reservation db reserved) sent

abbrev pub finished : Database
finished =
    with_reservation (with_withdrawal waiting (confirmed_by env out sent))
      (record reserved { status = debited })

processes : process env out waiting ≡ (ok tt, finished)
unfolding process get_by_tx_out get_reservation into_entity status_of_i32 confirm is_sent
    is_confirmed tx_is_confirmed debit upsert_withdrawal upsert_reservation
processes = refl

process_debits_example : Settles env out sent waiting finished
process_debits_example =
    process_debits env out waiting finished (unfold tx_is_confirmed in refl) sent
      (unfold get_by_tx_out in refl) (unfold is_confirmed in refl) processes

process_again_example : process env out finished ≡ (ok tt, finished)
process_again_example =
    process_again env env out waiting finished (refl, refl) (λ x. refl)
      (unfold tx_is_confirmed in refl) processes

-- A node with the transaction of a withdrawal, in the second month.
abbrev late : ℤ → Option (List Ln.Transaction)
late start =
    if eqb_ℤ start (pos 4420)
    then some (
        record {
          tx_hash = 9;
          block_height = 4500;
          label = "20";
          output_details = record { address = some 70; output_index = pos 0; amount = pos 3 } ∷ [];
        }
        ∷ [])
    else some []

get_tx_misses_example :
    get_tx
      (record lnd { get_transactions = λ from to calls. late from })
      {E = Never}
      100
      70
      (pos 3)
      "20"
      []
    ≡ ok none
get_tx_misses_example =
    get_tx_misses (record lnd { get_transactions = λ from to calls. late from }) 100 70 (pos 3) "20"
      [] [] [] (ground arith) refl tt refl tt
