-- ===== src/Withdrawal/Worker/Calls.antt =====
-- app/src/withdrawal/mod.rs: what a call of the listener keeps, whatever it is for and however it ends.
use laas_api.Base.{
  ◌&&◌, ◌==◌, ◌≡◌, refl, true, false, Bool-cases, Outcome-cases, inl, inr, Option, none, some,
  is_some, ok, arith, ap, ◌∙◌, sym, subst, IsKeyed, upsert-IsKeyed, ◌>>=◌,
}
use laas_api.Int.{eqb_ℤ, eqb_ℤ_iff}
use laas_api.Btc.{TxOut, tx_is_confirmed}
use laas_api.Database.{Database, WithdrawalRow}
use laas_api.Database.Transactions.{Surroundings, transaction, rolled_back}
use laas_api.Withdrawal.{Withdrawal, is_confirmed}
use laas_api.Withdrawal.Rows.{into_entity, get_by_tx_out, withdrawal_row}
use laas_api.Withdrawal.Delivery.{
  confirmed_by, settle_parts, settle_stores, process_debits, process_done,
}
use laas_api.Withdrawal.Service.{process, settle, settle_found}
use laas_api.Withdrawal.Worker.Sent.{
  IsSent, IsArrived, Keeps, Keeps-trans, Keeps-IsSent, get-IsSent, IsSent-get,
  with_withdrawal-IsSent,
}

-- The output belongs to a withdrawal that was sent, and the ids of the withdrawals are distinct.
pub record IsFit (out : TxOut) (db : Database) : Type 0 where
  pub sent : IsSent out db
  pub keyed : IsKeyed WithdrawalRow.id db.withdrawals

pub Keeps-IsFit : (out : TxOut) (db db' : Database) → Keeps db db' → IsFit out db → IsFit out db'
Keeps-IsFit out db db' keeps fit = record {
  sent = (Keeps-IsSent out db db' keeps fit.sent).0;
  keyed = keeps.keyed fit.keyed;
}

pub Keeps-IsArrived :
    (out : TxOut) (db db' : Database) → Keeps db db' → IsArrived out db → IsArrived out db'
Keeps-IsArrived out db db' keeps (s, c) =
    let (s', id, stays) = Keeps-IsSent out db db' keeps s in (s', stays c)

module _ (env : Surroundings) (first : (db : Database) → Keeps db (env.first db))
    (second : (db : Database) → Keeps db (env.second db)) (out : TxOut) where
  pub rolled_back-Keeps : (db : Database) → Keeps db (rolled_back env db)
  rolled_back-Keeps db =
      Keeps-trans db (env.first db) (rolled_back env db) (first db) (second (env.first db))

  -- The store after a settlement of an output, with the rows of the store before the writes.
  settle-IsKeyed :
      (x : TxOut) (w : Withdrawal) (db db' : Database)
      → settle env x w db ≡ ok db'
      → IsKeyed WithdrawalRow.id db.withdrawals
      → IsKeyed WithdrawalRow.id db'.withdrawals
  settle-IsKeyed x w db db' h keyed =
      let (r, loaded, is_open, owner, free, last) = settle_parts env x w db db' h in
      rw last (
        upsert-IsKeyed WithdrawalRow.id (withdrawal_row (confirmed_by env x w))
          (env.second db).withdrawals ((second db).keyed keyed))

  settle-IsSent :
      (x : TxOut) (w : Withdrawal) (db db' : Database) (s : IsSent out db) (y : IsSent x db)
      → (x.tx.id == out.tx.id && eqb_ℤ x.v_out out.v_out) ≡ false
      → y.row.id ≡ w.id
      → IsKeyed WithdrawalRow.id db.withdrawals
      → settle env x w db ≡ ok db'
      → (s' : IsSent out db') × (is_some s.row.confirmed ≡ true → is_some s'.row.confirmed ≡ true)
  settle-IsSent x w db db' s y other id keyed h =
      let (r, loaded, is_open, owner, free, last) = settle_parts env x w db db' h in
      let (s₁, id₁, stays) = Keeps-IsSent out db (env.second db) (second db) s in
      let (y₁, id₂, _) = Keeps-IsSent x db (env.second db) (second db) y in
      let (s₂, same) =
        with_withdrawal-IsSent out x (env.second db) (confirmed_by env x w) s₁ y₁ other refl
          (id₂ ∙ id) ((second db).keyed keyed) in
      rw last (
        record { row = s₂.row; tx_out = s₂.tx_out; found = s₂.found; joined = s₂.joined },
        λ c. ap (λ row. is_some row.confirmed) same ∙ stays c,
      )

  -- The withdrawal of the output has its rows still, and it is confirmed if it was.
  abbrev pub Holds : Database → Database → Type 0
  Holds db db' = IsFit out db' × (IsArrived out db → IsArrived out db')

  pub Keeps-Holds : (db db' : Database) → Keeps db db' → IsFit out db → Holds db db'
  Keeps-Holds db db' keeps fit =
      (Keeps-IsFit out db db' keeps fit, Keeps-IsArrived out db db' keeps)

  module _ (x : TxOut) (w : Withdrawal) (db db' : Database) (fit : IsFit out db)
      (e : get_by_tx_out db x.tx.id x.v_out ≡ some w)
      (h : settle env x w (env.first db) ≡ ok db') where
    keyed' : IsKeyed WithdrawalRow.id db'.withdrawals
    keyed' = settle-IsKeyed x w (env.first db) db' h ((first db).keyed fit.keyed)

    other_settled :
        (x.tx.id == out.tx.id && eqb_ℤ x.v_out out.v_out) ≡ false
        → (s : IsSent out db)
        → (s' : IsSent out db') × (is_some s.row.confirmed ≡ true → is_some s'.row.confirmed ≡ true)
    other_settled other s =
        let (y, id, _) = get-IsSent x db w e in
        let (s₁, id₁, stays₁) = Keeps-IsSent out db (env.first db) (first db) s in
        let (y₁, id₂, _) = Keeps-IsSent x db (env.first db) (first db) y in
        let (s₂, stays₂) =
          settle-IsSent x w (env.first db) db' s₁ y₁ other (id₂ ∙ id) ((first db).keyed fit.keyed)
            h in
        (s₂, λ c. stays₂ (stays₁ c))

    pub same_settled : x.tx.id ≡ out.tx.id → x.v_out ≡ out.v_out → IsArrived out db'
    same_settled id index =
        let (r, loaded, is_open, stored, read) = settle_stores env x w (env.first db) db' h in
        let (s, _, confirmed) = get-IsSent out db' _ (rw (id, index) at read) in
        (s, ap is_some confirmed)

    settled-Holds : Holds db db'
    settled-Holds = elim (Bool-cases (x.tx.id == out.tx.id && eqb_ℤ x.v_out out.v_out)) [
      | inl same ↦
          let arrived = same_settled (ground arith) (ground (arith, eqb_ℤ_iff x.v_out out.v_out)) in
          (record { sent = arrived.0; keyed = keyed' }, λ before. arrived)
      | inr other ↦ (
        record { sent = (other_settled other fit.sent).0; keyed = keyed' },
        λ (s, c). let (s', stays) = other_settled other s in (s', stays c),
      )
    ]

  module _ (x : TxOut) (db : Database) (fit : IsFit out db) where
    found-Holds :
        (found : Option Withdrawal)
        → get_by_tx_out db x.tx.id x.v_out ≡ found
        → Holds db
            (transaction env db (do db' ← settle_found env x found (env.first db); ok (tt, db'))).1
    found-Holds none e = Keeps-Holds db (env.first db) (first db) fit
    found-Holds (some w) e = elim (Bool-cases (is_confirmed w)) [
      | inl before ↦ rw before (Keeps-Holds db (env.first db) (first db) fit)
      | inr fresh ↦ elim (Outcome-cases (settle env x w (env.first db))) [
        | inl (db', h) ↦ rw (fresh, h) (settled-Holds x w db db' fit e h)
        | inr (inl (problem, h)) ↦
            rw (fresh, h) (Keeps-Holds db (rolled_back env db) (rolled_back-Keeps db) fit)
        | inr (inr h) ↦
            rw (fresh, h) (Keeps-Holds db (rolled_back env db) (rolled_back-Keeps db) fit)
      ]
    ]

    -- A call of the listener, whatever it is for and however it ends, undoes nothing.
    pub process-Holds : Holds db (process env x db).1
    unfolding process
    process-Holds = elim (Bool-cases (tx_is_confirmed x.tx)) [
      | inl deep ↦ rw deep (found-Holds (get_by_tx_out db x.tx.id x.v_out) refl)
      | inr shallow ↦ rw shallow (fit, λ before. before)
    ]

  found-IsKeyed :
      (x : TxOut) (db : Database) (found : Option Withdrawal)
      → IsKeyed WithdrawalRow.id db.withdrawals
      → IsKeyed WithdrawalRow.id
          (transaction env db
            (do db' ← settle_found env x found (env.first db); ok (tt, db'))).1.withdrawals
  found-IsKeyed x db none keyed = (first db).keyed keyed
  found-IsKeyed x db (some w) keyed = elim (Bool-cases (is_confirmed w)) [
    | inl before ↦ rw before ((first db).keyed keyed)
    | inr fresh ↦ elim (Outcome-cases (settle env x w (env.first db))) [
      | inl (db', h) ↦
          rw (fresh, h) (settle-IsKeyed x w (env.first db) db' h ((first db).keyed keyed))
      | inr (inl (problem, h)) ↦ rw (fresh, h) ((rolled_back-Keeps db).keyed keyed)
      | inr (inr h) ↦ rw (fresh, h) ((rolled_back-Keeps db).keyed keyed)
    ]
  ]

  -- The ids of the withdrawals stay distinct in a call of the listener, whatever it is for.
  pub process-IsKeyed :
      (x : TxOut) (db : Database)
      → IsKeyed WithdrawalRow.id db.withdrawals
      → IsKeyed WithdrawalRow.id (process env x db).1.withdrawals
  unfolding process
  process-IsKeyed x db keyed = elim (Bool-cases (tx_is_confirmed x.tx)) [
    | inl deep ↦ rw deep (found-IsKeyed x db (get_by_tx_out db x.tx.id x.v_out) keyed)
    | inr shallow ↦ rw shallow keyed
  ]

  -- A call for the output that succeeds leaves its withdrawal confirmed.
  pub process_arrives :
      (db db' : Database)
      → tx_is_confirmed out.tx ≡ true
      → IsFit out db
      → process env out db ≡ (ok tt, db')
      → IsArrived out db'
  unfolding is_confirmed
  process_arrives db db' t fit h =
      let w = into_entity fit.sent.row fit.sent.tx_out.block_height in
      let e = IsSent-get out db fit.sent in
      elim (Bool-cases (is_confirmed w)) [
        | inl before ↦
            let same : env.first db ≡ db' =
              ap (λ r. r.1) (sym (process_done env out db (some w) t e before) ∙ h) in
            subst (IsArrived out) same
              (Keeps-IsArrived out db (env.first db) (first db) (fit.sent, before))
        | inr fresh ↦
            let (r, loaded, is_open, stored, read) = process_debits env out db db' t w e fresh h in
            let (s, _, confirmed) = get-IsSent out db' _ read in (s, ap is_some confirmed)
      ]
