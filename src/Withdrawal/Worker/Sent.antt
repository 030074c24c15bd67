-- ===== src/Withdrawal/Worker/Sent.antt =====
-- app/src/withdrawal/mod.rs: the rows of a withdrawal that was sent, and what a write leaves of them.
use laas_api.Base.{
  ◌&&◌, ◌==◌, ◌≡◌, ◌≢◌, refl, true, false, some, find, find-upsert_kept, find_sound, find-IsKeyed,
  IsKeyed, is_some, Option, none, arith, ap, ◌∙◌, sym, subst, ==_iff, Option-cases, Bool-cases, inl,
  inr,
}
use laas_api.Int.{ℤ, eqb_ℤ, eqb_ℤ_iff}
use laas_api.Btc.{TxId, TxOut}
use laas_api.Database.{Database, WithdrawalRow, TxOutRow}
use laas_api.Deposit.Queries.{is_tx_out}
use laas_api.Deposit.RoundTrip.{upsert-tx_outs}
use laas_api.Withdrawal.{Withdrawal}
use laas_api.Withdrawal.Rows.{
  get_by_tx_out, is_withdrawal_of, with_withdrawal, with_tx_out, withdrawal_row, has_withdrawal_id,
  into_entity, is_output,
}

-- The rows of the withdrawal that an output belongs to.
pub record IsSent (out : TxOut) (db : Database) : Type 0 where
  pub row : WithdrawalRow
  pub tx_out : TxOutRow
  pub found : find (is_withdrawal_of out.tx.id out.v_out) db.withdrawals ≡ some row
  pub joined : find (is_tx_out out.tx.id out.v_out) db.tx_outs ≡ some tx_out

-- The withdrawal is confirmed, too.
abbrev pub IsArrived : TxOut → Database → Type 0
IsArrived out db = (s : IsSent out db) × (is_some s.row.confirmed ≡ true)

pub get-IsSent :
    (out : TxOut) (db : Database) (w : Withdrawal)
    → get_by_tx_out db out.tx.id out.v_out ≡ some w
    → (s : IsSent out db) × (s.row.id ≡ w.id) × (s.row.confirmed ≡ w.confirmed)
unfolding get_by_tx_out
get-IsSent out db w e =
    elim (Option-cases (find (is_withdrawal_of out.tx.id out.v_out) db.withdrawals)) [
      | inl missing ↦ absurd (ground arith)
      | inr (row, f) ↦ elim (Option-cases (find (is_tx_out out.tx.id out.v_out) db.tx_outs)) [
        | inl missing ↦ absurd (ground arith)
        | inr (o, j) ↦
            let same : into_entity row o.block_height ≡ w = ground arith in
            (
              record { row = row; tx_out = o; found = f; joined = j },
              ap (λ x. x.id) same,
              ap (λ x. x.confirmed) same,
            )
      ]
    ]

pub IsSent-get :
    (out : TxOut) (db : Database) (s : IsSent out db)
    → get_by_tx_out db out.tx.id out.v_out ≡ some (into_entity s.row s.tx_out.block_height)
unfolding get_by_tx_out
IsSent-get out db s = rw (s.found, s.joined, get_by_tx_out) refl

-- What others may do to the store during a call: every withdrawal keeps its output and its id and stays
-- confirmed, the ids stay distinct, and no output is dropped.
pub record Keeps (db db' : Database) : Type 0 where
  pub sent :
      (tx_id : TxId) (v_out : ℤ) (row : WithdrawalRow)
      → find (is_withdrawal_of tx_id v_out) db.withdrawals ≡ some row
      → (row' : WithdrawalRow) × (find (is_withdrawal_of tx_id v_out) db'.withdrawals ≡ some row')
        × (row'.id ≡ row.id)
        × (is_some row.confirmed ≡ true → is_some row'.confirmed ≡ true)
  pub tx_outs :
      (tx_id : TxId) (v_out : ℤ) (row : TxOutRow)
      → find (is_tx_out tx_id v_out) db.tx_outs ≡ some row
      → (row' : TxOutRow) × (find (is_tx_out tx_id v_out) db'.tx_outs ≡ some row')
  pub keyed : IsKeyed WithdrawalRow.id db.withdrawals → IsKeyed WithdrawalRow.id db'.withdrawals

pub keeps_refl : (db : Database) → Keeps db db
keeps_refl db = record {
  sent = λ tx_id v_out row e. (row, e, refl, λ c. c);
  tx_outs = λ tx_id v_out row e. (row, e);
  keyed = λ k. k;
}

pub Keeps-trans : (a b c : Database) → Keeps a b → Keeps b c → Keeps a c
Keeps-trans a b c p q = record {
  sent = λ tx_id v_out row e.
      let (row₁, found₁, id₁, stays₁) = p.sent tx_id v_out row e in
      let (row₂, found₂, id₂, stays₂) = q.sent tx_id v_out row₁ found₁ in
      (row₂, found₂, id₂ ∙ id₁, λ c. stays₂ (stays₁ c));
  tx_outs = λ tx_id v_out row e.
      let (row₁, found₁) = p.tx_outs tx_id v_out row e in q.tx_outs tx_id v_out row₁ found₁;
  keyed = λ k. q.keyed (p.keyed k);
}

pub Keeps-IsSent :
    (out : TxOut) (db db' : Database)
    → Keeps db db'
    → (s : IsSent out db)
    → (s' : IsSent out db') × (s'.row.id ≡ s.row.id)
      × (is_some s.row.confirmed ≡ true → is_some s'.row.confirmed ≡ true)
Keeps-IsSent out db db' keeps s =
    let (row, found, id, stays) = keeps.sent out.tx.id out.v_out s.row s.found in
    let (o, joined) = keeps.tx_outs out.tx.id out.v_out s.tx_out s.joined in
    (record { row = row; tx_out = o; found = found; joined = joined }, id, stays)

same_output :
    (a : Option TxId) (b : Option ℤ) (i j : TxId) (v w : ℤ)
    → is_output a b i v ≡ true
    → is_output a b j w ≡ true
    → (i == j && eqb_ℤ v w) ≡ true
same_output none b i j v w p q = absurd (ground arith)
same_output (some t) none i j v w p q = absurd (ground arith)
same_output (some t) (some o) i j v w p q =
    ground (arith, eqb_ℤ_iff o v, eqb_ℤ_iff o w, eqb_ℤ_iff v w)

other_row :
    (out x : TxOut) (v w : WithdrawalRow)
    → (x.tx.id == out.tx.id && eqb_ℤ x.v_out out.v_out) ≡ false
    → is_withdrawal_of x.tx.id x.v_out v ≡ true
    → is_withdrawal_of out.tx.id out.v_out w ≡ true
    → v ≢ w
other_row out x v w other p q same =
    let q' : is_withdrawal_of out.tx.id out.v_out v ≡ true = rw same q in
    let clash = same_output v.tx_id v.v_out x.tx.id out.tx.id x.v_out out.v_out p q' in
    absurd (ground arith)

-- A write of another withdrawal, by its output, leaves the rows of this one as they are.
pub with_withdrawal-IsSent :
    (out x : TxOut) (db : Database) (w : Withdrawal) (s : IsSent out db) (y : IsSent x db)
    → (x.tx.id == out.tx.id && eqb_ℤ x.v_out out.v_out) ≡ false
    → w.tx_out ≡ some x
    → y.row.id ≡ w.id
    → IsKeyed WithdrawalRow.id db.withdrawals
    → (s' : IsSent out (with_withdrawal db w)) × (s'.row ≡ s.row)
with_withdrawal-IsSent out x db w s y other sent id keyed =
    let (o, joined) = upsert-tx_outs x out.tx.id out.v_out s.tx_out db.tx_outs s.joined in
    (
      record {
        row = s.row;
        tx_out = o;
        found =
            find-upsert_kept (has_withdrawal_id w.id) (is_withdrawal_of out.tx.id out.v_out)
              (withdrawal_row w) s.row db.withdrawals s.found
              (elim (Bool-cases (s.row.id == w.id)) [
                | inl clash ↦ absurd (
                    other_row out x y.row s.row other
                      (find_sound (is_withdrawal_of x.tx.id x.v_out) db.withdrawals y.found)
                      (find_sound (is_withdrawal_of out.tx.id out.v_out) db.withdrawals s.found)
                      (find-IsKeyed WithdrawalRow.id (is_withdrawal_of x.tx.id x.v_out)
                        (is_withdrawal_of out.tx.id out.v_out) y.row s.row db.withdrawals keyed
                        y.found s.found (id ∙ sym ((==_iff s.row.id w.id).0 clash))))
                | inr differs ↦ differs
              ])
              (rw sent other);
        joined =
            subst (λ t. find (is_tx_out out.tx.id out.v_out) (with_tx_out t db.tx_outs) ≡ some o)
              (sym sent) joined;
      },
      refl,
    )
