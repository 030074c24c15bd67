-- ===== src/Deposit/RoundTrip.antt =====
-- app/src/deposit/mod.rs: what is read back of a deposit that was written.
use laas_api.Base.{
  List, upsert, find-upsert_any, true, ◌&&◌, not, ◌==◌, ◌≡◌, refl, some, none, find,
  find-upsert_self, find-upsert_only, Option-cases, inl, inr, ok, arith,
}
use laas_api.Int.{ℤ, eqb_ℤ, eqb_ℤ_iff}
use laas_api.Btc.{TxId, TxOut}
use laas_api.Database.{Database, TxOutRow}
use laas_api.Deposit.{Deposit}
use laas_api.Deposit.Queries.{
  get, upsert_deposit, with_deposit, deposit_row, tx_out_row, is_tx_out, is_deposit_of,
  has_deposit_id, join,
}

pub eqb_ℤ_refl : (a : ℤ) → eqb_ℤ a a ≡ true
eqb_ℤ_refl a = (eqb_ℤ_iff a a).1 refl

is_tx_out-eq :
    (tx_id i : TxId) (v_out j : ℤ) (x v : TxOutRow)
    → is_tx_out tx_id v_out v ≡ true
    → is_tx_out tx_id v_out x ≡ true
    → is_tx_out i j x ≡ is_tx_out i j v
is_tx_out-eq tx_id i v_out j x v e f =
    ground (arith, eqb_ℤ_iff v.v_out v_out, eqb_ℤ_iff x.v_out v_out)

-- A write of an output keeps every output.
pub upsert-tx_outs :
    (t : TxOut) (tx_id : TxId) (v_out : ℤ) (row : TxOutRow) (rows : List TxOutRow)
    → find (is_tx_out tx_id v_out) rows ≡ some row
    → (row' : TxOutRow) × (find
          (is_tx_out tx_id v_out)
          (upsert (is_tx_out t.tx.id t.v_out) (tx_out_row t) rows)
        ≡ some row')
upsert-tx_outs t tx_id v_out row rows e =
    let o = tx_out_row t in
    let itself : is_tx_out o.tx_id o.v_out o ≡ true = ground (arith, eqb_ℤ_refl o.v_out) in
    find-upsert_any (is_tx_out o.tx_id o.v_out) (is_tx_out tx_id v_out) o row rows e
      (λ x same. is_tx_out-eq o.tx_id tx_id o.v_out v_out x o itself same)

joined :
    (db : Database) (d : Deposit)
    → find (is_tx_out d.tx_out.tx.id d.tx_out.v_out) db.tx_outs ≡ some (tx_out_row d.tx_out)
    → join db (deposit_row d) ≡ some d
joined db d e = rw (e, join)

-- A query sees the two tables of the deposits only.
pub get-users :
    (db₁ db₂ : Database) (tx_id : TxId) (v_out : ℤ)
    → db₁.deposits ≡ db₂.deposits
    → db₁.tx_outs ≡ db₂.tx_outs
    → get db₁ tx_id v_out ≡ get db₂ tx_id v_out
unfolding get
get-users db₁ db₂ tx_id v_out e o =
    elim (Option-cases (find (is_deposit_of tx_id v_out) db₁.deposits)) [
      | inl a ↦ ground arith
      | inr (row, a) ↦ ground arith
    ]

module _ (db db' : Database) (d : Deposit) (success : upsert_deposit db d ≡ ok db') where
  others_absent :
      find
        (λ row. is_deposit_of d.tx_out.tx.id d.tx_out.v_out row && not (row.id == d.id))
        db.deposits
      ≡ none
  unfolding upsert_deposit
  others_absent = ground arith

  -- A successful upsert puts both rows in place.
  pub upsert_deposit-eq : db' ≡ with_deposit db d
  unfolding upsert_deposit
  upsert_deposit-eq = ground arith

  -- A deposit that was written is the one that is read back for its transaction and output index.
  pub get-upsert_deposit : get db' d.tx_out.tx.id d.tx_out.v_out ≡ some d
  unfolding get
  get-upsert_deposit =
      let tx_id = d.tx_out.tx.id in
      let v_out = d.tx_out.v_out in
      let row_of : is_deposit_of tx_id v_out (deposit_row d) ≡ true =
        ground (arith, eqb_ℤ_refl v_out) in
      let out_of : is_tx_out tx_id v_out (tx_out_row d.tx_out) ≡ true =
        ground (arith, eqb_ℤ_refl v_out) in
      let outs = find-upsert_self (is_tx_out tx_id v_out) (tx_out_row d.tx_out) db.tx_outs out_of in
      let rows =
        find-upsert_only (has_deposit_id d.id) (is_deposit_of tx_id v_out) (deposit_row d)
          db.deposits others_absent row_of in
      rw upsert_deposit-eq (rw rows (joined (with_deposit db d) d outs))
