-- ===== src/Deposit/Worker/Inserts.antt =====
-- app/src/deposit/mod.rs: what a write of a deposit leaves of the others.
use laas_api.Base.{
  find-upsert_kept, true, false, ◌≡◌, refl, some, find, ok, is_some, arith, inl, inr, ◌∙◌, ap,
  Option-cases,
}
use laas_api.Int.{ℤ}
use laas_api.Btc.{TxOut, TxId}
use laas_api.Database.{Database, DepositRow, TxOutRow}
use laas_api.Btc
use laas_api.Deposit.{Address, Deposit, is_confirmed}
use laas_api.Deposit.Queries.{
  join, join?, deposit_entity, get_address, get, upsert_deposit, deposit_row, is_tx_out,
  is_deposit_of, has_deposit_id,
}
use laas_api.Deposit.RoundTrip.{upsert_deposit-eq, upsert-tx_outs}

-- The rows of a confirmed deposit of an output.
pub record IsArrived (out : TxOut) (db : Database) : Type 0 where
  pub row : DepositRow
  pub tx_out : TxOutRow
  pub found : find (is_deposit_of out.tx.id out.v_out) db.deposits ≡ some row
  pub joined : find (is_tx_out row.tx_id row.v_out) db.tx_outs ≡ some tx_out
  pub confirmed : is_some row.confirmed ≡ true

pub get-IsArrived :
    (out : TxOut) (db : Database) (d : Deposit)
    → get db out.tx.id out.v_out ≡ some d
    → is_confirmed d ≡ true
    → IsArrived out db
unfolding get is_confirmed
get-IsArrived out db d e c =
    elim (Option-cases (find (is_deposit_of out.tx.id out.v_out) db.deposits)) [
      | inl missing ↦ absurd (ground arith)
      | inr (row, f) ↦ elim (Option-cases (find (is_tx_out row.tx_id row.v_out) db.tx_outs)) [
        | inl missing ↦ absurd (ground arith)
        | inr (o, j) ↦ record {
          row = row;
          tx_out = o;
          found = f;
          joined = j;
          confirmed = ground arith;
        }
      ]
    ]

-- The deposit of these rows is read back as confirmed.
pub IsArrived-get :
    (out : TxOut) (db : Database)
    → IsArrived out db
    → (d : Deposit) × (get db out.tx.id out.v_out ≡ some d) × (is_confirmed d ≡ true)
unfolding get is_confirmed
IsArrived-get out db a =
    (deposit_entity a.row a.tx_out, rw (a.found, a.joined, join?, join) refl, a.confirmed)

-- What others may do to the store during a call: they write no deposit, drop no address, and no output.
pub record Keeps (db db' : Database) : Type 0 where
  pub deposits : db'.deposits ≡ db.deposits
  pub tx_outs :
      (tx_id : TxId) (v_out : ℤ) (row : TxOutRow)
      → find (is_tx_out tx_id v_out) db.tx_outs ≡ some row
      → (row' : TxOutRow) × (find (is_tx_out tx_id v_out) db'.tx_outs ≡ some row')
  pub addresses :
      (address : Btc.Address) (a : Address)
      → get_address db address ≡ some a
      → (a' : Address) × (get_address db' address ≡ some a')

pub keeps_refl : (db : Database) → Keeps db db
keeps_refl db = record {
  deposits = refl;
  tx_outs = λ tx_id v_out row e. (row, e);
  addresses = λ address a e. (a, e);
}

pub Keeps-trans : (a b c : Database) → Keeps a b → Keeps b c → Keeps a c
Keeps-trans a b c p q = record {
  deposits = q.deposits ∙ p.deposits;
  tx_outs = λ tx_id v_out row e.
      let (row', found) = p.tx_outs tx_id v_out row e in q.tx_outs tx_id v_out row' found;
  addresses =
      λ address x e. let (x', found) = p.addresses address x e in q.addresses address x' found;
}

pub Keeps-IsArrived :
    (out : TxOut) (db db' : Database) → Keeps db db' → IsArrived out db → IsArrived out db'
Keeps-IsArrived out db db' keeps a =
    let (o, j) = keeps.tx_outs a.row.tx_id a.row.v_out a.tx_out a.joined in
    record {
      row = a.row;
      tx_out = o;
      found = ap (find (is_deposit_of out.tx.id out.v_out)) keeps.deposits ∙ a.found;
      joined = j;
      confirmed = a.confirmed;
    }

-- A write of a deposit keeps every output.
pub upsert_deposit-tx_outs :
    (db db' : Database) (d : Deposit) (tx_id : TxId) (v_out : ℤ) (row : TxOutRow)
    → upsert_deposit db d ≡ ok db'
    → find (is_tx_out tx_id v_out) db.tx_outs ≡ some row
    → (row' : TxOutRow) × (find (is_tx_out tx_id v_out) db'.tx_outs ≡ some row')
upsert_deposit-tx_outs db db' d tx_id v_out row h e =
    let (row', found) = upsert-tx_outs d.tx_out tx_id v_out row db.tx_outs e in
    (row', ap (λ x. find (is_tx_out tx_id v_out) x.tx_outs) (upsert_deposit-eq db db' d h) ∙ found)

-- A write of another deposit of another output leaves a confirmed one as it is.
pub upsert_deposit-IsArrived :
    (out : TxOut) (db db' : Database) (d : Deposit) (a : IsArrived out db)
    → upsert_deposit db d ≡ ok db'
    → has_deposit_id d.id a.row ≡ false
    → is_deposit_of out.tx.id out.v_out (deposit_row d) ≡ false
    → IsArrived out db'
upsert_deposit-IsArrived out db db' d a h other_id other_out =
    let (o, j) = upsert_deposit-tx_outs db db' d a.row.tx_id a.row.v_out a.tx_out h a.joined in
    record {
      row = a.row;
      tx_out = o;
      found =
          ap (λ x. find (is_deposit_of out.tx.id out.v_out) x.deposits)
            (upsert_deposit-eq db db' d h)
          ∙ find-upsert_kept (has_deposit_id d.id) (is_deposit_of out.tx.id out.v_out)
              (deposit_row d) a.row db.deposits a.found other_id other_out;
      joined = j;
      confirmed = a.confirmed;
    }
