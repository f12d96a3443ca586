-- ===== src/Opening/Statements.antt =====
-- A database file and the SQL statements that create and migrate it: crates/passbook-core/src/ledger/schema.rs
-- and the statements of ledger/mod.rs. Indexes hold no rows of their own and are left out.
use passbook.Prelude.{
  ℕ, Bool, true, false, Option, none, some, List, [], ◌∷◌, ◌++◌, map, ◌==◌, ◌&&◌, if◌then◌else◌,
  any,
}
use passbook.Prelude.Text.{Text, codes, text_eq}
use passbook.Ledger.{get_meta}
use passbook.Ledger.Rows.{EthRecord, Erc20Record, GasRecord, UnattributedRecord, same_erc20}

-- A row of `unattributed_deltas` before version 3.
pub record UncausedRecord : Type 0 where
  pub chain_id : ℕ
  pub block_number : ℕ
  pub block_hash : Text
  pub address : Text
  pub observed_wei : Text
  pub attributed_wei : Text
  pub residual_wei : Text

-- The primary key of `erc20_transfers`: version 1 has no `address` in it.
pub data Erc20Key : Type 0 where
  without_address with_address : Erc20Key

pub data UnattributedTable : Type 0 where
  without_cause : List UncausedRecord → UnattributedTable
  with_cause : List UnattributedRecord → UnattributedTable

-- The primary key of `erc20_transfers` in version 1: (chain_id, block_hash, tx_hash, log_index).
unfoldable pub same_erc20_v1 : Erc20Record → Erc20Record → Bool
same_erc20_v1 x y =
    x.chain_id == y.chain_id
    && text_eq x.block_hash y.block_hash
    && text_eq x.tx_hash y.tx_hash
    && x.log_index == y.log_index

-- A database file; a table that does not exist is `none`.
pub record DbFile : Type 0 where
  pub meta : Option (List (Text × Text))
  pub eth_transfers : Option (List EthRecord)
  pub erc20_transfers : Option (Erc20Key × List Erc20Record)
  pub erc20_transfers_v2 : Option (List Erc20Record)
  pub gas_payments : Option (List GasRecord)
  pub unattributed_deltas : Option UnattributedTable

-- A statement, or `none` where SQLite fails by its own rules.
abbrev pub FileStatement : Type 0
FileStatement = DbFile → Option DbFile

abbrev pub create_table {ℓ} : {A : Type ℓ} → Option A → DbFile → Option DbFile
create_table none file = some file
create_table (some t) file = none

unfoldable pub create_meta : FileStatement
create_meta file = create_table file.meta (record file { meta = some [] })

unfoldable pub create_eth : FileStatement
create_eth file = create_table file.eth_transfers (record file { eth_transfers = some [] })

unfoldable pub create_erc20 : FileStatement
create_erc20 file =
    create_table file.erc20_transfers (record file { erc20_transfers = some (with_address, []) })

unfoldable pub create_gas : FileStatement
create_gas file = create_table file.gas_payments (record file { gas_payments = some [] })

unfoldable pub create_unattributed : FileStatement
create_unattributed file =
    create_table file.unattributed_deltas
      (record file { unattributed_deltas = some (with_cause []) })

abbrev pub insert_new : Text → Text → List (Text × Text) → Option Text → Option (List (Text × Text))
insert_new k v m (some old) = none
insert_new k v m none = some (m ++ (k, v) ∷ [])

abbrev pub put_new_meta : DbFile → Option (List (Text × Text)) → Option DbFile
put_new_meta file none = none
put_new_meta file (some m) = some (record file { meta = some m })

abbrev pub insert_in : DbFile → Text → Text → Option (List (Text × Text)) → Option DbFile
insert_in file k v none = none
insert_in file k v (some m) = put_new_meta file (insert_new k v m (get_meta k m))

-- `INSERT INTO meta(k,v) VALUES(k, v)`: a key that is there already is refused.
unfoldable pub insert_meta : Text → Text → FileStatement
unfolding get_meta
insert_meta k v file = insert_in file k v file.meta

-- `UPDATE meta SET v=value WHERE k=key`
unfoldable pub update_meta : Text → Text → List (Text × Text) → List (Text × Text)
update_meta key value [] = []
update_meta key value ((k, v) ∷ m) =
    (k, if text_eq k key then value else v) ∷ update_meta key value m

abbrev pub set_version_in : DbFile → Text → Option (List (Text × Text)) → Option DbFile
set_version_in file v none = none
set_version_in file v (some m) =
    some (record file { meta = some (update_meta (codes "schema_version") v m) })

unfoldable pub set_version : Text → FileStatement
unfolding update_meta
set_version v file = set_version_in file v file.meta

unfoldable pub create_erc20_v2 : FileStatement
create_erc20_v2 file =
    create_table file.erc20_transfers_v2 (record file { erc20_transfers_v2 = some [] })

-- Two rows with one key: INSERT refuses the second.
unfoldable pub has_duplicate : {R : Type 0} → (R → R → Bool) → List R → Bool
has_duplicate same_key [] = false
has_duplicate same_key (r ∷ rs) =
    let rest = has_duplicate same_key rs in if any (λ x. same_key x r) rs then true else rest

abbrev pub copy_in :
    DbFile → Option (Erc20Key × List Erc20Record) → Option (List Erc20Record) → Option DbFile
copy_in file none new = none
copy_in file (some old) none = none
copy_in file (some (key, rows)) (some new) =
    if has_duplicate same_erc20 (new ++ rows)
    then none
    else some (record file { erc20_transfers_v2 = some (new ++ rows) })

-- `INSERT INTO erc20_transfers_v2 SELECT … FROM erc20_transfers`
unfoldable pub copy_erc20 : FileStatement
unfolding has_duplicate same_erc20
copy_erc20 file = copy_in file file.erc20_transfers file.erc20_transfers_v2

abbrev pub drop_in : DbFile → Option (Erc20Key × List Erc20Record) → Option DbFile
drop_in file none = none
drop_in file (some t) = some (record file { erc20_transfers = none })

unfoldable pub drop_erc20 : FileStatement
drop_erc20 file = drop_in file file.erc20_transfers

abbrev pub rename_in :
    DbFile → Option (Erc20Key × List Erc20Record) → Option (List Erc20Record) → Option DbFile
rename_in file (some t) new = none
rename_in file none none = none
rename_in file none (some rows) =
    some (record file { erc20_transfers = some (with_address, rows); erc20_transfers_v2 = none })

unfoldable pub rename_erc20 : FileStatement
rename_erc20 file = rename_in file file.erc20_transfers file.erc20_transfers_v2

-- The default of the new column.
unfoldable pub add_cause : UncausedRecord → UnattributedRecord
add_cause r = record {
  chain_id = r.chain_id;
  block_number = r.block_number;
  block_hash = r.block_hash;
  address = r.address;
  observed_wei = r.observed_wei;
  attributed_wei = r.attributed_wei;
  residual_wei = r.residual_wei;
  cause = codes "unexplained_residual";
}

abbrev pub alter_in : DbFile → Option UnattributedTable → Option DbFile
alter_in file none = none
alter_in file (some (with_cause rows)) = none
alter_in file (some (without_cause rows)) =
    some (record file { unattributed_deltas = some (with_cause (map add_cause rows)) })

unfoldable pub alter_unattributed : FileStatement
unfolding add_cause
alter_unattributed file = alter_in file file.unattributed_deltas
