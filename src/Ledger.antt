-- ===== src/Ledger.antt =====
-- The ledger: the writers of crates/passbook-core/src/ledger/writer.rs, each one transaction of SQL
-- statements, and `resume_head` and `health` of ledger/queries.rs.
pub mod Table
pub mod Rows
pub mod Written
pub mod Meta
pub mod Replay
pub mod Reorg
pub mod Undo
pub mod Queries
pub mod Pages
pub mod Ordering
pub mod Cursor
pub mod Matches
pub mod Drain
use passbook.Prelude.{
  ℕ, suc, Bool, true, false, not, ◌&&◌, Option, none, some, List, [], ◌∷◌, ◌++◌, map, keep, ◌==◌,
  if◌then◌else◌,
}
use passbook.Prelude.Text.{Text, codes, text_eq}
use passbook.Prelude.Decimal.{to_string, parse_u64}
use passbook.Prelude.Hex.{Formats}
use passbook.Model.{
  EthTransferRow, Erc20TransferRow, GasPaymentRow, UnattributedDeltaRow, BlockBatch,
  block_not_delivered,
}
use passbook.Ledger.Table.{insert_or_replace}
use passbook.Ledger.Rows.{
  EthRecord, Erc20Record, GasRecord, UnattributedRecord, same_eth, same_erc20, same_gas,
  same_unattributed, eth_record, erc20_record, gas_record, unattributed_record,
}

pub record Db : Type 0 where
  pub eth_transfers : List EthRecord
  pub erc20_transfers : List Erc20Record
  pub gas_payments : List GasRecord
  pub unattributed_deltas : List UnattributedRecord
  pub meta : List (Text × Text)

-- `SELECT v FROM meta WHERE k = key`
unfoldable pub get_meta : Text → List (Text × Text) → Option Text
get_meta key [] = none
get_meta key ((k, v) ∷ m) = if text_eq k key then some v else get_meta key m

-- `INSERT INTO meta(k,v) VALUES(key, value) ON CONFLICT(k) DO UPDATE SET v=excluded.v`
unfoldable pub put_meta : Text → Text → List (Text × Text) → List (Text × Text)
put_meta key value [] = (key, value) ∷ []
put_meta key value ((k, v) ∷ m) =
    let rest = put_meta key value m in if text_eq k key then (k, value) ∷ m else (k, v) ∷ rest

-- The effect of a statement that succeeds.
abbrev pub Statement : Type 0
Statement = Db → Db

-- A transaction: `faults k` says that SQLite refuses its k-th statement, or the commit, which is the
-- last; the changes are then rolled back when `tx` is dropped.
unfoldable pub run_statements : (ℕ → Bool) → ℕ → List Statement → Db → Option Db
run_statements faults k [] db = if faults k then none else some db
run_statements faults k (s ∷ ss) db =
    let rest = run_statements faults (suc k) ss (s db) in if faults k then none else rest

abbrev pub commit_or_rollback : Db → Option Db → Bool × Db
commit_or_rollback db none = (false, db)
commit_or_rollback db (some db') = (true, db')

unfoldable pub transaction : (ℕ → Bool) → List Statement → Db → Bool × Db
unfolding run_statements
transaction faults ss db = commit_or_rollback db (run_statements faults 0 ss db)

unfoldable pub set_last_block : ℕ → Statement
set_last_block n db = record db { meta = put_meta (codes "last_block") (to_string n) db.meta }

abbrev pub gap_row : ℕ → ℕ → ℕ → ℕ → UnattributedDeltaRow
gap_row chain_id block_number block_hash addr = record {
  chain_id = chain_id;
  block_number = block_number;
  block_hash = block_hash;
  address = addr;
  observed_wei = 0;
  attributed_wei = 0;
  residual_wei = 0;
  cause = block_not_delivered;
}

-- `DELETE FROM {table} WHERE chain_id=?1 AND block_hash=?2`, for each table in turn
unfoldable pub delete_eth : ℕ → Text → Statement
delete_eth chain_id hs db = record db {
  eth_transfers =
      keep (λ r. not (r.chain_id == chain_id && text_eq r.block_hash hs)) db.eth_transfers;
}

unfoldable pub delete_erc20 : ℕ → Text → Statement
delete_erc20 chain_id hs db = record db {
  erc20_transfers =
      keep (λ r. not (r.chain_id == chain_id && text_eq r.block_hash hs)) db.erc20_transfers;
}

unfoldable pub delete_gas : ℕ → Text → Statement
delete_gas chain_id hs db = record db {
  gas_payments =
      keep (λ r. not (r.chain_id == chain_id && text_eq r.block_hash hs)) db.gas_payments;
}

unfoldable pub delete_unattributed : ℕ → Text → Statement
delete_unattributed chain_id hs db = record db {
  unattributed_deltas =
      keep (λ r. not (r.chain_id == chain_id && text_eq r.block_hash hs)) db.unattributed_deltas;
}

-- `.ok().and_then(|s| s.parse().ok())`
abbrev pub and_then : Option Text → (Text → Option ℕ) → Option ℕ
and_then none f = none
and_then (some s) f = f s

abbrev pub both_of : Option ℕ → Option ℕ → Option (ℕ × ℕ)
both_of (some n) (some h) = some (n, h)
both_of (some n) none = none
both_of none h = none

module _ (fmt : Formats) where
  unfoldable pub insert_eth : EthTransferRow → Statement
  insert_eth r db = record db {
    eth_transfers = insert_or_replace same_eth (eth_record fmt r) db.eth_transfers;
  }

  unfoldable pub insert_erc20 : Erc20TransferRow → Statement
  insert_erc20 r db = record db {
    erc20_transfers = insert_or_replace same_erc20 (erc20_record fmt r) db.erc20_transfers;
  }

  unfoldable pub insert_gas : GasPaymentRow → Statement
  insert_gas r db = record db {
    gas_payments = insert_or_replace same_gas (gas_record fmt r) db.gas_payments;
  }

  unfoldable pub insert_unattributed : UnattributedDeltaRow → Statement
  insert_unattributed r db = record db {
    unattributed_deltas =
        insert_or_replace same_unattributed (unattributed_record fmt r) db.unattributed_deltas;
  }

  unfoldable pub set_last_block_hash : ℕ → Statement
  set_last_block_hash h db = record db {
    meta = put_meta (codes "last_block_hash") (fmt.hex_b256 h) db.meta;
  }

  abbrev pub block_statements : BlockBatch → List Statement
  block_statements b =
      map insert_eth b.eth
      ++ (map insert_erc20 b.erc20
          ++ (map insert_gas b.gas
              ++ (map insert_unattributed b.unattributed
                  ++ (set_last_block b.block_number ∷ set_last_block_hash b.block_hash ∷ []))))

  -- Each writer says whether it succeeded, with the database that it leaves.
  unfoldable pub write_block : (ℕ → Bool) → BlockBatch → Db → Bool × Db
  unfolding transaction insert_eth insert_erc20 insert_gas insert_unattributed set_last_block
      set_last_block_hash
  write_block faults b = transaction faults (block_statements b)

  unfoldable pub write_unattributed : (ℕ → Bool) → UnattributedDeltaRow → Db → Bool × Db
  unfolding transaction insert_unattributed
  write_unattributed faults r = transaction faults (insert_unattributed r ∷ [])

  unfoldable pub write_gap_block_marker : (ℕ → Bool) → ℕ → ℕ → ℕ → List ℕ → Db → Bool × Db
  unfolding transaction insert_unattributed set_last_block set_last_block_hash
  write_gap_block_marker faults chain_id block_number block_hash watched = transaction faults (
      map (λ addr. insert_unattributed (gap_row chain_id block_number block_hash addr)) watched
      ++ (set_last_block block_number ∷ set_last_block_hash block_hash ∷ []))

  unfoldable pub delete_statements : ℕ → List ℕ → List Statement
  unfolding delete_eth delete_erc20 delete_gas delete_unattributed
  delete_statements chain_id [] = []
  delete_statements chain_id (bh ∷ hashes) =
      delete_eth chain_id (fmt.hex_b256 bh)
      ∷ delete_erc20 chain_id (fmt.hex_b256 bh)
      ∷ delete_gas chain_id (fmt.hex_b256 bh)
      ∷ delete_unattributed chain_id (fmt.hex_b256 bh)
      ∷ delete_statements chain_id hashes

  unfoldable pub delete_blocks : (ℕ → Bool) → ℕ → List ℕ → Db → Bool × Db
  unfolding transaction delete_statements
  delete_blocks faults chain_id hashes = transaction faults (delete_statements chain_id hashes)

  unfoldable pub resume_head : Db → Option (ℕ × ℕ)
  unfolding get_meta
  resume_head db =
      both_of (and_then (get_meta (codes "last_block") db.meta) parse_u64)
        (and_then (get_meta (codes "last_block_hash") db.meta) fmt.parse_b256)
