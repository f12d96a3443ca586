-- ===== src/Tests/Ledger.antt =====
-- The ledger's theorems for one block and an empty database.
use mathlib.Core.List.{Perm}
use passbook.Ledger.Queries.{TransferRowOut, from_gas, order_by_block, page_of}
use passbook.Ledger.Pages.{Complete, Sorted, first_block, page_of-Complete}
use passbook.Ledger.Drain.{drain, drain-Complete}
use passbook.Ledger.Matches.{matches}
use passbook.Ledger.Rows.{GasRecord}
use passbook.Prelude.Text.{codes, text_eq}
use passbook.Prelude.{ℕ, none, List, ◌≡◌, refl, some, [], ◌∷◌, true, arith, length, ap}
use passbook.Prelude.Hex.{lower_hex}
use passbook.Ledger.{Db, write_block, delete_blocks, resume_head}
use passbook.Ledger.Written.{written, AllOrNothing, write_block-AllOrNothing, write_block_calm}
use passbook.Ledger.Meta.{resume_head-write_block}
use passbook.Ledger.Replay.{write_block_replay}
use passbook.Ledger.Reorg.{forgotten, delete_blocks-AllOrNothing, delete_blocks_calm}
use passbook.Ledger.Undo.{OwnRows, Fresh, delete_blocks-write_block}
use passbook.Tests.Data.{batch_40, empty_db, no_faults, all_faults}

abbrev after_40 : Db
after_40 = written lower_hex batch_40 empty_db

abbrev after_undo : Db
after_undo = forgotten lower_hex 1 (99 ∷ []) after_40

wrote_40 : write_block lower_hex no_faults batch_40 empty_db ≡ (true, after_40)
wrote_40 = write_block_calm lower_hex no_faults batch_40 empty_db (λ n. refl)

undid_40 : delete_blocks lower_hex no_faults 1 (99 ∷ []) after_40 ≡ (true, after_undo)
undid_40 = delete_blocks_calm lower_hex 1 no_faults (99 ∷ []) after_40 (λ n. refl)

write_block-AllOrNothing_example :
    AllOrNothing empty_db
      (written lower_hex batch_40 empty_db)
      (write_block lower_hex all_faults batch_40 empty_db)
write_block-AllOrNothing_example = write_block-AllOrNothing lower_hex all_faults batch_40 empty_db

resume_head-write_block_example : resume_head lower_hex after_40 ≡ some (40, 99)
resume_head-write_block_example =
    resume_head-write_block lower_hex no_faults batch_40 empty_db after_40 (omega arith)
      (omega arith) wrote_40

write_block_replay_example : (write_block lower_hex all_faults batch_40 after_40).1 ≡ after_40
write_block_replay_example =
    write_block_replay lower_hex no_faults all_faults batch_40 empty_db after_40 (refl, tt) wrote_40

delete_blocks-AllOrNothing_example :
    AllOrNothing after_40 after_undo (delete_blocks lower_hex no_faults 1 (99 ∷ []) after_40)
delete_blocks-AllOrNothing_example =
    delete_blocks-AllOrNothing lower_hex 1 no_faults (99 ∷ []) after_40

batch_40_own : OwnRows batch_40
batch_40_own = record {
  eth = ((refl, refl), tt);
  erc20 = tt;
  gas = ((refl, refl), tt);
  unattributed = tt;
}

empty_db-Fresh : Fresh lower_hex 1 99 empty_db
empty_db-Fresh = record { eth = tt; erc20 = tt; gas = tt; unattributed = tt }

delete_blocks-write_block_example : after_undo ≡ record empty_db { meta = after_40.meta }
delete_blocks-write_block_example =
    delete_blocks-write_block lower_hex no_faults no_faults batch_40 empty_db after_40 after_undo
      batch_40_own empty_db-Fresh wrote_40 undid_40

abbrev row_at : ℕ → TransferRowOut
row_at n = record {
  category = codes "gas";
  block_number = n;
  block_hash = [];
  tx_hash = none;
  address = [];
  direction = none;
  counterparty = none;
  token = none;
  amount = codes "1";
  kind = none;
}

abbrev five_rows : List TransferRowOut
five_rows = row_at 8 ∷ row_at 7 ∷ row_at 7 ∷ row_at 7 ∷ row_at 9 ∷ []

page_of-Complete_example :
    Complete
      (first_block (order_by_block five_rows))
      (order_by_block five_rows)
      (page_of 2 (order_by_block five_rows))
page_of-Complete_example = page_of-Complete 2 five_rows

abbrev gas_at : ℕ → GasRecord
gas_at n = record {
  chain_id = 1;
  block_number = n;
  block_hash = codes "0x1";
  tx_hash = codes "0x2";
  address = codes "0x5";
  gas_used = 1;
  effective_gas_price = codes "1";
  l2_fee_wei = codes "1";
  l1_fee_wei = none;
  total_wei = codes "1";
}

abbrev gas_db : Db
gas_db = record empty_db { gas_payments = gas_at 8 ∷ gas_at 7 ∷ gas_at 7 ∷ gas_at 9 ∷ [] }

gas_rows :
    matches gas_db 1 (codes "0x5") (some 8) none none
    ≡ from_gas (gas_at 8) ∷ from_gas (gas_at 9) ∷ []
unfolding matches text_eq
gas_rows = refl

drain-Complete_example :
    (rows : List TransferRowOut) × (drain gas_db 1 (codes "0x5") (some 8) none none 1 3 none
      ≡ some rows)
    × Sorted rows
    × Perm rows (matches gas_db 1 (codes "0x5") (some 8) none none)
drain-Complete_example =
    drain-Complete gas_db 1 (codes "0x5") (some 8) none none 1 3 (omega arith)
      (omega (arith, ap length gas_rows))
