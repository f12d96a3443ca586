-- ===== src/Tests/Block.antt =====
-- Reconciliation and a whole block at concrete inputs.
use passbook.Prelude.{◌-◌, refl, inl, some, [], ◌∷◌, ◌≡◌, true, arith, All}
use passbook.Prelude.Int.{pos, ◌+ℤ◌, ◌-ℤ◌, unsigned_abs}
use passbook.Prelude.Hex.{lower_hex}
use passbook.Block.{process_block, build_partial_batch_skip_frames}
use passbook.Block.Partial.{OutcomePartial, build_partial_batch_skip_frames-OutcomePartial}
use passbook.Block.Balance.{NoWrap}
use passbook.Block.Sums.{inflow, outflow, gas_total, credited}
use passbook.Block.Outcome.{Outcome, process_block-Outcome}
use passbook.Reconcile.{
  attribute, unexplained, ReconcileInput, reconcile_account, skip_mode_attribution,
}
use passbook.Reconcile.Balance.{Answers, reconcile_account-Answers}
use passbook.Reconcile.SkipMode.{covered, skip_mode_attribution_split}
use passbook.Prelude.Words.{try_i128, checked_add, checked_sub, u256_add}
use passbook.Prelude.AddrMap.{get_or, update_entry}
use passbook.Prelude.Result.{ok}
use passbook.Model.{BlockBatch}
use passbook.Block.Inputs.{BlockInputs}
use passbook.Block.Entries.{entries, process_block-Entries}
use passbook.Attribution.{attribute_eth_frames, in_row, out_row}
use passbook.Tests.Data.{block_40, batch_40, eth_row, gas_row}

block_40_fits : All (NoWrap block_40) block_40.watched
unfolding inflow outflow gas_total credited
block_40_fits = (
  record { inflow = omega arith; outflow = omega arith; gas = omega arith; credited = omega arith },
  tt,
)

process_block-Outcome_example : Outcome block_40 (process_block lower_hex block_40)
process_block-Outcome_example = process_block-Outcome lower_hex block_40 block_40_fits

abbrev account : ReconcileInput
account = record {
  chain_id = 1;
  block_number = 40;
  block_hash = 99;
  address = 5;
  observed_delta = pos 1;
  eth_in = 3;
  eth_out = 0;
  gas_paid = 2;
  system_signed = pos 0;
}

reconcile_account-Answers_example : Answers account (reconcile_account account)
reconcile_account-Answers_example = reconcile_account-Answers account

skip_mode_attribution_split_example : skip_mode_attribution (pos 10) (pos 4) ≡ (
  unsigned_abs (pos 10),
  covered (pos 10) (pos 4),
  unsigned_abs (pos 10) - covered (pos 10) (pos 4),
)
skip_mode_attribution_split_example = skip_mode_attribution_split (pos 10) (pos 4)

build_partial_batch_skip_frames-OutcomePartial_example :
    OutcomePartial block_40 (build_partial_batch_skip_frames lower_hex block_40)
build_partial_batch_skip_frames-OutcomePartial_example =
    build_partial_batch_skip_frames-OutcomePartial lower_hex block_40

abbrev block_41 : BlockInputs
block_41 = record block_40 { erc20_logs = [] }

abbrev batch_41 : BlockBatch
batch_41 = record batch_40 {
  eth = eth_row ∷ record eth_row { tx_hash = some 10; reverted = true } ∷ [];
  erc20 = [];
  gas = gas_row ∷ [];
  unattributed = [];
}

block_41_accepted : process_block lower_hex block_41 ≡ ok batch_41
unfolding process_block attribute_eth_frames in_row out_row reconcile_account attribute unexplained
    try_i128 checked_add checked_sub get_or update_entry u256_add ◌+ℤ◌ ◌-ℤ◌
block_41_accepted = refl

block_41_fits : All (NoWrap block_41) block_41.watched
unfolding inflow outflow gas_total credited
block_41_fits = (
  record { inflow = omega arith; outflow = omega arith; gas = omega arith; credited = omega arith },
  tt,
)

process_block-Entries_example : pos 1 ≡ entries 5 batch_41.eth -ℤ pos (gas_total 5 batch_41.gas)
process_block-Entries_example =
    process_block-Entries lower_hex block_41 batch_41 5 (pos 1) block_41_fits block_41_accepted
      (inl refl) refl
