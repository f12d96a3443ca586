-- ===== src/Block.antt =====
-- One block's inputs to its batch: `process_block` and `build_partial_batch_skip_frames` of
-- crates/passbook-core/src/exex.rs.
pub mod Inputs
pub mod Rows
pub mod Sums
pub mod Balance
pub mod Outcome
pub mod Entries
pub mod Partial
use passbook.Prelude.{
  ℕ, zero, suc, ◌+◌, Bool, true, false, not, ◌||◌, Option, none, some, List, [], ◌∷◌, ◌++◌, ◌==◌,
  if◌then◌else◌, contains,
}
use passbook.Prelude.Int.{ℤ, pos, negsuc, pos_part, neg_part, unsigned_abs}
use passbook.Prelude.Words.{u256_add, i128_add}
use passbook.Prelude.Text.{Text, codes}
use passbook.Prelude.Hex.{Formats}
use passbook.Prelude.AddrMap.{AddrMap, get_or, update_entry}
use passbook.Prelude.Result.{Result, ok, err, ◌>>=◌}
use passbook.Model.{
  Direction, into, out, EthTransferRow, Erc20TransferRow, GasPaymentRow, UnattributedDeltaRow,
  BlockBatch, system, parent_state_unavailable,
}
use passbook.Inspector.{CapturedFrame}
use passbook.Attribution.{FrameContext, attribute_eth_frames}
use passbook.Erc20.{RawLog, DecodedTransfer, decode_transfer}
use passbook.System.{SystemCredit}
use passbook.Reconcile.{
  ReconcileInput, ReconcileOverflow, reconcile_account, skip_mode_attribution, is_zero_ℤ,
}
use passbook.Block.Inputs.{
  BlockInputs, ProcessingError, decode, unexplained_residual, Failure, failed, panicked,
}
use passbook.Block.Rows.{
  matched_rows, log_rows, erc20_rows, Native, no_native, count_direction, count_rows, context,
  native_frame, native_frames, gas_paid, sys_per_addr, credit_direction, system_row, system_rows,
}

-- (c) reconciliation, up to the first account that does not balance.
pub record Totals : Type 0 where
  pub eth_in : AddrMap ℕ
  pub eth_out : AddrMap ℕ
  pub gas_paid : AddrMap ℕ
  pub sys : AddrMap ℤ

abbrev pub reconcile_input : BlockInputs → Totals → ℕ → ℤ → ReconcileInput
reconcile_input i t addr observed = record {
  chain_id = i.chain_id;
  block_number = i.block_number;
  block_hash = i.block_hash;
  address = addr;
  observed_delta = observed;
  eth_in = get_or t.eth_in addr 0;
  eth_out = get_or t.eth_out addr 0;
  gas_paid = get_or t.gas_paid addr 0;
  system_signed = get_or t.sys addr (pos 0);
}

-- The error of an account that does not balance carries the observed delta.
abbrev pub verdict :
    BlockInputs
    → ℕ
    → ℤ
    → Result ReconcileOverflow (Option UnattributedDeltaRow)
    → Result Failure Unit
verdict i addr observed (ok none) = ok tt
verdict i addr observed (ok (some row)) =
    err (failed (unexplained_residual i.block_number addr observed))
verdict i addr observed (err e) =
    err (failed (ProcessingError.reconcile_overflow i.block_number addr))

unfoldable pub reconcile_accounts : BlockInputs → Totals → List (ℕ × ℤ) → Result Failure Unit
reconcile_accounts i t [] = ok tt
reconcile_accounts i t ((addr, observed) ∷ deltas) =
    let rest = reconcile_accounts i t deltas in
    if contains i.watched addr
    then (verdict i addr observed (reconcile_account (reconcile_input i t addr observed)) >>= λ _.
        rest)
    else rest

unfoldable pub totals_of : BlockInputs → Native → Totals
unfolding gas_paid sys_per_addr
totals_of i n = record {
  eth_in = n.eth_in;
  eth_out = n.eth_out;
  gas_paid = gas_paid i.gas [];
  sys = sys_per_addr i.watched i.system_signed [];
}

unfoldable pub process_block : Formats → BlockInputs → Result Failure BlockBatch
unfolding erc20_rows native_frames system_rows totals_of reconcile_accounts
process_block fmt i = do
  erc20 ← erc20_rows i i.erc20_logs
  let n = native_frames i i.frames no_native
  balanced ← reconcile_accounts i (totals_of i n) i.account_deltas
  ok (record {
    chain_id = i.chain_id;
    block_number = i.block_number;
    block_hash = i.block_hash;
    eth = n.eth ++ system_rows fmt i i.system_signed;
    erc20 = erc20;
    gas = i.gas;
    unattributed = [];
  })

-- The marker of one account, if its delta is not covered.
abbrev pub marker : BlockInputs → ℕ → ℕ × ℕ × ℕ → List UnattributedDeltaRow
marker i addr (observed_wei, attributed_wei, residual_wei) =
    if residual_wei == 0
    then []
    else record {
      chain_id = i.chain_id;
      block_number = i.block_number;
      block_hash = i.block_hash;
      address = addr;
      observed_wei = observed_wei;
      attributed_wei = attributed_wei;
      residual_wei = residual_wei;
      cause = parent_state_unavailable;
    }
      ∷ []

unfoldable pub markers : BlockInputs → AddrMap ℤ → List (ℕ × ℤ) → List UnattributedDeltaRow
markers i sys [] = []
markers i sys ((addr, observed) ∷ deltas) =
    (if not (contains i.watched addr) || is_zero_ℤ observed
      then []
      else marker i addr (skip_mode_attribution observed (get_or sys addr (pos 0))))
    ++ markers i sys deltas

unfoldable pub build_partial_batch_skip_frames : Formats → BlockInputs → Result Failure BlockBatch
unfolding erc20_rows system_rows sys_per_addr markers
build_partial_batch_skip_frames fmt i = do
  erc20 ← erc20_rows i i.erc20_logs
  ok (record {
    chain_id = i.chain_id;
    block_number = i.block_number;
    block_hash = i.block_hash;
    eth = system_rows fmt i i.system_signed;
    erc20 = erc20;
    gas = i.gas;
    unattributed = markers i (sys_per_addr i.watched i.system_signed []) i.account_deltas;
  })
