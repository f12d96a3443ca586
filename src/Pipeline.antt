-- ===== src/Pipeline.antt =====
-- One committed block to its batch on L1: `process_committed_block_inner` of
-- crates/passbook-core/src/exex.rs, section by section.
pub mod Executed
pub mod Indexes
pub mod Deltas
pub mod Optimism
pub mod Vaults
pub mod Mints
pub mod ChainExec
pub mod Explained
pub mod Audit
use passbook.Prelude.{
  ℕ, suc, ◌+◌, ◌-◌, Bool, true, false, not, ◌||◌, ◌&&◌, Option, none, some, List, [], ◌∷◌, ◌++◌,
  ◌==◌, if◌then◌else◌, contains, get_elem?, unwrap_or, map,
}
use passbook.Prelude.Int.{ℤ, pos, ◌-ℤ◌}
use passbook.Prelude.Words.{try_i128}
use passbook.Prelude.Text.{codes}
use passbook.Prelude.Decimal.{to_string}
use passbook.Prelude.Hex.{Formats}
use passbook.Prelude.Result.{Result, ok, err, ok_or, ◌>>=◌}
use passbook.Model.{BlockBatch, GasPaymentRow}
use passbook.Inspector.{CapturedFrame}
use passbook.Erc20.{RawLog}
use passbook.Stack.{StackAdapter, join_option}
use passbook.Attribution.{GasInput, compute_gas_payment}
use passbook.System.{l1_system_credits}
use passbook.Reexec.{TaggedFrame, Captured}
use passbook.Block.Inputs.{BlockInputs, ProcessingError, Failure, failed}
use passbook.Block.{process_block, build_partial_batch_skip_frames}
use passbook.Pipeline.Executed.{
  Transaction, Receipt, AccountInfo, BundleAccount, ExecutionOutcome, Committed,
}

-- (1) The logs of one receipt, numbered on from `log_index`, then of all receipts.
unfoldable pub receipt_logs : Option ℕ → ℕ → List RawLog → List (Option ℕ × ℕ × RawLog)
receipt_logs tx_hash log_index [] = []
receipt_logs tx_hash log_index (log ∷ logs) =
    (tx_hash, log_index, log) ∷ receipt_logs tx_hash (suc log_index) logs

abbrev pub hash_of : Option Transaction → Option ℕ
hash_of none = none
hash_of (some t) = some t.tx_hash

abbrev pub count : List RawLog → ℕ
count [] = 0
count (x ∷ xs) = suc (count xs)

unfoldable pub block_logs : List Transaction → ℕ → ℕ → List Receipt → List (Option ℕ × ℕ × RawLog)
unfolding receipt_logs
block_logs txs tx_idx log_index [] = []
block_logs txs tx_idx log_index (receipt ∷ receipts) =
    receipt_logs (hash_of (get_elem? txs tx_idx)) log_index receipt.logs
    ++ block_logs txs (suc tx_idx) (log_index + count receipt.logs) receipts

-- (2) The deltas of the watched accounts, and whether one of them changed.
abbrev pub balance_of : Option AccountInfo → ℕ
balance_of none = 0
balance_of (some i) = i.balance

abbrev pub nonce_of : Option AccountInfo → ℕ
nonce_of none = 0
nonce_of (some i) = i.nonce

abbrev pub changed : BundleAccount → Bool
changed acct =
    not (balance_of acct.original_info == balance_of acct.info)
    || not (nonce_of acct.original_info == nonce_of acct.info)

-- The difference of two values between 0 and i128::MAX.
abbrev pub delta_of : ℕ → BundleAccount → Result Failure ℤ
delta_of block_number acct = do
  new_bal ← ok_or (try_i128 (balance_of acct.info)) (failed (ProcessingError.decode block_number))
  old_bal ←
      ok_or (try_i128 (balance_of acct.original_info))
        (failed (ProcessingError.decode block_number))
  ok (new_bal -ℤ old_bal)

unfoldable pub account_deltas :
    ℕ → List ℕ → List BundleAccount → Result Failure (Bool × List (ℕ × ℤ))
account_deltas block_number watched [] = ok (false, [])
account_deltas block_number watched (acct ∷ accts) =
    let rest = account_deltas block_number watched accts in
    if contains watched acct.address
    then (delta_of block_number acct >>= λ delta.
        rest >>= λ r. ok (changed acct || r.0, (acct.address, delta) ∷ r.1))
    else rest

-- (3) The frames of the re-execution, a top-level one under the path of its transaction.
abbrev pub path_frame : TaggedFrame → CapturedFrame
path_frame cf =
    if cf.top_level
    then record cf.frame { trace_path = codes "tx:" ++ to_string cf.tx_index }
    else cf.frame

unfoldable pub tagged_frames : Captured → List TaggedFrame → List (Option ℕ × Bool × CapturedFrame)
tagged_frames captured [] = []
tagged_frames captured (cf ∷ cfs) =
    (
      join_option (get_elem? captured.tx_hashes cf.tx_index),
      unwrap_or (get_elem? captured.tx_reverted cf.tx_index) false,
      path_frame cf,
    )
    ∷ tagged_frames captured cfs

-- What `get_parent_state`, and the re-execution on the state it gives, come to.
pub data Reexecution : Type 0 where
  parent_unavailable reexecution_failed : Reexecution
  captured : Captured → Reexecution

-- The frames, and whether they are skipped.
unfoldable pub gated_frames :
    ℕ → Bool → Reexecution → Result Failure (Bool × List (Option ℕ × Bool × CapturedFrame))
unfolding tagged_frames
gated_frames block_number false r = ok (false, [])
gated_frames block_number true parent_unavailable = ok (true, [])
gated_frames block_number true reexecution_failed =
    err (failed (ProcessingError.decode block_number))
gated_frames block_number true (captured c) = ok (false, tagged_frames c c.frames)

-- (4) Gas: each transaction with its receipt, up to the shorter of the two lists, and the gas that it
-- used; then the payments of the watched senders.
unfoldable pub used_gas : ℕ → ℕ → List Transaction → List Receipt → List (ℕ × Transaction × ℕ)
used_gas tx_idx prev_cumulative [] receipts = []
used_gas tx_idx prev_cumulative (tx ∷ txs) [] = []
used_gas tx_idx prev_cumulative (tx ∷ txs) (receipt ∷ receipts) =
    (tx_idx, tx, receipt.cumulative_gas_used - prev_cumulative)
    ∷ used_gas (suc tx_idx) receipt.cumulative_gas_used txs receipts

abbrev pub gas_input : ℕ → Committed → StackAdapter → ℕ × Transaction × ℕ → GasInput
gas_input chain_id block adapter (tx_idx, tx, gas_used) = record {
  chain_id = chain_id;
  block_number = block.number;
  block_hash = block.hash;
  tx_hash = tx.tx_hash;
  tx_from = tx.sender;
  gas_used = gas_used;
  effective_gas_price = tx.effective_gas_price;
  l1_fee_wei = adapter.l1_data_fee_wei tx_idx;
}

unfoldable pub gas_payments :
    ℕ → Committed → List ℕ → StackAdapter → List (ℕ × Transaction × ℕ) → List GasPaymentRow
gas_payments chain_id block watched adapter [] = []
gas_payments chain_id block watched adapter ((tx_idx, tx, gas_used) ∷ txs) =
    (if contains watched tx.sender
      then compute_gas_payment (gas_input chain_id block adapter (tx_idx, tx, gas_used)) ∷ []
      else [])
    ++ gas_payments chain_id block watched adapter txs

-- (5) Per transaction (effective_gas_price, gas_used), for the beneficiary's credit.
abbrev pub tx_fee : ℕ × Transaction × ℕ → ℕ × ℕ
tx_fee (tx_idx, tx, gas_used) = (tx.effective_gas_price, gas_used)

abbrev pub finish : Formats → Bool → BlockInputs → Result Failure BlockBatch
finish fmt skip_frames inputs =
    if skip_frames then build_partial_batch_skip_frames fmt inputs else process_block fmt inputs

unfoldable pub process_committed_block_inner :
    Formats → ℕ → Committed → List ℕ → StackAdapter → Reexecution → Result Failure BlockBatch
unfolding block_logs account_deltas gated_frames used_gas gas_payments
process_committed_block_inner fmt chain_id block watched adapter reexecution = do
  outcome ← ok_or block.outcome (failed (ProcessingError.decode block.number))
  deltas ← account_deltas block.number watched outcome.bundle_accounts
  frames ← gated_frames block.number deltas.0 reexecution
  let used = used_gas 0 0 block.transactions outcome.receipts
  finish fmt frames.0 (record {
    chain_id = chain_id;
    block_number = block.number;
    block_hash = block.hash;
    watched = watched;
    erc20_logs = block_logs block.transactions 0 0 outcome.receipts;
    frames = frames.1;
    gas = gas_payments chain_id block watched adapter used;
    account_deltas = deltas.1;
    system_signed =
        l1_system_credits watched (unwrap_or block.withdrawals []) block.beneficiary
          (unwrap_or block.base_fee_per_gas 0) (map tx_fee used);
  })
