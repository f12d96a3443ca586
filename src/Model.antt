-- ===== src/Model.antt =====
-- The rows of the ledger and their enumerations: crates/passbook-core/src/model.rs. Addresses
-- (20 bytes), hashes (32 bytes) and amounts (U256) are numbers.
pub mod Spelling
use passbook.Prelude.{ℕ, Bool, Option, List}
use passbook.Prelude.Text.{Text}

pub data Direction : Type 0 where
  into out : Direction

pub data EthKind : Type 0 where
  top_level internal system : EthKind

pub record EthTransferRow : Type 0 where
  pub chain_id : ℕ
  pub block_number : ℕ
  pub block_hash : ℕ
  pub tx_hash : Option ℕ
  pub trace_path : Text
  pub address : ℕ
  pub direction : Direction
  pub counterparty : ℕ
  pub amount_wei : ℕ
  pub kind : EthKind
  pub reverted : Bool

pub record Erc20TransferRow : Type 0 where
  pub chain_id : ℕ
  pub block_number : ℕ
  pub block_hash : ℕ
  pub tx_hash : ℕ
  pub log_index : ℕ
  pub token : ℕ
  pub from : ℕ
  pub to : ℕ
  pub amount : ℕ
  pub address : ℕ
  pub direction : Direction

pub record GasPaymentRow : Type 0 where
  pub chain_id : ℕ
  pub block_number : ℕ
  pub block_hash : ℕ
  pub tx_hash : ℕ
  pub address : ℕ
  pub gas_used : ℕ
  pub effective_gas_price : ℕ
  pub l2_fee_wei : ℕ
  pub l1_fee_wei : Option ℕ
  pub total_wei : ℕ

pub data UnattributedDeltaCause : Type 0 where
  parent_state_unavailable unexplained_residual block_not_delivered : UnattributedDeltaCause

pub record UnattributedDeltaRow : Type 0 where
  pub chain_id : ℕ
  pub block_number : ℕ
  pub block_hash : ℕ
  pub address : ℕ
  pub observed_wei : ℕ
  pub attributed_wei : ℕ
  pub residual_wei : ℕ
  pub cause : UnattributedDeltaCause

-- ledger/writer.rs: what one block adds to the ledger.
pub record BlockBatch : Type 0 where
  pub chain_id : ℕ
  pub block_number : ℕ
  pub block_hash : ℕ
  pub eth : List EthTransferRow
  pub erc20 : List Erc20TransferRow
  pub gas : List GasPaymentRow
  pub unattributed : List UnattributedDeltaRow
