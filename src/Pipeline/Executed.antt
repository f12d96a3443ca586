-- ===== src/Pipeline/Executed.antt =====
-- A committed block as its execution left it: what the pipelines read of reth's `RecoveredBlock` and of
-- `execution_outcome_at_block`, both of external libraries.
use passbook.Prelude.{ℕ, Option, List}
use passbook.Erc20.{RawLog}

pub record Transaction : Type 0 where
  pub tx_hash : ℕ
  pub sender : ℕ
  -- `effective_gas_price(base_fee)`
  pub effective_gas_price : ℕ

pub record Receipt : Type 0 where
  pub cumulative_gas_used : ℕ
  pub logs : List RawLog

pub record AccountInfo : Type 0 where
  pub balance : ℕ
  pub nonce : ℕ

-- One account of the bundle.
pub record BundleAccount : Type 0 where
  pub address : ℕ
  pub original_info : Option AccountInfo
  pub info : Option AccountInfo

pub record ExecutionOutcome : Type 0 where
  pub receipts : List Receipt
  pub bundle_accounts : List BundleAccount

pub record Committed : Type 0 where
  pub number : ℕ
  pub hash : ℕ
  pub base_fee_per_gas : Option ℕ
  pub beneficiary : ℕ
  pub transactions : List Transaction
  -- (address, amount in wei)
  pub withdrawals : Option (List (ℕ × ℕ))
  pub outcome : Option ExecutionOutcome
