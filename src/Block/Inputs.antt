-- ===== src/Block/Inputs.antt =====
-- What is collected of one block, and how its processing fails: `BlockInputs` and `ProcessingError` of
-- crates/passbook-core/src/exex.rs.
use passbook.Prelude.{ℕ, Bool, Option, List}
use passbook.Prelude.Int.{ℤ}
use passbook.Model.{GasPaymentRow}
use passbook.Inspector.{CapturedFrame}
use passbook.Erc20.{RawLog}
use passbook.System.{SystemCredit}

pub record BlockInputs : Type 0 where
  pub chain_id : ℕ
  pub block_number : ℕ
  pub block_hash : ℕ
  pub watched : List ℕ
  pub erc20_logs : List (Option ℕ × ℕ × RawLog)
  pub frames : List (Option ℕ × Bool × CapturedFrame)
  pub gas : List GasPaymentRow
  pub account_deltas : List (ℕ × ℤ)
  pub system_signed : List SystemCredit

pub data ProcessingError : Type 0 where
  decode : ℕ → ProcessingError
  unexplained_residual : ℕ → ℕ → ℤ → ProcessingError
  reconcile_overflow : ℕ → ℕ → ProcessingError

-- `panicked` is the `expect` on the transaction of a log.
pub data Failure : Type 0 where
  failed : ProcessingError → Failure
  panicked : Failure
