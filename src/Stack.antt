-- ===== src/Stack.antt =====
-- The per-transaction L1 data fee: `StackAdapter` (crates/passbook-core/src/stack.rs), its Ethereum
-- instance (crates/passbook-stack-ethereum/src/lib.rs) and its Optimism one
-- (crates/passbook-stack-optimism/src/lib.rs).
pub mod FeeTable
use passbook.Prelude.{ℕ, Bool, Option, none, some, List, [], ◌∷◌, get_elem?, if◌then◌else◌}

pub record StackAdapter : Type 0 where
  pub l1_data_fee_wei : ℕ → Option ℕ

unfoldable pub ethereum_stack : StackAdapter
ethereum_stack = record { l1_data_fee_wei = λ tx_index. none }

-- `o.copied().flatten()`
abbrev pub join_option : Option (Option ℕ) → Option ℕ
join_option none = none
join_option (some o) = o

-- `OptimismStack::from_fees`, with its `l1_data_fee_wei`
unfoldable pub from_fees : List (Option ℕ) → StackAdapter
from_fees fees = record { l1_data_fee_wei = λ tx_index. join_option (get_elem? fees tx_index) }

-- The table of `build_block_l1_fee_table`: a transaction is (is_deposit, its encoding).
unfoldable pub l1_fees : (List ℕ → Option ℕ) → List (Bool × List ℕ) → List (Option ℕ)
l1_fees fee_of [] = []
l1_fees fee_of ((is_deposit, raw_2718) ∷ txs) =
    (if is_deposit then none else fee_of raw_2718) ∷ l1_fees fee_of txs

unfoldable pub build_block_l1_fee_table : List (Bool × List ℕ) → (List ℕ → Option ℕ) → StackAdapter
unfolding l1_fees from_fees
build_block_l1_fee_table txs fee_of = from_fees (l1_fees fee_of txs)
