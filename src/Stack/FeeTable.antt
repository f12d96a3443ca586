-- ===== src/Stack/FeeTable.antt =====
-- The positions of the fee table.
use passbook.Prelude.{
  ℕ, zero, suc, ◌≡◌, refl, Bool, true, false, Option, none, some, List, [], ◌∷◌, get_elem?,
}
use passbook.Stack.{l1_fees, build_block_l1_fee_table, join_option}

-- The fee of a transaction: none for a deposit or past the end of the block.
abbrev pub fee_at : (List ℕ → Option ℕ) → Option (Bool × List ℕ) → Option ℕ
fee_at fee_of none = none
fee_at fee_of (some (true, raw)) = none
fee_at fee_of (some (false, raw)) = fee_of raw

get_elem?-l1_fees :
    (fee_of : List ℕ → Option ℕ) (txs : List (Bool × List ℕ)) (i : ℕ)
    → join_option (get_elem? (l1_fees fee_of txs) i) ≡ fee_at fee_of (get_elem? txs i)
unfolding l1_fees
get_elem?-l1_fees fee_of [] i = refl
get_elem?-l1_fees fee_of ((true, raw) ∷ txs) zero = refl
get_elem?-l1_fees fee_of ((false, raw) ∷ txs) zero = refl
get_elem?-l1_fees fee_of (t ∷ txs) (suc i) = get_elem?-l1_fees fee_of txs i

-- The adapter answers, for every index, with the fee of the transaction at that position: none for a
-- deposit and none past the end.
pub build_block_l1_fee_table_positions :
    (txs : List (Bool × List ℕ)) (fee_of : List ℕ → Option ℕ) (i : ℕ)
    → (build_block_l1_fee_table txs fee_of).l1_data_fee_wei i ≡ fee_at fee_of (get_elem? txs i)
unfolding build_block_l1_fee_table
build_block_l1_fee_table_positions txs fee_of i = get_elem?-l1_fees fee_of txs i
