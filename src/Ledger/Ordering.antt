-- ===== src/Ledger/Ordering.antt =====
-- What the ORDER BY of `get_transfers` (crates/passbook-core/src/ledger/queries.rs) does to its rows.
use mathlib.Core.List.{Perm}
use mathlib.Core.List.Perm
use passbook.Prelude.{
  ℕ, suc, ◌≡◌, refl, ap, ◌∙◌, Bool, List, [], ◌∷◌, leb, if◌then◌else◌, length, keep, All, arith,
  Bool-cases, inl, inr,
}
use passbook.Ledger.Queries.{TransferRowOut, insert_by_block, order_by_block}

abbrev pub from_block_on : ℕ → TransferRowOut → Bool
from_block_on c r = leb c r.block_number

-- Sorting keeps the rows from a block on together.
keep-insert_by_block :
    (c : ℕ) (r : TransferRowOut) (xs : List TransferRowOut)
    → keep (from_block_on c) (insert_by_block r xs) ≡ (
        if leb c r.block_number
        then insert_by_block r (keep (from_block_on c) xs)
        else keep (from_block_on c) xs)
unfolding insert_by_block
keep-insert_by_block c r [] = ground arith
keep-insert_by_block c r (x ∷ xs) = ground (arith, keep-insert_by_block c r xs)

pub keep-order_by_block :
    (c : ℕ) (rs : List TransferRowOut)
    → keep (from_block_on c) (order_by_block rs) ≡ order_by_block (keep (from_block_on c) rs)
unfolding order_by_block
keep-order_by_block c [] = refl
keep-order_by_block c (r ∷ rs) = elim (Bool-cases (leb c r.block_number)) [
  | inl e ↦
      keep-insert_by_block c r (order_by_block rs)
      ∙ rw e (ap (insert_by_block r) (keep-order_by_block c rs))
  | inr e ↦ keep-insert_by_block c r (order_by_block rs) ∙ rw e (keep-order_by_block c rs)
]

insert_by_block-All :
    (P : TransferRowOut → Type 0) (r : TransferRowOut) (xs : List TransferRowOut)
    → P r
    → All P xs
    → All P (insert_by_block r xs)
unfolding insert_by_block
insert_by_block-All P r [] h a = (h, tt)
insert_by_block-All P r (x ∷ xs) h a = elim (Bool-cases (leb r.block_number x.block_number)) [
  | inl e ↦ rw e (h, a)
  | inr e ↦ rw e (a.0, insert_by_block-All P r xs h a.1)
]

pub order_by_block-All :
    (P : TransferRowOut → Type 0) (rs : List TransferRowOut) → All P rs → All P (order_by_block rs)
unfolding order_by_block
order_by_block-All P [] a = tt
order_by_block-All P (r ∷ rs) a =
    insert_by_block-All P r (order_by_block rs) a.0 (order_by_block-All P rs a.1)

insert_by_block-perm :
    (r : TransferRowOut) (xs : List TransferRowOut) → Perm (insert_by_block r xs) (r ∷ xs)
unfolding insert_by_block
insert_by_block-perm r [] = Perm.refl (r ∷ [])
insert_by_block-perm r (x ∷ xs) = elim (Bool-cases (leb r.block_number x.block_number)) [
  | inl e ↦ rw e (Perm.refl (r ∷ x ∷ xs))
  | inr e ↦ rw e (Perm.trans (Perm.cons x (insert_by_block-perm r xs)) (Perm.swap r x xs))
]

pub order_by_block-perm : (rs : List TransferRowOut) → Perm (order_by_block rs) rs
unfolding order_by_block
order_by_block-perm [] = Perm.refl []
order_by_block-perm (r ∷ rs) =
    Perm.trans (insert_by_block-perm r (order_by_block rs)) (Perm.cons r (order_by_block-perm rs))

length-insert_by_block :
    (r : TransferRowOut) (xs : List TransferRowOut)
    → length (insert_by_block r xs) ≡ suc (length xs)
unfolding insert_by_block
length-insert_by_block r [] = refl
length-insert_by_block r (x ∷ xs) = ground (arith, length-insert_by_block r xs)

pub length-order_by_block : (rs : List TransferRowOut) → length (order_by_block rs) ≡ length rs
unfolding order_by_block
length-order_by_block [] = refl
length-order_by_block (r ∷ rs) =
    length-insert_by_block r (order_by_block rs) ∙ ap suc (length-order_by_block rs)
