-- ===== src/Ledger/Pages.antt =====
-- Following the cursor of the pages skips no row, repeats none, and splits no block.
use passbook.Prelude.{
  ℕ, zero, suc, ◌+◌, ◌≤◌, ◌<◌, ◌≡◌, refl, sym, ap, ◌∙◌, Bool, true, false, Option, none, some, List,
  [], ◌∷◌, ◌++◌, ltb, leb, ◌==◌, if◌then◌else◌, length, take, keep, any, All, append-nil, arith,
  Bool-cases, inl, inr,
}
use passbook.Ledger.Table.{keep-cong, keep-every, keep-none, All-map}
use passbook.Ledger.Queries.{
  TransferRowOut, TransfersPage, last_block, cut_page, page_of, insert_by_block, order_by_block,
}

-- In the order of their blocks.
abbrev pub Sorted : List TransferRowOut → Type 0
Sorted [] = Unit
Sorted (r ∷ rs) = All (λ (x : TransferRowOut). r.block_number ≤ x.block_number) rs × Sorted rs

-- What is left for the following pages: the rows from the cursor on.
abbrev pub remaining : Option ℕ → List TransferRowOut → List TransferRowOut
remaining none rows = []
remaining (some c) rows = keep (λ r. leb c r.block_number) rows

split_at :
    (cut : ℕ) (rs : List TransferRowOut)
    → Sorted rs
    → keep (λ r. ltb r.block_number cut) rs ++ keep (λ r. leb cut r.block_number) rs ≡ rs
split_at cut [] h = refl
split_at cut (r ∷ rs) h = elim (Bool-cases (ltb r.block_number cut)) [
  | inl e ↦ ground (arith, split_at cut rs h.1)
  | inr e ↦
      let none_below =
        keep-none (λ x. ltb x.block_number cut) rs (All-map _ _ (λ x q. ground arith) rs h.0) in
      let all_above =
        keep-every (λ x. leb cut x.block_number) rs (All-map _ _ (λ x q. ground arith) rs h.0) in
      ground (arith, none_below, all_above)
]

-- What is behind the first n + 1 rows is of no earlier block than the last of these.
take_below :
    (n b : ℕ) (rs : List TransferRowOut)
    → Sorted rs
    → All (λ (x : TransferRowOut). b ≤ x.block_number) rs
    → (n ≤ length rs)
    → keep (λ r. ltb r.block_number (last_block b (take n rs))) (take n rs)
      ≡ keep (λ r. ltb r.block_number (last_block b (take n rs))) rs
take_below zero b rs s a h = sym (keep-none _ rs (All-map _ _ (λ x q. ground arith) rs a))
take_below (suc n) b [] s a h = absurd (omega arith)
take_below (suc n) b (r ∷ rs) s a h =
    ground (arith, take_below n r.block_number rs s.1 s.0 (omega arith))

take_whole :
    (n : ℕ) (rs : List TransferRowOut) → length (take (suc n) rs) ≤ n → take (suc n) rs ≡ rs
take_whole n [] h = refl
take_whole zero (r ∷ rs) h = absurd (omega arith)
take_whole (suc n) (r ∷ rs) h = ap (λ l. r ∷ l) (take_whole n rs (omega arith))

length-take_le : (n : ℕ) (rs : List TransferRowOut) → n ≤ length (take n rs) → n ≤ length rs
length-take_le zero rs h = omega arith
length-take_le (suc n) [] h = h
length-take_le (suc n) (r ∷ rs) h = let k = length-take_le n rs (omega arith) in omega arith

last_block_ge :
    (n b : ℕ) (rs : List TransferRowOut)
    → Sorted rs
    → All (λ (x : TransferRowOut). b ≤ x.block_number) rs
    → b ≤ last_block b (take n rs)
last_block_ge zero b rs s a = omega arith
last_block_ge (suc n) b [] s a = omega arith
last_block_ge (suc n) b (r ∷ rs) s a =
    let k = last_block_ge n r.block_number rs s.1 s.0 in let j = a.0 in omega arith

any-false :
    (p : TransferRowOut → Bool) (rs : List TransferRowOut)
    → any p rs ≡ false
    → All (λ x. p x ≡ false) rs
any-false p [] h = tt
any-false p (r ∷ rs) h = elim (Bool-cases (p r)) [
  | inl e ↦ absurd (let k : true ≡ false = sym (rw e refl) ∙ h in ground arith)
  | inr e ↦ (e, any-false p rs (sym (rw e refl) ∙ h))
]

-- What a page promises of a stream whose first row is r.
abbrev pub Complete : ℕ → List TransferRowOut → TransfersPage → Type 0
Complete b rows p =
    (p.rows ++ remaining p.next_cursor rows ≡ rows) × ((c : ℕ) → p.next_cursor ≡ some c → b < c)

-- A block that is larger than the page.
whole_block :
    (cut : ℕ) (rows : List TransferRowOut)
    → Sorted rows
    → All (λ (x : TransferRowOut). cut ≤ x.block_number) rows
    → keep (λ r. r.block_number == cut) rows ++ keep (λ r. leb (cut + 1) r.block_number) rows ≡ rows
whole_block cut rows s a =
    ap (λ l. l ++ keep (λ r. leb (cut + 1) r.block_number) rows)
      (keep-cong (λ r. r.block_number == cut) (λ r. ltb r.block_number (cut + 1)) rows
        (All-map _ _ (λ x q. ground arith) rows a))
    ∙ split_at (cut + 1) rows s

more_rows :
    (b cut : ℕ) (rows : List TransferRowOut)
    → Sorted rows
    → b ≤ cut
    → All (λ (x : TransferRowOut). cut ≤ x.block_number) rows
    → Complete b rows (record {
      rows = keep (λ r. r.block_number == cut) rows;
      next_cursor = if any (λ r. ltb cut r.block_number) rows then some (cut + 1) else none;
    })
more_rows b cut rows s l a = elim (Bool-cases (any (λ r. ltb cut r.block_number) rows)) [
  | inl e ↦ rw e (whole_block cut rows s a, λ c h. let k : cut + 1 ≡ c = cc in omega arith)
  | inr e ↦ rw e (
    append-nil _
        ∙ sym (append-nil _)
        ∙ ap (λ l. keep (λ r. r.block_number == cut) rows ++ l)
            (sym (
              keep-none (λ r. leb (cut + 1) r.block_number) rows
                (All-map _ _ (λ x q. ground arith) rows (any-false _ rows e))))
        ∙ whole_block cut rows s a,
    λ c h. cc,
  )
]

insert_by_block-Sorted :
    (r : TransferRowOut) (rs : List TransferRowOut)
    → Sorted rs
    → Sorted (insert_by_block r rs)
      × ((b : ℕ)
          → b ≤ r.block_number
          → All (λ (x : TransferRowOut). b ≤ x.block_number) rs
          → All (λ (x : TransferRowOut). b ≤ x.block_number) (insert_by_block r rs))
unfolding insert_by_block
insert_by_block-Sorted r [] s = ((tt, tt), λ b h a. (h, tt))
insert_by_block-Sorted r (x ∷ xs) s = elim (Bool-cases (leb r.block_number x.block_number)) [
  | inl e ↦
      let l : r.block_number ≤ x.block_number = ground arith in
      rw e (((l, All-map _ _ (λ y q. omega arith) xs s.0), s), λ b h a. (h, a))
  | inr e ↦
      let l : x.block_number ≤ r.block_number = ground arith in
      let ih = insert_by_block-Sorted r xs s.1 in
      rw e ((ih.1 x.block_number l s.0, ih.0), λ b h a. (a.0, ih.1 b h a.1))
]

pub order_by_block-Sorted : (rs : List TransferRowOut) → Sorted (order_by_block rs)
unfolding order_by_block
order_by_block-Sorted [] = tt
order_by_block-Sorted (r ∷ rs) =
    (insert_by_block-Sorted r (order_by_block rs) (order_by_block-Sorted rs)).0

-- The block of the first row of a stream.
abbrev pub first_block : List TransferRowOut → ℕ
first_block [] = 0
first_block (r ∷ rs) = r.block_number

cut_page-Complete :
    (lim : ℕ) (r : TransferRowOut) (rs : List TransferRowOut)
    → Sorted (r ∷ rs)
    → lim + 1 ≤ length (r ∷ rs)
    → let fetched = take (lim + 1) (r ∷ rs) in
      Complete r.block_number
        (r ∷ rs)
        (cut_page r.block_number (last_block r.block_number fetched) fetched (r ∷ rs))
cut_page-Complete lim r rs s h =
    let from_first : All (λ (x : TransferRowOut). r.block_number ≤ x.block_number) (r ∷ rs) =
      (omega arith, s.0) in
    let cut = last_block r.block_number (take (lim + 1) (r ∷ rs)) in
    let ge = last_block_ge (lim + 1) r.block_number (r ∷ rs) s from_first in
    choose cut ge from_first (take_below (lim + 1) r.block_number (r ∷ rs) s from_first h)
  where
    choose :
        (cut : ℕ)
        → r.block_number ≤ cut
        → All (λ (x : TransferRowOut). r.block_number ≤ x.block_number) (r ∷ rs)
        → keep (λ x. ltb x.block_number cut) (take (lim + 1) (r ∷ rs))
          ≡ keep (λ x. ltb x.block_number cut) (r ∷ rs)
        → Complete r.block_number
            (r ∷ rs)
            (cut_page r.block_number cut (take (lim + 1) (r ∷ rs)) (r ∷ rs))
    choose cut ge a e = elim (Bool-cases (ltb r.block_number cut)) [
      | inl f ↦ rw f (
        ap (λ l. l ++ keep (λ x. leb cut x.block_number) (r ∷ rs)) e ∙ split_at cut (r ∷ rs) s,
        λ c k. let m : cut ≡ c = cc in ground arith,
      )
      | inr f ↦ rw f (
          more_rows r.block_number cut (r ∷ rs) s ge (All-map _ _ (λ x q. ground arith) (r ∷ rs) a))
    ]

page_of-Sorted :
    (lim : ℕ) (rows : List TransferRowOut)
    → Sorted rows
    → Complete (first_block rows) rows (page_of lim rows)
unfolding page_of
page_of-Sorted lim [] s = (refl, λ c h. cc)
page_of-Sorted lim (r ∷ rs) s = elim (Bool-cases (leb (length (take (lim + 1) (r ∷ rs))) lim)) [
  | inl e ↦ rw e (append-nil _ ∙ whole e, λ c h. cc)
  | inr e ↦ rw e (cut_page-Complete lim r rs s (length-take_le (lim + 1) (r ∷ rs) (ground arith)))
]
  where
    whole : leb (length (take (lim + 1) (r ∷ rs))) lim ≡ true → take (lim + 1) (r ∷ rs) ≡ r ∷ rs
    whole e =
        let p : lim + 1 ≡ suc lim = omega arith in
        let bound : length (take (lim + 1) (r ∷ rs)) ≤ lim = ground arith in
        ap (λ (k : ℕ). take k (r ∷ rs)) p
        ∙ take_whole lim (r ∷ rs) (omega (arith, ap (λ (k : ℕ). length (take k (r ∷ rs))) p, bound))

-- A page of any ordered result, whatever its limit, and the rows from its cursor on are together the whole
-- result in order, so that a page skips no row, repeats none and ends between two blocks; a page without
-- a cursor is all that is left, and a cursor is behind the block of the first row, so that pages end.
pub page_of-Complete :
    (lim : ℕ) (rs : List TransferRowOut)
    → Complete
        (first_block (order_by_block rs))
        (order_by_block rs)
        (page_of lim (order_by_block rs))
page_of-Complete lim rs = page_of-Sorted lim (order_by_block rs) (order_by_block-Sorted rs)
