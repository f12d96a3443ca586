-- ===== src/Ledger/Cursor.antt =====
-- What a cursor does to the query of `get_transfers` (crates/passbook-core/src/ledger/queries.rs): the query
-- from a later block on is the rest of the query.
use passbook.Prelude.{
  ℕ, zero, suc, ◌+◌, ◌≤◌, ◌<◌, ◌≡◌, refl, sym, ap, ◌∙◌, Bool, true, some, List, [], ◌∷◌, ◌++◌, ltb,
  leb, ◌&&◌, take, keep, keep-append, any, All, All-append, map, unwrap_or, arith, Bool-cases, inl,
  inr,
}
use passbook.Prelude.Text.{Text, codes, text_eq}
use passbook.Ledger.{Db}
use passbook.Ledger.Table.{keep-keep, keep-cong, All-every}
use passbook.Ledger.Ordering.{from_block_on}
use passbook.Ledger.Queries.{
  TransferRowOut, from_eth, from_erc20, from_gas, from_unattributed, Filter, in_filter, wanted,
  union_rows, page_of, last_block,
}

keep-map :
    {R : Type 0} (p : TransferRowOut → Bool) (f : R → TransferRowOut) (xs : List R)
    → keep p (map f xs) ≡ map f (keep (λ x. p (f x)) xs)
keep-map p f [] = refl
keep-map p f (x ∷ xs) = ground (arith, keep-map p f xs)

keep-wanted :
    (q : Filter) (category : Text) (p : TransferRowOut → Bool) (rs : List TransferRowOut)
    → keep p (wanted q category rs) ≡ wanted q category (keep p rs)
keep-wanted q category p rs = ground arith

-- A filter from a later block on.
abbrev pub from_block : Filter → ℕ → Filter
from_block q c = record q { lo = c }

in_filter-from_block :
    (q : Filter) (c chain_id : ℕ) (address : Text) (n : ℕ)
    → q.lo ≤ c
    → (in_filter q chain_id address n && leb c n) ≡ in_filter (from_block q c) chain_id address n
in_filter-from_block q c chain_id address n h = ground arith

category_from :
    {R : Type 0} (q : Filter) (c : ℕ) (category : Text) (f : R → TransferRowOut)
    (before after : R → Bool) (rows : List R)
    → ((r : R) → (before r && leb c (f r).block_number) ≡ after r)
    → keep (from_block_on c) (wanted q category (map f (keep before rows)))
      ≡ wanted (from_block q c) category (map f (keep after rows))
category_from q c category f before after rows h =
    keep-wanted q category (from_block_on c) (map f (keep before rows))
    ∙ ap (wanted q category) (
        keep-map (from_block_on c) f (keep before rows)
        ∙ ap (map f) (keep-keep _ before rows ∙ keep-cong _ after rows (All-every _ h rows)))

append_from :
    (c : ℕ) (xs ys : List TransferRowOut) {xs' ys' : List TransferRowOut}
    → keep (from_block_on c) xs ≡ xs'
    → keep (from_block_on c) ys ≡ ys'
    → keep (from_block_on c) (xs ++ ys) ≡ xs' ++ ys'
append_from c xs ys p q = keep-append (from_block_on c) xs ys ∙ λ i. p i ++ q i

pub union_rows-from_block :
    (q : Filter) (c : ℕ) (db : Db)
    → q.lo ≤ c
    → keep (from_block_on c) (union_rows q db) ≡ union_rows (from_block q c) db
unfolding union_rows
union_rows-from_block q c db h =
    append_from c _ _
      (category_from q c (codes "eth") from_eth _ _ db.eth_transfers
        (λ r. later r.chain_id r.address r.block_number))
      (append_from c _ _
        (category_from q c (codes "erc20") from_erc20 _ _ db.erc20_transfers
          (λ r. later r.chain_id r.address r.block_number))
        (append_from c _ _
          (category_from q c (codes "gas") from_gas _ _ db.gas_payments
            (λ r. later r.chain_id r.address r.block_number))
          (category_from q c (codes "unattributed") from_unattributed _ _ db.unattributed_deltas
            (λ r. later r.chain_id r.address r.block_number))))
  where
    later :
        (chain_id : ℕ) (address : Text) (n : ℕ)
        → (in_filter q chain_id address n && leb c n)
          ≡ in_filter (from_block q c) chain_id address n
    later chain_id address n = in_filter-from_block q c chain_id address n h

-- The rows of a query lie in its range of blocks.
abbrev pub Within : Filter → TransferRowOut → Type 0
Within q r = (q.lo ≤ r.block_number) × (r.block_number ≤ q.hi)

in_filter-Within :
    (q : Filter) (chain_id : ℕ) (address : Text) (n : ℕ)
    → in_filter q chain_id address n ≡ true
    → (q.lo ≤ n) × (n ≤ q.hi)
in_filter-Within q chain_id address n h = ground arith

category-Within :
    {R : Type 0} (q : Filter) (category : Text) (f : R → TransferRowOut) (p : R → Bool)
    (rows : List R)
    → ((r : R) → p r ≡ true → Within q (f r))
    → All (Within q) (map f (keep p rows))
category-Within q category f p [] h = tt
category-Within q category f p (r ∷ rows) h = elim (Bool-cases (p r)) [
  | inl e ↦ rw e (h r e, category-Within q category f p rows h)
  | inr e ↦ rw e (category-Within q category f p rows h)
]

wanted-Within :
    (q : Filter) (category : Text) (rs : List TransferRowOut)
    → All (Within q) rs
    → All (Within q) (wanted q category rs)
wanted-Within q category rs h = elim (Bool-cases (text_eq (unwrap_or q.kind category) category)) [
  | inl e ↦ rw e h
  | inr e ↦ rw e tt
]

pub union_rows-Within : (q : Filter) (db : Db) → All (Within q) (union_rows q db)
unfolding union_rows
union_rows-Within q db =
    All-append (Within q) _ _
      (wanted-Within q (codes "eth") _ (
        category-Within q (codes "eth") from_eth _ db.eth_transfers
          (λ r e. within r.chain_id r.address r.block_number e)))
      (All-append (Within q) _ _
        (wanted-Within q (codes "erc20") _ (
          category-Within q (codes "erc20") from_erc20 _ db.erc20_transfers
            (λ r e. within r.chain_id r.address r.block_number e)))
        (All-append (Within q) _ _
          (wanted-Within q (codes "gas") _ (
            category-Within q (codes "gas") from_gas _ db.gas_payments
              (λ r e. within r.chain_id r.address r.block_number e)))
          (wanted-Within q (codes "unattributed") _ (
            category-Within q (codes "unattributed") from_unattributed _ db.unattributed_deltas
              (λ r e. within r.chain_id r.address r.block_number e)))))
  where
    within :
        (chain_id : ℕ) (address : Text) (n : ℕ)
        → in_filter q chain_id address n ≡ true
        → (q.lo ≤ n) × (n ≤ q.hi)
    within chain_id address n e = in_filter-Within q chain_id address n e

last_block_le :
    (hi n b : ℕ) (rs : List TransferRowOut)
    → b ≤ hi
    → All (λ (r : TransferRowOut). r.block_number ≤ hi) rs
    → last_block b (take n rs) ≤ hi
last_block_le hi zero b rs h a = h
last_block_le hi (suc n) b [] h a = h
last_block_le hi (suc n) b (r ∷ rs) h a = last_block_le hi n r.block_number rs a.0 a.1

any_above :
    (hi cut : ℕ) (rs : List TransferRowOut)
    → All (λ (r : TransferRowOut). r.block_number ≤ hi) rs
    → any (λ r. ltb cut r.block_number) rs ≡ true
    → cut < hi
any_above hi cut [] a e = cc
any_above hi cut (r ∷ rs) a e = elim (Bool-cases (ltb cut r.block_number)) [
  | inl f ↦ let h = a.0 in ground arith
  | inr f ↦ any_above hi cut rs a.1 (sym (rw f refl) ∙ e)
]

-- A cursor is no larger than the last block of the query.
pub page_of-cursor_le :
    (hi lim : ℕ) (rs : List TransferRowOut) {c : ℕ}
    → All (λ (r : TransferRowOut). r.block_number ≤ hi) rs
    → (page_of lim rs).next_cursor ≡ some c
    → c ≤ hi
unfolding page_of
page_of-cursor_le hi lim [] a e = cc
page_of-cursor_le hi lim (r ∷ rs) a e =
    let cut_le = last_block_le hi (lim + 1) r.block_number (r ∷ rs) a.0 a in
    let above = any_above hi (last_block r.block_number (take (lim + 1) (r ∷ rs))) (r ∷ rs) a in
    ground (arith, cut_le, above)
