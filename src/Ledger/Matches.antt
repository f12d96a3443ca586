-- ===== src/Ledger/Matches.antt =====
-- What a query asks for: the rows that `get_transfers` (crates/passbook-core/src/ledger/queries.rs) is to find.
use passbook.Prelude.{
  ℕ, ◌-◌, ◌^◌, ◌<◌, ◌≡◌, refl, sym, ap, Bool, true, false, Option, none, some, List, [], ◌∷◌, ◌++◌,
  ◌&&◌, ◌==◌, leb, min, keep, map, unwrap_or, if◌then◌else◌, arith,
}
use passbook.Prelude.Text.{Text, codes, text_eq, text_eq_iff}
use passbook.Ledger.{Db}
use passbook.Ledger.Table.{keep-cong, All-every}
use passbook.Ledger.Queries.{
  TransferRowOut, from_eth, from_erc20, from_gas, from_unattributed, Filter, as_i64_bound,
  in_filter, wanted, union_rows,
}

-- The query of a call whose lower bound is `lo`.
abbrev pub filter_from : ℕ → Text → Option ℕ → Option Text → ℕ → Filter
filter_from chain_id address to_block kind lo = record {
  chain_id = chain_id;
  address = address;
  lo = as_i64_bound lo;
  hi = min (unwrap_or to_block (2 ^ 64 - 1)) (2 ^ 63 - 1);
  kind = kind;
}

-- From the first block on, if one is given, up to the last, if one is given, and of the category, if one is given.
abbrev pub not_before : Option ℕ → ℕ → Bool
not_before none n = true
not_before (some first) n = leb first n

abbrev pub not_after : Option ℕ → ℕ → Bool
not_after none n = true
not_after (some last) n = leb n last

abbrev pub of_kind : Option Text → Text → Bool
of_kind none category = true
of_kind (some kind) category = text_eq kind category

abbrev pub FirstFits : Option ℕ → Type 0
FirstFits none = Unit
FirstFits (some first) = first < 2 ^ 63

module _ (db : Db) (chain_id : ℕ) (address : Text) (first to_block : Option ℕ)
    (kind : Option Text) where
  -- A row of a category; the numbers of blocks in SQLite end at 2 ^ 63 - 1.
  abbrev pub asked : Text → ℕ → Text → ℕ → Bool
  asked category chain holder n =
      of_kind kind category
      && (chain == chain_id
          && text_eq holder address
          && not_before first n
          && (not_after to_block n && leb n (2 ^ 63 - 1)))

  -- The rows of the four tables that are asked for.
  unfoldable pub matches : List TransferRowOut
  matches =
      map from_eth
        (keep (λ r. asked (codes "eth") r.chain_id r.address r.block_number) db.eth_transfers)
      ++ (map from_erc20 (
            keep (λ r. asked (codes "erc20") r.chain_id r.address r.block_number)
              db.erc20_transfers)
          ++ (map from_gas (
                keep (λ r. asked (codes "gas") r.chain_id r.address r.block_number) db.gas_payments)
              ++ map from_unattributed (
                  keep (λ r. asked (codes "unattributed") r.chain_id r.address r.block_number)
                    db.unattributed_deltas)))

  abbrev query : Filter
  query = filter_from chain_id address to_block kind (unwrap_or first 0)

  kind_wanted :
      (k : Option Text) (category : Text)
      → text_eq (unwrap_or k category) category ≡ of_kind k category
  kind_wanted none category = (text_eq_iff category category).1 refl
  kind_wanted (some k) category = refl

  lower :
      (o : Option ℕ) (n : ℕ) → FirstFits o → leb (as_i64_bound (unwrap_or o 0)) n ≡ not_before o n
  lower none n h = ground arith
  lower (some f) n h = ground arith

  upper :
      (o : Option ℕ) (n : ℕ)
      → leb n (min (unwrap_or o (2 ^ 64 - 1)) (2 ^ 63 - 1)) ≡ (not_after o n && leb n (2 ^ 63 - 1))
  upper none n = ground arith
  upper (some l) n = ground arith

  in_filter-asked :
      (category holder : Text) (chain n : ℕ)
      → FirstFits first
      → (of_kind kind category && in_filter query chain holder n) ≡ asked category chain holder n
  in_filter-asked category holder chain n h = rw (lower first n h, upper to_block n) refl

  category_rows :
      {R : Type 0} (w : Bool) (f : R → TransferRowOut) (p q : R → Bool) (rows : List R)
      → ((r : R) → (w && p r) ≡ q r)
      → (if w then map f (keep p rows) else []) ≡ map f (keep q rows)
  category_rows true f p q rows h = ap (map f) (keep-cong p q rows (All-every _ h rows))
  category_rows false f p q rows h = ap (map f) (none_kept q rows (λ r. sym (h r)))
    where
      none_kept :
          {R : Type 0} (q : R → Bool) (rows : List R) → ((r : R) → q r ≡ false) → [] ≡ keep q rows
      none_kept q [] h = refl
      none_kept q (r ∷ rows) h = rw (h r) (none_kept q rows h)

  wanted_rows :
      {R : Type 0} (category : Text) (f : R → TransferRowOut) (p q : R → Bool) (rows : List R)
      → ((r : R) → (of_kind kind category && p r) ≡ q r)
      → wanted query category (map f (keep p rows)) ≡ map f (keep q rows)
  wanted_rows category f p q rows h =
      rw (kind_wanted kind category) (category_rows (of_kind kind category) f p q rows h)

  pub union_rows-matches : FirstFits first → union_rows query db ≡ matches
  unfolding union_rows matches
  union_rows-matches h =
      let a =
        wanted_rows (codes "eth") from_eth _ _ db.eth_transfers
          (λ r. in_filter-asked (codes "eth") r.address r.chain_id r.block_number h) in
      let b =
        wanted_rows (codes "erc20") from_erc20 _ _ db.erc20_transfers
          (λ r. in_filter-asked (codes "erc20") r.address r.chain_id r.block_number h) in
      let c =
        wanted_rows (codes "gas") from_gas _ _ db.gas_payments
          (λ r. in_filter-asked (codes "gas") r.address r.chain_id r.block_number h) in
      let d =
        wanted_rows (codes "unattributed") from_unattributed _ _ db.unattributed_deltas
          (λ r. in_filter-asked (codes "unattributed") r.address r.chain_id r.block_number h) in
      λ k. a k ++ (b k ++ (c k ++ d k))
