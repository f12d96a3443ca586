-- ===== src/Ledger/Drain.antt =====
-- A client that follows the cursor of `get_transfers` (crates/passbook-core/src/ledger/queries.rs) from page to
-- page until there is none.
use mathlib.Core.List.{Perm}
use passbook.Prelude.{
  ℕ, zero, suc, ◌^◌, ◌≤◌, ◌<◌, ◌≡◌, refl, sym, ap, ◌∙◌, subst, true, min, max, Option, none, some,
  List, [], ◌∷◌, ◌++◌, ltb, ◌⊎◌, length, keep, length-keep-le, All, append-nil, unwrap_or, arith,
  Option-cases, inl, inr,
}
use passbook.Prelude.Text.{Text}
use passbook.Ledger.{Db}
use passbook.Ledger.Table.{All-map}
use passbook.Ledger.Queries.{
  TransferRowOut, TransfersPage, Filter, union_rows, page_of, order_by_block, or_else,
  get_transfers,
}
use passbook.Ledger.Matches.{filter_from, FirstFits, matches, union_rows-matches}
use passbook.Ledger.Pages.{remaining, first_block, Sorted, order_by_block-Sorted, page_of-Complete}
use passbook.Ledger.Ordering.{
  from_block_on, keep-order_by_block, order_by_block-All, order_by_block-perm,
  length-order_by_block,
}
use passbook.Ledger.Cursor.{
  from_block, Within, union_rows-from_block, union_rows-Within, page_of-cursor_le,
}

-- The rows of the query in the order of the pages.
abbrev pub matching : Db → Filter → List TransferRowOut
matching db q = order_by_block (union_rows q db)

matching-Within : (db : Db) (q : Filter) → All (Within q) (matching db q)
matching-Within db q = order_by_block-All (Within q) (union_rows q db) (union_rows-Within q db)

matching-from_block :
    (db : Db) (q : Filter) (c : ℕ)
    → q.lo ≤ c
    → keep (from_block_on c) (matching db q) ≡ matching db (from_block q c)
matching-from_block db q c h =
    keep-order_by_block c (union_rows q db) ∙ ap order_by_block (union_rows-from_block q c db h)

-- A cursor is behind the first row: the rest has fewer rows, and begins no earlier than the query.
rest_shorter :
    (lim c : ℕ) (rs : List TransferRowOut)
    → (page_of lim rs).next_cursor ≡ some c
    → first_block rs < c
    → length (keep (from_block_on c) rs) < length rs
unfolding page_of
rest_shorter lim c [] e h = cc
rest_shorter lim c (r ∷ rs) e h = ground (arith, length-keep-le (from_block_on c) rs)

lo_le_cursor :
    (q : Filter) (lim c : ℕ) (rs : List TransferRowOut)
    → All (Within q) rs
    → (page_of lim rs).next_cursor ≡ some c
    → first_block rs < c
    → q.lo ≤ c
unfolding page_of
lo_le_cursor q lim c [] a e h = cc
lo_le_cursor q lim c (r ∷ rs) a e h = let k = a.0.0 in omega arith

next_page :
    (db : Db) (q : Filter) (lim : ℕ) {c : ℕ}
    → (page_of lim (matching db q)).next_cursor ≡ some c
    → (c ≤ q.hi)
      × (length (matching db (from_block q c)) < length (matching db q))
      × ((page_of lim (matching db q)).rows ++ matching db (from_block q c) ≡ matching db q)
next_page db q lim {c} e =
    let (whole, ahead) = page_of-Complete lim (union_rows q db) in
    let behind : first_block (matching db q) < c = ahead c e in
    let rest =
      matching-from_block db q c
        (lo_le_cursor q lim c (matching db q) (matching-Within db q) e behind) in
    (
      page_of-cursor_le q.hi lim (matching db q) (All-map _ _ (λ r w. w.1) _ (matching-Within db q))
          e,
      rw rest at (rest_shorter lim c (matching db q) e behind),
      ap (λ l. (page_of lim (matching db q)).rows ++ l)
            (sym rest ∙ ap (λ n. remaining n (matching db q)) (sym e))
          ∙ whole,
    )

abbrev put_before :
    List TransferRowOut → Option (List TransferRowOut) → Option (List TransferRowOut)
put_before rows none = none
put_before rows (some rest) = some (rows ++ rest)

-- What a client does with a page: it asks again at the cursor.
unfoldable pub follow :
    Option ℕ
    → List TransferRowOut
    → (ℕ → Option (List TransferRowOut))
    → Option (List TransferRowOut)
follow none rows ask = some rows
follow (some c) rows ask = put_before rows (ask c)

follow_lem :
    (cursor : Option ℕ) (rows whole : List TransferRowOut) (ask : ℕ → Option (List TransferRowOut))
    → rows ++ [] ≡ whole ⊎ ((c : ℕ) × (cursor ≡ some c))
    → ((c : ℕ)
        → cursor ≡ some c
        → (rest : List TransferRowOut) × (ask c ≡ some rest) × (rows ++ rest ≡ whole))
    → follow cursor rows ask ≡ some whole
unfolding follow
follow_lem none rows whole ask last more = elim last [
  | inl e ↦ ap some (sym (append-nil rows) ∙ e)
  | inr (c, e) ↦ cc
]
follow_lem (some c) rows whole ask last more =
    let (rest, e, d) = more c refl in ap (put_before rows) e ∙ ap some d

module _ (db : Db) (chain_id : ℕ) (address : Text) (first to_block : Option ℕ) (kind : Option Text)
    (limit : ℕ) where
  abbrev query : ℕ → Filter
  query = filter_from chain_id address to_block kind

  abbrev pub page_at : Option ℕ → TransfersPage
  page_at cursor = get_transfers db chain_id address first to_block kind cursor limit

  -- The rows of the page at a cursor, and of all pages after it; `none` where the fuel does not last.
  unfoldable pub drain : ℕ → Option ℕ → Option (List TransferRowOut)
  unfolding follow
  drain zero cursor = none
  drain (suc fuel) cursor =
      follow (page_at cursor).next_cursor (page_at cursor).rows (λ c. drain fuel (some c))

  page_at_lem :
      (cursor : Option ℕ)
      → page_at cursor
        ≡ page_of
            (min (max limit 1) 1000)
            (matching db (query (unwrap_or (or_else cursor first) 0)))
  unfolding get_transfers
  page_at_lem cursor = refl

  from_block-query : (lo c : ℕ) → c ≤ (query lo).hi → from_block (query lo) c ≡ query c
  from_block-query lo c h = let small : ltb c (2 ^ 63) ≡ true = ground arith in rw small refl

  -- The whole of a query, from a cursor on.
  abbrev from_cursor : Option ℕ → List TransferRowOut
  from_cursor cursor = matching db (query (unwrap_or (or_else cursor first) 0))

  last_page :
      (lim : ℕ) (q : Filter)
      → ((page_of lim (matching db q)).rows ++ [] ≡ matching db q)
        ⊎ ((c : ℕ) × ((page_of lim (matching db q)).next_cursor ≡ some c))
  last_page lim q = elim (Option-cases ((page_of lim (matching db q)).next_cursor)) [
    | inl e ↦ inl (
        ap (λ n. (page_of lim (matching db q)).rows ++ remaining n (matching db q)) (sym e)
        ∙ (page_of-Complete lim (union_rows q db)).0)
    | inr found ↦ inr found
  ]

  pub drain_from :
      (fuel : ℕ) (cursor : Option ℕ)
      → length (from_cursor cursor) < fuel
      → drain fuel cursor ≡ some (from_cursor cursor)
  unfolding drain get_transfers
  drain_from zero cursor h = absurd (omega arith)
  drain_from (suc fuel) cursor h =
      let q = query (unwrap_or (or_else cursor first) 0) in
      let lim = min (max limit 1) 1000 in
      follow_lem (page_at cursor).next_cursor (page_at cursor).rows (from_cursor cursor) _
        (last_page lim q)
        (λ c e.
          let (le, fewer, whole) = next_page db q lim e in
          let same =
            ap (matching db) (from_block-query (unwrap_or (or_else cursor first) 0) c le) in
          (
            from_cursor (some c),
            drain_from fuel (some c) (
                let shorter : length (matching db (query c)) < length (from_cursor cursor) =
                  subst (λ l. length l < length (from_cursor cursor)) same fewer in
                omega arith),
            ap (λ l. (page_at cursor).rows ++ l) (sym same) ∙ whole,
          ))

  -- Whatever the limit, a client that follows the cursor until there is none comes to an end, after no more
  -- pages than there are rows, and one; the rows of its pages are then in the order of their blocks, and are
  -- each once the rows of the four tables that are of the chain, the address and the category, from the first block
  -- on, up to and with the last. This is for a first block below 2 ^ 63, and for blocks that SQLite can number.
  pub drain-Complete :
      (fuel : ℕ)
      → FirstFits first
      → length (matches db chain_id address first to_block kind) < fuel
      → (rows : List TransferRowOut) × (drain fuel none ≡ some rows)
        × Sorted rows
        × Perm rows (matches db chain_id address first to_block kind)
  drain-Complete fuel small h =
      let found = union_rows (filter_from chain_id address to_block kind (unwrap_or first 0)) db in
      let same = union_rows-matches db chain_id address first to_block kind small in
      let fewer : length found < fuel = subst (λ l. length l < fuel) (sym same) h in
      (
        order_by_block found,
        drain_from fuel none (omega (arith, fewer, length-order_by_block found)),
        order_by_block-Sorted found,
        subst (λ l. Perm (order_by_block found) l) same (order_by_block-perm found),
      )
