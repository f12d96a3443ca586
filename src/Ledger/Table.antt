-- ===== src/Ledger/Table.antt =====
-- Tables: `INSERT OR REPLACE` and `DELETE` on the rows of one table in rowid order. A replaced row is
-- removed, and the new one takes the largest rowid.
use passbook.Prelude.{
  ◌≡◌, refl, sym, ap, ◌∙◌, Bool, true, false, not, ◌&&◌, List, [], ◌∷◌, ◌++◌, append-nil,
  append_assoc, if◌then◌else◌, keep, keep-append, any, All, arith, Bool-cases, inl, inr,
}

module _ {R : Type 0} (same_key : R → R → Bool) where
  unfoldable pub insert_or_replace : R → List R → List R
  insert_or_replace r rows = keep (λ x. not (same_key x r)) rows ++ r ∷ []

  unfoldable pub insert_all : List R → List R → List R
  unfolding insert_or_replace
  insert_all [] rows = rows
  insert_all (r ∷ rs) rows = insert_all rs (insert_or_replace r rows)

  abbrev pub has_key : List R → R → Bool
  has_key rs x = any (λ r. same_key x r) rs

  -- The rows that no later one replaces.
  unfoldable pub last_rows : List R → List R
  last_rows [] = []
  last_rows (r ∷ rs) = (if has_key rs r then [] else r ∷ []) ++ last_rows rs

-- Two filters one after the other.
pub keep-keep :
    {R : Type 0} (p q : R → Bool) (xs : List R) → keep p (keep q xs) ≡ keep (λ x. q x && p x) xs
keep-keep p q [] = refl
keep-keep p q (x ∷ xs) = ground (arith, keep-keep p q xs)

pub keep-cong :
    {R : Type 0} (p q : R → Bool) (xs : List R) → All (λ x. p x ≡ q x) xs → keep p xs ≡ keep q xs
keep-cong p q [] h = refl
keep-cong p q (x ∷ xs) h = let e = keep-cong p q xs h.1 in let d = h.0 in ground arith

pub keep-every :
    {R : Type 0} (p : R → Bool) (xs : List R) → All (λ x. p x ≡ true) xs → keep p xs ≡ xs
keep-every p [] h = refl
keep-every p (x ∷ xs) h = rw h.0 (ap (λ l. x ∷ l) (keep-every p xs h.1))

pub keep-none :
    {R : Type 0} (p : R → Bool) (xs : List R) → All (λ x. p x ≡ false) xs → keep p xs ≡ []
keep-none p [] h = refl
keep-none p (x ∷ xs) h = rw h.0 (keep-none p xs h.1)

pub All-map :
    {R : Type 0} (P Q : R → Type 0) → ((x : R) → P x → Q x) → (xs : List R) → All P xs → All Q xs
All-map P Q f [] h = tt
All-map P Q f (x ∷ xs) h = (f x h.0, All-map P Q f xs h.1)

pub All-every : {R : Type 0} (P : R → Type 0) → ((x : R) → P x) → (xs : List R) → All P xs
All-every P f [] = tt
All-every P f (x ∷ xs) = (f x, All-every P f xs)

either : (b c : Bool) → (not b && not c) ≡ not (if b then true else c)
either true c = refl
either false c = refl

both : (b : Bool) → (b && b) ≡ b
both true = refl
both false = refl

later : (b c : Bool) → c ≡ true → (if b then true else c) ≡ true
later true c e = refl
later false c e = e

negated :
    {R : Type 0} (r : R) (b : Bool) → (if not b then r ∷ [] else []) ≡ (if b then [] else r ∷ [])
negated r true = refl
negated r false = refl

module _ {R : Type 0} (same_key : R → R → Bool) where
  -- The table after a batch of inserts: the rows with other keys as they were, then the batch.
  pub insert_all-keep :
      (rs rows : List R)
      → insert_all same_key rs rows
        ≡ keep (λ x. not (has_key same_key rs x)) rows ++ last_rows same_key rs
  unfolding insert_all last_rows insert_or_replace
  insert_all-keep [] rows = sym (append-nil _ ∙ keep-every _ rows (All-every _ (λ x. refl) rows))
  insert_all-keep (r ∷ rs) rows =
      insert_all-keep rs (insert_or_replace same_key r rows)
      ∙ ap (λ l. l ++ last_rows same_key rs)
          (keep-append (λ x. not (has_key same_key rs x)) (keep (λ x. not (same_key x r)) rows)
              (r ∷ [])
            ∙ λ k. keep_both k ++ keep_one k)
      ∙ append_assoc _ (if has_key same_key rs r then [] else r ∷ []) (last_rows same_key rs)
    where
      keep_both :
          keep (λ x. not (has_key same_key rs x)) (keep (λ x. not (same_key x r)) rows)
          ≡ keep (λ x. not (has_key same_key (r ∷ rs) x)) rows
      keep_both =
          keep-keep _ _ rows
          ∙ keep-cong _ _ rows
              (All-every _ (λ x. either (same_key x r) (has_key same_key rs x)) rows)

      keep_one :
          keep (λ x. not (has_key same_key rs x)) (r ∷ [])
          ≡ (if has_key same_key rs r then [] else r ∷ [])
      keep_one = negated r (has_key same_key rs r)

  pub last_rows-All : (P : R → Type 0) (rs : List R) → All P rs → All P (last_rows same_key rs)
  unfolding last_rows
  last_rows-All P [] h = tt
  last_rows-All P (r ∷ rs) h = elim (Bool-cases (has_key same_key rs r)) [
    | inl e ↦ rw e (last_rows-All P rs h.1)
    | inr e ↦ rw e (h.0, last_rows-All P rs h.1)
  ]

  -- Rows that have a key at all have that of a row in their batch.
  own_keys :
      (rs : List R) → All (λ r. same_key r r ≡ true) rs → All (λ x. has_key same_key rs x ≡ true) rs
  own_keys [] h = tt
  own_keys (r ∷ rs) h = (
    rw h.0 refl,
    All-map _ _ (λ x e. later (same_key x r) (has_key same_key rs x) e) rs (own_keys rs h.1),
  )

  -- The second of two equal batches changes nothing.
  pub insert_all-insert_all :
      (rs rows : List R)
      → All (λ r. same_key r r ≡ true) rs
      → insert_all same_key rs (insert_all same_key rs rows) ≡ insert_all same_key rs rows
  insert_all-insert_all rs rows h =
      insert_all-keep rs (insert_all same_key rs rows)
      ∙ ap (λ l. l ++ last_rows same_key rs)
          (ap (keep (λ x. not (has_key same_key rs x))) (insert_all-keep rs rows)
            ∙ keep-append _ (keep (λ x. not (has_key same_key rs x)) rows) (last_rows same_key rs)
            ∙ (λ k. kept_twice k ++ dropped k)
            ∙ append-nil _)
      ∙ sym (insert_all-keep rs rows)
    where
      kept_twice :
          keep (λ x. not (has_key same_key rs x)) (keep (λ x. not (has_key same_key rs x)) rows)
          ≡ keep (λ x. not (has_key same_key rs x)) rows
      kept_twice =
          keep-keep _ _ rows
          ∙ keep-cong _ _ rows (All-every _ (λ x. both (not (has_key same_key rs x))) rows)

      dropped : keep (λ x. not (has_key same_key rs x)) (last_rows same_key rs) ≡ []
      dropped =
          keep-none _ (last_rows same_key rs)
            (All-map _ _ (λ x e. ap not e) _ (last_rows-All _ rs (own_keys rs h)))
