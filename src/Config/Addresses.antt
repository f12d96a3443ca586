-- ===== src/Config/Addresses.antt =====
-- Which addresses are accepted: `parse_watched_address` of crates/passbook-core/src/config.rs.
use passbook.Prelude.{
  ◌≤◌, ◌≢◌, ◌⊎◌, ◌&&◌, ◌==◌, ==_iff, leb, any, Member, Bool, [], ◌∷◌, subst, ◌≡◌, if◌then◌else◌,
  ◌↔◌, refl, sym, ap, ◌∙◌, ℕ, true, false, Option, none, some, arith, Bool-cases, inl, inr,
}
use passbook.Prelude.Text.{Text, codes, text_eq, text_eq_iff, starts_with}
use passbook.Prelude.Result.{ok, err}
use passbook.Config.{
  AddressFormat, invalid_checksum, is_ascii_lowercase, is_ascii_uppercase, strip_prefix,
  is_mixed_case, check_spelling, parse_watched_address,
}

-- A letter of s between two.
abbrev pub Letter : ℕ → ℕ → Text → Type 0
Letter lo hi s = (c : ℕ) × Member c s × (lo ≤ c) × (c ≤ hi)

-- The digits of a spelled address: what is behind "0x" or "0X", or all of it where there is neither.
abbrev pub Digits : Text → Text → Type 0
Digits a s =
    (a ≡ 48 ∷ 120 ∷ s)
    ⊎ ((a ≡ 48 ∷ 88 ∷ s)
        ⊎ ((a ≡ s) × ((t : Text) → a ≢ 48 ∷ 120 ∷ t) × ((t : Text) → a ≢ 48 ∷ 88 ∷ t)))

-- Letters of both cases among the digits.
abbrev pub Mixed : Text → Type 0
Mixed a = (s : Text) × Digits a s × Letter 97 122 s × Letter 65 90 s

any-Letter : (lo hi : ℕ) (s : Text) → any (λ c. leb lo c && leb c hi) s ≡ true → Letter lo hi s
any-Letter lo hi [] h = cc
any-Letter lo hi (c ∷ s) h = elim (Bool-cases (leb lo c && leb c hi)) [
  | inl e ↦ (c, inl refl, ground arith, ground arith)
  | inr e ↦ let (d, m, l, u) = any-Letter lo hi s (sym (rw e refl) ∙ h) in (d, inr m, l, u)
]

in_range : (lo hi c : ℕ) → lo ≤ c → c ≤ hi → (leb lo c && leb c hi) ≡ true
in_range lo hi c l u = ground arith

if_same : (b : Bool) → (if b then true else true) ≡ true
if_same b = ground arith

Letter-any : (lo hi : ℕ) (s : Text) → Letter lo hi s → any (λ c. leb lo c && leb c hi) s ≡ true
Letter-any lo hi [] (c, m, l, u) = absurd m
Letter-any lo hi (d ∷ s) (c, inl m, l, u) =
    rw (in_range lo hi d (subst (λ k. lo ≤ k) m l) (subst (λ k. k ≤ hi) m u)) refl
Letter-any lo hi (d ∷ s) (c, inr m, l, u) =
    rw (Letter-any lo hi s (c, m, l, u)) (if_same (leb lo d && leb d hi))

first_differs : (c d k l : ℕ) (s t : Text) → c == k ≡ false → c ∷ d ∷ s ≢ k ∷ l ∷ t
first_differs c d k l s t e p =
    let q : c ≡ k = cc in let r : true ≡ false = sym ((==_iff c k).1 q) ∙ e in cc

second_differs : (c d k l : ℕ) (s t : Text) → d == l ≡ false → c ∷ d ∷ s ≢ k ∷ l ∷ t
second_differs c d k l s t e p =
    let q : d ≡ l = cc in let r : true ≡ false = sym ((==_iff d l).1 q) ∙ e in cc

strip_prefix-Digits : (a : Text) → Digits a (strip_prefix a)
unfolding strip_prefix
strip_prefix-Digits [] = inr (inr (refl, λ t e. cc, λ t e. cc))
strip_prefix-Digits (c ∷ []) = inr (inr (refl, λ t e. cc, λ t e. cc))
strip_prefix-Digits (c ∷ d ∷ s) = elim (Bool-cases (c == 48)) [
  | inr e ↦
      rw e
        (inr (inr (refl, λ t. first_differs c d 48 120 s t e, λ t. first_differs c d 48 88 s t e)))
  | inl e ↦ elim (Bool-cases (d == 120)) [
    | inl k ↦ rw ((==_iff c 48).0 e, (==_iff d 120).0 k) (inl refl)
    | inr k ↦ elim (Bool-cases (d == 88)) [
      | inl l ↦ rw ((==_iff c 48).0 e, (==_iff d 88).0 l) (inr (inl refl))
      | inr l ↦
          rw (e, k, l)
            (inr (
              inr
                (refl, λ t. second_differs c d 48 120 s t k, λ t. second_differs c d 48 88 s t l)))
    ]
  ]
]

Digits-strip_prefix : (a s : Text) → Digits a s → strip_prefix a ≡ s
unfolding strip_prefix
Digits-strip_prefix a s (inl e) = rw e refl
Digits-strip_prefix a s (inr (inl e)) = rw e refl
Digits-strip_prefix a s (inr (inr (e, n, m))) = elim (strip_prefix-Digits a) [
  | inl p ↦ absurd (n (strip_prefix a) p)
  | inr (inl p) ↦ absurd (m (strip_prefix a) p)
  | inr (inr p) ↦ sym p.0 ∙ e
]

both_true : (p q : Bool) → (p && q) ≡ true → (p ≡ true) × (q ≡ true)
both_true p q h = ground arith

is_mixed_case-Mixed : (a : Text) → (is_mixed_case a ≡ true) ↔ Mixed a
unfolding is_mixed_case
is_mixed_case-Mixed a = (
  λ h.
      let (l, u) =
        both_true (any is_ascii_lowercase (strip_prefix a))
          (any is_ascii_uppercase (strip_prefix a)) h in
      (
        strip_prefix a,
        strip_prefix-Digits a,
        any-Letter 97 122 (strip_prefix a) l,
        any-Letter 65 90 (strip_prefix a) u,
      ),
  λ h.
      let (s, d, l, u) = h in
      rw (Digits-strip_prefix a s d)
        (ap (λ p. p && any is_ascii_uppercase s) (Letter-any 97 122 s l) ∙ Letter-any 65 90 s u),
)

module _ (f : AddressFormat) where
  spelled_n : (a : Text) (m n : ℕ) → check_spelling f a (some m) ≡ ok n → m ≡ n
  spelled_n a m n h = ground arith

  spelled_same :
      (a : Text) (m n : ℕ)
      → check_spelling f a (some m) ≡ ok n
      → is_mixed_case a ≡ true
      → a ≡ f.checksum m
  spelled_same a m n h mixed = (text_eq_iff a (f.checksum m)).0 (ground arith)

  spelled_back :
      (a : Text) (n : ℕ)
      → (is_mixed_case a ≡ true → a ≡ f.checksum n)
      → check_spelling f a (some n) ≡ ok n
  spelled_back a n same = elim (Bool-cases (is_mixed_case a)) [
    | inl e ↦ rw (e, (text_eq_iff a (f.checksum n)).1 (same e)) refl
    | inr e ↦ rw e refl
  ]

  spelled :
      (a : Text) (n : ℕ) (o : Option ℕ)
      → (check_spelling f a o ≡ ok n) ↔ ((o ≡ some n) × (is_mixed_case a ≡ true → a ≡ f.checksum n))
  spelled a n none = (λ h. cc, λ h. let e = h.0 in cc)
  spelled a n (some m) = (
    λ h.
        let e = spelled_n a m n h in
        (ap some e, λ mixed. spelled_same a m n h mixed ∙ ap f.checksum e),
    λ h. let e : m ≡ n = let d = h.0 in cc in rw e (spelled_back a n h.1),
  )

  -- An address is accepted exactly when it can be read, and, if there are lower-case letters (a to z) and
  -- upper-case ones (A to Z) in it, a leading "0x" or "0X" left out, is spelled with the checksum of the address
  -- that is read.
  pub parse_watched_address_iff :
      (a : Text) (n : ℕ)
      → (parse_watched_address f a ≡ ok n)
        ↔ ((f.from_str a ≡ some n) × (Mixed a → a ≡ f.checksum n))
  unfolding parse_watched_address
  parse_watched_address_iff a n =
      let (to, back) = spelled a n (f.from_str a) in
      (
        λ h. let k = to h in (k.0, λ m. k.1 ((is_mixed_case-Mixed a).1 m)),
        λ h. back (h.0, λ m. h.1 ((is_mixed_case-Mixed a).0 m)),
      )

  -- An address whose letters are of both cases is refused where it is written without "0x", for whatever
  -- address it is read as, although its digits may be those of the checksum.
  pub parse_watched_address-Unprefixed :
      (a : Text) (n : ℕ)
      → f.from_str a ≡ some n
      → is_mixed_case a ≡ true
      → starts_with a (codes "0x") ≡ false
      → parse_watched_address f a ≡ err (invalid_checksum a (f.checksum n))
  unfolding parse_watched_address
  parse_watched_address-Unprefixed a n e mixed bare = elim (Bool-cases (text_eq a (f.checksum n))) [
    | inl same ↦ absurd (
        let d : a ≡ f.checksum n = (text_eq_iff a (f.checksum n)).0 same in
        let p : true ≡ false =
          sym (f.checksum_prefix n) ∙ ap (λ s. starts_with s (codes "0x")) (sym d) ∙ bare in
        ground arith)
    | inr other ↦ rw (e, mixed, other) refl
  ]
