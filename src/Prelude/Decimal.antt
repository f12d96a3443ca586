-- ===== src/Prelude/Decimal.antt =====
-- `to_string` of the unsigned integers, and `parse::<u64>()`, of the standard library.
use Prim.Native.Nat.{ℕ, zero, suc, ◌+◌, ◌-◌, ◌*◌, ◌/◌, ◌%◌, ◌^◌, ◌<◌}
use mathlib.Core.Path.{◌≡◌, refl, ◌∙◌, ap}
use mathlib.Core.Bool.{Bool, true, ◌&&◌}
use mathlib.Core.Option.{Option, none, some}
use mathlib.Core.List.{[], ◌∷◌}
use native.Mathlib.Omega.{arith}
use native.Mathlib.Nat.{pow-suc}
use mathlib.Core.Logic.{inl, inr}
use passbook.Prelude.Tests.{Bool-cases, ◌==◌, leb, ltb, if◌then◌else◌}
use passbook.Prelude.Text.{Text}

-- The digits of n in front of `acc`; the fuel is the number of digits at most.
unfoldable pub digits : ℕ → ℕ → Text → Text
digits zero n acc = acc
digits (suc fuel) n acc =
    let rest = digits fuel (n / 10) ((48 + n % 10) ∷ acc) in
    if n / 10 == 0 then (48 + n % 10) ∷ acc else rest

-- 80 digits are enough for every number below 2 ^ 256.
unfoldable pub to_string : ℕ → Text
unfolding digits
to_string n = digits 80 n []

unfoldable pub is_digit : ℕ → Bool
is_digit c = leb 48 c && leb c 57

unfoldable pub parse_digits : ℕ → Text → Option ℕ
unfolding is_digit
parse_digits n [] = some n
parse_digits n (c ∷ s) =
    let rest = parse_digits (n * 10 + (c - 48)) s in
    if is_digit c && ltb (n * 10 + (c - 48)) (2 ^ 64) then rest else none

-- `s.parse::<u64>().ok()`: no digit at all is an error, a `+` in front is allowed.
unfoldable pub parse_u64 : Text → Option ℕ
unfolding parse_digits
parse_u64 [] = none
parse_u64 (c ∷ []) = if c == 43 then none else parse_digits 0 (c ∷ [])
parse_u64 (c ∷ d ∷ s) = if c == 43 then parse_digits 0 (d ∷ s) else parse_digits 0 (c ∷ d ∷ s)

parse_digits-digit :
    (m d : ℕ) (acc : Text)
    → d < 10
    → m * 10 + d < 2 ^ 64
    → parse_digits m ((48 + d) ∷ acc) ≡ parse_digits (m * 10 + d) acc
unfolding parse_digits
parse_digits-digit m d acc h k = let e : 48 + d - 48 ≡ d = omega arith in rw e (ground arith)

-- What stands before `acc` is read back as the number that it was printed from.
parse_digits-digits :
    (fuel n : ℕ) (acc : Text)
    → n < 10 ^ suc fuel
    → n < 2 ^ 64
    → parse_digits 0 (digits (suc fuel) n acc) ≡ parse_digits n acc
unfolding digits
parse_digits-digits zero n acc h k =
    let e : (n / 10 == 0) ≡ true = ground arith in
    rw e (
      parse_digits-digit 0 (n % 10) acc (omega arith) (omega arith)
      ∙ ap (λ (m : ℕ). parse_digits m acc) (omega arith))
parse_digits-digits (suc fuel) n acc h k = elim (Bool-cases (n / 10 == 0)) [
  | inl last ↦ rw last (
      parse_digits-digit 0 (n % 10) acc (omega arith) (omega arith)
      ∙ ap (λ (m : ℕ). parse_digits m acc) (ground arith))
  | inr more ↦ rw more (
      parse_digits-digits fuel (n / 10) ((48 + n % 10) ∷ acc) (omega (arith, pow-suc 10 (suc fuel)))
        (omega arith)
      ∙ parse_digits-digit (n / 10) (n % 10) acc (omega arith) (omega arith)
      ∙ ap (λ (m : ℕ). parse_digits m acc) (omega arith))
]

digits_cons : (fuel n : ℕ) (acc : Text) → (c : ℕ) × (s : Text) × (digits (suc fuel) n acc ≡ c ∷ s)
unfolding digits
digits_cons zero n acc = elim (Bool-cases (n / 10 == 0)) [
  | inl last ↦ (48 + n % 10, acc, rw last refl)
  | inr more ↦ (48 + n % 10, acc, rw more refl)
]
digits_cons (suc fuel) n acc = elim (Bool-cases (n / 10 == 0)) [
  | inl last ↦ (48 + n % 10, acc, rw last refl)
  | inr more ↦ let (c, s, e) = digits_cons fuel (n / 10) ((48 + n % 10) ∷ acc) in (c, s, rw more e)
]

-- A text that begins with a digit has no sign.
parse_u64_of_digits :
    (c : ℕ) (s : Text) {n : ℕ} → parse_digits 0 (c ∷ s) ≡ some n → parse_u64 (c ∷ s) ≡ some n
unfolding parse_u64
parse_u64_of_digits c [] h = ground arith
parse_u64_of_digits c (d ∷ s) h = ground arith

parse_digits-nil : (n : ℕ) → parse_digits n [] ≡ some n
unfolding parse_digits
parse_digits-nil n = refl

-- Printing a u64 and parsing the text gives the number back.
pub parse_u64-to_string : (n : ℕ) → n < 2 ^ 64 → parse_u64 (to_string n) ≡ some n
unfolding to_string
parse_u64-to_string n h =
    let (c, s, e) = digits_cons 79 n [] in
    rw e (
      parse_u64_of_digits c s
        (rw e at (parse_digits-digits 79 n [] (omega arith) h ∙ parse_digits-nil n)))
