-- ===== src/Prelude/Hex.antt =====
-- How the ledger writes hashes and addresses: `{:#x}` of a `B256` and of an `Address`, and
-- `parse::<B256>()`, all of alloy-primitives, an external library. `Formats` is what the program relies
-- on; `lower_hex` is such a format, "0x" and 64 or 40 lowercase digits.
use native.Mathlib.Nat.{pow-suc}
use Prim.Native.Nat.{ℕ, zero, suc, ◌+◌, ◌-◌, ◌*◌, ◌/◌, ◌%◌, ◌^◌, ◌<◌}
use mathlib.Core.Path.{◌≡◌, ◌∙◌, ap}
use mathlib.Core.Option.{Option, none, some}
use mathlib.Core.List.{[], ◌∷◌}
use native.Mathlib.Omega.{arith}
use passbook.Prelude.Tests.{ltb, if◌then◌else◌}
use passbook.Prelude.Text.{Text}

pub record Formats : Type 0 where
  pub hex_address : ℕ → Text
  pub hex_b256 : ℕ → Text
  pub parse_b256 : Text → Option ℕ
  pub parse_b256-hex_b256 : (h : ℕ) → h < 2 ^ 256 → parse_b256 (hex_b256 h) ≡ some h
  pub hex_address_injective :
      (a b : ℕ) → a < 2 ^ 160 → b < 2 ^ 160 → hex_address a ≡ hex_address b → a ≡ b

unfoldable pub hex_digit : ℕ → ℕ
hex_digit d = if ltb d 10 then 48 + d else 87 + d

unfoldable pub digit_value : ℕ → ℕ
digit_value c = if ltb c 58 then c - 48 else c - 87

unfoldable pub hex_digits : ℕ → ℕ → Text → Text
hex_digits zero v acc = acc
hex_digits (suc n) v acc = hex_digits n (v / 16) (hex_digit (v % 16) ∷ acc)

unfoldable pub hex_value : ℕ → Text → ℕ
hex_value n [] = n
hex_value n (c ∷ s) = hex_value (n * 16 + digit_value c) s

step_digit : {p : ℕ} (acc q v : ℕ) → p ≡ q * 16 → (acc * q + v / 16) * 16 + v % 16 ≡ acc * p + v
step_digit acc q v h = rw h (grind arith)

digit_value-hex_digit : (d : ℕ) → d < 16 → digit_value (hex_digit d) ≡ d
unfolding digit_value hex_digit
digit_value-hex_digit d h = ground arith

hex_value-hex_digits :
    (n v acc : ℕ) (rest : Text)
    → v < 16 ^ n
    → hex_value acc (hex_digits n v rest) ≡ hex_value (acc * 16 ^ n + v) rest
unfolding hex_value hex_digits
hex_value-hex_digits zero v acc rest h = ap (λ (k : ℕ). hex_value k rest) (omega arith)
hex_value-hex_digits (suc n) v acc rest h =
    hex_value-hex_digits n (v / 16) acc (hex_digit (v % 16) ∷ rest) (omega (arith, pow-suc 16 n))
    ∙ ap (λ (k : ℕ). hex_value ((acc * 16 ^ n + v / 16) * 16 + k) rest)
        (digit_value-hex_digit (v % 16) (omega arith))
    ∙ ap (λ (k : ℕ). hex_value k rest) (step_digit acc (16 ^ n) v (pow-suc 16 n))

-- The digits behind "0x".
unfoldable pub parse_hex : Text → Option ℕ
parse_hex (c ∷ d ∷ s) = some (hex_value 0 s)
parse_hex s = none

hex_value_total : (n v : ℕ) → v < 16 ^ n → hex_value 0 (hex_digits n v []) ≡ v
hex_value_total n v h = hex_value-hex_digits n v 0 [] h ∙ (unfold hex_value in omega arith)

unfoldable pub show_hex : ℕ → ℕ → Text
show_hex n v = 48 ∷ 120 ∷ hex_digits n v []

pub parse_hex-show_hex : (n v : ℕ) → v < 16 ^ n → parse_hex (show_hex n v) ≡ some v
unfolding parse_hex show_hex
parse_hex-show_hex n v h = ap {B = Option ℕ} some (hex_value_total n v h)

pub show_hex_injective : (n a b : ℕ) → a < 16 ^ n → b < 16 ^ n → show_hex n a ≡ show_hex n b → a ≡ b
show_hex_injective n a b h k e =
    cc (parse_hex-show_hex n a h, parse_hex-show_hex n b k, ap parse_hex e)

unfoldable pub lower_hex : Formats
unfolding show_hex parse_hex hex_digits hex_value hex_digit digit_value
lower_hex = record {
  hex_address = show_hex 40;
  hex_b256 = show_hex 64;
  parse_b256 = parse_hex;
  parse_b256-hex_b256 = λ h k. parse_hex-show_hex 64 h k;
  hex_address_injective = λ a b h k. show_hex_injective 40 a b h k;
}
