-- ===== src/Prelude/AddrMap.antt =====
-- `HashMap<Address, V>`, used only through `entry(k).or_default()` and `get`: an association list.
use Prim.Native.Nat.{ℕ}
use mathlib.Core.Path.{◌≡◌}
use mathlib.Core.Option.{Option, none, some}
use mathlib.Core.List.{List, [], ◌∷◌}
use native.Mathlib.Omega.{arith}
use passbook.Prelude.Tests.{◌==◌, if◌then◌else◌, unwrap_or}

abbrev pub AddrMap {ℓ} : Type ℓ → Type ℓ
AddrMap V = List (ℕ × V)

module _ {ℓ} {V : Type ℓ} where
  abbrev pub lookup : ℕ → AddrMap V → Option V
  lookup k [] = none
  lookup k ((j, v) ∷ m) = let rest = lookup k m in if j == k then some v else rest

  -- `m.get(k).copied().unwrap_or(d)`
  unfoldable pub get_or : AddrMap V → ℕ → V → V
  get_or m k d = unwrap_or (lookup k m) d

  -- `*m.entry(k).or_default() = f(old)`, with the default `d`
  unfoldable pub update_entry : ℕ → V → (V → V) → AddrMap V → AddrMap V
  update_entry k d f [] = (k, f d) ∷ []
  update_entry k d f ((j, v) ∷ m) =
      let rest = update_entry k d f m in if j == k then (j, f v) ∷ m else (j, v) ∷ rest

  pub get_or-update_entry :
      (k j : ℕ) (d : V) (f : V → V) (m : AddrMap V)
      → get_or (update_entry k d f m) j d ≡ (if k == j then f (get_or m j d) else get_or m j d)
  unfolding get_or update_entry
  get_or-update_entry k j d f [] = ground arith
  get_or-update_entry k j d f ((i, v) ∷ m) = ground (arith, get_or-update_entry k j d f m)
