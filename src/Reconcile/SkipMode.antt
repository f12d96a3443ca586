-- ===== src/Reconcile/SkipMode.antt =====
-- What `skip_mode_attribution` promises for the marker of a block without frames.
use passbook.Prelude.{◌-◌, ◌≤◌, ◌≡◌, ℕ, ◌↔◌, arith, min, zero, suc}
use passbook.Prelude.Int.{ℤ, pos, negsuc, unsigned_abs}
use passbook.Reconcile.{skip_mode_attribution}

-- As much of the observed delta as the credits cover: nothing where they go the other way.
abbrev pub covered : ℤ → ℤ → ℕ
covered (pos o) (pos s) = min s o
covered (pos o) (negsuc s) = 0
covered (negsuc o) (pos s) = 0
covered (negsuc o) (negsuc s) = min (suc s) (suc o)

-- The marker splits the observed magnitude into an attributed and a residual part: attributed is as much of it
-- as the system credits cover, if they go the same way as the delta, and nothing if they go the other way;
-- the residual is the rest.
pub skip_mode_attribution_split :
    (observed system : ℤ)
    → skip_mode_attribution observed system ≡ (
      unsigned_abs observed,
      covered observed system,
      unsigned_abs observed - covered observed system,
    )
unfolding skip_mode_attribution
skip_mode_attribution_split (pos zero) (pos zero) = ground arith
skip_mode_attribution_split (pos zero) (pos (suc s)) = ground arith
skip_mode_attribution_split (pos zero) (negsuc s) = ground arith
skip_mode_attribution_split (pos (suc o)) (pos zero) = ground arith
skip_mode_attribution_split (pos (suc o)) (pos (suc s)) = ground arith
skip_mode_attribution_split (pos (suc o)) (negsuc s) = ground arith
skip_mode_attribution_split (negsuc o) (pos zero) = ground arith
skip_mode_attribution_split (negsuc o) (pos (suc s)) = ground arith
skip_mode_attribution_split (negsuc o) (negsuc s) = ground arith

-- The credits account for the whole delta: both lie between 0 and the credits, on one side.
abbrev pub Covers : ℤ → ℤ → Type 0
Covers (pos o) (pos s) = o ≤ s
Covers (pos o) (negsuc s) = o ≡ 0
Covers (negsuc o) (pos s) = ⊥
Covers (negsuc o) (negsuc s) = o ≤ s

-- No residual is left, and so no marker is written, exactly when the recognised system credits go the
-- same way as the observed delta and are no smaller (or nothing was observed).
skip_mode_attribution_covered :
    (observed system : ℤ) → ((skip_mode_attribution observed system).2 ≡ 0) ↔ Covers observed system
unfolding skip_mode_attribution
skip_mode_attribution_covered (pos zero) (pos zero) = ground arith
skip_mode_attribution_covered (pos zero) (pos (suc s)) = ground arith
skip_mode_attribution_covered (pos zero) (negsuc s) = ground arith
skip_mode_attribution_covered (pos (suc o)) (pos zero) = ground arith
skip_mode_attribution_covered (pos (suc o)) (pos (suc s)) = ground arith
skip_mode_attribution_covered (pos (suc o)) (negsuc s) = ground arith
skip_mode_attribution_covered (negsuc o) (pos zero) = ground arith
skip_mode_attribution_covered (negsuc o) (pos (suc s)) = ground arith
skip_mode_attribution_covered (negsuc o) (negsuc s) = ground arith
