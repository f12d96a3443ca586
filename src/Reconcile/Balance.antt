-- ===== src/Reconcile/Balance.antt =====
-- `reconcile_account` says that an account balances exactly when it does.
use passbook.Prelude.{
  ℕ, ◌≤◌, ◌≡◌, ◌≢◌, ◌⊎◌, inl, inr, Option, none, some, refl, true, false, Bool-cases, ==_iff, arith,
}
use passbook.Prelude.Int.{ℤ, pos, ◌+ℤ◌, ◌-ℤ◌, unsigned_abs, int_laws}
use passbook.Prelude.Words.{i128_max, InI128, try_i128, checked_add, checked_sub, in_range, in_i128}
use passbook.Prelude.Result.{Result, ok, err}
use passbook.Model.{UnattributedDeltaRow, unexplained_residual}
use passbook.Reconcile.{
  ReconcileInput, reconcile_account, reconcile_overflow, ReconcileOverflow, unexplained, is_zero_ℤ,
  attribute,
}

-- eth_in - eth_out - gas_paid + system_signed, over the integers.
abbrev pub attributed_delta : ReconcileInput → ℤ
attributed_delta i = pos i.eth_in -ℤ pos i.eth_out -ℤ pos i.gas_paid +ℤ i.system_signed

-- Every input and every partial sum is an i128.
pub record Fits (i : ReconcileInput) : Type 0 where
  pub eth_in : i.eth_in ≤ i128_max
  pub eth_out : i.eth_out ≤ i128_max
  pub gas_paid : i.gas_paid ≤ i128_max
  pub net : InI128 (pos i.eth_in -ℤ pos i.eth_out -ℤ pos i.gas_paid)
  pub attributed : InI128 (attributed_delta i)
  pub residual : InI128 (i.observed_delta -ℤ attributed_delta i)

-- The specification, by the kind of the answer.
abbrev pub Answers :
    ReconcileInput → Result ReconcileOverflow (Option UnattributedDeltaRow) → Type 0
Answers i (ok none) = Fits i × (i.observed_delta ≡ attributed_delta i)
Answers i (ok (some row)) =
    Fits i
    × (i.observed_delta ≢ attributed_delta i)
    × (row.address ≡ i.address)
    × (row.block_hash ≡ i.block_hash)
    × (row.residual_wei ≡ unsigned_abs (i.observed_delta -ℤ attributed_delta i))
    × (row.observed_wei ≡ unsigned_abs i.observed_delta)
    × (row.attributed_wei ≡ unsigned_abs (attributed_delta i))
    × (row.cause ≡ unexplained_residual)
Answers i (err reconcile_overflow) = ¬ Fits i

in_i128-cases : (z : ℤ) → ((in_range z ≡ some z) × InI128 z) ⊎ ((in_range z ≡ none) × (¬ InI128 z))
unfolding in_range
in_i128-cases z = elim (Bool-cases (in_i128 z)) [
  | inl e ↦ inl (rw e refl, ground arith)
  | inr e ↦ inr (rw e refl, λ h. ground arith)
]

pub try_i128-cases :
    (u : ℕ)
    → ((try_i128 u ≡ some (pos u)) × (u ≤ i128_max)) ⊎ ((try_i128 u ≡ none) × (¬ (u ≤ i128_max)))
unfolding try_i128
try_i128-cases u = ground arith

checked_sub-cases :
    (a b : ℤ)
    → ((checked_sub a b ≡ some (a -ℤ b)) × InI128 (a -ℤ b))
      ⊎ ((checked_sub a b ≡ none) × (¬ InI128 (a -ℤ b)))
unfolding checked_sub
checked_sub-cases a b = in_i128-cases (a -ℤ b)

checked_add-cases :
    (a b : ℤ)
    → ((checked_add a b ≡ some (a +ℤ b)) × InI128 (a +ℤ b))
      ⊎ ((checked_add a b ≡ none) × (¬ InI128 (a +ℤ b)))
unfolding checked_add
checked_add-cases a b = in_i128-cases (a +ℤ b)

difference_fits : (a b : ℕ) → a ≤ i128_max → b ≤ i128_max → InI128 (pos a -ℤ pos b)
unfolding ◌-ℤ◌
difference_fits a b h k = ground arith

zero_residual : (a b : ℤ) → is_zero_ℤ (a -ℤ b) ≡ true → a ≡ b
zero_residual a b h = let z : unsigned_abs (a -ℤ b) ≡ 0 = (==_iff _ 0).0 h in omega int_laws

nonzero_residual : (a b : ℤ) → is_zero_ℤ (a -ℤ b) ≡ false → a ≢ b
unfolding ◌-ℤ◌
nonzero_residual a b h e = ground arith

-- The last step: the row, or none.
unexplained-Answers :
    (i : ReconcileInput)
    → Fits i
    → Answers i (ok (unexplained i (attributed_delta i) (i.observed_delta -ℤ attributed_delta i)))
unfolding unexplained
unexplained-Answers i fits =
    elim (Bool-cases (is_zero_ℤ (i.observed_delta -ℤ attributed_delta i))) [
      | inl e ↦ rw e (fits, zero_residual _ _ e)
      | inr e ↦ rw e (fits, nonzero_residual _ _ e, refl, refl, refl, refl, refl, refl)
    ]

-- From the three amounts on, which are i128s.
sum-Answers :
    (i : ReconcileInput)
    → i.eth_in ≤ i128_max
    → i.eth_out ≤ i128_max
    → i.gas_paid ≤ i128_max
    → Answers i (attribute i (pos i.eth_in) (pos i.eth_out) (pos i.gas_paid))
unfolding attribute
sum-Answers i a b c = elim (checked_sub-cases (pos i.eth_in) (pos i.eth_out)) [
  | inr (e, n) ↦ absurd (n (difference_fits i.eth_in i.eth_out a b))
  | inl (e₁, _) ↦ rw e₁ (elim (checked_sub-cases (pos i.eth_in -ℤ pos i.eth_out) (pos i.gas_paid)) [
    | inr (e, n) ↦ rw e (λ fits. n fits.net)
    | inl (e₂, n₂) ↦
        rw e₂
          (elim (checked_add-cases (pos i.eth_in -ℤ pos i.eth_out -ℤ pos i.gas_paid)
            i.system_signed) [
              | inr (e, n) ↦ rw e (λ fits. n fits.attributed)
              | inl (e₃, n₃) ↦
                  rw e₃ (elim (checked_sub-cases i.observed_delta (attributed_delta i)) [
                    | inr (e, n) ↦ rw e (λ fits. n fits.residual)
                    | inl (e₄, n₄) ↦ rw e₄ (
                        unexplained-Answers i (record {
                          eth_in = a;
                          eth_out = b;
                          gas_paid = c;
                          net = n₂;
                          attributed = n₃;
                          residual = n₄;
                        }))
                  ])
            ])
  ])
]

-- The answer is "balanced" only if the observed delta is the attributed one, with every sum an i128; a
-- row only if they differ, and then it holds their difference; an error only if some input, partial sum
-- or difference is no i128.
pub reconcile_account-Answers : (i : ReconcileInput) → Answers i (reconcile_account i)
unfolding reconcile_account
reconcile_account-Answers i = elim (try_i128-cases i.eth_in) [
  | inr (e, n) ↦ rw e (λ fits. n fits.eth_in)
  | inl (e₁, a) ↦ rw e₁ (elim (try_i128-cases i.eth_out) [
    | inr (e, n) ↦ rw e (λ fits. n fits.eth_out)
    | inl (e₂, b) ↦ rw e₂ (elim (try_i128-cases i.gas_paid) [
      | inr (e, n) ↦ rw e (λ fits. n fits.gas_paid)
      | inl (e₃, c) ↦ rw e₃ (sum-Answers i a b c)
    ])
  ])
]
