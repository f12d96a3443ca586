-- ===== src/Block/Balance.antt =====
-- The walk over the account deltas in `process_block`, and the sums it compares them with.
use passbook.Prelude.{
  ℕ, ◌^◌, ◌<◌, ◌≡◌, ◌≢◌, refl, sym, ap, subst, ◌∙◌, true, Option, none, some, List, [], ◌∷◌,
  contains, All, Member, arith, Bool-cases, ==_iff, ◌==◌, inl, inr,
}
use passbook.Prelude.Int.{ℤ, pos, ◌+ℤ◌, ◌-ℤ◌}
use passbook.Prelude.Words.{InI128, wrap_i128, wrap_i128-exact}
use passbook.Prelude.AddrMap.{get_or}
use passbook.Prelude.Result.{Result, ok, err, ◌>>=◌}
use passbook.Model.{UnattributedDeltaRow}
use passbook.Reconcile.{ReconcileInput, ReconcileOverflow, reconcile_overflow}
use passbook.Reconcile.Balance.{Fits, attributed_delta, Answers, reconcile_account-Answers}
use passbook.Block.{Totals, reconcile_input, verdict, reconcile_accounts, totals_of}
use passbook.Block.Inputs.{BlockInputs, ProcessingError, Failure, failed, panicked}
use passbook.Block.Rows.{native_frames, no_native, gas_paid}
use passbook.Block.Sums.{
  inflow, outflow, gas_total, credited, native_frames-eth_in, native_frames-eth_out,
  gas_paid-get_or, sys_per_addr-get_or, zero_add,
}

-- What the block did to the balance of a: received, less sent, less gas, with the credits.
abbrev pub net_of : BlockInputs → ℕ → ℤ
net_of i a =
    pos (inflow a i.frames)
    -ℤ pos (outflow a i.frames)
    -ℤ pos (gas_total a i.gas)
    +ℤ credited a i.system_signed

-- The sums of one account are within their types.
pub record NoWrap (i : BlockInputs) (a : ℕ) : Type 0 where
  pub inflow : inflow a i.frames < 2 ^ 256
  pub outflow : outflow a i.frames < 2 ^ 256
  pub gas : gas_total a i.gas < 2 ^ 256
  pub credited : InI128 (credited a i.system_signed)

-- What `reconcile_account` is given for one account.
abbrev pub input_of : BlockInputs → ℕ → ℤ → ReconcileInput
input_of i = reconcile_input i (totals_of i (native_frames i i.frames no_native))

pub All-contains {ℓ} :
    (P : ℕ → Type ℓ) (xs : List ℕ) (a : ℕ) → All P xs → contains xs a ≡ true → P a
All-contains P [] a h c = cc
All-contains P (x ∷ xs) a h c = elim (Bool-cases (x == a)) [
  | inl e ↦ subst P ((==_iff x a).0 e) (h.0)
  | inr e ↦ All-contains P xs a h.1 (sym (rw e refl) ∙ c)
]

module _ (i : BlockInputs) (a : ℕ) (w : contains i.watched a ≡ true) (fits : NoWrap i a) where
  pub input_of-net_of : (δ : ℤ) → attributed_delta (input_of i a δ) ≡ net_of i a
  unfolding totals_of get_or
  input_of-net_of δ =
      let e₁ = native_frames-eth_in i a w i.frames no_native (let f = fits.inflow in omega arith) in
      let e₂ =
        native_frames-eth_out i a w i.frames no_native (let f = fits.outflow in omega arith) in
      let e₃ = gas_paid-get_or a i.gas [] (let f = fits.gas in omega arith) in
      let e₄ =
        sys_per_addr-get_or i.watched a w i.system_signed [] (omega arith)
        ∙ ap wrap_i128 (zero_add (credited a i.system_signed))
        ∙ wrap_i128-exact _ fits.credited in
      let p : get_or (native_frames i i.frames no_native).eth_in a 0 ≡ inflow a i.frames =
        omega (arith, e₁) in
      let q : get_or (native_frames i i.frames no_native).eth_out a 0 ≡ outflow a i.frames =
        omega (arith, e₂) in
      let r : get_or (gas_paid i.gas []) a 0 ≡ gas_total a i.gas = omega (arith, e₃) in
      λ k. pos (p k) -ℤ pos (q k) -ℤ pos (r k) +ℤ e₄ k

-- The specification of the walk over the deltas, for given inputs to `reconcile_account`.
abbrev pub Verdicts :
    (BlockInputs) → (ℕ → ℤ → ReconcileInput) → List (ℕ × ℤ) → Result Failure Unit → Type 0
Verdicts i input ds (ok x) =
    All
      (λ (e : ℕ × ℤ).
        contains i.watched e.0 ≡ true
        → Fits (input e.0 e.1) × (e.1 ≡ attributed_delta (input e.0 e.1)))
      ds
Verdicts i input ds (err (failed (ProcessingError.decode n))) = ⊥
Verdicts i input ds (err (failed (ProcessingError.unexplained_residual n a δ))) =
    (n ≡ i.block_number)
    × Member (a, δ) ds
    × (contains i.watched a ≡ true)
    × Fits (input a δ)
    × (δ ≢ attributed_delta (input a δ))
Verdicts i input ds (err (failed (ProcessingError.reconcile_overflow n a))) =
    (n ≡ i.block_number)
    × ((δ : ℤ) × Member (a, δ) ds × (contains i.watched a ≡ true) × (¬ Fits (input a δ)))
Verdicts i input ds (err panicked) = ⊥

module _ (i : BlockInputs) (t : Totals) where
  -- One more delta before the others.
  Verdicts-skip :
      (a : ℕ) (δ : ℤ) (ds : List (ℕ × ℤ))
      → (contains i.watched a ≡ true
          → Fits (reconcile_input i t a δ) × (δ ≡ attributed_delta (reconcile_input i t a δ)))
      → (r : Result Failure Unit) → Verdicts i (reconcile_input i t) ds r
      → Verdicts i (reconcile_input i t) ((a, δ) ∷ ds) r
  Verdicts-skip a δ ds h (ok x) v = (h, v)
  Verdicts-skip a δ ds h (err (failed (ProcessingError.decode n))) v = v
  Verdicts-skip a δ ds h (err (failed (ProcessingError.unexplained_residual n b ε))) v =
      (v.0, inr v.1, v.2, v.3, v.4)
  Verdicts-skip a δ ds h (err (failed (ProcessingError.reconcile_overflow n b))) v =
      (v.0, (v.1.0, inr v.1.1, v.1.2, v.1.3))
  Verdicts-skip a δ ds h (err panicked) v = v

  Verdicts-step :
      (a : ℕ) (δ : ℤ) (ds : List (ℕ × ℤ)) (w : contains i.watched a ≡ true)
      (rest : Result Failure Unit)
      → Verdicts i (reconcile_input i t) ds rest
      → (r : Result ReconcileOverflow (Option UnattributedDeltaRow))
      → Answers (reconcile_input i t a δ) r
      → Verdicts i (reconcile_input i t) ((a, δ) ∷ ds) (verdict i a δ r >>= λ _. rest)
  Verdicts-step a δ ds w rest v (ok none) h = Verdicts-skip a δ ds (λ _. h) rest v
  Verdicts-step a δ ds w rest v (ok (some row)) h = (refl, inl refl, w, h.0, h.1)
  Verdicts-step a δ ds w rest v (err reconcile_overflow) h = (refl, (δ, inl refl, w, h))

  pub reconcile_accounts-Verdicts :
      (ds : List (ℕ × ℤ)) → Verdicts i (reconcile_input i t) ds (reconcile_accounts i t ds)
  unfolding reconcile_accounts
  reconcile_accounts-Verdicts [] = tt
  reconcile_accounts-Verdicts ((a, δ) ∷ ds) = elim (Bool-cases (contains i.watched a)) [
    | inl e ↦ rw e (
        Verdicts-step a δ ds e _ (reconcile_accounts-Verdicts ds) _
          (reconcile_account-Answers (reconcile_input i t a δ)))
    | inr e ↦ rw e (Verdicts-skip a δ ds (λ w. cc) _ (reconcile_accounts-Verdicts ds))
  ]
