-- ===== src/Block/Partial.antt =====
-- The markers of a block without frames: what `build_partial_batch_skip_frames` adds to its batch.
use passbook.Prelude.{
  ℕ, ltb, ◌-◌, ◌&&◌, ap, ◌∙◌, ◌++◌, ◌≡◌, refl, true, List, [], ◌∷◌, ◌==◌, contains, arith,
  Bool-cases, inl, inr, if◌then◌else◌,
}
use passbook.Prelude.Int.{ℤ, pos, negsuc, unsigned_abs}
use passbook.Prelude.Hex.{Formats}
use passbook.Prelude.AddrMap.{AddrMap, get_or}
use passbook.Prelude.Result.{Result, ok, err, ◌>>=◌}
use passbook.Model.{BlockBatch, UnattributedDeltaRow, Erc20TransferRow, parent_state_unavailable}
use passbook.Reconcile.{skip_mode_attribution, is_zero_ℤ}
use passbook.Reconcile.SkipMode.{covered, skip_mode_attribution_split}
use passbook.Prelude.Words.{wrap_i128}
use passbook.Block.Sums.{credited, sys_per_addr-get_or, zero_add}
use passbook.Block.{marker, markers, build_partial_batch_skip_frames}
use passbook.Block.Inputs.{BlockInputs, Failure, failed, panicked}
use passbook.Block.Rows.{erc20_rows, sys_per_addr}
use passbook.Block.Outcome.{Orphan, OkOrPanic, erc20_rows-OkOrPanic}

-- The credits of an account, added up in 128 bits.
abbrev pub credit_of : BlockInputs → ℕ → ℤ
credit_of i a = wrap_i128 (credited a i.system_signed)

-- What the credits of a watched account leave of its delta.
abbrev pub left_over : BlockInputs → ℕ → ℤ → ℕ
left_over i a δ = unsigned_abs δ - covered δ (credit_of i a)

-- A marker for each watched account whose delta is not covered by its credits, in the order of the deltas.
unfoldable pub unexplained_rows : BlockInputs → List (ℕ × ℤ) → List UnattributedDeltaRow
unexplained_rows i [] = []
unexplained_rows i ((a, δ) ∷ ds) =
    (if contains i.watched a && ltb 0 (left_over i a δ)
      then record {
        chain_id = i.chain_id;
        block_number = i.block_number;
        block_hash = i.block_hash;
        address = a;
        observed_wei = unsigned_abs δ;
        attributed_wei = covered δ (credit_of i a);
        residual_wei = left_over i a δ;
        cause = parent_state_unavailable;
      }
        ∷ []
      else [])
    ++ unexplained_rows i ds

-- An account that did not change has nothing left.
zero_covered : (δ c : ℤ) → is_zero_ℤ δ ≡ true → unsigned_abs δ - covered δ c ≡ 0
zero_covered (pos n) (pos m) h = ground arith
zero_covered (pos n) (negsuc m) h = ground arith
zero_covered (negsuc n) c h = ground arith

module _ (i : BlockInputs) where
  credit_in :
      (a : ℕ)
      → contains i.watched a ≡ true
      → get_or (sys_per_addr i.watched i.system_signed []) a (pos 0) ≡ credit_of i a
  unfolding get_or
  credit_in a w =
      sys_per_addr-get_or i.watched a w i.system_signed [] (omega arith)
      ∙ ap wrap_i128 (zero_add (credited a i.system_signed))

  one_marker :
      (sys : AddrMap ℤ) (a : ℕ) (δ : ℤ)
      → get_or sys a (pos 0) ≡ credit_of i a
      → (if is_zero_ℤ δ then [] else marker i a (skip_mode_attribution δ (get_or sys a (pos 0))))
        ≡ (if ltb 0 (left_over i a δ)
            then record {
              chain_id = i.chain_id;
              block_number = i.block_number;
              block_hash = i.block_hash;
              address = a;
              observed_wei = unsigned_abs δ;
              attributed_wei = covered δ (credit_of i a);
              residual_wei = left_over i a δ;
              cause = parent_state_unavailable;
            }
              ∷ []
            else [])
  one_marker sys a δ e = elim (Bool-cases (is_zero_ℤ δ)) [
    | inl z ↦ rw (z, zero_covered δ (credit_of i a) z) refl
    | inr z ↦ rw (z, e, skip_mode_attribution_split δ (credit_of i a)) (test (left_over i a δ) _)
  ]
    where
      test :
          {A : Type 0} (n : ℕ) (rows : List A)
          → (if n == 0 then [] else rows) ≡ (if ltb 0 n then rows else [])
      test n rows = ground arith

  markers-unexplained_rows :
      (ds : List (ℕ × ℤ))
      → markers i (sys_per_addr i.watched i.system_signed []) ds ≡ unexplained_rows i ds
  unfolding markers unexplained_rows
  markers-unexplained_rows [] = refl
  markers-unexplained_rows ((a, δ) ∷ ds) = elim (Bool-cases (contains i.watched a)) [
    | inl w ↦ rw w (λ k.
        one_marker (sys_per_addr i.watched i.system_signed []) a δ (credit_in a w) k
        ++ markers-unexplained_rows ds k)
    | inr w ↦ rw w (markers-unexplained_rows ds)
  ]

-- The specification of a batch without frames.
abbrev pub OutcomePartial : BlockInputs → Result Failure BlockBatch → Type 0
OutcomePartial i (ok b) =
    (b.unattributed ≡ unexplained_rows i i.account_deltas)
    × (b.block_number ≡ i.block_number)
    × (b.block_hash ≡ i.block_hash)
    × (b.gas ≡ i.gas)
OutcomePartial i (err (failed e)) = ⊥
OutcomePartial i (err panicked) = Orphan i i.erc20_logs

partial-rows :
    (i : BlockInputs) (r : Result Failure (List Erc20TransferRow))
    (f : List Erc20TransferRow → Result Failure BlockBatch)
    → OkOrPanic (Orphan i i.erc20_logs) r
    → ((rows : List Erc20TransferRow) → OutcomePartial i (f rows))
    → OutcomePartial i (r >>= f)
partial-rows i (ok rows) f h k = k rows
partial-rows i (err (failed e)) f h k = absurd h
partial-rows i (err panicked) f h k = h

-- A block without frames is never refused: its batch keeps the gas rows and has a marker for every watched
-- account whose observed delta is more than what its credits, added up in 128 bits, cover, and no other; the
-- marker has the magnitude of the delta, the part that the credits cover and the residual, and says that the
-- parent state was unavailable. A panic needs a watched transfer's log without a transaction.
pub build_partial_batch_skip_frames-OutcomePartial :
    (fmt : Formats) (i : BlockInputs) → OutcomePartial i (build_partial_batch_skip_frames fmt i)
unfolding build_partial_batch_skip_frames
build_partial_batch_skip_frames-OutcomePartial fmt i =
    partial-rows i (erc20_rows i i.erc20_logs) _ (erc20_rows-OkOrPanic i i.erc20_logs)
      (λ rows. (markers-unexplained_rows i i.account_deltas, refl, refl, refl))
