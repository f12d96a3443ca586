-- ===== src/Block/Outcome.antt =====
-- Every way in which `process_block` can end.
use passbook.Prelude.{
  ℕ, ◌≡◌, ◌≢◌, refl, sym, ◌∙◌, true, Option, none, some, List, [], ◌∷◌, contains, All, Member, inl,
  inr, ◌⊎◌,
}
use passbook.Prelude.Int.{ℤ}
use passbook.Prelude.Hex.{Formats}
use passbook.Prelude.Result.{Result, ok, err, ◌>>=◌}
use passbook.Model.{BlockBatch, Erc20TransferRow, Direction}
use passbook.Erc20.{RawLog, DecodedTransfer, decode_transfer}
use passbook.Reconcile.Balance.{Fits, attributed_delta}
use passbook.Block.{reconcile_accounts, totals_of, process_block}
use passbook.Block.Inputs.{BlockInputs, ProcessingError, Failure, failed, panicked}
use passbook.Block.Rows.{matched_rows, log_rows, erc20_rows, native_frames, no_native}
use passbook.Block.Balance.{
  net_of, NoWrap, input_of, All-contains, input_of-net_of, Verdicts, reconcile_accounts-Verdicts,
}

-- A log of a watched transfer that belongs to no transaction.
abbrev pub Orphan : BlockInputs → List (Option ℕ × ℕ × RawLog) → Type 0
Orphan i [] = ⊥
Orphan i ((tx, k, log) ∷ logs) =
    ((tx ≡ none)
      × ((d : DecodedTransfer) × (decode_transfer log i.watched ≡ some d) × (d.matched ≢ [])))
    ⊎ Orphan i logs

-- The rows of transfers can only fail by a panic, and then P holds.
abbrev pub OkOrPanic : {A : Type 0} → Type 0 → Result Failure A → Type 0
OkOrPanic P (ok a) = Unit
OkOrPanic P (err (failed e)) = ⊥
OkOrPanic P (err panicked) = P

bind-OkOrPanic :
    {A B : Type 0} (P Q : Type 0) (m : Result Failure A) (f : A → Result Failure B)
    → (P → Q)
    → OkOrPanic P m
    → ((a : A) → OkOrPanic Q (f a))
    → OkOrPanic Q (m >>= f)
bind-OkOrPanic P Q (ok a) f g h k = k a
bind-OkOrPanic P Q (err (failed e)) f g h k = h
bind-OkOrPanic P Q (err panicked) f g h k = g h

matched_rows-OkOrPanic :
    (i : BlockInputs) (tx : Option ℕ) (k : ℕ) (d : DecodedTransfer) (ms : List (ℕ × Direction))
    → OkOrPanic ((tx ≡ none) × (ms ≢ [])) (matched_rows i tx k d ms)
unfolding matched_rows
matched_rows-OkOrPanic i tx k d [] = tt
matched_rows-OkOrPanic i none k d (m ∷ ms) = (refl, λ e. cc)
matched_rows-OkOrPanic i (some tx) k d ((addr, dir) ∷ ms) =
    bind-OkOrPanic ((some tx ≡ none) × (ms ≢ [])) _ (matched_rows i (some tx) k d ms) _
      (λ h. (h.0, λ e. cc)) (matched_rows-OkOrPanic i (some tx) k d ms) (λ rows. tt)

log_rows-OkOrPanic :
    (i : BlockInputs) (tx : Option ℕ) (k : ℕ) (o : Option DecodedTransfer)
    → OkOrPanic
        ((tx ≡ none) × ((d : DecodedTransfer) × (o ≡ some d) × (d.matched ≢ [])))
        (log_rows i tx k o)
unfolding log_rows
log_rows-OkOrPanic i tx k none = tt
log_rows-OkOrPanic i tx k (some d) =
    weaken (matched_rows i tx k d d.matched) (matched_rows-OkOrPanic i tx k d d.matched)
  where
    weaken :
        (r : Result Failure (List Erc20TransferRow))
        → OkOrPanic ((tx ≡ none) × (d.matched ≢ [])) r
        → OkOrPanic
            ((tx ≡ none) × ((d' : DecodedTransfer) × (some d ≡ some d') × (d'.matched ≢ [])))
            r
    weaken (ok a) h = tt
    weaken (err (failed e)) h = h
    weaken (err panicked) h = (h.0, (d, refl, h.1))

pub erc20_rows-OkOrPanic :
    (i : BlockInputs) (logs : List (Option ℕ × ℕ × RawLog))
    → OkOrPanic (Orphan i logs) (erc20_rows i logs)
unfolding erc20_rows
erc20_rows-OkOrPanic i [] = tt
erc20_rows-OkOrPanic i ((tx, k, log) ∷ logs) =
    bind-OkOrPanic _ (Orphan i ((tx, k, log) ∷ logs))
      (log_rows i tx k (decode_transfer log i.watched)) _ inl
      (log_rows-OkOrPanic i tx k (decode_transfer log i.watched))
      (λ rows.
        bind-OkOrPanic (Orphan i logs) (Orphan i ((tx, k, log) ∷ logs)) (erc20_rows i logs) _ inr
          (erc20_rows-OkOrPanic i logs) (λ rest. tt))

-- The specification of a whole block, by the kind of the answer.
abbrev pub Outcome : BlockInputs → Result Failure BlockBatch → Type 0
Outcome i (ok b) =
    All (λ (e : ℕ × ℤ). contains i.watched e.0 ≡ true → e.1 ≡ net_of i e.0) i.account_deltas
    × (b.block_number ≡ i.block_number)
    × (b.block_hash ≡ i.block_hash)
    × (b.gas ≡ i.gas)
    × (b.unattributed ≡ [])
Outcome i (err (failed (ProcessingError.decode n))) = ⊥
Outcome i (err (failed (ProcessingError.unexplained_residual n a δ))) =
    (n ≡ i.block_number)
    × Member (a, δ) i.account_deltas
    × (contains i.watched a ≡ true)
    × (δ ≢ net_of i a)
Outcome i (err (failed (ProcessingError.reconcile_overflow n a))) =
    (n ≡ i.block_number)
    × ((δ : ℤ) × Member (a, δ) i.account_deltas
        × (contains i.watched a ≡ true)
        × (¬ Fits (input_of i a δ)))
Outcome i (err panicked) = Orphan i i.erc20_logs

net_of-All :
    (i : BlockInputs) (fits : All (NoWrap i) i.watched) (ds : List (ℕ × ℤ))
    → All
        (λ (e : ℕ × ℤ).
          contains i.watched e.0 ≡ true
          → Fits (input_of i e.0 e.1) × (e.1 ≡ attributed_delta (input_of i e.0 e.1)))
        ds
    → All (λ (e : ℕ × ℤ). contains i.watched e.0 ≡ true → e.1 ≡ net_of i e.0) ds
net_of-All i fits [] h = tt
net_of-All i fits ((a, δ) ∷ ds) h = (
  λ w. (h.0 w).1 ∙ input_of-net_of i a w (All-contains (NoWrap i) i.watched a fits w) δ,
  net_of-All i fits ds h.1,
)

-- The second half of `process_block`, after the transfers' rows.
Outcome-accounts :
    (i : BlockInputs) (fits : All (NoWrap i) i.watched) (f : Unit → BlockBatch)
    → ((u : Unit)
        → ((f u).block_number ≡ i.block_number)
          × ((f u).block_hash ≡ i.block_hash)
          × ((f u).gas ≡ i.gas)
          × ((f u).unattributed ≡ []))
    → (r : Result Failure Unit) → Verdicts i (input_of i) i.account_deltas r
    → Outcome i (r >>= λ u. ok (f u))
Outcome-accounts i fits f g (ok u) v =
    (net_of-All i fits i.account_deltas v, (g u).0, (g u).1, (g u).2, (g u).3)
Outcome-accounts i fits f g (err (failed (ProcessingError.decode n))) v = v
Outcome-accounts i fits f g (err (failed (ProcessingError.unexplained_residual n a δ))) v = (
  v.0,
  v.1,
  v.2,
  λ e. v.4 (e ∙ sym (input_of-net_of i a v.2 (All-contains (NoWrap i) i.watched a fits v.2) δ)),
)
Outcome-accounts i fits f g (err (failed (ProcessingError.reconcile_overflow n a))) v = v
Outcome-accounts i fits f g (err panicked) v = absurd v

Outcome-rows :
    (i : BlockInputs) (r : Result Failure (List Erc20TransferRow))
    (f : List Erc20TransferRow → Result Failure BlockBatch)
    → OkOrPanic (Orphan i i.erc20_logs) r
    → ((rows : List Erc20TransferRow) → Outcome i (f rows))
    → Outcome i (r >>= f)
Outcome-rows i (ok rows) f h k = k rows
Outcome-rows i (err (failed e)) f h k = absurd h
Outcome-rows i (err panicked) f h k = h

-- When no watched account's sums exceed their types: a block is accepted only if the delta of every
-- watched account is what its frames that were not reverted, its gas payments and its credits add up to,
-- and then the batch has the block's number, hash and gas rows and no marker; it is refused for a
-- residual only at a watched account whose delta is another, for an overflow only at a watched account
-- with a sum that is no i128, and a panic needs a watched transfer's log without a transaction.
pub process_block-Outcome :
    (fmt : Formats) (i : BlockInputs) → All (NoWrap i) i.watched → Outcome i (process_block fmt i)
unfolding process_block
process_block-Outcome fmt i fits =
    Outcome-rows i (erc20_rows i i.erc20_logs) _ (erc20_rows-OkOrPanic i i.erc20_logs) (λ rows.
      Outcome-accounts i fits _ (λ _. (refl, refl, refl, refl))
        (reconcile_accounts i (totals_of i (native_frames i i.frames no_native)) i.account_deltas)
        (reconcile_accounts-Verdicts i (totals_of i (native_frames i i.frames no_native))
          i.account_deltas))
