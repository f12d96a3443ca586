-- ===== src/Pipeline/Deltas.antt =====
-- The deltas of a block, the gate of its re-execution, and the block that the batch is of.
use passbook.Prelude.{
  ℕ, ◌≤◌, ◌≡◌, inl, inr, refl, ap, subst, Bool, true, false, ◌||◌, some, List, [], ◌∷◌,
  if◌then◌else◌, contains, keep, any, map, All, Bool-cases,
}
use passbook.Prelude.Int.{ℤ, pos, ◌-ℤ◌}
use passbook.Prelude.Words.{i128_max, try_i128-fits}
use passbook.Prelude.Hex.{Formats}
use passbook.Prelude.Result.{Result, ok, err, ok_or, ◌>>=◌}
use passbook.Model.{BlockBatch}
use passbook.Stack.{StackAdapter}
use passbook.Block.Inputs.{BlockInputs, ProcessingError, Failure, failed}
use passbook.Block.{process_block, build_partial_batch_skip_frames, reconcile_accounts, totals_of}
use passbook.Block.Rows.{erc20_rows, native_frames, no_native}
use passbook.Pipeline.Executed.{BundleAccount, ExecutionOutcome, Committed}
use passbook.Pipeline.{
  account_deltas, delta_of, balance_of, changed, Reexecution, gated_frames,
  process_committed_block_inner, finish,
}

-- The watched accounts of the bundle.
abbrev pub watched_of : List ℕ → List BundleAccount → List BundleAccount
watched_of watched accts = keep (λ a. contains watched a.address) accts

abbrev pub Fit : BundleAccount → Type 0
Fit a = (balance_of a.info ≤ i128_max) × (balance_of a.original_info ≤ i128_max)

abbrev pub delta : BundleAccount → ℕ × ℤ
delta a = (a.address, pos (balance_of a.info) -ℤ pos (balance_of a.original_info))

or_any : (b c : Bool) → (b || c) ≡ (if b then true else c)
or_any true c = refl
or_any false c = refl

one_account :
    (n : ℕ) (watched : List ℕ) (a : BundleAccount) (accts : List BundleAccount) (c : Bool)
    (ds : List (ℕ × ℤ))
    → Fit a
    → account_deltas n watched accts ≡ ok (c, ds)
    → ◌>>=◌ {B = Bool × List (ℕ × ℤ)} (delta_of n a) (λ d.
      ◌>>=◌ {B = Bool × List (ℕ × ℤ)}
        (account_deltas n watched accts)
        (λ r. ok (changed a || r.0, (a.address, d) ∷ r.1)))
      ≡ ok (if changed a then true else c, delta a ∷ ds)
one_account n watched a accts c ds fit e =
    rw
      (try_i128-fits (balance_of a.info) fit.0, try_i128-fits (balance_of a.original_info) fit.1, e)
      (ap (λ b. ok (b, delta a ∷ ds)) (or_any (changed a) c))

-- What holds of the batch, if there is one.
abbrev pub OnOk : (BlockBatch → Type 0) → Result Failure BlockBatch → Type 0
OnOk P (ok b) = P b
OnOk P (err e) = Unit

pub bind-OnOk :
    {A : Type 0} (P : BlockBatch → Type 0) (m : Result Failure A)
    (f : A → Result Failure BlockBatch)
    → ((a : A) → OnOk P (f a))
    → OnOk P (m >>= f)
bind-OnOk P (ok a) f h = h a
bind-OnOk P (err e) f h = tt

-- Where the balances of the watched accounts are i128s, the deltas are those of exactly the watched
-- accounts of the bundle, in its order, each the new balance less the old, and the gate is open exactly
-- when the balance or the nonce of one of them changed.
pub account_deltas-watched :
    (n : ℕ) (watched : List ℕ) (accts : List BundleAccount)
    → All Fit (watched_of watched accts)
    → account_deltas n watched accts
      ≡ ok (any changed (watched_of watched accts), map delta (watched_of watched accts))
unfolding account_deltas
account_deltas-watched n watched [] h = refl
account_deltas-watched n watched (a ∷ accts) h = elim (Bool-cases (contains watched a.address)) [
  | inl e ↦
      let h' : All Fit (a ∷ watched_of watched accts) = rw e at h in
      rw e (one_account n watched a accts _ _ h'.0 (account_deltas-watched n watched accts h'.1))
  | inr e ↦
      let h' : All Fit (watched_of watched accts) = rw e at h in
      rw e (account_deltas-watched n watched accts h')
]

abbrev pub Same : ℕ → ℕ → BlockBatch → Type 0
Same n h b = (b.block_number ≡ n) × (b.block_hash ≡ h)

module _ (fmt : Formats) (chain_id : ℕ) (block : Committed) (watched : List ℕ)
    (adapter : StackAdapter) where
  -- A block in which no watched account changed is processed without the state of its parent and without
  -- executing it again: what these would give does not matter.
  process_committed_block_inner_gate :
      (o : ExecutionOutcome) (deltas : List (ℕ × ℤ)) (r s : Reexecution)
      → block.outcome ≡ some o
      → account_deltas block.number watched o.bundle_accounts ≡ ok (false, deltas)
      → process_committed_block_inner fmt chain_id block watched adapter r
        ≡ process_committed_block_inner fmt chain_id block watched adapter s
  unfolding process_committed_block_inner gated_frames
  process_committed_block_inner_gate o deltas r s h e = rw (h, e) refl

  pub finish-Same :
      (skip : Bool) (i : BlockInputs) → OnOk (Same i.block_number i.block_hash) (finish fmt skip i)
  unfolding process_block build_partial_batch_skip_frames
  finish-Same true i =
      bind-OnOk (Same i.block_number i.block_hash) (erc20_rows i i.erc20_logs) _
        (λ rows. (refl, refl))
  finish-Same false i =
      bind-OnOk (Same i.block_number i.block_hash) (erc20_rows i i.erc20_logs) _ (λ rows.
        bind-OnOk (Same i.block_number i.block_hash)
          (reconcile_accounts i (totals_of i (native_frames i i.frames no_native)) i.account_deltas)
          _ (λ u. (refl, refl)))

  inner-Same :
      (r : Reexecution)
      → OnOk
          (Same block.number block.hash)
          (process_committed_block_inner fmt chain_id block watched adapter r)
  unfolding process_committed_block_inner
  inner-Same r =
      let P = Same block.number block.hash in
      bind-OnOk P (ok_or block.outcome (failed (ProcessingError.decode block.number))) _ (λ o.
        bind-OnOk P (account_deltas block.number watched o.bundle_accounts) _
          (λ d. bind-OnOk P (gated_frames block.number d.0 r) _ (λ f. finish-Same f.0 _)))

  -- The batch of a block has the block's number and hash: what the driver relies on.
  pub process_committed_block_inner-same_block :
      (r : Reexecution) (b : BlockBatch)
      → process_committed_block_inner fmt chain_id block watched adapter r ≡ ok b
      → (b.block_number ≡ block.number) × (b.block_hash ≡ block.hash)
  process_committed_block_inner-same_block r b e =
      subst (OnOk (Same block.number block.hash)) e (inner-Same r)
