-- ===== src/Pipeline/Explained.antt =====
-- What a committed block is turned into, from the balances that it left to the answer: the whole of
-- `process_committed_block_inner` of crates/passbook-core/src/exex.rs.
use passbook.Prelude.{
  ℕ, ◌≡◌, ◌≢◌, refl, Bool, true, false, Option, List, [], ◌∷◌, contains, any, map, All, Member, inl,
  inr, unwrap_or, Bool-cases,
}
use passbook.Prelude.Int.{ℤ}
use passbook.Prelude.Hex.{Formats}
use passbook.Prelude.Result.{Result, ok, err, ◌>>=◌}
use passbook.Model.{BlockBatch}
use passbook.Inspector.{CapturedFrame}
use passbook.Stack.{StackAdapter}
use passbook.System.{SystemCredit, l1_system_credits}
use passbook.Reconcile.Balance.{Fits}
use passbook.Block.Inputs.{BlockInputs, ProcessingError, Failure, failed, panicked}
use passbook.Block.Balance.{net_of, NoWrap, input_of}
use passbook.Block.Outcome.{Orphan, Outcome, process_block-Outcome}
use passbook.Block.Partial.{OutcomePartial, build_partial_batch_skip_frames-OutcomePartial}
use passbook.Pipeline.Executed.{BundleAccount, ExecutionOutcome, Committed}
use passbook.Pipeline.{
  Reexecution, captured, parent_unavailable, reexecution_failed, block_logs, used_gas, gas_payments,
  tx_fee, gated_frames, tagged_frames, changed, finish,
}
use passbook.Pipeline.Deltas.{watched_of, delta}

module _ (fmt : Formats) (chain_id : ℕ) (block : Committed) (watched : List ℕ)
    (adapter : StackAdapter) (credits : ExecutionOutcome → List SystemCredit) where
  -- What block processing is given, with the credits of the chain.
  abbrev pub inputs : ExecutionOutcome → List (Option ℕ × Bool × CapturedFrame) → BlockInputs
  inputs o frames =
      let used = used_gas 0 0 block.transactions o.receipts in
      record {
        chain_id = chain_id;
        block_number = block.number;
        block_hash = block.hash;
        watched = watched;
        erc20_logs = block_logs block.transactions 0 0 o.receipts;
        frames = frames;
        gas = gas_payments chain_id block watched adapter used;
        account_deltas = map delta (watched_of watched o.bundle_accounts);
        system_signed = credits o;
      }

  -- The frames of the block, if a watched account changed.
  abbrev pub frames_of : Bool → Reexecution → List (Option ℕ × Bool × CapturedFrame)
  frames_of false r = []
  frames_of true parent_unavailable = []
  frames_of true reexecution_failed = []
  frames_of true (captured c) = tagged_frames c c.frames

  -- A watched account of the block with this difference of balances.
  abbrev pub Changed : ExecutionOutcome → ℕ → ℤ → Type 0
  Changed o a δ =
      (acct : BundleAccount) × Member acct (watched_of watched o.bundle_accounts)
      × ((a, δ) ≡ delta acct)

  -- The answers for a block with all its frames.
  abbrev pub Explains : ExecutionOutcome → BlockInputs → Result Failure BlockBatch → Type 0
  Explains o i (ok b) =
      All (λ acct. (delta acct).1 ≡ net_of i acct.address) (watched_of watched o.bundle_accounts)
      × (b.block_number ≡ block.number)
      × (b.block_hash ≡ block.hash)
      × (b.gas ≡ i.gas)
      × (b.unattributed ≡ [])
  Explains o i (err (failed (ProcessingError.decode n))) = ⊥
  Explains o i (err (failed (ProcessingError.unexplained_residual n a δ))) =
      (n ≡ block.number) × Changed o a δ × (δ ≢ net_of i a)
  Explains o i (err (failed (ProcessingError.reconcile_overflow n a))) =
      (n ≡ block.number) × ((δ : ℤ) × Changed o a δ × (¬ Fits (input_of i a δ)))
  Explains o i (err panicked) = Orphan i i.erc20_logs

  -- The answers, by whether a watched account changed and what its re-execution comes to.
  abbrev pub Explained : ExecutionOutcome → Bool → Reexecution → Result Failure BlockBatch → Type 0
  Explained o false r res = Explains o (inputs o []) res
  Explained o true (captured c) res = Explains o (inputs o (tagged_frames c c.frames)) res
  Explained o true parent_unavailable res = OutcomePartial (inputs o []) res
  Explained o true reexecution_failed res = res ≡ err (failed (ProcessingError.decode block.number))

  of_deltas :
      (P : ℕ × ℤ → Type 0) (accts : List BundleAccount)
      → All
          (λ (e : ℕ × ℤ). contains watched e.0 ≡ true → P e)
          (map delta (watched_of watched accts))
      → All (λ acct. P (delta acct)) (watched_of watched accts)
  of_deltas P [] h = tt
  of_deltas P (a ∷ accts) h = elim (Bool-cases (contains watched a.address)) [
    | inl e ↦
        let h' : All (λ (e : ℕ × ℤ). contains watched e.0 ≡ true → P e)
            (map delta (a ∷ watched_of watched accts)) =
          rw e at h in
        rw e (h'.0 e, of_deltas P accts h'.1)
    | inr e ↦
        let h' : All (λ (e : ℕ × ℤ). contains watched e.0 ≡ true → P e)
            (map delta (watched_of watched accts)) =
          rw e at h in
        rw e (of_deltas P accts h')
  ]

  Member-delta :
      (a : ℕ) (δ : ℤ) (accts : List BundleAccount)
      → Member (a, δ) (map delta accts)
      → (acct : BundleAccount) × Member acct accts × ((a, δ) ≡ delta acct)
  Member-delta a δ [] m = absurd m
  Member-delta a δ (acct ∷ accts) (inl e) = (acct, inl refl, e)
  Member-delta a δ (acct ∷ accts) (inr m) =
      let (x, n, e) = Member-delta a δ accts m in (x, inr n, e)

  explain :
      (o : ExecutionOutcome) (frames : List (Option ℕ × Bool × CapturedFrame))
      (res : Result Failure BlockBatch)
      → Outcome (inputs o frames) res
      → Explains o (inputs o frames) res
  explain o frames (ok b) h = (
    of_deltas (λ e. e.1 ≡ net_of (inputs o frames) e.0) o.bundle_accounts h.0,
    h.1,
    h.2,
    h.3,
    h.4,
  )
  explain o frames (err (failed (ProcessingError.decode n))) h = h
  explain o frames (err (failed (ProcessingError.unexplained_residual n a δ))) h =
      (h.0, Member-delta a δ (watched_of watched o.bundle_accounts) h.1, h.3)
  explain o frames (err (failed (ProcessingError.reconcile_overflow n a))) h =
      (h.0, (h.1.0, Member-delta a h.1.0 (watched_of watched o.bundle_accounts) h.1.1, h.1.3))
  explain o frames (err panicked) h = h

  -- Whether a watched account changed.
  abbrev pub gate : ExecutionOutcome → Bool
  gate o = any changed (watched_of watched o.bundle_accounts)

  pub gated :
      (o : ExecutionOutcome) (b : Bool) (r : Reexecution)
      → All (NoWrap (inputs o (frames_of b r))) watched
      → Explained o b r (gated_frames block.number b r >>= λ f. finish fmt f.0 (inputs o f.1))
  unfolding gated_frames
  gated o false r w = explain o [] _ (process_block-Outcome fmt (inputs o []) w)
  gated o true (captured c) w =
      explain o (tagged_frames c c.frames) _
        (process_block-Outcome fmt (inputs o (tagged_frames c c.frames)) w)
  gated o true parent_unavailable w =
      build_partial_batch_skip_frames-OutcomePartial fmt (inputs o [])
  gated o true reexecution_failed w = refl

module _ (fmt : Formats) (chain_id : ℕ) (block : Committed) (watched : List ℕ)
    (adapter : StackAdapter) where
  -- The credits of an L1 block.
  abbrev pub l1_credits : ExecutionOutcome → List SystemCredit
  l1_credits o =
      l1_system_credits watched (unwrap_or block.withdrawals []) block.beneficiary
        (unwrap_or block.base_fee_per_gas 0)
        (map tx_fee (used_gas 0 0 block.transactions o.receipts))
