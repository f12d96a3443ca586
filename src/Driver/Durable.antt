-- ===== src/Driver/Durable.antt =====
-- A height is reported only after every block up to the next tip is in the ledger.
use passbook.Prelude.{
  ◌<◌, ◌^◌, ◌≡◌, refl, sym, ap, ◌∙◌, Bool, true, false, Option, none, some, List, [], ◌∷◌, ◌++◌,
  append-nil, All, arith, inl, inr,
}
use passbook.Prelude.Hex.{Formats}
use passbook.Prelude.Result.{Result, ok, err}
use passbook.Model.{BlockBatch}
use passbook.Block.Inputs.{ProcessingError, Failure, failed, panicked}
use passbook.Ledger.Table.{All-every}
use passbook.Ledger.{Db, resume_head}
use passbook.Ledger.Written.{written, AllOrNothing, write_block-AllOrNothing}
use passbook.Ledger.Meta.{resume_head-written}
use passbook.Driver.{
  NumHash, Attempt, Chain, tip, last_of, Driver, Config, retry, lag_finished, gap_range,
  block_round, on_processed, commit_blocks, fill_range, send_finished, commit, backoff_start,
  try_again,
}
use passbook.Driver.Ends.{On, RoundOn, retry-On, and_then-On, On-weaken, On-both}
use passbook.Driver.Lag.{Kept, pending_list, fill_range-Stays, commit_blocks-Stays}

abbrev pub Any : Driver → Type 0
Any s = Unit

-- A block's number is a u64, its hash a B256.
abbrev pub Words : NumHash → Type 0
Words b = (b.number < 2 ^ 64) × (b.hash < 2 ^ 256)

-- The ledger and the driver are at b: a restart resumes there.
abbrev pub At : Formats → NumHash → Driver → Type 0
At fmt b s = (s.high_water ≡ some b.number) × (resume_head fmt s.db ≡ some (b.number, b.hash))

module _ (fmt : Formats) (cfg : Config) where
  on_written :
      (b : NumHash) (w : Words b) (batch : BlockBatch) (s : Driver) (r : Bool × Db)
      → (batch.block_number ≡ b.number) × (batch.block_hash ≡ b.hash)
      → AllOrNothing s.db (written fmt batch s.db) r
      → RoundOn (At fmt b) Any (try_again r (λ t. record t { high_water = some b.number }) s)
  on_written b w batch s (true, db) h (inl e) = (
    refl,
    ap (λ r. resume_head fmt r.1) e
        ∙ resume_head-written fmt batch s.db (omega (arith, h.0, w.0)) (omega (arith, h.1, w.1))
        ∙ λ k. some (h.0 k, h.1 k),
  )
  on_written b w batch s (true, db) h (inr e) = cc
  on_written b w batch s (false, db) h e = tt

  on_processed-At :
      (b : NumHash) (w : Words b) (e : Attempt) (s : Driver) (r : Result Failure BlockBatch)
      → e.process_committed_block b ≡ r
      → RoundOn (At fmt b) Any (on_processed fmt cfg b e s r)
  on_processed-At b w e s (ok batch) h =
      on_written b w batch s _ (e.same_block b batch h)
        (write_block-AllOrNothing fmt e.faults batch s.db)
  on_processed-At b w e s (err (failed (ProcessingError.unexplained_residual n a r))) h = tt
  on_processed-At b w e s (err (failed (ProcessingError.decode n))) h = tt
  on_processed-At b w e s (err (failed (ProcessingError.reconcile_overflow n a))) h = tt
  on_processed-At b w e s (err panicked) h = tt

  retry-At :
      (b : NumHash)
      → Words b
      → (es : List Attempt) (s : Driver)
      → On (At fmt b) Any Any (retry (block_round fmt cfg b) es backoff_start s)
  unfolding block_round
  retry-At b w es s =
      retry-On (At fmt b) Any Any (block_round fmt cfg b) es backoff_start
        (All-every _ (λ e t _. on_processed-At b w e t _ refl) es) (λ _ t q. q) s tt

  pub commit_blocks-At :
      (b : NumHash) (bs : List NumHash) (es : List Attempt) (s : Driver)
      → All Words (b ∷ bs)
      → On (At fmt (last_of b bs)) Any Any (commit_blocks fmt cfg (b ∷ bs) es s)
  unfolding commit_blocks
  commit_blocks-At b [] es s w =
      and_then-On _ (At fmt b) _ _ (retry (block_round fmt cfg b) es backoff_start s) _
        (retry-At b w.0 es s) (λ t es' q. q)
  commit_blocks-At b (c ∷ bs) es s w =
      and_then-On _ (At fmt b) _ _ (retry (block_round fmt cfg b) es backoff_start s) _
        (retry-At b w.0 es s) (λ t es' q. commit_blocks-At c bs es' t w.1)

  -- When the driver is through with a committed chain.
  abbrev pub Durable : Driver → Chain → Driver → Type 0
  Durable s c t =
      At fmt (tip c) t
      × (t.finished_heights ≡ s.finished_heights ++ pending_list s.pending_finished)
      × (t.pending_finished ≡ some (tip c))

  -- While it is not, nothing is reported, and the tip of the chain before is still pending.
  abbrev pub Unreported : Driver → Driver → Type 0
  Unreported s = Kept s.finished_heights s.pending_finished

  -- When the node is gone, the chain is written too, but nothing could be reported.
  abbrev pub Gone : Driver → Chain → Driver → Type 0
  Gone s c t = At fmt (tip c) t × (t.finished_heights ≡ s.finished_heights)

  send_finished-Durable :
      (open_events : Bool) (s : Driver) (c : Chain) (t : Driver) (es : List Attempt)
      → At fmt (tip c) t
      → (p : Option NumHash) → p ≡ s.pending_finished
      → t.finished_heights ≡ s.finished_heights
      → On
          (Durable s c)
          (Unreported s)
          (Gone s c)
          (send_finished fmt cfg open_events p (record t { pending_finished = some (tip c) }) es)
  send_finished-Durable open_events s c t es a none h e =
      (a, e ∙ sym (append-nil _) ∙ ap (λ p. s.finished_heights ++ pending_list p) h, refl)
  send_finished-Durable true s c t es a (some prev) h e =
      (a, (λ k. e k ++ pending_list (h k)), refl)
  send_finished-Durable false s c t es a (some prev) h e = (a, e)

  -- Until every block of a committed chain is written, whatever is retried or fails, nothing is reported as
  -- finished, and the tip of the chain before is still the pending one. When the driver is through with the
  -- chain, the last write was its tip: the high water is the tip's number and a restart resumes at the tip; the tip
  -- of the chain before is reported, if there was one, and nothing else, and this tip is pending. Where the node is
  -- gone, the chain is written and nothing is reported.
  pub commit-Durable :
      (open_events : Bool) (c : Chain) (es : List Attempt) (s : Driver)
      → All Words (c.first ∷ c.others)
      → On (Durable s c) (Unreported s) (Gone s c) (commit fmt cfg open_events (some c) es s)
  unfolding commit lag_finished
  commit-Durable open_events c es s w =
      let Q = Kept s.finished_heights s.pending_finished in
      and_then-On _ Q (Unreported s) (Gone s c)
        (fill_range fmt cfg (gap_range s.high_water c.first.number) es s) _
        (On-weaken Q Q Q Q _ (Gone s c) (λ _ q. q) (λ _ q. q) (λ _ q. absurd q) _
          (fill_range-Stays fmt cfg _ _ (gap_range s.high_water c.first.number) es s (refl, refl)))
        (λ s₁ es₁ k₁.
          and_then-On _ (λ t. At fmt (tip c) t × Q t) (Unreported s) (Gone s c)
            (commit_blocks fmt cfg (c.first ∷ c.others) es₁ s₁) _
            (On-weaken _ (λ t. At fmt (tip c) t × Q t) _ Q _ (Gone s c) (λ _ q. q) (λ _ q. q.1)
              (λ _ q. absurd q.1) _
              (On-both (At fmt (tip c)) Q Any Q Any (λ _. ⊥)
                (commit_blocks fmt cfg (c.first ∷ c.others) es₁ s₁)
                (commit_blocks-At c.first c.others es₁ s₁ w)
                (commit_blocks-Stays fmt cfg _ _ (c.first ∷ c.others) es₁ s₁ k₁)))
            (λ s₂ es₂ k₂.
              send_finished-Durable open_events s c s₂ es₂ k₂.0 s₂.pending_finished (k₂.1.1)
                (k₂.1.0)))
