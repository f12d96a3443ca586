-- ===== src/Driver/Backoff.antt =====
-- The pauses between the rounds of the retry loops.
use passbook.Prelude.{
  ℕ, suc, zero, ◌*◌, ◌≤◌, min, Bool, true, false, Option, none, some, List, [], ◌∷◌, All,
  All-append, arith,
}
use passbook.Prelude.Hex.{Formats}
use passbook.Prelude.Result.{Result, ok, err}
use passbook.Model.{BlockBatch}
use passbook.Block.Inputs.{ProcessingError, Failure, failed, panicked}
use passbook.Ledger.{Db, write_block, write_gap_block_marker, delete_blocks}
use passbook.Driver.{
  NumHash, Lookup, found, missing, lookup_failed, Attempt, Chain, Notification, Driver, Config,
  Round, Run, retry, sleep, gap_range, delete_round, gap_round, mark, block_round, on_processed,
  commit_blocks, fill_gap, fill_range, send_finished, revert, commit, handle_notifications,
  backoff_start, backoff_cap, run_passbook,
}
use passbook.Driver.Ends.{On, RoundOn, settle-On, and_then-On, try_again-On}

-- Between 200 milliseconds and 30 seconds.
abbrev pub InBounds : ℕ → Type 0
InBounds ms = (200 ≤ ms) × (ms ≤ 30000)

abbrev pub Slept : Driver → Type 0
Slept s = All InBounds s.sleeps

abbrev pub Always : Run → Type 0
Always = On Slept Slept Slept

doubled : (b : ℕ) → InBounds b → InBounds (min (b * 2) backoff_cap)
doubled b h = ground arith

retry-Always :
    (round : Attempt → Driver → Round) (es : List Attempt) (backoff : ℕ)
    → ((e : Attempt) (s : Driver) → Slept s → RoundOn Slept Slept (round e s))
    → InBounds backoff
    → (s : Driver) → Slept s
    → Always (retry round es backoff s)
unfolding retry
retry-Always round [] backoff h b s q = q
retry-Always round (e ∷ es) backoff h b s q =
    settle-On Slept Slept Slept es _ (round e s) (h e s q) (λ t p.
      retry-Always round es (min (backoff * 2) backoff_cap) h (doubled backoff b) (sleep backoff t)
        (All-append InBounds t.sleeps (backoff ∷ []) p (b, tt)))

start : InBounds backoff_start
start = omega arith

module _ (fmt : Formats) (cfg : Config) where
  processed :
      (b : NumHash) (e : Attempt) (s : Driver) (r : Result Failure BlockBatch)
      → Slept s
      → RoundOn Slept Slept (on_processed fmt cfg b e s r)
  processed b e s (ok batch) q =
      try_again-On Slept Slept (write_block fmt e.faults batch s.db)
        (λ t. record t { high_water = some b.number }) s (λ db. q) (λ db. q)
  processed b e s (err (failed (ProcessingError.unexplained_residual n a r))) q = q
  processed b e s (err (failed (ProcessingError.decode n))) q = q
  processed b e s (err (failed (ProcessingError.reconcile_overflow n a))) q = q
  processed b e s (err panicked) q = q

  marked :
      (n : ℕ) (e : Attempt) (s : Driver) (l : Lookup)
      → Slept s
      → RoundOn Slept Slept (mark fmt cfg n e s l)
  marked n e s (found h) q =
      try_again-On Slept Slept
        (write_gap_block_marker fmt e.faults cfg.chain_id n h cfg.watched s.db)
        (λ t. record t { high_water = some n }) s (λ db. q) (λ db. q)
  marked n e s missing q = q
  marked n e s lookup_failed q = q

  commit_blocks-Always :
      (bs : List NumHash) (es : List Attempt) (s : Driver)
      → Slept s
      → Always (commit_blocks fmt cfg bs es s)
  unfolding commit_blocks block_round
  commit_blocks-Always [] es s q = q
  commit_blocks-Always (b ∷ bs) es s q =
      and_then-On Slept Slept Slept Slept (retry (block_round fmt cfg b) es backoff_start s) _
        (retry-Always (block_round fmt cfg b) es backoff_start
          (λ e t p. processed b e t (e.process_committed_block b) p) start s q)
        (λ t es' p. commit_blocks-Always bs es' t p)

  fill_gap-Always :
      (count n : ℕ) (es : List Attempt) (s : Driver)
      → Slept s
      → Always (fill_gap fmt cfg count n es s)
  unfolding fill_gap gap_round
  fill_gap-Always zero n es s q = q
  fill_gap-Always (suc count) n es s q =
      and_then-On Slept Slept Slept Slept (retry (gap_round fmt cfg n) es backoff_start s) _
        (retry-Always (gap_round fmt cfg n) es backoff_start
          (λ e t p. marked n e t (e.block_hash n) p) start s q)
        (λ t es' p. fill_gap-Always count (suc n) es' t p)

  fill_range-Always :
      (r : Option (ℕ × ℕ)) (es : List Attempt) (s : Driver)
      → Slept s
      → Always (fill_range fmt cfg r es s)
  fill_range-Always none es s q = q
  fill_range-Always (some (first, last)) es s q = fill_gap-Always _ first es s q

  revert-Always :
      (r : Option (List ℕ)) (es : List Attempt) (s : Driver)
      → Slept s
      → Always (revert fmt cfg r es s)
  unfolding revert delete_round
  revert-Always none es s q = q
  revert-Always (some hashes) es s q =
      retry-Always (delete_round fmt cfg hashes) es backoff_start
        (λ e t p.
          try_again-On Slept Slept (delete_blocks fmt e.faults cfg.chain_id hashes t.db) (λ u. u) t
            (λ db. p) (λ db. p))
        start s q

  send-Always :
      (o : Bool) (p : Option NumHash) (s : Driver) (es : List Attempt)
      → Slept s
      → Always (send_finished fmt cfg o p s es)
  send-Always o none s es q = q
  send-Always true (some b) s es q = q
  send-Always false (some b) s es q = q

  commit-Always :
      (o : Bool) (c : Option Chain) (es : List Attempt) (s : Driver)
      → Slept s
      → Always (commit fmt cfg o c es s)
  unfolding commit
  commit-Always o none es s q = q
  commit-Always o (some c) es s q =
      and_then-On Slept Slept Slept Slept
        (fill_range fmt cfg (gap_range s.high_water c.first.number) es s) _
        (fill_range-Always (gap_range s.high_water c.first.number) es s q)
        (λ s₁ es₁ q₁.
          and_then-On Slept Slept Slept Slept (commit_blocks fmt cfg (c.first ∷ c.others) es₁ s₁) _
            (commit_blocks-Always (c.first ∷ c.others) es₁ s₁ q₁)
            (λ s₂ es₂ q₂. send-Always o _ _ es₂ q₂))

  handled :
      (ns : List Notification) (es : List Attempt) (s : Driver)
      → Slept s
      → Always (handle_notifications fmt cfg ns es s)
  unfolding handle_notifications
  handled [] es s q = q
  handled (n ∷ ns) es s q =
      and_then-On Slept Slept Slept Slept (revert fmt cfg n.reverted es s) _
        (revert-Always n.reverted es s q)
        (λ s₁ es₁ q₁.
          and_then-On Slept Slept Slept Slept (commit fmt cfg n.open_events n.committed es₁ s₁) _
            (commit-Always n.open_events n.committed es₁ s₁ q₁) (λ s₂ es₂ q₂. handled ns es₂ s₂ q₂))

  -- Whatever database it starts from and whatever fails, however often, every pause between two rounds of
  -- any retry loop of the driver is between 200 milliseconds and 30 seconds.
  pub run_passbook-Slept :
      (db : Db) (ns : List Notification) (es : List Attempt)
      → On Slept Slept Slept (run_passbook fmt cfg db ns es)
  unfolding run_passbook
  run_passbook-Slept db ns es = handled ns es _ tt
