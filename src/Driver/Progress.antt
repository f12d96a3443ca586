-- ===== src/Driver/Progress.antt =====
-- The retry loops end when their surroundings let them, and stall on a block that does not balance.
use passbook.Prelude.{
  ℕ, ◌*◌, ◌≡◌, ◌≢◌, min, refl, sym, ap, subst, ◌∙◌, Bool, true, false, some, List, [], ◌∷◌, All,
  Member, inl, inr, ◌⊎◌,
}
use passbook.Prelude.Hex.{Formats}
use passbook.Prelude.Result.{Result, ok, err}
use passbook.Model.{BlockBatch}
use passbook.Block.Inputs.{ProcessingError, Failure, failed, panicked}
use passbook.Ledger.Table.{All-every, All-map}
use passbook.Ledger.{Db, write_block, delete_blocks, delete_statements, block_statements}
use passbook.Ledger.Written.{AllOrNothing, transaction-calm}
use passbook.Ledger.Reorg.{forgotten, delete_blocks-AllOrNothing}
use passbook.Driver.{
  NumHash, Attempt, Driver, Config, Round, done, again, died, Run, finished, retry, delete_round,
  block_round, on_processed, commit_blocks, revert, backoff_start, backoff_cap, settle, sleep,
  try_again, and_then_run,
}
use passbook.Driver.Ends.{On, RoundOn, retry-On, and_then-On, On-weaken, On-both}
use passbook.Driver.Durable.{At, Words, commit_blocks-At}
use passbook.Driver.Waits.{Calm, Waits, Unbalanced, stall_round, Diagnosed, retry-Diagnosed}

abbrev pub Finishes : (Driver → Type 0) → Run → Type 0
Finishes P r = (t : Driver) × (rest : List Attempt) × (r ≡ finished t rest) × P t

settle-Finishes :
    (e : Attempt) (es : List Attempt) (next : Driver → Run) (r : Round)
    → ((t : Driver) → r ≢ died t)
    → ((t : Driver) → Finishes (λ _. Unit) (next t)) ⊎ ((t : Driver) × (r ≡ done t))
    → Finishes (λ _. Unit) (settle es next r)
settle-Finishes e es next (done t) n h = (t, es, refl, tt)
settle-Finishes e es next (again t) n (inl h) = h t
settle-Finishes e es next (again t) n (inr h) = cc
settle-Finishes e es next (died t) n h = absurd (n t refl)

retry-Finishes :
    (round : Attempt → Driver → Round) (e : Attempt)
    → ((s : Driver) → (t : Driver) × (round e s ≡ done t))
    → (es : List Attempt) → Member e es
    → All (λ e. (s t : Driver) → round e s ≢ died t) es
    → (backoff : ℕ) (s : Driver) → Finishes (λ _. Unit) (retry round es backoff s)
unfolding retry
retry-Finishes round e good [] m n backoff s = absurd m
retry-Finishes round e good (x ∷ xs) (inl m) n backoff s =
    settle-Finishes e xs _ (round x s) (n.0 s)
      (inr (let (t, h) = good s in (t, ap (λ y. round y s) (sym m) ∙ h)))
retry-Finishes round e good (x ∷ xs) (inr m) n backoff s =
    settle-Finishes e xs _ (round x s) (n.0 s) (
      inl (λ t.
        retry-Finishes round e good xs m n.1 (min (backoff * 2) backoff_cap) (sleep backoff t)))

-- What holds of a run that goes through.
through : (P Q C : Driver → Type 0) (r : Run) → Finishes (λ _. Unit) r → On P Q C r → Finishes P r
through P Q C r (t, rest, e, _) h = (t, rest, e, subst (On P Q C) e h)

alive : (r : Bool × Db) (f : Driver → Driver) (s t : Driver) → try_again r f s ≢ died t
alive (true, db) f s t e = cc
alive (false, db) f s t e = cc

module _ (fmt : Formats) (cfg : Config) where
  delete_round-done :
      (hashes : List ℕ) (e : Attempt)
      → Calm e
      → (s : Driver) → (t : Driver) × (delete_round fmt cfg hashes e s ≡ done t)
  unfolding delete_round delete_blocks
  delete_round-done hashes e calm s = (
    _,
    ap (λ r. try_again r (λ t. t) s)
        (transaction-calm e.faults (delete_statements fmt cfg.chain_id hashes) s.db calm),
  )

  abbrev Gone : List ℕ → Db → Driver → Type 0
  Gone hashes db t = t.db ≡ forgotten fmt cfg.chain_id hashes db

  deleted :
      (hashes : List ℕ) (db : Db) (s : Driver) (r : Bool × Db)
      → s.db ≡ db
      → AllOrNothing s.db (forgotten fmt cfg.chain_id hashes s.db) r
      → RoundOn (Gone hashes db) (λ t. t.db ≡ db) (try_again r (λ t. t) s)
  deleted hashes db s (true, d) h (inl e) =
      ap (λ r. r.1) e ∙ ap (forgotten fmt cfg.chain_id hashes) h
  deleted hashes db s (true, d) h (inr e) = cc
  deleted hashes db s (false, d) h (inl e) = cc
  deleted hashes db s (false, d) h (inr e) = ap (λ r. r.1) e ∙ h

  delete_alive :
      (hashes : List ℕ) (x : Attempt) (s t : Driver) → delete_round fmt cfg hashes x s ≢ died t
  unfolding delete_round
  delete_alive hashes x s t = alive _ _ s t

  delete_kept :
      (hashes : List ℕ) (db : Db) (x : Attempt) (t : Driver)
      → t.db ≡ db
      → RoundOn (Gone hashes db) (λ t. t.db ≡ db) (delete_round fmt cfg hashes x t)
  unfolding delete_round
  delete_kept hashes db x t h =
      deleted hashes db t _ h (delete_blocks-AllOrNothing fmt cfg.chain_id x.faults hashes t.db)

  -- A reorg is handled once SQLite refuses nothing in some round, however many rounds failed before: the
  -- driver then goes on, and the ledger is without the reverted blocks' rows and otherwise as it was.
  pub revert-Finishes :
      (hashes : List ℕ) (e : Attempt) (es : List Attempt) (s : Driver)
      → Calm e
      → Member e es
      → Finishes
          (λ t. t.db ≡ forgotten fmt cfg.chain_id hashes s.db)
          (revert fmt cfg (some hashes) es s)
  unfolding revert
  revert-Finishes hashes e es s calm m =
      through (Gone hashes s.db) (λ t. t.db ≡ s.db) (λ _. ⊥) _
        (retry-Finishes (delete_round fmt cfg hashes) e (delete_round-done hashes e calm) es m
          (All-every _ (λ x. delete_alive hashes x) es) backoff_start s)
        (retry-On _ _ _ (delete_round fmt cfg hashes) es backoff_start
          (All-every _ (λ x t h. delete_kept hashes s.db x t h) es) (λ _ t q. q) s refl)

  block_round-done :
      (b : NumHash) (batch : BlockBatch) (e : Attempt)
      → Calm e
      → e.process_committed_block b ≡ ok batch
      → (s : Driver) → (t : Driver) × (block_round fmt cfg b e s ≡ done t)
  unfolding block_round write_block
  block_round-done b batch e calm h s = (
    _,
    ap (on_processed fmt cfg b e s) h
        ∙ ap (λ r. try_again r (λ t. record t { high_water = some b.number }) s)
            (transaction-calm e.faults (block_statements fmt batch) s.db calm),
  )

  processed_alive :
      (b : NumHash) (e : Attempt) (r : Result Failure BlockBatch)
      → r ≢ err panicked
      → (s t : Driver) → on_processed fmt cfg b e s r ≢ died t
  processed_alive b e (ok batch) n s t h = alive _ _ s t h
  processed_alive b e (err (failed (ProcessingError.unexplained_residual k a r))) n s t h = cc
  processed_alive b e (err (failed (ProcessingError.decode k))) n s t h = cc
  processed_alive b e (err (failed (ProcessingError.reconcile_overflow k a))) n s t h = cc
  processed_alive b e (err panicked) n s t h = n refl

  block_alive :
      (b : NumHash) (x : Attempt)
      → x.process_committed_block b ≢ err panicked
      → (s t : Driver) → block_round fmt cfg b x s ≢ died t
  unfolding block_round
  block_alive b x n s t = processed_alive b x (x.process_committed_block b) n s t

  commit_one :
      (b : NumHash) (batch : BlockBatch) (e : Attempt) (es : List Attempt) (s : Driver)
      → Calm e
      → e.process_committed_block b ≡ ok batch
      → Member e es
      → All (λ x. x.process_committed_block b ≢ err panicked) es
      → Finishes (λ _. Unit) (commit_blocks fmt cfg (b ∷ []) es s)
  unfolding commit_blocks
  commit_one b batch e es s calm h m n =
      let (t, rest, f, _) =
        retry-Finishes (block_round fmt cfg b) e (block_round-done b batch e calm h) es m
          (All-map _ _ (λ x k. block_alive b x k) es n) backoff_start s in
      (t, rest, ap (λ r. and_then_run r (λ s' es'. finished s' es')) f, tt)

  -- A block is in the ledger once it is processed to a batch in some round in which SQLite refuses
  -- nothing, however many rounds failed before, if no round panics: the driver then goes on, and a restart
  -- resumes at the block.
  pub commit_block-Finishes :
      (b : NumHash) (batch : BlockBatch) (e : Attempt) (es : List Attempt) (s : Driver)
      → Words b
      → Calm e
      → e.process_committed_block b ≡ ok batch
      → Member e es
      → All (λ x. x.process_committed_block b ≢ err panicked) es
      → Finishes (At fmt b) (commit_blocks fmt cfg (b ∷ []) es s)
  commit_block-Finishes b batch e es s w calm h m n =
      through (At fmt b) (λ _. Unit) (λ _. Unit) _ (commit_one b batch e es s calm h m n)
        (commit_blocks-At fmt cfg b [] es s (w, tt))

  -- While a block's deltas do not balance in any round, the driver never gets past it: no row of transfers or
  -- payments is written, no height is reported, and the resume point stays. Each round writes one diagnostic row,
  -- with the block's hash, the account and the residual that the round found, and with nothing attributed; only a
  -- round in which SQLite refuses something may write none.
  pub commit_blocks-Unbalanced :
      (b : NumHash) (bs : List NumHash) (es : List Attempt) (s : Driver)
      → All (Unbalanced b) es
      → On
          (λ _. ⊥)
          (λ t.
            Waits s t × Diagnosed fmt cfg b es s.db.unattributed_deltas t.db.unattributed_deltas)
          (λ _. ⊥)
          (commit_blocks fmt cfg (b ∷ bs) es s)
  unfolding commit_blocks
  commit_blocks-Unbalanced b bs es s u =
      and_then-On (λ _. ⊥) (λ _. ⊥) _ (λ _. ⊥) (retry (block_round fmt cfg b) es backoff_start s) _
        (On-weaken _ (λ _. ⊥) _ _ _ (λ _. ⊥) (λ _ q. q.0) (λ _ q. q) (λ _ q. q.0)
          (retry (block_round fmt cfg b) es backoff_start s)
          (On-both (λ _. ⊥) (λ _. ⊥) (Waits s) _ (λ _. ⊥) (λ _. ⊥)
            (retry (block_round fmt cfg b) es backoff_start s)
            (retry-On (λ _. ⊥) (Waits s) (λ _. ⊥) (block_round fmt cfg b) es backoff_start
              (All-map _ _ (λ x k t w. stall_round fmt cfg b s x k t w) es u) (λ _ t w. w) s
              (refl, refl, refl, refl, refl, refl))
            (retry-Diagnosed fmt cfg b es backoff_start s u)))
        (λ t es' q. absurd q)
