-- ===== src/Driver.antt =====
-- The ExEx driver: `run_passbook`, `gap_range` and `lag_finished` of crates/passbook-core/src/exex.rs, and
-- the `ChainExec` seam. What the surroundings do in one round of a retry loop is an `Attempt`; a loop that
-- has no attempt left is still retrying.
pub mod Ends
pub mod Lag
pub mod Durable
pub mod Waits
pub mod Progress
pub mod Leftover
pub mod Wrote
pub mod Gaps
pub mod Backoff
use passbook.Prelude.{
  ℕ, zero, suc, ◌+◌, ◌-◌, ◌*◌, ◌%◌, ◌^◌, ◌≡◌, min, Bool, true, false, Option, none, some, List, [],
  ◌∷◌, ◌++◌, ltb, if◌then◌else◌,
}
use passbook.Prelude.Int.{ℤ, unsigned_abs}
use passbook.Prelude.Hex.{Formats}
use passbook.Prelude.Result.{Result, ok, err}
use passbook.Model.{UnattributedDeltaRow, BlockBatch, UnattributedDeltaCause}
use passbook.Block.Inputs.{ProcessingError, Failure, failed, panicked}
use passbook.Ledger.{
  Db, write_block, write_unattributed, write_gap_block_marker, delete_blocks, resume_head,
}

-- `BlockNumHash`
pub record NumHash : Type 0 where
  pub number : ℕ
  pub hash : ℕ

-- `provider.block_hash(n)`
pub data Lookup : Type 0 where
  found : ℕ → Lookup
  missing lookup_failed : Lookup

-- One round: which SQL statements are refused, what the provider knows, and what the chain-specific
-- execution of a block returns, which is a batch of that block if it is one: the contract of `ChainExec`.
pub record Attempt : Type 0 where
  pub faults : ℕ → Bool
  pub block_hash : ℕ → Lookup
  pub process_committed_block : NumHash → Result Failure BlockBatch
  pub same_block :
      (b : NumHash) (batch : BlockBatch)
      → process_committed_block b ≡ ok batch
      → (batch.block_number ≡ b.number) × (batch.block_hash ≡ b.hash)

-- A chain has a first block.
pub record Chain : Type 0 where
  pub first : NumHash
  pub others : List NumHash

abbrev pub last_of : NumHash → List NumHash → NumHash
last_of b [] = b
last_of b (c ∷ bs) = last_of c bs

abbrev pub tip : Chain → NumHash
tip c = last_of c.first c.others

-- `reverted_chain` as the hashes of its blocks, and `committed_chain`; `open_events` says that the event
-- channel still has its receiver.
pub record Notification : Type 0 where
  pub reverted : Option (List ℕ)
  pub committed : Option Chain
  pub open_events : Bool

pub record Driver : Type 0 where
  pub db : Db
  pub high_water : Option ℕ
  pub pending_finished : Option NumHash
  pub finished_heights : List NumHash
  pub sleeps : List ℕ

pub record Config : Type 0 where
  pub chain_id : ℕ
  pub watched : List ℕ

abbrev pub backoff_start : ℕ
backoff_start = 200

abbrev pub backoff_cap : ℕ
backoff_cap = 30000

-- One round ends the loop, asks for another, or panics.
pub data Round : Type 0 where
  done again died : Driver → Round

-- Where the driver is: past this part, in a retry loop, dead, or ended as the node is gone.
pub data Run : Type 0 where
  finished : Driver → List Attempt → Run
  stalled crashed closed : Driver → Run

abbrev pub and_then_run : Run → (Driver → List Attempt → Run) → Run
and_then_run (finished s es) f = f s es
and_then_run (stalled s) f = stalled s
and_then_run (crashed s) f = crashed s
and_then_run (closed s) f = closed s

abbrev pub settle : List Attempt → (Driver → Run) → Round → Run
settle es next (done s) = finished s es
settle es next (again s) = next s
settle es next (died s) = crashed s

abbrev pub sleep : ℕ → Driver → Driver
sleep backoff s = record s { sleeps = s.sleeps ++ backoff ∷ [] }

-- `loop { ... sleep(backoff).await; backoff = (backoff * 2).min(BACKOFF_CAP); }`
unfoldable pub retry : (Attempt → Driver → Round) → List Attempt → ℕ → Driver → Run
retry round [] backoff s = stalled s
retry round (e ∷ es) backoff s =
    settle es (λ s'. retry round es (min (backoff * 2) backoff_cap) (sleep backoff s')) (round e s)

unfoldable pub lag_finished : Option NumHash → NumHash → Option NumHash × Option NumHash
lag_finished pending current = (pending, some current)

-- The first and the last missing block.
unfoldable pub gap_range : Option ℕ → ℕ → Option (ℕ × ℕ)
gap_range none first_committed = none
gap_range (some hw) first_committed =
    let next = (hw + 1) % 2 ^ 64 in
    if ltb next first_committed then some (next, first_committed - 1) else none

abbrev pub try_again : (Bool × Db) → (Driver → Driver) → Driver → Round
try_again (true, db) success s = done (success (record s { db = db }))
try_again (false, db) success s = again (record s { db = db })

module _ (fmt : Formats) (cfg : Config) where
  unfoldable pub delete_round : List ℕ → Attempt → Driver → Round
  delete_round hashes e s =
      try_again (delete_blocks fmt e.faults cfg.chain_id hashes s.db) (λ t. t) s

  abbrev pub mark : ℕ → Attempt → Driver → Lookup → Round
  mark n e s (found bh) =
      try_again (write_gap_block_marker fmt e.faults cfg.chain_id n bh cfg.watched s.db)
        (λ t. record t { high_water = some n }) s
  mark n e s missing = again s
  mark n e s lookup_failed = again s

  unfoldable pub gap_round : ℕ → Attempt → Driver → Round
  gap_round n e s = mark n e s (e.block_hash n)

  -- The diagnostic row of a block that does not balance.
  abbrev pub stall_row : NumHash → ℕ → ℕ → ℤ → UnattributedDeltaRow
  stall_row block bn address residual = record {
    chain_id = cfg.chain_id;
    block_number = bn;
    block_hash = block.hash;
    address = address;
    observed_wei = unsigned_abs residual;
    attributed_wei = 0;
    residual_wei = unsigned_abs residual;
    cause = UnattributedDeltaCause.unexplained_residual;
  }

  abbrev pub on_processed : NumHash → Attempt → Driver → Result Failure BlockBatch → Round
  on_processed block e s (ok batch) =
      try_again (write_block fmt e.faults batch s.db)
        (λ t. record t { high_water = some block.number }) s
  on_processed block e s (err (failed (ProcessingError.unexplained_residual bn address residual))) =
      again (record s {
        db = (write_unattributed fmt e.faults (stall_row block bn address residual) s.db).1;
      })
  on_processed block e s (err (failed (ProcessingError.decode bn))) = again s
  on_processed block e s (err (failed (ProcessingError.reconcile_overflow bn a))) = again s
  on_processed block e s (err panicked) = died s

  unfoldable pub block_round : NumHash → Attempt → Driver → Round
  block_round block e s = on_processed block e s (e.process_committed_block block)

  -- `for block in chain.blocks_iter()`
  unfoldable pub commit_blocks : List NumHash → List Attempt → Driver → Run
  unfolding retry block_round
  commit_blocks [] es s = finished s es
  commit_blocks (block ∷ blocks) es s =
      and_then_run (retry (block_round block) es backoff_start s)
        (λ s' es'. commit_blocks blocks es' s')

  -- `for n in range`, for so many blocks from n on
  unfoldable pub fill_gap : ℕ → ℕ → List Attempt → Driver → Run
  unfolding retry gap_round
  fill_gap zero n es s = finished s es
  fill_gap (suc count) n es s =
      and_then_run (retry (gap_round n) es backoff_start s)
        (λ s' es'. fill_gap count (suc n) es' s')

  abbrev pub fill_range : Option (ℕ × ℕ) → List Attempt → Driver → Run
  fill_range none es s = finished s es
  fill_range (some (first, last)) es s = fill_gap (last + 1 - first) first es s

  -- `events.send(FinishedHeight(prev))?`
  abbrev pub send_finished : Bool → Option NumHash → Driver → List Attempt → Run
  send_finished open_events none s es = finished s es
  send_finished true (some prev) s es =
      finished (record s { finished_heights = s.finished_heights ++ prev ∷ [] }) es
  send_finished false (some prev) s es = closed s

  unfoldable pub revert : Option (List ℕ) → List Attempt → Driver → Run
  unfolding retry delete_round
  revert none es s = finished s es
  revert (some hashes) es s = retry (delete_round hashes) es backoff_start s

  unfoldable pub commit : Bool → Option Chain → List Attempt → Driver → Run
  unfolding gap_range fill_gap commit_blocks lag_finished
  commit open_events none es s = finished s es
  commit open_events (some chain) es s =
      and_then_run (fill_range (gap_range s.high_water chain.first.number) es s) (λ s₁ es₁.
        and_then_run (commit_blocks (chain.first ∷ chain.others) es₁ s₁) (λ s₂ es₂.
          let (prev, pending) = lag_finished s₂.pending_finished (tip chain) in
          send_finished open_events prev (record s₂ { pending_finished = pending }) es₂))

  -- The loop over the notifications.
  unfoldable pub handle_notifications : List Notification → List Attempt → Driver → Run
  unfolding revert commit
  handle_notifications [] es s = finished s es
  handle_notifications (n ∷ ns) es s = and_then_run (revert n.reverted es s) (λ s₁ es₁.
      and_then_run (commit n.open_events n.committed es₁ s₁)
        (λ s₂ es₂. handle_notifications ns es₂ s₂))

  abbrev pub head_number : Option (ℕ × ℕ) → Option ℕ
  head_number none = none
  head_number (some (number, hash)) = some number

  unfoldable pub run_passbook : Db → List Notification → List Attempt → Run
  unfolding handle_notifications
  run_passbook db ns es = handle_notifications ns es (record {
    db = db;
    high_water = head_number (resume_head fmt db);
    pending_finished = none;
    finished_heights = [];
    sleeps = [];
  })
