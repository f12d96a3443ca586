-- ===== src/Tests/Driver.antt =====
-- The driver's theorems for a chain of one block, with rounds that fail and rounds that do not.
use passbook.Prelude.{◌≡◌, ◌≢◌, refl, sym, ap, none, some, List, [], ◌∷◌, true, inl, inr, arith}
use passbook.Prelude.Int.{pos}
use passbook.Prelude.Hex.{lower_hex}
use passbook.Prelude.Result.{Result, ok, err}
use passbook.Model.{BlockBatch}
use passbook.Block.Inputs.{ProcessingError, Failure, failed, panicked}
use passbook.Driver.{
  NumHash, Lookup, Attempt, Chain, Notification, Driver, Config, gap_range, fill_range, commit,
  commit_blocks, revert, handle_notifications, run_passbook,
}
use passbook.Driver.Ends.{On}
use passbook.Driver.Lag.{Lagged, handle_notifications-Lagged}
use passbook.Driver.Durable.{At, Durable, Unreported, Gone, commit-Durable}
use passbook.Driver.Progress.{
  Finishes, revert-Finishes, commit_block-Finishes, commit_blocks-Unbalanced,
}
use passbook.Driver.Waits.{Waits, Diagnosed}
use passbook.Driver.Wrote.{Wrote, WrotePrefix, commit_blocks-Wrote}
use passbook.Driver.Gaps.{Marked, MarkedSome, fill_range-Marked}
use passbook.Driver.Backoff.{Slept, run_passbook-Slept}
use passbook.Ledger.Reorg.{forgotten}
use passbook.Tests.Data.{batch_40, empty_db, no_faults, all_faults, block_id}

abbrev batch_of : NumHash → BlockBatch
batch_of b = record batch_40 { block_number = b.number; block_hash = b.hash }

batch_of_lem :
    (b : NumHash) (batch : BlockBatch)
    → ◌≡◌ {A = Result Failure BlockBatch} (ok (batch_of b)) (ok batch)
    → (batch.block_number ≡ b.number) × (batch.block_hash ≡ b.hash)
batch_of_lem b batch e =
    let f : batch_of b ≡ batch = cc in
    (sym (ap (λ x. x.block_number) f), sym (ap (λ x. x.block_hash) f))

no_batch :
    (f : Failure) (b : NumHash) (batch : BlockBatch)
    → ◌≡◌ {A = Result Failure BlockBatch} (err f) (ok batch)
    → (batch.block_number ≡ b.number) × (batch.block_hash ≡ b.hash)
no_batch f b batch e = cc

abbrev good : Attempt
good = record {
  faults = no_faults;
  block_hash = λ n. Lookup.found n;
  process_committed_block = λ b. ok (batch_of b);
  same_block = batch_of_lem;
}

abbrev busy : Attempt
busy = record {
  faults = all_faults;
  block_hash = λ n. Lookup.missing;
  process_committed_block = λ b. ok (batch_of b);
  same_block = batch_of_lem;
}

abbrev unbalanced : Attempt
unbalanced = record {
  faults = no_faults;
  block_hash = λ n. Lookup.found n;
  process_committed_block =
      λ b. err (failed (ProcessingError.unexplained_residual b.number 5 (pos 1)));
  same_block = λ b batch e.
      no_batch (failed (ProcessingError.unexplained_residual b.number 5 (pos 1))) b batch e;
}

abbrev started : Driver
started = record {
  db = empty_db;
  high_water = none;
  pending_finished = none;
  finished_heights = [];
  sleeps = [];
}

abbrev cfg : Config
cfg = record { chain_id = 1; watched = 5 ∷ [] }

abbrev chain : Chain
chain = record { first = block_id; others = record { number = 41; hash = 98 } ∷ [] }

abbrev news : List Notification
news =
    record { reverted = some (77 ∷ []); committed = some chain; open_events = true }
    ∷ record {
      reverted = none;
      committed = some (record { first = record { number = 43; hash = 97 }; others = [] });
      open_events = true;
    }
    ∷ []

abbrev rounds : List Attempt
rounds = busy ∷ good ∷ unbalanced ∷ good ∷ good ∷ good ∷ good ∷ []

handle_notifications-Lagged_example :
    Lagged lower_hex cfg started news rounds
      (handle_notifications lower_hex cfg news rounds started)
handle_notifications-Lagged_example = handle_notifications-Lagged lower_hex cfg news rounds started

commit-Durable_example :
    On
      (Durable lower_hex cfg started chain)
      (Unreported lower_hex cfg started)
      (Gone lower_hex cfg started chain)
      (commit lower_hex cfg true (some chain) rounds started)
commit-Durable_example =
    commit-Durable lower_hex cfg true chain rounds started
      ((omega arith, omega arith), ((omega arith, omega arith), tt))

run_passbook-Slept_example : On Slept Slept Slept (run_passbook lower_hex cfg empty_db news rounds)
run_passbook-Slept_example = run_passbook-Slept lower_hex cfg empty_db news rounds

revert-Finishes_example :
    Finishes
      (λ t. t.db ≡ forgotten lower_hex 1 (77 ∷ []) empty_db)
      (revert lower_hex cfg (some (77 ∷ [])) (busy ∷ good ∷ []) started)
revert-Finishes_example =
    revert-Finishes lower_hex cfg (77 ∷ []) good (busy ∷ good ∷ []) started (λ n. refl)
      (inr (inl refl))

ok_alive : (b : BlockBatch) → ◌≢◌ {A = Result Failure BlockBatch} (ok b) (err panicked)
ok_alive b e = cc

commit_block-Finishes_example :
    Finishes
      (At lower_hex block_id)
      (commit_blocks lower_hex cfg (block_id ∷ []) (busy ∷ good ∷ []) started)
commit_block-Finishes_example =
    commit_block-Finishes lower_hex cfg block_id (batch_of block_id) good (busy ∷ good ∷ []) started
      (omega arith, omega arith) (λ n. refl) refl (inr (inl refl))
      (ok_alive (batch_of block_id), (ok_alive (batch_of block_id), tt))

commit_blocks-Unbalanced_example :
    On
      (λ t. ⊥)
      (λ t.
        Waits started t
        × Diagnosed lower_hex cfg block_id
            (unbalanced ∷ unbalanced ∷ [])
            empty_db.unattributed_deltas
            t.db.unattributed_deltas)
      (λ t. ⊥)
      (commit_blocks lower_hex cfg (block_id ∷ []) (unbalanced ∷ unbalanced ∷ []) started)
commit_blocks-Unbalanced_example =
    commit_blocks-Unbalanced lower_hex cfg block_id [] (unbalanced ∷ unbalanced ∷ []) started
      ((40, 5, pos 1, refl), ((40, 5, pos 1, refl), tt))

commit_blocks-Wrote_example :
    On
      (Wrote lower_hex cfg (block_id ∷ []) rounds empty_db)
      (WrotePrefix lower_hex cfg (block_id ∷ []) rounds empty_db)
      (λ t. ⊥)
      (commit_blocks lower_hex cfg (block_id ∷ []) rounds started)
commit_blocks-Wrote_example = commit_blocks-Wrote lower_hex cfg (block_id ∷ []) rounds started

abbrev behind : Driver
behind = record started { high_water = some 37 }

fill_range-Marked_example :
    On
      (Marked lower_hex cfg 38 2 rounds behind)
      (MarkedSome lower_hex cfg 38 2 rounds behind)
      (λ t. ⊥)
      (fill_range lower_hex cfg (gap_range (some 37) 40) rounds behind)
fill_range-Marked_example = fill_range-Marked lower_hex cfg 40 rounds behind (omega arith)
