-- ===== src/Pipeline/Audit.antt =====
-- The ledger of an L1 node: the loop over the committed blocks in `run_passbook` of crates/passbook-core/src/exex.rs with
-- `EthChainExec` of crates/passbook-core/src/chain.rs.
use passbook.Prelude.{◌≡◌, Option, some, List, [], ◌∷◌, ◌++◌, All, Member, map}
use passbook.Prelude.Hex.{Formats}
use passbook.Prelude.Result.{ok}
use passbook.Model.{BlockBatch}
use passbook.Stack.{StackAdapter}
use passbook.System.{SystemCredit}
use passbook.Pipeline.{Reexecution}
use passbook.Reexec.{TaggingInspector, reexecute_block_frames}
use passbook.Reexec.Prestate.{CacheDb}
use passbook.Block.Balance.{NoWrap}
use passbook.Ledger.{Db}
use passbook.Driver.{NumHash, Attempt, Driver, Config}
use passbook.Driver.Wrote.{SameRows, written_all, Wrote}
use passbook.Pipeline.Executed.{ExecutionOutcome}
use passbook.Pipeline.Deltas.{watched_of, Fit}
use passbook.Pipeline.Explained.{inputs, l1_credits, frames_of, gate, Explained}
use passbook.Pipeline.ChainExec.{ChainData, Surroundings, reexecute, eth_chain_exec}

module _ (db : CacheDb) (trace : db.Cache → NumHash → Option (List TaggingInspector))
    (fmt : Formats) (cfg : Config) (adapter : StackAdapter) (chain : ChainData) where
  abbrev executed : NumHash → Surroundings → Reexecution
  executed b r =
      reexecute db trace fmt cfg.chain_id cfg.watched reexecute_block_frames chain b r.parent_state

  -- The credits of the block.
  abbrev credits_of : NumHash → ExecutionOutcome → List SystemCredit
  credits_of b = l1_credits fmt cfg.chain_id (chain.committed b) cfg.watched adapter

  -- The chain has the block, with balances and sums within their types.
  abbrev pub Within : NumHash → Surroundings → Type 0
  Within b r =
      (o : ExecutionOutcome) × ((chain.committed b).outcome ≡ some o)
      × All Fit (watched_of cfg.watched o.bundle_accounts)
      × All
          (NoWrap (
            inputs fmt cfg.chain_id (chain.committed b) cfg.watched adapter (credits_of b) o (
              frames_of fmt cfg.chain_id (chain.committed b) cfg.watched adapter (credits_of b)
                (gate fmt cfg.chain_id (chain.committed b) cfg.watched adapter (credits_of b) o)
                (executed b r))))
          cfg.watched

  -- In some round the block was explained by this batch.
  abbrev pub Audited : List Surroundings → NumHash → BlockBatch → Type 0
  Audited rounds b batch =
      (r : Surroundings) × Member r rounds
      × ((o : ExecutionOutcome) × ((chain.committed b).outcome ≡ some o)
          × Explained fmt cfg.chain_id (chain.committed b) cfg.watched adapter (credits_of b) o
              (gate fmt cfg.chain_id (chain.committed b) cfg.watched adapter (credits_of b) o)
              (executed b r) (ok batch))

  abbrev pub AllAudited : List Surroundings → List NumHash → List BlockBatch → Type 0
  AllAudited rounds [] [] = Unit
  AllAudited rounds [] (batch ∷ batches) = ⊥
  AllAudited rounds (b ∷ bs) [] = ⊥
  AllAudited rounds (b ∷ bs) (batch ∷ batches) =
      Audited rounds b batch × AllAudited rounds bs batches

  -- The ledger with audited batches of the blocks, in order.
  abbrev pub Books : List Surroundings → List NumHash → Db → Driver → Type 0
  Books rounds bs before t =
      (batches : List BlockBatch) × AllAudited rounds bs batches
      × SameRows t.db (written_all fmt cfg batches before)

  abbrev pub BooksPrefix : List Surroundings → List NumHash → Db → Driver → Type 0
  BooksPrefix rounds bs before t =
      (first : List NumHash) × (later : List NumHash) × (bs ≡ first ++ later)
      × Books rounds first before t

  abbrev pub attempts : List Surroundings → List Attempt
  attempts rounds = map (eth_chain_exec db trace fmt cfg.chain_id cfg.watched adapter chain) rounds
