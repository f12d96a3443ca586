-- ===== src/Pipeline/ChainExec.antt =====
-- The two arms of the `ChainExec` seam: `EthChainExec` of crates/passbook-core/src/chain.rs and `OpChainExec` of
-- crates/passbook-stack-optimism/src/op_chain.rs, as the driver's attempts. Each keeps the driver's contract.
use passbook.Prelude.{ℕ, ◌≡◌, ap, subst, ◌∙◌, Bool, Option, none, some, List, map}
use passbook.Prelude.Hex.{Formats}
use passbook.Prelude.Result.{Result, ok, ok_or}
use passbook.Model.{BlockBatch}
use passbook.Stack.{StackAdapter}
use passbook.Reexec.{
  TaggingInspector, Captured, flatten_txs, reverted_flags, reexecute_block_frames,
}
use passbook.Reexec.Prestate.{Bundle, StateProvider, CacheDb, build_prestate_cache}
use passbook.Block.Inputs.{ProcessingError, Failure, failed}
use passbook.Driver.{NumHash, Lookup, Attempt}
use passbook.Pipeline.Executed.{Transaction, Committed}
use passbook.Pipeline.{Reexecution, account_deltas, gated_frames, process_committed_block_inner}
use passbook.Pipeline.Optimism.{OpBlock, l1_adapter, process_op_block}
use passbook.Pipeline.Deltas.{
  OnOk, bind-OnOk, Same, finish-Same, process_committed_block_inner-same_block,
}

-- What reth's chain has of a block: its data, whether each transaction succeeded, and the outcome of the
-- chain up to a height.
pub record ChainData : Type 0 where
  pub committed : NumHash → Committed
  pub success : NumHash → List Bool
  pub outcome_at_block : ℕ → Option Bundle
  pub same_number : (b : NumHash) → (committed b).number ≡ b.number
  pub same_hash : (b : NumHash) → (committed b).hash ≡ b.hash

-- One round for the driver: the refusals of SQLite, the canonical hashes, and the state of the chain's parent,
-- if the provider still has it.
pub record Surroundings : Type 0 where
  pub faults : ℕ → Bool
  pub block_hash : ℕ → Lookup
  pub parent_state : Option StateProvider

-- `reexecute_op_block_frames`, from the inspectors that the tracer of the OP EVM hands back.
unfoldable pub reexecute_op_block_frames :
    List ℕ → List Bool → Option (List TaggingInspector) → Option Captured
unfolding flatten_txs reverted_flags
reexecute_op_block_frames hashes success none = none
reexecute_op_block_frames hashes success (some traced) = some (record {
  frames = flatten_txs 0 traced;
  tx_hashes = map some hashes;
  tx_reverted = reverted_flags hashes success;
})

-- What `get_parent_state`, and the re-execution on the state that it gives, come to.
abbrev pub reexecuted : Option Captured → Reexecution
reexecuted none = Reexecution.reexecution_failed
reexecuted (some c) = Reexecution.captured c

-- `trace`: the EVM's tracer on the state before the block, with one inspector for each transaction.
module _ (db : CacheDb) (trace : db.Cache → NumHash → Option (List TaggingInspector))
    (fmt : Formats) (chain_id : ℕ) (watched : List ℕ) where
  abbrev pub reexecute :
      (List ℕ → List Bool → Option (List TaggingInspector) → Option Captured)
      → ChainData
      → NumHash
      → Option StateProvider
      → Reexecution
  reexecute frames_of chain b none = Reexecution.parent_unavailable
  reexecute frames_of chain b (some parent) = reexecuted (
      frames_of (map (λ (t : Transaction). t.tx_hash) (chain.committed b).transactions)
        (chain.success b)
        (trace (build_prestate_cache db chain.outcome_at_block b.number parent) b))

  unfoldable pub eth_process_committed_block :
      StackAdapter → ChainData → Surroundings → NumHash → Result Failure BlockBatch
  unfolding reexecute_block_frames build_prestate_cache process_committed_block_inner
  eth_process_committed_block adapter chain r b =
      process_committed_block_inner fmt chain_id (chain.committed b) watched adapter
        (reexecute reexecute_block_frames chain b r.parent_state)

  pub eth_same_block :
      (adapter : StackAdapter) (chain : ChainData) (r : Surroundings) (b : NumHash)
      (batch : BlockBatch)
      → eth_process_committed_block adapter chain r b ≡ ok batch
      → (batch.block_number ≡ b.number) × (batch.block_hash ≡ b.hash)
  unfolding eth_process_committed_block
  eth_same_block adapter chain r b batch e =
      let (n, h) =
        process_committed_block_inner-same_block fmt chain_id (chain.committed b) watched adapter
          (reexecute reexecute_block_frames chain b r.parent_state) batch e in
      (n ∙ chain.same_number b, h ∙ chain.same_hash b)

  -- `EthChainExec`, with the adapter that `make_adapter` makes.
  abbrev pub eth_chain_exec : StackAdapter → ChainData → Surroundings → Attempt
  eth_chain_exec adapter chain r = record {
    faults = r.faults;
    block_hash = r.block_hash;
    process_committed_block = eth_process_committed_block adapter chain r;
    same_block = eth_same_block adapter chain r;
  }

  -- The blocks of an OP chain, with what they have beyond those of L1.
  abbrev pub OpData : ChainData → Type 0
  OpData chain = (b : NumHash) → (op : OpBlock) × (op.block ≡ chain.committed b)

  unfoldable pub op_process_committed_block :
      (chain : ChainData) → OpData chain → Surroundings → NumHash → Result Failure BlockBatch
  unfolding reexecute_op_block_frames build_prestate_cache process_op_block
  op_process_committed_block chain op r b =
      process_op_block fmt chain_id (op b).0 watched
        (reexecute reexecute_op_block_frames chain b r.parent_state)

  op-Same :
      (op : OpBlock) (r : Reexecution)
      → OnOk (Same op.block.number op.block.hash) (process_op_block fmt chain_id op watched r)
  unfolding process_op_block
  op-Same op r =
      let P = Same op.block.number op.block.hash in
      bind-OnOk P (ok_or op.block.outcome (failed (ProcessingError.decode op.block.number))) _ (λ o.
        bind-OnOk P (account_deltas op.block.number watched o.bundle_accounts) _ (λ d.
          bind-OnOk P (gated_frames op.block.number d.0 r) _ (λ f.
            finish-Same fmt chain_id op.block watched (l1_adapter op.txs_meta op.l1_info) f.0 _)))

  pub op_same_block :
      (chain : ChainData) (op : OpData chain) (r : Surroundings) (b : NumHash) (batch : BlockBatch)
      → op_process_committed_block chain op r b ≡ ok batch
      → (batch.block_number ≡ b.number) × (batch.block_hash ≡ b.hash)
  unfolding op_process_committed_block
  op_same_block chain op r b batch e =
      let (n, h) =
        subst (OnOk (Same (op b).0.block.number (op b).0.block.hash)) e
          (op-Same (op b).0 (reexecute reexecute_op_block_frames chain b r.parent_state)) in
      (
        n ∙ ap Committed.number (op b).1 ∙ chain.same_number b,
        h ∙ ap Committed.hash (op b).1 ∙ chain.same_hash b,
      )

  -- `OpChainExec`
  abbrev pub op_chain_exec : (chain : ChainData) → OpData chain → Surroundings → Attempt
  op_chain_exec chain op r = record {
    faults = r.faults;
    block_hash = r.block_hash;
    process_committed_block = op_process_committed_block chain op r;
    same_block = op_same_block chain op r;
  }
