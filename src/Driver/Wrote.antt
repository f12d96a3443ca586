-- ===== src/Driver/Wrote.antt =====
-- What the ledger holds while a committed chain is written: the loop over the blocks in `run_passbook` of
-- crates/passbook-core/src/exex.rs.
use passbook.Prelude.{
  ◌≡◌, refl, ap, ◌∙◌, Bool, true, false, some, List, [], ◌∷◌, ◌++◌, Member, inl, inr, map,
}
use passbook.Prelude.Text.{codes}
use passbook.Prelude.Decimal.{to_string}
use passbook.Prelude.Hex.{Formats}
use passbook.Prelude.Result.{Result, ok, err}
use passbook.Model.{BlockBatch}
use passbook.Block.Inputs.{ProcessingError, Failure, failed, panicked}
use passbook.Ledger.Table.{insert_all}
use passbook.Ledger.Rows.{same_eth, same_erc20, same_gas, eth_record, erc20_record, gas_record}
use passbook.Ledger.{Db, put_meta, write_block, write_unattributed, insert_unattributed}
use passbook.Ledger.Written.{
  AllOrNothing, written, write_block-AllOrNothing, transaction-AllOrNothing, apply_all,
}
use passbook.Driver.{
  NumHash, Attempt, Driver, Config, retry, block_round, on_processed, commit_blocks, backoff_start,
  try_again, stall_row,
}
use passbook.Driver.Ends.{On}
use passbook.Driver.Leftover.{
  LeftOf, Ends, RoundEnds, retry-Ends, and_then-Ends, Ends-weaken, as_On,
}
use passbook.Driver.Waits.{Waits, noted}

-- The same rows and the same resume point; only the diagnostic rows may differ.
abbrev pub SameRows : Db → Db → Type 0
SameRows a b =
    (a.eth_transfers ≡ b.eth_transfers)
    × (a.erc20_transfers ≡ b.erc20_transfers)
    × (a.gas_payments ≡ b.gas_payments)
    × (a.meta ≡ b.meta)

SameRows-trans : (a b c : Db) → SameRows a b → SameRows b c → SameRows a c
SameRows-trans a b c h k = (h.0 ∙ k.0, h.1 ∙ k.1, h.2 ∙ k.2, h.3 ∙ k.3)

-- In some round the block was processed to this batch.
abbrev pub Answered : NumHash → List Attempt → BlockBatch → Type 0
Answered b es batch = (x : Attempt) × Member x es × (x.process_committed_block b ≡ ok batch)

abbrev pub AllAnswered : List NumHash → List Attempt → List BlockBatch → Type 0
AllAnswered [] es [] = Unit
AllAnswered [] es (batch ∷ batches) = ⊥
AllAnswered (b ∷ bs) es [] = ⊥
AllAnswered (b ∷ bs) es (batch ∷ batches) = Answered b es batch × AllAnswered bs es batches

module _ (fmt : Formats) (cfg : Config) where
  -- The batches written one after the other.
  abbrev pub written_all : List BlockBatch → Db → Db
  written_all [] db = db
  written_all (batch ∷ batches) db = written_all batches (written fmt batch db)

  written-SameRows :
      (batch : BlockBatch) (a b : Db)
      → SameRows a b
      → SameRows (written fmt batch a) (written fmt batch b)
  written-SameRows batch a b h = (
    ap (insert_all same_eth (map (eth_record fmt) batch.eth)) h.0,
    ap (insert_all same_erc20 (map (erc20_record fmt) batch.erc20)) h.1,
    ap (insert_all same_gas (map (gas_record fmt) batch.gas)) h.2,
    ap
        (λ m.
          put_meta (codes "last_block_hash") (fmt.hex_b256 batch.block_hash)
            (put_meta (codes "last_block") (to_string batch.block_number) m))
        h.3,
  )

  written_all-SameRows :
      (batches : List BlockBatch) (a b : Db)
      → SameRows a b
      → SameRows (written_all batches a) (written_all batches b)
  written_all-SameRows [] a b h = h
  written_all-SameRows (batch ∷ batches) a b h =
      written_all-SameRows batches _ _ (written-SameRows batch a b h)

  -- The block's rows are in the ledger.
  abbrev Landed : NumHash → List Attempt → Db → Driver → Type 0
  Landed b all db t =
      (batch : BlockBatch) × Answered b all batch × SameRows t.db (written fmt batch db)

  wrote :
      (b : NumHash) (all : List Attempt) (s t : Driver) (batch : BlockBatch) (r : Bool × Db)
      → Answered b all batch
      → Waits s t
      → AllOrNothing t.db (written fmt batch t.db) r
      → RoundEnds
          (Landed b all s.db)
          (Waits s)
          (try_again r (λ u. record u { high_water = some b.number }) t)
  wrote b all s t batch (true, d) a w (inl e) = (
    batch,
    a,
    SameRows-trans d (written fmt batch t.db) (written fmt batch s.db)
        (let q = ap (λ r. r.1) e in
          (ap Db.eth_transfers q, ap Db.erc20_transfers q, ap Db.gas_payments q, ap Db.meta q))
        (written-SameRows batch t.db s.db (w.2, w.3, w.4, w.5)),
  )
  wrote b all s t batch (true, d) a w (inr e) = cc
  wrote b all s t batch (false, d) a w (inl e) = cc
  wrote b all s t batch (false, d) a w (inr e) =
      let q = ap (λ r. r.1) e in
      (
        w.0,
        w.1,
        ap Db.eth_transfers q ∙ w.2,
        ap Db.erc20_transfers q ∙ w.3,
        ap Db.gas_payments q ∙ w.4,
        ap Db.meta q ∙ w.5,
      )

  processed :
      (b : NumHash) (x : Attempt) (all : List Attempt) (s t : Driver)
      (r : Result Failure BlockBatch)
      → Member x all
      → x.process_committed_block b ≡ r
      → Waits s t
      → RoundEnds (Landed b all s.db) (Waits s) (on_processed fmt cfg b x t r)
  unfolding write_block write_unattributed apply_all
  processed b x all s t (ok batch) m e w =
      wrote b all s t batch (write_block fmt x.faults batch t.db) (x, m, e) w
        (write_block-AllOrNothing fmt x.faults batch t.db)
  processed b x all s t (err (failed (ProcessingError.unexplained_residual n a r))) m e w =
      noted fmt cfg s t (stall_row fmt cfg b n a r) _ w (
        transaction-AllOrNothing x.faults (insert_unattributed fmt (stall_row fmt cfg b n a r) ∷ [])
          t.db)
  processed b x all s t (err (failed (ProcessingError.decode n))) m e w = w
  processed b x all s t (err (failed (ProcessingError.reconcile_overflow n a))) m e w = w
  processed b x all s t (err panicked) m e w = w

  block_round-Ends :
      (b : NumHash) (all : List Attempt) (s : Driver) (x : Attempt)
      → Member x all
      → (t : Driver) → Waits s t
      → RoundEnds (Landed b all s.db) (Waits s) (block_round fmt cfg b x t)
  unfolding block_round
  block_round-Ends b all s x m t w = processed b x all s t (x.process_committed_block b) m refl w

  -- The ledger with the blocks' batches written in order.
  abbrev pub Wrote : List NumHash → List Attempt → Db → Driver → Type 0
  Wrote bs all db t =
      (batches : List BlockBatch) × AllAnswered bs all batches
      × SameRows t.db (written_all batches db)

  -- The ledger with the batches of the first blocks.
  abbrev pub WrotePrefix : List NumHash → List Attempt → Db → Driver → Type 0
  WrotePrefix bs all db t =
      (before : List NumHash) × (after : List NumHash) × (bs ≡ before ++ after)
      × Wrote before all db t

  -- A block before others.
  Wrote-first :
      (b : NumHash) (bs : List NumHash) (all : List Attempt) (db : Db) (t u : Driver)
      → Landed b all db t
      → Wrote bs all t.db u
      → Wrote (b ∷ bs) all db u
  Wrote-first b bs all db t u (batch, a, same) (batches, answers, rest) = (
    batch ∷ batches,
    (a, answers),
    SameRows-trans u.db (written_all batches t.db) (written_all (batch ∷ batches) db) rest
        (written_all-SameRows batches t.db (written fmt batch db) same),
  )

  commit_blocks-Ends :
      (bs : List NumHash) (all es : List Attempt) (s : Driver)
      → LeftOf es all
      → Ends
          (λ t rest. Wrote bs all s.db t × LeftOf rest all)
          (WrotePrefix bs all s.db)
          (commit_blocks fmt cfg bs es s)
  unfolding commit_blocks
  commit_blocks-Ends [] all es s l = (([], tt, (refl, refl, refl, refl)), l)
  commit_blocks-Ends (b ∷ bs) all es s l =
      and_then-Ends _ _ (Waits s) _ (retry (block_round fmt cfg b) es backoff_start s) _
        (retry-Ends (Landed b all s.db) (Waits s) (block_round fmt cfg b) all es l
          (λ x m t w. block_round-Ends b all s x m t w) (λ _ t w. w) backoff_start s
          (refl, refl, refl, refl, refl, refl))
        (λ t rest h.
          Ends-weaken _ _ _ _ (commit_blocks fmt cfg bs rest t)
            (commit_blocks-Ends bs all rest t h.1)
            (λ u left k. (Wrote-first b bs all s.db t u h.0 k.0, k.1))
            (λ u k.
              let (before, after, split, w) = k in
              (b ∷ before, after, ap (λ q. b ∷ q) split, Wrote-first b before all s.db t u h.0 w)))
        (λ t w. ([], b ∷ bs, refl, ([], tt, (w.2, w.3, w.4, w.5))))

  -- While a committed chain is written, whatever fails and however often it is retried, the three tables of
  -- transfers and payments and the resume point are at every stop those of the ledger before with the batches
  -- of the chain's first blocks written to it in order, each as some round's processing of the block
  -- returned it; and when the driver is through, all blocks are among them. The diagnostic rows may differ.
  pub commit_blocks-Wrote :
      (bs : List NumHash) (es : List Attempt) (s : Driver)
      → On (Wrote bs es s.db) (WrotePrefix bs es s.db) (λ _. ⊥) (commit_blocks fmt cfg bs es s)
  commit_blocks-Wrote bs es s =
      as_On _ _ es (commit_blocks fmt cfg bs es s) (commit_blocks-Ends bs es es s (λ x m. m))
