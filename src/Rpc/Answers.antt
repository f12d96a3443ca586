-- ===== src/Rpc/Answers.antt =====
-- What the RPC methods say of the ledger that the ExEx writes.
use passbook.Prelude.{
  ℕ, ◌<◌, ◌^◌, ◌≡◌, ap, ◌∙◌, ◌⊎◌, inl, inr, Bool, true, false, some, if◌then◌else◌,
}
use passbook.Prelude.Text.{codes, text_eq}
use passbook.Prelude.Decimal.{to_string, parse_u64, parse_u64-to_string}
use passbook.Prelude.Hex.{Formats}
use passbook.Prelude.Int.{negsuc}
use passbook.Prelude.Result.{ok, err}
use passbook.Model.{BlockBatch}
use passbook.Ledger.{Db, and_then, get_meta, write_block}
use passbook.Ledger.Meta.{get_meta-put_meta, get_last_block}
use passbook.Ledger.Written.{written, write_block-AllOrNothing}
use passbook.Rpc.{Health, PassbookRpc, health, rpc_health}

-- A server on a ledger, with the lock as it is.
abbrev pub serving : Db → Bool → ℕ → PassbookRpc
serving db poisoned chain_id = record {
  shared = record { ledger = db; poisoned = poisoned };
  chain_id = chain_id;
}

module _ (fmt : Formats) where
  chain_of-written :
      (b : BlockBatch) (db : Db)
      → get_meta (codes "chain_id") (written fmt b db).meta ≡ get_meta (codes "chain_id") db.meta
  unfolding text_eq
  chain_of-written b db =
      get_meta-put_meta (codes "chain_id") (codes "last_block_hash") (fmt.hex_b256 b.block_hash) _
      ∙ get_meta-put_meta (codes "chain_id") (codes "last_block") (to_string b.block_number) db.meta

  health-written :
      (b : BlockBatch) (db : Db)
      → b.block_number < 2 ^ 64
      → health (written fmt b db)
        ≡ record { last_block = some b.block_number; chain_id = (health db).chain_id }
  unfolding health
  health-written b db n = λ i. record {
    last_block =
        (ap (λ o. and_then o parse_u64) (get_last_block fmt b db)
            ∙ parse_u64-to_string b.block_number n)
          i;
    chain_id = and_then (chain_of-written b db i) parse_u64;
  }

  health_of_chain :
      (b : BlockBatch) (db : Db) (chain_id : ℕ)
      → b.block_number < 2 ^ 64
      → chain_id < 2 ^ 64
      → get_meta (codes "chain_id") db.meta ≡ some (to_string chain_id)
      → health (written fmt b db)
        ≡ record { last_block = some b.block_number; chain_id = some chain_id }
  unfolding health
  health_of_chain b db chain_id n c h = health-written b db n ∙ λ i. record {
    last_block = some b.block_number;
    chain_id = (ap (λ o. and_then o parse_u64) h ∙ parse_u64-to_string chain_id c) i;
  }

  -- Whatever SQLite refuses while a block is written to a ledger that knows its chain: either the block is
  -- written, and passbook_health then answers with its number and the chain, or the writer fails and the
  -- answer is the one of before; where the lock is poisoned, it is the error -32000 in both cases.
  pub rpc_health-write_block :
      (faults : ℕ → Bool) (b : BlockBatch) (db : Db) (poisoned : Bool) (chain_id : ℕ)
      → b.block_number < 2 ^ 64
      → chain_id < 2 ^ 64
      → get_meta (codes "chain_id") db.meta ≡ some (to_string chain_id)
      → (((write_block fmt faults b db).0 ≡ true)
          × (rpc_health (serving (write_block fmt faults b db).1 poisoned chain_id) ≡ (
              if poisoned
              then err (record { code = negsuc 31999 })
              else ok (record { last_block = some b.block_number; chain_id = some chain_id }))))
        ⊎ (((write_block fmt faults b db).0 ≡ false)
            × (rpc_health (serving (write_block fmt faults b db).1 poisoned chain_id)
                ≡ rpc_health (serving db poisoned chain_id)))
  unfolding rpc_health
  rpc_health-write_block faults b db poisoned chain_id n c h =
      elim (write_block-AllOrNothing fmt faults b db) [
        | inl e ↦ inl (
          ap (λ r. r.0) e,
          ap (λ (r : Bool × Db). rpc_health (serving r.1 poisoned chain_id)) e
              ∙ ap (λ (a : Health). if poisoned then err (record { code = negsuc 31999 }) else ok a)
                  (health_of_chain b db chain_id n c h),
        )
        | inr e ↦
            inr (
              ap (λ r. r.0) e,
              ap (λ (r : Bool × Db). rpc_health (serving r.1 poisoned chain_id)) e,
            )
      ]
