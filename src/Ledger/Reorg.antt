-- ===== src/Ledger/Reorg.antt =====
-- What `delete_blocks` forgets when blocks are reverted.
use passbook.Prelude.{
  ℕ, ◌≡◌, refl, sym, ap, subst, ◌∙◌, Bool, true, false, not, ◌&&◌, ◌==◌, List, [], ◌∷◌, keep, any,
  if◌then◌else◌,
}
use passbook.Prelude.Text.{Text, text_eq}
use passbook.Prelude.Hex.{Formats}
use passbook.Ledger.{
  Db, delete_statements, delete_blocks, delete_eth, delete_erc20, delete_gas, delete_unattributed,
}
use passbook.Ledger.Table.{keep-keep, keep-cong, keep-every, All-every}
use passbook.Ledger.Written.{apply_all, AllOrNothing, transaction-AllOrNothing, transaction-calm}

-- A row of this chain with one of these block hashes.
abbrev pub among : Formats → ℕ → List ℕ → ℕ → Text → Bool
among fmt chain_id hashes c block_hash =
    c == chain_id && any (λ h. text_eq block_hash (fmt.hex_b256 h)) hashes

-- The database without the rows of these blocks: every other row stays, in its place, and `meta` too.
abbrev pub forgotten : Formats → ℕ → List ℕ → Db → Db
forgotten fmt c hashes db = record db {
  eth_transfers = keep (λ r. not (among fmt c hashes r.chain_id r.block_hash)) db.eth_transfers;
  erc20_transfers = keep (λ r. not (among fmt c hashes r.chain_id r.block_hash)) db.erc20_transfers;
  gas_payments = keep (λ r. not (among fmt c hashes r.chain_id r.block_hash)) db.gas_payments;
  unattributed_deltas =
      keep (λ r. not (among fmt c hashes r.chain_id r.block_hash)) db.unattributed_deltas;
}

either_hash : (c e f : Bool) → (not (c && e) && not (c && f)) ≡ not (c && (if e then true else f))
either_hash true true f = refl
either_hash true false f = refl
either_hash false e f = refl

-- One hash, then the others.
forget_one :
    {R : Type 0} (chain : R → ℕ) (hash : R → Text) (fmt : Formats) (c h : ℕ) (hashes : List ℕ)
    (rows : List R)
    → keep
        (λ r. not (among fmt c hashes (chain r) (hash r)))
        (keep (λ r. not (chain r == c && text_eq (hash r) (fmt.hex_b256 h))) rows)
      ≡ keep (λ r. not (among fmt c (h ∷ hashes) (chain r) (hash r))) rows
forget_one chain hash fmt c h hashes rows =
    keep-keep _ _ rows
    ∙ keep-cong _ _ rows (
        All-every _
          (λ r.
            either_hash (chain r == c) (text_eq (hash r) (fmt.hex_b256 h))
              (any (λ g. text_eq (hash r) (fmt.hex_b256 g)) hashes))
          rows)

forget_none :
    {R : Type 0} (chain : R → ℕ) (hash : R → Text) (fmt : Formats) (c : ℕ) (rows : List R)
    → rows ≡ keep (λ r. not (among fmt c [] (chain r) (hash r))) rows
forget_none chain hash fmt c rows =
    sym (keep-every _ rows (All-every _ (λ r. no_hash (chain r == c)) rows))
  where
    no_hash : (b : Bool) → not (b && false) ≡ true
    no_hash true = refl
    no_hash false = refl

module _ (fmt : Formats) (c : ℕ) where
  apply_all-delete_statements :
      (hashes : List ℕ) (db : Db)
      → apply_all (delete_statements fmt c hashes) db ≡ forgotten fmt c hashes db
  unfolding apply_all delete_statements delete_eth delete_erc20 delete_gas delete_unattributed
  apply_all-delete_statements [] db = λ k. record db {
    eth_transfers = forget_none (λ r. r.chain_id) (λ r. r.block_hash) fmt c db.eth_transfers k;
    erc20_transfers = forget_none (λ r. r.chain_id) (λ r. r.block_hash) fmt c db.erc20_transfers k;
    gas_payments = forget_none (λ r. r.chain_id) (λ r. r.block_hash) fmt c db.gas_payments k;
    unattributed_deltas =
        forget_none (λ r. r.chain_id) (λ r. r.block_hash) fmt c db.unattributed_deltas k;
  }
  apply_all-delete_statements (h ∷ hashes) db = apply_all-delete_statements hashes _ ∙ λ k.
      record db {
        eth_transfers =
            forget_one (λ r. r.chain_id) (λ r. r.block_hash) fmt c h hashes db.eth_transfers k;
        erc20_transfers =
            forget_one (λ r. r.chain_id) (λ r. r.block_hash) fmt c h hashes db.erc20_transfers k;
        gas_payments =
            forget_one (λ r. r.chain_id) (λ r. r.block_hash) fmt c h hashes db.gas_payments k;
        unattributed_deltas =
            forget_one (λ r. r.chain_id) (λ r. r.block_hash) fmt c h hashes db.unattributed_deltas
              k;
      }

  -- A reorg removes from all four tables the rows of this chain with one of the reverted hashes, and
  -- leaves every other row in its place and `meta` as it was; or, where SQLite refuses a statement, it
  -- changes nothing and reports the failure.
  pub delete_blocks-AllOrNothing :
      (faults : ℕ → Bool) (hashes : List ℕ) (db : Db)
      → AllOrNothing db (forgotten fmt c hashes db) (delete_blocks fmt faults c hashes db)
  unfolding delete_blocks
  delete_blocks-AllOrNothing faults hashes db =
      subst (λ t. AllOrNothing db t (delete_blocks fmt faults c hashes db))
        (apply_all-delete_statements hashes db)
        (transaction-AllOrNothing faults (delete_statements fmt c hashes) db)

  pub delete_blocks_calm :
      (faults : ℕ → Bool) (hashes : List ℕ) (db : Db)
      → ((n : ℕ) → faults n ≡ false)
      → delete_blocks fmt faults c hashes db ≡ (true, forgotten fmt c hashes db)
  unfolding delete_blocks
  delete_blocks_calm faults hashes db h =
      transaction-calm faults (delete_statements fmt c hashes) db h
      ∙ ap (λ d. (true, d)) (apply_all-delete_statements hashes db)
