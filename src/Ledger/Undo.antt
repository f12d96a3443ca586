-- ===== src/Ledger/Undo.antt =====
-- A block that is written and then reverted leaves no trace in the tables.
use passbook.Prelude.{
  ℕ, ◌≡◌, refl, sym, ap, ◌∙◌, Bool, true, false, not, ◌&&◌, ◌==◌, ==_iff, List, [], ◌∷◌, ◌++◌, map,
  keep, keep-append, All, append-nil, arith, Bool-cases, inl, inr,
}
use passbook.Prelude.Text.{Text, text_eq, text_eq_iff}
use passbook.Prelude.Hex.{Formats}
use passbook.Model.{
  EthTransferRow, Erc20TransferRow, GasPaymentRow, UnattributedDeltaRow, BlockBatch,
}
use passbook.Ledger.{Db, delete_blocks, write_block}
use passbook.Ledger.Table.{
  insert_all, insert_all-keep, last_rows, last_rows-All, has_key, keep-keep, keep-every, keep-none,
  All-map,
}
use passbook.Ledger.Rows.{
  EthRecord, Erc20Record, GasRecord, UnattributedRecord, same_eth, same_erc20, same_gas,
  same_unattributed, eth_record, erc20_record, gas_record, unattributed_record,
}
use passbook.Ledger.Written.{written, write_block-committed}
use passbook.Ledger.Reorg.{among, forgotten, delete_blocks-AllOrNothing}

-- Rows of one block: a key that two rows share puts both in the block or neither.
module _ {R : Type 0} (same_key : R → R → Bool) (p : R → Bool)
    (shared : (x r : R) → same_key x r ≡ true → p x ≡ p r) where
  no_key :
      (rs : List R) (x : R) → All (λ r. p r ≡ true) rs → p x ≡ false → has_key same_key rs x ≡ false
  no_key [] x h e = refl
  no_key (r ∷ rs) x h e = elim (Bool-cases (same_key x r)) [
    | inl s ↦ absurd (let f = shared x r s in let g = h.0 in ground arith)
    | inr s ↦ rw s (no_key rs x h.1 e)
  ]

  new_rows :
      (rs rows : List R)
      → All (λ r. p r ≡ true) rs
      → All (λ x. p x ≡ false) rows
      → keep (λ x. not (p x)) (insert_all same_key rs rows) ≡ rows
  new_rows rs rows own fresh =
      ap (keep (λ x. not (p x))) (insert_all-keep same_key rs rows)
      ∙ keep-append _ (keep (λ x. not (has_key same_key rs x)) rows) (last_rows same_key rs)
      ∙ (λ k. old k ++ added k)
      ∙ append-nil rows
    where
      old : keep (λ x. not (p x)) (keep (λ x. not (has_key same_key rs x)) rows) ≡ rows
      old =
          keep-keep _ _ rows
          ∙ keep-every _ rows
              (All-map _ _ (λ x e. λ k. not (no_key rs x own e k) && not (e k)) rows fresh)

      added : keep (λ x. not (p x)) (last_rows same_key rs) ≡ []
      added = keep-none _ _ (All-map _ _ (λ x e. ap not e) _ (last_rows-All same_key _ rs own))

module _ (fmt : Formats) (c h : ℕ) where
  abbrev pub in_block : ℕ → Text → Bool
  in_block = among fmt c (h ∷ [])

  shared_block :
      (c₁ c₂ : ℕ) (h₁ h₂ : Text)
      → (c₁ == c₂) ≡ true
      → text_eq h₁ h₂ ≡ true
      → in_block c₁ h₁ ≡ in_block c₂ h₂
  shared_block c₁ c₂ h₁ h₂ e f = λ k. in_block ((==_iff c₁ c₂).0 e k) ((text_eq_iff h₁ h₂).0 f k)

  shared_eth :
      (x r : EthRecord)
      → same_eth x r ≡ true
      → in_block x.chain_id x.block_hash ≡ in_block r.chain_id r.block_hash
  unfolding same_eth
  shared_eth x r e = shared_block _ _ _ _ (ground arith) (ground arith)

  shared_erc20 :
      (x r : Erc20Record)
      → same_erc20 x r ≡ true
      → in_block x.chain_id x.block_hash ≡ in_block r.chain_id r.block_hash
  unfolding same_erc20
  shared_erc20 x r e = shared_block _ _ _ _ (ground arith) (ground arith)

  shared_gas :
      (x r : GasRecord)
      → same_gas x r ≡ true
      → in_block x.chain_id x.block_hash ≡ in_block r.chain_id r.block_hash
  unfolding same_gas
  shared_gas x r e = shared_block _ _ _ _ (ground arith) (ground arith)

  shared_unattributed :
      (x r : UnattributedRecord)
      → same_unattributed x r ≡ true
      → in_block x.chain_id x.block_hash ≡ in_block r.chain_id r.block_hash
  unfolding same_unattributed
  shared_unattributed x r e = shared_block _ _ _ _ (ground arith) (ground arith)

  own_block : (n : ℕ) (g : ℕ) → (n ≡ c) × (g ≡ h) → in_block n (fmt.hex_b256 g) ≡ true
  own_block n g e =
      (λ k. in_block (e.0 k) (fmt.hex_b256 (e.1 k)))
      ∙ rw ((==_iff c c).1 refl, (text_eq_iff (fmt.hex_b256 h) (fmt.hex_b256 h)).1 refl) refl

-- Every row of the batch carries the batch's chain and hash.
pub record OwnRows (b : BlockBatch) : Type 0 where
  pub eth :
      All (λ (r : EthTransferRow). (r.chain_id ≡ b.chain_id) × (r.block_hash ≡ b.block_hash)) b.eth
  pub erc20 :
      All
        (λ (r : Erc20TransferRow). (r.chain_id ≡ b.chain_id) × (r.block_hash ≡ b.block_hash))
        b.erc20
  pub gas :
      All (λ (r : GasPaymentRow). (r.chain_id ≡ b.chain_id) × (r.block_hash ≡ b.block_hash)) b.gas
  pub unattributed :
      All
        (λ (r : UnattributedDeltaRow). (r.chain_id ≡ b.chain_id) × (r.block_hash ≡ b.block_hash))
        b.unattributed

-- No row of the database is of this block.
pub record Fresh (fmt : Formats) (c h : ℕ) (db : Db) : Type 0 where
  pub eth :
      All (λ (r : EthRecord). in_block fmt c h r.chain_id r.block_hash ≡ false) db.eth_transfers
  pub erc20 :
      All (λ (r : Erc20Record). in_block fmt c h r.chain_id r.block_hash ≡ false) db.erc20_transfers
  pub gas :
      All (λ (r : GasRecord). in_block fmt c h r.chain_id r.block_hash ≡ false) db.gas_payments
  pub unattributed :
      All
        (λ (r : UnattributedRecord). in_block fmt c h r.chain_id r.block_hash ≡ false)
        db.unattributed_deltas

All-map_of :
    {R S : Type 0} (f : R → S) (P : R → Type 0) (Q : S → Type 0)
    → ((x : R) → P x → Q (f x))
    → (xs : List R) → All P xs
    → All Q (map f xs)
All-map_of f P Q g [] h = tt
All-map_of f P Q g (x ∷ xs) h = (g x h.0, All-map_of f P Q g xs h.1)

module _ (fmt : Formats) where
  forgotten-written :
      (b : BlockBatch) (db : Db)
      → OwnRows b
      → Fresh fmt b.chain_id b.block_hash db
      → forgotten fmt b.chain_id (b.block_hash ∷ []) (written fmt b db)
        ≡ record db { meta = (written fmt b db).meta }
  unfolding eth_record erc20_record gas_record unattributed_record
  forgotten-written b db own fresh = λ k. record {
    eth_transfers =
        new_rows same_eth (λ r. in_block fmt b.chain_id b.block_hash r.chain_id r.block_hash)
          (shared_eth fmt b.chain_id b.block_hash) (map (eth_record fmt) b.eth) db.eth_transfers
          (All-map_of (eth_record fmt) _ _
            (λ r e. own_block fmt b.chain_id b.block_hash r.chain_id r.block_hash e) b.eth own.eth)
          fresh.eth k;
    erc20_transfers =
        new_rows same_erc20 (λ r. in_block fmt b.chain_id b.block_hash r.chain_id r.block_hash)
          (shared_erc20 fmt b.chain_id b.block_hash) (map (erc20_record fmt) b.erc20)
          db.erc20_transfers
          (All-map_of (erc20_record fmt) _ _
            (λ r e. own_block fmt b.chain_id b.block_hash r.chain_id r.block_hash e) b.erc20
            own.erc20)
          fresh.erc20 k;
    gas_payments =
        new_rows same_gas (λ r. in_block fmt b.chain_id b.block_hash r.chain_id r.block_hash)
          (shared_gas fmt b.chain_id b.block_hash) (map (gas_record fmt) b.gas) db.gas_payments
          (All-map_of (gas_record fmt) _ _
            (λ r e. own_block fmt b.chain_id b.block_hash r.chain_id r.block_hash e) b.gas own.gas)
          fresh.gas k;
    unattributed_deltas =
        new_rows same_unattributed
          (λ r. in_block fmt b.chain_id b.block_hash r.chain_id r.block_hash)
          (shared_unattributed fmt b.chain_id b.block_hash)
          (map (unattributed_record fmt) b.unattributed) db.unattributed_deltas
          (All-map_of (unattributed_record fmt) _ _
            (λ r e. own_block fmt b.chain_id b.block_hash r.chain_id r.block_hash e) b.unattributed
            own.unattributed)
          fresh.unattributed k;
    meta = (written fmt b db).meta;
  }

  -- A block whose rows carry its own chain and hash, written to a database with no row of it and then
  -- reverted, leaves all four tables exactly as they were before; only `meta` still names the block.
  pub delete_blocks-write_block :
      (faults again : ℕ → Bool) (b : BlockBatch) (before during after : Db)
      → OwnRows b
      → Fresh fmt b.chain_id b.block_hash before
      → write_block fmt faults b before ≡ (true, during)
      → delete_blocks fmt again b.chain_id (b.block_hash ∷ []) during ≡ (true, after)
      → after ≡ record before { meta = during.meta }
  delete_blocks-write_block faults again b before during after own fresh e f =
      elim (delete_blocks-AllOrNothing fmt b.chain_id again (b.block_hash ∷ []) during) [
        | inr w ↦ cc
        | inl w ↦
            ap (λ r. r.1) (sym f ∙ w)
            ∙ ap (forgotten fmt b.chain_id (b.block_hash ∷ [])) c
            ∙ forgotten-written b before own fresh
            ∙ sym (ap (λ (d : Db). record before { meta = d.meta }) c)
      ]
    where
      c : during ≡ written fmt b before
      c = write_block-committed fmt faults b before during e
