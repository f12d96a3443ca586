-- ===== src/Ledger/Replay.antt =====
-- A block that is written again changes nothing.
use passbook.Prelude.{
  ℕ, ◌≡◌, refl, sym, ap, ◌∙◌, Bool, true, ◌&&◌, ◌==◌, is_some, Option, none, some, List, [], ◌∷◌,
  map, All, arith, inl, inr,
}
use passbook.Prelude.Text.{Text, codes, text_eq, text_eq_iff}
use passbook.Prelude.Decimal.{to_string}
use passbook.Prelude.Hex.{Formats}
use passbook.Model.{
  EthTransferRow, Erc20TransferRow, GasPaymentRow, UnattributedDeltaRow, BlockBatch,
}
use passbook.Ledger.{Db, put_meta, write_block}
use passbook.Ledger.Table.{insert_all-insert_all}
use passbook.Ledger.Rows.{
  same_eth, same_erc20, same_gas, same_unattributed, eth_record, erc20_record, gas_record,
  unattributed_record, map_text, text_opt_eq,
}
use passbook.Ledger.Written.{written, write_block-AllOrNothing, write_block-committed}
use passbook.Ledger.Meta.{put_meta-same, get_last_block, get_last_block_hash}

text_eq_refl : (s : Text) → text_eq s s ≡ true
text_eq_refl s = (text_eq_iff s s).1 refl

-- Every row of a native transfer names a transaction, so that its key holds no NULL.
abbrev pub HasTx : BlockBatch → Type 0
HasTx b = All (λ (r : EthTransferRow). is_some r.tx_hash ≡ true) b.eth

eth_key :
    (fmt : Formats) (r : EthTransferRow)
    → is_some r.tx_hash ≡ true
    → same_eth (eth_record fmt r) (eth_record fmt r) ≡ true
unfolding same_eth eth_record
eth_key fmt r h = keys r.tx_hash h
  where
    keys :
        (o : Option ℕ)
        → is_some o ≡ true
        → (r.chain_id == r.chain_id
            && text_eq (fmt.hex_b256 r.block_hash) (fmt.hex_b256 r.block_hash)
            && text_opt_eq (map_text fmt.hex_b256 o) (map_text fmt.hex_b256 o)
            && text_eq r.trace_path r.trace_path)
          ≡ true
    keys none h = cc
    keys (some t) h = ground (
      arith,
      text_eq_refl (fmt.hex_b256 r.block_hash),
      text_eq_refl (fmt.hex_b256 t),
      text_eq_refl r.trace_path,
    )

module _ (fmt : Formats) where
  eth_keys :
      (rs : List EthTransferRow)
      → All (λ (r : EthTransferRow). is_some r.tx_hash ≡ true) rs
      → All (λ x. same_eth x x ≡ true) (map (eth_record fmt) rs)
  eth_keys [] h = tt
  eth_keys (r ∷ rs) h = (eth_key fmt r h.0, eth_keys rs h.1)

  erc20_keys :
      (rs : List Erc20TransferRow) → All (λ x. same_erc20 x x ≡ true) (map (erc20_record fmt) rs)
  unfolding same_erc20 erc20_record
  erc20_keys [] = tt
  erc20_keys (r ∷ rs) = (
    ground (
      arith,
      text_eq_refl (fmt.hex_b256 r.block_hash),
      text_eq_refl (fmt.hex_b256 r.tx_hash),
      text_eq_refl (fmt.hex_address r.address),
    ),
    erc20_keys rs,
  )

  gas_keys : (rs : List GasPaymentRow) → All (λ x. same_gas x x ≡ true) (map (gas_record fmt) rs)
  unfolding same_gas gas_record
  gas_keys [] = tt
  gas_keys (r ∷ rs) = (
    ground (
      arith,
      text_eq_refl (fmt.hex_b256 r.block_hash),
      text_eq_refl (fmt.hex_b256 r.tx_hash),
      text_eq_refl (fmt.hex_address r.address),
    ),
    gas_keys rs,
  )

  unattributed_keys :
      (rs : List UnattributedDeltaRow)
      → All (λ x. same_unattributed x x ≡ true) (map (unattributed_record fmt) rs)
  unfolding same_unattributed unattributed_record
  unattributed_keys [] = tt
  unattributed_keys (r ∷ rs) = (
    ground
        (arith, text_eq_refl (fmt.hex_b256 r.block_hash), text_eq_refl (fmt.hex_address r.address)),
    unattributed_keys rs,
  )

  written-written :
      (b : BlockBatch) (db : Db) → HasTx b → written fmt b (written fmt b db) ≡ written fmt b db
  written-written b db h = λ k. record {
    eth_transfers =
        insert_all-insert_all same_eth (map (eth_record fmt) b.eth) db.eth_transfers
          (eth_keys b.eth h) k;
    erc20_transfers =
        insert_all-insert_all same_erc20 (map (erc20_record fmt) b.erc20) db.erc20_transfers
          (erc20_keys b.erc20) k;
    gas_payments =
        insert_all-insert_all same_gas (map (gas_record fmt) b.gas) db.gas_payments (gas_keys b.gas)
          k;
    unattributed_deltas =
        insert_all-insert_all same_unattributed (map (unattributed_record fmt) b.unattributed)
          db.unattributed_deltas (unattributed_keys b.unattributed) k;
    meta = meta_same k;
  }
    where
      meta_same : (written fmt b (written fmt b db)).meta ≡ (written fmt b db).meta
      meta_same =
          ap (put_meta (codes "last_block_hash") (fmt.hex_b256 b.block_hash)) (
            put_meta-same (codes "last_block") (to_string b.block_number) (written fmt b db).meta
              (get_last_block fmt b db))
          ∙ put_meta-same (codes "last_block_hash") (fmt.hex_b256 b.block_hash)
              (written fmt b db).meta (get_last_block_hash fmt b db)

  -- Once a block is written, writing the same block again leaves every table and `meta` as they are, in
  -- content and in order, whether the second write succeeds or fails, if every native row of the block
  -- names a transaction.
  pub write_block_replay :
      (faults again : ℕ → Bool) (b : BlockBatch) (before after : Db)
      → HasTx b
      → write_block fmt faults b before ≡ (true, after)
      → (write_block fmt again b after).1 ≡ after
  write_block_replay faults again b before after h e =
      elim (write_block-AllOrNothing fmt again b after) [
        | inr w ↦ ap (λ r. r.1) w
        | inl w ↦ ap (λ r. r.1) w ∙ same
      ]
    where
      c : after ≡ written fmt b before
      c = write_block-committed fmt faults b before after e

      same : written fmt b after ≡ after
      same = ap (written fmt b) c ∙ written-written b before h ∙ sym c
