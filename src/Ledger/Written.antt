-- ===== src/Ledger/Written.antt =====
-- What the writers of the ledger leave: all of their changes, or none.
use passbook.Prelude.{
  ℕ, suc, ◌≡◌, ◌⊎◌, inl, inr, refl, sym, ap, subst, ◌∙◌, Bool, true, false, none, some, List, [],
  ◌∷◌, ◌++◌, map, Bool-cases,
}
use passbook.Prelude.Text.{codes}
use passbook.Prelude.Decimal.{to_string}
use passbook.Prelude.Hex.{Formats}
use passbook.Model.{
  EthTransferRow, Erc20TransferRow, GasPaymentRow, UnattributedDeltaRow, BlockBatch,
}
use passbook.Ledger.Table.{insert_all}
use passbook.Ledger.Rows.{
  same_eth, same_erc20, same_gas, same_unattributed, eth_record, erc20_record, gas_record,
  unattributed_record,
}
use passbook.Ledger.{
  Db, put_meta, Statement, run_statements, transaction, insert_eth, insert_erc20, insert_gas,
  insert_unattributed, set_last_block, set_last_block_hash, block_statements, write_block,
}

-- The statements one after the other.
unfoldable pub apply_all : List Statement → Db → Db
apply_all [] db = db
apply_all (s ∷ ss) db = apply_all ss (s db)

abbrev pub AllOrNothing : Db → Db → Bool × Db → Type 0
AllOrNothing before after r = (r ≡ (true, after)) ⊎ (r ≡ (false, before))

run_statements-cases :
    (faults : ℕ → Bool) (k : ℕ) (ss : List Statement) (db : Db)
    → (run_statements faults k ss db ≡ some (apply_all ss db))
      ⊎ (run_statements faults k ss db ≡ none)
unfolding run_statements apply_all
run_statements-cases faults k [] db = elim (Bool-cases (faults k)) [
  | inl e ↦ inr (rw e refl)
  | inr e ↦ inl (rw e refl)
]
run_statements-cases faults k (s ∷ ss) db = elim (Bool-cases (faults k)) [
  | inl e ↦ inr (rw e refl)
  | inr e ↦ rw e (run_statements-cases faults (suc k) ss (s db))
]

run_statements-calm :
    (faults : ℕ → Bool) (k : ℕ) (ss : List Statement) (db : Db)
    → ((n : ℕ) → faults n ≡ false)
    → run_statements faults k ss db ≡ some (apply_all ss db)
unfolding run_statements apply_all
run_statements-calm faults k [] db h = rw (h k) refl
run_statements-calm faults k (s ∷ ss) db h =
    rw (h k) (run_statements-calm faults (suc k) ss (s db) h)

pub transaction-AllOrNothing :
    (faults : ℕ → Bool) (ss : List Statement) (db : Db)
    → AllOrNothing db (apply_all ss db) (transaction faults ss db)
unfolding transaction
transaction-AllOrNothing faults ss db = elim (run_statements-cases faults 0 ss db) [
  | inl e ↦ inl (rw e refl)
  | inr e ↦ inr (rw e refl)
]

pub transaction-calm :
    (faults : ℕ → Bool) (ss : List Statement) (db : Db)
    → ((n : ℕ) → faults n ≡ false)
    → transaction faults ss db ≡ (true, apply_all ss db)
unfolding transaction
transaction-calm faults ss db h = rw (run_statements-calm faults 0 ss db h) refl

module _ (fmt : Formats) where
  -- The database with the batch in it, table by table.
  abbrev pub written : BlockBatch → Db → Db
  written b db = record {
    eth_transfers = insert_all same_eth (map (eth_record fmt) b.eth) db.eth_transfers;
    erc20_transfers = insert_all same_erc20 (map (erc20_record fmt) b.erc20) db.erc20_transfers;
    gas_payments = insert_all same_gas (map (gas_record fmt) b.gas) db.gas_payments;
    unattributed_deltas =
        insert_all same_unattributed (map (unattributed_record fmt) b.unattributed)
          db.unattributed_deltas;
    meta =
        put_meta (codes "last_block_hash") (fmt.hex_b256 b.block_hash)
          (put_meta (codes "last_block") (to_string b.block_number) db.meta);
  }

  apply_all-eth :
      (rs : List EthTransferRow) (ss : List Statement) (db : Db)
      → apply_all (map (insert_eth fmt) rs ++ ss) db
        ≡ apply_all ss (record db {
          eth_transfers = insert_all same_eth (map (eth_record fmt) rs) db.eth_transfers;
        })
  unfolding apply_all insert_eth insert_all
  apply_all-eth [] ss db = refl
  apply_all-eth (r ∷ rs) ss db = apply_all-eth rs ss (insert_eth fmt r db)

  apply_all-erc20 :
      (rs : List Erc20TransferRow) (ss : List Statement) (db : Db)
      → apply_all (map (insert_erc20 fmt) rs ++ ss) db
        ≡ apply_all ss (record db {
          erc20_transfers = insert_all same_erc20 (map (erc20_record fmt) rs) db.erc20_transfers;
        })
  unfolding apply_all insert_erc20 insert_all
  apply_all-erc20 [] ss db = refl
  apply_all-erc20 (r ∷ rs) ss db = apply_all-erc20 rs ss (insert_erc20 fmt r db)

  apply_all-gas :
      (rs : List GasPaymentRow) (ss : List Statement) (db : Db)
      → apply_all (map (insert_gas fmt) rs ++ ss) db
        ≡ apply_all ss (record db {
          gas_payments = insert_all same_gas (map (gas_record fmt) rs) db.gas_payments;
        })
  unfolding apply_all insert_gas insert_all
  apply_all-gas [] ss db = refl
  apply_all-gas (r ∷ rs) ss db = apply_all-gas rs ss (insert_gas fmt r db)

  apply_all-unattributed :
      (rs : List UnattributedDeltaRow) (ss : List Statement) (db : Db)
      → apply_all (map (insert_unattributed fmt) rs ++ ss) db
        ≡ apply_all ss (record db {
          unattributed_deltas =
              insert_all same_unattributed
                (map (unattributed_record fmt) rs)
                db.unattributed_deltas;
        })
  unfolding apply_all insert_unattributed insert_all
  apply_all-unattributed [] ss db = refl
  apply_all-unattributed (r ∷ rs) ss db =
      apply_all-unattributed rs ss (insert_unattributed fmt r db)

  apply_all-meta :
      (n h : ℕ) (db : Db)
      → apply_all (set_last_block n ∷ set_last_block_hash fmt h ∷ []) db ≡ record db {
        meta =
            put_meta
              (codes "last_block_hash")
              (fmt.hex_b256 h)
              (put_meta (codes "last_block") (to_string n) db.meta);
      }
  unfolding apply_all set_last_block set_last_block_hash
  apply_all-meta n h db = refl

  pub apply_all-written :
      (b : BlockBatch) (db : Db) → apply_all (block_statements fmt b) db ≡ written b db
  apply_all-written b db =
      rw
        (
          apply_all-eth b.eth,
          apply_all-erc20 b.erc20,
          apply_all-gas b.gas,
          apply_all-unattributed b.unattributed,
          apply_all-meta,
        )
        refl

  -- Whatever statement or commit SQLite refuses, a block is in the database whole, each table holding its
  -- rows and `meta` naming it, and the writer reports success; or the database is as it was and the
  -- writer reports the failure.
  pub write_block-AllOrNothing :
      (faults : ℕ → Bool) (b : BlockBatch) (db : Db)
      → AllOrNothing db (written b db) (write_block fmt faults b db)
  unfolding write_block
  write_block-AllOrNothing faults b db =
      subst (λ t. AllOrNothing db t (transaction faults (block_statements fmt b) db))
        (apply_all-written b db) (transaction-AllOrNothing faults (block_statements fmt b) db)

  pub write_block-committed :
      (faults : ℕ → Bool) (b : BlockBatch) (before after : Db)
      → write_block fmt faults b before ≡ (true, after)
      → after ≡ written b before
  write_block-committed faults b before after e = elim (write_block-AllOrNothing faults b before) [
    | inl w ↦ ap (λ r. r.1) (sym e ∙ w)
    | inr w ↦ cc
  ]

  pub write_block_calm :
      (faults : ℕ → Bool) (b : BlockBatch) (db : Db)
      → ((n : ℕ) → faults n ≡ false)
      → write_block fmt faults b db ≡ (true, written b db)
  unfolding write_block
  write_block_calm faults b db h =
      transaction-calm faults (block_statements fmt b) db h
      ∙ ap (λ d. (true, d)) (apply_all-written b db)
