-- ===== src/Driver/Waits.antt =====
-- What a round that does not get past a block leaves: the ledger but for diagnostic rows, and these: `on_processed` of
-- crates/passbook-core/src/exex.rs when the block does not balance.
use passbook.Prelude.{
  ℕ, ◌*◌, min, subst, ◌≡◌, refl, sym, ap, ◌∙◌, Bool, true, false, List, [], ◌∷◌, All, ◌⊎◌, inl, inr,
}
use passbook.Prelude.Int.{ℤ, unsigned_abs}
use passbook.Prelude.Hex.{Formats}
use passbook.Prelude.Result.{err}
use passbook.Model.{UnattributedDeltaRow, UnattributedDeltaCause}
use passbook.Ledger.Table.{insert_or_replace}
use passbook.Ledger.Rows.{UnattributedRecord, same_unattributed, unattributed_record}
use passbook.Block.Inputs.{ProcessingError, failed}
use passbook.Ledger.{Db, write_unattributed, insert_unattributed}
use passbook.Ledger.Written.{AllOrNothing, transaction-AllOrNothing, transaction-calm, apply_all}
use passbook.Driver.{
  NumHash, Attempt, Driver, Config, settle, on_processed, retry, sleep, backoff_cap, block_round,
  stall_row,
}
use passbook.Driver.Ends.{On, On-weaken, RoundOn}

-- The ledger as it was but for diagnostic rows, the driver where it was.
abbrev pub Waits : Driver → Driver → Type 0
Waits s t =
    (t.high_water ≡ s.high_water)
    × (t.finished_heights ≡ s.finished_heights)
    × (t.db.eth_transfers ≡ s.db.eth_transfers)
    × (t.db.erc20_transfers ≡ s.db.erc20_transfers)
    × (t.db.gas_payments ≡ s.db.gas_payments)
    × (t.db.meta ≡ s.db.meta)

-- The block does not balance.
abbrev pub Unbalanced : NumHash → Attempt → Type 0
Unbalanced b e =
    (n : ℕ) × (a : ℕ) × (r : ℤ) × (e.process_committed_block b
      ≡ err (failed (ProcessingError.unexplained_residual n a r)))

-- SQLite refuses nothing.
abbrev pub Calm : Attempt → Type 0
Calm e = (n : ℕ) → e.faults n ≡ false

module _ (fmt : Formats) (cfg : Config) where
  pub noted :
      (s t : Driver) (row : UnattributedDeltaRow) (r : Bool × Db)
      → Waits s t
      → AllOrNothing t.db (insert_unattributed fmt row t.db) r
      → Waits s (record t { db = r.1 })
  unfolding insert_unattributed
  noted s t row r w (inl e) = (
    w.0,
    w.1,
    ap (λ q. q.1.eth_transfers) e ∙ w.2,
    ap (λ q. q.1.erc20_transfers) e ∙ w.3,
    ap (λ q. q.1.gas_payments) e ∙ w.4,
    ap (λ q. q.1.meta) e ∙ w.5,
  )
  noted s t row r w (inr e) = (
    w.0,
    w.1,
    ap (λ q. q.1.eth_transfers) e ∙ w.2,
    ap (λ q. q.1.erc20_transfers) e ∙ w.3,
    ap (λ q. q.1.gas_payments) e ∙ w.4,
    ap (λ q. q.1.meta) e ∙ w.5,
  )

  pub stall_round :
      (b : NumHash) (s : Driver) (x : Attempt)
      → Unbalanced b x
      → (t : Driver) → Waits s t
      → RoundOn (λ _. ⊥) (Waits s) (block_round fmt cfg b x t)
  unfolding block_round write_unattributed apply_all
  stall_round b s x (n, a, r, h) t w = rw h (
      noted s t (stall_row fmt cfg b n a r) _ w (
        transaction-AllOrNothing x.faults (insert_unattributed fmt (stall_row fmt cfg b n a r) ∷ [])
          t.db))

  -- The diagnostic row of a block of which a is left with the residual r.
  abbrev pub diagnostic : NumHash → ℕ → ℕ → ℤ → UnattributedDeltaRow
  diagnostic b n a r = record {
    chain_id = cfg.chain_id;
    block_number = n;
    block_hash = b.hash;
    address = a;
    observed_wei = unsigned_abs r;
    attributed_wei = 0;
    residual_wei = unsigned_abs r;
    cause = UnattributedDeltaCause.unexplained_residual;
  }

  -- The rows with the diagnostic one of a round, which is missing only where SQLite refuses something.
  abbrev pub RoundNoted :
      NumHash → Attempt → List UnattributedRecord → List UnattributedRecord → Type 0
  RoundNoted b e before after =
      (n : ℕ) × (a : ℕ) × (r : ℤ) × (e.process_committed_block b
        ≡ err (failed (ProcessingError.unexplained_residual n a r)))
      × ((after
            ≡ insert_or_replace same_unattributed (unattributed_record fmt (diagnostic b n a r))
                before)
          ⊎ ((¬ Calm e) × (after ≡ before)))

  abbrev pub Diagnosed :
      NumHash → List Attempt → List UnattributedRecord → List UnattributedRecord → Type 0
  Diagnosed b [] before after = after ≡ before
  Diagnosed b (e ∷ es) before after =
      (now : List UnattributedRecord) × RoundNoted b e before now × Diagnosed b es now after

  noted_row :
      (b : NumHash) (e : Attempt) (n a : ℕ) (r : ℤ) (db : Db)
      → e.process_committed_block b ≡ err (failed (ProcessingError.unexplained_residual n a r))
      → RoundNoted b e db.unattributed_deltas
          (write_unattributed fmt e.faults (stall_row fmt cfg b n a r) db).1.unattributed_deltas
  unfolding write_unattributed insert_unattributed apply_all
  noted_row b e n a r db h = (
    n,
    a,
    r,
    h,
    elim (transaction-AllOrNothing e.faults
        (insert_unattributed fmt (stall_row fmt cfg b n a r) ∷ []) db) [
          | inl w ↦ inl (ap (λ q. q.1.unattributed_deltas) w)
          | inr w ↦ inr (
            (λ calm. refuted (
                ap (λ q. q.0) (sym w)
                ∙ ap (λ q. q.0)
                    (transaction-calm e.faults
                      (insert_unattributed fmt (stall_row fmt cfg b n a r) ∷ []) db calm))),
            ap (λ q. q.1.unattributed_deltas) w,
          )
        ],
  )
    where
      refuted : false ≡ true → ⊥
      refuted h = cc

  pub retry-Diagnosed :
      (b : NumHash) (es : List Attempt) (backoff : ℕ) (s : Driver)
      → All (Unbalanced b) es
      → On
          (λ _. ⊥)
          (λ t. Diagnosed b es s.db.unattributed_deltas t.db.unattributed_deltas)
          (λ _. ⊥)
          (retry (block_round fmt cfg b) es backoff s)
  unfolding retry block_round
  retry-Diagnosed b [] backoff s u = refl
  retry-Diagnosed b (e ∷ es) backoff s ((n, a, r, h), u) =
      let noted_db = (write_unattributed fmt e.faults (stall_row fmt cfg b n a r) s.db).1 in
      subst
        (λ r.
          On (λ _. ⊥) (λ t. Diagnosed b (e ∷ es) s.db.unattributed_deltas t.db.unattributed_deltas)
            (λ _. ⊥)
            (settle es
              (λ t.
                retry (block_round fmt cfg b) es (min (backoff * 2) backoff_cap) (sleep backoff t))
              r))
        (ap (on_processed fmt cfg b e s) (sym h))
        (On-weaken (λ _. ⊥) (λ _. ⊥)
          (λ t. Diagnosed b es noted_db.unattributed_deltas t.db.unattributed_deltas) _ (λ _. ⊥)
          (λ _. ⊥) (λ _ q. q) (λ t q. (noted_db.unattributed_deltas, noted_row b e n a r s.db h, q))
          (λ _ q. q)
          (retry (block_round fmt cfg b) es (min (backoff * 2) backoff_cap)
            (sleep backoff (record s { db = noted_db })))
          (retry-Diagnosed b es (min (backoff * 2) backoff_cap)
            (sleep backoff (record s { db = noted_db })) u))
