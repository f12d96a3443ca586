-- ===== src/Opening/Versions.antt =====
-- A ledger is never half migrated: `Ledger::open` (crates/passbook-core/src/ledger/mod.rs) on files of the
-- versions 1 to 3.
use passbook.Prelude.{
  ℕ, suc, ◌≡◌, refl, sym, ap, ◌∙◌, Bool, false, Option, none, some, List, [], ◌∷◌, map, All, arith,
  Bool-cases, inl, inr, ◌⊎◌,
}
use passbook.Prelude.Text.{Text, codes, text_eq, text_eq_iff}
use passbook.Ledger.{get_meta}
use passbook.Ledger.Rows.{EthRecord, Erc20Record, GasRecord, UnattributedRecord, same_erc20}
use passbook.Opening.Statements.{
  DbFile, FileStatement, UncausedRecord, without_address, with_address, without_cause, with_cause,
  same_erc20_v1, update_meta, has_duplicate, add_cause, set_version, create_erc20_v2, copy_erc20,
  drop_erc20, rename_erc20, alter_unattributed,
}
use passbook.Opening.{run_all, bind_file, migrate_v1_to_v2, migrate_v2_to_v3}

pub get_meta-update_meta_self :
    (k v : Text) (m : List (Text × Text)) {old : Text}
    → get_meta k m ≡ some old
    → get_meta k (update_meta k v m) ≡ some v
unfolding get_meta update_meta
get_meta-update_meta_self k v [] h = cc
get_meta-update_meta_self k v ((j, w) ∷ m) h = elim (Bool-cases (text_eq j k)) [
  | inl e ↦ rw e refl
  | inr e ↦ rw e (get_meta-update_meta_self k v m (sym (rw e refl) ∙ h))
]

pub get_meta-update_meta_other :
    (k j v : Text) (m : List (Text × Text))
    → text_eq k j ≡ false
    → get_meta j (update_meta k v m) ≡ get_meta j m
unfolding get_meta update_meta
get_meta-update_meta_other k j v [] h = refl
get_meta-update_meta_other k j v ((i, w) ∷ m) h = ground (
  arith,
  text_eq_iff k i,
  text_eq_iff j i,
  text_eq_iff k j,
  text_eq_iff i k,
  text_eq_iff i j,
  get_meta-update_meta_other k j v m h,
)

pub update_meta-update_meta :
    (k v w : Text) (m : List (Text × Text))
    → update_meta k w (update_meta k v m) ≡ update_meta k w m
unfolding update_meta
update_meta-update_meta k v w [] = refl
update_meta-update_meta k v w ((j, x) ∷ m) = ground (arith, update_meta-update_meta k v w m)

cases_of_next :
    (o : Option DbFile) (next calm : FileStatement)
    → ((file : DbFile) → (next file ≡ none) ⊎ (next file ≡ calm file))
    → (bind_file o next ≡ none) ⊎ (bind_file o next ≡ bind_file o calm)
cases_of_next none next calm h = inl refl
cases_of_next (some file) next calm h = h file

-- A transaction is committed whole or leaves nothing.
pub run_all_cases :
    (refused : ℕ → Bool) (k : ℕ) (ss : List FileStatement) (file : DbFile)
    → (run_all refused k ss file ≡ none)
      ⊎ (run_all refused k ss file ≡ run_all (λ _. false) k ss file)
unfolding run_all
run_all_cases refused k [] file = elim (Bool-cases (refused k)) [
  | inl e ↦ inl (rw e refl)
  | inr e ↦ inr (rw e refl)
]
run_all_cases refused k (s ∷ ss) file = elim (Bool-cases (refused k)) [
  | inl e ↦ inl (rw e refl)
  | inr e ↦ rw e (cases_of_next (s file) _ _ (λ f. run_all_cases refused (suc k) ss f))
]

-- A ledger with these rows, at each version: `meta` is that of any ledger, with the version written into it.
pub data Version : Type 0 where
  v1 v2 v3 : Version

abbrev pub version_text : Version → Text
version_text v1 = codes "1"
version_text v2 = codes "2"
version_text v3 = codes "3"

-- What such a ledger holds. Before version 3 the diagnostic rows have no cause.
pub record Contents : Type 0 where
  pub meta : List (Text × Text)
  pub eth : List EthRecord
  pub erc20 : List Erc20Record
  pub gas : List GasRecord
  pub deltas : List UnattributedRecord

abbrev pub drop_cause : UnattributedRecord → UncausedRecord
drop_cause r = record {
  chain_id = r.chain_id;
  block_number = r.block_number;
  block_hash = r.block_hash;
  address = r.address;
  observed_wei = r.observed_wei;
  attributed_wei = r.attributed_wei;
  residual_wei = r.residual_wei;
}

abbrev pub HasDefault : UnattributedRecord → Type 0
HasDefault r = r.cause ≡ codes "unexplained_residual"

restored :
    (rs : List UnattributedRecord) → All HasDefault rs → map add_cause (map drop_cause rs) ≡ rs
unfolding add_cause
restored [] h = refl
restored (r ∷ rs) h = let e = sym h.0 in λ k. record r { cause = e k } ∷ restored rs h.1 k

module _ (l : Contents) where
  open l use {meta as m, eth, erc20, gas, deltas}

  abbrev pub meta_at : Version → List (Text × Text)
  meta_at v = update_meta (codes "schema_version") (version_text v) m

  abbrev pub ledger_at : Version → DbFile
  ledger_at v1 = record {
    meta = some (meta_at v1);
    eth_transfers = some eth;
    erc20_transfers = some (without_address, erc20);
    erc20_transfers_v2 = none;
    gas_payments = some gas;
    unattributed_deltas = some (without_cause (map drop_cause deltas));
  }
  ledger_at v2 = record {
    meta = some (meta_at v2);
    eth_transfers = some eth;
    erc20_transfers = some (with_address, erc20);
    erc20_transfers_v2 = none;
    gas_payments = some gas;
    unattributed_deltas = some (without_cause (map drop_cause deltas));
  }
  ledger_at v3 = record {
    meta = some (meta_at v3);
    eth_transfers = some eth;
    erc20_transfers = some (with_address, erc20);
    erc20_transfers_v2 = none;
    gas_payments = some gas;
    unattributed_deltas = some (with_cause deltas);
  }

  pub to_v2 :
      has_duplicate same_erc20 erc20 ≡ false
      → run_all (λ _. false) 0 migrate_v1_to_v2 (ledger_at v1) ≡ some (ledger_at v2)
  unfolding run_all create_erc20_v2 copy_erc20 drop_erc20 rename_erc20 set_version
  to_v2 h = rw h (
      ap (λ (t : List (Text × Text)). some (record (ledger_at v2) { meta = some t }))
        (update_meta-update_meta (codes "schema_version") (codes "1") (codes "2") m))

  pub to_v3 :
      All HasDefault deltas
      → run_all (λ _. false) 0 migrate_v2_to_v3 (ledger_at v2) ≡ some (ledger_at v3)
  unfolding run_all alter_unattributed set_version
  to_v3 h = λ k. some (record (ledger_at v3) {
    meta = some (update_meta-update_meta (codes "schema_version") (codes "2") (codes "3") m k);
    unattributed_deltas = some (with_cause (restored deltas h k));
  })

  -- Which ledgers there are of a version: before version 2 no two rows have the narrow key, and before version 3
  -- every cause is the default one.
  abbrev pub Possible : Version → Type 0
  Possible v1 = (has_duplicate same_erc20_v1 erc20 ≡ false) × All HasDefault deltas
  Possible v2 = All HasDefault deltas
  Possible v3 = Unit
