-- ===== src/Opening.antt =====
-- Opening the ledger: `Ledger::open` of crates/passbook-core/src/ledger/mod.rs. The pragmas are one call of
-- SQLite, which may be refused like every other.
pub mod Statements
pub mod Versions
pub mod Whole
pub mod Recovers
pub mod Interrupted
use passbook.Prelude.{ℕ, suc, Bool, true, false, Option, none, some, List, [], ◌∷◌, if◌then◌else◌}
use passbook.Prelude.Text.{Text, codes, text_eq}
use passbook.Prelude.Decimal.{to_string}
use passbook.Prelude.Result.{Result, ok, err}
use passbook.Ledger.{get_meta}
use passbook.Opening.Statements.{
  DbFile, FileStatement, create_meta, create_eth, create_erc20, create_gas, create_unattributed,
  insert_meta, set_version, create_erc20_v2, copy_erc20, drop_erc20, rename_erc20,
  alter_unattributed,
}

pub data OpenError : Type 0 where
  sqlite : OpenError
  unsupported_version : Text → OpenError
  chain_id_mismatch : Text → ℕ → OpenError

-- What is refused while the ledger is opened: the pragmas, the k-th query, the k-th statement of the
-- creation, and the k-th of each migration, the commit being the last.
pub record Refusals : Type 0 where
  pub pragmas : Bool
  pub queries : ℕ → Bool
  pub creation : ℕ → Bool
  pub to_v2 : ℕ → Bool
  pub to_v3 : ℕ → Bool

-- The answer of `open` with the file that it leaves.
abbrev pub Opened : Type 0
Opened = Result OpenError (Unit {0}) × DbFile

-- `?` on a statement or a transaction: where it fails, `open` returns and leaves the file as it was.
abbrev pub then_on : DbFile → Option DbFile → (DbFile → Opened) → Opened
then_on file none next = (err sqlite, file)
then_on file (some file') next = next file'

-- Statements outside a transaction: each is durable by itself, also where a later one is refused.
unfoldable pub run_each : (ℕ → Bool) → ℕ → List FileStatement → DbFile → Opened
run_each refused k [] file = (ok tt, file)
run_each refused k (s ∷ ss) file =
    if refused k then (err sqlite, file) else then_on file (s file) (run_each refused (suc k) ss)

abbrev pub bind_file : Option DbFile → FileStatement → Option DbFile
bind_file none next = none
bind_file (some file) next = next file

-- Statements in a transaction: what they lead to when it is committed.
unfoldable pub run_all : (ℕ → Bool) → ℕ → List FileStatement → FileStatement
run_all refused k [] file = if refused k then none else some file
run_all refused k (s ∷ ss) file =
    if refused k then none else bind_file (s file) (run_all refused (suc k) ss)

abbrev pub creation : ℕ → List FileStatement
creation chain_id =
    create_meta
    ∷ create_eth
    ∷ create_erc20
    ∷ create_gas
    ∷ create_unattributed
    ∷ insert_meta (codes "schema_version") (codes "3")
    ∷ insert_meta (codes "chain_id") (to_string chain_id)
    ∷ []

abbrev pub migrate_v1_to_v2 : List FileStatement
migrate_v1_to_v2 =
    create_erc20_v2 ∷ copy_erc20 ∷ drop_erc20 ∷ rename_erc20 ∷ set_version (codes "2") ∷ []

abbrev pub migrate_v2_to_v3 : List FileStatement
migrate_v2_to_v3 = alter_unattributed ∷ set_version (codes "3") ∷ []

-- `SELECT v FROM meta WHERE k=key`, where no row and no table are errors
abbrev pub select_in : Text → Option (List (Text × Text)) → Option Text
select_in key none = none
select_in key (some m) = get_meta key m

abbrev pub with_text : DbFile → Option Text → (Text → Opened) → Opened
with_text file none next = (err sqlite, file)
with_text file (some v) next = next v

abbrev pub select_meta : Bool → Text → DbFile → (Text → Opened) → Opened
select_meta refused key file next =
    if refused then (err sqlite, file) else with_text file (select_in key file.meta) next

-- A migration that is run only at the version before it.
unfoldable pub migrate :
    Bool → Text → (ℕ → Bool) → List FileStatement → DbFile → (DbFile → Opened) → Opened
unfolding get_meta text_eq run_all
migrate refused version steps statements file next =
    select_meta refused (codes "schema_version") file λ v.
      if text_eq v version then then_on file (run_all steps 0 statements file) next else next file

unfoldable pub check_chain : Bool → ℕ → DbFile → Opened
unfolding get_meta text_eq
check_chain refused chain_id file = select_meta refused (codes "chain_id") file λ stored.
    if text_eq stored (to_string chain_id)
    then (ok tt, file)
    else (err (chain_id_mismatch stored chain_id), file)

unfoldable pub check_version : Bool → DbFile → Opened → Opened
unfolding get_meta text_eq
check_version refused file next =
    select_meta refused (codes "schema_version") file
      λ v. if text_eq v (codes "3") then next else (err (unsupported_version v), file)

-- A file that has the table `meta` is taken for a ledger.
abbrev pub create_or_upgrade {ℓ} : {A : Type ℓ} → Option A → Opened → Opened → Opened
create_or_upgrade none create upgrade = create
create_or_upgrade (some m) create upgrade = upgrade

unfoldable pub upgrade : Refusals → ℕ → DbFile → Opened
unfolding migrate check_version check_chain
upgrade r chain_id file = migrate (r.queries 1) (codes "1") r.to_v2 migrate_v1_to_v2 file λ file'.
    migrate (r.queries 2) (codes "2") r.to_v3 migrate_v2_to_v3 file'
      λ file''. check_version (r.queries 3) file'' (check_chain (r.queries 4) chain_id file'')

unfoldable pub open_ledger : Refusals → ℕ → DbFile → Opened
unfolding upgrade run_each
open_ledger r chain_id file =
    if r.pragmas
    then (err sqlite, file)
    else if r.queries 0
    then (err sqlite, file)
    else create_or_upgrade file.meta (run_each r.creation 0 (creation chain_id) file)
        (upgrade r chain_id file)
