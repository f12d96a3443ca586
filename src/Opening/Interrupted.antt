-- ===== src/Opening/Interrupted.antt =====
-- The creation of a ledger by `Ledger::open` (crates/passbook-core/src/ledger/mod.rs), whose statements are no
-- transaction: what is left where it is interrupted.
use passbook.Prelude.{
  ℕ, ◌≡◌, refl, sym, subst, Bool, true, false, Option, none, some, List, [], ◌∷◌, inl, inr, ◌⊎◌,
  if◌then◌else◌,
}
use passbook.Prelude.Text.{Text, codes, text_eq}
use passbook.Prelude.Decimal.{to_string}
use passbook.Prelude.Result.{ok, err}
use passbook.Ledger.{get_meta}
use passbook.Opening.Statements.{
  DbFile, with_address, with_cause, create_meta, create_eth, create_erc20, create_gas,
  create_unattributed, insert_meta,
}
use passbook.Opening.{
  Refusals, Opened, OpenError, sqlite, run_each, creation, migrate, check_version, check_chain,
  upgrade, open_ledger,
}

-- A database file that SQLite has just created.
abbrev pub no_tables : DbFile
no_tables = record {
  meta = none;
  eth_transfers = none;
  erc20_transfers = none;
  erc20_transfers_v2 = none;
  gas_payments = none;
  unattributed_deltas = none;
}

abbrev pub new_meta : ℕ → List (Text × Text)
new_meta chain_id =
    (codes "schema_version", codes "3") ∷ (codes "chain_id", to_string chain_id) ∷ []

abbrev pub new_ledger : ℕ → DbFile
new_ledger chain_id = record {
  meta = some (new_meta chain_id);
  eth_transfers = some [];
  erc20_transfers = some (with_address, []);
  erc20_transfers_v2 = none;
  gas_payments = some [];
  unattributed_deltas = some (with_cause []);
}

-- How far a creation that failed has come.
abbrev pub Partial : Option (List (Text × Text)) → Type 0
Partial meta =
    (meta ≡ none) ⊎ (meta ≡ some []) ⊎ (meta ≡ some ((codes "schema_version", codes "3") ∷ []))

abbrev pub Created : ℕ → Opened → Type 0
Created chain_id o = (o ≡ (ok tt, new_ledger chain_id)) ⊎ ((o.0 ≡ err sqlite) × Partial o.1.meta)

stop_or_go :
    (chain_id : ℕ) (refused : Bool) (file : DbFile) (rest : Opened)
    → Partial file.meta
    → Created chain_id rest
    → Created chain_id (if refused then (err sqlite, file) else rest)
stop_or_go chain_id true file rest p c = inr (refl, p)
stop_or_go chain_id false file rest p c = c

create_cases :
    (refused : ℕ → Bool) (chain_id : ℕ)
    → Created chain_id (run_each refused 0 (creation chain_id) no_tables)
unfolding run_each create_meta create_eth create_erc20 create_gas create_unattributed insert_meta
    get_meta text_eq
create_cases refused chain_id = stop_or_go chain_id (refused 0) _ _ (inl refl) (
    stop_or_go chain_id (refused 1) _ _ empty (
      stop_or_go chain_id (refused 2) _ _ empty (
        stop_or_go chain_id (refused 3) _ _ empty (
          stop_or_go chain_id (refused 4) _ _ empty (
            stop_or_go chain_id (refused 5) _ _ empty
              (stop_or_go chain_id (refused 6) _ _ (inr (inr refl)) (inl refl)))))))
  where
    empty : Partial (some [])
    empty = inr (inl refl)

-- An answer that is an error.
pub data Fails (o : Opened) : Type 0 where
  failing : (e : OpenError) → o.0 ≡ err e → Fails o

refused_or :
    (refused : Bool) (file : DbFile) (rest : Opened)
    → Fails rest
    → Fails (if refused then (err sqlite, file) else rest)
refused_or true file rest h = failing sqlite refl
refused_or false file rest h = h

-- A file whose `meta` lacks the version or the chain is refused whatever the rest of it holds.
abbrev NeverOpens : List (Text × Text) → Type 0
NeverOpens m =
    (r : Refusals) (chain_id : ℕ) (file : DbFile)
    → Fails (open_ledger r chain_id (record file { meta = some m }))

no_version_never : NeverOpens []
unfolding open_ledger upgrade migrate get_meta
no_version_never r chain_id file =
    refused_or r.pragmas _ _
      (refused_or (r.queries 0) _ _ (refused_or (r.queries 1) _ _ (failing sqlite refl)))

no_chain_never : NeverOpens ((codes "schema_version", codes "3") ∷ [])
unfolding open_ledger upgrade migrate check_version check_chain get_meta text_eq
no_chain_never r chain_id file = refused_or r.pragmas _ _ (
    refused_or (r.queries 0) _ _ (
      refused_or (r.queries 1) _ _ (
        refused_or (r.queries 2) _ _
          (refused_or (r.queries 3) _ _ (refused_or (r.queries 4) _ _ (failing sqlite refl))))))

put_back :
    (m : List (Text × Text)) (file : DbFile)
    → NeverOpens m
    → file.meta ≡ some m
    → (r : Refusals) (chain_id : ℕ) → Fails (open_ledger r chain_id file)
put_back m file never e r chain_id =
    subst (λ (f : DbFile). Fails (open_ledger r chain_id f)) (λ i. record file { meta = sym e i })
      (never r chain_id file)

open_cases : (r : Refusals) (chain_id : ℕ) → Created chain_id (open_ledger r chain_id no_tables)
unfolding open_ledger
open_cases r chain_id =
    stop_or_go chain_id r.pragmas _ _ (inl refl)
      (stop_or_go chain_id (r.queries 0) _ _ (inl refl) (create_cases r.creation chain_id))

outcome :
    (chain_id : ℕ) (o : Opened)
    → Created chain_id o
    → (o ≡ (ok tt, new_ledger chain_id))
      ⊎ ((o.0 ≡ err sqlite)
          × ((o.1.meta ≡ none)
              ⊎ ((later : Refusals) (other : ℕ) → Fails (open_ledger later other o.1))))
outcome chain_id o (inl done) = inl done
outcome chain_id o (inr (e, inl nothing)) = inr (e, inl nothing)
outcome chain_id o (inr (e, inr (inl bare))) = inr (e, inr (put_back [] o.1 no_version_never bare))
outcome chain_id o (inr (e, inr (inr half))) = inr (e, inr (put_back _ o.1 no_chain_never half))

-- A new ledger is created whole, at version 3 and for its chain, or `open` fails; and if it fails once `meta`
-- has been created, no later `open` of the file succeeds, for whatever chain.
pub open_ledger-Interrupted :
    (r : Refusals) (chain_id : ℕ)
    → (open_ledger r chain_id no_tables ≡ (ok tt, new_ledger chain_id))
      ⊎ (((open_ledger r chain_id no_tables).0 ≡ err sqlite)
          × (((open_ledger r chain_id no_tables).1.meta ≡ none)
              ⊎ ((later : Refusals) (other : ℕ)
                  → Fails (open_ledger later other (open_ledger r chain_id no_tables).1))))
open_ledger-Interrupted r chain_id =
    outcome chain_id (open_ledger r chain_id no_tables) (open_cases r chain_id)
