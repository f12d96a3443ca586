-- ===== src/Start.antt =====
-- Starting the node: the closure in `main` of crates/bin/reth-passbook/src/main.rs, which that of
-- crates/bin/op-reth-passbook/src/main.rs repeats. Builders and the command line are those of reth.
use passbook.Prelude.{ℕ, ◌≡◌, refl, List, [], ◌∷◌, All, ==_refl, if◌then◌else◌, inl, inr, arith}
use passbook.Prelude.Text.{Text}
use passbook.Prelude.Result.{Result, ok, err}
use passbook.Config.{AddressFormat, ConfigError, PassbookConfig, trim, enabled_set, from_parts}
use passbook.Config.Answers.{Answers, FirstRefused, Named, Watches, from_parts-Answers}
use passbook.Opening.Statements.{DbFile}
use passbook.Opening.{OpenError, Refusals, Opened, open_ledger}

pub data StartError : Type 0 where
  config_error : ConfigError → StartError
  open_error : OpenError → StartError

-- What is launched: the stock node, or one with the ExEx and the RPC namespace, which share the ledger.
pub data Node : Type 0 where
  stock : Node
  with_passbook : PassbookConfig → ℕ → Node

abbrev pub Started : Type 0
Started = Result StartError Node × DbFile

abbrev pub launch_on : PassbookConfig → ℕ → Opened → Started
launch_on cfg chain_id (err e, file) = (err (open_error e), file)
launch_on cfg chain_id (ok done, file) = (ok (with_passbook cfg chain_id), file)

abbrev pub launch : Refusals → ℕ → DbFile → Result ConfigError PassbookConfig → Started
launch r chain_id file (err e) = (err (config_error e), file)
launch r chain_id file (ok cfg) =
    if enabled_set cfg.watched
    then launch_on cfg chain_id (open_ledger r chain_id file)
    else (ok stock, file)

module _ (f : AddressFormat) where
  -- The file is the one at `db_path`.
  unfoldable pub start : List Text → Text → Refusals → ℕ → DbFile → Started
  unfolding enabled_set
  start addrs db_path r chain_id file = launch r chain_id file (from_parts f addrs db_path)

  -- An entry that names a watched address.
  abbrev pub SomeNamed : List Text → Type 0
  SomeNamed addrs = (n : ℕ) × Named f addrs n

  -- The three modes, and the two failures.
  abbrev pub Modes : List Text → Text → Refusals → ℕ → DbFile → Started → Type 0
  Modes addrs db_path r chain_id file (err (config_error e), file') =
      FirstRefused f addrs e × (file' ≡ file)
  Modes addrs db_path r chain_id file (err (open_error e), file') =
      SomeNamed addrs × (open_ledger r chain_id file ≡ (err e, file'))
  Modes addrs db_path r chain_id file (ok stock, file') =
      All (λ a. trim a ≡ []) addrs × (file' ≡ file)
  Modes addrs db_path r chain_id file (ok (with_passbook cfg chain), file') =
      SomeNamed addrs
      × Answers f addrs db_path (ok cfg)
      × (chain ≡ chain_id)
      × (open_ledger r chain_id file ≡ (ok tt, file'))

  blank_of_unwatched : (addrs : List Text) → All (Watches f []) addrs → All (λ a. trim a ≡ []) addrs
  blank_of_unwatched [] h = tt
  blank_of_unwatched (a ∷ addrs) (inl e, h) = (e, blank_of_unwatched addrs h)
  blank_of_unwatched (a ∷ addrs) (inr (n, e, c), h) = cc

  launched :
      (addrs : List Text) (db_path : Text) (r : Refusals) (chain_id : ℕ) (file : DbFile)
      (cfg : PassbookConfig) (o : Opened)
      → SomeNamed addrs
      → Answers f addrs db_path (ok cfg)
      → open_ledger r chain_id file ≡ o
      → Modes addrs db_path r chain_id file (launch_on cfg chain_id o)
  launched addrs db_path r chain_id file cfg (err e, file') n a h = (n, h)
  launched addrs db_path r chain_id file cfg (ok done, file') n a h = (n, a, refl, h)

  configured :
      (addrs : List Text) (db_path : Text) (r : Refusals) (chain_id : ℕ) (file : DbFile)
      (watched : List ℕ) (path : Text)
      → Answers f addrs db_path (ok (record { watched = watched; db_path = path }))
      → Modes addrs db_path r chain_id file
          (launch r chain_id file (ok (record { watched = watched; db_path = path })))
  unfolding enabled_set
  configured addrs db_path r chain_id file [] path a = (blank_of_unwatched addrs a.0, refl)
  configured addrs db_path r chain_id file (n ∷ rest) path a =
      launched addrs db_path r chain_id file _ (open_ledger r chain_id file)
        (n, a.1 n (ground (arith, ==_refl n))) a refl

  launch-Modes :
      (addrs : List Text) (db_path : Text) (r : Refusals) (chain_id : ℕ) (file : DbFile)
      (c : Result ConfigError PassbookConfig)
      → Answers f addrs db_path c
      → Modes addrs db_path r chain_id file (launch r chain_id file c)
  launch-Modes addrs db_path r chain_id file (err e) a = (a, refl)
  launch-Modes addrs db_path r chain_id file (ok cfg) a =
      configured addrs db_path r chain_id file cfg.watched cfg.db_path a

  -- The stock node is started only where every entry is blank, and then the database file is not touched; a
  -- refused entry stops the start before the ledger is opened; and with the ExEx and the RPC namespace it is
  -- started only when the ledger could be opened for the chain, and watches the addresses of all entries.
  pub start-Modes :
      (addrs : List Text) (db_path : Text) (r : Refusals) (chain_id : ℕ) (file : DbFile)
      → Modes addrs db_path r chain_id file (start addrs db_path r chain_id file)
  unfolding start
  start-Modes addrs db_path r chain_id file =
      launch-Modes addrs db_path r chain_id file (from_parts f addrs db_path)
        (from_parts-Answers f addrs db_path)
