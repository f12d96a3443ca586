-- ===== src/Tests/Opening.antt =====
-- The theorems on opening a ledger, for a ledger of version 1 and for a new file.
use passbook.Prelude.{ℕ, ◌≡◌, refl, false, none, some, [], ◌∷◌, ◌⊎◌, ◌==◌}
use passbook.Prelude.Text.{codes, text_eq}
use passbook.Prelude.Decimal.{to_string}
use passbook.Prelude.Result.{ok, err}
use passbook.Ledger.{get_meta}
use passbook.Ledger.Rows.{Erc20Record, UnattributedRecord}
use passbook.Opening.Statements.{
  has_duplicate, same_erc20_v1, update_meta, set_version, create_erc20_v2, copy_erc20, drop_erc20,
  rename_erc20, alter_unattributed,
}
use passbook.Opening.Versions.{Contents, ledger_at, v1, v2, v3}
use passbook.Opening.Whole.{Whole, IsMeta, open_ledger-Whole}
use passbook.Opening.Recovers.{calm, after_attempts, open_ledger-Recovers}
use passbook.Opening.Interrupted.{no_tables, new_ledger, Fails, open_ledger-Interrupted}
use passbook.Opening.{Refusals, sqlite, chain_id_mismatch, run_all, open_ledger}

abbrev token_row : Erc20Record
token_row = record {
  chain_id = 1;
  block_number = 7;
  block_hash = codes "0x1";
  tx_hash = codes "0x2";
  log_index = 0;
  token = codes "0x3";
  from_addr = codes "0x4";
  to_addr = codes "0x5";
  amount = codes "99";
  address = codes "0x5";
  direction = codes "in";
}

abbrev residual_row : UnattributedRecord
residual_row = record {
  chain_id = 1;
  block_number = 7;
  block_hash = codes "0x1";
  address = codes "0x5";
  observed_wei = codes "7";
  attributed_wei = codes "0";
  residual_wei = codes "7";
  cause = codes "unexplained_residual";
}

abbrev old_ledger : Contents
old_ledger = record {
  meta = (codes "schema_version", codes "1") ∷ (codes "chain_id", codes "1") ∷ [];
  eth = [];
  erc20 = token_row ∷ [];
  gas = [];
  deltas = residual_row ∷ [];
}

-- The second migration is interrupted before its commit.
abbrev stops_at_v2 : Refusals
stops_at_v2 = record calm { to_v3 = λ k. k == 2 }

-- The creation is interrupted after the third table.
abbrev stops_creating : Refusals
stops_creating = record calm { creation = λ k. k == 3 }

old_ledger-IsMeta : IsMeta old_ledger
unfolding get_meta text_eq
old_ledger-IsMeta = (codes "1", refl)

old_ledger_keys : has_duplicate same_erc20_v1 old_ledger.erc20 ≡ false
unfolding has_duplicate
old_ledger_keys = refl

old_ledger_chain : get_meta (codes "chain_id") old_ledger.meta ≡ some (to_string 1)
unfolding get_meta text_eq to_string
old_ledger_chain = refl

open_ledger-Whole_example :
    Whole old_ledger 1 v1 (open_ledger stops_at_v2 1 (ledger_at old_ledger v1))
open_ledger-Whole_example =
    open_ledger-Whole old_ledger stops_at_v2 1 v1 old_ledger-IsMeta (old_ledger_keys, (refl, tt))

open_ledger-Recovers_example :
    open_ledger calm 1
      (after_attempts ((stops_at_v2, 1) ∷ (calm, 10) ∷ []) (ledger_at old_ledger v1))
    ≡ (ok tt, ledger_at old_ledger v3)
open_ledger-Recovers_example =
    open_ledger-Recovers old_ledger old_ledger-IsMeta 1 old_ledger_chain v1
      ((stops_at_v2, 1) ∷ (calm, 10) ∷ []) (old_ledger_keys, (refl, tt))

open_ledger-Interrupted_example :
    (open_ledger stops_creating 1 no_tables ≡ (ok tt, new_ledger 1))
    ⊎ (((open_ledger stops_creating 1 no_tables).0 ≡ err sqlite)
        × (((open_ledger stops_creating 1 no_tables).1.meta ≡ none)
            ⊎ ((later : Refusals) (other : ℕ)
                → Fails (open_ledger later other (open_ledger stops_creating 1 no_tables).1))))
open_ledger-Interrupted_example = open_ledger-Interrupted stops_creating 1

-- A run: the first migration is kept, the second is not.
open_ledger_stops :
    open_ledger stops_at_v2 1 (ledger_at old_ledger v1) ≡ (err sqlite, ledger_at old_ledger v2)
unfolding open_ledger run_all to_string set_version create_erc20_v2 copy_erc20 drop_erc20
    rename_erc20 alter_unattributed
open_ledger_stops = refl

open_ledger_other_chain :
    (open_ledger calm 10 (ledger_at old_ledger v3)).0 ≡ err (chain_id_mismatch (codes "1") 10)
unfolding open_ledger to_string update_meta
open_ledger_other_chain = refl
