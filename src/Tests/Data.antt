-- ===== src/Tests/Data.antt =====
-- A block of chain 1 in which the watched address 5 receives 3 wei and a token, pays for gas, and has a
-- reverted payment; its rows; and a database.
use passbook.Reexec.Prestate.{AccountInfo, CacheDb}
use passbook.Prelude.{
  Option, ◌==◌, ◌&&◌, refl, if◌then◌else◌, ℕ, Bool, true, false, none, some, [], ◌∷◌,
}
use passbook.Prelude.Int.{pos}
use passbook.Prelude.Text.{codes}
use passbook.Model.{GasPaymentRow, EthTransferRow, BlockBatch, into, EthKind}
use passbook.Inspector.{CapturedFrame, FrameKind}
use passbook.Erc20.Encoding.{transfer_log}
use passbook.Block.Inputs.{BlockInputs}
use passbook.Ledger.{Db}
use passbook.Driver.{NumHash}

abbrev pub payment : CapturedFrame
payment = record { from = 7; to = 5; value = 3; kind = FrameKind.call; trace_path = codes "0" }

abbrev pub gas_row : GasPaymentRow
gas_row = record {
  chain_id = 1;
  block_number = 40;
  block_hash = 99;
  tx_hash = 9;
  address = 5;
  gas_used = 1;
  effective_gas_price = 2;
  l2_fee_wei = 2;
  l1_fee_wei = none;
  total_wei = 2;
}

abbrev pub block_40 : BlockInputs
block_40 = record {
  chain_id = 1;
  block_number = 40;
  block_hash = 99;
  watched = 5 ∷ [];
  erc20_logs = (some 9, 0, transfer_log 4 7 5 11 []) ∷ [];
  frames = (some 9, false, payment) ∷ (some 10, true, payment) ∷ [];
  gas = gas_row ∷ [];
  account_deltas = (5, pos 1) ∷ [];
  system_signed = [];
}

abbrev pub eth_row : EthTransferRow
eth_row = record {
  chain_id = 1;
  block_number = 40;
  block_hash = 99;
  tx_hash = some 9;
  trace_path = codes "0";
  address = 5;
  direction = into;
  counterparty = 7;
  amount_wei = 3;
  kind = EthKind.internal;
  reverted = false;
}

abbrev pub batch_40 : BlockBatch
batch_40 = record {
  chain_id = 1;
  block_number = 40;
  block_hash = 99;
  eth = eth_row ∷ [];
  erc20 = [];
  gas = gas_row ∷ [];
  unattributed = [];
}

abbrev pub empty_db : Db
empty_db = record {
  eth_transfers = [];
  erc20_transfers = [];
  gas_payments = [];
  unattributed_deltas = [];
  meta = [];
}

abbrev pub no_faults : ℕ → Bool
no_faults n = false

abbrev pub all_faults : ℕ → Bool
all_faults n = true

abbrev pub block_id : NumHash
block_id = record { number = 40; hash = 99 }

-- A database that keeps what is inserted in functions.
pub record Written : Type 0 where
  pub accounts : ℕ → Option AccountInfo
  pub slots : ℕ → ℕ → ℕ

abbrev pub functional_db : CacheDb
functional_db = record {
  Cache = Written;
  new_cache = λ p. record { accounts = p.account; slots = p.slot };
  insert_account_info =
      λ b i c. record c { accounts = λ a. if b == a then some i else c.accounts a };
  insert_account_storage =
      λ b t v c. record c { slots = λ a s. if b == a && t == s then v else c.slots a s };
  basic = λ c. c.accounts;
  storage = λ c. c.slots;
  basic-new_cache = λ p a. refl;
  storage-new_cache = λ p a s. refl;
  basic-insert_account_info = λ b i c a. refl;
  storage-insert_account_info = λ b i c a s. refl;
  basic-insert_account_storage = λ b t v c a. refl;
  storage-insert_account_storage = λ b t v c a s. refl;
}
