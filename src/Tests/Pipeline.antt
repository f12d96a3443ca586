-- ===== src/Tests/Pipeline.antt =====
-- The pipeline's theorems for one committed block of two transactions.
use passbook.Prelude.{true, false, ℕ, ◌+◌, ◌≤◌, ◌≡◌, refl, none, some, List, [], ◌∷◌, map, arith}
use passbook.Prelude.Hex.{lower_hex}
use passbook.Erc20.Encoding.{transfer_log}
use passbook.Pipeline.Optimism.{
  OpBlock, fee_vault_credits, Deposit, tx_call, tx_create, deposit_mint_credits,
}
use passbook.Pipeline.Optimism.Explained.{adapter, op_credits}
use passbook.Pipeline.Mints.{mints, deposit_mint_credits-credited}
use passbook.Block.Sums.{credited}
use passbook.Prelude.Int.{pos}
use passbook.Prelude.Words.{i128_max}
use passbook.Pipeline.Vaults.{above_base, base_fees, l1_fees, fee_vault_credits-credited}
use passbook.Pipeline.Executed.{Transaction, Receipt, BundleAccount, ExecutionOutcome, Committed}
use passbook.Pipeline.{block_logs, tagged_frames}
use passbook.Pipeline.Explained.{inputs, l1_credits, Explained}
use passbook.Inspector.{FrameKind}
use passbook.Reexec.{Captured}
use passbook.Stack.{ethereum_stack}
use passbook.Block.Inputs.{BlockInputs}
use passbook.Pipeline.Indexes.{numbered, without_tx, all_logs, block_logs-numbered}

abbrev txs : List Transaction
txs =
    record { tx_hash = 9; sender = 7; effective_gas_price = 2 }
    ∷ record { tx_hash = 10; sender = 8; effective_gas_price = 3 }
    ∷ []

abbrev receipts : List Receipt
receipts =
    record {
      cumulative_gas_used = 4;
      logs = transfer_log 4 7 8 11 [] ∷ transfer_log 4 7 8 12 [] ∷ [];
    }
    ∷ record { cumulative_gas_used = 9; logs = transfer_log 4 8 7 11 [] ∷ [] }
    ∷ []

abbrev accounts : List BundleAccount
accounts =
    record {
      address = 7;
      original_info = some (record { balance = 20; nonce = 1 });
      info = some (record { balance = 12; nonce = 2 });
    }
    ∷ record { address = 5; original_info = none; info = some (record { balance = 3; nonce = 0 }) }
    ∷ []

abbrev pub outcome : ExecutionOutcome
outcome = record { receipts = receipts; bundle_accounts = accounts }

abbrev pub block : Committed
block = record {
  number = 40;
  hash = 99;
  base_fee_per_gas = some 1;
  beneficiary = 6;
  transactions = txs;
  withdrawals = none;
  outcome = some outcome;
}

abbrev traced : Captured
traced = record {
  frames =
      record {
        frame = record { from = 7; to = 5; value = 3; kind = FrameKind.call; trace_path = [] };
        tx_index = 0;
        top_level = true;
      }
      ∷ [];
  tx_hashes = some 9 ∷ some 10 ∷ [];
  tx_reverted = false ∷ false ∷ [];
}

abbrev traced_inputs : BlockInputs
traced_inputs =
    inputs lower_hex 1 block (5 ∷ []) ethereum_stack
      (l1_credits lower_hex 1 block (5 ∷ []) ethereum_stack) outcome
      (tagged_frames traced traced.frames)

abbrev op_block : OpBlock
op_block = record {
  block = block;
  txs_meta = (false, 1 ∷ []) ∷ (false, 2 ∷ []) ∷ [];
  deposits = record { mint = 1; to = tx_call 5; from = 7; tx_hash = 9 } ∷ [];
  l1_info = some (λ raw. some 4);
}

abbrev op_traced : Captured
op_traced = record {
  frames =
      record {
        frame = record { from = 7; to = 5; value = 2; kind = FrameKind.call; trace_path = [] };
        tx_index = 1;
        top_level = true;
      }
      ∷ [];
  tx_hashes = some 9 ∷ some 10 ∷ [];
  tx_reverted = false ∷ false ∷ [];
}

abbrev op_inputs : BlockInputs
op_inputs =
    inputs lower_hex 1 block (5 ∷ []) (adapter lower_hex 1 op_block (5 ∷ []))
      (op_credits lower_hex 1 op_block (5 ∷ [])) outcome (tagged_frames op_traced op_traced.frames)

block_logs-numbered_example :
    map without_tx (block_logs txs 0 0 receipts) ≡ numbered 0 (all_logs receipts)
block_logs-numbered_example = block_logs-numbered txs 0 0 receipts

abbrev vault_fees : List (ℕ × ℕ × ℕ)
vault_fees = (7, 100, 3) ∷ (5, 200, 0) ∷ []

above_base_fits : above_base 5 vault_fees ≤ i128_max
unfolding above_base
above_base_fits = omega arith

base_fees_fit : base_fees 5 vault_fees ≤ i128_max
unfolding base_fees
base_fees_fit = omega arith

l1_fees_fit : l1_fees vault_fees ≤ i128_max
unfolding l1_fees
l1_fees_fit = omega arith

fee_vault_credits-credited_example :
    credited 6 (fee_vault_credits (6 ∷ []) 6 5 vault_fees) ≡ pos (above_base 5 vault_fees + (0 + 0))
fee_vault_credits-credited_example =
    fee_vault_credits-credited (6 ∷ []) 6 refl 6 5 vault_fees above_base_fits base_fees_fit
      l1_fees_fit

abbrev deposits : List Deposit
deposits =
    record { mint = 8; to = tx_call 4; from = 7; tx_hash = 9 }
    ∷ record { mint = 5; to = tx_create; from = 7; tx_hash = 10 }
    ∷ record { mint = 3; to = tx_call 4; from = 7; tx_hash = 11 }
    ∷ []

mints_bounded : mints 4 deposits ≤ i128_max
unfolding mints
mints_bounded = omega arith

deposit_mint_credits-credited_example :
    credited 4 (deposit_mint_credits lower_hex deposits (4 ∷ [])) ≡ pos (mints 4 deposits)
deposit_mint_credits-credited_example =
    deposit_mint_credits-credited lower_hex (4 ∷ []) 4 refl deposits mints_bounded
