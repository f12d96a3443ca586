-- ===== src/Pipeline/Optimism/Explained.antt =====
-- What a committed block of an OP chain is turned into: the whole of `process_committed_block` of
-- crates/passbook-stack-optimism/src/op_chain.rs.
use passbook.Prelude.{ℕ, ◌+◌, ◌≤◌, ◌==◌, if◌then◌else◌, List, ◌++◌, All, unwrap_or}
use passbook.Prelude.Words.{i128_max}
use passbook.Pipeline.Mints.{mints}
use passbook.Pipeline.Vaults.{above_base, base_fees, l1_fees}
use passbook.Pipeline.Optimism.Paid.{paid}
use passbook.Prelude.Hex.{Formats}
use passbook.System.{SystemCredit}
use passbook.Stack.{StackAdapter}
use passbook.Pipeline.Executed.{ExecutionOutcome}
use passbook.Pipeline.{used_gas}
use passbook.Pipeline.Optimism.{
  OpBlock, l1_adapter, vault_txs, deposit_mint_credits, fee_vault_credits,
}
use passbook.Pipeline.Explained.{Explained}

module _ (fmt : Formats) (chain_id : ℕ) (op : OpBlock) (watched : List ℕ) where
  abbrev pub adapter : StackAdapter
  adapter = l1_adapter op.txs_meta op.l1_info

  -- The credits of an OP block: the mints of its deposits, and what its fee vaults receive.
  abbrev pub op_credits : ExecutionOutcome → List SystemCredit
  op_credits o =
      deposit_mint_credits fmt op.deposits watched
      ++ fee_vault_credits watched op.block.beneficiary (unwrap_or op.block.base_fee_per_gas 0)
          (vault_txs adapter op.txs_meta (used_gas 0 0 op.block.transactions o.receipts))

  -- What the transactions of the block that are no deposits pay: price, gas and L1 fee.
  abbrev pub op_fees : ExecutionOutcome → List (ℕ × ℕ × ℕ)
  op_fees o = paid op.l1_info op.txs_meta 0 op.block.transactions o.receipts

  abbrev pub base_fee : ℕ
  base_fee = unwrap_or op.block.base_fee_per_gas 0

  -- What an account is minted, and receives as the coinbase, as the base fee vault and as the L1 fee vault.
  abbrev pub op_income : ExecutionOutcome → ℕ → ℕ
  op_income o a =
      mints a op.deposits
      + ((if op.block.beneficiary == a then above_base base_fee (op_fees o) else 0)
          + ((if 0x4200000000000000000000000000000000000019 == a
                then base_fees base_fee (op_fees o)
                else 0)
              + (if 0x420000000000000000000000000000000000001a == a
                  then l1_fees (op_fees o)
                  else 0)))

  -- None of the sums of mints and fees is more than i128::MAX.
  abbrev pub SmallIncome : ExecutionOutcome → Type 0
  SmallIncome o =
      All (λ a. mints a op.deposits ≤ i128_max) watched
      × (above_base base_fee (op_fees o) ≤ i128_max)
      × (base_fees base_fee (op_fees o) ≤ i128_max)
      × (l1_fees (op_fees o) ≤ i128_max)
