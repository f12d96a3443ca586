-- ===== src/Pipeline/Optimism.antt =====
-- The pipeline of an OP chain: crates/passbook-stack-optimism/src/op_chain.rs. It differs from that of L1 in
-- the credits and in the table of L1 data fees.
pub mod Explained
pub mod Paid
use passbook.Prelude.{
  ℕ, ◌-◌, ◌||◌, not, Bool, Option, none, some, List, [], ◌∷◌, ◌++◌, ◌==◌, if◌then◌else◌, contains,
  unwrap_or,
}
use passbook.Prelude.Words.{u256_add, u256_mul, clamp_i128}
use passbook.Prelude.Text.{Text, codes}
use passbook.Prelude.Hex.{Formats}
use passbook.Prelude.Result.{Result, ok_or, ◌>>=◌}
use passbook.Model.{BlockBatch}
use passbook.System.{SystemCredit}
use passbook.Stack.{StackAdapter, from_fees, build_block_l1_fee_table}
use passbook.Block.Inputs.{ProcessingError, Failure, failed}
use passbook.Pipeline.Executed.{Transaction, Committed}
use passbook.Pipeline.{
  Reexecution, block_logs, account_deltas, gated_frames, used_gas, gas_payments, finish,
}

-- `TxKind`, and what is read of a deposit transaction.
pub data TxKind : Type 0 where
  tx_call : ℕ → TxKind
  tx_create : TxKind

pub record Deposit : Type 0 where
  pub mint : ℕ
  pub to : TxKind
  pub from : ℕ
  pub tx_hash : ℕ

-- The credit of a deposit that mints to a watched address.
abbrev pub mint_credit : Formats → Deposit → ℕ → SystemCredit
mint_credit fmt d to = record {
  address = to;
  signed_wei = clamp_i128 d.mint;
  counterparty = d.from;
  source = codes "deposit_mint:" ++ fmt.hex_b256 d.tx_hash;
}

abbrev pub minted : Formats → List ℕ → Deposit → TxKind → List SystemCredit
minted fmt watched d tx_create = []
minted fmt watched d (tx_call to) = if contains watched to then mint_credit fmt d to ∷ [] else []

unfoldable pub deposit_mint_credits : Formats → List Deposit → List ℕ → List SystemCredit
deposit_mint_credits fmt [] watched = []
deposit_mint_credits fmt (d ∷ deposits) watched =
    (if d.mint == 0 then [] else minted fmt watched d d.to)
    ++ deposit_mint_credits fmt deposits watched

abbrev pub base_fee_vault : ℕ
base_fee_vault = 0x4200000000000000000000000000000000000019

abbrev pub l1_fee_vault : ℕ
l1_fee_vault = 0x420000000000000000000000000000000000001a

pub record VaultTotals : Type 0 where
  pub priority_total : ℕ
  pub base_total : ℕ
  pub l1_total : ℕ

-- The sums over (effective_gas_price, gas_used, l1_fee).
unfoldable pub vault_totals : ℕ → List (ℕ × ℕ × ℕ) → VaultTotals → VaultTotals
vault_totals base_fee_per_gas [] t = t
vault_totals base_fee_per_gas ((effective_gas_price, gas_used, l1_fee) ∷ txs) t =
    vault_totals base_fee_per_gas txs (record {
      priority_total =
          u256_add t.priority_total (u256_mul (effective_gas_price - base_fee_per_gas) gas_used);
      base_total = u256_add t.base_total (u256_mul base_fee_per_gas gas_used);
      l1_total = u256_add t.l1_total l1_fee;
    })

abbrev pub vault_credit : List ℕ → ℕ → ℕ → Text → List SystemCredit
vault_credit watched addr total source =
    if total == 0 || not (contains watched addr)
    then []
    else record {
      address = addr;
      signed_wei = clamp_i128 total;
      counterparty = addr;
      source = source;
    }
      ∷ []

unfoldable pub fee_vault_credits : List ℕ → ℕ → ℕ → List (ℕ × ℕ × ℕ) → List SystemCredit
unfolding vault_totals
fee_vault_credits watched coinbase base_fee_per_gas txs =
    let t =
      vault_totals base_fee_per_gas txs
        (record { priority_total = 0; base_total = 0; l1_total = 0 }) in
    vault_credit watched coinbase t.priority_total (codes "sequencer_fee_vault")
    ++ (vault_credit watched base_fee_vault t.base_total (codes "base_fee_vault")
        ++ vault_credit watched l1_fee_vault t.l1_total (codes "l1_fee_vault"))

-- What the OP block has beyond that of L1: for each transaction whether it is a deposit, and its encoding;
-- the deposits; and the fee function of `extract_l1_info`, if that succeeds.
pub record OpBlock : Type 0 where
  pub block : Committed
  pub txs_meta : List (Bool × List ℕ)
  pub deposits : List Deposit
  pub l1_info : Option (List ℕ → Option ℕ)

abbrev pub no_fees : List (Bool × List ℕ) → List (Option ℕ)
no_fees [] = []
no_fees (t ∷ ts) = none ∷ no_fees ts

abbrev pub l1_adapter : List (Bool × List ℕ) → Option (List ℕ → Option ℕ) → StackAdapter
l1_adapter txs_meta none = from_fees (no_fees txs_meta)
l1_adapter txs_meta (some fee_of) = build_block_l1_fee_table txs_meta fee_of

-- The transactions that are not deposits, each with its price, its gas and its L1 fee.
unfoldable pub vault_txs :
    StackAdapter → List (Bool × List ℕ) → List (ℕ × Transaction × ℕ) → List (ℕ × ℕ × ℕ)
vault_txs adapter [] used = []
vault_txs adapter (t ∷ ts) [] = []
vault_txs adapter ((is_deposit, raw) ∷ ts) ((tx_idx, tx, gas_used) ∷ used) =
    (if is_deposit
      then []
      else (tx.effective_gas_price, gas_used, unwrap_or (adapter.l1_data_fee_wei tx_idx) 0) ∷ [])
    ++ vault_txs adapter ts used

unfoldable pub process_op_block :
    Formats → ℕ → OpBlock → List ℕ → Reexecution → Result Failure BlockBatch
unfolding block_logs account_deltas gated_frames used_gas gas_payments deposit_mint_credits
    fee_vault_credits vault_txs
process_op_block fmt chain_id op watched reexecution = do
  outcome ← ok_or op.block.outcome (failed (ProcessingError.decode op.block.number))
  deltas ← account_deltas op.block.number watched outcome.bundle_accounts
  frames ← gated_frames op.block.number deltas.0 reexecution
  let adapter = l1_adapter op.txs_meta op.l1_info
  let used = used_gas 0 0 op.block.transactions outcome.receipts
  finish fmt frames.0 (record {
    chain_id = chain_id;
    block_number = op.block.number;
    block_hash = op.block.hash;
    watched = watched;
    erc20_logs = block_logs op.block.transactions 0 0 outcome.receipts;
    frames = frames.1;
    gas = gas_payments chain_id op.block watched adapter used;
    account_deltas = deltas.1;
    system_signed =
        deposit_mint_credits fmt op.deposits watched
        ++ fee_vault_credits watched op.block.beneficiary (unwrap_or op.block.base_fee_per_gas 0)
            (vault_txs adapter op.txs_meta used);
  })
