-- ===== src/Attribution.antt =====
-- Gas payments and native transfers: crates/passbook-core/src/attribution.rs.
pub mod Gas
use passbook.Prelude.{
  ℕ, Bool, Option, none, some, List, [], ◌∷◌, ◌++◌, if◌then◌else◌, contains, unwrap_or,
}
use passbook.Prelude.Words.{u256_add, u256_mul}
use passbook.Prelude.Text.{codes, starts_with}
use passbook.Model.{
  GasPaymentRow, EthTransferRow, EthKind, top_level, internal, Direction, into, out,
}
use passbook.Inspector.{CapturedFrame}

pub record GasInput : Type 0 where
  pub chain_id : ℕ
  pub block_number : ℕ
  pub block_hash : ℕ
  pub tx_hash : ℕ
  pub tx_from : ℕ
  pub gas_used : ℕ
  pub effective_gas_price : ℕ
  pub l1_fee_wei : Option ℕ

unfoldable pub compute_gas_payment : GasInput → GasPaymentRow
compute_gas_payment i =
    let l2 = u256_mul i.gas_used i.effective_gas_price in
    record {
      chain_id = i.chain_id;
      block_number = i.block_number;
      block_hash = i.block_hash;
      tx_hash = i.tx_hash;
      address = i.tx_from;
      gas_used = i.gas_used;
      effective_gas_price = i.effective_gas_price;
      l2_fee_wei = l2;
      l1_fee_wei = i.l1_fee_wei;
      total_wei = u256_add l2 (unwrap_or i.l1_fee_wei 0);
    }

-- The arguments that the frames of one call share.
pub record FrameContext : Type 0 where
  pub chain_id : ℕ
  pub block_number : ℕ
  pub block_hash : ℕ
  pub tx_hash : Option ℕ
  pub reverted : Bool

abbrev pub kind_of : CapturedFrame → EthKind
kind_of f = if starts_with f.trace_path (codes "tx:") then top_level else internal

unfoldable pub in_row : FrameContext → CapturedFrame → EthTransferRow
in_row c f = record {
  chain_id = c.chain_id;
  block_number = c.block_number;
  block_hash = c.block_hash;
  tx_hash = c.tx_hash;
  trace_path = f.trace_path;
  address = f.to;
  direction = into;
  counterparty = f.from;
  amount_wei = f.value;
  kind = kind_of f;
  reverted = c.reverted;
}

unfoldable pub out_row : FrameContext → CapturedFrame → EthTransferRow
out_row c f = record {
  chain_id = c.chain_id;
  block_number = c.block_number;
  block_hash = c.block_hash;
  tx_hash = c.tx_hash;
  trace_path = f.trace_path ++ codes ":out";
  address = f.from;
  direction = out;
  counterparty = f.to;
  amount_wei = f.value;
  kind = kind_of f;
  reverted = c.reverted;
}

unfoldable pub attribute_eth_frames :
    FrameContext → List CapturedFrame → List ℕ → List EthTransferRow
attribute_eth_frames c [] watched = []
attribute_eth_frames c (f ∷ fs) watched =
    (if contains watched f.to then in_row c f ∷ [] else [])
    ++ ((if contains watched f.from then out_row c f ∷ [] else [])
        ++ attribute_eth_frames c fs watched)
