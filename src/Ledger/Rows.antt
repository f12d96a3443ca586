-- ===== src/Ledger/Rows.antt =====
-- What the four tables hold and their primary keys: crates/passbook-core/src/ledger/schema.rs, with the
-- parameters that the writers of ledger/writer.rs bind. TEXT columns are texts, INTEGER columns numbers.
use passbook.Prelude.{ℕ, Bool, false, ◌&&◌, Option, none, some, ◌==◌, if◌then◌else◌}
use passbook.Prelude.Text.{Text, text_eq}
use passbook.Prelude.Decimal.{to_string}
use passbook.Prelude.Hex.{Formats}
use passbook.Model.{EthTransferRow, Erc20TransferRow, GasPaymentRow, UnattributedDeltaRow}
use passbook.Model.Spelling.{direction_str, eth_kind_str, cause_str}

pub record EthRecord : Type 0 where
  pub chain_id : ℕ
  pub block_number : ℕ
  pub block_hash : Text
  pub tx_hash : Option Text
  pub trace_path : Text
  pub address : Text
  pub direction : Text
  pub counterparty : Text
  pub amount_wei : Text
  pub kind : Text
  pub reverted : ℕ

pub record Erc20Record : Type 0 where
  pub chain_id : ℕ
  pub block_number : ℕ
  pub block_hash : Text
  pub tx_hash : Text
  pub log_index : ℕ
  pub token : Text
  pub from_addr : Text
  pub to_addr : Text
  pub amount : Text
  pub address : Text
  pub direction : Text

pub record GasRecord : Type 0 where
  pub chain_id : ℕ
  pub block_number : ℕ
  pub block_hash : Text
  pub tx_hash : Text
  pub address : Text
  pub gas_used : ℕ
  pub effective_gas_price : Text
  pub l2_fee_wei : Text
  pub l1_fee_wei : Option Text
  pub total_wei : Text

pub record UnattributedRecord : Type 0 where
  pub chain_id : ℕ
  pub block_number : ℕ
  pub block_hash : Text
  pub address : Text
  pub observed_wei : Text
  pub attributed_wei : Text
  pub residual_wei : Text
  pub cause : Text

-- NULL is equal to nothing, itself included.
abbrev pub text_opt_eq : Option Text → Option Text → Bool
text_opt_eq none o = false
text_opt_eq (some s) none = false
text_opt_eq (some s) (some t) = text_eq s t

-- PRIMARY KEY (chain_id, block_hash, tx_hash, trace_path)
unfoldable pub same_eth : EthRecord → EthRecord → Bool
same_eth x y =
    x.chain_id == y.chain_id
    && text_eq x.block_hash y.block_hash
    && text_opt_eq x.tx_hash y.tx_hash
    && text_eq x.trace_path y.trace_path

-- PRIMARY KEY (chain_id, block_hash, tx_hash, log_index, address)
unfoldable pub same_erc20 : Erc20Record → Erc20Record → Bool
same_erc20 x y =
    x.chain_id == y.chain_id
    && text_eq x.block_hash y.block_hash
    && text_eq x.tx_hash y.tx_hash
    && x.log_index == y.log_index
    && text_eq x.address y.address

-- PRIMARY KEY (chain_id, block_hash, tx_hash, address)
unfoldable pub same_gas : GasRecord → GasRecord → Bool
same_gas x y =
    x.chain_id == y.chain_id
    && text_eq x.block_hash y.block_hash
    && text_eq x.tx_hash y.tx_hash
    && text_eq x.address y.address

-- PRIMARY KEY (chain_id, block_hash, address)
unfoldable pub same_unattributed : UnattributedRecord → UnattributedRecord → Bool
same_unattributed x y =
    x.chain_id == y.chain_id && text_eq x.block_hash y.block_hash && text_eq x.address y.address

-- `as_ref().map(f)`
abbrev pub map_text : (ℕ → Text) → Option ℕ → Option Text
map_text f none = none
map_text f (some n) = some (f n)

module _ (fmt : Formats) where
  unfoldable pub eth_record : EthTransferRow → EthRecord
  eth_record r = record {
    chain_id = r.chain_id;
    block_number = r.block_number;
    block_hash = fmt.hex_b256 r.block_hash;
    tx_hash = map_text fmt.hex_b256 r.tx_hash;
    trace_path = r.trace_path;
    address = fmt.hex_address r.address;
    direction = direction_str r.direction;
    counterparty = fmt.hex_address r.counterparty;
    amount_wei = to_string r.amount_wei;
    kind = eth_kind_str r.kind;
    reverted = if r.reverted then 1 else 0;
  }

  unfoldable pub erc20_record : Erc20TransferRow → Erc20Record
  erc20_record r = record {
    chain_id = r.chain_id;
    block_number = r.block_number;
    block_hash = fmt.hex_b256 r.block_hash;
    tx_hash = fmt.hex_b256 r.tx_hash;
    log_index = r.log_index;
    token = fmt.hex_address r.token;
    from_addr = fmt.hex_address r.from;
    to_addr = fmt.hex_address r.to;
    amount = to_string r.amount;
    address = fmt.hex_address r.address;
    direction = direction_str r.direction;
  }

  unfoldable pub gas_record : GasPaymentRow → GasRecord
  gas_record r = record {
    chain_id = r.chain_id;
    block_number = r.block_number;
    block_hash = fmt.hex_b256 r.block_hash;
    tx_hash = fmt.hex_b256 r.tx_hash;
    address = fmt.hex_address r.address;
    gas_used = r.gas_used;
    effective_gas_price = to_string r.effective_gas_price;
    l2_fee_wei = to_string r.l2_fee_wei;
    l1_fee_wei = map_text to_string r.l1_fee_wei;
    total_wei = to_string r.total_wei;
  }

  unfoldable pub unattributed_record : UnattributedDeltaRow → UnattributedRecord
  unattributed_record r = record {
    chain_id = r.chain_id;
    block_number = r.block_number;
    block_hash = fmt.hex_b256 r.block_hash;
    address = fmt.hex_address r.address;
    observed_wei = to_string r.observed_wei;
    attributed_wei = to_string r.attributed_wei;
    residual_wei = to_string r.residual_wei;
    cause = cause_str r.cause;
  }
