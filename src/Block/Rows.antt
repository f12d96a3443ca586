-- ===== src/Block/Rows.antt =====
-- The rows of a block: sections (a), (b) and (b2) of `process_block` in crates/passbook-core/src/exex.rs,
-- which `build_partial_batch_skip_frames` shares but for the frames.
use passbook.Prelude.{
  ℕ, Bool, false, Option, none, some, List, [], ◌∷◌, ◌++◌, if◌then◌else◌, contains,
}
use passbook.Prelude.Int.{ℤ, pos, negsuc, unsigned_abs}
use passbook.Prelude.Words.{u256_add, i128_add}
use passbook.Prelude.Text.{codes}
use passbook.Prelude.Hex.{Formats}
use passbook.Prelude.AddrMap.{AddrMap, update_entry}
use passbook.Prelude.Result.{Result, ok, err, ◌>>=◌}
use passbook.Model.{Direction, into, out, EthTransferRow, Erc20TransferRow, GasPaymentRow, system}
use passbook.Inspector.{CapturedFrame}
use passbook.Attribution.{FrameContext, attribute_eth_frames}
use passbook.Erc20.{RawLog, DecodedTransfer, decode_transfer}
use passbook.System.{SystemCredit}
use passbook.Block.Inputs.{BlockInputs, Failure, panicked}

-- (a) ERC20: the rows of one decoded log, then of all logs.
unfoldable pub matched_rows :
    BlockInputs
    → Option ℕ
    → ℕ
    → DecodedTransfer
    → List (ℕ × Direction)
    → Result Failure (List Erc20TransferRow)
matched_rows i tx log_index d [] = ok []
matched_rows i none log_index d (m ∷ ms) = err panicked
matched_rows i (some tx) log_index d ((addr, dir) ∷ ms) = do
  rows ← matched_rows i (some tx) log_index d ms
  ok (
      record {
        chain_id = i.chain_id;
        block_number = i.block_number;
        block_hash = i.block_hash;
        tx_hash = tx;
        log_index = log_index;
        token = d.token;
        from = d.from;
        to = d.to;
        amount = d.amount;
        address = addr;
        direction = dir;
      }
      ∷ rows)

unfoldable pub log_rows :
    BlockInputs → Option ℕ → ℕ → Option DecodedTransfer → Result Failure (List Erc20TransferRow)
unfolding matched_rows
log_rows i tx log_index none = ok []
log_rows i tx log_index (some d) = matched_rows i tx log_index d d.matched

unfoldable pub erc20_rows :
    BlockInputs → List (Option ℕ × ℕ × RawLog) → Result Failure (List Erc20TransferRow)
unfolding log_rows
erc20_rows i [] = ok []
erc20_rows i ((tx, log_index, log) ∷ logs) = do
  rows ← log_rows i tx log_index (decode_transfer log i.watched)
  rest ← erc20_rows i logs
  ok (rows ++ rest)

-- (b) native frames: the rows and the two sums for each address.
pub record Native : Type 0 where
  pub eth : List EthTransferRow
  pub eth_in : AddrMap ℕ
  pub eth_out : AddrMap ℕ

abbrev pub no_native : Native
no_native = record { eth = []; eth_in = []; eth_out = [] }

abbrev pub count_direction : Direction → ℕ → ℕ → Native → Native
count_direction into addr amount n = record n {
  eth_in = update_entry addr 0 (λ t. u256_add t amount) n.eth_in;
}
count_direction out addr amount n = record n {
  eth_out = update_entry addr 0 (λ t. u256_add t amount) n.eth_out;
}

-- A reverted movement is a row, and is not counted.
unfoldable pub count_rows : Bool → List EthTransferRow → Native → Native
count_rows reverted [] n = n
count_rows reverted (r ∷ rows) n =
    count_rows reverted rows
      (if reverted then n else count_direction r.direction r.address r.amount_wei n)

abbrev pub context : BlockInputs → Option ℕ → Bool → FrameContext
context i tx reverted = record {
  chain_id = i.chain_id;
  block_number = i.block_number;
  block_hash = i.block_hash;
  tx_hash = tx;
  reverted = reverted;
}

unfoldable pub native_frame : BlockInputs → Option ℕ → Bool → CapturedFrame → Native → Native
unfolding count_rows
native_frame i tx reverted f n =
    let rows = attribute_eth_frames (context i tx reverted) (f ∷ []) i.watched in
    let counted = count_rows reverted rows n in record counted { eth = counted.eth ++ rows }

unfoldable pub native_frames :
    BlockInputs → List (Option ℕ × Bool × CapturedFrame) → Native → Native
unfolding native_frame
native_frames i [] n = n
native_frames i ((tx, reverted, f) ∷ frames) n =
    native_frames i frames (native_frame i tx reverted f n)

unfoldable pub gas_paid : List GasPaymentRow → AddrMap ℕ → AddrMap ℕ
gas_paid [] m = m
gas_paid (g ∷ gs) m = gas_paid gs (update_entry g.address 0 (λ t. u256_add t g.total_wei) m)

-- (b2) recognised system credits: the sums, then the rows.
unfoldable pub sys_per_addr : List ℕ → List SystemCredit → AddrMap ℤ → AddrMap ℤ
sys_per_addr watched [] m = m
sys_per_addr watched (sc ∷ scs) m = sys_per_addr watched scs (
    if contains watched sc.address
    then update_entry sc.address (pos 0) (λ t. i128_add t sc.signed_wei) m
    else m)

abbrev pub credit_direction : ℤ → Direction
credit_direction (pos n) = into
credit_direction (negsuc n) = out

unfoldable pub system_row : Formats → BlockInputs → SystemCredit → EthTransferRow
system_row fmt i sc = record {
  chain_id = i.chain_id;
  block_number = i.block_number;
  block_hash = i.block_hash;
  tx_hash = some i.block_hash;
  trace_path = codes "system:" ++ (sc.source ++ (codes ":" ++ fmt.hex_address sc.address));
  address = sc.address;
  direction = credit_direction sc.signed_wei;
  counterparty = sc.counterparty;
  amount_wei = unsigned_abs sc.signed_wei;
  kind = system;
  reverted = false;
}

unfoldable pub system_rows : Formats → BlockInputs → List SystemCredit → List EthTransferRow
unfolding system_row
system_rows fmt i [] = []
system_rows fmt i (sc ∷ scs) =
    (if contains i.watched sc.address then system_row fmt i sc ∷ [] else [])
    ++ system_rows fmt i scs
