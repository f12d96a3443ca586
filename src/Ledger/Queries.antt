-- ===== src/Ledger/Queries.antt =====
-- The pages of transfers: `get_transfers` of crates/passbook-core/src/ledger/queries.rs.
use passbook.Prelude.{
  ℕ, ◌+◌, ◌-◌, ◌^◌, min, max, Bool, ◌&&◌, Option, none, some, List, [], ◌∷◌, ◌++◌, ltb, leb, ◌==◌,
  if◌then◌else◌, length, take, keep, any, map, unwrap_or,
}
use passbook.Prelude.Text.{Text, codes, text_eq}
use passbook.Ledger.{Db}
use passbook.Ledger.Rows.{EthRecord, Erc20Record, GasRecord, UnattributedRecord}

pub record TransferRowOut : Type 0 where
  pub category : Text
  pub block_number : ℕ
  pub block_hash : Text
  pub tx_hash : Option Text
  pub address : Text
  pub direction : Option Text
  pub counterparty : Option Text
  pub token : Option Text
  pub amount : Text
  pub kind : Option Text

abbrev pub from_eth : EthRecord → TransferRowOut
from_eth r = record {
  category = codes "eth";
  block_number = r.block_number;
  block_hash = r.block_hash;
  tx_hash = r.tx_hash;
  address = r.address;
  direction = some r.direction;
  counterparty = some r.counterparty;
  token = none;
  amount = r.amount_wei;
  kind = some r.kind;
}

abbrev pub from_erc20 : Erc20Record → TransferRowOut
from_erc20 r = record {
  category = codes "erc20";
  block_number = r.block_number;
  block_hash = r.block_hash;
  tx_hash = some r.tx_hash;
  address = r.address;
  direction = some r.direction;
  counterparty = none;
  token = some r.token;
  amount = r.amount;
  kind = some (codes "erc20");
}

abbrev pub from_gas : GasRecord → TransferRowOut
from_gas r = record {
  category = codes "gas";
  block_number = r.block_number;
  block_hash = r.block_hash;
  tx_hash = some r.tx_hash;
  address = r.address;
  direction = some (codes "out");
  counterparty = none;
  token = none;
  amount = r.total_wei;
  kind = some (codes "gas");
}

abbrev pub from_unattributed : UnattributedRecord → TransferRowOut
from_unattributed r = record {
  category = codes "unattributed";
  block_number = r.block_number;
  block_hash = r.block_hash;
  tx_hash = none;
  address = r.address;
  direction = none;
  counterparty = none;
  token = none;
  amount = r.residual_wei;
  kind = some (codes "unattributed");
}

-- The filter of a query; `lo` is cast to a signed number, `hi` is clamped.
pub record Filter : Type 0 where
  pub chain_id : ℕ
  pub address : Text
  pub lo : ℕ
  pub hi : ℕ
  pub kind : Option Text

-- `x as i64`, as a lower bound of numbers that are not negative
abbrev pub as_i64_bound : ℕ → ℕ
as_i64_bound x = if ltb x (2 ^ 63) then x else 0

abbrev pub in_filter : Filter → ℕ → Text → ℕ → Bool
in_filter q chain_id address block_number =
    chain_id == q.chain_id
    && text_eq address q.address
    && leb q.lo block_number
    && leb block_number q.hi

-- The rows of a category, if the query wants it.
abbrev pub wanted : Filter → Text → List TransferRowOut → List TransferRowOut
wanted q category rows = if text_eq (unwrap_or q.kind category) category then rows else []

-- ORDER BY block_number, category, rowid: the categories come in their order and each in that of its rowids,
-- so that it is the stable sort by the block.
unfoldable pub insert_by_block : TransferRowOut → List TransferRowOut → List TransferRowOut
insert_by_block r [] = r ∷ []
insert_by_block r (x ∷ xs) =
    let rest = insert_by_block r xs in
    if leb r.block_number x.block_number then r ∷ x ∷ xs else x ∷ rest

unfoldable pub order_by_block : List TransferRowOut → List TransferRowOut
unfolding insert_by_block
order_by_block [] = []
order_by_block (r ∷ rs) = insert_by_block r (order_by_block rs)

unfoldable pub union_rows : Filter → Db → List TransferRowOut
union_rows q db =
    wanted q (codes "eth")
      (map from_eth (keep (λ r. in_filter q r.chain_id r.address r.block_number) db.eth_transfers))
    ++ (wanted q (codes "erc20") (
          map from_erc20
            (keep (λ r. in_filter q r.chain_id r.address r.block_number) db.erc20_transfers))
        ++ (wanted q (codes "gas") (
              map from_gas
                (keep (λ r. in_filter q r.chain_id r.address r.block_number) db.gas_payments))
            ++ wanted q (codes "unattributed") (
                map from_unattributed (
                  keep (λ r. in_filter q r.chain_id r.address r.block_number)
                    db.unattributed_deltas))))

pub record TransfersPage : Type 0 where
  pub rows : List TransferRowOut
  pub next_cursor : Option ℕ

abbrev pub last_block : ℕ → List TransferRowOut → ℕ
last_block b [] = b
last_block b (r ∷ rs) = last_block r.block_number rs

-- A page that is cut at the block of its last fetched row, or the whole of a block that is larger.
abbrev pub cut_page : ℕ → ℕ → List TransferRowOut → List TransferRowOut → TransfersPage
cut_page first_block cut fetched stream =
    if ltb first_block cut
    then record { rows = keep (λ r. ltb r.block_number cut) fetched; next_cursor = some cut }
    else record {
      rows = keep (λ r. r.block_number == cut) stream;
      next_cursor = if any (λ r. ltb cut r.block_number) stream then some (cut + 1) else none;
    }

-- The page of an ordered stream.
unfoldable pub page_of : ℕ → List TransferRowOut → TransfersPage
page_of lim [] = record { rows = []; next_cursor = none }
page_of lim (r ∷ rs) =
    let fetched = take (lim + 1) (r ∷ rs) in
    if leb (length fetched) lim
    then record { rows = fetched; next_cursor = none }
    else cut_page r.block_number (last_block r.block_number fetched) fetched (r ∷ rs)

abbrev pub or_else : Option ℕ → Option ℕ → Option ℕ
or_else none o = o
or_else (some n) o = some n

unfoldable pub get_transfers :
    Db → ℕ → Text → Option ℕ → Option ℕ → Option Text → Option ℕ → ℕ → TransfersPage
unfolding union_rows order_by_block page_of
get_transfers db chain_id address from_block to_block kind cursor limit =
    page_of (min (max limit 1) 1000) (
      order_by_block (
        union_rows
          (record {
            chain_id = chain_id;
            address = address;
            lo = as_i64_bound (unwrap_or (or_else cursor from_block) 0);
            hi = min (unwrap_or to_block (2 ^ 64 - 1)) (2 ^ 63 - 1);
            kind = kind;
          })
          db))
