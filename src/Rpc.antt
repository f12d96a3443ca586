-- ===== src/Rpc.antt =====
-- The JSON-RPC methods: `PassbookRpc` of crates/passbook-core/src/rpc.rs, and `health` of ledger/queries.rs.
-- The server is jsonrpsee.
pub mod Answers
use passbook.Prelude.{ℕ, Bool, true, false, Option, none, some, if◌then◌else◌}
use passbook.Prelude.Text.{Text, codes}
use passbook.Prelude.Decimal.{parse_u64}
use passbook.Prelude.Int.{ℤ, negsuc}
use passbook.Prelude.Result.{Result, ok, err}
use passbook.Ledger.{Db, and_then, get_meta}
use passbook.Ledger.Queries.{TransfersPage, get_transfers}

pub record Health : Type 0 where
  pub last_block : Option ℕ
  pub chain_id : Option ℕ

unfoldable pub health : Db → Health
unfolding get_meta
health db = record {
  last_block = and_then (get_meta (codes "last_block") db.meta) parse_u64;
  chain_id = and_then (get_meta (codes "chain_id") db.meta) parse_u64;
}

-- `Arc<Mutex<Ledger>>`: the lock is poisoned once a thread that held it has panicked.
pub record Shared : Type 0 where
  pub ledger : Db
  pub poisoned : Bool

pub record PassbookRpc : Type 0 where
  pub shared : Shared
  pub chain_id : ℕ

-- The code of an error object.
pub record RpcError : Type 0 where
  pub code : ℤ

-- `err`: -32000
abbrev pub rpc_error : RpcError
rpc_error = record { code = negsuc 31999 }

abbrev pub locked : {A : Type 0} → Shared → (Db → Result RpcError A) → Result RpcError A
locked s next = if s.poisoned then err rpc_error else next s.ledger

unfoldable pub rpc_health : PassbookRpc → Result RpcError Health
unfolding health
rpc_health rpc = locked rpc.shared (λ db. ok (health db))

abbrev pub page_limit : ℕ
page_limit = 500

-- `refused`: SQLite fails the query.
unfoldable pub rpc_get_transfers :
    PassbookRpc
    → Bool
    → Text
    → Option ℕ
    → Option ℕ
    → Option Text
    → Option ℕ
    → Result RpcError TransfersPage
unfolding get_transfers
rpc_get_transfers rpc refused address from_block to_block kind cursor = locked rpc.shared λ db.
    if refused
    then err rpc_error
    else ok (get_transfers db rpc.chain_id address from_block to_block kind cursor page_limit)
