-- ===== src/Tests/Start.antt =====
-- The theorems on the configuration, on starting the node, on its RPC methods and on the state of a block's
-- re-execution, at concrete inputs.
use passbook.Prelude.{
  ℕ, ◌≡◌, ◌⊎◌, ◌↔◌, refl, true, false, none, some, List, [], ◌∷◌, ◌==◌, Option, if◌then◌else◌,
  arith,
}
use passbook.Prelude.Text.{Text, codes, text_eq}
use passbook.Prelude.Decimal.{to_string}
use passbook.Prelude.Hex.{parse_hex, show_hex, hex_value, digit_value, lower_hex}
use passbook.Prelude.Result.{ok, err}
use passbook.Ledger.{Db, get_meta, write_block}
use passbook.Config.{
  AddressFormat, invalid_checksum, is_mixed_case, parse_watched_address, from_parts,
}
use passbook.Config.Answers.{Answers, from_parts-Answers}
use passbook.Config.Addresses.{Mixed, parse_watched_address_iff, parse_watched_address-Unprefixed}
use passbook.Opening.Recovers.{calm}
use passbook.Opening.Interrupted.{no_tables}
use passbook.Start.{Modes, start, start-Modes}
use passbook.Rpc.{rpc_health}
use passbook.Rpc.Answers.{serving, rpc_health-write_block}
use passbook.Reexec.Prestate.{AccountInfo, Bundle, StateProvider, build_prestate_cache}
use passbook.Reexec.Overlay.{
  changes_before, account_after, slot_after, build_prestate_cache-Overlay,
}
use passbook.Tests.Data.{functional_db, batch_40, empty_db, no_faults}

-- Hexadecimal addresses whose checksummed spelling has no capital letters.
abbrev hex_format : AddressFormat
hex_format = record {
  from_str = parse_hex;
  checksum = show_hex 40;
  checksum_prefix = λ a. unfold show_hex in refl;
}

abbrev two_entries : List Text
two_entries = codes " 0x5 " ∷ codes "" ∷ []

parse_watched_address_iff_example :
    (parse_watched_address hex_format (codes "0x5") ≡ ok 5)
    ↔ ((parse_hex (codes "0x5") ≡ some 5) × (Mixed (codes "0x5") → codes "0x5" ≡ show_hex 40 5))
parse_watched_address_iff_example = parse_watched_address_iff hex_format (codes "0x5") 5

bare_mixed : is_mixed_case (codes "aB") ≡ true
unfolding is_mixed_case
bare_mixed = refl

bare_read : parse_hex (codes "aB") ≡ some 0
unfolding parse_hex hex_value
bare_read = refl

parse_watched_address-Unprefixed_example :
    parse_watched_address hex_format (codes "aB")
    ≡ err (invalid_checksum (codes "aB") (show_hex 40 0))
parse_watched_address-Unprefixed_example =
    parse_watched_address-Unprefixed hex_format (codes "aB") 0 bare_read bare_mixed refl

from_parts-Answers_example :
    Answers hex_format two_entries (codes "l.db") (from_parts hex_format two_entries (codes "l.db"))
from_parts-Answers_example = from_parts-Answers hex_format two_entries (codes "l.db")

from_parts_trims :
    from_parts hex_format two_entries (codes "l.db")
    ≡ ok (record { watched = 5 ∷ []; db_path = codes "l.db" })
unfolding from_parts parse_hex hex_value digit_value show_hex
from_parts_trims = refl

start-Modes_example :
    Modes hex_format two_entries
      (codes "l.db")
      calm
      1
      no_tables
      (start hex_format two_entries (codes "l.db") calm 1 no_tables)
start-Modes_example = start-Modes hex_format two_entries (codes "l.db") calm 1 no_tables

abbrev chain_1_db : Db
chain_1_db = record empty_db { meta = (codes "chain_id", codes "1") ∷ [] }

chain_1_stored : get_meta (codes "chain_id") chain_1_db.meta ≡ some (to_string 1)
unfolding get_meta text_eq to_string
chain_1_stored = refl

rpc_health-write_block_example :
    (((write_block lower_hex no_faults batch_40 chain_1_db).0 ≡ true)
      × (rpc_health (serving (write_block lower_hex no_faults batch_40 chain_1_db).1 false 1)
          ≡ ok (record { last_block = some 40; chain_id = some 1 })))
    ⊎ (((write_block lower_hex no_faults batch_40 chain_1_db).0 ≡ false)
        × (rpc_health (serving (write_block lower_hex no_faults batch_40 chain_1_db).1 false 1)
            ≡ rpc_health (serving chain_1_db false 1)))
rpc_health-write_block_example =
    rpc_health-write_block lower_hex no_faults batch_40 chain_1_db false 1 (omega arith)
      (omega arith) chain_1_stored

abbrev account_of : ℕ → AccountInfo
account_of balance = record { balance = balance; nonce = 0; code_hash = 0; code = none }

-- Account 5 has been paid, account 6 was destroyed.
abbrev block_39 : Bundle
block_39 = record {
  state =
      (5, record { info = some (account_of 3); storage = (1, 8) ∷ [] })
      ∷ (6, record { info = none; storage = [] })
      ∷ [];
  contracts = [];
}

abbrev outcome_39 : ℕ → Option Bundle
outcome_39 n = if n == 39 then some block_39 else none

abbrev parent_38 : StateProvider
parent_38 = record { account = λ a. some (account_of 1); slot = λ a s. 0 }

build_prestate_cache-Overlay_example :
    (functional_db.basic (build_prestate_cache functional_db outcome_39 40 parent_38) 6
      ≡ account_after (changes_before outcome_39 40) parent_38 6)
    × (functional_db.storage (build_prestate_cache functional_db outcome_39 40 parent_38) 6 1
        ≡ slot_after (changes_before outcome_39 40) parent_38 6 1)
build_prestate_cache-Overlay_example =
    build_prestate_cache-Overlay functional_db outcome_39 40 parent_38 6 1
      ((refl, (refl, tt)), ((refl, tt), (tt, tt)))
