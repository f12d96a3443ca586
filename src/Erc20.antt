-- ===== src/Erc20.antt =====
-- ERC20 Transfer logs: crates/passbook-core/src/erc20.rs. A topic is a 32-byte number, the data a list
-- of bytes.
pub mod Encoding
use passbook.Prelude.{
  ℕ, ◌+◌, ◌*◌, ◌%◌, ◌^◌, Bool, true, Option, none, some, List, [], ◌∷◌, ◌++◌, ltb, ◌==◌,
  if◌then◌else◌, contains, length, take,
}
use passbook.Model.{Direction, into, out}

abbrev pub transfer_topic0 : ℕ
transfer_topic0 = 0xddf252ad1be2c89b69c2b068fc378daa952ba7f163c4a11628f55a4df523b3ef

pub record RawLog : Type 0 where
  pub address : ℕ
  pub topics : List ℕ
  pub log_data : List ℕ

pub record DecodedTransfer : Type 0 where
  pub token : ℕ
  pub from : ℕ
  pub to : ℕ
  pub amount : ℕ
  pub matched : List (ℕ × Direction)

-- The last 20 bytes.
unfoldable pub topic_to_address : ℕ → ℕ
topic_to_address t = t % 2 ^ 160

-- `U256::from_be_slice`
unfoldable pub from_be_slice : ℕ → List ℕ → ℕ
from_be_slice acc [] = acc
from_be_slice acc (b ∷ bytes) = from_be_slice (acc * 256 + b) bytes

unfoldable pub matches_of : List ℕ → ℕ → ℕ → List (ℕ × Direction)
matches_of watched from to =
    (if contains watched to then (to, into) ∷ [] else [])
    ++ (if contains watched from then (from, out) ∷ [] else [])

-- The end of `decode_transfer`: no match is no transfer.
unfoldable pub decoded : ℕ → ℕ → ℕ → ℕ → List (ℕ × Direction) → Option DecodedTransfer
decoded token from to amount [] = none
decoded token from to amount (m ∷ ms) =
    some (record { token = token; from = from; to = to; amount = amount; matched = m ∷ ms })

unfoldable pub decode_topics : ℕ → List ℕ → List ℕ → List ℕ → Option DecodedTransfer
decode_topics token (topic0 ∷ topic1 ∷ topic2 ∷ []) bytes watched =
    let from = topic_to_address topic1 in
    let to = topic_to_address topic2 in
    if topic0 == transfer_topic0
    then (if ltb (length bytes) 32
        then none
        else decoded token from to (from_be_slice 0 (take 32 bytes)) (matches_of watched from to))
    else none
decode_topics token topics bytes watched = none

unfoldable pub decode_transfer : RawLog → List ℕ → Option DecodedTransfer
unfolding decode_topics decoded matches_of
decode_transfer log watched = decode_topics log.address log.topics log.log_data watched
