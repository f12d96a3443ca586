-- ===== src/Erc20/Encoding.antt =====
-- The decoder against the encoding of the ERC20 standard, and the conditions under which it answers.
use native.Mathlib.Nat.{pow-suc}
use passbook.Prelude.{
  Bool, false, Option, none, some, refl, if◌then◌else◌, ℕ, zero, suc, ◌+◌, ◌*◌, ◌/◌, ◌%◌, ◌^◌, ◌<◌,
  ◌≤◌, ◌≡◌, ◌∙◌, ap, true, ◌||◌, List, [], ◌∷◌, ◌++◌, contains, length, take, arith, is_some, ◌↔◌,
  take-append, length-append,
}
use passbook.Model.{Direction, into, out}
use passbook.Erc20.{
  DecodedTransfer, RawLog, transfer_topic0, topic_to_address, from_be_slice, matches_of, decoded,
  decode_topics, decode_transfer,
}

-- n big-endian bytes of v, in front of `rest`.
unfoldable pub be_bytes : ℕ → ℕ → List ℕ → List ℕ
be_bytes zero v rest = rest
be_bytes (suc n) v rest = be_bytes n (v / 256) (v % 256 ∷ rest)

-- The log of Transfer(from, to, amount) as the standard has it; more data may follow the amount.
abbrev pub transfer_log : ℕ → ℕ → ℕ → ℕ → List ℕ → RawLog
transfer_log token from to amount rest = record {
  address = token;
  topics = transfer_topic0 ∷ from ∷ to ∷ [];
  log_data = be_bytes 32 amount [] ++ rest;
}

step_value : {p : ℕ} (acc q v : ℕ) → p ≡ q * 256 → (acc * q + v / 256) * 256 + v % 256 ≡ acc * p + v
step_value acc q v h = rw h (grind arith)

from_be_slice-be_bytes :
    (n v acc : ℕ) (rest : List ℕ)
    → v < 256 ^ n
    → from_be_slice acc (be_bytes n v rest) ≡ from_be_slice (acc * 256 ^ n + v) rest
unfolding from_be_slice be_bytes
from_be_slice-be_bytes zero v acc rest h = ap (λ (k : ℕ). from_be_slice k rest) (omega arith)
from_be_slice-be_bytes (suc n) v acc rest h =
    from_be_slice-be_bytes n (v / 256) acc (v % 256 ∷ rest) (omega (arith, pow-suc 256 n))
    ∙ ap (λ (k : ℕ). from_be_slice k rest) (step_value acc (256 ^ n) v (pow-suc 256 n))

take-exact {ℓ} : {A : Type ℓ} (k : ℕ) (xs ys : List A) → length xs ≡ k → take k (xs ++ ys) ≡ xs
take-exact k xs ys h = rw (← h) (take-append xs ys)

length-be_bytes : (n v : ℕ) (rest : List ℕ) → length (be_bytes n v rest) ≡ n + length rest
unfolding be_bytes
length-be_bytes zero v rest = omega arith
length-be_bytes (suc n) v rest = omega (arith, length-be_bytes n (v / 256) (v % 256 ∷ rest))

amount_bytes : (v : ℕ) → v < 2 ^ 256 → from_be_slice 0 (be_bytes 32 v []) ≡ v
amount_bytes v h =
    from_be_slice-be_bytes 32 v 0 [] (omega arith) ∙ (unfold from_be_slice in omega arith)

topic_address : (t : ℕ) → t < 2 ^ 160 → topic_to_address t ≡ t
unfolding topic_to_address
topic_address t h = omega arith

-- What is to be decoded, by whether the recipient and the sender are watched.
abbrev pub transfer_with : ℕ → ℕ → ℕ → ℕ → List (ℕ × Direction) → Option DecodedTransfer
transfer_with token from to amount matched =
    some (record { token = token; from = from; to = to; amount = amount; matched = matched })

abbrev pub transfer_of : ℕ → ℕ → ℕ → ℕ → Bool → Bool → Option DecodedTransfer
transfer_of token from to amount true true =
    transfer_with token from to amount ((to, into) ∷ (from, out) ∷ [])
transfer_of token from to amount true false = transfer_with token from to amount ((to, into) ∷ [])
transfer_of token from to amount false true = transfer_with token from to amount ((from, out) ∷ [])
transfer_of token from to amount false false = none

matched_transfer :
    (token from to amount : ℕ) (watched : List ℕ)
    → decoded token from to amount (matches_of watched from to)
      ≡ transfer_of token from to amount (contains watched to) (contains watched from)
unfolding decoded matches_of
matched_transfer token from to amount watched =
    by_party (contains watched to) (contains watched from)
  where
    by_party :
        (t f : Bool)
        → decoded token from to amount
            ((if t then (to, into) ∷ [] else []) ++ (if f then (from, out) ∷ [] else []))
          ≡ transfer_of token from to amount t f
    by_party true true = refl
    by_party true false = refl
    by_party false true = refl
    by_party false false = refl

-- Decoding the log of a transfer gives back its token, parties and amount, with the watched recipient
-- (in) before the watched sender (out), and nothing when neither is watched.
pub decode_transfer-transfer_log :
    (token from to amount : ℕ) (rest watched : List ℕ)
    → from < 2 ^ 160
    → to < 2 ^ 160
    → amount < 2 ^ 256
    → decode_transfer (transfer_log token from to amount rest) watched
      ≡ transfer_of token from to amount (contains watched to) (contains watched from)
unfolding decode_transfer
decode_transfer-transfer_log token from to amount rest watched a b c =
    let word = be_bytes 32 amount [] in
    let n : length word ≡ 32 = length-be_bytes 32 amount [] in
    rw (take-exact 32 word rest n) (
      rw (amount_bytes amount c) (
        rw (topic_address from a)
          (rw (topic_address to b) (ground (arith, length-append word rest, n)))))
    ∙ matched_transfer token from to amount watched

abbrev pub IsTransferOf : List ℕ → RawLog → Type 0
IsTransferOf watched log =
    (from : ℕ) × (to : ℕ) × (log.topics ≡ transfer_topic0 ∷ from ∷ to ∷ [])
    × (32 ≤ length log.log_data)
    × ((contains watched (topic_to_address from) || contains watched (topic_to_address to)) ≡ true)

matched_some :
    (token from to amount : ℕ) (watched : List ℕ)
    → is_some (decoded token from to amount (matches_of watched from to))
      ≡ (contains watched from || contains watched to)
unfolding decoded matches_of
matched_some token from to amount watched = ground arith

decode_topics-some :
    (token : ℕ) (topics bytes watched : List ℕ)
    → is_some (decode_topics token topics bytes watched) ≡ true
    → IsTransferOf watched (record { address = token; topics = topics; log_data = bytes })
unfolding decode_topics
decode_topics-some token [] bytes watched h = cc
decode_topics-some token (a ∷ []) bytes watched h = cc
decode_topics-some token (a ∷ b ∷ []) bytes watched h = cc
decode_topics-some token (a ∷ b ∷ c ∷ []) bytes watched h =
    let m =
      matched_some token (topic_to_address b) (topic_to_address c) (from_be_slice 0 (take 32 bytes))
        watched in
    (b, c, ground (arith, m), ground (arith, m), ground (arith, m))
decode_topics-some token (a ∷ b ∷ c ∷ d ∷ l) bytes watched h = cc

decode_topics-transfer :
    (token from to : ℕ) (bytes watched : List ℕ)
    → 32 ≤ length bytes
    → (contains watched (topic_to_address from) || contains watched (topic_to_address to)) ≡ true
    → is_some (decode_topics token (transfer_topic0 ∷ from ∷ to ∷ []) bytes watched) ≡ true
unfolding decode_topics
decode_topics-transfer token from to bytes watched l w = ground (
  arith,
  matched_some token (topic_to_address from) (topic_to_address to) (from_be_slice 0 (take 32 bytes))
      watched,
)

-- A log is decoded exactly when it is the log of a transfer to or from a watched address: three topics,
-- the first of them that of Transfer, at least 32 bytes of data, and a party that is watched.
pub decode_transfer-some :
    (log : RawLog) (watched : List ℕ)
    → (is_some (decode_transfer log watched) ≡ true) ↔ IsTransferOf watched log
unfolding decode_transfer
decode_transfer-some log watched = (
  decode_topics-some log.address log.topics log.log_data watched,
  λ h. rw h.2 (decode_topics-transfer log.address h.0 h.1 log.log_data watched h.3 h.4),
)
