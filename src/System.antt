-- ===== src/System.antt =====
-- Recognised system credits of L1: crates/passbook-core/src/system.rs.
pub mod Credited
use passbook.Prelude.{ℕ, ◌-◌, List, [], ◌∷◌, ◌++◌, leb, ◌==◌, if◌then◌else◌, contains, map}
use passbook.Prelude.Int.{ℤ}
use passbook.Prelude.Words.{u256_add, u256_mul, clamp_i128}
use passbook.Prelude.Text.{Text, codes}
use passbook.Prelude.AddrMap.{AddrMap, update_entry}

pub record SystemCredit : Type 0 where
  pub address : ℕ
  pub signed_wei : ℤ
  pub counterparty : ℕ
  pub source : Text

-- The withdrawals of watched recipients, added up for each.
unfoldable pub wd_total : List ℕ → AddrMap ℕ → List (ℕ × ℕ) → AddrMap ℕ
wd_total watched totals [] = totals
wd_total watched totals ((recipient, amount_wei) ∷ ws) =
    wd_total watched
      (if contains watched recipient
        then update_entry recipient 0 (λ t. u256_add t amount_wei) totals
        else totals)
      ws

-- `wd.sort_by_key(|(a, _)| *a)`, as an insertion sort.
unfoldable pub insert_by_key : ℕ × ℕ → List (ℕ × ℕ) → List (ℕ × ℕ)
insert_by_key e [] = e ∷ []
insert_by_key e (x ∷ xs) =
    let rest = insert_by_key e xs in if leb e.0 x.0 then e ∷ x ∷ xs else x ∷ rest

unfoldable pub sort_by_key : List (ℕ × ℕ) → List (ℕ × ℕ)
unfolding insert_by_key
sort_by_key [] = []
sort_by_key (e ∷ es) = insert_by_key e (sort_by_key es)

abbrev pub withdrawal_credit : ℕ × ℕ → SystemCredit
withdrawal_credit (recipient, total) = record {
  address = recipient;
  signed_wei = clamp_i128 total;
  counterparty = 0;
  source = codes "withdrawal";
}

-- The sum over (effective_gas_price, gas_used) of the part above the base fee.
unfoldable pub priority_total : ℕ → ℕ → List (ℕ × ℕ) → ℕ
priority_total base_fee_per_gas total [] = total
priority_total base_fee_per_gas total ((effective_gas_price, gas_used) ∷ txs) =
    priority_total base_fee_per_gas
      (u256_add total (u256_mul (effective_gas_price - base_fee_per_gas) gas_used)) txs

unfoldable pub reward_credit : List ℕ → ℕ → ℕ → List SystemCredit
reward_credit watched beneficiary total =
    if contains watched beneficiary
    then (if total == 0
        then []
        else record {
          address = beneficiary;
          signed_wei = clamp_i128 total;
          counterparty = beneficiary;
          source = codes "block_reward";
        }
          ∷ [])
    else []

unfoldable pub l1_system_credits : List ℕ → List (ℕ × ℕ) → ℕ → ℕ → List (ℕ × ℕ) → List SystemCredit
unfolding wd_total sort_by_key priority_total reward_credit
l1_system_credits watched withdrawals beneficiary base_fee_per_gas txs =
    map withdrawal_credit (sort_by_key (wd_total watched [] withdrawals))
    ++ reward_credit watched beneficiary (priority_total base_fee_per_gas 0 txs)
