-- ===== src/Attribution/Gas.antt =====
-- A gas payment is exact: nothing wraps for the widths that the chain uses.
use passbook.Prelude.{ℕ, ◌+◌, ◌*◌, ◌^◌, ◌<◌, ◌≤◌, ◌≡◌, refl, ◌-◌, unwrap_or, arith}
use passbook.Prelude.Words.{u256_mul, u256_add}
use passbook.Attribution.{GasInput, compute_gas_payment}

product_bound : (a b m n : ℕ) → a ≤ m → b ≤ n → a * b ≤ m * n
product_bound a b m n h k = grind arith

-- For a u64 of gas at a u128 price, and an L1 fee below 2 ^ 255, the L2 fee is their product and the
-- total the sum of both fees, with no wrap-around; the row is the sender's.
pub compute_gas_payment-exact :
    (i : GasInput)
    → i.gas_used < 2 ^ 64
    → i.effective_gas_price < 2 ^ 128
    → unwrap_or i.l1_fee_wei 0 < 2 ^ 255
    → let row = compute_gas_payment i in
      (row.l2_fee_wei ≡ i.gas_used * i.effective_gas_price)
      × (row.total_wei ≡ i.gas_used * i.effective_gas_price + unwrap_or i.l1_fee_wei 0)
      × (row.address ≡ i.tx_from)
unfolding compute_gas_payment u256_mul u256_add
compute_gas_payment-exact i a b c =
    let bound =
      product_bound i.gas_used i.effective_gas_price (2 ^ 64 - 1) (2 ^ 128 - 1) (omega arith)
        (omega arith) in
    (omega (arith, bound), omega (arith, bound), refl)
