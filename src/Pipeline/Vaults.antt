-- ===== src/Pipeline/Vaults.antt =====
-- What the fee vaults of an OP chain receive: `fee_vault_credits` of
-- crates/passbook-stack-optimism/src/op_chain.rs.
use passbook.Prelude.{
  ℕ, ◌+◌, ◌-◌, ◌*◌, ◌^◌, ◌≤◌, ◌<◌, ◌≡◌, ◌∙◌, ◌==◌, if◌then◌else◌, ap, true, contains, List, [], ◌∷◌,
  arith,
}
use passbook.Prelude.Int.{pos, ◌+ℤ◌}
use passbook.Prelude.Text.{Text, codes}
use passbook.Prelude.Words.{u256_add, u256_mul, clamp_i128, i128_max}
use passbook.System.Credited.{credited-append, other_unwatched}
use passbook.Block.Sums.{credited}
use passbook.Pipeline.Optimism.{
  VaultTotals, vault_totals, vault_credit, base_fee_vault, l1_fee_vault, fee_vault_credits,
}

-- What the transactions, (price, gas, L1 fee), pay above the base fee, for the base fee, and for L1.
unfoldable pub above_base : ℕ → List (ℕ × ℕ × ℕ) → ℕ
above_base base [] = 0
above_base base ((price, gas, l1_fee) ∷ txs) = (price - base) * gas + above_base base txs

unfoldable pub base_fees : ℕ → List (ℕ × ℕ × ℕ) → ℕ
base_fees base [] = 0
base_fees base ((price, gas, l1_fee) ∷ txs) = base * gas + base_fees base txs

unfoldable pub l1_fees : List (ℕ × ℕ × ℕ) → ℕ
l1_fees [] = 0
l1_fees ((price, gas, l1_fee) ∷ txs) = l1_fee + l1_fees txs

-- The three sums do not wrap.
abbrev Sums : ℕ → List (ℕ × ℕ × ℕ) → VaultTotals → VaultTotals → Type 0
Sums base txs t r =
    (r.priority_total ≡ t.priority_total + above_base base txs)
    × (r.base_total ≡ t.base_total + base_fees base txs)
    × (r.l1_total ≡ t.l1_total + l1_fees txs)

vault_totals-Sums :
    (base : ℕ) (txs : List (ℕ × ℕ × ℕ)) (t : VaultTotals)
    → t.priority_total + above_base base txs < 2 ^ 256
    → t.base_total + base_fees base txs < 2 ^ 256
    → t.l1_total + l1_fees txs < 2 ^ 256
    → Sums base txs t (vault_totals base txs t)
unfolding vault_totals above_base base_fees l1_fees u256_add u256_mul
vault_totals-Sums base [] t h k m = (omega arith, omega arith, omega arith)
vault_totals-Sums base ((p, g, l) ∷ txs) t h k m =
    let e₁ : u256_add t.priority_total (u256_mul (p - base) g) ≡ t.priority_total + (p - base) * g =
      omega arith in
    let e₂ : u256_add t.base_total (u256_mul base g) ≡ t.base_total + base * g = omega arith in
    let e₃ : u256_add t.l1_total l ≡ t.l1_total + l = omega arith in
    let ih =
      vault_totals-Sums base txs
        (record {
          priority_total = u256_add t.priority_total (u256_mul (p - base) g);
          base_total = u256_add t.base_total (u256_mul base g);
          l1_total = u256_add t.l1_total l;
        })
        (omega arith) (omega arith) (omega arith) in
    (ih.0 ∙ omega arith, ih.1 ∙ omega arith, ih.2 ∙ omega arith)

module _ (watched : List ℕ) (a : ℕ) (w : contains watched a ≡ true) where
  credited-vault :
      (addr total : ℕ) (source : Text)
      → total ≤ i128_max
      → credited a (vault_credit watched addr total source) ≡ pos (if addr == a then total else 0)
  unfolding credited clamp_i128 ◌+ℤ◌
  credited-vault addr total source h = ground (arith, other_unwatched watched a addr w)

  -- What a watched vault is credited with is what the transactions pay into it: the coinbase what they pay
  -- above the base fee, 0x4200..0019 the base fees and 0x4200..001a the L1 fees, if each sum is no more than
  -- i128::MAX. An account that is more than one of these is credited with all of them, and another with none.
  pub fee_vault_credits-credited :
      (coinbase base : ℕ) (txs : List (ℕ × ℕ × ℕ))
      → above_base base txs ≤ i128_max
      → base_fees base txs ≤ i128_max
      → l1_fees txs ≤ i128_max
      → credited a (fee_vault_credits watched coinbase base txs)
        ≡ pos (
            (if coinbase == a then above_base base txs else 0)
            + ((if 0x4200000000000000000000000000000000000019 == a then base_fees base txs else 0)
                + (if 0x420000000000000000000000000000000000001a == a then l1_fees txs else 0)))
  unfolding fee_vault_credits
  fee_vault_credits-credited coinbase base txs h k m =
      let t = vault_totals base txs (record { priority_total = 0; base_total = 0; l1_total = 0 }) in
      let (e₁, e₂, e₃) =
        vault_totals-Sums base txs (record { priority_total = 0; base_total = 0; l1_total = 0 })
          (omega arith) (omega arith) (omega arith) in
      let p : t.priority_total ≡ above_base base txs = e₁ ∙ omega arith in
      let q : t.base_total ≡ base_fees base txs = e₂ ∙ omega arith in
      let r : t.l1_total ≡ l1_fees txs = e₃ ∙ omega arith in
      credited-append a
        (vault_credit watched coinbase t.priority_total (codes "sequencer_fee_vault")) _ _ _
        (credited-vault coinbase t.priority_total _ (omega (arith, p, h))
          ∙ ap (λ n. pos (if coinbase == a then n else 0)) p)
        (credited-append a
          (vault_credit watched base_fee_vault t.base_total (codes "base_fee_vault")) _ _ _
          (credited-vault base_fee_vault t.base_total _ (omega (arith, q, k))
            ∙ ap (λ n. pos (if base_fee_vault == a then n else 0)) q)
          (credited-vault l1_fee_vault t.l1_total _ (omega (arith, r, m))
            ∙ ap (λ n. pos (if l1_fee_vault == a then n else 0)) r))
