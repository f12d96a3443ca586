-- ===== src/Pipeline/Optimism/Paid.antt =====
-- The transactions of an OP block that pay the fee vaults, by their position in the block: what `vault_txs` and the
-- fee table of crates/passbook-stack-optimism/src/op_chain.rs come to.
use passbook.Prelude.{
  ℕ, zero, suc, ◌+◌, ◌-◌, ◌≡◌, refl, ap, ◌∙◌, Bool, true, false, Option, none, some, List, [], ◌∷◌,
  get_elem?, unwrap_or, arith,
}
use passbook.Stack.{from_fees, join_option, StackAdapter}
use passbook.Stack.FeeTable.{fee_at, build_block_l1_fee_table_positions}
use passbook.Pipeline.Executed.{Transaction, Receipt}
use passbook.Pipeline.{used_gas}
use passbook.Pipeline.Optimism.{no_fees, l1_adapter, vault_txs}

-- The L1 fee of a transaction, by the fee function of its block, if there is one.
abbrev pub l1_paid : Option (List ℕ → Option ℕ) → Option (Bool × List ℕ) → ℕ
l1_paid none t = 0
l1_paid (some fee_of) t = unwrap_or (fee_at fee_of t) 0

-- The price, the gas and the L1 fee of each transaction that is no deposit.
unfoldable pub paid :
    Option (List ℕ → Option ℕ)
    → List (Bool × List ℕ)
    → ℕ
    → List Transaction
    → List Receipt
    → List (ℕ × ℕ × ℕ)
paid info [] prev txs receipts = []
paid info (t ∷ ts) prev [] receipts = []
paid info (t ∷ ts) prev (tx ∷ txs) [] = []
paid info ((true, raw) ∷ ts) prev (tx ∷ txs) (receipt ∷ receipts) =
    paid info ts receipt.cumulative_gas_used txs receipts
paid info ((false, raw) ∷ ts) prev (tx ∷ txs) (receipt ∷ receipts) =
    (tx.effective_gas_price, receipt.cumulative_gas_used - prev, l1_paid info (some (false, raw)))
    ∷ paid info ts receipt.cumulative_gas_used txs receipts

no_fee :
    (ts : List (Bool × List ℕ)) (i : ℕ) → unwrap_or (join_option (get_elem? (no_fees ts) i)) 0 ≡ 0
no_fee [] i = refl
no_fee (t ∷ ts) zero = refl
no_fee (t ∷ ts) (suc i) = no_fee ts i

pub l1_adapter-l1_paid :
    (ts : List (Bool × List ℕ)) (info : Option (List ℕ → Option ℕ)) (i : ℕ)
    → unwrap_or ((l1_adapter ts info).l1_data_fee_wei i) 0 ≡ l1_paid info (get_elem? ts i)
unfolding from_fees
l1_adapter-l1_paid ts none i = no_fee ts i
l1_adapter-l1_paid ts (some fee_of) i =
    ap (λ f. unwrap_or f 0) (build_block_l1_fee_table_positions ts fee_of i)

module _ (adapter : StackAdapter) (info : Option (List ℕ → Option ℕ)) where
  -- The fees of the adapter from position i on are those of these transactions.
  abbrev From : ℕ → List (Bool × List ℕ) → Type 0
  From i ts =
      (j : ℕ) → unwrap_or (adapter.l1_data_fee_wei (i + j)) 0 ≡ l1_paid info (get_elem? ts j)

  next_From :
      (i : ℕ) (t : Bool × List ℕ) (ts : List (Bool × List ℕ)) → From i (t ∷ ts) → From (suc i) ts
  next_From i t ts h j =
      let e : suc i + j ≡ i + suc j = omega arith in
      ap (λ k. unwrap_or (adapter.l1_data_fee_wei k) 0) e ∙ h (suc j)

  first_From :
      (i : ℕ) (t : Bool × List ℕ) (ts : List (Bool × List ℕ))
      → From i (t ∷ ts)
      → unwrap_or (adapter.l1_data_fee_wei i) 0 ≡ l1_paid info (some t)
  first_From i t ts h =
      let e : i ≡ i + 0 = omega arith in ap (λ k. unwrap_or (adapter.l1_data_fee_wei k) 0) e ∙ h 0

  pub vault_txs-used_gas :
      (ts : List (Bool × List ℕ)) (i prev : ℕ) (txs : List Transaction) (receipts : List Receipt)
      → From i ts
      → vault_txs adapter ts (used_gas i prev txs receipts) ≡ paid info ts prev txs receipts
  unfolding vault_txs used_gas paid
  vault_txs-used_gas [] i prev txs receipts h = refl
  vault_txs-used_gas (t ∷ ts) i prev [] receipts h = refl
  vault_txs-used_gas (t ∷ ts) i prev (tx ∷ txs) [] h = refl
  vault_txs-used_gas ((true, raw) ∷ ts) i prev (tx ∷ txs) (receipt ∷ receipts) h =
      vault_txs-used_gas ts (suc i) receipt.cumulative_gas_used txs receipts
        (next_From i (true, raw) ts h)
  vault_txs-used_gas ((false, raw) ∷ ts) i prev (tx ∷ txs) (receipt ∷ receipts) h = λ k.
      (tx.effective_gas_price, receipt.cumulative_gas_used - prev, first_From i (false, raw) ts h k)
      ∷ vault_txs-used_gas ts (suc i) receipt.cumulative_gas_used txs receipts
          (next_From i (false, raw) ts h) k
