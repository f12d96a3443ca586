-- ===== src/Pipeline/Indexes.antt =====
-- The numbering of the logs of a block, and the gas of its transactions.
use passbook.Prelude.{
  ℕ, suc, ◌+◌, ◌≤◌, ◌≡◌, refl, ap, ◌∙◌, sym, Option, List, [], ◌∷◌, ◌++◌, map, arith, get_elem?,
}
use passbook.Erc20.{RawLog}
use passbook.Pipeline.Executed.{Transaction, Receipt}
use passbook.Pipeline.{receipt_logs, block_logs, used_gas, count, hash_of}

-- n, n + 1 and so on, one for each item.
abbrev pub numbered : {A : Type 0} → ℕ → List A → List (ℕ × A)
numbered n [] = []
numbered n (x ∷ xs) = (n, x) ∷ numbered (suc n) xs

unfoldable pub all_logs : List Receipt → List RawLog
all_logs [] = []
all_logs (r ∷ rs) = r.logs ++ all_logs rs

abbrev pub without_tx : Option ℕ × ℕ × RawLog → ℕ × RawLog
without_tx (tx, n, log) = (n, log)

numbered-append :
    (n : ℕ) (xs ys : List RawLog)
    → numbered n (xs ++ ys) ≡ numbered n xs ++ numbered (n + count xs) ys
numbered-append n [] ys = ap (λ (k : ℕ). numbered k ys) (omega arith)
numbered-append n (x ∷ xs) ys =
    ap (λ l. (n, x) ∷ l)
      (numbered-append (suc n) xs ys
        ∙ ap (λ (k : ℕ). numbered (suc n) xs ++ numbered k ys) (omega arith))

receipt_logs-numbered :
    (tx : Option ℕ) (n : ℕ) (logs : List RawLog) (rest : List (Option ℕ × ℕ × RawLog))
    → map without_tx (receipt_logs tx n logs ++ rest) ≡ numbered n logs ++ map without_tx rest
unfolding receipt_logs
receipt_logs-numbered tx n [] rest = refl
receipt_logs-numbered tx n (log ∷ logs) rest =
    ap (λ l. (n, log) ∷ l) (receipt_logs-numbered tx (suc n) logs rest)

-- The logs handed to the decoder are all logs of all receipts in order, numbered through the whole block
-- from the given start without a gap, not anew for each receipt.
pub block_logs-numbered :
    (txs : List Transaction) (tx_idx log_index : ℕ) (receipts : List Receipt)
    → map without_tx (block_logs txs tx_idx log_index receipts)
      ≡ numbered log_index (all_logs receipts)
unfolding block_logs all_logs
block_logs-numbered txs i k [] = refl
block_logs-numbered txs i k (r ∷ rs) =
    receipt_logs-numbered (hash_of (get_elem? txs i)) k r.logs _
    ∙ ap (λ l. numbered k r.logs ++ l) (block_logs-numbered txs (suc i) (k + count r.logs) rs)
    ∙ sym (numbered-append k r.logs (all_logs rs))

unfoldable total_used : List (ℕ × Transaction × ℕ) → ℕ
total_used [] = 0
total_used ((i, tx, gas_used) ∷ xs) = gas_used + total_used xs

-- The cumulative gas does not fall, and each transaction has a receipt.
abbrev pub Cumulative : ℕ → List Transaction → List Receipt → Type 0
Cumulative prev [] [] = Unit
Cumulative prev [] (r ∷ rs) = ⊥
Cumulative prev (tx ∷ txs) [] = ⊥
Cumulative prev (tx ∷ txs) (r ∷ rs) =
    (prev ≤ r.cumulative_gas_used) × Cumulative r.cumulative_gas_used txs rs

abbrev last_cumulative : ℕ → List Receipt → ℕ
last_cumulative prev [] = prev
last_cumulative prev (r ∷ rs) = last_cumulative r.cumulative_gas_used rs

-- Where each transaction has a receipt and the cumulative gas does not fall, the gas of the single
-- transactions adds up to the rise of the cumulative gas over the block.
used_gas_total :
    (txs : List Transaction) (tx_idx prev : ℕ) (receipts : List Receipt)
    → Cumulative prev txs receipts
    → prev + total_used (used_gas tx_idx prev txs receipts) ≡ last_cumulative prev receipts
unfolding used_gas total_used
used_gas_total [] i prev [] h = omega arith
used_gas_total [] i prev (r ∷ rs) h = absurd h
used_gas_total (tx ∷ txs) i prev [] h = absurd h
used_gas_total (tx ∷ txs) i prev (r ∷ rs) h =
    omega (arith, h.0, used_gas_total txs (suc i) r.cumulative_gas_used rs h.1)
