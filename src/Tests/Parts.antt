-- ===== src/Tests/Parts.antt =====
-- Replay of calls, decoding, gas and the fee table at concrete inputs.
use passbook.Prelude.{
  ℕ, ◌+◌, ◌≤◌, refl, ◌*◌, ◌≡◌, ◌↔◌, true, false, some, List, [], ◌∷◌, is_some, arith,
}
use passbook.Inspector.{CallInputs, CallScheme, CallValue}
use passbook.Reexec.{new_tagging, collect_tx}
use passbook.Reexec.CallTree.{CallTree, Forest, replay, kept}
use passbook.Reexec.Replay.{collect_tx-replay}
use passbook.Erc20.{decode_transfer}
use passbook.Erc20.Encoding.{
  transfer_log, transfer_of, IsTransferOf, decode_transfer-transfer_log, decode_transfer-some,
}
use passbook.Attribution.{GasInput, compute_gas_payment}
use passbook.Attribution.Gas.{compute_gas_payment-exact}
use passbook.Prelude.Int.{pos}
use passbook.Prelude.Words.{i128_max}
use passbook.System.{l1_system_credits}
use passbook.System.Credited.{amount, tips, l1_system_credits-credited}
use passbook.Block.Sums.{credited}

abbrev call_to : ℕ → ℕ → CallInputs
call_to to v = record {
  caller = 7;
  target_address = to;
  value = CallValue.transfer v;
  scheme = CallScheme.call;
}

-- A call with a reverted call inside and a creation of nothing.
abbrev tree : CallTree
tree =
    CallTree.call_frame (call_to 5 3)
      (Forest.cons (CallTree.call_frame (call_to 8 2) Forest.nil false)
        (Forest.cons (CallTree.selfdestruct 5 7 1) Forest.nil))
      true

collect_tx-replay_example : collect_tx (replay tree new_tagging) ≡ kept true 0 tree
collect_tx-replay_example = collect_tx-replay tree

decode_transfer-transfer_log_example :
    decode_transfer (transfer_log 4 7 5 11 []) (5 ∷ []) ≡ transfer_of 4 7 5 11 true false
decode_transfer-transfer_log_example =
    decode_transfer-transfer_log 4 7 5 11 [] (5 ∷ []) (omega arith) (omega arith) (omega arith)

decode_transfer-some_example :
    (is_some (decode_transfer (transfer_log 4 7 5 11 []) (5 ∷ [])) ≡ true)
    ↔ IsTransferOf (5 ∷ []) (transfer_log 4 7 5 11 [])
decode_transfer-some_example = decode_transfer-some (transfer_log 4 7 5 11 []) (5 ∷ [])

abbrev gas_input : GasInput
gas_input = record {
  chain_id = 1;
  block_number = 40;
  block_hash = 99;
  tx_hash = 9;
  tx_from = 5;
  gas_used = 21000;
  effective_gas_price = 7;
  l1_fee_wei = some 13;
}

compute_gas_payment-exact_example :
    let row = compute_gas_payment gas_input in
    (row.l2_fee_wei ≡ 21000 * 7) × (row.total_wei ≡ 21000 * 7 + 13) × (row.address ≡ 5)
compute_gas_payment-exact_example =
    compute_gas_payment-exact gas_input (omega arith) (omega arith) (omega arith)

abbrev withdrawals : List (ℕ × ℕ)
withdrawals = (5, 7) ∷ (6, 9) ∷ (5, 4) ∷ []

abbrev fees : List (ℕ × ℕ)
fees = (3, 10) ∷ (1, 20) ∷ []

few : amount 5 withdrawals + tips 2 fees ≤ i128_max
unfolding amount tips
few = omega arith

l1_system_credits-credited_example :
    credited 5 (l1_system_credits (5 ∷ []) withdrawals 5 2 fees)
    ≡ pos (amount 5 withdrawals + tips 2 fees)
l1_system_credits-credited_example =
    l1_system_credits-credited (5 ∷ []) 5 refl withdrawals 5 2 fees few
