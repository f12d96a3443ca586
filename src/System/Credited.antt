-- ===== src/System/Credited.antt =====
-- What the recognised system credits of L1 add up to for a watched account: `l1_system_credits` of
-- crates/passbook-core/src/system.rs.
use passbook.Prelude.{
  ℕ, ◌+◌, ◌-◌, ◌*◌, ◌^◌, ◌<◌, ◌≤◌, ◌≡◌, refl, sym, ap, ◌∙◌, true, false, List, [], ◌∷◌, ◌++◌, ◌==◌,
  if◌then◌else◌, contains, map, arith,
}
use passbook.Prelude.Int.{pos, ◌+ℤ◌}
use passbook.Prelude.Words.{u256_add, u256_mul, clamp_i128, i128_max}
use passbook.Prelude.AddrMap.{AddrMap, update_entry}
use passbook.System.{
  SystemCredit, wd_total, insert_by_key, sort_by_key, withdrawal_credit, priority_total,
  reward_credit, l1_system_credits,
}
use passbook.Block.Sums.{credited, zero_add, +ℤ_assoc}

-- What a list of amounts has for an account.
unfoldable pub amount : ℕ → List (ℕ × ℕ) → ℕ
amount a [] = 0
amount a ((j, v) ∷ m) = (if j == a then v else 0) + amount a m

-- What the transactions pay above the base fee.
unfoldable pub tips : ℕ → List (ℕ × ℕ) → ℕ
tips base [] = 0
tips base ((price, gas) ∷ txs) = (price - base) * gas + tips base txs

amount-update_entry :
    (a k x : ℕ) (m : AddrMap ℕ)
    → amount a m + (if k == a then x else 0) < 2 ^ 256
    → amount a (update_entry k 0 (λ t. u256_add t x) m) ≡ amount a m + (if k == a then x else 0)
unfolding amount update_entry u256_add
amount-update_entry a k x [] h = ground arith
amount-update_entry a k x ((j, v) ∷ m) h = ground (arith, amount-update_entry a k x m)

amount-insert_by_key :
    (a : ℕ) (e : ℕ × ℕ) (xs : List (ℕ × ℕ)) → amount a (insert_by_key e xs) ≡ amount a (e ∷ xs)
unfolding amount insert_by_key
amount-insert_by_key a e [] = refl
amount-insert_by_key a e (x ∷ xs) = ground (arith, amount-insert_by_key a e xs)

amount-sort_by_key : (a : ℕ) (xs : List (ℕ × ℕ)) → amount a (sort_by_key xs) ≡ amount a xs
unfolding amount sort_by_key
amount-sort_by_key a [] = refl
amount-sort_by_key a (e ∷ xs) =
    amount-insert_by_key a e (sort_by_key xs)
    ∙ ap (λ (n : ℕ). (if e.0 == a then e.1 else 0) + n) (amount-sort_by_key a xs)

pub other_unwatched :
    (watched : List ℕ) (a r : ℕ)
    → contains watched a ≡ true
    → contains watched r ≡ false
    → (r == a) ≡ false
other_unwatched [] a r h k = cc
other_unwatched (w ∷ watched) a r h k = ground (arith, other_unwatched watched a r)

tips_sum :
    (base total : ℕ) (txs : List (ℕ × ℕ))
    → total + tips base txs < 2 ^ 256
    → priority_total base total txs ≡ total + tips base txs
unfolding priority_total tips u256_add u256_mul
tips_sum base total [] h = omega arith
tips_sum base total ((price, gas) ∷ txs) h =
    let e : u256_add total (u256_mul (price - base) gas) ≡ total + (price - base) * gas =
      omega arith in
    tips_sum base (u256_add total (u256_mul (price - base) gas)) txs (omega arith) ∙ omega arith

pub pos_add : (n m : ℕ) → pos n +ℤ pos m ≡ pos (n + m)
unfolding ◌+ℤ◌
pos_add n m = ground arith

pub credited-++ :
    (a : ℕ) (xs ys : List SystemCredit) → credited a (xs ++ ys) ≡ credited a xs +ℤ credited a ys
unfolding credited
credited-++ a [] ys = sym (zero_add (credited a ys))
credited-++ a (x ∷ xs) ys =
    ap (λ z. (if x.address == a then x.signed_wei else pos 0) +ℤ z) (credited-++ a xs ys)
    ∙ sym
        (+ℤ_assoc (if x.address == a then x.signed_wei else pos 0) (credited a xs) (credited a ys))

pub credited-append :
    (a : ℕ) (xs ys : List SystemCredit) (n m : ℕ)
    → credited a xs ≡ pos n
    → credited a ys ≡ pos m
    → credited a (xs ++ ys) ≡ pos (n + m)
credited-append a xs ys n m h k =
    credited-++ a xs ys ∙ ap (λ z. z +ℤ credited a ys) h ∙ ap (λ z. pos n +ℤ z) k ∙ pos_add n m

module _ (watched : List ℕ) (a : ℕ) (w : contains watched a ≡ true) where
  amount_step :
      (r x : ℕ) (totals : AddrMap ℕ)
      → amount a totals + (if r == a then x else 0) < 2 ^ 256
      → amount a
          (if contains watched r then update_entry r 0 (λ t. u256_add t x) totals else totals)
        ≡ amount a totals + (if r == a then x else 0)
  amount_step r x totals h =
      ground (arith, amount-update_entry a r x totals, other_unwatched watched a r w)

  amount-wd_total :
      (totals : AddrMap ℕ) (ws : List (ℕ × ℕ))
      → amount a totals + amount a ws < 2 ^ 256
      → amount a (wd_total watched totals ws) ≡ amount a totals + amount a ws
  unfolding wd_total amount
  amount-wd_total totals [] h = omega arith
  amount-wd_total totals ((r, x) ∷ ws) h =
      let e = amount_step r x totals (omega arith) in
      amount-wd_total
        (if contains watched r then update_entry r 0 (λ t. u256_add t x) totals else totals) ws
        (omega arith)
      ∙ omega arith

  credit_add :
      (j v rest : ℕ)
      → (if j == a then v else 0) + rest ≤ i128_max
      → (if j == a then clamp_i128 v else pos 0) +ℤ pos rest
        ≡ pos ((if j == a then v else 0) + rest)
  unfolding clamp_i128 ◌+ℤ◌
  credit_add j v rest h = ground arith

  credited-withdrawals :
      (m : List (ℕ × ℕ))
      → amount a m ≤ i128_max
      → credited a (map withdrawal_credit m) ≡ pos (amount a m)
  unfolding credited amount clamp_i128 ◌+ℤ◌
  credited-withdrawals [] h = refl
  credited-withdrawals ((j, v) ∷ m) h =
      let ih = credited-withdrawals m (omega arith) in
      ap (λ z. (if j == a then clamp_i128 v else pos 0) +ℤ z) ih ∙ credit_add j v (amount a m) h

  credited-reward :
      (beneficiary total : ℕ)
      → total ≤ i128_max
      → credited a (reward_credit watched beneficiary total)
        ≡ pos (if beneficiary == a then total else 0)
  unfolding credited reward_credit clamp_i128 ◌+ℤ◌
  credited-reward beneficiary total h = ground (arith, other_unwatched watched a beneficiary w)

  -- The credits of a watched account add up to its withdrawals in the block and, for the beneficiary, what
  -- the transactions pay above the base fee, if this is no more than i128::MAX.
  pub l1_system_credits-credited :
      (withdrawals : List (ℕ × ℕ)) (beneficiary base : ℕ) (txs : List (ℕ × ℕ))
      → amount a withdrawals + tips base txs ≤ i128_max
      → credited a (l1_system_credits watched withdrawals beneficiary base txs)
        ≡ pos (amount a withdrawals + (if beneficiary == a then tips base txs else 0))
  unfolding l1_system_credits amount
  l1_system_credits-credited withdrawals beneficiary base txs h =
      let paid : amount a (sort_by_key (wd_total watched [] withdrawals)) ≡ amount a withdrawals =
        amount-sort_by_key a (wd_total watched [] withdrawals)
        ∙ amount-wd_total [] withdrawals (omega arith)
        ∙ omega arith in
      let reward : priority_total base 0 txs ≡ tips base txs =
        tips_sum base 0 txs (omega arith) ∙ omega arith in
      credited-append a (map withdrawal_credit (sort_by_key (wd_total watched [] withdrawals)))
        (reward_credit watched beneficiary (priority_total base 0 txs)) _ _
        (credited-withdrawals _ (omega arith) ∙ ap pos paid)
        (credited-reward beneficiary _ (omega arith)
          ∙ ap (λ t. pos (if beneficiary == a then t else 0)) reward)
