-- ===== src/Block/Sums.antt =====
-- The sums that reconciliation uses are those of the block: over frames that were not reverted, over gas
-- payments, and over recognised credits.
use passbook.Prelude.{
  ℕ, ◌+◌, ◌^◌, ◌<◌, ◌≡◌, sym, ◌∙◌, ap, Bool, true, not, ◌&&◌, Option, List, [], ◌∷◌, ◌==◌,
  if◌then◌else◌, contains, arith,
}
use passbook.Prelude.Int.{ℤ, pos, ◌+ℤ◌, int_laws}
use passbook.Prelude.Words.{
  u256_add, u256_add-exact, i128_add, wrap_i128, wrap_i128-exact, wrap_i128-add, InI128,
  InI128-wrap_i128,
}
use passbook.Prelude.AddrMap.{AddrMap, get_or, update_entry, get_or-update_entry}
use passbook.Model.{GasPaymentRow}
use passbook.Inspector.{CapturedFrame}
use passbook.Attribution.{attribute_eth_frames, in_row, out_row}
use passbook.System.{SystemCredit}
use passbook.Block.Inputs.{BlockInputs}
use passbook.Block.Rows.{Native, native_frame, native_frames, gas_paid, sys_per_addr}

abbrev pub Frame : Type 0
Frame = Option ℕ × Bool × CapturedFrame

abbrev pub in_value : ℕ → Frame → ℕ
in_value a (tx, reverted, f) = if not reverted && f.to == a then f.value else 0

abbrev pub out_value : ℕ → Frame → ℕ
out_value a (tx, reverted, f) = if not reverted && f.from == a then f.value else 0

-- What a receives and sends in the frames that were not reverted.
unfoldable pub inflow : ℕ → List Frame → ℕ
inflow a [] = 0
inflow a (x ∷ xs) = in_value a x + inflow a xs

unfoldable pub outflow : ℕ → List Frame → ℕ
outflow a [] = 0
outflow a (x ∷ xs) = out_value a x + outflow a xs

unfoldable pub gas_total : ℕ → List GasPaymentRow → ℕ
gas_total a [] = 0
gas_total a (g ∷ gs) = (if g.address == a then g.total_wei else 0) + gas_total a gs

unfoldable pub credited : ℕ → List SystemCredit → ℤ
credited a [] = pos 0
credited a (sc ∷ scs) = (if sc.address == a then sc.signed_wei else pos 0) +ℤ credited a scs

module _ (i : BlockInputs) (a : ℕ) (w : contains i.watched a ≡ true) where
  native_frame-eth_in :
      (tx : Option ℕ) (reverted : Bool) (f : CapturedFrame) (n : Native)
      → get_or n.eth_in a 0 + in_value a (tx, reverted, f) < 2 ^ 256
      → get_or (native_frame i tx reverted f n).eth_in a 0
        ≡ get_or n.eth_in a 0 + in_value a (tx, reverted, f)
  unfolding native_frame attribute_eth_frames in_row out_row
  native_frame-eth_in tx reverted f n h = ground (
    arith,
    get_or-update_entry f.to a 0 (λ (t : ℕ). u256_add t f.value) n.eth_in,
    u256_add-exact (get_or n.eth_in a 0) f.value,
  )

  native_frame-eth_out :
      (tx : Option ℕ) (reverted : Bool) (f : CapturedFrame) (n : Native)
      → get_or n.eth_out a 0 + out_value a (tx, reverted, f) < 2 ^ 256
      → get_or (native_frame i tx reverted f n).eth_out a 0
        ≡ get_or n.eth_out a 0 + out_value a (tx, reverted, f)
  unfolding native_frame attribute_eth_frames in_row out_row
  native_frame-eth_out tx reverted f n h = ground (
    arith,
    get_or-update_entry f.from a 0 (λ (t : ℕ). u256_add t f.value) n.eth_out,
    u256_add-exact (get_or n.eth_out a 0) f.value,
  )

  pub native_frames-eth_in :
      (xs : List Frame) (n : Native)
      → get_or n.eth_in a 0 + inflow a xs < 2 ^ 256
      → get_or (native_frames i xs n).eth_in a 0 ≡ get_or n.eth_in a 0 + inflow a xs
  unfolding native_frames inflow
  native_frames-eth_in [] n h = omega arith
  native_frames-eth_in ((tx, reverted, f) ∷ xs) n h =
      let e = native_frame-eth_in tx reverted f n (omega arith) in
      let ih = native_frames-eth_in xs (native_frame i tx reverted f n) (omega arith) in omega arith

  pub native_frames-eth_out :
      (xs : List Frame) (n : Native)
      → get_or n.eth_out a 0 + outflow a xs < 2 ^ 256
      → get_or (native_frames i xs n).eth_out a 0 ≡ get_or n.eth_out a 0 + outflow a xs
  unfolding native_frames outflow
  native_frames-eth_out [] n h = omega arith
  native_frames-eth_out ((tx, reverted, f) ∷ xs) n h =
      let e = native_frame-eth_out tx reverted f n (omega arith) in
      let ih = native_frames-eth_out xs (native_frame i tx reverted f n) (omega arith) in
      omega arith

pub gas_paid-get_or :
    (a : ℕ) (gs : List GasPaymentRow) (m : AddrMap ℕ)
    → get_or m a 0 + gas_total a gs < 2 ^ 256
    → get_or (gas_paid gs m) a 0 ≡ get_or m a 0 + gas_total a gs
unfolding gas_paid gas_total
gas_paid-get_or a [] m h = omega arith
gas_paid-get_or a (g ∷ gs) m h =
    let paid = update_entry g.address 0 (λ (t : ℕ). u256_add t g.total_wei) m in
    let e : get_or paid a 0 ≡ get_or m a 0 + (if g.address == a then g.total_wei else 0) = ground (
      arith,
      get_or-update_entry g.address a 0 (λ (t : ℕ). u256_add t g.total_wei) m,
      u256_add-exact (get_or m a 0) g.total_wei,
    ) in
    let ih = gas_paid-get_or a gs paid (omega arith) in omega arith

pub add_zero : (z : ℤ) → z +ℤ pos 0 ≡ z
add_zero z = omega int_laws

pub zero_add : (z : ℤ) → pos 0 +ℤ z ≡ z
zero_add z = omega int_laws

pub +ℤ_assoc : (x y z : ℤ) → x +ℤ y +ℤ z ≡ x +ℤ (y +ℤ z)
+ℤ_assoc x y z = omega int_laws

-- One credit.
abbrev credit_to : List ℕ → SystemCredit → AddrMap ℤ → AddrMap ℤ
credit_to watched sc m =
    if contains watched sc.address
    then update_entry sc.address (pos 0) (λ t. i128_add t sc.signed_wei) m
    else m

credit_to-get_or :
    (watched : List ℕ) (a : ℕ) (w : contains watched a ≡ true) (sc : SystemCredit) (m : AddrMap ℤ)
    → InI128 (get_or m a (pos 0))
    → get_or (credit_to watched sc m) a (pos 0)
      ≡ wrap_i128 (get_or m a (pos 0) +ℤ (if sc.address == a then sc.signed_wei else pos 0))
unfolding i128_add
credit_to-get_or watched a w sc m h = ground (
  arith,
  get_or-update_entry sc.address a (pos 0) (λ (t : ℤ). i128_add t sc.signed_wei) m,
  add_zero (get_or m a (pos 0)),
  wrap_i128-exact (get_or m a (pos 0)) h,
)

-- The wrapping sum of the credits is the wrapped one of the whole sum.
pub sys_per_addr-get_or :
    (watched : List ℕ) (a : ℕ) (w : contains watched a ≡ true) (scs : List SystemCredit)
    (m : AddrMap ℤ)
    → InI128 (get_or m a (pos 0))
    → get_or (sys_per_addr watched scs m) a (pos 0)
      ≡ wrap_i128 (get_or m a (pos 0) +ℤ credited a scs)
unfolding sys_per_addr credited
sys_per_addr-get_or watched a w [] m h =
    sym (rw (add_zero (get_or m a (pos 0))) (wrap_i128-exact _ h))
sys_per_addr-get_or watched a w (sc ∷ scs) m h =
    let x : ℤ = if sc.address == a then sc.signed_wei else pos 0 in
    let e = credit_to-get_or watched a w sc m h in
    let ih =
      sys_per_addr-get_or watched a w scs (credit_to watched sc m)
        (rw e (InI128-wrap_i128 (get_or m a (pos 0) +ℤ x))) in
    ih
    ∙ ap (λ t. wrap_i128 (t +ℤ credited a scs)) e
    ∙ wrap_i128-add (get_or m a (pos 0) +ℤ x) (credited a scs)
    ∙ ap wrap_i128 (+ℤ_assoc (get_or m a (pos 0)) x (credited a scs))
