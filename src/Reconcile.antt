-- ===== src/Reconcile.antt =====
-- The balance test of one account: crates/passbook-core/src/reconcile.rs.
pub mod Balance
pub mod SkipMode
use passbook.Prelude.{
  ℕ, zero, suc, ◌+◌, ◌-◌, Bool, true, false, ◌&&◌, ◌||◌, Option, none, some, ◌==◌, if◌then◌else◌,
  min,
}
use passbook.Prelude.Int.{ℤ, pos, negsuc, pos_part, neg_part, unsigned_abs}
use passbook.Prelude.Words.{try_i128, checked_add, checked_sub}
use passbook.Prelude.Result.{Result, ok, err, ok_or, ◌>>=◌}
use passbook.Model.{UnattributedDeltaRow, unexplained_residual}

pub record ReconcileInput : Type 0 where
  pub chain_id : ℕ
  pub block_number : ℕ
  pub block_hash : ℕ
  pub address : ℕ
  pub observed_delta : ℤ
  pub eth_in : ℕ
  pub eth_out : ℕ
  pub gas_paid : ℕ
  pub system_signed : ℤ

pub data ReconcileOverflow : Type 0 where
  reconcile_overflow : ReconcileOverflow

abbrev pub is_zero_ℤ : ℤ → Bool
is_zero_ℤ z = unsigned_abs z == 0

abbrev pub to_i : ℕ → Result ReconcileOverflow ℤ
to_i u = ok_or (try_i128 u) reconcile_overflow

-- The row of an account that does not balance.
unfoldable pub unexplained : ReconcileInput → ℤ → ℤ → Option UnattributedDeltaRow
unexplained i attributed residual =
    if is_zero_ℤ residual
    then none
    else some (record {
      chain_id = i.chain_id;
      block_number = i.block_number;
      block_hash = i.block_hash;
      address = i.address;
      observed_wei = unsigned_abs i.observed_delta;
      attributed_wei = unsigned_abs attributed;
      residual_wei = unsigned_abs residual;
      cause = unexplained_residual;
    })

-- The checked sums, once the amounts are i128s.
unfoldable pub attribute :
    ReconcileInput → ℤ → ℤ → ℤ → Result ReconcileOverflow (Option UnattributedDeltaRow)
attribute i eth_in eth_out gas_paid = do
  v ← ok_or (checked_sub eth_in eth_out) reconcile_overflow
  w ← ok_or (checked_sub v gas_paid) reconcile_overflow
  attributed ← ok_or (checked_add w i.system_signed) reconcile_overflow
  residual ← ok_or (checked_sub i.observed_delta attributed) reconcile_overflow
  ok (unexplained i attributed residual)

unfoldable pub reconcile_account :
    ReconcileInput → Result ReconcileOverflow (Option UnattributedDeltaRow)
reconcile_account i = do
  eth_in ← to_i i.eth_in
  eth_out ← to_i i.eth_out
  gas_paid ← to_i i.gas_paid
  attribute i eth_in eth_out gas_paid

-- `z.signum()`: 0, 1 or -1
abbrev pub signum : ℤ → ℤ
signum (pos zero) = pos 0
signum (pos (suc n)) = pos 1
signum (negsuc n) = negsuc 0

abbrev pub eq_ℤ : ℤ → ℤ → Bool
eq_ℤ a b = pos_part a == pos_part b && neg_part a == neg_part b

abbrev pub signs_agree : ℤ → ℤ → Bool
signs_agree observed_signed system_signed =
    is_zero_ℤ system_signed || eq_ℤ (signum observed_signed) (signum system_signed)

-- (observed_wei, attributed_wei, residual_wei)
unfoldable pub skip_mode_attribution : ℤ → ℤ → ℕ × ℕ × ℕ
skip_mode_attribution observed_signed system_signed =
    let observed_wei = unsigned_abs observed_signed in
    let attributed_wei = min (unsigned_abs system_signed) observed_wei in
    if signs_agree observed_signed system_signed
    then (observed_wei, attributed_wei, observed_wei - attributed_wei)
    else (observed_wei, 0, observed_wei)
