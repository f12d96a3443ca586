-- ===== src/Model/Spelling.antt =====
-- The spelling of the enumerations in the database: `as_str` and `from_str` of model.rs.
use passbook.Prelude.{◌≡◌, refl, Option, none, some, if◌then◌else◌, arith, ◌↔◌}
use passbook.Prelude.Text.{Text, codes, text_eq, text_eq_iff}
use passbook.Model.{
  Direction, into, out, EthKind, top_level, internal, system, UnattributedDeltaCause,
  parent_state_unavailable, unexplained_residual, block_not_delivered,
}

unfoldable pub direction_str : Direction → Text
direction_str into = codes "in"
direction_str out = codes "out"

unfoldable pub direction_from_str : Text → Option Direction
direction_from_str s =
    if text_eq s (codes "in") then some into else if text_eq s (codes "out") then some out else none

unfoldable pub eth_kind_str : EthKind → Text
eth_kind_str top_level = codes "top_level"
eth_kind_str internal = codes "internal"
eth_kind_str system = codes "system"

unfoldable pub cause_str : UnattributedDeltaCause → Text
cause_str parent_state_unavailable = codes "parent_state_unavailable"
cause_str unexplained_residual = codes "unexplained_residual"
cause_str block_not_delivered = codes "block_not_delivered"

unfoldable pub cause_from_str : Text → Option UnattributedDeltaCause
cause_from_str s =
    if text_eq s (codes "parent_state_unavailable")
    then some parent_state_unavailable
    else if text_eq s (codes "unexplained_residual")
    then some unexplained_residual
    else if text_eq s (codes "block_not_delivered")
    then some block_not_delivered
    else none

cause_from_str-cause_str : (c : UnattributedDeltaCause) → cause_from_str (cause_str c) ≡ some c
unfolding cause_from_str cause_str text_eq
cause_from_str-cause_str parent_state_unavailable = refl
cause_from_str-cause_str unexplained_residual = refl
cause_from_str-cause_str block_not_delivered = refl

-- A text is read as the cause c exactly when it is the spelling of c.
cause_from_str_iff :
    (s : Text) (c : UnattributedDeltaCause) → (cause_from_str s ≡ some c) ↔ (s ≡ cause_str c)
unfolding cause_from_str cause_str
cause_from_str_iff s c = (
  λ h. ground (
    arith,
    text_eq_iff s (codes "parent_state_unavailable"),
    text_eq_iff s (codes "unexplained_residual"),
    text_eq_iff s (codes "block_not_delivered"),
  ),
  λ h. rw h (cause_from_str-cause_str c),
)
