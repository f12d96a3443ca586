-- ===== src/Inspector.antt =====
-- The value-capture inspector: crates/passbook-core/src/inspector.rs. The hooks are those of revm's
-- `Inspector`; the records for their arguments hold the fields that the program reads.
use passbook.Prelude.{
  ℕ, ◌+◌, Bool, ◌&&◌, not, Option, none, some, List, [], ◌∷◌, ◌++◌, ltb, ◌==◌, if◌then◌else◌,
  length, take,
}
use passbook.Prelude.Text.{Text}
use passbook.Prelude.Decimal.{to_string}

pub data FrameKind : Type 0 where
  call call_code create create2 self_destruct : FrameKind

pub record FrameMove : Type 0 where
  pub from : ℕ
  pub to : ℕ
  pub value : ℕ
  pub kind : FrameKind

pub record CapturedFrame : Type 0 where
  pub from : ℕ
  pub to : ℕ
  pub value : ℕ
  pub kind : FrameKind
  pub trace_path : Text

-- `revert_marks` has the innermost open frame's mark first.
pub record ValueInspector : Type 0 where
  pub seq : ℕ
  pub frames : List CapturedFrame
  pub revert_marks : List ℕ

abbrev pub new_inspector : ValueInspector
new_inspector = record { seq = 0; frames = []; revert_marks = [] }

unfoldable pub push_frame : ValueInspector → FrameMove → ValueInspector
push_frame i m = if m.value == 0 then i else record i {
  seq = i.seq + 1;
  frames =
      i.frames
      ++ record {
        from = m.from;
        to = m.to;
        value = m.value;
        kind = m.kind;
        trace_path = to_string i.seq;
      }
        ∷ [];
}

unfoldable pub enter_frame : ValueInspector → ValueInspector
enter_frame i = record i { revert_marks = length i.frames ∷ i.revert_marks }

unfoldable pub pop_mark : Bool → List ℕ → ValueInspector → ValueInspector
pop_mark reverted [] i = i
pop_mark reverted (mark ∷ marks) i =
    if reverted && ltb mark (length i.frames)
    then record i { frames = take mark i.frames; revert_marks = marks }
    else record i { revert_marks = marks }

unfoldable pub exit_frame : Bool → ValueInspector → ValueInspector
unfolding pop_mark
exit_frame reverted i = pop_mark reverted i.revert_marks i

abbrev pub frame_count : ValueInspector → ℕ
frame_count i = length i.frames

-- What the hooks are handed by the EVM.
pub data CallScheme : Type 0 where
  call call_code delegate_call static_call : CallScheme

pub data CallValue : Type 0 where
  transfer apparent : ℕ → CallValue

pub record CallInputs : Type 0 where
  pub caller : ℕ
  pub target_address : ℕ
  pub value : CallValue
  pub scheme : CallScheme

pub data CreateScheme : Type 0 where
  create create2 custom : CreateScheme

pub record CreateInputs : Type 0 where
  pub caller : ℕ
  pub value : ℕ
  pub scheme : CreateScheme

-- `is_ok` is `instruction_result().is_ok()`.
pub record CreateOutcome : Type 0 where
  pub address : Option ℕ
  pub is_ok : Bool

abbrev pub call_kind : CallScheme → FrameKind
call_kind CallScheme.call_code = FrameKind.call_code
call_kind CallScheme.call = FrameKind.call
call_kind CallScheme.delegate_call = FrameKind.call
call_kind CallScheme.static_call = FrameKind.call

abbrev pub create_kind : CreateScheme → FrameKind
create_kind CreateScheme.create2 = FrameKind.create2
create_kind CreateScheme.create = FrameKind.create
create_kind CreateScheme.custom = FrameKind.create

unfoldable pub capture_call : CallInputs → CallValue → ValueInspector → ValueInspector
capture_call inputs (transfer v) i =
    if v == 0
    then i
    else push_frame i (record {
      from = inputs.caller;
      to = inputs.target_address;
      value = v;
      kind = call_kind inputs.scheme;
    })
capture_call inputs (apparent v) i = i

unfoldable pub on_call : CallInputs → ValueInspector → ValueInspector
unfolding capture_call
on_call inputs i = capture_call inputs inputs.value (enter_frame i)

unfoldable pub on_call_end : Bool → ValueInspector → ValueInspector
on_call_end is_ok i = exit_frame (not is_ok) i

unfoldable pub on_create : ValueInspector → ValueInspector
on_create i = enter_frame i

unfoldable pub capture_create : CreateInputs → Option ℕ → ValueInspector → ValueInspector
capture_create inputs none i = i
capture_create inputs (some addr) i = push_frame i (record {
  from = inputs.caller;
  to = addr;
  value = inputs.value;
  kind = create_kind inputs.scheme;
})

unfoldable pub on_create_end : CreateInputs → CreateOutcome → ValueInspector → ValueInspector
unfolding capture_create
on_create_end inputs outcome i =
    exit_frame (not outcome.is_ok)
      (if inputs.value == 0 then i else capture_create inputs outcome.address i)

unfoldable pub on_selfdestruct : ℕ → ℕ → ℕ → ValueInspector → ValueInspector
on_selfdestruct contract target value i =
    if value == 0
    then i
    else push_frame i
        (record { from = contract; to = target; value = value; kind = FrameKind.self_destruct })
