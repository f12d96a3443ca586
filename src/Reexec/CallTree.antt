-- ===== src/Reexec/CallTree.antt =====
-- What a transaction's execution is to the inspector: a tree of frames, for which the EVM calls the
-- hooks in order. `replay` makes those calls; `kept` says which transfers are committed, with no
-- inspector in sight.
use passbook.Prelude.{
  ℕ, ◌+◌, Bool, true, false, Option, none, some, List, [], ◌∷◌, ◌++◌, ◌==◌, if◌then◌else◌, length,
}
use passbook.Prelude.Decimal.{to_string}
use passbook.Inspector.{
  CapturedFrame, FrameKind, CallInputs, CallValue, transfer, apparent, CreateInputs, CreateOutcome,
  call_kind, create_kind,
}
use passbook.Reexec.{
  TaggingInspector, tag_call, tag_call_end, tag_create, tag_create_end, tag_selfdestruct,
}

mutual
  pub data CallTree : Type 0 where
    call_frame : CallInputs → Forest → Bool → CallTree
    create_frame : CreateInputs → Forest → CreateOutcome → CallTree
    selfdestruct : ℕ → ℕ → ℕ → CallTree

  pub data Forest : Type 0 where
    nil : Forest
    cons : CallTree → Forest → Forest

-- The hooks of a frame: on entry, those of its sub-frames, on exit.
unfoldable mutual
  pub replay : CallTree → TaggingInspector → TaggingInspector
  replay (call_frame inputs sub is_ok) t = tag_call_end is_ok (replay_all sub (tag_call inputs t))
  replay (create_frame inputs sub outcome) t =
      tag_create_end inputs outcome (replay_all sub (tag_create t))
  replay (selfdestruct contract target value) t = tag_selfdestruct contract target value t

  pub replay_all : Forest → TaggingInspector → TaggingInspector
  replay_all nil t = t
  replay_all (cons c cs) t = replay_all cs (replay c t)

-- One transfer, numbered `seq` and marked as top-level or not; a transfer of nothing is none.
abbrev pub move : ℕ → ℕ → ℕ → FrameKind → Bool → ℕ → List (CapturedFrame × Bool)
move from to value kind top seq =
    if value == 0
    then []
    else (
      record { from = from; to = to; value = value; kind = kind; trace_path = to_string seq },
      top,
    )
      ∷ []

-- The value that a call moves: `apparent` value (DELEGATECALL, STATICCALL) moves nothing.
abbrev pub moved : CallValue → ℕ
moved (transfer v) = v
moved (apparent v) = 0

abbrev pub call_move : CallInputs → Bool → ℕ → List (CapturedFrame × Bool)
call_move inputs top seq =
    move inputs.caller inputs.target_address (moved inputs.value) (call_kind inputs.scheme) top seq

abbrev pub create_move : CreateInputs → Option ℕ → Bool → ℕ → List (CapturedFrame × Bool)
create_move inputs none top seq = []
create_move inputs (some addr) top seq =
    move inputs.caller addr inputs.value (create_kind inputs.scheme) top seq

-- The number after the transfers of a tree, those of reverted frames counted too.
unfoldable mutual
  pub next_seq : CallTree → ℕ → ℕ
  next_seq (call_frame inputs sub is_ok) seq =
      next_seq_all sub (seq + length (call_move inputs false seq))
  next_seq (create_frame inputs sub outcome) seq =
      let after = next_seq_all sub seq in
      after + length (create_move inputs outcome.address false after)
  next_seq (selfdestruct contract target value) seq =
      seq + length (move contract target value FrameKind.self_destruct false seq)

  pub next_seq_all : Forest → ℕ → ℕ
  next_seq_all nil seq = seq
  next_seq_all (cons c cs) seq = next_seq_all cs (next_seq c seq)

-- The transfers of the frames that are not reverted, nor inside a reverted one, in the order in
-- which they are made (that of a creation after those of its sub-frames).
unfoldable mutual
  pub kept : Bool → ℕ → CallTree → List (CapturedFrame × Bool)
  kept top seq (call_frame inputs sub false) = []
  kept top seq (call_frame inputs sub true) =
      call_move inputs top seq ++ kept_all (seq + length (call_move inputs false seq)) sub
  kept top seq (create_frame inputs sub outcome) =
      if outcome.is_ok
      then kept_all seq sub ++ create_move inputs outcome.address top (next_seq_all sub seq)
      else []
  kept top seq (selfdestruct contract target value) =
      move contract target value FrameKind.self_destruct false seq

  pub kept_all : ℕ → Forest → List (CapturedFrame × Bool)
  kept_all seq nil = []
  kept_all seq (cons c cs) = kept false seq c ++ kept_all (next_seq c seq) cs
