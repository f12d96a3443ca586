-- ===== src/Reexec/Steps.antt =====
-- One hook at a time: what each hook of `TaggingInspector` does to a state written out.
use passbook.Prelude.{
  ℕ, ◌+◌, ◌≡◌, refl, ap, Bool, true, false, List, [], ◌∷◌, ◌++◌, ◌==◌, ltb, if◌then◌else◌, length,
  map, arith, take, length-append, take-append, append-nil, Bool-cases, inl, inr,
}
use passbook.Prelude.Decimal.{to_string}
use passbook.Inspector.{
  ValueInspector, CapturedFrame, FrameKind, CallInputs, CallValue, transfer, apparent, call_kind,
  push_frame, enter_frame, exit_frame, on_call, on_call_end, capture_call,
}
use passbook.Reexec.{TaggingInspector, tag_call, tag_call_end, sync_tags, record_tag}
use passbook.Reexec.CallTree.{move, moved, call_move}

abbrev pub Moves : Type 0
Moves = List (CapturedFrame × Bool)

abbrev pub frames_of : Moves → List CapturedFrame
frames_of = map (λ (p : CapturedFrame × Bool). p.0)

abbrev pub tags_of : Moves → List Bool
tags_of = map (λ (p : CapturedFrame × Bool). p.1)

abbrev pub value_state : ℕ → List CapturedFrame → List ℕ → ValueInspector
value_state s fs m = record { seq = s; frames = fs; revert_marks = m }

abbrev pub state : ℕ → List CapturedFrame → List ℕ → List Bool → ℕ → TaggingInspector
state s fs m ts d = record { inner = value_state s fs m; tags = ts; depth = d }

-- A push adds one frame, or none if nothing is moved.
pub push_frame-state :
    (from to value : ℕ) (kind : FrameKind) (top : Bool) (s : ℕ) (fs : List CapturedFrame)
    (m : List ℕ)
    → let mv = move from to value kind top s in
      push_frame (value_state s fs m) (record { from = from; to = to; value = value; kind = kind })
      ≡ value_state (s + length mv) (fs ++ frames_of mv) m
unfolding push_frame
push_frame-state from to value kind top s fs m = elim (Bool-cases (value == 0)) [
  | inl e ↦ rw e (rw append-nil (ap (λ (k : ℕ). value_state k fs m) (omega arith)))
  | inr e ↦ rw e refl
]

pub record_tag-move :
    (from to value : ℕ) (kind : FrameKind) (top : Bool) (s : ℕ) (fs : List CapturedFrame)
    (m : List ℕ) (ts : List Bool)
    → let mv = move from to value kind top s in
      record_tag (length fs) top (value_state (s + length mv) (fs ++ frames_of mv) m) ts
      ≡ ts ++ tags_of mv
record_tag-move from to value kind top s fs m ts = elim (Bool-cases (value == 0)) [
  | inl e ↦ rw e (rw append-nil (rw append-nil (ground arith)))
  | inr e ↦ rw e (
      ground (
        arith,
        length-append fs (
            (record { from = from; to = to; value = value; kind = kind; trace_path = to_string s })
            ∷ []),
      ))
]

pub truncate-append {ℓ} :
    {A : Type ℓ} (xs ys : List A)
    → (if ltb (length xs) (length (xs ++ ys)) then take (length xs) (xs ++ ys) else xs ++ ys) ≡ xs
truncate-append xs [] = rw append-nil (ground arith)
truncate-append xs (y ∷ ys) = ground (arith, length-append xs (y ∷ ys), take-append xs (y ∷ ys))

pub sync_tags-full :
    (inner : ValueInspector) (ts : List Bool)
    → length ts ≡ length inner.frames
    → sync_tags inner ts ≡ ts
sync_tags-full inner ts h = ground arith

pub capture_call-state :
    (inputs : CallInputs) (v : CallValue) (top : Bool) (s : ℕ) (fs : List CapturedFrame)
    (m : List ℕ)
    → let mv = move inputs.caller inputs.target_address (moved v) (call_kind inputs.scheme) top s in
      capture_call inputs v (value_state s fs m)
      ≡ value_state (s + length mv) (fs ++ frames_of mv) m
unfolding capture_call
capture_call-state inputs (transfer v) top s fs m = elim (Bool-cases (v == 0)) [
  | inl e ↦ rw e (rw append-nil (ap (λ (k : ℕ). value_state k fs m) (omega arith)))
  | inr e ↦ ground (
    arith,
    push_frame-state inputs.caller inputs.target_address v (call_kind inputs.scheme) top s fs m,
  )
]
capture_call-state inputs (apparent v) top s fs m =
    rw append-nil (ap (λ (k : ℕ). value_state k fs m) (omega arith))

-- Entering a call adds its transfer and its mark.
pub tag_call-state :
    (inputs : CallInputs) (s : ℕ) (fs : List CapturedFrame) (m : List ℕ) (ts : List Bool) (d : ℕ)
    → let mv = call_move inputs (d == 0) s in
      tag_call inputs (state s fs m ts d)
      ≡ state (s + length mv) (fs ++ frames_of mv) (length fs ∷ m) (ts ++ tags_of mv) (d + 1)
unfolding tag_call on_call enter_frame
tag_call-state inputs s fs m ts d =
    rw (capture_call-state inputs inputs.value (d == 0) s fs (length fs ∷ m)) (
      rw
        (record_tag-move inputs.caller inputs.target_address (moved inputs.value)
          (call_kind inputs.scheme) (d == 0) s fs (length fs ∷ m) ts)
        refl)

-- Leaving a call that succeeded drops its mark alone.
pub tag_call_end-ok :
    (s : ℕ) (fs : List CapturedFrame) (k : ℕ) (m : List ℕ) (ts : List Bool) (d : ℕ)
    → length ts ≡ length fs
    → tag_call_end true (state s fs (k ∷ m) ts (d + 1)) ≡ state s fs m ts d
unfolding tag_call_end on_call_end exit_frame
tag_call_end-ok s fs k m ts d h = ground arith

pub tag_call_end-none :
    (s : ℕ) (fs : List CapturedFrame) (m : List ℕ) (ts : List Bool) (d : ℕ)
    → length ts ≡ length fs
    → tag_call_end false (state s fs (length fs ∷ m) ts (d + 1)) ≡ state s fs m ts d
unfolding tag_call_end on_call_end exit_frame
tag_call_end-none s fs m ts d h = ground arith

-- Leaving a call that was reverted drops what was captured since it was entered.
pub tag_call_end-reverted :
    (s : ℕ) (fs gs : List CapturedFrame) (m : List ℕ) (ts us : List Bool) (d : ℕ)
    → length ts ≡ length fs
    → length us ≡ length gs
    → tag_call_end false (state s (fs ++ gs) (length fs ∷ m) (ts ++ us) (d + 1)) ≡ state s fs m ts d
unfolding tag_call_end on_call_end exit_frame
tag_call_end-reverted s fs [] m ts [] d h k = simp append-nil (tag_call_end-none s fs m ts d h)
tag_call_end-reverted s fs [] m ts (u ∷ us) d h k = absurd (omega arith)
tag_call_end-reverted s fs (g ∷ gs) m ts us d h k = ground (
  arith,
  length-append fs (g ∷ gs),
  take-append fs (g ∷ gs),
  length-append ts us,
  take-append ts us,
)
