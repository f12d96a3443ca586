-- ===== src/Reexec/Creates.antt =====
-- The hooks of a creation and of a self-destruction, on a state written out.
use mathlib.Core.List.{map-append}
use passbook.Prelude.{
  ℕ, ◌+◌, ◌≡◌, refl, sym, ◌∙◌, ap, Bool, true, false, Option, none, some, List, [], ◌∷◌, ◌++◌, ◌==◌,
  if◌then◌else◌, length, arith, length-append, take-append, append-nil, append_assoc, length-map,
  Bool-cases, inl, inr,
}
use passbook.Inspector.{
  CapturedFrame, FrameKind, CallInputs, CreateInputs, CreateOutcome, create_kind, enter_frame,
  exit_frame, on_create, on_create_end, on_selfdestruct, capture_create,
}
use passbook.Reexec.{tag_create, tag_create_end, tag_selfdestruct, sync_tags, record_tag}
use passbook.Reexec.CallTree.{move, call_move, create_move}
use passbook.Reexec.Steps.{
  Moves, frames_of, tags_of, value_state, state, push_frame-state, record_tag-move, sync_tags-full,
}

capture_create-state :
    (inputs : CreateInputs) (addr : Option ℕ) (top : Bool) (s : ℕ) (fs : List CapturedFrame)
    (m : List ℕ)
    → let mv = create_move inputs addr top s in
      (if inputs.value == 0
        then value_state s fs m
        else capture_create inputs addr (value_state s fs m))
      ≡ value_state (s + length mv) (fs ++ frames_of mv) m
unfolding capture_create
capture_create-state inputs none top s fs m = rw append-nil (ground arith)
capture_create-state inputs (some addr) top s fs m = elim (Bool-cases (inputs.value == 0)) [
  | inl e ↦ rw e (rw append-nil (ap (λ (k : ℕ). value_state k fs m) (omega arith)))
  | inr e ↦ ground (
    arith,
    push_frame-state inputs.caller addr inputs.value (create_kind inputs.scheme) top s fs m,
  )
]

record_tag-create :
    (inputs : CreateInputs) (addr : Option ℕ) (top : Bool) (s : ℕ) (fs : List CapturedFrame)
    (m : List ℕ) (ts : List Bool)
    → let mv = create_move inputs addr top s in
      record_tag (length fs) top (value_state (s + length mv) (fs ++ frames_of mv) m) ts
      ≡ ts ++ tags_of mv
record_tag-create inputs none top s fs m ts = rw append-nil (rw append-nil (ground arith))
record_tag-create inputs (some addr) top s fs m ts =
    record_tag-move inputs.caller addr inputs.value (create_kind inputs.scheme) top s fs m ts

pub length-tags_of : (mv : Moves) → length (tags_of mv) ≡ length (frames_of mv)
length-tags_of mv = length-map _ mv ∙ sym (length-map _ mv)

opened_at : (d : ℕ) → (d + 1 == 1) ≡ (d == 0)
opened_at d = ground arith

-- Leaving a creation that succeeded adds its transfer behind those of its sub-frames.
pub tag_create_end-ok :
    (inputs : CreateInputs) (outcome : CreateOutcome) (s : ℕ) (fs : List CapturedFrame) (k : ℕ)
    (m : List ℕ) (ts : List Bool) (d : ℕ)
    → outcome.is_ok ≡ true
    → length ts ≡ length fs
    → let mv = create_move inputs outcome.address (d == 0) s in
      tag_create_end inputs outcome (state s fs (k ∷ m) ts (d + 1))
      ≡ state (s + length mv) (fs ++ frames_of mv) m (ts ++ tags_of mv) d
unfolding tag_create_end on_create_end exit_frame
tag_create_end-ok inputs outcome s fs k m ts d ok h =
    let mv = create_move inputs outcome.address (d == 0) s in
    rw (capture_create-state inputs outcome.address (d == 0) s fs (k ∷ m)) (
      rw (ok, opened_at d)
        (rw (record_tag-create inputs outcome.address (d == 0) s fs m ts) (
          rw
            (sync_tags-full (value_state (s + length mv) (fs ++ frames_of mv) m) (ts ++ tags_of mv)
              (omega (
                arith,
                length-append fs (frames_of mv),
                length-append ts (tags_of mv),
                length-tags_of mv,
              )))
            (ap (state (s + length mv) (fs ++ frames_of mv) m (ts ++ tags_of mv)) (omega arith)))))

-- A reverted frame's exit leaves what was there when it was entered.
exit_frame-reverted :
    (s : ℕ) (fs gs : List CapturedFrame) (m : List ℕ)
    → exit_frame true (value_state s (fs ++ gs) (length fs ∷ m)) ≡ value_state s fs m
unfolding exit_frame
exit_frame-reverted s fs [] m = rw append-nil (ground arith)
exit_frame-reverted s fs (g ∷ gs) m =
    ground (arith, length-append fs (g ∷ gs), take-append fs (g ∷ gs))

sync_tags-append :
    (s : ℕ) (fs : List CapturedFrame) (m : List ℕ) (ts us : List Bool)
    → length ts ≡ length fs
    → sync_tags (value_state s fs m) (ts ++ us) ≡ ts
sync_tags-append s fs m ts [] h = rw append-nil (ground arith)
sync_tags-append s fs m ts (u ∷ us) h =
    ground (arith, length-append ts (u ∷ us), take-append ts (u ∷ us))

record_tag-dropped :
    (top : Bool) (s : ℕ) (fs gs : List CapturedFrame) (m : List ℕ) (ts : List Bool)
    → record_tag (length (fs ++ gs)) top (value_state s fs m) ts ≡ ts
record_tag-dropped top s fs gs m ts = ground (arith, length-append fs gs)

pub tag_create_end-reverted :
    (inputs : CreateInputs) (outcome : CreateOutcome) (s : ℕ) (fs gs : List CapturedFrame)
    (m : List ℕ) (ts us : List Bool) (d : ℕ)
    → outcome.is_ok ≡ false
    → length ts ≡ length fs
    → let mv = create_move inputs outcome.address false s in
      tag_create_end inputs outcome (state s (fs ++ gs) (length fs ∷ m) (ts ++ us) (d + 1))
      ≡ state (s + length mv) fs m ts d
unfolding tag_create_end on_create_end
tag_create_end-reverted inputs outcome s fs gs m ts us d bad h =
    let mv = create_move inputs outcome.address false s in
    rw (capture_create-state inputs outcome.address false s (fs ++ gs) (length fs ∷ m)) (
      rw bad (
        rw (append_assoc fs gs (frames_of mv)) (
          rw (exit_frame-reverted (s + length mv) fs (gs ++ frames_of mv) m) (
            rw (record_tag-dropped (d + 1 == 1) (s + length mv) fs gs m (ts ++ us)) (
              rw (sync_tags-append (s + length mv) fs m ts us h)
                (ap (state (s + length mv) fs m ts) (omega arith)))))))

pub length-create_move :
    (inputs : CreateInputs) (addr : Option ℕ) (top : Bool) (s : ℕ)
    → length (create_move inputs addr top s) ≡ length (create_move inputs addr false s)
length-create_move inputs none top s = refl
length-create_move inputs (some addr) top s = ground arith

pub length-call_move :
    (inputs : CallInputs) (top : Bool) (s : ℕ)
    → length (call_move inputs top s) ≡ length (call_move inputs false s)
length-call_move inputs top s = ground arith

pub tag_selfdestruct-state :
    (contract target value : ℕ) (s : ℕ) (fs : List CapturedFrame) (m : List ℕ) (ts : List Bool)
    (d : ℕ)
    → let mv = move contract target value FrameKind.self_destruct false s in
      tag_selfdestruct contract target value (state s fs m ts d)
      ≡ state (s + length mv) (fs ++ frames_of mv) m (ts ++ tags_of mv) d
unfolding tag_selfdestruct on_selfdestruct
tag_selfdestruct-state contract target value s fs m ts d = elim (Bool-cases (value == 0)) [
  | inl e ↦ rw e (rw append-nil (rw append-nil (ground arith)))
  | inr e ↦ ground (
    arith,
    push_frame-state contract target value FrameKind.self_destruct false s fs m,
    record_tag-move contract target value FrameKind.self_destruct false s fs m ts,
  )
]

pub tag_create-state :
    (s : ℕ) (fs : List CapturedFrame) (m : List ℕ) (ts : List Bool) (d : ℕ)
    → tag_create (state s fs m ts d) ≡ state s fs (length fs ∷ m) ts (d + 1)
unfolding tag_create on_create enter_frame
tag_create-state s fs m ts d = refl

pub aligned-append :
    (ts : List Bool) (fs : List CapturedFrame) (mv : Moves)
    → length ts ≡ length fs
    → length (ts ++ tags_of mv) ≡ length (fs ++ frames_of mv)
aligned-append ts fs mv h =
    omega (arith, length-append fs (frames_of mv), length-append ts (tags_of mv), length-tags_of mv)

pub join :
    (s : ℕ) (fs : List CapturedFrame) (m : List ℕ) (ts : List Bool) (d : ℕ) (a b : Moves)
    → state s ((fs ++ frames_of a) ++ frames_of b) m ((ts ++ tags_of a) ++ tags_of b) d
      ≡ state s (fs ++ frames_of (a ++ b)) m (ts ++ tags_of (a ++ b)) d
join s fs m ts d a b = simp (map-append, append_assoc)
