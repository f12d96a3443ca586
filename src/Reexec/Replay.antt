-- ===== src/Reexec/Replay.antt =====
-- The inspector implements the specification of `Reexec.CallTree`: what it holds after a tree's hooks
-- are the transfers that the tree keeps, each beside its tag.
use passbook.Prelude.{
  ℕ, ◌+◌, ◌≡◌, refl, ap, Bool, true, false, List, [], ◌∷◌, ◌++◌, ◌==◌, length, arith, append-nil,
  Bool-cases, inl, inr,
}
use passbook.Inspector.{CapturedFrame}
use passbook.Reexec.CallTree.{
  CallTree, Forest, call_frame, create_frame, selfdestruct, nil, cons, replay, replay_all,
  call_move, create_move, next_seq, next_seq_all, kept, kept_all,
}
use passbook.Reexec.Steps.{
  Moves, frames_of, tags_of, state, tag_call-state, tag_call_end-ok, tag_call_end-reverted,
}
use passbook.Reexec.Creates.{
  tag_create_end-ok, tag_create_end-reverted, length-create_move, length-call_move,
  tag_selfdestruct-state, tag_create-state, aligned-append, join, length-tags_of,
}
use passbook.Reexec.{new_tagging, collect_tx, collect_frames}

-- The hooks of a tree extend the frames and the tags by what the tree keeps, and restore the rest.
mutual
  unfolding replay replay_all kept kept_all next_seq next_seq_all

  pub replay-state :
      (c : CallTree) (s : ℕ) (fs : List CapturedFrame) (m : List ℕ) (ts : List Bool) (d : ℕ)
      → length ts ≡ length fs
      → replay c (state s fs m ts d)
        ≡ state
            (next_seq c s)
            (fs ++ frames_of (kept (d == 0) s c))
            m
            (ts ++ tags_of (kept (d == 0) s c))
            d
  replay-state (call_frame inputs sub true) s fs m ts d h =
      let mv = call_move inputs (d == 0) s in
      let s' = s + length (call_move inputs false s) in
      rw (tag_call-state inputs s fs m ts d) (
        rw (length-call_move inputs (d == 0) s) (
          rw
            (replay_all-state sub s' (fs ++ frames_of mv) (length fs ∷ m) (ts ++ tags_of mv) d
              (aligned-append ts fs mv h))
            (rw
              (tag_call_end-ok (next_seq_all sub s')
                ((fs ++ frames_of mv) ++ frames_of (kept_all s' sub)) (length fs) m
                ((ts ++ tags_of mv) ++ tags_of (kept_all s' sub)) d
                (aligned-append (ts ++ tags_of mv) (fs ++ frames_of mv) (kept_all s' sub)
                  (aligned-append ts fs mv h)))
              (join (next_seq_all sub s') fs m ts d mv (kept_all s' sub)))))
  replay-state (call_frame inputs sub false) s fs m ts d h =
      let mv = call_move inputs (d == 0) s in
      let s' = s + length (call_move inputs false s) in
      rw (tag_call-state inputs s fs m ts d) (
        rw (length-call_move inputs (d == 0) s) (
          rw
            (replay_all-state sub s' (fs ++ frames_of mv) (length fs ∷ m) (ts ++ tags_of mv) d
              (aligned-append ts fs mv h))
            (rw (join (next_seq_all sub s') fs (length fs ∷ m) ts (d + 1) mv (kept_all s' sub)) (
              rw
                (tag_call_end-reverted (next_seq_all sub s') fs (frames_of (mv ++ kept_all s' sub))
                  m ts (tags_of (mv ++ kept_all s' sub)) d h
                  (length-tags_of (mv ++ kept_all s' sub)))
                (simp append-nil)))))
  replay-state (create_frame inputs sub outcome) s fs m ts d h =
      let s' = next_seq_all sub s in
      let mv = create_move inputs outcome.address (d == 0) s' in
      rw (tag_create-state s fs m ts d) (
        rw (replay_all-state sub s fs (length fs ∷ m) ts d h) (elim (Bool-cases outcome.is_ok) [
          | inl ok ↦
              rw
                (tag_create_end-ok inputs outcome s' (fs ++ frames_of (kept_all s sub)) (length fs)
                  m (ts ++ tags_of (kept_all s sub)) d ok (aligned-append ts fs (kept_all s sub) h))
                (rw (length-create_move inputs outcome.address (d == 0) s') (
                  rw ok (
                    join (s' + length (create_move inputs outcome.address false s')) fs m ts d
                      (kept_all s sub) mv)))
          | inr bad ↦
              rw
                (tag_create_end-reverted inputs outcome s' fs (frames_of (kept_all s sub)) m ts
                  (tags_of (kept_all s sub)) d bad h)
                (rw bad (simp append-nil))
        ]))
  replay-state (selfdestruct contract target value) s fs m ts d h =
      tag_selfdestruct-state contract target value s fs m ts d

  replay_all-state :
      (cs : Forest) (s : ℕ) (fs : List CapturedFrame) (m : List ℕ) (ts : List Bool) (d : ℕ)
      → length ts ≡ length fs
      → replay_all cs (state s fs m ts (d + 1))
        ≡ state
            (next_seq_all cs s)
            (fs ++ frames_of (kept_all s cs))
            m
            (ts ++ tags_of (kept_all s cs))
            (d + 1)
  replay_all-state nil s fs m ts d h = simp append-nil
  replay_all-state (cons c cs) s fs m ts d h =
      let inside : (d + 1 == 0) ≡ false = ground arith in
      rw (replay-state c s fs m ts (d + 1) h) (
        rw inside (
          rw
            (replay_all-state cs (next_seq c s) (fs ++ frames_of (kept false s c)) m
              (ts ++ tags_of (kept false s c)) d (aligned-append ts fs (kept false s c) h))
            (join (next_seq_all cs (next_seq c s)) fs m ts (d + 1) (kept false s c)
              (kept_all (next_seq c s) cs))))

collect-aligned : (mv : Moves) → collect_frames (frames_of mv) (tags_of mv) ≡ mv
unfolding collect_frames
collect-aligned [] = refl
collect-aligned (x ∷ mv) = ap (λ l. x ∷ l) (collect-aligned mv)

-- The frames and tags that are collected from a transaction are those of its frames that are neither
-- reverted nor inside a reverted one, in order, the value of the outermost call or creation marked as
-- top-level and no other.
pub collect_tx-replay : (c : CallTree) → collect_tx (replay c new_tagging) ≡ kept true 0 c
unfolding collect_tx
collect_tx-replay c = rw (replay-state c 0 [] [] [] 0 refl) (collect-aligned (kept true 0 c))

-- When a transaction has ended, no frame is open: the depth is back at 0, no mark is left, and there is
-- one tag for each frame.
pub replay_closed :
    (c : CallTree)
    → ((replay c new_tagging).depth ≡ 0)
      × ((replay c new_tagging).inner.revert_marks ≡ [])
      × (length (replay c new_tagging).tags ≡ length (replay c new_tagging).inner.frames)
replay_closed c = rw (replay-state c 0 [] [] [] 0 refl) (refl, refl, length-tags_of (kept true 0 c))
