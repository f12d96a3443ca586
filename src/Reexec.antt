-- ===== src/Reexec.antt =====
-- The re-execution's tagging wrapper: `TaggingInspector` of crates/passbook-core/src/reexec.rs.
pub mod CallTree
pub mod Steps
pub mod Creates
pub mod Replay
pub mod Prestate
pub mod Overlay
use passbook.Prelude.{
  ℕ, ◌+◌, ◌-◌, Bool, true, false, List, [], ◌∷◌, ◌++◌, ltb, ◌==◌, if◌then◌else◌, length, take,
  Option, none, some, map, not,
}
use passbook.Inspector.{
  ValueInspector, CapturedFrame, new_inspector, frame_count, CallInputs, CreateInputs,
  CreateOutcome, on_call, on_call_end, on_create, on_create_end, on_selfdestruct,
}

-- `depth` counts the open frames: the EVM ends only frames that it began.
pub record TaggingInspector : Type 0 where
  pub inner : ValueInspector
  pub tags : List Bool
  pub depth : ℕ

abbrev pub new_tagging : TaggingInspector
new_tagging = record { inner = new_inspector; tags = []; depth = 0 }

-- `record(before, top_level)`, on the tags
abbrev pub record_tag : ℕ → Bool → ValueInspector → List Bool → List Bool
record_tag before top_level inner tags =
    if ltb before (frame_count inner) then tags ++ top_level ∷ [] else tags

-- `sync_tags_after_exit`, on the tags
abbrev pub sync_tags : ValueInspector → List Bool → List Bool
sync_tags inner tags =
    if ltb (frame_count inner) (length tags) then take (frame_count inner) tags else tags

unfoldable pub tag_call : CallInputs → TaggingInspector → TaggingInspector
tag_call inputs t =
    let inner = on_call inputs t.inner in
    record {
      inner = inner;
      tags = record_tag (frame_count t.inner) (t.depth == 0) inner t.tags;
      depth = t.depth + 1;
    }

unfoldable pub tag_call_end : Bool → TaggingInspector → TaggingInspector
tag_call_end is_ok t =
    let inner = on_call_end is_ok t.inner in
    record { inner = inner; tags = sync_tags inner t.tags; depth = t.depth - 1 }

unfoldable pub tag_create : TaggingInspector → TaggingInspector
tag_create t = record t { inner = on_create t.inner; depth = t.depth + 1 }

unfoldable pub tag_create_end : CreateInputs → CreateOutcome → TaggingInspector → TaggingInspector
tag_create_end inputs outcome t =
    let inner = on_create_end inputs outcome t.inner in
    record {
      inner = inner;
      tags = sync_tags inner (record_tag (frame_count t.inner) (t.depth == 1) inner t.tags);
      depth = t.depth - 1;
    }

unfoldable pub tag_selfdestruct : ℕ → ℕ → ℕ → TaggingInspector → TaggingInspector
tag_selfdestruct contract target value t =
    let inner = on_selfdestruct contract target value t.inner in
    record t { inner = inner; tags = record_tag (frame_count t.inner) false inner t.tags }

-- One transaction's captured frames, each with its tag: `tags.get(k).copied().unwrap_or(false)`.
unfoldable pub collect_frames : List CapturedFrame → List Bool → List (CapturedFrame × Bool)
collect_frames [] tags = []
collect_frames (f ∷ fs) [] = (f, false) ∷ collect_frames fs []
collect_frames (f ∷ fs) (t ∷ tags) = (f, t) ∷ collect_frames fs tags

unfoldable pub collect_tx : TaggingInspector → List (CapturedFrame × Bool)
collect_tx t = collect_frames t.inner.frames t.tags

pub record TaggedFrame : Type 0 where
  pub frame : CapturedFrame
  pub tx_index : ℕ
  pub top_level : Bool

pub record Captured : Type 0 where
  pub frames : List TaggedFrame
  pub tx_hashes : List (Option ℕ)
  pub tx_reverted : List Bool

-- The end of `reexecute_block_frames`: each transaction's inspector, with its index.
unfoldable pub tag_frames : ℕ → List (CapturedFrame × Bool) → List TaggedFrame
tag_frames i [] = []
tag_frames i ((f, top) ∷ fs) = record { frame = f; tx_index = i; top_level = top } ∷ tag_frames i fs

unfoldable pub flatten_txs : ℕ → List TaggingInspector → List TaggedFrame
unfolding tag_frames collect_tx collect_frames
flatten_txs i [] = []
flatten_txs i (t ∷ ts) = tag_frames i (collect_tx t) ++ flatten_txs (i + 1) ts

-- `receipts.get(i).map(|r| !r.success).unwrap_or(false)`, for each transaction of the block
unfoldable pub reverted_flags : List ℕ → List Bool → List Bool
reverted_flags [] success = []
reverted_flags (h ∷ hs) [] = false ∷ reverted_flags hs []
reverted_flags (h ∷ hs) (ok ∷ success) = not ok ∷ reverted_flags hs success

-- `reexecute_block_frames`, from the inspectors that the EVM's tracer hands back, one for each
-- transaction: the pre-state and the execution itself are those of revm.
unfoldable pub reexecute_block_frames :
    List ℕ → List Bool → Option (List TaggingInspector) → Option Captured
unfolding flatten_txs reverted_flags
reexecute_block_frames hashes success none = none
reexecute_block_frames hashes success (some traced) = some (record {
  frames = flatten_txs 0 traced;
  tx_hashes = map some hashes;
  tx_reverted = reverted_flags hashes success;
})
