-- ===== src/Ledger/Meta.antt =====
-- The table `meta`, and the resume point that it holds.
use passbook.Prelude.{
  ℕ, ◌<◌, ◌^◌, ◌≡◌, refl, ap, ◌∙◌, Bool, true, some, List, [], ◌∷◌, if◌then◌else◌, arith,
}
use passbook.Prelude.Text.{Text, codes, text_eq, text_eq_iff}
use passbook.Prelude.Decimal.{to_string, parse_u64, parse_u64-to_string}
use passbook.Prelude.Hex.{Formats}
use passbook.Model.{BlockBatch}
use passbook.Ledger.{Db, get_meta, put_meta, write_block, resume_head, and_then, both_of}
use passbook.Ledger.Written.{written, write_block-committed}

pub get_meta-put_meta :
    (k j v : Text) (m : List (Text × Text))
    → get_meta k (put_meta j v m) ≡ (if text_eq j k then some v else get_meta k m)
unfolding get_meta put_meta
get_meta-put_meta k j v [] = refl
get_meta-put_meta k j v ((i, w) ∷ m) =
    ground (arith, get_meta-put_meta k j v m, text_eq_iff i j, text_eq_iff i k, text_eq_iff j k)

pub put_meta-same :
    (k v : Text) (m : List (Text × Text)) → get_meta k m ≡ some v → put_meta k v m ≡ m
unfolding get_meta put_meta
put_meta-same k v [] h = cc
put_meta-same k v ((j, w) ∷ m) h = ground (arith, put_meta-same k v m)

module _ (fmt : Formats) where
  pub get_last_block :
      (b : BlockBatch) (db : Db)
      → get_meta (codes "last_block") (written fmt b db).meta ≡ some (to_string b.block_number)
  unfolding text_eq
  get_last_block b db =
      get_meta-put_meta (codes "last_block") (codes "last_block_hash") (fmt.hex_b256 b.block_hash) _
      ∙ get_meta-put_meta (codes "last_block") (codes "last_block") (to_string b.block_number)
          db.meta

  pub get_last_block_hash :
      (b : BlockBatch) (db : Db)
      → get_meta (codes "last_block_hash") (written fmt b db).meta
        ≡ some (fmt.hex_b256 b.block_hash)
  unfolding text_eq
  get_last_block_hash b db =
      get_meta-put_meta (codes "last_block_hash") (codes "last_block_hash")
        (fmt.hex_b256 b.block_hash) _

  pub resume_head-written :
      (b : BlockBatch) (db : Db)
      → b.block_number < 2 ^ 64
      → b.block_hash < 2 ^ 256
      → resume_head fmt (written fmt b db) ≡ some (b.block_number, b.block_hash)
  unfolding resume_head
  resume_head-written b db n h =
      ap
        (λ o.
          both_of (and_then o parse_u64)
            (and_then (get_meta (codes "last_block_hash") (written fmt b db).meta) fmt.parse_b256))
        (get_last_block b db)
      ∙ ap (λ o. both_of (parse_u64 (to_string b.block_number)) (and_then o fmt.parse_b256))
          (get_last_block_hash b db)
      ∙ (λ k.
          both_of (parse_u64-to_string b.block_number n k)
            (fmt.parse_b256-hex_b256 b.block_hash h k))

  -- After a block is written, whatever the database held, the ExEx resumes at that block: its number and
  -- its hash are read back from the text that the writer stored, for a number below 2 ^ 64 and a hash
  -- below 2 ^ 256.
  pub resume_head-write_block :
      (faults : ℕ → Bool) (b : BlockBatch) (before after : Db)
      → b.block_number < 2 ^ 64
      → b.block_hash < 2 ^ 256
      → write_block fmt faults b before ≡ (true, after)
      → resume_head fmt after ≡ some (b.block_number, b.block_hash)
  resume_head-write_block faults b before after n h e =
      ap (resume_head fmt) (write_block-committed fmt faults b before after e)
      ∙ resume_head-written b before n h
