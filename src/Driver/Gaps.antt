-- ===== src/Driver/Gaps.antt =====
-- The blocks that were not delivered: the markers that `run_passbook` of crates/passbook-core/src/exex.rs writes for
-- them before a committed chain.
use passbook.Prelude.{
  ℕ, zero, suc, ◌+◌, ◌-◌, ◌^◌, ◌<◌, ◌≤◌, ◌≡◌, refl, sym, ap, subst, ◌∙◌, Bool, true, false,
  Bool-cases, Option, none, some, List, [], ◌∷◌, ◌++◌, Member, inl, inr, map, ltb, if◌then◌else◌,
  arith,
}
use passbook.Prelude.Hex.{Formats}
use passbook.Model.{BlockBatch, UnattributedDeltaRow, UnattributedDeltaCause}
use passbook.Ledger.{
  Db, gap_row, insert_unattributed, set_last_block, set_last_block_hash, transaction, write_block,
  write_gap_block_marker,
}
use passbook.Ledger.Written.{AllOrNothing, written, write_block-AllOrNothing}
use passbook.Driver.{
  Lookup, found, missing, lookup_failed, Attempt, Driver, Config, retry, gap_range, gap_round, mark,
  fill_gap, fill_range, backoff_start, try_again,
}
use passbook.Driver.Ends.{On}
use passbook.Driver.Leftover.{
  LeftOf, Ends, RoundEnds, retry-Ends, and_then-Ends, Ends-weaken, as_On,
}
use passbook.Driver.Wrote.{written_all}

-- The marker of a watched address: it says that the block was not delivered, and no amount.
abbrev pub not_delivered : Config → ℕ → ℕ → ℕ → UnattributedDeltaRow
not_delivered cfg n bh addr = record {
  chain_id = cfg.chain_id;
  block_number = n;
  block_hash = bh;
  address = addr;
  observed_wei = 0;
  attributed_wei = 0;
  residual_wei = 0;
  cause = UnattributedDeltaCause.block_not_delivered;
}

-- The batch of a block that was not delivered: a marker for each watched address, and nothing else.
abbrev pub gap_batch : Config → ℕ → ℕ → BlockBatch
gap_batch cfg n bh = record {
  chain_id = cfg.chain_id;
  block_number = n;
  block_hash = bh;
  eth = [];
  erc20 = [];
  gas = [];
  unattributed = map (not_delivered cfg n bh) cfg.watched;
}

-- In some round the provider knew the block by this hash.
abbrev pub Known : ℕ → List Attempt → ℕ → Type 0
Known n es bh = (x : Attempt) × Member x es × (x.block_hash n ≡ found bh)

-- The hashes of so many blocks from n on.
abbrev pub AllKnown : ℕ → ℕ → List Attempt → List ℕ → Type 0
AllKnown zero n es [] = Unit
AllKnown zero n es (bh ∷ hashes) = ⊥
AllKnown (suc count) n es [] = ⊥
AllKnown (suc count) n es (bh ∷ hashes) = Known n es bh × AllKnown count (suc n) es hashes

abbrev pub gap_batches : Config → ℕ → List ℕ → List BlockBatch
gap_batches cfg n [] = []
gap_batches cfg n (bh ∷ hashes) = gap_batch cfg n bh ∷ gap_batches cfg (suc n) hashes

-- The last of so many blocks from n on.
abbrev pub reached : Option ℕ → ℕ → ℕ → Option ℕ
reached hw n zero = hw
reached hw n (suc count) = reached (some n) (suc n) count

-- How many blocks are missing before the first one of a chain, and from which on.
abbrev pub missing_from : Option ℕ → ℕ
missing_from none = 0
missing_from (some hw) = hw + 1

abbrev pub missing_count : Option ℕ → ℕ → ℕ
missing_count none first = 0
missing_count (some hw) first = first - (hw + 1)

abbrev pub Bounded : Option ℕ → Type 0
Bounded none = Unit
Bounded (some hw) = hw + 1 < 2 ^ 64

gap_range_missing :
    (hw first : ℕ)
    → hw + 1 < 2 ^ 64
    → gap_range (some hw) first ≡ (if ltb (hw + 1) first then some (hw + 1, first - 1) else none)
unfolding gap_range
gap_range_missing hw first b =
    ap (λ n. if ltb n first then some (n, first - 1) else none) (omega arith)

below : (hw first : ℕ) → ltb (hw + 1) first ≡ true → hw + 1 < first
below hw first h = ground arith

count_missing : (hw first : ℕ) → hw + 1 < first → first - (hw + 1) ≡ first - 1 + 1 - (hw + 1)
count_missing hw first h = omega arith

none_missing : (hw first : ℕ) → ltb (hw + 1) first ≡ false → 0 ≡ first - (hw + 1)
none_missing hw first h = ground arith

module _ (fmt : Formats) (cfg : Config) where
  map-gap_row :
      (n bh : ℕ) (watched : List ℕ)
      → map (λ addr. insert_unattributed fmt (gap_row cfg.chain_id n bh addr)) watched
        ≡ map (insert_unattributed fmt) (map (not_delivered cfg n bh) watched)
  map-gap_row n bh [] = refl
  map-gap_row n bh (a ∷ watched) =
      ap (λ ss. insert_unattributed fmt (gap_row cfg.chain_id n bh a) ∷ ss)
        (map-gap_row n bh watched)

  -- A marker is the batch without transfers and payments.
  marker-write_block :
      (faults : ℕ → Bool) (n bh : ℕ) (db : Db)
      → write_gap_block_marker fmt faults cfg.chain_id n bh cfg.watched db
        ≡ write_block fmt faults (gap_batch cfg n bh) db
  unfolding write_gap_block_marker write_block
  marker-write_block faults n bh db =
      ap (λ ss. transaction faults (ss ++ (set_last_block n ∷ set_last_block_hash fmt bh ∷ [])) db)
        (map-gap_row n bh cfg.watched)

  abbrev Same : Driver → Driver → Type 0
  Same s t = (t.db ≡ s.db) × (t.high_water ≡ s.high_water)

  abbrev MarkedOne : ℕ → List Attempt → Driver → Driver → Type 0
  MarkedOne n all s t =
      (bh : ℕ) × Known n all bh
      × (t.db ≡ written fmt (gap_batch cfg n bh) s.db)
      × (t.high_water ≡ some n)

  -- The ledger with the markers of so many blocks from n on, and the driver behind them.
  abbrev pub Marked : ℕ → ℕ → List Attempt → Driver → Driver → Type 0
  Marked n count all s t =
      (hashes : List ℕ) × AllKnown count n all hashes
      × (t.db ≡ written_all fmt cfg (gap_batches cfg n hashes) s.db)
      × (t.high_water ≡ reached s.high_water n count)

  abbrev pub MarkedSome : ℕ → ℕ → List Attempt → Driver → Driver → Type 0
  MarkedSome n count all s t = (k : ℕ) × (k ≤ count) × Marked n k all s t

  marked :
      (n bh : ℕ) (all : List Attempt) (s t : Driver) (r : Bool × Db)
      → Known n all bh
      → Same s t
      → AllOrNothing t.db (written fmt (gap_batch cfg n bh) t.db) r
      → RoundEnds
          (MarkedOne n all s)
          (Same s)
          (try_again r (λ u. record u { high_water = some n }) t)
  marked n bh all s t (true, d) k w (inl e) =
      (bh, k, ap (λ r. r.1) e ∙ ap (written fmt (gap_batch cfg n bh)) w.0, refl)
  marked n bh all s t (true, d) k w (inr e) = cc
  marked n bh all s t (false, d) k w (inl e) = cc
  marked n bh all s t (false, d) k w (inr e) = (ap (λ r. r.1) e ∙ w.0, w.1)

  looked_up :
      (n : ℕ) (x : Attempt) (all : List Attempt) (s t : Driver) (l : Lookup)
      → Member x all
      → x.block_hash n ≡ l
      → Same s t
      → RoundEnds (MarkedOne n all s) (Same s) (mark fmt cfg n x t l)
  looked_up n x all s t (found bh) m e w =
      marked n bh all s t _ (x, m, e) w
        (subst (AllOrNothing t.db (written fmt (gap_batch cfg n bh) t.db))
          (sym (marker-write_block x.faults n bh t.db))
          (write_block-AllOrNothing fmt x.faults (gap_batch cfg n bh) t.db))
  looked_up n x all s t missing m e w = w
  looked_up n x all s t lookup_failed m e w = w

  gap_round-Ends :
      (n : ℕ) (all : List Attempt) (s : Driver) (x : Attempt)
      → Member x all
      → (t : Driver) → Same s t
      → RoundEnds (MarkedOne n all s) (Same s) (gap_round fmt cfg n x t)
  unfolding gap_round
  gap_round-Ends n all s x m t w = looked_up n x all s t (x.block_hash n) m refl w

  -- A marker before others.
  Marked-first :
      (n count : ℕ) (all : List Attempt) (s t u : Driver)
      → MarkedOne n all s t
      → Marked (suc n) count all t u
      → Marked n (suc count) all s u
  Marked-first n count all s t u (bh, k, d, w) (hashes, ks, e, v) = (
    bh ∷ hashes,
    (k, ks),
    e ∙ ap (written_all fmt cfg (gap_batches cfg (suc n) hashes)) d,
    v ∙ ap (λ hw. reached hw (suc n) count) w,
  )

  fill_gap-Ends :
      (count n : ℕ) (all es : List Attempt) (s : Driver)
      → LeftOf es all
      → Ends
          (λ t rest. Marked n count all s t × LeftOf rest all)
          (MarkedSome n count all s)
          (fill_gap fmt cfg count n es s)
  unfolding fill_gap
  fill_gap-Ends zero n all es s l = (([], tt, refl, refl), l)
  fill_gap-Ends (suc count) n all es s l =
      and_then-Ends _ _ (Same s) _ (retry (gap_round fmt cfg n) es backoff_start s) _
        (retry-Ends (MarkedOne n all s) (Same s) (gap_round fmt cfg n) all es l
          (λ x m t w. gap_round-Ends n all s x m t w) (λ _ t w. w) backoff_start s (refl, refl))
        (λ t rest h.
          Ends-weaken _ _ _ _ (fill_gap fmt cfg count (suc n) rest t)
            (fill_gap-Ends count (suc n) all rest t h.1)
            (λ u left k. (Marked-first n count all s t u h.0 k.0, k.1))
            (λ u k. (suc k.0, omega arith, Marked-first n k.0 all s t u h.0 k.2)))
        (λ t w. (zero, omega arith, ([], tt, w.0, w.1)))

  fill_gap-Marked :
      (count n : ℕ) (es : List Attempt) (s : Driver)
      → On (Marked n count es s) (MarkedSome n count es s) (λ _. ⊥) (fill_gap fmt cfg count n es s)
  fill_gap-Marked count n es s =
      as_On (Marked n count es s) (MarkedSome n count es s) es (fill_gap fmt cfg count n es s)
        (fill_gap-Ends count n es es s (λ x m. m))

  fill_range-On :
      (first : ℕ) (hw : Option ℕ) (es : List Attempt) (s : Driver)
      → s.high_water ≡ hw
      → Bounded hw
      → On
          (Marked (missing_from hw) (missing_count hw first) es s)
          (MarkedSome (missing_from hw) (missing_count hw first) es s)
          (λ _. ⊥)
          (fill_range fmt cfg (gap_range hw first) es s)
  unfolding gap_range
  fill_range-On first none es s e b = ([], tt, refl, refl)
  fill_range-On first (some hw) es s e b =
      subst
        (λ r.
          On (Marked (hw + 1) (first - (hw + 1)) es s) (MarkedSome (hw + 1) (first - (hw + 1)) es s)
            (λ _. ⊥) (fill_range fmt cfg r es s))
        (sym (gap_range_missing hw first b))
        (elim (Bool-cases (ltb (hw + 1) first)) [
          | inl less ↦ rw less (
              subst
                (λ count.
                  On (Marked (hw + 1) (first - (hw + 1)) es s)
                    (MarkedSome (hw + 1) (first - (hw + 1)) es s) (λ _. ⊥)
                    (fill_gap fmt cfg count (hw + 1) es s))
                (count_missing hw first (below hw first less))
                (fill_gap-Marked (first - (hw + 1)) (hw + 1) es s))
          | inr more ↦ rw more (
              subst (λ count. Marked (hw + 1) count es s s) (none_missing hw first more)
                ([], tt, refl, refl))
        ])

  -- Before a committed chain, the markers of the blocks between the high water and the chain's first
  -- block are written one block after the other: at every stop the ledger is the one before with a marker for each watched
  -- address at the first so many missing blocks, and nothing else, each block under the hash that the provider gave in some round; the
  -- high water is the last of them; and when the driver is through, all missing blocks are marked. This
  -- is as long as the number behind the high water is below 2 ^ 64.
  pub fill_range-Marked :
      (first : ℕ) (es : List Attempt) (s : Driver)
      → Bounded s.high_water
      → On
          (Marked (missing_from s.high_water) (missing_count s.high_water first) es s)
          (MarkedSome (missing_from s.high_water) (missing_count s.high_water first) es s)
          (λ _. ⊥)
          (fill_range fmt cfg (gap_range s.high_water first) es s)
  fill_range-Marked first es s b = fill_range-On first s.high_water es s refl b
