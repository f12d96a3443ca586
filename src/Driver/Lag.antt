-- ===== src/Driver/Lag.antt =====
-- The heights that the driver reports as finished lag one committed chain behind.
use passbook.Prelude.{
  ℕ, suc, zero, ◌≡◌, refl, sym, ap, ◌∙◌, Bool, true, false, Option, none, some, List, [], ◌∷◌, ◌++◌,
  append-nil, take,
}
use passbook.Prelude.Hex.{Formats}
use passbook.Prelude.Result.{Result, ok, err}
use passbook.Model.{BlockBatch}
use passbook.Block.Inputs.{ProcessingError, Failure, failed, panicked}
use passbook.Ledger.Table.{All-every}
use passbook.Driver.{
  NumHash, Lookup, found, missing, lookup_failed, Attempt, Chain, tip, Notification, Driver, Config,
  Run, finished, retry, lag_finished, gap_range, delete_round, gap_round, mark, block_round,
  on_processed, commit_blocks, fill_gap, fill_range, send_finished, revert, commit,
  handle_notifications, backoff_start,
}
use passbook.Driver.Ends.{
  On, RoundOn, retry-On, and_then-On, and_then-On_eq, On-weaken, try_again-On,
}

abbrev pub pending_list : Option NumHash → List NumHash
pending_list none = []
pending_list (some b) = b ∷ []

-- The heights that are reported and the one that is pending, after a notification: the tip of a committed
-- chain is pending, and the one that was pending is reported.
abbrev pub lag_one : List NumHash × Option NumHash → Option Chain → List NumHash × Option NumHash
lag_one q none = q
lag_one (f, p) (some c) = (f ++ pending_list p, some (tip c))

unfoldable pub lag_all :
    List NumHash × Option NumHash → List Notification → List NumHash × Option NumHash
lag_all q [] = q
lag_all q (n ∷ ns) = lag_all (lag_one q n.committed) ns

abbrev pub lag_of : Driver → List NumHash × Option NumHash
lag_of s = (s.finished_heights, s.pending_finished)

-- Nothing was reported and nothing is pending anew.
abbrev pub Kept : List NumHash → Option NumHash → Driver → Type 0
Kept f p s = (s.finished_heights ≡ f) × (s.pending_finished ≡ p)

module _ (fmt : Formats) (cfg : Config) (f : List NumHash) (p : Option NumHash) where
  on_processed-Kept :
      (b : NumHash) (e : Attempt) (s : Driver) (r : Result Failure BlockBatch)
      → Kept f p s
      → RoundOn (Kept f p) (Kept f p) (on_processed fmt cfg b e s r)
  on_processed-Kept b e s (ok batch) k =
      try_again-On (Kept f p) (Kept f p) _ _ s (λ db. k) (λ db. k)
  on_processed-Kept b e s (err (failed (ProcessingError.unexplained_residual n a r))) k = k
  on_processed-Kept b e s (err (failed (ProcessingError.decode n))) k = k
  on_processed-Kept b e s (err (failed (ProcessingError.reconcile_overflow n a))) k = k
  on_processed-Kept b e s (err panicked) k = k

  mark-Kept :
      (n : ℕ) (e : Attempt) (s : Driver) (l : Lookup)
      → Kept f p s
      → RoundOn (Kept f p) (Kept f p) (mark fmt cfg n e s l)
  mark-Kept n e s (found h) k = try_again-On (Kept f p) (Kept f p) _ _ s (λ db. k) (λ db. k)
  mark-Kept n e s missing k = k
  mark-Kept n e s lookup_failed k = k

  abbrev pub Stays : Run → Type 0
  Stays = On (Kept f p) (Kept f p) (λ s. ⊥)

  pub commit_blocks-Stays :
      (bs : List NumHash) (es : List Attempt) (s : Driver)
      → Kept f p s
      → Stays (commit_blocks fmt cfg bs es s)
  unfolding commit_blocks block_round
  commit_blocks-Stays [] es s k = k
  commit_blocks-Stays (b ∷ bs) es s k =
      and_then-On _ (Kept f p) _ _ (retry (block_round fmt cfg b) es backoff_start s) _
        (retry-On _ _ _ (block_round fmt cfg b) es backoff_start
          (All-every _ (λ e t q. on_processed-Kept b e t (e.process_committed_block b) q) es)
          (λ _ t q. q) s k)
        (λ t es' q. commit_blocks-Stays bs es' t q)

  fill_gap-Stays :
      (count n : ℕ) (es : List Attempt) (s : Driver)
      → Kept f p s
      → Stays (fill_gap fmt cfg count n es s)
  unfolding fill_gap gap_round
  fill_gap-Stays zero n es s k = k
  fill_gap-Stays (suc count) n es s k =
      and_then-On _ (Kept f p) _ _ (retry (gap_round fmt cfg n) es backoff_start s) _
        (retry-On _ _ _ (gap_round fmt cfg n) es backoff_start
          (All-every _ (λ e t q. mark-Kept n e t (e.block_hash n) q) es) (λ _ t q. q) s k)
        (λ t es' q. fill_gap-Stays count (suc n) es' t q)

  pub fill_range-Stays :
      (r : Option (ℕ × ℕ)) (es : List Attempt) (s : Driver)
      → Kept f p s
      → Stays (fill_range fmt cfg r es s)
  fill_range-Stays none es s k = k
  fill_range-Stays (some (first, last)) es s k = fill_gap-Stays _ first es s k

  revert-Stays :
      (r : Option (List ℕ)) (es : List Attempt) (s : Driver)
      → Kept f p s
      → Stays (revert fmt cfg r es s)
  unfolding revert delete_round
  revert-Stays none es s k = k
  revert-Stays (some hashes) es s k =
      retry-On _ _ _ (delete_round fmt cfg hashes) es backoff_start
        (All-every _ (λ e t q. try_again-On (Kept f p) (Kept f p) _ _ t (λ db. q) (λ db. q)) es)
        (λ _ t q. q) s k

-- One notification: through, its tip is pending and the former pending one is reported; still
-- retrying, nothing changed; the node gone, nothing was delivered.
abbrev Committed : Driver → Option Chain → Run → Type 0
Committed s c =
    On (λ t. lag_of t ≡ lag_one (lag_of s) c) (λ t. lag_of t ≡ lag_of s)
      (λ t. t.finished_heights ≡ s.finished_heights)

module _ (fmt : Formats) (cfg : Config) where
  same_lag : (s t : Driver) → Kept s.finished_heights s.pending_finished t → lag_of t ≡ lag_of s
  same_lag s t k = λ j. (k.0 j, k.1 j)

  send_finished-Committed :
      (open_events : Bool) (c : Chain) (s t : Driver) (es : List Attempt)
      → Kept s.finished_heights s.pending_finished t
      → Committed s (some c) (
          send_finished fmt cfg open_events t.pending_finished
            (record t { pending_finished = some (tip c) })
            es)
  send_finished-Committed open_events c s t es k =
      send t.pending_finished (λ j. k.0 j ++ pending_list (k.1 j)) open_events
    where
      send :
          (p : Option NumHash)
          → t.finished_heights ++ pending_list p
            ≡ s.finished_heights ++ pending_list s.pending_finished
          → (o : Bool)
          → Committed s
              (some c)
              (send_finished fmt cfg o p (record t { pending_finished = some (tip c) }) es)
      send none h true = ap (λ l. (l, some (tip c))) (sym (append-nil _) ∙ h)
      send none h false = ap (λ l. (l, some (tip c))) (sym (append-nil _) ∙ h)
      send (some prev) h true = ap (λ l. (l, some (tip c))) h
      send (some prev) h false = k.0

  commit-Committed :
      (open_events : Bool) (c : Option Chain) (es : List Attempt) (s : Driver)
      → Committed s c (commit fmt cfg open_events c es s)
  unfolding commit lag_finished
  commit-Committed open_events none es s = refl
  commit-Committed open_events (some c) es s =
      let Q = Kept s.finished_heights s.pending_finished in
      let R : Driver → Type 0 = λ t. lag_of t ≡ lag_of s in
      and_then-On _ Q _ _ (fill_range fmt cfg (gap_range s.high_water c.first.number) es s) _
        (On-weaken Q Q Q R _ _ (λ _ q. q) (λ t q. same_lag s t q) (λ _ q. absurd q) _
          (fill_range-Stays fmt cfg _ _ (gap_range s.high_water c.first.number) es s (refl, refl)))
        (λ s₁ es₁ k₁.
          and_then-On _ Q _ _ (commit_blocks fmt cfg (c.first ∷ c.others) es₁ s₁) _
            (On-weaken Q Q Q R _ _ (λ _ q. q) (λ t q. same_lag s t q) (λ _ q. absurd q) _
              (commit_blocks-Stays fmt cfg _ _ (c.first ∷ c.others) es₁ s₁ k₁))
            (λ s₂ es₂ k₂. send_finished-Committed open_events c s s₂ es₂ k₂))

  -- The first k notifications were handled to their end, and this holds of what was reported by then.
  abbrev pub Handled :
      (List NumHash × Option NumHash → Type 0) → List Notification → List Attempt → Driver → Type 0
  Handled P ns es s =
      (k : ℕ) × (t : Driver) × (rest : List Attempt) × (handle_notifications fmt cfg (take k ns) es
          s
        ≡ finished t rest)
      × (lag_of t ≡ lag_all (lag_of s) (take k ns))
      × P (lag_of t)

  abbrev pub Lagged : Driver → List Notification → List Attempt → Run → Type 0
  Lagged s ns es =
      On (λ t. lag_of t ≡ lag_all (lag_of s) ns) (λ t. Handled (λ q. lag_of t ≡ q) ns es s)
        (λ t. Handled (λ q. t.finished_heights ≡ q.0) ns es s)

  -- Nothing handled yet.
  Handled-none :
      (P : List NumHash × Option NumHash → Type 0) (ns : List Notification) (es : List Attempt)
      (s : Driver)
      → P (lag_of s)
      → Handled P ns es s
  unfolding handle_notifications lag_all
  Handled-none P ns es s p = (0, s, es, refl, refl, p)

  -- One notification more.
  Handled-first :
      (P : List NumHash × Option NumHash → Type 0) (n : Notification) (ns : List Notification)
      (es es₁ es₂ : List Attempt) (s s₁ s₂ : Driver)
      → revert fmt cfg n.reverted es s ≡ finished s₁ es₁
      → commit fmt cfg n.open_events n.committed es₁ s₁ ≡ finished s₂ es₂
      → lag_of s₂ ≡ lag_one (lag_of s) n.committed
      → Handled P ns es₂ s₂
      → Handled P (n ∷ ns) es s
  unfolding handle_notifications lag_all
  Handled-first P n ns es es₁ es₂ s s₁ s₂ e f l (k, t, rest, h, m, p) =
      (suc k, t, rest, rw (e, f) h, m ∙ ap (λ q. lag_all q (take k ns)) l, p)

  -- At every moment the heights reported as finished and the pending one are exactly those that the
  -- notifications handled to their end leave: the tip of each committed chain is pending until the next
  -- notification with a committed chain is handled to its end, and then it is reported, in order and once. While a
  -- notification is still being handled, whatever fails and however often it is retried, nothing is reported for it;
  -- and where the node is gone, no report was delivered for the one that was being handled.
  pub handle_notifications-Lagged :
      (ns : List Notification) (es : List Attempt) (s : Driver)
      → Lagged s ns es (handle_notifications fmt cfg ns es s)
  unfolding handle_notifications lag_all
  handle_notifications-Lagged [] es s = refl
  handle_notifications-Lagged (n ∷ ns) es s =
      let Q = Kept s.finished_heights s.pending_finished in
      and_then-On_eq _ Q _ _ (revert fmt cfg n.reverted es s) _
        (On-weaken Q Q Q _ _ _ (λ _ q. q)
          (λ t q. Handled-none (λ l. lag_of t ≡ l) (n ∷ ns) es s (same_lag s t q)) (λ _ q. absurd q)
          (revert fmt cfg n.reverted es s) (revert-Stays fmt cfg _ _ n.reverted es s (refl, refl)))
        (λ s₁ es₁ d₁ k₁.
          let e₁ = same_lag s s₁ k₁ in
          and_then-On_eq _ (λ t. lag_of t ≡ lag_one (lag_of s) n.committed) _ _
            (commit fmt cfg n.open_events n.committed es₁ s₁) _
            (On-weaken (λ t. lag_of t ≡ lag_one (lag_of s₁) n.committed)
              (λ t. lag_of t ≡ lag_one (lag_of s) n.committed) (λ t. lag_of t ≡ lag_of s₁) _
              (λ t. t.finished_heights ≡ s₁.finished_heights) _
              (λ t q. q ∙ ap (λ l. lag_one l n.committed) e₁)
              (λ t q. Handled-none (λ l. lag_of t ≡ l) (n ∷ ns) es s (q ∙ e₁))
              (λ t q. Handled-none (λ l. t.finished_heights ≡ l.0) (n ∷ ns) es s (q ∙ k₁.0))
              (commit fmt cfg n.open_events n.committed es₁ s₁)
              (commit-Committed n.open_events n.committed es₁ s₁))
            (λ s₂ es₂ d₂ e₂.
              On-weaken (λ t. lag_of t ≡ lag_all (lag_of s₂) ns) _ _ _ _ _
                (λ t q. q ∙ ap (λ l. lag_all l ns) e₂)
                (λ t q. Handled-first (λ l. lag_of t ≡ l) n ns es es₁ es₂ s s₁ s₂ d₁ d₂ e₂ q)
                (λ t q.
                  Handled-first (λ l. t.finished_heights ≡ l.0) n ns es es₁ es₂ s s₁ s₂ d₁ d₂ e₂ q)
                (handle_notifications fmt cfg ns es₂ s₂) (handle_notifications-Lagged ns es₂ s₂)))
