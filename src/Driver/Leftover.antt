-- ===== src/Driver/Leftover.antt =====
-- The retry loop of crates/passbook-core/src/exex.rs with the attempts that are left after it.
use passbook.Prelude.{ℕ, ◌*◌, min, refl, List, [], ◌∷◌, Member, inl, inr}
use passbook.Driver.{
  Attempt, Driver, Round, done, again, died, Run, finished, stalled, crashed, closed, and_then_run,
  settle, sleep, retry, backoff_cap,
}
use passbook.Driver.Ends.{On}

-- Attempts that are still to come are among all attempts.
abbrev pub LeftOf : List Attempt → List Attempt → Type 0
LeftOf rest all = (x : Attempt) → Member x rest → Member x all

-- P where the loop went through, with the attempts that are left; Q where it still retries or died.
abbrev pub Ends : (Driver → List Attempt → Type 0) → (Driver → Type 0) → Run → Type 0
Ends P Q (finished s rest) = P s rest
Ends P Q (stalled s) = Q s
Ends P Q (crashed s) = Q s
Ends P Q (closed s) = ⊥

abbrev pub RoundEnds : (Driver → Type 0) → (Driver → Type 0) → Round → Type 0
RoundEnds P Q (done s) = P s
RoundEnds P Q (again s) = Q s
RoundEnds P Q (died s) = Q s

settle-Ends :
    (P : Driver → Type 0) (Q : Driver → Type 0) (all es : List Attempt) (next : Driver → Run)
    (r : Round)
    → LeftOf es all
    → RoundEnds P Q r
    → ((s : Driver) → Q s → Ends (λ t rest. P t × LeftOf rest all) Q (next s))
    → Ends (λ t rest. P t × LeftOf rest all) Q (settle es next r)
settle-Ends P Q all es next (done s) l h k = (h, l)
settle-Ends P Q all es next (again s) l h k = k s h
settle-Ends P Q all es next (died s) l h k = h

pub retry-Ends :
    (P Q : Driver → Type 0) (round : Attempt → Driver → Round) (all es : List Attempt)
    → LeftOf es all
    → ((x : Attempt) → Member x all → (s : Driver) → Q s → RoundEnds P Q (round x s))
    → ((b : ℕ) (s : Driver) → Q s → Q (sleep b s))
    → (backoff : ℕ) (s : Driver) → Q s
    → Ends (λ t rest. P t × LeftOf rest all) Q (retry round es backoff s)
unfolding retry
retry-Ends P Q round all [] l h z backoff s q = q
retry-Ends P Q round all (e ∷ es) l h z backoff s q =
    settle-Ends P Q all es _ (round e s) (λ x m. l x (inr m)) (h e (l e (inl refl)) s q)
      (λ t r.
        retry-Ends P Q round all es (λ x m. l x (inr m)) h z (min (backoff * 2) backoff_cap)
          (sleep backoff t) (z backoff t r))

pub and_then-Ends :
    (P P' : Driver → List Attempt → Type 0) (Q Q' : Driver → Type 0) (r : Run)
    (f : Driver → List Attempt → Run)
    → Ends P Q r
    → ((t : Driver) (rest : List Attempt) → P t rest → Ends P' Q' (f t rest))
    → ((t : Driver) → Q t → Q' t)
    → Ends P' Q' (and_then_run r f)
and_then-Ends P P' Q Q' (finished t rest) f h k w = k t rest h
and_then-Ends P P' Q Q' (stalled t) f h k w = w t h
and_then-Ends P P' Q Q' (crashed t) f h k w = w t h
and_then-Ends P P' Q Q' (closed t) f h k w = h

pub Ends-weaken :
    (P P' : Driver → List Attempt → Type 0) (Q Q' : Driver → Type 0) (r : Run)
    → Ends P Q r
    → ((t : Driver) (rest : List Attempt) → P t rest → P' t rest)
    → ((t : Driver) → Q t → Q' t)
    → Ends P' Q' r
Ends-weaken P P' Q Q' (finished t rest) h k w = k t rest h
Ends-weaken P P' Q Q' (stalled t) h k w = w t h
Ends-weaken P P' Q Q' (crashed t) h k w = w t h
Ends-weaken P P' Q Q' (closed t) h k w = h

pub as_On :
    (P Q : Driver → Type 0) (all : List Attempt) (r : Run)
    → Ends (λ t rest. P t × LeftOf rest all) Q r
    → On P Q (λ _. ⊥) r
as_On P Q all (finished t rest) h = h.0
as_On P Q all (stalled t) h = h
as_On P Q all (crashed t) h = h
as_On P Q all (closed t) h = h
