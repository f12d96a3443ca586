-- ===== src/Driver/Ends.antt =====
-- Statements about the ends of the driver's loops, and what a retry loop keeps.
use passbook.Prelude.{◌≡◌, refl, ℕ, ◌*◌, min, Bool, true, false, List, [], ◌∷◌, All}
use passbook.Driver.{
  Attempt, Driver, Round, done, again, died, Run, finished, stalled, crashed, closed, and_then_run,
  settle, sleep, retry, backoff_cap, try_again,
}
use passbook.Ledger.{Db}

-- P where the driver went through, Q where it still retries or died, C where the node is gone.
abbrev pub On : (Driver → Type 0) → (Driver → Type 0) → (Driver → Type 0) → Run → Type 0
On P Q C (finished s es) = P s
On P Q C (stalled s) = Q s
On P Q C (crashed s) = Q s
On P Q C (closed s) = C s

abbrev pub RoundOn : (Driver → Type 0) → (Driver → Type 0) → Round → Type 0
RoundOn P Q (done s) = P s
RoundOn P Q (again s) = Q s
RoundOn P Q (died s) = Q s

pub settle-On :
    (P Q C : Driver → Type 0) (es : List Attempt) (next : Driver → Run) (r : Round)
    → RoundOn P Q r
    → ((s : Driver) → Q s → On P Q C (next s))
    → On P Q C (settle es next r)
settle-On P Q C es next (done s) h k = h
settle-On P Q C es next (again s) h k = k s h
settle-On P Q C es next (died s) h k = h

-- What every round keeps until one is done, the loop keeps; what a done round gives, the loop gives.
pub retry-On :
    (P Q C : Driver → Type 0) (round : Attempt → Driver → Round) (es : List Attempt) (backoff : ℕ)
    → All (λ e. (s : Driver) → Q s → RoundOn P Q (round e s)) es
    → ((b : ℕ) (s : Driver) → Q s → Q (sleep b s))
    → (s : Driver) → Q s
    → On P Q C (retry round es backoff s)
unfolding retry
retry-On P Q C round [] backoff h z s q = q
retry-On P Q C round (e ∷ es) backoff h z s q = settle-On P Q C es _ (round e s) (h.0 s q) (λ s' q'.
    retry-On P Q C round es (min (backoff * 2) backoff_cap) h.1 z (sleep backoff s')
      (z backoff s' q'))

pub and_then-On :
    (P R Q C : Driver → Type 0) (r : Run) (f : Driver → List Attempt → Run)
    → On R Q C r
    → ((s : Driver) (es : List Attempt) → R s → On P Q C (f s es))
    → On P Q C (and_then_run r f)
and_then-On P R Q C (finished s es) f h k = k s es h
and_then-On P R Q C (stalled s) f h k = h
and_then-On P R Q C (crashed s) f h k = h
and_then-On P R Q C (closed s) f h k = h

pub and_then-On_eq :
    (P R Q C : Driver → Type 0) (r : Run) (f : Driver → List Attempt → Run)
    → On R Q C r
    → ((s : Driver) (es : List Attempt) → r ≡ finished s es → R s → On P Q C (f s es))
    → On P Q C (and_then_run r f)
and_then-On_eq P R Q C (finished s es) f h k = k s es refl h
and_then-On_eq P R Q C (stalled s) f h k = h
and_then-On_eq P R Q C (crashed s) f h k = h
and_then-On_eq P R Q C (closed s) f h k = h

pub On-weaken :
    (P P' Q Q' C C' : Driver → Type 0)
    → ((s : Driver) → P s → P' s)
    → ((s : Driver) → Q s → Q' s)
    → ((s : Driver) → C s → C' s)
    → (r : Run) → On P Q C r
    → On P' Q' C' r
On-weaken P P' Q Q' C C' f g k (finished s es) h = f s h
On-weaken P P' Q Q' C C' f g k (stalled s) h = g s h
On-weaken P P' Q Q' C C' f g k (crashed s) h = g s h
On-weaken P P' Q Q' C C' f g k (closed s) h = k s h

pub try_again-On :
    (P Q : Driver → Type 0) (r : Bool × Db) (success : Driver → Driver) (s : Driver)
    → ((db : Db) → P (success (record s { db = db })))
    → ((db : Db) → Q (record s { db = db }))
    → RoundOn P Q (try_again r success s)
try_again-On P Q (true, db) success s h k = h db
try_again-On P Q (false, db) success s h k = k db

pub On-both :
    (P P' Q Q' C C' : Driver → Type 0) (r : Run)
    → On P Q C r
    → On P' Q' C' r
    → On (λ s. P s × P' s) (λ s. Q s × Q' s) (λ s. C s × C' s) r
On-both P P' Q Q' C C' (finished s es) h k = (h, k)
On-both P P' Q Q' C C' (stalled s) h k = (h, k)
On-both P P' Q Q' C C' (crashed s) h k = (h, k)
On-both P P' Q Q' C C' (closed s) h k = (h, k)
