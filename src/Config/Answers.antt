-- ===== src/Config/Answers.antt =====
-- The watched set: `PassbookConfig::from_parts` of crates/passbook-core/src/config.rs.
use passbook.Prelude.{
  ◌≡◌, ◌≢◌, refl, sym, ap, ◌∙◌, ℕ, true, List, [], ◌∷◌, ◌++◌, All, Member, contains, arith,
  Bool-cases, inl, inr, ◌⊎◌, if◌then◌else◌, ◌==◌, ==_iff,
}
use passbook.Prelude.Text.{Text}
use passbook.Prelude.Result.{Result, ok, err}
use passbook.Config.{
  AddressFormat, ConfigError, PassbookConfig, trim, insert_watched, parse_watched_address,
  unless_blank, then_insert, watch_all, with_path, from_parts,
}

contains-insert_watched :
    (a n : ℕ) (w : List ℕ)
    → contains (insert_watched a w) n ≡ (if a == n then true else contains w n)
contains-insert_watched a n w = elim (Bool-cases (contains w a)) [
  | inl e ↦ rw e (ground (arith, e))
  | inr e ↦ rw e refl
]

contains-insert_self : (a : ℕ) (w : List ℕ) → contains (insert_watched a w) a ≡ true
contains-insert_self a w = contains-insert_watched a a w ∙ ground arith

contains-insert_old :
    (a n : ℕ) (w : List ℕ) → contains w n ≡ true → contains (insert_watched a w) n ≡ true
contains-insert_old a n w h = contains-insert_watched a n w ∙ ground arith

contains-insert_inv :
    (a n : ℕ) (w : List ℕ)
    → contains (insert_watched a w) n ≡ true
    → (a ≡ n) ⊎ (contains w n ≡ true)
contains-insert_inv a n w h = elim (Bool-cases (a == n)) [
  | inl e ↦ inl ((==_iff a n).0 e)
  | inr e ↦ inr (sym (contains-insert_watched a n w ∙ rw e refl) ∙ h)
]

module _ (f : AddressFormat) where
  -- An entry that is blank, or is read as an address of the set.
  abbrev pub Watches : List ℕ → Text → Type 0
  Watches watched a =
      (trim a ≡ [])
      ⊎ ((n : ℕ) × (parse_watched_address f (trim a) ≡ ok n) × (contains watched n ≡ true))

  -- An address of the set that an entry names.
  abbrev pub Named : List Text → ℕ → Type 0
  Named addrs n = (a : Text) × Member a addrs × (parse_watched_address f (trim a) ≡ ok n)

  abbrev pub Passes : Text → Type 0
  Passes a = (trim a ≡ []) ⊎ ((n : ℕ) × (parse_watched_address f (trim a) ≡ ok n))

  -- The first entry that is refused.
  abbrev pub FirstRefused : List Text → ConfigError → Type 0
  FirstRefused addrs e =
      (before : List Text) × (a : Text) × (after : List Text) × (addrs ≡ before ++ a ∷ after)
      × All Passes before
      × (trim a ≢ [])
      × (parse_watched_address f (trim a) ≡ err e)

  abbrev Loop : List Text → List ℕ → Result ConfigError (List ℕ) → Type 0
  Loop addrs w (ok watched) =
      All (Watches watched) addrs
      × ((n : ℕ) → contains w n ≡ true → contains watched n ≡ true)
      × ((n : ℕ) → contains watched n ≡ true → (contains w n ≡ true) ⊎ Named addrs n)
  Loop addrs w (err e) = FirstRefused addrs e

  blank_first :
      (a : Text) (addrs : List Text) (w : List ℕ) (r : Result ConfigError (List ℕ))
      → trim a ≡ []
      → Loop addrs w r
      → Loop (a ∷ addrs) w r
  blank_first a addrs w (ok watched) e (all, kept, named) = (
    (inl e, all),
    kept,
    λ n h. elim (named n h) [ inl old ↦ inl old | inr (b, m, p) ↦ inr (b, inr m, p) ],
  )
  blank_first a addrs w (err x) e (before, b, after, split, all, filled, bad) =
      (a ∷ before, b, after, ap (λ l. a ∷ l) split, (inl e, all), filled, bad)

  read_first :
      (a : Text) (n : ℕ) (addrs : List Text) (w : List ℕ) (r : Result ConfigError (List ℕ))
      → parse_watched_address f (trim a) ≡ ok n
      → Loop addrs (insert_watched n w) r
      → Loop (a ∷ addrs) w r
  read_first a n addrs w (ok watched) e (all, kept, named) = (
    (inr (n, e, kept n (contains-insert_self n w)), all),
    λ k h. kept k (contains-insert_old n k w h),
    λ k h. elim (named k h) [
      | inl old ↦ elim (contains-insert_inv n k w old) [
        | inl same ↦ inr (a, inl refl, e ∙ ap ok same)
        | inr older ↦ inl older
      ]
      | inr (b, m, p) ↦ inr (b, inr m, p)
    ],
  )
  read_first a n addrs w (err x) e (before, b, after, split, all, filled, bad) =
      (a ∷ before, b, after, ap (λ l. a ∷ l) split, (inr (n, e), all), filled, bad)

  step_of :
      (a : Text) (addrs : List Text) (w : List ℕ) (t : Text) (p : Result ConfigError ℕ)
      → trim a ≡ t
      → t ≢ []
      → parse_watched_address f (trim a) ≡ p
      → ((v : List ℕ) → Loop addrs v (watch_all f addrs v))
      → Loop (a ∷ addrs) w (then_insert f p w (watch_all f addrs))
  step_of a addrs w t (err x) e filled p ih =
      ([], a, addrs, refl, tt, λ blank. filled (sym e ∙ blank), p)
  step_of a addrs w t (ok n) e filled p ih = read_first a n addrs w _ p (ih (insert_watched n w))

  entry_of :
      (a : Text) (addrs : List Text) (w : List ℕ) (t : Text)
      → trim a ≡ t
      → ((v : List ℕ) → Loop addrs v (watch_all f addrs v))
      → Loop (a ∷ addrs) w (unless_blank f t w (watch_all f addrs))
  entry_of a addrs w [] e ih = blank_first a addrs w _ e (ih w)
  entry_of a addrs w (c ∷ s) e ih =
      step_of a addrs w (c ∷ s) (parse_watched_address f (c ∷ s)) e (λ d. cc)
        (ap (parse_watched_address f) e) ih

  watch_all-Loop : (addrs : List Text) (w : List ℕ) → Loop addrs w (watch_all f addrs w)
  unfolding watch_all
  watch_all-Loop [] w = (tt, λ n h. h, λ n h. inl h)
  watch_all-Loop (a ∷ addrs) w = entry_of a addrs w (trim a) refl (λ v. watch_all-Loop addrs v)

  -- What from_parts answers: the configuration with every entry watched and nothing else, or the first
  -- entry that is refused.
  abbrev pub Answers : List Text → Text → Result ConfigError PassbookConfig → Type 0
  Answers addrs db_path (ok cfg) =
      All (Watches cfg.watched) addrs
      × ((n : ℕ) → contains cfg.watched n ≡ true → Named addrs n)
      × (cfg.db_path ≡ db_path)
  Answers addrs db_path (err e) = FirstRefused addrs e

  answer_of :
      (addrs : List Text) (db_path : Text) (r : Result ConfigError (List ℕ))
      → Loop addrs [] r
      → Answers addrs db_path (with_path f db_path r)
  answer_of addrs db_path (ok watched) (all, kept, named) =
      (all, λ n h. elim (named n h) [ inl none_yet ↦ cc | inr found ↦ found ], refl)
  answer_of addrs db_path (err e) refused = refused

  -- A configuration is built only if every entry that is not blank is accepted, and then the watched set holds
  -- the addresses of these entries and no other; otherwise the error is that of the first refused entry.
  pub from_parts-Answers :
      (addrs : List Text) (db_path : Text) → Answers addrs db_path (from_parts f addrs db_path)
  unfolding from_parts
  from_parts-Answers addrs db_path =
      answer_of addrs db_path (watch_all f addrs []) (watch_all-Loop addrs [])
