-- ===== src/Opening/Whole.antt =====
-- A ledger is never half migrated: `Ledger::open` (crates/passbook-core/src/ledger/mod.rs) on files of the
-- versions 1 to 3.
use passbook.Prelude.{
  ℕ, ◌≤◌, ◌≡◌, refl, sym, ap, subst, ◌∙◌, Bool, true, false, some, List, [], ◌∷◌, any, arith,
  Bool-cases, Option-cases, inl, inr, ◌⊎◌, All,
}
use passbook.Prelude.Text.{Text, codes, text_eq, text_eq_iff}
use passbook.Prelude.Decimal.{to_string}
use passbook.Prelude.Result.{ok, err}
use passbook.Ledger.{get_meta}
use passbook.Ledger.Rows.{Erc20Record, same_erc20}
use passbook.Opening.Statements.{DbFile, FileStatement, has_duplicate, same_erc20_v1}
use passbook.Opening.Versions.{
  Version, v1, v2, v3, version_text, Contents, meta_at, ledger_at, HasDefault, Possible, to_v2,
  to_v3, run_all_cases, get_meta-update_meta_self, get_meta-update_meta_other,
}
use passbook.Opening.{
  Refusals, Opened, OpenError, sqlite, chain_id_mismatch, select_meta, with_text, run_all,
  migrate_v1_to_v2, migrate_v2_to_v3, migrate, check_version, check_chain, upgrade, open_ledger,
  create_or_upgrade, run_each, creation,
}

-- Rows that differ in the key of version 1 differ in that of version 2.
wide_key : (x y : Erc20Record) → same_erc20_v1 x y ≡ false → same_erc20 x y ≡ false
unfolding same_erc20_v1 same_erc20
wide_key x y h = ground arith

any_wide :
    (r : Erc20Record) (rs : List Erc20Record)
    → any (λ x. same_erc20_v1 x r) rs ≡ false
    → any (λ x. same_erc20 x r) rs ≡ false
any_wide r [] h = refl
any_wide r (x ∷ rs) h = ground (arith, wide_key x r, any_wide r rs)

pub wide_keys :
    (rs : List Erc20Record)
    → has_duplicate same_erc20_v1 rs ≡ false
    → has_duplicate same_erc20 rs ≡ false
unfolding has_duplicate
wide_keys [] h = refl
wide_keys (r ∷ rs) h = ground (arith, any_wide r rs, wide_keys rs)

abbrev pub rank : Version → ℕ
rank v1 = 1
rank v2 = 2
rank v3 = 3

rank_le : (v : Version) → rank v ≤ rank v3
rank_le v1 = omega arith
rank_le v2 = omega arith
rank_le v3 = omega arith

module _ (l : Contents) where
  -- An answer about a ledger that was at version v: it is whole, at this version or a later one, and a success
  -- means that it is at version 3 and belongs to the chain.
  abbrev pub Whole : ℕ → Version → Opened → Type 0
  Whole chain_id v o =
      (v' : Version) × (rank v ≤ rank v')
      × (o.1 ≡ ledger_at l v')
      × (o.0 ≡ ok tt → (v' ≡ v3) × (get_meta (codes "chain_id") l.meta ≡ some (to_string chain_id)))

  abbrev pub IsMeta : Type 0
  IsMeta = (t : Text) × (get_meta (codes "schema_version") l.meta ≡ some t)

  failed :
      (chain_id : ℕ) (v w : Version) (e : OpenError)
      → rank v ≤ rank w
      → Whole chain_id v (err e, ledger_at l w)
  failed chain_id v w e h = (w, h, refl, λ d. cc)

  -- The query for the version.
  select_version :
      (refused : Bool) (v : Version) (next : Text → Opened)
      → IsMeta
      → (select_meta refused (codes "schema_version") (ledger_at l v) next
          ≡ (err sqlite, ledger_at l v))
        ⊎ (select_meta refused (codes "schema_version") (ledger_at l v) next
            ≡ next (version_text v))
  select_version true v next h = inl refl
  select_version false v1 next h = inr (
      ap (λ o. with_text (ledger_at l v1) o next)
        (get_meta-update_meta_self _ (version_text v1) l.meta h.1))
  select_version false v2 next h = inr (
      ap (λ o. with_text (ledger_at l v2) o next)
        (get_meta-update_meta_self _ (version_text v2) l.meta h.1))
  select_version false v3 next h = inr (
      ap (λ o. with_text (ledger_at l v3) o next)
        (get_meta-update_meta_self _ (version_text v3) l.meta h.1))

  pub chain_of_m : (get_meta (codes "chain_id") (meta_at l v3)) ≡ get_meta (codes "chain_id") l.meta
  unfolding text_eq
  chain_of_m =
      get_meta-update_meta_other (codes "schema_version") (codes "chain_id") (version_text v3)
        l.meta refl

  check_chain-Whole :
      (refused : Bool) (chain_id : ℕ) (v : Version)
      → Whole chain_id v (check_chain refused chain_id (ledger_at l v3))
  unfolding check_chain
  check_chain-Whole true chain_id v = failed chain_id v v3 sqlite (rank_le v)
  check_chain-Whole false chain_id v =
      elim (Option-cases (get_meta (codes "chain_id") (meta_at l v3))) [
        | inl e ↦ rw e (failed chain_id v v3 sqlite (rank_le v))
        | inr (stored, e) ↦ elim (Bool-cases (text_eq stored (to_string chain_id))) [
          | inl same ↦
              rw (e, same)
                (
                  v3,
                  rank_le v,
                  refl,
                  λ d. (
                    refl,
                    sym chain_of_m ∙ e ∙ ap some ((text_eq_iff stored (to_string chain_id)).0 same),
                  ),
                )
          | inr other ↦
              rw (e, other) (failed chain_id v v3 (chain_id_mismatch stored chain_id) (rank_le v))
        ]
      ]

  select_version-Whole :
      (refused : Bool) (chain_id : ℕ) (v w : Version) (next : Text → Opened)
      → IsMeta
      → rank v ≤ rank w
      → Whole chain_id v (next (version_text w))
      → Whole chain_id v (select_meta refused (codes "schema_version") (ledger_at l w) next)
  select_version-Whole refused chain_id v w next h le k = elim (select_version refused w next h) [
    | inl e ↦ subst (Whole chain_id v) (sym e) (failed chain_id v w sqlite le)
    | inr e ↦ subst (Whole chain_id v) (sym e) k
  ]

  check_version-Whole :
      (refused : Bool) (chain_id : ℕ) (v : Version) (next : Opened)
      → IsMeta
      → Whole chain_id v next
      → Whole chain_id v (check_version refused (ledger_at l v3) next)
  unfolding check_version text_eq
  check_version-Whole refused chain_id v next h w =
      select_version-Whole refused chain_id v v3 _ h (rank_le v) w

  -- A migration that is not for this version does nothing.
  migrate_other :
      (refused : Bool) (chain_id : ℕ) (t : Text) (steps : ℕ → Bool) (ss : List FileStatement)
      (v w : Version) (next : DbFile → Opened)
      → IsMeta
      → text_eq (version_text w) t ≡ false
      → rank v ≤ rank w
      → Whole chain_id v (next (ledger_at l w))
      → Whole chain_id v (migrate refused t steps ss (ledger_at l w) next)
  unfolding migrate
  migrate_other refused chain_id t steps ss v w next h n le k =
      select_version-Whole refused chain_id v w _ h le (rw n k)

  migrate_own :
      (refused : Bool) (chain_id : ℕ) (t : Text) (steps : ℕ → Bool) (ss : List FileStatement)
      (v w w' : Version) (next : DbFile → Opened)
      → IsMeta
      → text_eq (version_text w) t ≡ true
      → rank v ≤ rank w
      → run_all (λ _. false) 0 ss (ledger_at l w) ≡ some (ledger_at l w')
      → Whole chain_id v (next (ledger_at l w'))
      → Whole chain_id v (migrate refused t steps ss (ledger_at l w) next)
  unfolding migrate
  migrate_own refused chain_id t steps ss v w w' next h n le run k =
      select_version-Whole refused chain_id v w _ h le
        (elim (run_all_cases steps 0 ss (ledger_at l w)) [
          | inl stopped ↦ rw (n, stopped) (failed chain_id v w sqlite le)
          | inr done ↦ rw (n, done ∙ run) k
        ])

  upgrade-Whole :
      (r : Refusals) (chain_id : ℕ) (v : Version)
      → IsMeta
      → Possible l v
      → Whole chain_id v (upgrade r chain_id (ledger_at l v))
  unfolding upgrade text_eq
  upgrade-Whole r chain_id v h keys = from_version v keys
    where
      at_v3 :
          (v : Version)
          → Whole chain_id v (
              check_version
                (r.queries 3)
                (ledger_at l v3)
                (check_chain (r.queries 4) chain_id (ledger_at l v3)))
      at_v3 v =
          check_version-Whole (r.queries 3) chain_id v _ h
            (check_chain-Whole (r.queries 4) chain_id v)

      next : DbFile → Opened
      next f = check_version (r.queries 3) f (check_chain (r.queries 4) chain_id f)

      at_v2 :
          (v : Version)
          → rank v ≤ 2
          → All HasDefault l.deltas
          → Whole chain_id v
              (migrate (r.queries 2) (codes "2") r.to_v3 migrate_v2_to_v3 (ledger_at l v2) next)
      at_v2 v le d =
          migrate_own (r.queries 2) chain_id (codes "2") r.to_v3 migrate_v2_to_v3 v v2 v3 next h
            refl le (to_v3 l d) (at_v3 v)

      from_version :
          (v : Version) → Possible l v → Whole chain_id v (upgrade r chain_id (ledger_at l v))
      from_version v1 keys =
          migrate_own (r.queries 1) chain_id (codes "1") r.to_v2 migrate_v1_to_v2 v1 v1 v2 _ h refl
            (omega arith) (to_v2 l (wide_keys l.erc20 keys.0)) (at_v2 v1 (omega arith) keys.1)
      from_version v2 keys =
          migrate_other (r.queries 1) chain_id (codes "1") r.to_v2 migrate_v1_to_v2 v2 v2 _ h refl
            (omega arith) (at_v2 v2 (omega arith) keys)
      from_version v3 keys =
          migrate_other (r.queries 1) chain_id (codes "1") r.to_v2 migrate_v1_to_v2 v3 v3 _ h refl
            (omega arith)
            (migrate_other (r.queries 2) chain_id (codes "2") r.to_v3 migrate_v2_to_v3 v3 v3 next h
              refl (omega arith) (at_v3 v3))

  -- Whatever SQLite refuses and wherever `open` is interrupted, a ledger of version 1, 2 or 3 is afterwards a
  -- whole ledger of the same or a later version with the same rows; those of diagnostics keep their causes, which
  -- before version 3 are not stored and are the default one. Where `open` succeeds, the ledger is at version 3 and
  -- the chain that is stored in it is the one that was asked for. A ledger of version 1 has no two token
  -- transfers with the key of that version.
  pub open_ledger-Whole :
      (r : Refusals) (chain_id : ℕ) (v : Version)
      → IsMeta
      → Possible l v
      → Whole chain_id v (open_ledger r chain_id (ledger_at l v))
  unfolding open_ledger
  open_ledger-Whole r chain_id v h keys = elim (Bool-cases r.pragmas) [
    | inl e ↦ rw e (failed chain_id v v sqlite (rank_self v))
    | inr e ↦ elim (Bool-cases (r.queries 0)) [
      | inl f ↦ rw (e, f) (failed chain_id v v sqlite (rank_self v))
      | inr f ↦ rw (e, f) (upgrades v (upgrade-Whole r chain_id v h keys))
    ]
  ]
    where
      rank_self : (v : Version) → rank v ≤ rank v
      rank_self v = omega arith

      upgrades :
          (v : Version)
          → Whole chain_id v (upgrade r chain_id (ledger_at l v))
          → Whole chain_id v (
              create_or_upgrade
                (ledger_at l v).meta
                (run_each r.creation 0 (creation chain_id) (ledger_at l v))
                (upgrade r chain_id (ledger_at l v)))
      upgrades v1 w = w
      upgrades v2 w = w
      upgrades v3 w = w
