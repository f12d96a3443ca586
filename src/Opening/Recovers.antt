-- ===== src/Opening/Recovers.antt =====
-- Opening a ledger again after `Ledger::open` (crates/passbook-core/src/ledger/mod.rs) failed or was interrupted.
use passbook.Prelude.{ℕ, ◌≡◌, refl, ap, ◌∙◌, false, some, List, [], ◌∷◌, ◌≤◌, All, arith}
use passbook.Prelude.Text.{Text, codes, text_eq, text_eq_iff}
use passbook.Prelude.Decimal.{to_string}
use passbook.Prelude.Result.{ok}
use passbook.Ledger.{get_meta}
use passbook.Opening.Statements.{DbFile}
use passbook.Opening.Versions.{
  Version, v1, v2, v3, version_text, Contents, ledger_at, HasDefault, Possible, to_v2, to_v3,
  get_meta-update_meta_self,
}
use passbook.Opening.Whole.{wide_keys, IsMeta, chain_of_m, rank, open_ledger-Whole}
use passbook.Opening.{
  Refusals, Opened, select_meta, with_text, then_on, migrate_v2_to_v3, migrate, check_version,
  check_chain, upgrade, open_ledger,
}

-- Nothing is refused.
abbrev pub calm : Refusals
calm = record {
  pragmas = false;
  queries = λ k. false;
  creation = λ k. false;
  to_v2 = λ k. false;
  to_v3 = λ k. false;
}

-- The file after some attempts to open it, each for some chain.
unfoldable pub after_attempts : List (Refusals × ℕ) → DbFile → DbFile
after_attempts [] file = file
after_attempts ((r, chain_id) ∷ attempts) file =
    after_attempts attempts (open_ledger r chain_id file).1

still-Possible : (l : Contents) (v w : Version) → rank v ≤ rank w → Possible l v → Possible l w
still-Possible l v1 v1 le p = p
still-Possible l v1 v2 le p = p.1
still-Possible l v1 v3 le p = tt
still-Possible l v2 v1 le p = absurd (omega (arith, le))
still-Possible l v2 v2 le p = p
still-Possible l v2 v3 le p = tt
still-Possible l v3 v1 le p = absurd (omega (arith, le))
still-Possible l v3 v2 le p = absurd (omega (arith, le))
still-Possible l v3 v3 le p = tt

module _ (l : Contents) (h : IsMeta l) where
  selected :
      (v : Version) (next : Text → Opened)
      → select_meta false (codes "schema_version") (ledger_at l v) next ≡ next (version_text v)
  selected v1 next =
      ap (λ o. with_text (ledger_at l v1) o next)
        (get_meta-update_meta_self _ (version_text v1) l.meta h.1)
  selected v2 next =
      ap (λ o. with_text (ledger_at l v2) o next)
        (get_meta-update_meta_self _ (version_text v2) l.meta h.1)
  selected v3 next =
      ap (λ o. with_text (ledger_at l v3) o next)
        (get_meta-update_meta_self _ (version_text v3) l.meta h.1)

  chain_passes :
      (chain_id : ℕ)
      → get_meta (codes "chain_id") l.meta ≡ some (to_string chain_id)
      → check_chain false chain_id (ledger_at l v3) ≡ (ok tt, ledger_at l v3)
  unfolding check_chain
  chain_passes chain_id c =
      rw (chain_of_m l ∙ c, (text_eq_iff (to_string chain_id) (to_string chain_id)).1 refl) refl

  module _ (chain_id : ℕ) (c : get_meta (codes "chain_id") l.meta ≡ some (to_string chain_id)) where
    from_v3 :
        check_version false (ledger_at l v3) (check_chain false chain_id (ledger_at l v3))
        ≡ (ok tt, ledger_at l v3)
    unfolding check_version text_eq
    from_v3 = selected v3 _ ∙ chain_passes chain_id c

    final : DbFile → Opened
    final f = check_version false f (check_chain false chain_id f)

    from_v2 :
        All HasDefault l.deltas
        → migrate false (codes "2") (λ k. false) migrate_v2_to_v3 (ledger_at l v2) final
          ≡ (ok tt, ledger_at l v3)
    unfolding migrate text_eq final
    from_v2 d = selected v2 _ ∙ ap (λ o. then_on (ledger_at l v2) o final) (to_v3 l d) ∙ from_v3

    open_calm :
        (v : Version)
        → Possible l v
        → open_ledger calm chain_id (ledger_at l v) ≡ (ok tt, ledger_at l v3)
    unfolding open_ledger upgrade migrate text_eq final
    open_calm v1 keys =
        selected v1 _
        ∙ ap
            (λ o.
              then_on (ledger_at l v1) o
                (λ f. migrate false (codes "2") (λ k. false) migrate_v2_to_v3 f final))
            (to_v2 l (wide_keys l.erc20 keys.0))
        ∙ from_v2 keys.1
    open_calm v2 keys = selected v2 _ ∙ from_v2 keys
    open_calm v3 keys = selected v3 _ ∙ selected v3 _ ∙ from_v3

    -- However often opening a ledger of version 1, 2 or 3 has failed or was interrupted before, and for
    -- whatever chains: once SQLite refuses nothing and the chain is the stored one, it succeeds, and leaves
    -- the ledger at version 3 with the rows that it had at first; the causes of the diagnostic rows are those that
    -- were stored, or before version 3 the default one.
    pub open_ledger-Recovers :
        (v : Version) (attempts : List (Refusals × ℕ))
        → Possible l v
        → open_ledger calm chain_id (after_attempts attempts (ledger_at l v))
          ≡ (ok tt, ledger_at l v3)
    unfolding after_attempts
    open_ledger-Recovers v [] keys = open_calm v keys
    open_ledger-Recovers v ((r, other) ∷ attempts) keys =
        let (v', le, e, done) = open_ledger-Whole l r other v h keys in
        rw e (open_ledger-Recovers v' attempts (still-Possible l v v' le keys))
