-- ===== src/Reexec/Overlay.antt =====
-- What `build_prestate_cache` (crates/passbook-core/src/reexec.rs) lets the execution read.
use passbook.Prelude.{
  ℕ, ◌-◌, ◌≡◌, refl, sym, ap, ◌∙◌, false, Option, none, some, [], ◌∷◌, ◌==◌, ==_iff, ==_refl, ltb,
  if◌then◌else◌, unwrap_or, arith, Bool-cases, inl, inr,
}
use passbook.Prelude.AddrMap.{AddrMap, lookup}
use passbook.Prelude.Text.{Text}
use passbook.Reexec.Prestate.{
  AccountInfo, BundleAccount, Bundle, StateProvider, CacheDb, keccak_empty, missing_code, with_code,
  insert_info, insert_slots, insert_accounts, overlay_outcome, build_prestate_cache,
}

-- The keys of a HashMap.
abbrev pub UniqueKeys : {V : Type 0} → AddrMap V → Type 0
UniqueKeys [] = Unit
UniqueKeys ((k, v) ∷ m) = (lookup k m ≡ none) × UniqueKeys m

-- The code of an account: its own, or, unless it has none by its hash, that of the bundle.
abbrev pub code_over : AddrMap Text → ℕ → Option Text → Option Text
code_over contracts code_hash (some own) = some own
code_over contracts code_hash none =
    if code_hash == 0xc5d2460186f7233c927e7db2dcc703c0e500b653ca82273b7bfad8045d85a470
    then none
    else lookup code_hash contracts

abbrev pub coded : AddrMap Text → AccountInfo → AccountInfo
coded contracts post = record post { code = code_over contracts post.code_hash post.code }

-- The account over the one below it.
abbrev pub info_over : AddrMap Text → Option AccountInfo → Option AccountInfo → Option AccountInfo
info_over contracts none below = below
info_over contracts (some post) below = some (coded contracts post)

abbrev pub account_over :
    AddrMap Text → Option BundleAccount → Option AccountInfo → Option AccountInfo
account_over contracts none below = below
account_over contracts (some acct) below = info_over contracts acct.info below

abbrev pub slot_over : Option BundleAccount → ℕ → ℕ → ℕ
slot_over none s below = below
slot_over (some acct) s below = unwrap_or (lookup s acct.storage) below

abbrev pub SlotsUnique : AddrMap BundleAccount → Type 0
SlotsUnique [] = Unit
SlotsUnique ((a, acct) ∷ m) = UniqueKeys acct.storage × SlotsUnique m

-- What the chain's blocks before this one have changed, if there are any.
abbrev pub changes_before : (ℕ → Option Bundle) → ℕ → Option Bundle
changes_before outcome block_number =
    if ltb 0 block_number then outcome (block_number - 1) else none

abbrev pub IsKeyed : Option Bundle → Type 0
IsKeyed none = Unit
IsKeyed (some bundle) = UniqueKeys bundle.state × SlotsUnique bundle.state

abbrev pub account_after : Option Bundle → StateProvider → ℕ → Option AccountInfo
account_after none parent a = parent.account a
account_after (some bundle) parent a =
    account_over bundle.contracts (lookup a bundle.state) (parent.account a)

abbrev pub slot_after : Option Bundle → StateProvider → ℕ → ℕ → ℕ
slot_after none parent a s = parent.slot a s
slot_after (some bundle) parent a s = slot_over (lookup a bundle.state) s (parent.slot a s)

coded_by :
    (contracts : AddrMap Text) (post : AccountInfo) (own found : Option Text)
    → post.code ≡ own
    → lookup post.code_hash contracts ≡ found
    → missing_code post own contracts
      ≡ record post { code = code_over contracts post.code_hash own }
coded_by contracts post (some own) found e f = ap (λ code. record post { code = code }) e
coded_by contracts post none none e f = elim (Bool-cases (post.code_hash == keccak_empty)) [
  | inl k ↦ rw k (ap (λ code. record post { code = code }) e)
  | inr k ↦ rw (k, f) (ap (λ code. record post { code = code }) e)
]
coded_by contracts post none (some code) e f = elim (Bool-cases (post.code_hash == keccak_empty)) [
  | inl k ↦ rw k (ap (λ code. record post { code = code }) e)
  | inr k ↦ rw (k, f) refl
]

with_code-coded :
    (contracts : AddrMap Text) (post : AccountInfo)
    → with_code contracts post ≡ coded contracts post
unfolding with_code
with_code-coded contracts post =
    coded_by contracts post post.code (lookup post.code_hash contracts) refl refl

same_address :
    (a : ℕ) (i : AccountInfo) (below : Option AccountInfo)
    → (if a == a then some i else below) ≡ some i
same_address a i below = rw (==_refl a) refl

module _ (db : CacheDb) where
  basic-insert_slots :
      (b : ℕ) (slots : AddrMap ℕ) (c : db.Cache) (a : ℕ)
      → db.basic (insert_slots db b slots c) a ≡ db.basic c a
  unfolding insert_slots
  basic-insert_slots b [] c a = refl
  basic-insert_slots b ((s, v) ∷ slots) c a =
      basic-insert_slots b slots (db.insert_account_storage b s v c) a
      ∙ db.basic-insert_account_storage b s v c a

  storage-insert_slots_other :
      (b : ℕ) (slots : AddrMap ℕ) (c : db.Cache) (a s : ℕ)
      → (b == a) ≡ false
      → db.storage (insert_slots db b slots c) a s ≡ db.storage c a s
  unfolding insert_slots
  storage-insert_slots_other b [] c a s h = refl
  storage-insert_slots_other b ((t, v) ∷ slots) c a s h =
      storage-insert_slots_other b slots (db.insert_account_storage b t v c) a s h
      ∙ db.storage-insert_account_storage b t v c a s
      ∙ rw h refl

  storage-insert_slots :
      (a : ℕ) (slots : AddrMap ℕ) (c : db.Cache) (s : ℕ)
      → UniqueKeys slots
      → db.storage (insert_slots db a slots c) a s ≡ unwrap_or (lookup s slots) (db.storage c a s)
  unfolding insert_slots
  storage-insert_slots a [] c s u = refl
  storage-insert_slots a ((t, v) ∷ slots) c s u =
      let rest = storage-insert_slots a slots (db.insert_account_storage a t v c) s u.1 in
      let here = db.storage-insert_account_storage a t v c a s in
      elim (Bool-cases (t == s)) [
        | inl e ↦ ground (arith, rest, here, u.0)
        | inr e ↦ ground (arith, rest, here)
      ]

  basic-insert_info_other :
      (contracts : AddrMap Text) (b : ℕ) (info : Option AccountInfo) (c : db.Cache) (a : ℕ)
      → (b == a) ≡ false
      → db.basic (insert_info db contracts b info c) a ≡ db.basic c a
  unfolding insert_info
  basic-insert_info_other contracts b none c a h = refl
  basic-insert_info_other contracts b (some post) c a h =
      db.basic-insert_account_info b (with_code contracts post) c a ∙ rw h refl

  storage-insert_info :
      (contracts : AddrMap Text) (b : ℕ) (info : Option AccountInfo) (c : db.Cache) (a s : ℕ)
      → db.storage (insert_info db contracts b info c) a s ≡ db.storage c a s
  unfolding insert_info
  storage-insert_info contracts b none c a s = refl
  storage-insert_info contracts b (some post) c a s =
      db.storage-insert_account_info b (with_code contracts post) c a s

  basic-insert_info :
      (contracts : AddrMap Text) (a : ℕ) (info : Option AccountInfo) (c : db.Cache)
      → db.basic (insert_info db contracts a info c) a ≡ info_over contracts info (db.basic c a)
  unfolding insert_info
  basic-insert_info contracts a none c = refl
  basic-insert_info contracts a (some post) c =
      db.basic-insert_account_info a (with_code contracts post) c a
      ∙ same_address a (with_code contracts post) (db.basic c a)
      ∙ ap some (with_code-coded contracts post)

  -- The account at one address after all of the bundle's are inserted.
  basic-insert_accounts :
      (contracts : AddrMap Text) (accts : AddrMap BundleAccount) (c : db.Cache) (a : ℕ)
      → UniqueKeys accts
      → db.basic (insert_accounts db contracts accts c) a
        ≡ account_over contracts (lookup a accts) (db.basic c a)
  unfolding insert_accounts
  basic-insert_accounts contracts [] c a u = refl
  basic-insert_accounts contracts ((b, acct) ∷ accts) c a u =
      basic-insert_accounts contracts accts _ a u.1
      ∙ ap (account_over contracts (lookup a accts))
          (basic-insert_slots b acct.storage (insert_info db contracts b acct.info c) a)
      ∙ elim (Bool-cases (b == a)) [
        | inl e ↦
            let same : b ≡ a = (==_iff b a).0 e in
            let gone : lookup a accts ≡ none = ap (λ (k : ℕ). lookup k accts) (sym same) ∙ u.0 in
            rw (e, gone)
              (ap (λ (k : ℕ). db.basic (insert_info db contracts k acct.info c) a) same
                ∙ basic-insert_info contracts a acct.info c)
        | inr e ↦ rw e (
            ap (account_over contracts (lookup a accts))
              (basic-insert_info_other contracts b acct.info c a e))
      ]

  storage-insert_accounts :
      (contracts : AddrMap Text) (accts : AddrMap BundleAccount) (c : db.Cache) (a s : ℕ)
      → UniqueKeys accts
      → SlotsUnique accts
      → db.storage (insert_accounts db contracts accts c) a s
        ≡ slot_over (lookup a accts) s (db.storage c a s)
  unfolding insert_accounts
  storage-insert_accounts contracts [] c a s u v = refl
  storage-insert_accounts contracts ((b, acct) ∷ accts) c a s u v =
      storage-insert_accounts contracts accts _ a s u.1 v.1 ∙ elim (Bool-cases (b == a)) [
        | inl e ↦
            let same : b ≡ a = (==_iff b a).0 e in
            let gone : lookup a accts ≡ none = ap (λ (k : ℕ). lookup k accts) (sym same) ∙ u.0 in
            rw (e, gone)
              (ap
                  (λ (k : ℕ).
                    db.storage
                      (insert_slots db k acct.storage (insert_info db contracts k acct.info c)) a s)
                  same
                ∙ storage-insert_slots a acct.storage (insert_info db contracts a acct.info c) s v.0
                ∙ ap (unwrap_or (lookup s acct.storage))
                    (storage-insert_info contracts a acct.info c a s))
        | inr e ↦ rw e (
            ap (slot_over (lookup a accts) s) (
              storage-insert_slots_other b acct.storage _ a s e
              ∙ storage-insert_info contracts b acct.info c a s))
      ]

  -- The cache before a block answers for every account and every slot: with what the chain's earlier blocks
  -- left of it, the code put in from the bundle where the account lacks it, or, where they left nothing of it,
  -- with the state of the chain's parent. An account that these blocks destroyed is answered for by the parent.
  pub build_prestate_cache-Overlay :
      (outcome : ℕ → Option Bundle) (block_number : ℕ) (parent : StateProvider) (a s : ℕ)
      → IsKeyed (changes_before outcome block_number)
      → (db.basic (build_prestate_cache db outcome block_number parent) a
          ≡ account_after (changes_before outcome block_number) parent a)
        × (db.storage (build_prestate_cache db outcome block_number parent) a s
            ≡ slot_after (changes_before outcome block_number) parent a s)
  unfolding build_prestate_cache
  build_prestate_cache-Overlay outcome block_number parent a s keyed =
      elim (Bool-cases (ltb 0 block_number)) [
        | inl e ↦ rw e (over (outcome (block_number - 1)) (rw e at keyed))
        | inr e ↦ rw e (db.basic-new_cache parent a, db.storage-new_cache parent a s)
      ]
    where
      over :
          (o : Option Bundle)
          → IsKeyed o
          → (db.basic (overlay_outcome db o (db.new_cache parent)) a ≡ account_after o parent a)
            × (db.storage (overlay_outcome db o (db.new_cache parent)) a s
                ≡ slot_after o parent a s)
      over none k = (db.basic-new_cache parent a, db.storage-new_cache parent a s)
      over (some bundle) k = (
        basic-insert_accounts bundle.contracts bundle.state (db.new_cache parent) a k.0
            ∙ ap (account_over bundle.contracts (lookup a bundle.state))
                (db.basic-new_cache parent a),
        storage-insert_accounts bundle.contracts bundle.state (db.new_cache parent) a s k.0 k.1
            ∙ ap (slot_over (lookup a bundle.state) s) (db.storage-new_cache parent a s),
      )
