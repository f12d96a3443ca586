-- ===== src/Reexec/Prestate.antt =====
-- The state that a block is executed on again: `build_prestate_cache` of crates/passbook-core/src/reexec.rs. The
-- caching database is revm's `CacheDB` and the chain's outcomes are reth's: parameters.
use passbook.Prelude.{ℕ, ◌-◌, ◌≡◌, ◌&&◌, Option, none, some, [], ◌∷◌, ltb, ◌==◌, if◌then◌else◌}
use passbook.Prelude.AddrMap.{AddrMap, lookup}
use passbook.Prelude.Text.{Text}

pub record AccountInfo : Type 0 where
  pub balance : ℕ
  pub nonce : ℕ
  pub code_hash : ℕ
  pub code : Option Text

-- What a block left of an account: `info` is `none` where it was destroyed; the slots have their present values.
pub record BundleAccount : Type 0 where
  pub info : Option AccountInfo
  pub storage : AddrMap ℕ

pub record Bundle : Type 0 where
  pub state : AddrMap BundleAccount
  pub contracts : AddrMap Text

-- The state of the parent of the chain, as a provider reads it.
pub record StateProvider : Type 0 where
  pub account : ℕ → Option AccountInfo
  pub slot : ℕ → ℕ → ℕ

-- What the program uses of `CacheDB`: what is inserted is read back, and all else is read from the state below.
pub record CacheDb : Type 1 where
  pub Cache : Type 0
  pub new_cache : StateProvider → Cache
  pub insert_account_info : ℕ → AccountInfo → Cache → Cache
  pub insert_account_storage : ℕ → ℕ → ℕ → Cache → Cache
  pub basic : Cache → ℕ → Option AccountInfo
  pub storage : Cache → ℕ → ℕ → ℕ
  pub basic-new_cache : (p : StateProvider) (a : ℕ) → basic (new_cache p) a ≡ p.account a
  pub storage-new_cache : (p : StateProvider) (a s : ℕ) → storage (new_cache p) a s ≡ p.slot a s
  pub basic-insert_account_info :
      (b : ℕ) (i : AccountInfo) (c : Cache) (a : ℕ)
      → basic (insert_account_info b i c) a ≡ (if b == a then some i else basic c a)
  pub storage-insert_account_info :
      (b : ℕ) (i : AccountInfo) (c : Cache) (a s : ℕ)
      → storage (insert_account_info b i c) a s ≡ storage c a s
  pub basic-insert_account_storage :
      (b t v : ℕ) (c : Cache) (a : ℕ) → basic (insert_account_storage b t v c) a ≡ basic c a
  pub storage-insert_account_storage :
      (b t v : ℕ) (c : Cache) (a s : ℕ)
      → storage (insert_account_storage b t v c) a s
        ≡ (if b == a && t == s then v else storage c a s)

-- `KECCAK_EMPTY`
abbrev pub keccak_empty : ℕ
keccak_empty = 0xc5d2460186f7233c927e7db2dcc703c0e500b653ca82273b7bfad8045d85a470

abbrev pub code_or : AccountInfo → Option Text → AccountInfo
code_or info none = info
code_or info (some bc) = record info { code = some bc }

abbrev pub missing_code : AccountInfo → Option Text → AddrMap Text → AccountInfo
missing_code info (some bc) contracts = info
missing_code info none contracts =
    if info.code_hash == keccak_empty then info else code_or info (lookup info.code_hash contracts)

-- The account with its code, where the bundle has it.
unfoldable pub with_code : AddrMap Text → AccountInfo → AccountInfo
with_code contracts post = missing_code post post.code contracts

module _ (db : CacheDb) where
  open db use {Cache, new_cache, insert_account_info, insert_account_storage}

  unfoldable pub insert_info : AddrMap Text → ℕ → Option AccountInfo → Cache → Cache
  unfolding with_code
  insert_info contracts a none c = c
  insert_info contracts a (some post) c = insert_account_info a (with_code contracts post) c

  unfoldable pub insert_slots : ℕ → AddrMap ℕ → Cache → Cache
  insert_slots a [] c = c
  insert_slots a ((s, v) ∷ slots) c = insert_slots a slots (insert_account_storage a s v c)

  unfoldable pub insert_accounts : AddrMap Text → AddrMap BundleAccount → Cache → Cache
  unfolding insert_info insert_slots
  insert_accounts contracts [] c = c
  insert_accounts contracts ((a, acct) ∷ accts) c =
      insert_accounts contracts accts
        (insert_slots a acct.storage (insert_info contracts a acct.info c))

  abbrev pub overlay_outcome : Option Bundle → Cache → Cache
  overlay_outcome none c = c
  overlay_outcome (some bundle) c = insert_accounts bundle.contracts bundle.state c

  -- `outcome n`: the chain's `execution_outcome_at_block(n)`.
  unfoldable pub build_prestate_cache : (ℕ → Option Bundle) → ℕ → StateProvider → Cache
  unfolding insert_accounts
  build_prestate_cache outcome block_number parent_state =
      if ltb 0 block_number
      then overlay_outcome (outcome (block_number - 1)) (new_cache parent_state)
      else new_cache parent_state
