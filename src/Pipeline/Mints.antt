-- ===== src/Pipeline/Mints.antt =====
-- What the credits of an OP block add up to for a watched account: `deposit_mint_credits` and `fee_vault_credits` of
-- crates/passbook-stack-optimism/src/op_chain.rs.
use passbook.Prelude.{
  ℕ, ◌+◌, ◌≤◌, ◌≡◌, refl, true, List, [], ◌∷◌, ◌==◌, if◌then◌else◌, contains, arith,
}
use passbook.Prelude.Int.{pos, ◌+ℤ◌}
use passbook.Prelude.Hex.{Formats}
use passbook.Prelude.Words.{clamp_i128, i128_max}
use passbook.System.Credited.{credited-append, other_unwatched}
use passbook.Block.Sums.{credited}
use passbook.Pipeline.Optimism.{TxKind, tx_call, tx_create, Deposit, minted, deposit_mint_credits}

-- What a deposit mints to an account.
abbrev pub mint_to : ℕ → ℕ → TxKind → ℕ
mint_to a mint tx_create = 0
mint_to a mint (tx_call to) = if to == a then mint else 0

unfoldable pub mints : ℕ → List Deposit → ℕ
mints a [] = 0
mints a (d ∷ deposits) = mint_to a d.mint d.to + mints a deposits

module _ (fmt : Formats) (watched : List ℕ) (a : ℕ) (w : contains watched a ≡ true) where
  credited-minted :
      (d : Deposit) (to : TxKind)
      → mint_to a d.mint to ≤ i128_max
      → credited a (if d.mint == 0 then [] else minted fmt watched d to) ≡ pos (mint_to a d.mint to)
  unfolding credited clamp_i128 ◌+ℤ◌
  credited-minted d tx_create h = ground arith
  credited-minted d (tx_call to) h = ground (arith, other_unwatched watched a to w)

  -- The credits of the deposits of a block add up, for a watched account, to what they mint to it, if
  -- this is no more than i128::MAX. A deposit that creates a contract counts for nothing.
  pub deposit_mint_credits-credited :
      (deposits : List Deposit)
      → mints a deposits ≤ i128_max
      → credited a (deposit_mint_credits fmt deposits watched) ≡ pos (mints a deposits)
  unfolding deposit_mint_credits mints credited
  deposit_mint_credits-credited [] h = refl
  deposit_mint_credits-credited (d ∷ deposits) h =
      credited-append a (if d.mint == 0 then [] else minted fmt watched d d.to)
        (deposit_mint_credits fmt deposits watched) _ _ (credited-minted d d.to (omega arith))
        (deposit_mint_credits-credited deposits (omega arith))
