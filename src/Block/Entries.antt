-- ===== src/Block/Entries.antt =====
-- The rows of a block as the entries of an account: `process_block` of crates/passbook-core/src/exex.rs.
use passbook.Prelude.{
  ℕ, Member, ◌+◌, Bool-cases, inl, inr, ◌≡◌, refl, sym, ap, subst, ◌∙◌, Bool, true, false, not,
  ◌&&◌, Option, List, [], ◌∷◌, ◌++◌, ◌==◌, if◌then◌else◌, contains, All, arith,
}
use passbook.Prelude.Int.{ℤ, pos, negsuc, unsigned_abs, ◌+ℤ◌, ◌-ℤ◌, int_laws}
use passbook.Prelude.Hex.{Formats}
use passbook.Prelude.Result.{ok}
use passbook.Model.{Direction, into, out, EthTransferRow, BlockBatch}
use passbook.Inspector.{CapturedFrame}
use passbook.Attribution.{attribute_eth_frames, in_row, out_row}
use passbook.System.{SystemCredit}
use passbook.System.Credited.{other_unwatched}
use passbook.Block.{process_block, reconcile_accounts, totals_of}
use passbook.Pipeline.Deltas.{OnOk, bind-OnOk}
use passbook.Block.Balance.{NoWrap}
use passbook.Block.Outcome.{Outcome, process_block-Outcome}
use passbook.Block.Inputs.{BlockInputs}
use passbook.Block.Rows.{
  Native, count_direction, credit_direction, erc20_rows, no_native, count_rows, context,
  native_frame, native_frames, system_row, system_rows,
}
use passbook.Block.Sums.{
  add_zero, Frame, in_value, out_value, inflow, outflow, gas_total, credited, zero_add, +ℤ_assoc,
}

-- What a row moves for an account.
abbrev pub signed : Direction → ℕ → ℤ
signed into n = pos n
signed out n = pos 0 -ℤ pos n

abbrev pub entry : ℕ → EthTransferRow → ℤ
entry a r = if not r.reverted && r.address == a then signed r.direction r.amount_wei else pos 0

unfoldable pub entries : ℕ → List EthTransferRow → ℤ
entries a [] = pos 0
entries a (r ∷ rows) = entry a r +ℤ entries a rows

entries-++ :
    (a : ℕ) (xs ys : List EthTransferRow) → entries a (xs ++ ys) ≡ entries a xs +ℤ entries a ys
unfolding entries
entries-++ a [] ys = sym (zero_add (entries a ys))
entries-++ a (x ∷ xs) ys =
    ap (λ z. entry a x +ℤ z) (entries-++ a xs ys)
    ∙ sym (+ℤ_assoc (entry a x) (entries a xs) (entries a ys))

count_direction-eth :
    (d : Direction) (addr amount : ℕ) (n : Native) → (count_direction d addr amount n).eth ≡ n.eth
count_direction-eth into addr amount n = refl
count_direction-eth out addr amount n = refl

signed_credit : (z : ℤ) → signed (credit_direction z) (unsigned_abs z) ≡ z
unfolding ◌-ℤ◌
signed_credit (pos n) = ground arith
signed_credit (negsuc n) = ground arith

count_rows-eth :
    (reverted : Bool) (rows : List EthTransferRow) (n : Native)
    → (count_rows reverted rows n).eth ≡ n.eth
unfolding count_rows
count_rows-eth reverted [] n = refl
count_rows-eth true (r ∷ rows) n = count_rows-eth true rows n
count_rows-eth false (r ∷ rows) n =
    count_rows-eth false rows (count_direction r.direction r.address r.amount_wei n)
    ∙ count_direction-eth r.direction r.address r.amount_wei n

nothing_moved : (z : ℤ) → z +ℤ (pos 0 -ℤ pos 0) ≡ z
nothing_moved z = omega int_laws

moved :
    (z : ℤ) (p q m n : ℕ)
    → z +ℤ (pos p -ℤ pos q) +ℤ (pos m -ℤ pos n) ≡ z +ℤ (pos (p + m) -ℤ pos (q + n))
moved z p q m n = omega int_laws

module _ (i : BlockInputs) (a : ℕ) (w : contains i.watched a ≡ true) where
  entries-frame :
      (tx : Option ℕ) (reverted : Bool) (f : CapturedFrame)
      → entries a (attribute_eth_frames (context i tx reverted) (f ∷ []) i.watched)
        ≡ pos (in_value a (tx, reverted, f)) -ℤ pos (out_value a (tx, reverted, f))
  unfolding entries attribute_eth_frames in_row out_row ◌+ℤ◌ ◌-ℤ◌
  entries-frame tx reverted f =
      ground (arith, other_unwatched i.watched a f.to w, other_unwatched i.watched a f.from w)

  entries-credit :
      (fmt : Formats) (sc : SystemCredit)
      → entries a (if contains i.watched sc.address then system_row fmt i sc ∷ [] else [])
        ≡ (if sc.address == a then sc.signed_wei else pos 0)
  unfolding entries system_row
  entries-credit fmt sc = elim (Bool-cases (contains i.watched sc.address)) [
    | inl e ↦
        rw e (
          add_zero _ ∙ ap (λ z. if sc.address == a then z else pos 0) (signed_credit sc.signed_wei))
    | inr e ↦ rw (e, other_unwatched i.watched a sc.address w e) refl
  ]

  entries-system_rows :
      (fmt : Formats) (scs : List SystemCredit) → entries a (system_rows fmt i scs) ≡ credited a scs
  unfolding entries system_rows credited
  entries-system_rows fmt [] = refl
  entries-system_rows fmt (sc ∷ scs) =
      entries-++ a (if contains i.watched sc.address then system_row fmt i sc ∷ [] else [])
        (system_rows fmt i scs)
      ∙ ap (λ z. z +ℤ entries a (system_rows fmt i scs)) (entries-credit fmt sc)
      ∙ ap (λ z. (if sc.address == a then sc.signed_wei else pos 0) +ℤ z)
          (entries-system_rows fmt scs)

  entries-native_frame :
      (tx : Option ℕ) (reverted : Bool) (f : CapturedFrame) (n : Native)
      → entries a (native_frame i tx reverted f n).eth
        ≡ entries a n.eth
          +ℤ (pos (in_value a (tx, reverted, f)) -ℤ pos (out_value a (tx, reverted, f)))
  unfolding native_frame
  entries-native_frame tx reverted f n =
      let rows = attribute_eth_frames (context i tx reverted) (f ∷ []) i.watched in
      ap (λ eth. entries a (eth ++ rows)) (count_rows-eth reverted rows n)
      ∙ entries-++ a n.eth rows
      ∙ ap (λ z. entries a n.eth +ℤ z) (entries-frame tx reverted f)

  entries-native_frames :
      (xs : List Frame) (n : Native)
      → entries a (native_frames i xs n).eth
        ≡ entries a n.eth +ℤ (pos (inflow a xs) -ℤ pos (outflow a xs))
  unfolding native_frames inflow outflow
  entries-native_frames [] n = sym (nothing_moved (entries a n.eth))
  entries-native_frames ((tx, reverted, f) ∷ xs) n =
      entries-native_frames xs (native_frame i tx reverted f n)
      ∙ ap (λ z. z +ℤ (pos (inflow a xs) -ℤ pos (outflow a xs)))
          (entries-native_frame tx reverted f n)
      ∙ moved (entries a n.eth) (in_value a (tx, reverted, f)) (out_value a (tx, reverted, f))
          (inflow a xs) (outflow a xs)

  -- The rows of the batch of an accepted block.
  abbrev pub RowsOf : Formats → BlockBatch → Type 0
  RowsOf fmt b =
      entries a b.eth
      ≡ pos (inflow a i.frames) -ℤ pos (outflow a i.frames) +ℤ credited a i.system_signed

  entries-all :
      (fmt : Formats)
      → entries a ((native_frames i i.frames no_native).eth ++ system_rows fmt i i.system_signed)
        ≡ pos (inflow a i.frames) -ℤ pos (outflow a i.frames) +ℤ credited a i.system_signed
  unfolding entries
  entries-all fmt =
      let n = (native_frames i i.frames no_native).eth in
      entries-++ a n (system_rows fmt i i.system_signed)
      ∙ ap (λ z. entries a n +ℤ z) (entries-system_rows fmt i.system_signed)
      ∙ ap (λ z. z +ℤ credited a i.system_signed)
          (entries-native_frames i.frames no_native
            ∙ zero_add (pos (inflow a i.frames) -ℤ pos (outflow a i.frames)))

  entries-OnOk : (fmt : Formats) → OnOk (RowsOf fmt) (process_block fmt i)
  unfolding process_block
  entries-OnOk fmt = bind-OnOk (RowsOf fmt) (erc20_rows i i.erc20_logs) _ (λ rows.
      bind-OnOk (RowsOf fmt)
        (reconcile_accounts i (totals_of i (native_frames i i.frames no_native)) i.account_deltas) _
        (λ u. entries-all fmt))

regroup : (x y g c : ℤ) → x -ℤ y -ℤ g +ℤ c ≡ x -ℤ y +ℤ c -ℤ g
regroup x y g c = omega int_laws

All-Member : {A : Type 0} (P : A → Type 0) (x : A) (xs : List A) → All P xs → Member x xs → P x
All-Member P x [] h m = absurd m
All-Member P x (y ∷ ys) h (inl e) = subst P (sym e) h.0
All-Member P x (y ∷ ys) h (inr m) = All-Member P x ys h.1 m

-- The rows of an accepted block are the books of its watched accounts: for each of them the observed delta is what
-- its rows in the table of transfers add up to, those of reverted frames left out, less its rows in the table of gas
-- payments, if its sums are within their types.
pub process_block-Entries :
    (fmt : Formats) (i : BlockInputs) (b : BlockBatch) (a : ℕ) (δ : ℤ)
    → All (NoWrap i) i.watched
    → process_block fmt i ≡ ok b
    → Member (a, δ) i.account_deltas
    → contains i.watched a ≡ true
    → δ ≡ entries a b.eth -ℤ pos (gas_total a b.gas)
process_block-Entries fmt i b a δ fits e m w =
    let outcome = subst (Outcome i) e (process_block-Outcome fmt i fits) in
    let rows = subst (OnOk (RowsOf i a w fmt)) e (entries-OnOk i a w fmt) in
    All-Member _ (a, δ) i.account_deltas outcome.0 m w
    ∙ regroup (pos (inflow a i.frames)) (pos (outflow a i.frames)) (pos (gas_total a i.gas))
        (credited a i.system_signed)
    ∙ ap (λ z. z -ℤ pos (gas_total a i.gas)) (sym rows)
    ∙ ap (λ gas. entries a b.eth -ℤ pos (gas_total a gas)) (sym outcome.3)
