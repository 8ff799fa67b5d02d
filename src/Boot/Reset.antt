-- ===== src/Boot/Reset.antt =====
-- platforms/atsam4s/src/vectors.c: the memory at the start of main.
use flipper.Prelude.{
  ℕ, zero, suc, ◌+◌, ◌*◌, ◌≤◌, ◌<◌, ◌≡◌, ◌≢◌, refl, sym, ap, ◌∙◌, ◌⊎◌, inl, inr, false, not,
  if◌then◌else◌, ltb, ◌==◌, ==_iff, ==_refl, lt→ltb, Bool-cases, arith,
}
use flipper.Prelude.Outcome.{done, pure, continue}
use flipper.Boot.{Memory, store, Linked, copy_loop, zero_loop, reset_exception}

store-here : (at value : ℕ) (mem : Memory) → store at value mem at ≡ value
store-here at value mem = rw (==_refl at) refl

-- an address outside of some words from a place on
abbrev pub Outside : (from n a : ℕ) → Type 0
Outside from n a = (a < from) ⊎ (from + 4 * n ≤ a)

store-apart : (at value a : ℕ) (mem : Memory) → a ≢ at → store at value mem a ≡ mem a
store-apart at value a mem apart = elim (Bool-cases (a == at)) [
  | inl same ↦ absurd (apart ((==_iff a at).0 same))
  | inr other ↦ rw (other) refl
]

at_end : (dest : ℕ) → ltb dest (dest + 4 * 0) ≡ false
at_end dest = ground arith

-- What a loop over `n` words from `dest` on leaves: `word i` at the i-th of them, and all else as it was.
pub record Filled (dest n : ℕ) (word : ℕ → ℕ) (mem mem' : Memory) : Type 0 where
  pub words : (i : ℕ) → i < n → mem' (dest + 4 * i) ≡ word i
  pub rest : (a : ℕ) → Outside dest n a → mem' a ≡ mem a

none-Filled : (dest : ℕ) (word : ℕ → ℕ) (mem : Memory) → Filled dest 0 word mem mem
none-Filled dest word mem = record { words = λ i h. absurd (omega (arith, h)); rest = λ a o. refl }

more-Filled :
    (dest n : ℕ) (word : ℕ → ℕ) (value : ℕ) (mem mem' : Memory)
    → word 0 ≡ value
    → Filled (dest + 4) n (λ i. word (suc i)) (store dest value mem) mem'
    → Filled dest (suc n) word mem mem'
more-Filled dest n word value mem mem' first f = record { words = words; rest = rest }
  where
    words : (i : ℕ) → i < suc n → mem' (dest + 4 * i) ≡ word i
    words zero h =
        let before : Outside (dest + 4) n (dest + 4 * 0) = inl (omega arith) in
        let here : dest + 4 * 0 ≡ dest = omega arith in
        f.rest (dest + 4 * 0) before
        ∙ ap (store dest value mem) here
        ∙ store-here dest value mem
        ∙ sym first
    words (suc i) h =
        let here : dest + 4 * suc i ≡ dest + 4 + 4 * i = omega arith in
        ap mem' here ∙ f.words i (omega arith)

    rest : (a : ℕ) → Outside dest (suc n) a → mem' a ≡ mem a
    rest a (inl low) =
        let apart : a ≢ dest = λ e. ground (arith, e, low) in
        f.rest a (inl (omega (arith, low))) ∙ store-apart dest value a mem apart
    rest a (inr high) =
        let apart : a ≢ dest = λ e. ground (arith, e, high) in
        f.rest a (inr (omega (arith, high))) ∙ store-apart dest value a mem apart

zero_loop-Filled :
    (n fuel dest : ℕ) (mem : Memory)
    → n ≤ fuel
    → (mem' : Memory) × (zero_loop fuel dest (dest + 4 * n) mem ≡ done tt mem')
      × Filled dest n (λ i. 0) mem mem'
unfolding zero_loop
zero_loop-Filled zero zero dest mem enough =
    (mem, rw (at_end dest) refl, none-Filled dest (λ i. 0) mem)
zero_loop-Filled zero (suc fuel) dest mem enough =
    (mem, rw (at_end dest) refl, none-Filled dest (λ i. 0) mem)
zero_loop-Filled (suc n) zero dest mem enough = absurd (omega arith)
zero_loop-Filled (suc n) (suc fuel) dest mem enough =
    let end : dest + 4 * suc n ≡ dest + 4 + 4 * n = omega arith in
    let (mem', run, f) = zero_loop-Filled n fuel (dest + 4) (store dest 0 mem) (omega arith) in
    (
      mem',
      rw (lt→ltb dest (dest + 4 * suc n) (omega arith))
          (ap (λ e. zero_loop fuel (dest + 4) e (store dest 0 mem)) end ∙ run),
      more-Filled dest n (λ i. 0) 0 mem mem' refl f,
    )

-- The words that are read are not those that have been written: the source is above, or ends before.
abbrev pub Readable : (src dest n : ℕ) → Type 0
Readable src dest n = (dest ≤ src) ⊎ (src + 4 * n ≤ dest)

later-Readable :
    (src dest n : ℕ)
    → Readable src dest (suc n)
    → Readable (src + 4) (dest + 4) n × ((i : ℕ) → i < n → src + 4 + 4 * i ≢ dest)
later-Readable src dest n (inl above) =
    (inl (omega (arith, above)), λ i h e. ground (arith, e, h, above))
later-Readable src dest n (inr before) =
    (inr (omega (arith, before)), λ i h e. ground (arith, e, h, before))

copy_loop-Filled :
    (n fuel src dest : ℕ) (mem : Memory)
    → n ≤ fuel
    → Readable src dest n
    → (mem' : Memory) × (copy_loop fuel src dest (dest + 4 * n) mem ≡ done tt mem')
      × Filled dest n (λ i. mem (src + 4 * i)) mem mem'
unfolding copy_loop
copy_loop-Filled zero zero src dest mem enough readable =
    (mem, rw (at_end dest) refl, none-Filled dest (λ i. mem (src + 4 * i)) mem)
copy_loop-Filled zero (suc fuel) src dest mem enough readable =
    (mem, rw (at_end dest) refl, none-Filled dest (λ i. mem (src + 4 * i)) mem)
copy_loop-Filled (suc n) zero src dest mem enough readable = absurd (omega arith)
copy_loop-Filled (suc n) (suc fuel) src dest mem enough readable =
    let end : dest + 4 * suc n ≡ dest + 4 + 4 * n = omega arith in
    let first : src + 4 * 0 ≡ src = omega arith in
    let mem1 = store dest (mem src) mem in
    let (readable', apart) = later-Readable src dest n readable in
    let (mem', run, f) =
      copy_loop-Filled n fuel (src + 4) (dest + 4) mem1 (omega arith) readable' in
    let unwritten : (i : ℕ) → i < n → mem1 (src + 4 + 4 * i) ≡ mem (src + 4 * suc i) =
      λ i h. store-apart dest (mem src) (src + 4 + 4 * i) mem (apart i h) ∙ ap mem (shifted i) in
    (
      mem',
      rw (lt→ltb dest (dest + 4 * suc n) (omega arith))
          (ap (λ e. copy_loop fuel (src + 4) (dest + 4) e mem1) end ∙ run),
      more-Filled dest n (λ i. mem (src + 4 * i)) (mem src) mem mem' (ap mem first)
          (record { words = λ i h. f.words i h ∙ unwritten i h; rest = f.rest }),
    )
  where
    shifted : (i : ℕ) → src + 4 + 4 * i ≡ src + 4 * suc i
    shifted i = omega arith

-- the first loop, with the test before it
relocated :
    (fuel n : ℕ) (l : Linked) (mem : Memory)
    → l.erelocate ≡ l.srelocate + 4 * n
    → Readable l.etext l.srelocate n
    → n ≤ fuel
    → (mem' : Memory) × ((if not (l.etext == l.srelocate)
            then copy_loop fuel l.etext l.srelocate l.erelocate
            else pure tt)
          mem
        ≡ done tt mem')
      × Filled l.srelocate n (λ i. mem (l.etext + 4 * i)) mem mem'
relocated fuel n l mem size readable enough = elim (Bool-cases (l.etext == l.srelocate)) [
  | inl same ↦
      let here : l.etext ≡ l.srelocate = (==_iff l.etext l.srelocate).0 same in
      (
        mem,
        rw (same) refl,
        record { words = λ i h. ap (λ t. mem (t + 4 * i)) (sym here); rest = λ a o. refl },
      )
  | inr other ↦
      let (mem', run, f) = copy_loop-Filled n fuel l.etext l.srelocate mem enough readable in
      (mem', rw (other) (ap (λ e. copy_loop fuel l.etext l.srelocate e mem) size ∙ run), f)
]

-- Let the sections that are relocated and zeroed be of `n` and `m` whole words and apart from each other, let the image of the first
-- be where it is read before it is written, or be that section itself, and let the fuel be at least `n` and `m`. Then
-- reset_exception comes to its call of main; there the relocated section has the words of the image at the start, the
-- other section has zeros, and every word outside of both is as it was.
pub reset_exception-Filled :
    (fuel n m : ℕ) (l : Linked) (mem : Memory)
    → l.erelocate ≡ l.srelocate + 4 * n
    → l.ezero ≡ l.szero + 4 * m
    → Readable l.etext l.srelocate n
    → (l.srelocate + 4 * n ≤ l.szero) ⊎ (l.szero + 4 * m ≤ l.srelocate)
    → n ≤ fuel
    → m ≤ fuel
    → (mem' : Memory) × (reset_exception fuel l mem ≡ done tt mem')
      × ((i : ℕ) → i < n → mem' (l.srelocate + 4 * i) ≡ mem (l.etext + 4 * i))
      × ((i : ℕ) → i < m → mem' (l.szero + 4 * i) ≡ 0)
      × ((a : ℕ) → Outside l.srelocate n a → Outside l.szero m a → mem' a ≡ mem a)
unfolding reset_exception
reset_exception-Filled fuel n m l mem data_size zero_size readable apart enough enough' =
    let (mem1, copied, f) = relocated fuel n l mem data_size readable enough in
    let (mem2, zeroed, g) = zero_loop-Filled m fuel l.szero mem1 enough' in
    (
      mem2,
      ap (λ o. continue o (λ _. zero_loop fuel l.szero l.ezero)) copied
          ∙ ap (λ e. zero_loop fuel l.szero e mem1) zero_size
          ∙ zeroed,
      λ i h. g.rest (l.srelocate + 4 * i) (kept i h) ∙ f.words i h,
      g.words,
      λ a o o'. g.rest a o' ∙ f.rest a o,
    )
  where
    kept : (i : ℕ) → i < n → Outside l.szero m (l.srelocate + 4 * i)
    kept i h = elim apart [
      | inl before ↦ inl (omega (arith, before, h))
      | inr behind ↦ inr (omega (arith, behind))
    ]
