-- ===== src/Boot/Heap.antt =====
-- os/arch/armv7/syscalls.c: the blocks that _sbrk gives.
use flipper.Prelude.{
  ℕ, suc, ◌+◌, ◌%◌, ◌^◌, ◌≤◌, ◌<◌, ◌≡◌, refl, ap, ◌∙◌, List, [], ◌∷◌, All, length, arith,
}
use flipper.Boot.{Break, heap_of, sbrk, sbrks}

abbrev pub sum : List ℕ → ℕ
sum [] = 0
sum (n ∷ ns) = n + sum ns

-- An address with a size lies between two addresses.
abbrev pub Within : (low high : ℕ) → ℕ × ℕ → Type 0
Within low high b = (low ≤ b.0) × (b.0 + b.1 ≤ high)

-- Each block ends before the later ones start.
abbrev pub IsAscending : List (ℕ × ℕ) → Type 0
IsAscending [] = Unit {0}
IsAscending (b ∷ bs) = All (λ c. b.0 + b.1 ≤ c.0) bs × IsAscending bs

heap_of-grown : (bss_end grown : ℕ) → 0 < grown → heap_of bss_end grown ≡ grown
heap_of-grown bss_end grown h = ground arith

heap_of-pos : (bss_end : ℕ) (h : Break) → 0 < bss_end → 0 < heap_of bss_end h
heap_of-pos bss_end h pos = ground arith

module _ (bss_end : ℕ) (linked : 0 < bss_end) where
  moved :
      (n : ℕ) (h : Break)
      → heap_of bss_end h + n < 2 ^ 32
      → ((sbrk bss_end n h).0 ≡ heap_of bss_end h)
        × (heap_of bss_end (sbrk bss_end n h).1 ≡ heap_of bss_end h + n)
  unfolding sbrk
  moved n h fits =
      let small : (heap_of bss_end h + n) % 2 ^ 32 ≡ heap_of bss_end h + n = omega (arith, fits) in
      (
        refl,
        ap (heap_of bss_end) small
            ∙ heap_of-grown bss_end (heap_of bss_end h + n)
                (omega (arith, heap_of-pos bss_end h linked)),
      )

  above :
      (low low' high high' mark : ℕ) (bs : List (ℕ × ℕ))
      → low' ≤ low
      → mark ≤ low
      → high ≤ high'
      → All (Within low high) bs
      → All (Within low' high') bs × All (λ c. mark ≤ c.0) bs
  above low low' high high' mark [] le marked le' all = (tt, tt)
  above low low' high high' mark (b ∷ bs) le marked le' ((l, h), all) =
      let (within, after) = above low low' high high' mark bs le marked le' all in
      (((omega (arith, l), omega (arith, h)), within), (omega (arith, l), after))

  -- Where _end is not 0 and the heap with some sizes stays below 2 ^ 32, calls of _sbrk with those sizes give blocks from where the
  -- heap ended on, each behind the one before, so that no two overlap, and none beyond the sum of the sizes.
  pub sbrks-IsAscending :
      (ns : List ℕ) (h : Break)
      → heap_of bss_end h + sum ns < 2 ^ 32
      → All (Within (heap_of bss_end h) (heap_of bss_end h + sum ns)) (sbrks bss_end ns h)
        × IsAscending (sbrks bss_end ns h)
        × (length (sbrks bss_end ns h) ≡ length ns)
  unfolding sbrks
  sbrks-IsAscending [] h fits = (tt, tt, refl)
  sbrks-IsAscending (n ∷ ns) h fits =
      let (at, next) = moved n h (omega (arith, fits)) in
      let h' = (sbrk bss_end n h).1 in
      let (within, ascending, count) = sbrks-IsAscending ns h' (omega (arith, next, fits)) in
      let start = heap_of bss_end h in
      let (all, after) =
        above (heap_of bss_end h') start (heap_of bss_end h' + sum ns) (start + sum (n ∷ ns))
          ((sbrk bss_end n h).0 + n) (sbrks bss_end ns h') (omega (arith, next))
          (omega (arith, at, next)) (omega (arith, next)) within in
      (((omega (arith, at), omega (arith, at)), all), (after, ascending), ap suc count)
