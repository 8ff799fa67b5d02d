-- ===== src/Boot/Runs.antt =====
-- Tests of platforms/atsam4s/src/vectors.c and os/arch/armv7/syscalls.c on concrete inputs.
use flipper.Prelude.{
  ℕ, ◌+◌, ◌*◌, ◌<◌, ◌≡◌, refl, [], ◌∷◌, some, inl, inr, All, length, get_elem?, arith,
}
use flipper.Prelude.Outcome.{done, spent}
use flipper.Boot.{
  Memory, Linked, copy_loop, reset_exception, sbrk, sbrks, vector_table, svc, pendsv, systick,
  uart0,
}
use flipper.Boot.Reset.{Outside, reset_exception-Filled}
use flipper.Boot.Heap.{Within, IsAscending, sbrks-IsAscending}

-- two words that are relocated, and one that is zeroed
abbrev linked : Linked
linked = record { etext = 100; srelocate = 200; erelocate = 208; szero = 208; ezero = 212 }

-- each word is its address
abbrev memory : Memory
memory a = a

starved : reset_exception 1 linked memory ≡ spent
unfolding reset_exception copy_loop
starved = refl

reset_exception-Filled_example :
    (mem' : Memory) × (reset_exception 2 linked memory ≡ done tt mem')
    × ((i : ℕ) → i < 2 → mem' (200 + 4 * i) ≡ 100 + 4 * i)
    × ((i : ℕ) → i < 1 → mem' (208 + 4 * i) ≡ 0)
    × ((a : ℕ) → Outside 200 2 a → Outside 208 1 a → mem' a ≡ a)
reset_exception-Filled_example =
    reset_exception-Filled 2 2 1 linked memory refl refl (inr (omega arith)) (inl (omega arith))
      (omega arith) (omega arith)

-- a block of four bytes, one of eight, and the first of them given back
grown :
    sbrks 1000 (4 ∷ 8 ∷ 4294967292 ∷ 0 ∷ []) 0
    ≡ (1000, 4) ∷ (1004, 8) ∷ (1012, 4294967292) ∷ (1008, 0) ∷ []
unfolding sbrks sbrk
grown = refl

sbrks-IsAscending_example :
    All (Within 1000 1012) (sbrks 1000 (4 ∷ 8 ∷ []) 0)
    × IsAscending (sbrks 1000 (4 ∷ 8 ∷ []) 0)
    × (length (sbrks 1000 (4 ∷ 8 ∷ []) 0) ≡ 2)
sbrks-IsAscending_example = sbrks-IsAscending 1000 (omega arith) (4 ∷ 8 ∷ []) 0 (omega arith)

-- the exceptions that the scheduler uses, and the interrupt with the number 8
entries :
    (get_elem? vector_table 11 ≡ some svc)
    × (get_elem? vector_table 14 ≡ some pendsv)
    × (get_elem? vector_table 15 ≡ some systick)
    × (get_elem? vector_table 24 ≡ some uart0)
entries = (refl, refl, refl, refl)
