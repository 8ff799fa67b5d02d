-- ===== src/Ll/Runs.antt =====
-- Tests of lib/ll.c on concrete inputs: a store with the lists 10, 20, 30 and 40.
use flipper.Prelude.{ℕ, ◌+◌, ◌≡◌, refl, List, [], ◌∷◌, none, some, arith, ◌==◌, if◌then◌else◌}
use flipper.Prelude.Outcome.{done}
use flipper.Error.{lf_success, lf_error}
use flipper.Ll.{Ptr, null, Cells, Store, lf_ll_append, lf_ll_remove, lf_ll_release, lf_ll_create}
use flipper.Ll.Chain.{Cell, node_of, first, IsChain, Disjoint}
use flipper.Ll.Append.{cell, lf_ll_append-no_memory}
use flipper.Ll.Remove.{Released, lf_ll_release-Released, Removed}
use flipper.Ll.Unlink.{lf_ll_remove-Removed}

-- the items are 7, 8 and 7; the second has no deconstructor
abbrev cells : List Cell
cells = cell 10 7 99 ∷ cell 20 8 0 ∷ cell 30 7 99 ∷ []

abbrev other : List Cell
other = cell 40 5 99 ∷ []

abbrev heap : Cells
heap a =
    if a == 10
    then some (node_of (cell 10 7 99) 20)
    else (if a == 20
        then some (node_of (cell 20 8 0) 30)
        else (if a == 30
            then some (node_of (cell 30 7 99) 0)
            else (if a == 40 then some (node_of (cell 40 5 99) 0) else none)))

abbrev store : Store
store = record { cells = heap; calls = []; err = 0 }

chain : IsChain heap null cells
chain = (
  λ e. omega arith,
  refl,
  refl,
  (λ e. omega arith, refl, refl, (λ e. omega arith, refl, refl, tt)),
)

other_chain : IsChain heap null other
other_chain = (λ e. omega arith, refl, refl, tt)

empty_chain : IsChain heap null []
empty_chain = tt

apart : Disjoint cells other
apart a h = ground arith

-- a function that counts its calls, and fails on the item 8
abbrev stop_at_8 : Ptr → ℕ → ℕ × ℕ
stop_at_8 x n = (if x == 8 then 5 else 0, n + 1)

lf_ll_append-no_memory_example :
    lf_ll_append 3 null (some 10) 6 0 store ≡ done (lf_error, some 10) store
lf_ll_append-no_memory_example = lf_ll_append-no_memory store 10 3 6 0

lf_ll_release-Released_example :
    (t : Store) × (lf_ll_release 4 (some 10) store ≡ done (lf_success, some 0) t)
    × Released store t cells
lf_ll_release-Released_example = lf_ll_release-Released store cells 4 chain (omega arith)

lf_ll_remove-Removed_example :
    (t : Store) × (lf_ll_remove 4 (some 10) 7 store ≡ done (some 20) t) × Removed 7 store t [] cells
lf_ll_remove-Removed_example = lf_ll_remove-Removed 7 store cells 4 chain (omega arith)

-- lf_ll_create gives an empty list
created : (lf_ll_create ≡ first null []) × IsChain heap null []
unfolding lf_ll_create
created = (refl, empty_chain)
