-- ===== src/Ll/Walk.antt =====
-- lib/ll.c: the functions that only read the list: lf_ll_count, lf_ll_item, lf_ll_apply_func.
use flipper.Prelude.{
  ℕ, zero, suc, ◌+◌, ◌%◌, ◌^◌, ◌≤◌, ◌<◌, ◌≡◌, refl, ap, ◌∙◌, List, [], ◌∷◌, Option, none, some,
  arith, length, get_elem?, ◌==◌, if◌then◌else◌, Bool-cases, inl, inr,
}
use flipper.Prelude.Outcome.{Outcome, done}
use flipper.Error.{lf_success, lf_error, e_null}
use flipper.Ll.{Ptr, null, Store, lf_ll_count, lf_ll_item, apply_loop, lf_ll_apply_func}
use flipper.Ll.Chain.{Cell, first, IsChain, items, load-done, not_null}

count-chain :
    (s : Store) (cs : List Cell) (fuel n : ℕ)
    → IsChain s.cells null cs
    → length cs < fuel
    → n < 2 ^ 64
    → lf_ll_count fuel (first null cs) n s ≡ done ((n + length cs) % 2 ^ 64) s
unfolding lf_ll_count
count-chain s cs zero n ch fuel h = absurd (omega arith)
count-chain s [] (suc k) n ch fuel h = ap (λ t. done t s) (omega arith)
count-chain s (c ∷ cs) (suc k) n (ne, at, out, rest) fuel h =
    rw (not_null c.at ne, load-done s c.at _ ne at)
      (count-chain s cs k ((n + 1) % 2 ^ 64) rest (omega arith) (omega arith)
        ∙ ap (λ t. done t s) (omega arith))

-- With more fuel than cells, `lf_ll_count` returns the number of cells, modulo 2 ^ 64, and writes nothing.
lf_ll_count-length :
    (s : Store) (cs : List Cell) (fuel : ℕ)
    → IsChain s.cells null cs
    → length cs < fuel
    → lf_ll_count fuel (first null cs) 0 s ≡ done (length cs % 2 ^ 64) s
lf_ll_count-length s cs fuel ch enough =
    count-chain s cs fuel 0 ch enough (omega arith) ∙ ap (λ t. done t s) (omega arith)

-- what `lf_ll_item` leaves: the item, or NULL and the error E_NULL
abbrev pub item_of : Option Ptr → Ptr
item_of none = null
item_of (some x) = x

abbrev pub after_item : Option Ptr → Store → Store
after_item none s = record s { err = e_null }
after_item (some x) s = s

-- `lf_ll_item` returns the item at the index; past the end it returns NULL, sets `_lf_err` to E_NULL and
-- changes nothing else.
lf_ll_item-get_elem? :
    (s : Store) (cs : List Cell) (i : ℕ)
    → IsChain s.cells null cs
    → lf_ll_item (first null cs) i s
      ≡ done (item_of (get_elem? (items cs) i)) (after_item (get_elem? (items cs) i) s)
unfolding lf_ll_item
lf_ll_item-get_elem? s [] zero ch = refl
lf_ll_item-get_elem? s [] (suc i) ch = refl
lf_ll_item-get_elem? s (c ∷ cs) zero (ne, at, out, rest) =
    rw (not_null c.at ne, load-done s c.at _ ne at)
lf_ll_item-get_elem? s (c ∷ cs) (suc i) (ne, at, out, rest) =
    rw (not_null c.at ne, load-done s c.at _ ne at) (lf_ll_item-get_elem? s cs i rest)

module _ {C : Type 0} (func : Ptr → C → ℕ × C) where
  -- The calls of `func` in order, up to the first that does not return `lf_success`.
  unfoldable pub applied : List Ptr → C → ℕ × C
  applied [] ctx = (lf_success, ctx)
  applied (x ∷ xs) ctx =
      if (func x ctx).0 == lf_success then applied xs (func x ctx).1 else func x ctx

  apply_loop-chain :
      (s : Store) (c : Cell) (cs : List Cell) (fuel : ℕ) (ctx : C)
      → IsChain s.cells null (c ∷ cs)
      → length cs < fuel
      → apply_loop func fuel c.at ctx s ≡ done (applied (c.item ∷ items cs) ctx) s
  unfolding apply_loop applied
  apply_loop-chain s c cs zero ctx ch fuel = absurd (omega arith)
  apply_loop-chain s c [] (suc k) ctx (ne, at, out, rest) fuel =
      rw (load-done s c.at _ ne at) (ground arith)
  apply_loop-chain s c (d ∷ cs) (suc k) ctx (ne, at, out, rest) fuel =
      rw (load-done s c.at _ ne at) (elim (Bool-cases ((func c.item ctx).0 == lf_success)) [
        | inl more ↦
            rw (more, not_null d.at rest.0)
              (apply_loop-chain s d cs k (func c.item ctx).1 rest (omega arith))
        | inr stop ↦ rw stop
      ])

  -- what `lf_ll_apply_func` leaves on a list of these items
  abbrev pub after_apply : List Ptr → C → Store → Outcome Store (ℕ × C)
  after_apply [] ctx s = done (lf_error, ctx) (record s { err = e_null })
  after_apply (x ∷ xs) ctx s = done (applied (x ∷ xs) ctx) s

  -- With fuel for each cell: on a list with a cell, `lf_ll_apply_func` applies the function to the items in order up to the first
  -- that fails, and returns the last status; on an empty list it returns `lf_error` and sets E_NULL.
  lf_ll_apply_func-applied :
      (s : Store) (cs : List Cell) (fuel : ℕ) (ctx : C)
      → IsChain s.cells null cs
      → length cs ≤ fuel
      → lf_ll_apply_func fuel (first null cs) (some func) ctx s ≡ after_apply (items cs) ctx s
  unfolding lf_ll_apply_func
  lf_ll_apply_func-applied s [] fuel ctx ch enough = refl
  lf_ll_apply_func-applied s (c ∷ cs) fuel ctx ch enough =
      rw (not_null c.at ch.0) (apply_loop-chain s c cs fuel ctx ch (omega arith))
