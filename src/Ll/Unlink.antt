-- ===== src/Ll/Unlink.antt =====
-- lib/ll.c: the loop of lf_ll_remove, one turn at a time and as a whole.
use flipper.Prelude.{
  ℕ, zero, suc, ◌<◌, ◌≡◌, refl, sym, ap, ◌∙◌, ◌≢◌, true, false, List, [], ◌∷◌, ◌++◌, none, some,
  arith, length, ◌==◌, ==_iff, ==_refl, Bool-cases, inl, inr, append_assoc, append-nil,
}
use flipper.Prelude.Outcome.{done}
use flipper.Ll.{Ptr, null, Store, write, set_next, remove_loop, lf_ll_remove}
use flipper.Ll.Chain.{
  Cell, node_of, first, has, IsChain, SameOutside, Disjoint, IsChain-write, IsChain-append,
  has-append, load-done, not_null, calls_of, ne_of_has, write_other, write_self,
}
use flipper.Ll.Append.{last, has-last, last-cell, relinked}
use flipper.Ll.Remove.{freed, free_node-freed, calls_of-cons, kept, dropped, Removed}

-- the pointer `prev` behind the cells that the loop has passed
abbrev last_at : List Cell → Ptr
last_at [] = null
last_at (c ∷ cs) = (last c cs).at

last_at-append : (ps : List Cell) (c : Cell) → last_at (ps ++ c ∷ []) ≡ c.at
last_at-append [] c = refl
last_at-append (p ∷ []) c = refl
last_at-append (p ∷ q ∷ ps) c = last_at-append (q ∷ ps) c

first-append : (stop : Ptr) (ps : List Cell) (c : Cell) → first stop (ps ++ c ∷ []) ≡ first c.at ps
first-append stop [] c = refl
first-append stop (p ∷ ps) c = refl

-- the store after one cell `c` between `ps` and `cs` is taken out and freed
record Unlinked (s t : Store) (ps : List Cell) (c : Cell) (cs : List Cell) : Type 0 where
  passed : IsChain t.cells (first null cs) ps
  left : IsChain t.cells null cs
  gone : t.cells c.at ≡ none
  same : SameOutside (ps ++ c ∷ []) s.cells t.cells
  calls : t.calls ≡ s.calls ++ calls_of (c ∷ [])
  err : t.err ≡ s.err

has-tail : (a : Ptr) (c : Cell) (cs : List Cell) → has a (c ∷ cs) ≡ false → has a cs ≡ false
has-tail a c cs o = ground arith

not_passed : (c : Cell) (ps cs : List Cell) → Disjoint ps (c ∷ cs) → has c.at ps ≡ false
not_passed c ps cs apart = elim (Bool-cases (has c.at ps)) [
  | inl passed ↦ ground (arith, apart c.at passed, ==_refl c.at)
  | inr out ↦ out
]

only-head : (a : Ptr) (c : Cell) (cs : List Cell) → has a (c ∷ cs) ≡ false → has a (c ∷ []) ≡ false
only-head a c cs o = ground arith

passed-Disjoint :
    (c : Cell) (ps cs : List Cell)
    → Disjoint ps (c ∷ cs)
    → has c.at cs ≡ false
    → Disjoint (ps ++ c ∷ []) cs
passed-Disjoint c ps cs apart out a i = elim (Bool-cases (has a ps)) [
  | inl passed ↦ has-tail a c cs (apart a passed)
  | inr o ↦
      let here : a ≡ c.at = ground (arith, has-append a ps (c ∷ []), ==_iff a c.at) in rw here out
]

has-other :
    (a : Ptr) (c : Cell) (ps : List Cell)
    → has a (ps ++ c ∷ []) ≡ false
    → (has a ps ≡ false) × ((a == c.at) ≡ false)
has-other a c ps o = ground (arith, has-append a ps (c ∷ []))

module _ (item : Ptr) where
  -- the turn of the loop that finds the item, with `prev` NULL and with a node before
  hit-Unlinked :
      (s : Store) (ps : List Cell) (c : Cell) (cs : List Cell) (k : ℕ)
      → IsChain s.cells c.at ps
      → IsChain s.cells null (c ∷ cs)
      → Disjoint ps (c ∷ cs)
      → (c.item == item) ≡ true
      → (t : Store) × (remove_loop item (suc k) (first c.at ps) (last_at ps) c.at s
          ≡ remove_loop item k (first (first null cs) ps) (last_at ps) (first null cs) t)
        × Unlinked s t ps c cs
  unfolding remove_loop
  hit-Unlinked s [] c cs k pch (ne, at, out, rest) apart hit = (
    freed s c,
    rw (not_null c.at ne, load-done s c.at _ ne at, hit, free_node-freed s c _ ne at),
    record {
      passed = tt;
      left = IsChain-write s.cells null cs c.at none rest out;
      gone = write_self s.cells c.at none;
      same = λ a o. write_other s.cells c.at a none (ground arith);
      calls = refl;
      err = refl;
    },
  )
  hit-Unlinked s (p ∷ ps) c cs k pch (ne, at, out, rest) apart hit =
      let tail = last p ps in
      let q = first null cs in
      let (tne, tat) = last-cell s.cells c.at p ps pch in
      let outside : has tail.at (c ∷ cs) ≡ false = apart tail.at (has-last p ps) in
      let h = write s.cells tail.at (some (node_of tail q)) in
      let s1 : Store = record s { cells = h } in
      let cne : (c.at == tail.at) ≡ false = ground arith in
      let tne' : (tail.at == c.at) ≡ false = ground arith in
      let c1 : h c.at ≡ some (node_of c q) = write_other s.cells tail.at c.at _ cne ∙ at in
      let t1 : write h c.at none tail.at ≡ some (node_of tail q) =
        write_other h c.at tail.at none tne' ∙ write_self s.cells tail.at (some (node_of tail q)) in
      (
        freed s1 c,
        rw (not_null c.at ne, load-done s c.at _ ne at, hit, not_null tail.at tne)
            (unfold set_next in
              rw (
                load-done s tail.at _ tne tat,
                free_node-freed s1 c q ne c1,
                load-done (freed s1 c) tail.at _ tne t1,
              )),
        record {
          passed =
              IsChain-write h q (p ∷ ps) c.at none (relinked s.cells c.at q p ps pch)
                (not_passed c (p ∷ ps) cs apart);
          left =
              IsChain-write h null cs c.at none
                (IsChain-write s.cells null cs tail.at _ rest (has-tail tail.at c cs outside)) out;
          gone = write_self h c.at none;
          same = λ a o.
              write_other h c.at a none (has-other a c (p ∷ ps) o).1
              ∙ write_other s.cells tail.at a _
                  (ne_of_has tail.at a (p ∷ ps) (has-last p ps) (has-other a c (p ∷ ps) o).0);
          calls = refl;
          err = refl;
        },
      )

  -- A turn that finds the item, followed by the rest of the loop.
  Removed-hit :
      (s s' t : Store) (ps : List Cell) (c : Cell) (cs : List Cell)
      → (c.item == item) ≡ true
      → has c.at cs ≡ false
      → has c.at ps ≡ false
      → Unlinked s s' ps c cs
      → Removed item s' t ps cs
      → Removed item s t ps (c ∷ cs)
  Removed-hit s s' t ps c cs hit out new u r = record {
    chain = rw hit r.chain;
    gone = λ a i. elim (Bool-cases (has a (dropped item cs))) [
      | inl later ↦ r.gone a later
      | inr o ↦
          let here : a ≡ c.at = ground (arith, ==_iff a c.at) in
          rw here (r.same c.at (has-append c.at ps cs ∙ ground arith) ∙ u.gone)
    ];
    same = λ a o.
        r.same a (has-append a ps cs ∙ ground (arith, has-append a ps (c ∷ cs)))
        ∙ u.same a (has-append a ps (c ∷ []) ∙ ground (arith, has-append a ps (c ∷ cs)));
    calls = rw hit (
        r.calls
        ∙ ap (λ t. t ++ calls_of (dropped item cs)) u.calls
        ∙ append_assoc s.calls (calls_of (c ∷ [])) (calls_of (dropped item cs))
        ∙ ap (λ t. s.calls ++ t) (calls_of-cons c (dropped item cs)));
    err = r.err ∙ u.err;
  }

  -- A turn that passes a cell, followed by the rest of the loop.
  Removed-miss :
      (s t : Store) (ps : List Cell) (c : Cell) (cs : List Cell)
      → (c.item == item) ≡ false
      → Removed item s t (ps ++ c ∷ []) cs
      → Removed item s t ps (c ∷ cs)
  Removed-miss s t ps c cs miss r = record {
    chain = rw miss (rw append_assoc at r.chain);
    gone = rw miss r.gone;
    same = rw append_assoc at r.same;
    calls = rw miss r.calls;
    err = r.err;
  }

  miss_step :
      (s : Store) (ps : List Cell) (c : Cell) (cs : List Cell) (k : ℕ)
      → c.at ≢ null
      → s.cells c.at ≡ some (node_of c (first null cs))
      → (c.item == item) ≡ false
      → remove_loop item (suc k) (first c.at ps) (last_at ps) c.at s
        ≡ remove_loop item k
            (first (first null cs) (ps ++ c ∷ []))
            (last_at (ps ++ c ∷ []))
            (first null cs)
            s
  unfolding remove_loop
  miss_step s ps c cs k ne at miss =
      rw (not_null c.at ne, load-done s c.at _ ne at, miss, first-append, last_at-append)

  end_step :
      (s : Store) (ps : List Cell) (k : ℕ)
      → IsChain s.cells null ps
      → (t : Store) × (remove_loop item (suc k) (first null ps) (last_at ps) null s
          ≡ done (first null (ps ++ [])) t)
        × Removed item s t ps []
  unfolding remove_loop
  end_step s ps k pch = (
    s,
    rw append-nil,
    record {
      chain = rw append-nil pch;
      gone = λ a i. cc;
      same = λ a o. refl;
      calls = sym (append-nil s.calls);
      err = refl;
    },
  )

  remove_loop-Removed :
      (s : Store) (ps cs : List Cell) (fuel : ℕ)
      → IsChain s.cells (first null cs) ps
      → IsChain s.cells null cs
      → Disjoint ps cs
      → length cs < fuel
      → (t : Store) × (remove_loop item fuel
            (first (first null cs) ps)
            (last_at ps)
            (first null cs)
            s
          ≡ done (first null (ps ++ kept item cs)) t)
        × Removed item s t ps cs
  remove_loop-Removed s ps cs zero pch ch apart enough = absurd (omega arith)
  remove_loop-Removed s ps [] (suc k) pch ch apart enough = end_step s ps k pch
  remove_loop-Removed s ps (c ∷ cs) (suc k) pch (ne, at, out, rest) apart enough =
      elim (Bool-cases (c.item == item)) [
        | inl hit ↦
            let (s', step, u) = hit-Unlinked s ps c cs k pch (ne, at, out, rest) apart hit in
            let (t, run, r) =
              remove_loop-Removed s' ps cs k u.passed u.left (λ a i. has-tail a c cs (apart a i))
                (omega arith) in
            (
              t,
              rw hit (step ∙ run),
              Removed-hit s s' t ps c cs hit out (not_passed c ps cs apart) u r,
            )
        | inr miss ↦
            let (t, run, r) =
              remove_loop-Removed s (ps ++ c ∷ []) cs k
                (IsChain-append s.cells (first null cs) ps (c ∷ []) pch (ne, at, refl, tt)
                  (λ a i. only-head a c cs (apart a i)))
                rest (passed-Disjoint c ps cs apart out) (omega arith) in
            (
              t,
              rw miss (rw append_assoc at (miss_step s ps c cs k ne at miss ∙ run)),
              Removed-miss s t ps c cs miss r,
            )
      ]

  -- With more fuel than cells, `lf_ll_remove` takes out every cell that holds the item, and no other: it frees those cells and calls
  -- their deconstructors in the order of the list, keeps the order of the rest, and writes to no node
  -- outside of the list.
  pub lf_ll_remove-Removed :
      (s : Store) (cs : List Cell) (fuel : ℕ)
      → IsChain s.cells null cs
      → length cs < fuel
      → (t : Store) × (lf_ll_remove fuel (some (first null cs)) item s
          ≡ done (some (first null (kept item cs))) t)
        × Removed item s t [] cs
  unfolding lf_ll_remove
  lf_ll_remove-Removed s cs fuel ch enough =
      let (t, run, r) = remove_loop-Removed s [] cs fuel tt ch (λ a i. cc) enough in (t, rw run, r)
