-- ===== src/Ll/Append.antt =====
-- lib/ll.c: the functions that link lists: lf_ll_append and lf_ll_concat.
use flipper.Prelude.{
  ℕ, zero, suc, ◌≤◌, ◌<◌, ◌≡◌, refl, ◌∙◌, ◌≢◌, true, false, List, [], ◌∷◌, ◌++◌, none, some, arith,
  length, ◌==◌, ==_iff, Bool-cases, inl, inr,
}
use flipper.Prelude.Outcome.{done}
use flipper.Error.{lf_success, lf_error}
use flipper.Ll.{
  Ptr, null, Cells, Store, write, set_next, last_node, link, lf_ll_append, lf_ll_concat,
}
use flipper.Ll.Chain.{
  Cell, node_of, first, has, IsChain, SameOutside, Disjoint, IsChain-write, IsChain-append,
  not_has_of_none, ne_of_has, write_other, write_self, load-done, not_null,
}

-- the last of the cells `c ∷ cs`
abbrev pub last : Cell → List Cell → Cell
last c [] = c
last c (d ∷ cs) = last d cs

pub has-last : (c : Cell) (cs : List Cell) → has (last c cs).at (c ∷ cs) ≡ true
has-last c [] = ground (arith, ==_iff c.at c.at)
has-last c (d ∷ cs) = ground (arith, has-last d cs)

pub last-cell :
    (h : Cells) (stop : Ptr) (c : Cell) (cs : List Cell)
    → IsChain h stop (c ∷ cs)
    → ((last c cs).at ≢ null) × (h (last c cs).at ≡ some (node_of (last c cs) stop))
last-cell h stop c [] (ne, at, out, rest) = (ne, at)
last-cell h stop c (d ∷ cs) (ne, at, out, rest) = last-cell h stop d cs rest

last_node-last :
    (s : Store) (c : Cell) (cs : List Cell) (fuel : ℕ)
    → IsChain s.cells null (c ∷ cs)
    → length cs < fuel
    → last_node fuel c.at s ≡ done (last c cs).at s
unfolding last_node
last_node-last s c cs zero ch enough = absurd (omega arith)
last_node-last s c [] (suc k) (ne, at, out, rest) enough = rw (load-done s c.at _ ne at)
last_node-last s c (d ∷ cs) (suc k) (ne, at, out, rest) enough =
    rw (load-done s c.at _ ne at, not_null d.at rest.0) (last_node-last s d cs k rest (omega arith))

-- Writing the last cell's `next` moves the end of the chain.
pub relinked :
    (h : Cells) (stop new : Ptr) (c : Cell) (cs : List Cell)
    → IsChain h stop (c ∷ cs)
    → IsChain (write h (last c cs).at (some (node_of (last c cs) new))) new (c ∷ cs)
relinked h stop new c [] (ne, at, out, rest) =
    (ne, write_self h c.at (some (node_of c new)), out, tt)
relinked h stop new c (d ∷ cs) (ne, at, out, rest) =
    let tail = last d cs in
    (
      ne,
      write_other h tail.at c.at _ (ne_of_has tail.at c.at (d ∷ cs) (has-last d cs) out) ∙ at,
      out,
      relinked h stop new d cs rest,
    )

-- the outcome of linking the chain `ds` behind the chain `cs`
pub record Linked (s t : Store) (cs ds : List Cell) : Type 0 where
  pub chain : IsChain t.cells null (cs ++ ds)
  pub same : SameOutside cs s.cells t.cells
  pub calls : t.calls ≡ s.calls
  pub err : t.err ≡ s.err

link-Linked :
    (s : Store) (cs ds : List Cell) (fuel : ℕ)
    → IsChain s.cells null cs
    → IsChain s.cells null ds
    → Disjoint cs ds
    → length cs ≤ fuel
    → (t : Store) × (link fuel (first null cs) (first null ds) s ≡ done (first null (cs ++ ds)) t)
      × Linked s t cs ds
unfolding link
link-Linked s [] ds fuel ch dch apart enough =
    (s, refl, record { chain = dch; same = λ a o. refl; calls = refl; err = refl })
link-Linked s (c ∷ cs) ds fuel ch dch apart enough =
    let tail = last c cs in
    let new = first null ds in
    let (ne, at) = last-cell s.cells null c cs ch in
    let h = write s.cells tail.at (some (node_of tail new)) in
    let at_tail : has tail.at ds ≡ false = apart tail.at (has-last c cs) in
    (
      record s { cells = h },
      rw (not_null c.at ch.0, last_node-last s c cs fuel ch (omega arith))
          (unfold set_next in rw (load-done s tail.at _ ne at)),
      record {
        chain =
            IsChain-append h null (c ∷ cs) ds (relinked s.cells null new c cs ch)
              (IsChain-write s.cells null ds tail.at _ dch at_tail) apart;
        same =
            λ a o. write_other s.cells tail.at a _ (ne_of_has tail.at a (c ∷ cs) (has-last c cs) o);
        calls = refl;
        err = refl;
      },
    )

-- On two lists with no cell in common, with fuel for each cell, `lf_ll_concat` returns `lf_success` and leaves the cells of the
-- first followed by those of the second; it writes only to cells of the first, and frees nothing.
lf_ll_concat-append :
    (s : Store) (cs ds : List Cell) (fuel : ℕ)
    → IsChain s.cells null cs
    → IsChain s.cells null ds
    → Disjoint cs ds
    → length cs ≤ fuel
    → (t : Store) × (lf_ll_concat fuel (some (first null cs)) (first null ds) s
        ≡ done (lf_success, some (first null (cs ++ ds))) t)
      × Linked s t cs ds
unfolding lf_ll_concat
lf_ll_concat-append s cs ds fuel ch dch apart enough =
    let (t, run, linked) = link-Linked s cs ds fuel ch dch apart enough in (t, rw run, linked)

abbrev pub cell : (at item deconstructor : Ptr) → Cell
cell a x d = record { at = a; item = x; deconstructor = d }

-- the outcome of appending one new cell
pub record Appended (s t : Store) (cs : List Cell) (c : Cell) : Type 0 where
  pub chain : IsChain t.cells null (cs ++ c ∷ [])
  pub same : SameOutside (c ∷ cs) s.cells t.cells
  pub calls : t.calls ≡ s.calls
  pub err : t.err ≡ s.err

-- Given an unused address that is not NULL and fuel for each cell, `lf_ll_append` returns `lf_success` and puts the new cell behind all others; it
-- writes only to the new cell and to cells of the list, calls no deconstructor and sets no error.
lf_ll_append-Appended :
    (s : Store) (cs : List Cell) (fuel fresh item dtor : ℕ)
    → IsChain s.cells null cs
    → fresh ≢ null
    → s.cells fresh ≡ none
    → length cs ≤ fuel
    → (t : Store) × (lf_ll_append fuel fresh (some (first null cs)) item dtor s
        ≡ done (lf_success, some (first null (cs ++ cell fresh item dtor ∷ []))) t)
      × Appended s t cs (cell fresh item dtor)
unfolding lf_ll_append
lf_ll_append-Appended s cs fuel fresh item dtor ch ne unused enough =
    let c = cell fresh item dtor in
    let h = write s.cells fresh (some (node_of c null)) in
    let s' : Store = record s { cells = h } in
    let out : has fresh cs ≡ false = not_has_of_none s.cells null cs fresh ch unused in
    let (t, run, linked) =
      link-Linked s' cs (c ∷ []) fuel (IsChain-write s.cells null cs fresh _ ch out)
        (ne, write_self s.cells fresh (some (node_of c null)), refl, tt)
        (λ a i. rw (ne_of_fresh a i out)) enough in
    (
      t,
      rw (not_null fresh ne, run),
      record {
        chain = linked.chain;
        same = λ a o. linked.same a (ground arith) ∙ write_other s.cells fresh a _ (ground arith);
        calls = linked.calls;
        err = linked.err;
      },
    )
  where
    ne_of_fresh : (a : Ptr) → has a cs ≡ true → has fresh cs ≡ false → (a == fresh) ≡ false
    ne_of_fresh a i o = elim (Bool-cases (a == fresh)) [
      | inl same ↦ cc ((==_iff a fresh).0 same)
      | inr other ↦ other
    ]

-- Where `malloc` fails, `lf_ll_append` returns `lf_error`, and the list and the store are unchanged.
pub lf_ll_append-no_memory :
    (s : Store) (head : Ptr) (fuel item dtor : ℕ)
    → lf_ll_append fuel null (some head) item dtor s ≡ done (lf_error, some head) s
unfolding lf_ll_append
lf_ll_append-no_memory s head fuel item dtor = refl
