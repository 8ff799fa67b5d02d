-- ===== src/Ll/Remove.antt =====
-- lib/ll.c: the functions that free cells: lf_ll_free, lf_ll_remove and lf_ll_release.
use flipper.Prelude.{
  ℕ, zero, suc, ◌<◌, ◌≡◌, refl, sym, ap, ◌∙◌, ◌≢◌, true, false, List, [], ◌∷◌, ◌++◌, none, some,
  arith, length, ◌==◌, if◌then◌else◌, Bool-cases, inl, inr, append_assoc, append-nil,
}
use flipper.Prelude.Outcome.{done}
use flipper.Error.{lf_success}
use flipper.Ll.{Ptr, null, Store, write, lf_ll_free_node, release_loop, lf_ll_release}
use flipper.Ll.Chain.{
  Cell, node_of, first, has, IsChain, SameOutside, IsChain-write, load-done, not_null, calls_of,
  write_other, write_here,
}

-- the store after `lf_ll_free_node` of a cell
abbrev pub freed : Store → Cell → Store
freed s c = record s { cells = write s.cells c.at none; calls = s.calls ++ calls_of (c ∷ []) }

pub free_node-freed :
    (s : Store) (c : Cell) (q : Ptr)
    → c.at ≢ null
    → s.cells c.at ≡ some (node_of c q)
    → lf_ll_free_node c.at s ≡ done tt (freed s c)
unfolding lf_ll_free_node
free_node-freed s c q ne e =
    rw (not_null c.at ne, load-done s c.at _ ne e)
      (elim (Bool-cases (c.deconstructor == null)) [
        | inl plain ↦ rw (plain, append-nil)
        | inr called ↦ rw called
      ])

pub calls_of-cons :
    (c : Cell) (cs : List Cell) → calls_of (c ∷ []) ++ calls_of cs ≡ calls_of (c ∷ cs)
calls_of-cons c cs = ground arith

-- the outcome of freeing all of the cells
pub record Released (s t : Store) (cs : List Cell) : Type 0 where
  pub gone : (a : Ptr) → has a cs ≡ true → t.cells a ≡ none
  pub same : SameOutside cs s.cells t.cells
  pub calls : t.calls ≡ s.calls ++ calls_of cs
  pub err : t.err ≡ s.err

release-Released :
    (s : Store) (cs : List Cell) (fuel : ℕ)
    → IsChain s.cells null cs
    → length cs < fuel
    → (t : Store) × (release_loop fuel (first null cs) s ≡ done null t) × Released s t cs
unfolding release_loop
release-Released s cs zero ch enough = absurd (omega arith)
release-Released s [] (suc k) ch enough = (
  s,
  refl,
  record { gone = λ a i. cc; same = λ a o. refl; calls = sym (append-nil s.calls); err = refl },
)
release-Released s (c ∷ cs) (suc k) (ne, at, out, rest) enough =
    let s' = freed s c in
    let (t, run, r) =
      release-Released s' cs k (IsChain-write s.cells null cs c.at none rest out) (omega arith) in
    (
      t,
      rw (not_null c.at ne, load-done s c.at _ ne at, free_node-freed s c _ ne at) run,
      record {
        gone = λ a i. elim (Bool-cases (has a cs)) [
          | inl later ↦ r.gone a later
          | inr o ↦ r.same a o ∙ write_here s.cells c.at a none (ground arith)
        ];
        same = λ a o. r.same a (ground arith) ∙ write_other s.cells c.at a none (ground arith);
        calls =
            r.calls
            ∙ append_assoc s.calls (calls_of (c ∷ [])) (calls_of cs)
            ∙ ap (λ t. s.calls ++ t) (calls_of-cons c cs);
        err = r.err;
      },
    )

-- With more fuel than cells, `lf_ll_release` returns `lf_success` and leaves the list empty: every cell is freed, the deconstructors
-- are called on their items in the order of the list, and nothing else is written.
pub lf_ll_release-Released :
    (s : Store) (cs : List Cell) (fuel : ℕ)
    → IsChain s.cells null cs
    → length cs < fuel
    → (t : Store) × (lf_ll_release fuel (some (first null cs)) s ≡ done (lf_success, some null) t)
      × Released s t cs
unfolding lf_ll_release
lf_ll_release-Released s cs fuel ch enough =
    let (t, run, r) = release-Released s cs fuel ch enough in (t, rw run, r)

module _ (item : Ptr) where
  -- the cells that do not hold the item, and those that do
  abbrev pub kept : List Cell → List Cell
  kept [] = []
  kept (c ∷ cs) = if c.item == item then kept cs else c ∷ kept cs

  abbrev pub dropped : List Cell → List Cell
  dropped [] = []
  dropped (c ∷ cs) = if c.item == item then c ∷ dropped cs else dropped cs

  has-kept : (a : Ptr) (cs : List Cell) → has a cs ≡ false → has a (kept cs) ≡ false
  has-kept a [] o = refl
  has-kept a (c ∷ cs) o = ground (arith, has-kept a cs)

  -- the outcome of the loop over `cs` behind the cells `ps` that it has passed
  pub record Removed (s t : Store) (ps cs : List Cell) : Type 0 where
    pub chain : IsChain t.cells null (ps ++ kept cs)
    pub gone : (a : Ptr) → has a (dropped cs) ≡ true → t.cells a ≡ none
    pub same : SameOutside (ps ++ cs) s.cells t.cells
    pub calls : t.calls ≡ s.calls ++ calls_of (dropped cs)
    pub err : t.err ≡ s.err
