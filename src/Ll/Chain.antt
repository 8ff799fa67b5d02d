-- ===== src/Ll/Chain.antt =====
-- The abstract view of a list of lib/ll.c: its cells in order, each with its address, its item and
-- its deconstructor. `IsChain h stop cs` says that the store holds exactly these nodes, linked in this
-- order up to the pointer `stop`, at distinct addresses that are not NULL.
use flipper.Prelude.{
  ◌≡◌, refl, ap, ◌∙◌, ◌≢◌, Bool, true, false, ◌||◌, List, [], ◌∷◌, ◌++◌, Option, none, some, arith,
  ◌==◌, ==_iff, ==_refl, Bool-cases, inl, inr, if◌then◌else◌,
}
use flipper.Prelude.Outcome.{done}
use flipper.Ll.{Ptr, null, Node, Cells, Store, write, load}

pub record Cell : Type 0 where
  pub at : Ptr
  pub item : Ptr
  pub deconstructor : Ptr

abbrev pub node_of : Cell → Ptr → Node
node_of c q = record { item = c.item; deconstructor = c.deconstructor; next = q }

-- the pointer to the list
abbrev pub first : Ptr → List Cell → Ptr
first stop [] = stop
first stop (c ∷ cs) = c.at

-- whether an address is one of the cells'
abbrev pub has : Ptr → List Cell → Bool
has a [] = false
has a (c ∷ cs) = (a == c.at) || has a cs

abbrev pub IsChain : Cells → Ptr → List Cell → Type 0
IsChain h stop [] = Unit {0}
IsChain h stop (c ∷ cs) =
    (c.at ≢ null)
    × (h c.at ≡ some (node_of c (first stop cs)))
    × (has c.at cs ≡ false)
    × IsChain h stop cs

abbrev pub items : List Cell → List Ptr
items [] = []
items (c ∷ cs) = c.item ∷ items cs

-- the calls of deconstructors that freeing the cells makes
abbrev pub calls_of : List Cell → List (Ptr × Ptr)
calls_of [] = []
calls_of (c ∷ cs) =
    if c.deconstructor == null then calls_of cs else (c.deconstructor, c.item) ∷ calls_of cs

-- `g` differs from `h` at most at the addresses of `cs`
abbrev pub SameOutside : List Cell → Cells → Cells → Type 0
SameOutside cs h g = (a : Ptr) → has a cs ≡ false → g a ≡ h a

abbrev pub Disjoint : List Cell → List Cell → Type 0
Disjoint cs ds = (a : Ptr) → has a cs ≡ true → has a ds ≡ false

pub has-append : (a : Ptr) (cs ds : List Cell) → has a (cs ++ ds) ≡ (has a cs || has a ds)
has-append a [] ds = refl
has-append a (c ∷ cs) ds = ground (arith, has-append a cs ds)

-- A chain does not depend on what stands at other addresses.
pub IsChain_frame :
    (h g : Cells) (stop : Ptr) (cs : List Cell)
    → IsChain h stop cs
    → ((a : Ptr) → has a cs ≡ true → g a ≡ h a)
    → IsChain g stop cs
IsChain_frame h g stop [] ch same = tt
IsChain_frame h g stop (c ∷ cs) (ne, at, out, rest) same = (
  ne,
  same c.at (ground arith) ∙ at,
  out,
  IsChain_frame h g stop cs rest (λ a i. same a (ground arith)),
)

pub IsChain-write :
    (h : Cells) (stop : Ptr) (cs : List Cell) (a : Ptr) (n : Option Node)
    → IsChain h stop cs
    → has a cs ≡ false
    → IsChain (write h a n) stop cs
unfolding write
IsChain-write h stop cs a n ch out = IsChain_frame h (write h a n) stop cs ch (λ b i. ground arith)

-- An address without a node is not in a chain.
pub not_has_of_none :
    (h : Cells) (stop : Ptr) (cs : List Cell) (a : Ptr)
    → IsChain h stop cs
    → h a ≡ none
    → has a cs ≡ false
not_has_of_none h stop [] a ch e = refl
not_has_of_none h stop (c ∷ cs) a (ne, at, out, rest) e =
    ground (arith, not_has_of_none h stop cs a rest e, ==_iff a c.at)

pub IsChain-append :
    (h : Cells) (stop : Ptr) (cs ds : List Cell)
    → IsChain h (first stop ds) cs
    → IsChain h stop ds
    → Disjoint cs ds
    → IsChain h stop (cs ++ ds)
IsChain-append h stop [] ds c d apart = d
IsChain-append h stop (c ∷ cs) ds (ne, at, out, rest) d apart = (
  ne,
  at ∙ ap (λ q. some (node_of c q)) (first-append stop cs ds),
  has-append c.at cs ds ∙ ground (arith, apart c.at),
  IsChain-append h stop cs ds rest d (λ a i. apart a (ground arith)),
)
  where
    first-append : (s : Ptr) (xs ys : List Cell) → first (first s ys) xs ≡ first s (xs ++ ys)
    first-append s [] ys = refl
    first-append s (x ∷ xs) ys = refl

-- What the head of a chain gives to the code that reads it.
pub load-done :
    (s : Store) (p : Ptr) (n : Node) → p ≢ null → s.cells p ≡ some n → load p s ≡ done n s
unfolding load
load-done s p n ne e = ground arith

pub not_null : (p : Ptr) → p ≢ null → (p == null) ≡ false
not_null p ne = ground arith

pub ne_of_has : (a b : Ptr) (cs : List Cell) → has a cs ≡ true → has b cs ≡ false → (b == a) ≡ false
ne_of_has a b cs i o = elim (Bool-cases (b == a)) [
  | inl same ↦ cc ((==_iff b a).0 same)
  | inr other ↦ other
]

pub write_other : (h : Cells) (a b : Ptr) (n : Option Node) → (b == a) ≡ false → write h a n b ≡ h b
unfolding write
write_other h a b n e = rw e

pub write_self : (h : Cells) (a : Ptr) (n : Option Node) → write h a n a ≡ n
unfolding write
write_self h a n = rw (==_refl a)

pub write_here : (h : Cells) (a b : Ptr) (n : Option Node) → (b == a) ≡ true → write h a n b ≡ n
unfolding write
write_here h a b n e = rw e
