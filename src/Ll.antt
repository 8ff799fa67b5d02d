-- ===== src/Ll.antt =====
-- lib/ll.c: singly linked lists over an explicit store. An item and a deconstructor are pointers,
-- null is 0. A `struct _lf_ll **` is `none` for NULL, and otherwise the pointer that it refers to,
-- whose new value is returned. The address that `malloc` returns is an argument. A deconstructor is
-- code of the caller: its calls are logged, in order. Loops run on fuel.
pub mod Chain
pub mod Append
pub mod Remove
pub mod Unlink
pub mod Walk
mod Runs
use flipper.Prelude.{
  ℕ, zero, suc, ◌+◌, ◌%◌, ◌^◌, Option, none, some, List, [], ◌∷◌, ◌++◌, ◌==◌, not, Bool,
  if◌then◌else◌,
}
use flipper.Prelude.Outcome.{Outcome, done, fault, spent, pure, continue, ◌>>=◌, ◌>>◌}
use flipper.Error.{lf_success, lf_error, e_null}

abbrev pub Ptr : Type 0
Ptr = ℕ

abbrev pub null : Ptr
null = 0

pub record Node : Type 0 where
  pub item : Ptr
  pub deconstructor : Ptr
  pub next : Ptr

abbrev pub Cells : Type 0
Cells = Ptr → Option Node

-- the nodes, the deconstructor calls made (function and item), and `_lf_err`
pub record Store : Type 0 where
  pub cells : Cells
  pub calls : List (Ptr × Ptr)
  pub err : ℕ

abbrev pub Cmd : Type 0 → Type 0
Cmd A = Store → Outcome Store A

unfoldable pub write : Cells → Ptr → Option Node → Cells
write h p c a = if a == p then c else h a

-- `*ll`: NULL and an address that holds no node fault
unfoldable pub load : Ptr → Cmd Node
load p s = if p == null then fault else elim (s.cells p) [ none ↦ fault | some n ↦ done n s ]

-- the raw write
abbrev pub put : Ptr → Option Node → Cmd (Unit {0})
put p c s = done tt (record s { cells = write s.cells p c })

-- `ll->next = q`
unfoldable pub set_next : Ptr → Ptr → Cmd (Unit {0})
unfolding load
set_next p q = do n ← load p; put p (some (record n { next = q }))

-- `_lf_assert`
abbrev pub raise : ℕ → Cmd (Unit {0})
raise e s = done tt (record s { err = e })

pub lf_ll_count : (fuel : ℕ) → Ptr → (count : ℕ) → Cmd ℕ
lf_ll_count zero ll count = λ _. spent
lf_ll_count (suc k) ll count =
    if ll == null then pure count else do n ← load ll; lf_ll_count k n.next ((count + 1) % 2 ^ 64)

-- `while (head->next) head = head->next`
pub last_node : (fuel : ℕ) → Ptr → Cmd Ptr
last_node zero head = λ _. spent
last_node (suc k) head = do n ← load head; if n.next == null then pure head else last_node k n.next

-- links `new` behind the last node, or makes it the head of an empty list
pub link : (fuel : ℕ) → (head new : Ptr) → Cmd Ptr
unfolding last_node set_next
link fuel head new =
    if head == null then pure new else do tail ← last_node fuel head; set_next tail new; pure head

pub lf_ll_append :
    (fuel : ℕ) → (fresh : Ptr) → Option Ptr → (item dtor : Ptr) → Cmd (ℕ × Option Ptr)
unfolding link
lf_ll_append fuel fresh none item dtor = pure (lf_error, none)
lf_ll_append fuel fresh (some head) item dtor =
    if fresh == null then pure (lf_error, some head) else do
      put fresh (some (record { item = item; deconstructor = dtor; next = null }))
      head' ← link fuel head fresh
      pure (lf_success, some head')

pub lf_ll_concat : (fuel : ℕ) → Option Ptr → Ptr → Cmd (ℕ × Option Ptr)
unfolding link
lf_ll_concat fuel none llb = do raise e_null; pure (lf_error, none)
lf_ll_concat fuel (some lla) llb = do head' ← link fuel lla llb; pure (lf_success, some head')

-- `while (index-- && ll) ll = ll->next`
pub advance : (index : ℕ) → Ptr → Cmd Ptr
advance zero ll = pure ll
advance (suc index) ll = if ll == null then pure ll else do n ← load ll; advance index n.next

pub lf_ll_item : Ptr → (index : ℕ) → Cmd Ptr
unfolding advance load
lf_ll_item ll index = do
  at ← advance index ll
  if at == null then (do raise e_null; pure null) else do n ← load at; pure n.item

pub lf_ll_free_node : Ptr → Cmd (Unit {0})
lf_ll_free_node ll s =
    if ll == null
    then done tt s
    else continue (load ll s) λ n s'. done tt (record s' {
      cells = write s'.cells ll none;
      calls =
          if n.deconstructor == null then s'.calls else s'.calls ++ (n.deconstructor, n.item) ∷ [];
    })

-- frees the first node of `*_ll`, and returns the new `*_ll`
pub lf_ll_free : Ptr → Cmd Ptr
unfolding lf_ll_free_node load
lf_ll_free ll = if ll == null then pure ll else do n ← load ll; lf_ll_free_node ll; pure n.next

-- the loop over `*_ll`, `prev` and `current`; the result is `*_ll`
pub remove_loop : (item : Ptr) (fuel : ℕ) → (head prev current : Ptr) → Cmd Ptr
remove_loop item zero head prev current = λ _. spent
remove_loop item (suc k) head prev current = if current == null then pure head else do
  n ← load current
  if n.item == item
      then if prev == null
        then (do lf_ll_free_node current; remove_loop item k n.next null n.next)
        else (do
          set_next prev n.next
          lf_ll_free_node current
          p ← load prev
          remove_loop item k head prev p.next)
      else remove_loop item k head current n.next

pub lf_ll_remove : (fuel : ℕ) → Option Ptr → (item : Ptr) → Cmd (Option Ptr)
unfolding remove_loop
lf_ll_remove fuel none item = do raise e_null; pure none
lf_ll_remove fuel (some head) item = do
  head' ← remove_loop item fuel head null head
  pure (some head')

-- `func` is code of the caller that works on its context; 0 is `lf_success`
pub apply_loop : {C : Type 0} (func : Ptr → C → ℕ × C) (fuel : ℕ) → Ptr → C → Cmd (ℕ × C)
apply_loop func zero ll ctx = λ _. spent
apply_loop func (suc k) ll ctx = do
  n ← load ll
  let (e, ctx') = func n.item ctx
  if e == lf_success
      then if n.next == null then pure (e, ctx') else apply_loop func k n.next ctx'
      else pure (e, ctx')

pub lf_ll_apply_func : {C : Type 0} (fuel : ℕ) → Ptr → Option (Ptr → C → ℕ × C) → C → Cmd (ℕ × C)
unfolding apply_loop
lf_ll_apply_func fuel ll none ctx = do raise e_null; pure (lf_error, ctx)
lf_ll_apply_func fuel ll (some func) ctx =
    if ll == null then (do raise e_null; pure (lf_error, ctx)) else apply_loop func fuel ll ctx

pub release_loop : (fuel : ℕ) → Ptr → Cmd Ptr
release_loop zero ll = λ _. spent
release_loop (suc k) ll =
    if ll == null then pure ll else do n ← load ll; lf_ll_free_node ll; release_loop k n.next

pub lf_ll_release : (fuel : ℕ) → Option Ptr → Cmd (ℕ × Option Ptr)
unfolding release_loop
lf_ll_release fuel none = do raise e_null; pure (lf_error, none)
lf_ll_release fuel (some ll) = do ll' ← release_loop fuel ll; pure (lf_success, some ll')

pub lf_ll_create : Ptr
lf_ll_create = null
