-- ===== src/Fmr/Frame.antt =====
-- lib/fmr.c: what the memory of a platform leaves alone, a call of fmr_rpc leaves alone as far as its function does.
use flipper.Prelude.{ℕ, ◌+◌, ◌≡◌, refl, sym, ap, ◌∙◌, List, [], ◌∷◌, ◌++◌, some, length}
use flipper.Prelude.Bytes.{to_le}
use flipper.Prelude.Outcome.{done, fault, spent}
use flipper.Device.{Arg, Function, Device, Platform, Cmd}
use flipper.Fmr.{lf_sizeof, Held, args_of, arg_size, value_of, release_args, rpc_args}
use flipper.Fmr.Args.{Holds, Allocates, field-to_le}
use flipper.Fmr.Rpc.{Called, after}

-- A part of the environment that memory and a function leave alone.
module _ {E V : Type 0} (p : Platform E) (view : E → V) where
  abbrev pub IsApart : Type 0
  IsApart =
      ((size : ℕ) (e : E) → view (p.malloc size e).1 ≡ view e)
      × ((at : ℕ) (e : E) → view (p.free at e) ≡ view e)

  abbrev pub Keeps : Function E → Type 0
  Keeps f = (args : List Arg) (e : E) (err : ℕ) → view (f args e err).1 ≡ view e

  release_args-view : (hs : List Held) (e : E) → IsApart → view (release_args p hs e) ≡ view e
  unfolding release_args
  release_args-view [] e apart = refl
  release_args-view (x ∷ hs) e apart =
      release_args-view hs (p.free x.node_at (p.free x.arg_at e)) apart
      ∙ apart.1 x.node_at (p.free x.arg_at e)
      ∙ apart.1 x.arg_at e

  view_behind :
      {A : Type 0} (a b : A) (d d' : Device E) → done a d ≡ done b d' → view d'.env ≡ view d.env
  view_behind a b d d' e =
      sym (ap (λ o. elim o [ done x v ↦ view v.env | fault ↦ view d.env | spent ↦ view d.env ]) e)

  rpc_args-view :
      (d : Device E) (as' : List Arg) (i offset : ℕ) (held hs : List Held) (e : E)
      → IsApart
      → Allocates p
      → Holds d.packet i offset as'
      → rpc_args p (length as') i offset held d ≡ done (some hs) (record d { env = e })
      → view e ≡ view d.env
  unfolding rpc_args
  rpc_args-view d [] i offset held hs e apart ok holds run =
      view_behind (some held) (some hs) d (record d { env = e }) run
  rpc_args-view d (a ∷ as') i offset held hs e apart ok (small, typed, valued, rest) run =
      let e1 = (p.malloc arg_size d.env).1 in
      let e2 = (p.malloc 24 e1).1 in
      let k = lf_sizeof a.type in
      let arg : Arg = record {
        type = a.type;
        value = value_of (to_le k a.value) k (p.garbage e1);
      } in
      let x : Held = record {
        arg_at = (p.malloc arg_size d.env).0;
        node_at = (p.malloc 24 e1).0;
        arg = arg;
      } in
      let run' =
        rw (field-to_le d (10 + i) a.type small typed, ok arg_size d.env, valued, ok 24 e1) at
          run in
      rpc_args-view (record d { env = e2 }) as' (i + 1) (offset + k) (held ++ x ∷ []) hs e apart ok
        rest run'
      ∙ apart.0 24 e1
      ∙ apart.0 arg_size d.env

  -- That part behind a call is what it was before it.
  pub after-view :
      (plugins : ℕ → Cmd E (ℕ × ℕ)) (f : Function E) (args : List Arg) (z : Device E)
      (c : Called p plugins f args z)
      → IsApart
      → Allocates p
      → Holds z.packet 0 26 args
      → Keeps f
      → view (after p plugins f args z c).env ≡ view z.env
  after-view plugins f args z c apart ok holds keeps =
      release_args-view c.held (f (args_of c.held) c.before z.err).1 apart
      ∙ keeps (args_of c.held) c.before z.err
      ∙ rpc_args-view z args 0 26 [] c.held c.before apart ok holds c.read
