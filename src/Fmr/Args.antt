-- ===== src/Fmr/Args.antt =====
-- lib/fmr.c: the arguments that fmr_rpc reads from a packet.
use flipper.Prelude.{
  ℕ, ◌+◌, ◌%◌, ◌^◌, ◌<◌, ◌≡◌, refl, List, [], ◌∷◌, ◌++◌, append_assoc, append-nil, some, false,
  length, drop, ◌==◌,
}
use flipper.Prelude.Bytes.{peek, to_le, to_le_byte, of_le-low}
use flipper.Prelude.Outcome.{done}
use flipper.Device.{Arg, Device, Platform}
use flipper.Fmr.{lf_sizeof, field, Held, args_of, arg_size, value_of, rpc_args}

-- The packet holds the types of the arguments from index `i` on, and their values from `offset` on.
abbrev pub Holds : List ℕ → (i offset : ℕ) → List Arg → Type 0
Holds packet i offset [] = Unit {0}
Holds packet i offset (a ∷ as') =
    (a.type < 256)
    × (peek packet (10 + i) 1 ≡ some (to_le 1 a.type))
    × (peek packet offset (lf_sizeof a.type) ≡ some (to_le (lf_sizeof a.type) a.value))
    × Holds packet (i + 1) (offset + lf_sizeof a.type) as'

-- The arguments that arrive have the types that were sent, and in each value the bytes of its size.
abbrev pub Carries : List Arg → List Arg → Type 0
Carries [] [] = Unit {0}
Carries [] (b ∷ bs) = ⊥
Carries (a ∷ as') [] = ⊥
Carries (a ∷ as') (b ∷ bs) =
    (b.type ≡ a.type)
    × (b.value % 256 ^ lf_sizeof a.type ≡ a.value % 256 ^ lf_sizeof a.type)
    × Carries as' bs

module _ {E : Type 0} where
  pub field-to_le :
      (d : Device E) (offset x : ℕ)
      → x < 256
      → peek d.packet offset 1 ≡ some (to_le 1 x)
      → field offset 1 d ≡ done x d
  unfolding field
  field-to_le d offset x h e = rw (e, to_le_byte x h)

module _ {E : Type 0} (p : Platform E) where
  -- memory is not exhausted
  abbrev pub Allocates : Type 0
  Allocates = (size : ℕ) (e : E) → ((p.malloc size e).0 == 0) ≡ false

  -- Where the packet holds the arguments and memory is not exhausted, the loop of fmr_rpc adds as many
  -- arguments to those it has, of the same types, whose values agree on the bytes of their types, and changes
  -- nothing of the device but the environment.
  pub rpc_args-Carries :
      (d : Device E) (as' : List Arg) (i offset : ℕ) (held : List Held)
      → Allocates
      → Holds d.packet i offset as'
      → (hs : List Held) × (e : E) × (rpc_args p (length as') i offset held d
          ≡ done (some (held ++ hs)) (record d { env = e }))
        × Carries as' (args_of hs)
  unfolding rpc_args
  rpc_args-Carries d [] i offset held ok h = ([], d.env, rw append-nil, tt)
  rpc_args-Carries d (a ∷ as') i offset held ok (small, typed, valued, rest) =
      let e1 = (p.malloc arg_size d.env).1 in
      let e2 = (p.malloc 24 e1).1 in
      let n = lf_sizeof a.type in
      let arg : Arg = record {
        type = a.type;
        value = value_of (to_le n a.value) n (p.garbage e1);
      } in
      let h : Held = record {
        arg_at = (p.malloc arg_size d.env).0;
        node_at = (p.malloc 24 e1).0;
        arg = arg;
      } in
      let (hs, e, run, carried) =
        rpc_args-Carries (record d { env = e2 }) as' (i + 1) (offset + n) (held ++ h ∷ []) ok
          rest in
      (
        h ∷ hs,
        e,
        rw (field-to_le d (10 + i) a.type small typed, ok arg_size d.env, valued, ok 24 e1)
            (rw append_assoc at run),
        (refl, of_le-low n a.value (drop n (p.garbage e1)), carried),
      )
