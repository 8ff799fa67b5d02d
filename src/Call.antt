-- ===== src/Call.antt =====
-- lib/fmr_helper.c: the arguments of a call, and the call packet that they are written to. The packet is
-- its 64 bytes; a header field stands at its offset in it.
pub mod Create
mod Runs
use flipper.Prelude.{
  ℕ, zero, suc, ◌+◌, ◌-◌, ◌%◌, List, [], ◌∷◌, ◌++◌, Option, none, some, Bool, true, false,
  if◌then◌else◌, length, take, replicate, ltb, ◌==◌,
}
use flipper.Prelude.Bytes.{poke, to_le}
use flipper.Prelude.Outcome.{Outcome, done, fault, pure, continue, ◌>>=◌, ◌>>◌}
use flipper.Error.{lf_success, lf_error}
use flipper.Device.{Arg, Platform, Cmd, call, access}
use flipper.Modules.{node_size}
use flipper.Fmr.{Held, arg_size, lf_sizeof, fmr_packet_size}

-- sizeof(struct _fmr_header) and sizeof(struct _fmr_call)
abbrev pub header_size : ℕ
header_size = 6

abbrev pub call_size : ℕ
call_size = 20

-- FMR_MAX_ARGC, the entries of arg_types
abbrev pub max_argc : ℕ
max_argc = 16

-- the number of bytes of the values of arguments
unfoldable pub total : List Arg → ℕ
total [] = 0
total (a ∷ as') = lf_sizeof a.type + total as'

module _ {E : Type 0} (p : Platform E) where
  -- The list of arguments behind the call, and the status. lf_ll_append allocates the node; a failure of
  -- it leaks the argument.
  unfoldable pub fmr_append_arg : List Held → (type value : ℕ) → Cmd E (ℕ × List Held)
  fmr_append_arg list type value = do
    at ← call (p.malloc arg_size)
    if at == 0 then pure (lf_error, list) else (do
      node ← call (p.malloc node_size)
      if node == 0
          then pure (lf_error, list)
          else pure (
            lf_success,
            list
                ++ (record {
                  arg_at = at;
                  node_at = node;
                  arg = record { type = type; value = value };
                })
                  ∷ [],
          ))

  unfoldable pub lf_arg_create : (type value : ℕ) → Cmd E (Option Arg)
  lf_arg_create type value = do
    at ← call (p.malloc arg_size)
    if at == 0 then pure none else pure (some (record { type = type; value = value }))

  -- lf_ll_release of arguments without a deconstructor: only their nodes are freed
  unfoldable pub release_nodes : List Held → E → E
  release_nodes [] e = e
  release_nodes (h ∷ hs) e = release_nodes hs (p.free h.node_at e)

  -- the loop of fmr_build over its variadic arguments
  unfoldable pub build_loop : List Held → List Arg → Cmd E (Option (List Held))
  unfolding fmr_append_arg release_nodes
  build_loop args [] = pure (some args)
  build_loop args (a ∷ as') = do
    r ← fmr_append_arg args a.type a.value
    if r.0 == lf_success
        then build_loop r.1 as'
        else (do call (λ e. (tt, release_nodes r.1 e)); pure none)

  -- `args = lf_ll_create(); if (!args) return NULL;`, and lf_ll_create is what lib/ll.c makes it:
  -- the result is a list of arguments, none for NULL
  unfoldable pub fmr_build : (created : Option (List Held)) → List Arg → Cmd E (Option (List Held))
  unfolding build_loop
  fmr_build none as' = pure none
  fmr_build (some args) as' = build_loop args as'

-- The loop of lf_create_call: `i` and `dst` advance, `size` is payload_size. The type is written before
-- the size is checked. none in the option is a write outside of the packet, or behind the 16 entries of arg_types.
unfoldable pub create_loop :
    (i dst size : ℕ) → List Arg → (packet : List ℕ) → Option (ℕ × ℕ × List ℕ)
create_loop i dst size [] packet = some (lf_success, size, packet)
create_loop i dst size (a ∷ as') packet = elim (ltb i max_argc) [
  | false ↦ none
  | true ↦ elim (poke packet (10 + i) (to_le 1 a.type)) [
    | none ↦ none
    | some typed ↦
        if ltb (fmr_packet_size - header_size) (size + lf_sizeof a.type)
        then some (lf_error, size, typed)
        else elim (poke typed dst (to_le (lf_sizeof a.type) a.value)) [
          | none ↦ none
          | some packet' ↦
              create_loop (i + 1) (dst + lf_sizeof a.type) (size + lf_sizeof a.type) as' packet'
        ]
  ]
]

-- `valid` says that neither the call nor the header is NULL. The status and the packet: on success the
-- class and the length are written. The loop runs to `call->argc`, the count of arguments in an uint8_t.
unfoldable pub lf_create_call :
    (valid : Bool) → (module' ret : ℕ) → List Arg → (packet : List ℕ) → Option (ℕ × List ℕ)
unfolding create_loop
lf_create_call false module' ret args packet = some (lf_error, packet)
lf_create_call true module' ret args packet =
    let argc : ℕ = length args % 256 in
    elim (poke packet 6 (module' % 256 ∷ 0 ∷ ret ∷ argc ∷ [])) [
      | none ↦ none
      | some p0 ↦ elim (create_loop 0 26 (call_size + argc) (take argc args) p0) [
        | none ↦ none
        | some (e, size, p1) ↦
            if e == lf_success
            then elim (poke p1 5 (0 ∷ [])) [
              | none ↦ none
              | some p2 ↦ elim (poke p2 3 (to_le 2 size)) [
                | none ↦ none
                | some p3 ↦ some (lf_success, p3)
              ]
            ]
            else some (lf_error, p1)
      ]
    ]
