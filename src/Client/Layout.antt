-- ===== src/Client/Layout.antt =====
-- lib/libflipper.c: where lf_invoke_by_index writes the arguments of a call in the packet.
use flipper.Prelude.{
  ℕ, suc, ◌+◌, ◌%◌, ◌^◌, ◌<◌, ◌≤◌, ◌≡◌, refl, sym, ap, ◌∙◌, List, [], ◌∷◌, ◌++◌, append_assoc,
  Option, some, true, length, length-append, arith, All, ltb, lt→ltb,
}
use flipper.Prelude.Bytes.{poke, to_le, length-to_le, peek_in, poke_in, split_at}
use flipper.Device.{Arg}
use flipper.Fmr.{lf_sizeof}
use flipper.Fmr.Args.{Holds}
use flipper.Call.{total}
use flipper.Client.{args_loop}

-- the bytes of the types, and of the values
unfoldable pub types : List Arg → List ℕ
types [] = []
types (a ∷ as') = to_le 1 a.type ++ types as'

unfoldable pub values : List Arg → List ℕ
values [] = []
values (a ∷ as') = to_le (lf_sizeof a.type) a.value ++ values as'

pub length-types : (as' : List Arg) → length (types as') ≡ length as'
unfolding types
length-types [] = refl
length-types (a ∷ as') =
    omega (
      arith,
      length-append {0} (to_le 1 a.type) (types as'),
      length-to_le 1 a.type,
      length-types as',
    )

pub length-values : (as' : List Arg) → length (values as') ≡ total as'
unfolding values total
length-values [] = refl
length-values (a ∷ as') = omega (
  arith,
  length-append {0} (to_le (lf_sizeof a.type) a.value) (values as'),
  length-to_le (lf_sizeof a.type) a.value,
  length-values as',
)

-- A packet: ten bytes of headers, the types, what is left of their array, the values and the rest.
abbrev pub layout : (head ts unused vs rest : List ℕ) → List ℕ
layout head ts unused vs rest = head ++ (ts ++ (unused ++ (vs ++ rest)))

-- Such a packet holds the arguments whose types and values end its arrays.
pub layout-Holds :
    (head ts unused vs rest : List ℕ) (as' : List Arg) (i offset : ℕ)
    → length head ≡ 10
    → length ts ≡ i
    → length vs + length unused + length (types as') + length ts + 10 ≡ offset
    → All (λ a. a.type < 256) as'
    → Holds (layout head (ts ++ types as') unused (vs ++ values as') rest) i offset as'
unfolding types values
layout-Holds head ts unused vs rest [] i offset hh ht ho small = tt
layout-Holds head ts unused vs rest (a ∷ as') i offset hh ht ho (lt, small) =
    let t = to_le 1 a.type in
    let v = to_le (lf_sizeof a.type) a.value in
    let n = lf_sizeof a.type in
    let tail = unused ++ ((vs ++ (v ++ values as')) ++ rest) in
    let front = head ++ (ts ++ (t ++ (types as' ++ (unused ++ vs)))) in
    let lt1 = length-to_le 1 a.type in
    let ih =
      layout-Holds head (ts ++ t) unused (vs ++ v) rest as' (i + 1) (offset + n) hh
        (omega (arith, length-append {0} ts t))
        (omega (
          arith,
          length-append {0} vs v,
          length-append {0} ts t,
          length-append {0} t (types as'),
          length-to_le n a.value,
        ))
        small in
    (
      lt,
      peek_in (head ++ ts) t (types as' ++ tail) (simp append_assoc)
          (omega (arith, length-append {0} head ts)) lt1,
      peek_in front v (values as' ++ rest) (simp append_assoc)
          (omega (
            arith,
            length-append {0} head (ts ++ (t ++ (types as' ++ (unused ++ vs)))),
            length-append {0} ts (t ++ (types as' ++ (unused ++ vs))),
            length-append {0} t (types as' ++ (unused ++ vs)),
            length-append {0} t (types as'),
            length-append {0} (types as') (unused ++ vs),
            length-append {0} unused vs,
          ))
          (length-to_le n a.value),
      rw (append_assoc ts t (types as'), append_assoc vs v (values as')) at ih,
    )

-- One write into each array of the packet.
poke_type :
    (head ts os unused back rest : List ℕ) (o i x : ℕ)
    → length head ≡ 10
    → length ts ≡ i
    → poke (layout head (ts ++ (o ∷ os)) unused back rest) (10 + i) (to_le 1 x)
      ≡ some (layout head ((ts ++ to_le 1 x) ++ os) unused back rest)
poke_type head ts os unused back rest o i x hh ht =
    poke_in (head ++ ts) (o ∷ []) (to_le 1 x) (os ++ (unused ++ (back ++ rest))) (simp append_assoc)
      (omega (arith, length-append {0} head ts)) (sym (length-to_le 1 x))
    ∙ ap some (simp append_assoc)

poke_value :
    (head ts unused vs ws1 ws2 rest : List ℕ) (dst n x : ℕ)
    → length head + length ts + length unused + length vs ≡ dst
    → length ws1 ≡ n
    → poke (layout head ts unused (vs ++ (ws1 ++ ws2)) rest) dst (to_le n x)
      ≡ some (layout head ts unused ((vs ++ to_le n x) ++ ws2) rest)
poke_value head ts unused vs ws1 ws2 rest dst n x hd hw =
    poke_in (head ++ (ts ++ (unused ++ vs))) ws1 (to_le n x) (ws2 ++ rest) (simp append_assoc)
      (omega (
        arith,
        length-append {0} head (ts ++ (unused ++ vs)),
        length-append {0} ts (unused ++ vs),
        length-append {0} unused vs,
      ))
      (hw ∙ sym (length-to_le n x))
    ∙ ap some (simp append_assoc)

-- One turn of the loop.
args_loop_step :
    (head ts os unused vs ws1 ws2 rest : List ℕ) (a : Arg) (as' : List Arg) (o i dst len : ℕ)
    → length head ≡ 10
    → length ts ≡ i
    → length vs + length unused + suc (length os) + length ts + 10 ≡ dst
    → length ws1 ≡ lf_sizeof a.type
    → i < 16
    → args_loop i dst len (a ∷ as') (layout head (ts ++ (o ∷ os)) unused (vs ++ (ws1 ++ ws2)) rest)
      ≡ args_loop (i + 1) (dst + lf_sizeof a.type) ((len + lf_sizeof a.type) % 2 ^ 16) as' (
          layout head
            ((ts ++ to_le 1 a.type) ++ os)
            unused
            ((vs ++ to_le (lf_sizeof a.type) a.value) ++ ws2)
            rest)
unfolding args_loop
args_loop_step head ts os unused vs ws1 ws2 rest a as' o i dst len hh ht hd hw few =
    let typed : ltb i 16 ≡ true = lt→ltb i 16 few in
    let t = to_le 1 a.type in
    let at_values : length head + length ((ts ++ t) ++ os) + length unused + length vs ≡ dst =
      omega
        (arith, length-append {0} (ts ++ t) os, length-append {0} ts t, length-to_le 1 a.type) in
    rw (
      typed,
      poke_type head ts os unused (vs ++ (ws1 ++ ws2)) rest o i a.type hh ht,
      poke_value head ((ts ++ t) ++ os) unused vs ws1 ws2 rest dst (lf_sizeof a.type) a.value
          at_values hw,
      args_loop,
    )

-- The loop writes the types and the values behind those that are there, and counts their bytes.
pub args_loop-layout :
    (head ts os unused vs ws rest : List ℕ) (as' : List Arg) (i dst len : ℕ)
    → length head ≡ 10
    → length ts ≡ i
    → length os ≡ length as'
    → length vs + length unused + length os + length ts + 10 ≡ dst
    → length ws ≡ total as'
    → len + total as' < 65536
    → i + length as' ≤ 16
    → args_loop i dst len as' (layout head (ts ++ os) unused (vs ++ ws) rest)
      ≡ some (len + total as', layout head (ts ++ types as') unused (vs ++ values as') rest)
unfolding types values total
args_loop-layout head ts [] unused vs [] rest [] i dst len hh ht ho hd hw fits few =
    unfold args_loop in
    ap (λ k. some (k, layout head (ts ++ []) unused (vs ++ []) rest)) (omega arith)
args_loop-layout head ts [] unused vs (w ∷ ws) rest [] i dst len hh ht ho hd hw fits few =
    absurd (omega arith)
args_loop-layout head ts (o ∷ os) unused vs ws rest [] i dst len hh ht ho hd hw fits few =
    absurd (omega arith)
args_loop-layout head ts [] unused vs ws rest (a ∷ as') i dst len hh ht ho hd hw fits few =
    absurd (omega arith)
args_loop-layout head ts (o ∷ os) unused vs ws rest (a ∷ as') i dst len hh ht ho hd hw fits few =
    let n = lf_sizeof a.type in
    let t = to_le 1 a.type in
    let v = to_le n a.value in
    let (ws1, ws2, e, l) = split_at n ws (omega arith) in
    let lt1 = length-to_le 1 a.type in
    let lv = length-to_le n a.value in
    let no_wrap : (len + n) % 2 ^ 16 ≡ len + n = omega arith in
    let ih =
      args_loop-layout head (ts ++ t) os unused (vs ++ v) ws2 rest as' (i + 1) (dst + n) (len + n)
        hh (omega (arith, length-append {0} ts t)) (omega arith)
        (omega (arith, length-append {0} ts t, length-append {0} vs v))
        (omega (arith, length-append {0} ws1 ws2, ap length e)) (omega arith) (omega arith) in
    rw e (
      args_loop_step head ts os unused vs ws1 ws2 rest a as' o i dst len hh ht hd l (omega arith)
      ∙ ap
          (λ k.
            args_loop (i + 1) (dst + n) k as'
              (layout head ((ts ++ t) ++ os) unused ((vs ++ v) ++ ws2) rest))
          no_wrap
      ∙ ih
      ∙ shape len n (total as') head ts t (types as') unused vs v (values as') rest)
  where
    shape :
        (len n k : ℕ) (head ts t ts' unused vs v vs' rest : List ℕ)
        → ◌≡◌ {A = Option (ℕ × List ℕ)}
            (some (len + n + k, layout head ((ts ++ t) ++ ts') unused ((vs ++ v) ++ vs') rest))
            (some (len + (n + k), layout head (ts ++ (t ++ ts')) unused (vs ++ (v ++ vs')) rest))
    shape len n k head ts t ts' unused vs v vs' rest =
        rw (append_assoc ts t ts', append_assoc vs v vs')
          (ap (λ m. some (m, layout head (ts ++ (t ++ ts')) unused (vs ++ (v ++ vs')) rest))
            (omega arith))
