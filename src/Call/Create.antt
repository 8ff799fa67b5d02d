-- ===== src/Call/Create.antt =====
-- lib/fmr_helper.c: lf_create_call stays inside of the packet.
use flipper.Prelude.{
  ℕ, ◌+◌, ◌%◌, ◌≤◌, ◌<◌, ◌≡◌, refl, ◌∙◌, ◌⊎◌, inl, inr, List, [], ◌∷◌, Option, some, true, length,
  take, arith, ltb, lt→ltb, Bool-cases, length-take,
}
use flipper.Prelude.Bytes.{peek, poke_fits, to_le, length-to_le}
use flipper.Error.{lf_success, lf_error}
use flipper.Device.{Arg}
use flipper.Fmr.{lf_sizeof}
use flipper.Call.{call_size, total, create_loop, lf_create_call}

-- The end of the loop: the status, payload_size and the packet.
pub record Filled (size : ℕ) (as' : List Arg) (result : Option (ℕ × ℕ × List ℕ)) : Type 0 where
  pub status : ℕ
  pub size' : ℕ
  pub packet : List ℕ
  pub run : result ≡ some (status, size', packet)
  pub whole : length packet ≡ 64
  pub outcome :
      ((status ≡ lf_success) × (size' ≡ size + total as'))
      ⊎ ((status ≡ lf_error) × (58 < size + total as'))

-- The loop writes inside of the packet, and fails just where the arguments are too large for it.
create_loop-Filled :
    (as' : List Arg) (packet : List ℕ) (i dst size : ℕ)
    → length packet ≡ 64
    → i + length as' ≤ 16
    → size + 6 ≡ dst + (i + length as')
    → 20 + (i + length as') ≤ size
    → Filled size as' (create_loop i dst size as' packet)
unfolding create_loop total
create_loop-Filled [] packet i dst size hp hi hd hs = record {
  status = lf_success;
  size' = size;
  packet = packet;
  run = refl;
  whole = hp;
  outcome = inl (refl, omega arith);
}
create_loop-Filled (a ∷ as') packet i dst size hp hi hd hs =
    let n = lf_sizeof a.type in
    let inside_types : ltb i 16 ≡ true = lt→ltb i 16 (omega arith) in
    let (typed, wrote, _, l1) =
      poke_fits packet (10 + i) (to_le 1 a.type) (omega (arith, length-to_le 1 a.type)) in
    elim (Bool-cases (ltb 58 (size + n))) [
      | inl large ↦
          let more : 58 < size + n = ground arith in
          record {
            status = lf_error;
            size' = size;
            packet = typed;
            run = rw (inside_types, wrote, large, create_loop) refl;
            whole = l1 ∙ hp;
            outcome = inr (refl, omega arith);
          }
      | inr fits ↦
          let inside : size + n ≤ 58 = ground arith in
          let (packet', wrote', _, l2) =
            poke_fits typed dst (to_le n a.value) (omega (arith, length-to_le n a.value)) in
          let rest =
            create_loop-Filled as' packet' (i + 1) (dst + n) (size + n) (l2 ∙ l1 ∙ hp) (omega arith)
              (omega arith) (omega arith) in
          record {
            status = rest.status;
            size' = rest.size';
            packet = rest.packet;
            run = rw (inside_types, wrote, fits, wrote', create_loop) rest.run;
            whole = rest.whole;
            outcome = elim rest.outcome [
              | inl (e, s) ↦ inl (e, omega arith)
              | inr (e, s) ↦ inr (e, omega arith)
            ];
          }
    ]

-- the arguments that the loop sees: the count is an uint8_t
abbrev pub counted : List Arg → List Arg
counted args = take (length args % 256) args

-- For a list of arguments whose count modulo 256 is at most 16, lf_create_call with a call and a header ends without a
-- write outside of the packet of 64 bytes or behind the types of the call, and leaves 64 bytes. Where the 20 bytes of
-- struct _fmr_call, the count of the arguments modulo 256 and the bytes of that many arguments make up at most 58, it
-- succeeds and that sum is the length in the header; otherwise it fails.
pub lf_create_call-total :
    (module' ret : ℕ) (args : List Arg) (packet : List ℕ)
    → length packet ≡ 64
    → length args % 256 ≤ 16
    → (status : ℕ) × (packet' : List ℕ) × (lf_create_call true module' ret args packet
        ≡ some (status, packet'))
      × (length packet' ≡ 64)
      × (((status ≡ lf_success)
            × (peek packet' 3 2 ≡ some (to_le 2 (20 + length args % 256 + total (counted args)))))
          ⊎ ((status ≡ lf_error) × (58 < 20 + length args % 256 + total (counted args))))
unfolding lf_create_call
lf_create_call-total module' ret args packet size few =
    let argc : ℕ = length args % 256 in
    let head : List ℕ = module' % 256 ∷ 0 ∷ ret ∷ argc ∷ [] in
    let counts : length (counted args) ≡ argc =
      length-take (length args % 256) args (omega arith) in
    let (p0, w0, _, l0) = poke_fits packet 6 head (omega arith) in
    let filled =
      create_loop-Filled (counted args) p0 0 26 (call_size + argc) (l0 ∙ size) (omega arith)
        (omega arith) (omega arith) in
    elim filled.outcome [
      | inl (good, sum) ↦
          let (p2, w2, _, l2) = poke_fits filled.packet 5 (0 ∷ []) (omega (arith, filled.whole)) in
          let len : List ℕ = to_le 2 filled.size' in
          let (p3, w3, reads, l3) =
            poke_fits p2 3 len (omega (arith, filled.whole, l2, length-to_le 2 filled.size')) in
          (
            lf_success,
            p3,
            rw (w0, filled.run, good, w2, w3, lf_create_call) refl,
            l3 ∙ l2 ∙ filled.whole,
            inl (refl, (rw (length-to_le 2 filled.size') at reads) ∙ rw sum refl),
          )
      | inr (bad, sum) ↦ (
        lf_error,
        filled.packet,
        rw (w0, filled.run, bad, lf_create_call) refl,
        filled.whole,
        inr (refl, omega arith),
      )
    ]
