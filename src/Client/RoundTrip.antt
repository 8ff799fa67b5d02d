-- ===== src/Client/RoundTrip.antt =====
-- lib/libflipper.c: the packet that lf_invoke_by_index sends is a message that carries its arguments.
use flipper.Prelude.{
  ℕ, ◌+◌, ◌%◌, ◌≤◌, ◌<◌, ◌≡◌, refl, sym, ap, ◌∙◌, List, [], ◌∷◌, ◌++◌, append_assoc, some, length,
  length-append, replicate, take, arith, All,
}
use flipper.Prelude.Bytes.{poke, to_le, length-to_le, poke_in, split_at}
use mathlib.Core.Path.{subst}
use flipper.Device.{Arg}
use flipper.Dyld.{cleared}
use flipper.Fmr.{fmr_magic_number}
use flipper.Fmr.Args.{Holds}
use flipper.Fmr.Checksum.{message, crc_of, length-message, lf_crc-message}
use flipper.Call.{total}
use flipper.Client.{args_loop, seal, invoke_packet}
use flipper.Client.Layout.{
  types, values, length-types, length-values, layout, layout-Holds, args_loop-layout,
}

-- Arguments that a packet has room for. The length in the header counts them twice, so that the checksum
-- reaches as many bytes behind the values; those have to be in the packet too.
pub record Fits (args : List Arg) : Type 0 where
  pub count : length args ≤ 16
  pub room : length args + total args ≤ 38
  pub small : All (λ a. a.type < 256) args

-- A packet that is a message of class 0 for a call, with the arguments in its arrays. What stands behind
-- the packet in memory is `beyond`.
pub record IsCall (idx function ret : ℕ) (args : List Arg) (packet : List ℕ) : Type 0 where
  pub tail : List ℕ
  pub rest : List ℕ
  pub size : length tail + 10 < 65536
  pub bytes : length packet ≡ 64
  pub sent :
      let more : List ℕ = idx % 256 ∷ function ∷ ret ∷ length args ∷ tail in
      packet ≡ message (crc_of 0 more) 0 more ++ rest
  pub holds :
      (crc : ℕ) (beyond : List ℕ)
      → Holds
          (message crc 0 (idx % 256 ∷ function ∷ ret ∷ length args ∷ tail) ++ (rest ++ beyond))
          0
          26
          args

take-all : (args : List Arg) (n : ℕ) → n ≡ length args → take n args ≡ args
take-all args n e = rw e (whole args)
  where
    whole : (args : List Arg) → take (length args) args ≡ args
    whole [] = refl
    whole (a ∷ as') = ap (λ t. a ∷ t) (whole as')

-- The zeros of the two arrays, cut where the loop writes and where the checksum ends.
record Zeros (args : List Arg) : Type 0 where
  os : List ℕ
  unused : List ℕ
  ws : List ℕ
  covered : List ℕ
  rest : List ℕ
  whole : replicate 54 0 ≡ os ++ (unused ++ (ws ++ (covered ++ rest)))
  os_size : length os ≡ length args
  unused_size : length unused + length args ≡ 16
  ws_size : length ws ≡ total args
  covered_size : length covered ≡ length args

zeros : (args : List Arg) → Fits args → Zeros args
zeros args fits =
    let (os, unused, e1, l1) =
      split_at (length args) (replicate 16 0) (omega (arith, fits.count)) in
    let (ws, left, e2, l2) = split_at (total args) (replicate 38 0) (omega (arith, fits.room)) in
    let (covered, rest, e3, l3) =
      split_at (length args) left
        (omega (arith, fits.room, length-append {0} ws left, ap length e2)) in
    record {
      os = os;
      unused = unused;
      ws = ws;
      covered = covered;
      rest = rest;
      whole =
          ap (λ t. t ++ replicate 38 0) e1
          ∙ ap (λ t. (os ++ unused) ++ t) (e2 ∙ ap (λ t. ws ++ t) e3)
          ∙ append_assoc os unused (ws ++ (covered ++ rest));
      os_size = l1;
      unused_size = omega (arith, length-append {0} os unused, ap length e1);
      ws_size = l2;
      covered_size = l3;
    }

module _ (idx function ret : ℕ) (args : List Arg) (fits : Fits args) (z : Zeros args) where
  -- the ten bytes of the headers before the length and the checksum are known
  abbrev head : List ℕ
  head = fmr_magic_number ∷ 0 ∷ 0 ∷ 0 ∷ 0 ∷ 0 ∷ idx % 256 ∷ function ∷ ret ∷ length args % 256 ∷ []

  abbrev filled : List ℕ
  filled = types args ++ (z.unused ++ (values args ++ z.covered))

  abbrev more : List ℕ
  more = idx % 256 ∷ function ∷ ret ∷ length args ∷ filled

  start : poke cleared 0 head ≡ some (head ++ replicate 54 0)
  unfolding poke
  start = refl

  length-packet : length (message (crc_of 0 more) 0 more ++ z.rest) ≡ 64
  length-packet =
      let os = z.os in
      omega (
        arith,
        length-append {0} (message (crc_of 0 more) 0 more) z.rest,
        length-message (crc_of 0 more) 0 more,
        length-append {0} (types args) (z.unused ++ (values args ++ z.covered)),
        length-append {0} z.unused (values args ++ z.covered),
        length-append {0} (values args) z.covered,
        length-types args,
        length-values args,
        ap length z.whole,
        length-append {0} os (z.unused ++ (z.ws ++ (z.covered ++ z.rest))),
        length-append {0} z.unused (z.ws ++ (z.covered ++ z.rest)),
        length-append {0} z.ws (z.covered ++ z.rest),
        length-append {0} z.covered z.rest,
        z.os_size,
        z.ws_size,
      )

  count_small : length args % 256 ≡ length args
  count_small = omega (arith, fits.count)

  length-filled : length filled + 10 ≡ 26 + length args + total args
  length-filled = omega (
    arith,
    fits.count,
    z.unused_size,
    z.covered_size,
    length-append {0} (types args) (z.unused ++ (values args ++ z.covered)),
    length-append {0} z.unused (values args ++ z.covered),
    length-append {0} (values args) z.covered,
    length-types args,
    length-values args,
  )

  size-more : 26 + length args + total args ≡ length more + 6
  size-more = omega (arith, length-filled)

  looped :
      args_loop 0 26 (26 + length args % 256) args (head ++ replicate 54 0)
      ≡ some (26 + length args + total args, head ++ (filled ++ z.rest))
  looped =
      ap (λ k. args_loop 0 26 (26 + k) args (head ++ replicate 54 0)) count_small
      ∙ rw z.whole (
          args_loop-layout head [] z.os z.unused [] z.ws (z.covered ++ z.rest) args 0 26
            (26 + length args) refl refl z.os_size (omega (arith, z.unused_size, z.os_size))
            z.ws_size (omega (arith, fits.room)) (omega (arith, fits.count))
          ∙ ap (λ t. some (26 + length args + total args, head ++ t)) (simp append_assoc))

  sized :
      poke (head ++ (filled ++ z.rest)) 3 (to_le 2 (26 + length args + total args))
      ≡ some (message 0 0 more ++ z.rest)
  unfolding to_le
  sized =
      poke_in (fmr_magic_number ∷ 0 ∷ 0 ∷ []) (0 ∷ 0 ∷ []) (to_le 2 (26 + length args + total args))
        (0 ∷ (idx % 256 ∷ function ∷ ret ∷ (length args % 256) ∷ (filled ++ z.rest))) refl refl refl
      ∙ rw (size-more, count_small)

  sealed :
      seal (26 + length args + total args) (message 0 0 more ++ z.rest)
      ≡ some (message (crc_of 0 more) 0 more ++ z.rest)
  unfolding seal to_le
  sealed =
      let back = to_le 2 (length more + 6) ++ (to_le 1 0 ++ (more ++ z.rest)) in
      let crc : List ℕ = to_le 2 (crc_of 0 more) in
      rw (size-more, lf_crc-message 0 more z.rest, seal)
        (poke_in (fmr_magic_number ∷ []) (to_le 2 0) crc back (simp append_assoc) refl
            (length-to_le 2 0 ∙ sym (length-to_le 2 (crc_of 0 more)))
          ∙ ap some (simp append_assoc))

  built : invoke_packet idx function ret args ≡ some (message (crc_of 0 more) 0 more ++ z.rest)
  unfolding invoke_packet
  built =
      rw
        (start, take-all args (length args % 256) count_small, looped, sized, sealed, invoke_packet)

  held : (crc : ℕ) (beyond : List ℕ) → Holds (message crc 0 more ++ (z.rest ++ beyond)) 0 26 args
  held crc beyond =
      let front : List ℕ =
        fmr_magic_number
        ∷ (to_le 2 crc
            ++ (to_le 2 (length more + 6)
                ++ (to_le 1 0 ++ (idx % 256 ∷ function ∷ ret ∷ length args ∷ [])))) in
      let ten : length front ≡ 10 = unfold to_le in refl in
      let whole = z.covered ++ (z.rest ++ beyond) in
      let same : layout front (types args) z.unused (values args) whole
          ≡ message crc 0 more ++ (z.rest ++ beyond) =
        simp append_assoc in
      subst (λ m. Holds m 0 26 args) same
        (layout-Holds front [] z.unused [] whole args 0 26 ten refl
          (omega (arith, z.unused_size, length-types args)) fits.small)

-- For arguments that the packet has room for, lf_invoke_by_index builds a packet without a fault, and it is
-- a message of class 0 with its own checksum whose payload is the index of the module, the function, the
-- type of the result and the arguments. It has 64 bytes with what stands behind the message.
pub invoke_packet-IsCall :
    (idx function ret : ℕ) (args : List Arg)
    → Fits args
    → (packet : List ℕ) × (invoke_packet idx function ret args ≡ some packet)
      × IsCall idx function ret args packet
invoke_packet-IsCall idx function ret args fits =
    let z = zeros args fits in
    (
      message (crc_of 0 (more idx function ret args fits z)) 0 (more idx function ret args fits z)
          ++ z.rest,
      built idx function ret args fits z,
      record {
        tail = filled idx function ret args fits z;
        rest = z.rest;
        size = omega (arith, length-filled idx function ret args fits z, fits.room, fits.count);
        bytes = length-packet idx function ret args fits z;
        sent = refl;
        holds = held idx function ret args fits z;
      },
    )
