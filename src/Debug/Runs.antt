-- ===== src/Debug/Runs.antt =====
-- Tests of lib/debug.c on concrete inputs.
use flipper.Prelude.{ℕ, ◌≡◌, refl, List, [], ◌∷◌, ◌++◌, none, some, replicate, take, arith}
use flipper.Prelude.Bytes.{peek, poke, to_le, of_le}
use flipper.Prelude.Outcome.{done, fault}
use flipper.Crc.{calcrc, lf_crc}
use flipper.Device.Sample.{board, pair}
use flipper.Fmr.{lf_sizeof, field}
use flipper.Call.{total}
use flipper.Client.{invoke_packet, args_loop, seal}
use flipper.Client.RoundTrip.{Fits}
use flipper.Debug.{
  exec, packet_text, invalid_magic, class_string, type_string, lf_debug_call, payload, level_all,
  lf_debug_packet,
}
use flipper.Debug.Print.{type_texts, arg_texts, lf_debug_packet-invoke_packet}

-- the packet that calls the first function of the first module with 300 and 7
abbrev packet : List ℕ
packet =
    254 ∷ 18 ∷ 142 ∷ 31 ∷ 0 ∷ 0 ∷ 0 ∷ 0 ∷ 4 ∷ 2 ∷ 17 ∷ 16 ∷ replicate 14 0
    ++ 44 ∷ 1 ∷ 7 ∷ replicate 35 0

built : invoke_packet 0 0 4 pair ≡ some packet
unfolding invoke_packet args_loop seal lf_crc calcrc poke to_le lf_sizeof
built = refl

pair-Fits : Fits pair
unfolding total lf_sizeof
pair-Fits = record {
  count = omega arith;
  room = omega arith;
  small = (omega arith, (omega arith, tt));
}

lf_debug_packet-invoke_packet_example :
    (crc len : ℕ) × (dump : List ℕ) × (lf_debug_packet level_all (board (packet ++ 9 ∷ []))
      ≡ done
          (some (packet_text crc len 0 (exec 0 0 4 (type_texts pair) (arg_texts pair)) dump))
          (board (packet ++ 9 ∷ [])))
    × (take len packet ≡ dump)
lf_debug_packet-invoke_packet_example =
    lf_debug_packet-invoke_packet (board (packet ++ 9 ∷ [])) 0 0 4 pair packet (9 ∷ []) pair-Fits
      (omega arith, (omega arith, tt)) (omega arith) built refl

-- a packet without the magic number, one at a lower level, and a call whose result has no name
not_magic :
    lf_debug_packet level_all (board (7 ∷ [])) ≡ done (some (invalid_magic 7)) (board (7 ∷ []))
unfolding lf_debug_packet field peek of_le
not_magic = refl

silent : lf_debug_packet 2 (board (7 ∷ [])) ≡ done none (board (7 ∷ []))
unfolding lf_debug_packet
silent = refl

no_name :
    lf_debug_packet level_all (board (254 ∷ 0 ∷ 0 ∷ 6 ∷ 0 ∷ 0 ∷ 0 ∷ 0 ∷ 32 ∷ replicate 55 0))
    ≡ fault
unfolding lf_debug_packet lf_debug_call payload class_string type_string field peek of_le
no_name = refl
