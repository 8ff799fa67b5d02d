-- ===== src/Fvm/Fault.antt =====
-- utils/fvm/src/main.c and lib/debug.c: datagrams that the server prints before it looks at their checksum.
use flipper.Prelude.{
  ℕ, suc, ◌≤◌, ◌≡◌, refl, sym, ap, ◌∙◌, List, [], ◌∷◌, ◌++◌, true, false, take, drop,
  drop-length-append, length, length-append, arith, ltb,
}
use flipper.Prelude.Bytes.{peek_in, to_le, of_le}
use flipper.Prelude.Outcome.{done, fault, pure, ◌>>◌}
use flipper.Device.{Device, Cmd}
use flipper.Fmr.{fmr_magic_number, fmr_packet_size, field, fmr_perform}
use flipper.Fmr.Checksum.{message, length-message}
use flipper.Fmr.Rpc.{byte_in}
use flipper.Debug.{level_all, class_string, lf_debug_packet}
use flipper.Network.{Address, Context, context, datagram, Network}
use flipper.Fvm.{Host, platform, fill, handle, serve}
use flipper.Fvm.Serve.{received, serve-datagram, fill-whole}

module _ {E : Type 0} where
  field_bytes :
      (d : Device E) (offset n : ℕ) (xs bs ys : List ℕ)
      → d.packet ≡ xs ++ (bs ++ ys)
      → length xs ≡ offset
      → length bs ≡ n
      → field offset n d ≡ done (of_le bs) d
  unfolding field
  field_bytes d offset n xs bs ys e o l = rw (peek_in xs bs ys e o l) refl

  -- A packet with the magic number and a class that has no name cannot be printed.
  lf_debug_packet-fault :
      (d : Device E) (a b l k class : ℕ) (more : List ℕ)
      → d.packet ≡ fmr_magic_number ∷ a ∷ b ∷ l ∷ k ∷ class ∷ more
      → 6 ≤ class
      → lf_debug_packet level_all d ≡ fault
  unfolding lf_debug_packet class_string field
  lf_debug_packet-fault d a b l k class more e large =
      let unnamed : ltb class 6 ≡ false = ground arith in
      let m = fmr_magic_number in
      rw
        (
          byte_in d 0 m [] (a ∷ b ∷ l ∷ k ∷ class ∷ more) e refl,
          field_bytes d 1 2 (m ∷ []) (a ∷ b ∷ []) (l ∷ k ∷ class ∷ more) e refl refl,
          field_bytes d 3 2 (m ∷ a ∷ b ∷ []) (l ∷ k ∷ []) (class ∷ more) e refl refl,
          byte_in d 5 class (m ∷ a ∷ b ∷ l ∷ k ∷ []) more e refl,
          unnamed,
        )
        refl

module _ {E : Type 0} (h : Host E) (plugins : ℕ → Cmd (Network E) (ℕ × ℕ)) where
  -- A server with a context that gets a datagram with the magic number whose sixth byte is 6 or more reads past the
  -- names of the classes, whatever the checksum, the length and the rest of the datagram are.
  pub serve-unknown_class :
      (d : Device (Network E)) (ctx : Context) (from : Address) (env' : E) (a b l k class : ℕ)
      (more : List ℕ)
      → d.env.endpoint ≡ context ctx
      → h.sockets.recvfrom ctx.fd fmr_packet_size d.env.env
        ≡ (datagram (fmr_magic_number ∷ a ∷ b ∷ l ∷ k ∷ class ∷ more) from, env')
      → 6 ≤ class
      → serve h plugins d ≡ fault
  unfolding handle
  serve-unknown_class d ctx from env' a b l k class more at got large =
      let bs : List ℕ = fmr_magic_number ∷ a ∷ b ∷ l ∷ k ∷ class ∷ more in
      let v : Device (Network E) =
        received h plugins d ctx from env' (fill h plugins bs (h.garbage env')) in
      serve-datagram h plugins d ctx bs from env' at got
      ∙ rw
          (
            lf_debug_packet-fault v a b l k class
                (take 58 more
                  ++ drop (suc (suc (suc (suc (suc (suc (length (take 58 more))))))))
                      (h.garbage env'))
                refl large,
            handle,
          )
          refl

  -- What is done with a datagram depends on the bytes of the packet that it leaves.
  handle-fill :
      (d : Device (Network E)) (ctx : Context) (from : Address) (bs cs : List ℕ)
      → fill h plugins bs (h.garbage d.env.env) ≡ fill h plugins cs (h.garbage d.env.env)
      → handle h plugins ctx (datagram bs from) d ≡ handle h plugins ctx (datagram cs from) d
  unfolding handle
  handle-fill d ctx from bs cs e =
      ap
        (λ q.
          (do lf_debug_packet level_all; fmr_perform (platform h) plugins true; pure tt)
            (record d {
              packet = q;
              env = record d.env { endpoint = context (record ctx { addr = from }) };
            }))
        e

  fill-short :
      (crc type : ℕ) (more rest beyond : List ℕ)
      → fill h plugins (fmr_magic_number ∷ to_le 2 crc) ((message 0 type more ++ rest) ++ beyond)
        ≡ (message crc type more ++ rest) ++ beyond
  unfolding to_le
  fill-short crc type more rest beyond = refl

  length-swap :
      (crc type : ℕ) (more rest : List ℕ)
      → length (message crc type more ++ rest) ≡ length (message 0 type more ++ rest)
  length-swap crc type more rest = omega (
    arith,
    length-append {0} (message crc type more) rest,
    length-append {0} (message 0 type more) rest,
    length-message crc type more,
    length-message 0 type more,
  )

  -- When a message that has been performed, with its checksum field zeroed, still stands in the memory that the packet of the
  -- next turn of a server gets, and the message with what stands behind it has 64 bytes, then a datagram of just the magic number and the
  -- checksum is handled as the whole message: the length that `recvfrom` returns is not looked at.
  pub handle-replay :
      (d : Device (Network E)) (ctx : Context) (from : Address) (crc type : ℕ)
      (more rest beyond : List ℕ)
      → h.garbage d.env.env ≡ (message 0 type more ++ rest) ++ beyond
      → length (message 0 type more ++ rest) ≡ 64
      → handle h plugins ctx (datagram (fmr_magic_number ∷ to_le 2 crc) from) d
        ≡ handle h plugins ctx (datagram (message crc type more ++ rest) from) d
  handle-replay d ctx from crc type more rest beyond left whole =
      let sent : List ℕ = message crc type more ++ rest in
      let over : drop 64 ((message 0 type more ++ rest) ++ beyond) ≡ beyond =
        ap (λ n. drop n ((message 0 type more ++ rest) ++ beyond)) (sym whole)
        ∙ drop-length-append (message 0 type more ++ rest) beyond in
      handle-fill d ctx from (fmr_magic_number ∷ to_le 2 crc) sent (
        rw left (
          fill-short crc type more rest beyond
          ∙ ap (λ t. sent ++ t) (sym over)
          ∙ sym (
              fill-whole h plugins sent ((message 0 type more ++ rest) ++ beyond)
                (length-swap crc type more rest ∙ whole))))
