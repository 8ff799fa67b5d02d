-- ===== src/Client/Received.antt =====
-- lib/libflipper.c and lib/fmr.c: the packet of lf_invoke_by_index, performed by the device that gets it.
use flipper.Prelude.{
  ℕ, ◌%◌, ◌<◌, ◌≡◌, ap, ◌∙◌, List, ◌∷◌, ◌++◌, append_assoc, some, true, false, length, get_elem?,
}
use flipper.Prelude.Outcome.{done}
use flipper.Error.{e_ok}
use flipper.Device.{Arg, Function, Module, rpc, Device, Platform, Cmd}
use flipper.Fmr.{fmr_perform}
use flipper.Fmr.Args.{Allocates, Holds}
use flipper.Fmr.Checksum.{message, crc_of, replied}
use flipper.Fmr.Rpc.{Called, returned, after, fmr_perform-Called}
use flipper.Client.{invoke_packet}
use flipper.Client.RoundTrip.{Fits, invoke_packet-IsCall}

module _ {E : Type 0} (p : Platform E) (plugins : ℕ → Cmd E (ℕ × ℕ)) where
  -- A device that gets the packet runs the function on arguments that carry the caller's, and replies with
  -- what it returned and the error that it left. `held` is the packet while the function runs.
  pub record Performs (d : Device E) (f : Function E) (args : List Arg) : Type 0 where
    pub held : List ℕ
    pub holds : Holds held 0 26 args
    pub called : Called p plugins f args (record d { packet = held; err = e_ok; current = true })
    pub reply :
        let z : Device E = record d { packet = held; err = e_ok; current = true } in
        let z' = after p plugins f args z called in
        let r =
          replied p plugins
            (record z' { current = false })
            (returned p plugins f args z called)
            z'.err in
        fmr_perform p plugins true d ≡ done r.0 r.1

  -- For arguments that the packet has room for, lf_invoke_by_index builds a packet. When it is the packet at
  -- hand of a device, whatever stands behind it, whose dispatcher of class 0 is fmr_rpc, which has a module at
  -- the index (below 256) with the function and has memory for the arguments, then fmr_perform runs this function once
  -- on arguments of the same types whose values agree on the bytes of their types, and replies with its
  -- value and the error that it left.
  pub invoke_packet-Performs :
      (d : Device E) (m : Module E) (f : Function E) (args : List Arg) (idx function ret : ℕ)
      (packet beyond : List ℕ)
      → Fits args
      → Allocates p
      → invoke_packet idx function ret args ≡ some packet
      → d.packet ≡ packet ++ beyond
      → get_elem? d.registry 0 ≡ some (some rpc)
      → get_elem? d.modules (idx % 256) ≡ some m
      → function < m.length
      → get_elem? m.table function ≡ some f
      → Performs d f args
  invoke_packet-Performs d m f args idx function ret packet beyond fits ok built here registered hm
        hl hf =
      let (packet', built', call) = invoke_packet-IsCall idx function ret args fits in
      let same : packet ≡ packet' = cc in
      let more : List ℕ = idx % 256 ∷ function ∷ ret ∷ length args ∷ call.tail in
      let whole =
        here
        ∙ ap (λ t. t ++ beyond) (same ∙ call.sent)
        ∙ append_assoc (message (crc_of 0 more) 0 more) call.rest beyond in
      let (c, reply) =
        fmr_perform-Called p plugins d m f args (idx % 256) function ret call.tail
          (call.rest ++ beyond) ok (whole, call.size) registered hm hl hf (call.holds 0 beyond) in
      record {
        held = message 0 0 more ++ (call.rest ++ beyond);
        holds = call.holds 0 beyond;
        called = c;
        reply = reply;
      }
