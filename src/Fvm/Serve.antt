-- ===== src/Fvm/Serve.antt =====
-- utils/fvm/src/main.c: the loop of the server, with the packets of lib/libflipper.c and the transport of
-- platforms/posix/src/network.c.
use flipper.Prelude.{
  ℕ, ◌<◌, ◌≡◌, refl, sym, ap, ◌∙◌, List, [], ◌++◌, some, true, false, length, take,
  take-length-append, append-nil, drop, get_elem?, arith, ◌==◌, ltb, Bool-cases, inl, inr, ◌%◌,
}
use flipper.Prelude.Bytes.{to_le}
use flipper.Prelude.Outcome.{done}
use flipper.Error.{e_ok}
use flipper.Device.{Arg, Function, Module, rpc, Device, Cmd}
use flipper.Fmr.{fmr_packet_size}
use flipper.Fmr.Args.{Allocates}
use flipper.Fmr.Rpc.{Called, returned, after}
use flipper.Fmr.Frame.{IsApart, after-view}
use flipper.Debug.Print.{AreNamed, lf_debug_packet-invoke_packet}
use flipper.Client.{invoke_packet}
use flipper.Client.RoundTrip.{Fits, invoke_packet-IsCall}
use flipper.Client.Received.{invoke_packet-Performs}
use flipper.Network.{Address, Context, context, datagram, Network, lf_network_write}
use flipper.Fvm.{Host, platform, fill, handle, serve}

-- A function of a module that leaves the transport to the server.
abbrev pub IsLocal : {E : Type 0} → Function (Network E) → Type 0
IsLocal {E} f = (args : List Arg) (n : Network E) (err : ℕ) → (f args n err).1.endpoint ≡ n.endpoint

module _ {E : Type 0} (h : Host E) where
  -- The memory of the server has nothing to do with its transport.
  memory-apart : IsApart (platform h) (λ n. n.endpoint)
  memory-apart = (λ size n. refl, λ at n. refl)

  -- A reply over the transport goes to the address of the context.
  settle-sent :
      (bs : List ℕ) (n : Network E) (ctx : Context)
      → n.endpoint ≡ context ctx
      → 0 < ctx.addr.ip
      → 0 < ctx.addr.port
      → let n' = ((platform h).write bs n).1 in
        (n'.env ≡ (h.sockets.sendto ctx.fd bs ctx.addr n.env).1) × (n'.endpoint ≡ context ctx)
  unfolding lf_network_write
  settle-sent bs n ctx at ip port =
      let ip' : (ctx.addr.ip == 0) ≡ false = ground arith in
      let port' : (ctx.addr.port == 0) ≡ false = ground arith in
      elim (Bool-cases (ltb 0 (h.sockets.sendto ctx.fd bs ctx.addr n.env).0)) [
        | inl some_bytes ↦ rw (at, ip', port', some_bytes) (refl, refl)
        | inr no_bytes ↦ rw (at, ip', port', no_bytes) (refl, refl)
      ]

  module _ (plugins : ℕ → Cmd (Network E) (ℕ × ℕ)) where
    -- the device when `recvfrom` has given a datagram: its sender is the address of the context
    abbrev pub received : Device (Network E) → Context → Address → E → List ℕ → Device (Network E)
    received d ctx from env' bs = record d {
      packet = bs;
      env = record d.env { endpoint = context (record ctx { addr = from }); env = env' };
    }

    -- the state while a function of the message runs
    abbrev pub running : Device (Network E) → Device (Network E)
    running d = record d { err = e_ok; current = true }

    -- What a turn of the loop makes of a call: the function runs once on arguments that carry the caller's,
    -- and the last that goes to the system is the reply, to the address.
    pub record Answers (d z : Device (Network E)) (f : Function (Network E)) (args : List Arg)
        (ctx : Context) : Type 0 where
      pub called : Called (platform h) plugins f args z
      pub d' : Device (Network E)
      pub run : serve h plugins d ≡ done tt d'
      pub sent :
          let v = after (platform h) plugins f args z called in
          let value = returned (platform h) plugins f args z called in
          d'.env.env
          ≡ (h.sockets.sendto ctx.fd (to_le 8 value ++ to_le 1 v.err) ctx.addr v.env.env).1
      pub ready : d'.env.endpoint ≡ context ctx

    pub fill-whole :
        (bs before : List ℕ) → length bs ≡ 64 → fill h plugins bs before ≡ bs ++ drop 64 before
    fill-whole bs before e =
        let all : take 64 bs ≡ bs =
          ap (λ n. take n bs) (sym e)
          ∙ ap (take (length bs)) (sym (append-nil bs))
          ∙ take-length-append bs [] in
        rw (all, e) refl

    pub serve-datagram :
        (d : Device (Network E)) (ctx : Context) (bs : List ℕ) (from : Address) (env' : E)
        → d.env.endpoint ≡ context ctx
        → h.sockets.recvfrom ctx.fd fmr_packet_size d.env.env ≡ (datagram bs from, env')
        → serve h plugins d
          ≡ handle h plugins ctx (datagram bs from) (record d { env = record d.env { env = env' } })
    unfolding serve
    serve-datagram d ctx bs from env' at got = rw (at, got) refl

    -- A client builds the packet of a call, for arguments that it has room for and whose types have names, as the
    -- type of the result does. When a server with a context, whose dispatcher of class 0 is fmr_rpc, which has memory
    -- and at the index (below 256) a module with the function, gets the packet as a datagram from an address with
    -- an internet address and a port, its turn of the loop ends without a fault. The function, which leaves the transport alone,
    -- has run once on arguments of the same types whose values agree on the bytes of their types, and what the system is
    -- given last is its value with the error that it left, for that address.
    pub serve-Answers :
        (d : Device (Network E)) (m : Module (Network E)) (f : Function (Network E))
        (args : List Arg) (idx function ret : ℕ) (packet : List ℕ) (ctx : Context) (from : Address)
        (env' : E)
        → Fits args
        → AreNamed args
        → ret < 32
        → Allocates (platform h)
        → invoke_packet idx function ret args ≡ some packet
        → d.env.endpoint ≡ context ctx
        → h.sockets.recvfrom ctx.fd fmr_packet_size d.env.env ≡ (datagram packet from, env')
        → 0 < from.ip
        → 0 < from.port
        → get_elem? d.registry 0 ≡ some (some rpc)
        → get_elem? d.modules (idx % 256) ≡ some m
        → function < m.length
        → get_elem? m.table function ≡ some f
        → IsLocal f
        → (held : List ℕ) × Answers d
            (running (received d ctx from env' held))
            f
            args
            (record ctx { addr = from })
    unfolding handle
    serve-Answers d m f args idx function ret packet ctx from env' fits named small ok built at got
          ip port registered hm hl hf local =
        let (packet', built', call) = invoke_packet-IsCall idx function ret args fits in
        let size : length packet ≡ 64 = ap length (some_eq (sym built ∙ built')) ∙ call.bytes in
        let ctx' : Context = record ctx { addr = from } in
        let before : List ℕ = h.garbage env' in
        let beyond : List ℕ = drop 64 before in
        let filled : List ℕ = fill h plugins packet before in
        let whole : filled ≡ packet ++ beyond = fill-whole packet before size in
        let v = received d ctx from env' filled in
        let (crc, len, dump, printed, same) =
          lf_debug_packet-invoke_packet v idx function ret args packet beyond fits named small built
            whole in
        let r =
          invoke_packet-Performs (platform h) plugins v m f args idx function ret packet beyond fits
            ok built whole registered hm hl hf in
        let z = running (received d ctx from env' r.held) in
        let w = after (platform h) plugins f args z r.called in
        let reply : List ℕ =
          to_le 8 (returned (platform h) plugins f args z r.called) ++ to_le 1 w.err in
        let there : w.env.endpoint ≡ context ctx' =
          after-view (platform h) (λ n. n.endpoint) plugins f args z r.called memory-apart ok
            r.holds local in
        let (sent, ready) = settle-sent reply w.env ctx' there ip port in
        (
          r.held,
          record {
            called = r.called;
            d' = record w { current = false; env = ((platform h).write reply w.env).1 };
            run = serve-datagram d ctx packet from env' at got ∙ rw (printed, r.reply, handle) refl;
            sent = sent;
            ready = ready;
          },
        )
      where
        some_eq : {a b : List ℕ} → some a ≡ some b → a ≡ b
        some_eq e = cc
