-- ===== src/Fvm/Session.antt =====
-- utils/fvm/src/main.c and lib/libflipper.c: a client and the server, with the network between them.
use flipper.Prelude.{
  ℕ, suc, ◌%◌, ◌^◌, ◌<◌, ◌≡◌, refl, sym, ap, ◌∙◌, List, ◌++◌, Option, some, true, false, take,
  length, get_elem?, arith, ltb, ◌==◌,
}
use flipper.Prelude.Bytes.{to_le, of_le, of_le-to_le}
use flipper.Prelude.Outcome.{done}
use flipper.Error.{lf_success}
use flipper.Device.{Arg, Function, Module, rpc, Device, Cmd}
use flipper.Fmr.{fmr_packet_size}
use flipper.Fmr.Args.{Allocates}
use flipper.Fmr.Rpc.{returned, after}
use flipper.Debug.Print.{AreNamed}
use flipper.Dyld.{result_of}
use flipper.Client.{invoke_packet, exchange_by_index}
use flipper.Client.RoundTrip.{Fits, invoke_packet-IsCall}
use flipper.Network.{Address, Context, context, datagram, Network, lf_network_write}
use flipper.Network.Exchange.{Tried, lf_network_read-Tried}
use flipper.Fvm.{Host, platform, serve}
use flipper.Fvm.Serve.{Answers, IsLocal, running, received, serve-Answers}

module _ {E : Type 0} (h : Host E) where
  lf_network_write-done :
      (src : List ℕ) (n : Network E) (ctx : Context) (m : ℕ) (env' : E)
      → n.endpoint ≡ context ctx
      → 0 < ctx.addr.ip
      → 0 < ctx.addr.port
      → h.sockets.sendto ctx.fd src ctx.addr n.env ≡ (suc m, env')
      → lf_network_write h.sockets src n
        ≡ done lf_success (record n { endpoint = context ctx; env = env' })
  unfolding lf_network_write
  lf_network_write-done src n ctx m env' at ip port sent =
      let ip' : (ctx.addr.ip == 0) ≡ false = ground arith in
      let port' : (ctx.addr.port == 0) ≡ false = ground arith in
      let sends : ltb 0 (suc m) ≡ true = ground arith in rw (at, ip', port', sent, sends) refl

  -- The client sends a packet, and what it receives in time is a result.
  exchange_by_index-result :
      (d : Device (Network E)) (ctx : Context) (packet : List ℕ) (m again value error : ℕ)
      (from : Address) (env' env'' : E)
      → d.env.endpoint ≡ context ctx
      → 0 < ctx.addr.ip
      → 0 < ctx.addr.port
      → h.sockets.sendto ctx.fd packet ctx.addr d.env.env ≡ (suc m, env')
      → Tried h.sockets ctx.fd 9 again env' (datagram (to_le 8 value ++ to_le 1 error) from) env''
      → again < 5
      → exchange_by_index (platform h) packet d
        ≡ done (some (value % 256 ^ 8)) (record d {
          env = record d.env { endpoint = context (record ctx { addr = from }); env = env'' };
        })
  unfolding exchange_by_index to_le
  exchange_by_index-result d ctx packet m again value error from env' env'' at ip port sent tried
        soon =
      let reply : List ℕ = to_le 8 value ++ to_le 1 error in
      let n1 : Network E = record d.env { endpoint = context ctx; env = env' } in
      let written = lf_network_write-done packet d.env ctx m env' at ip port sent in
      let read =
        lf_network_read-Tried h.sockets again 9 n1 ctx (datagram reply from) env'' refl tried soon
          (λ i. absurd cc) in
      let result : List ℕ = result_of reply ((platform h).garbage n1) in
      let value' : of_le (take 8 result) ≡ value % 256 ^ 8 = of_le-to_le 8 value in
      rw (written, read, value') refl

-- The network between a client and the server. The environment of the client has the device of the server, which the
-- client's datagrams change only by what the server will receive. A datagram of the client is sent whole; the
-- server's `recvfrom` gives it with the address of the client. `recvfrom` of the client waits for the turn of the server, and
-- gives the datagram that this turn has sent last to the address of the client.
pub record Between {E E' : Type 0} (hs : Host E) (hc : Host E')
    (plugins : ℕ → Cmd (Network E) (ℕ × ℕ)) (fd sd : Option ℕ) (client server : Address)
    : Type 0 where
  pub device : E' → Device (Network E)
  pub posted : List ℕ → E' → E'
  pub inbox : List ℕ → E → E
  pub replied : E' → Device (Network E) → E'
  pub sends : (bs : List ℕ) (e : E') → hc.sockets.sendto fd bs server e ≡ (length bs, posted bs e)
  pub delivers :
      (bs : List ℕ) (e : E')
      → device (posted bs e)
        ≡ record (device e) { env = record (device e).env { env = inbox bs (device e).env.env } }
  pub receives :
      (bs : List ℕ) (x : E)
      → length bs ≡ fmr_packet_size
      → hs.sockets.recvfrom sd fmr_packet_size (inbox bs x) ≡ (datagram bs client, x)
  pub answers :
      (e : E') (d' : Device (Network E)) (bs : List ℕ) (x : E)
      → serve hs plugins (device e) ≡ done tt d'
      → d'.env.env ≡ (hs.sockets.sendto sd bs client x).1
      → length bs ≡ 9
      → hc.sockets.recvfrom fd 9 e ≡ (datagram bs server, replied e d')

module _ {E E' : Type 0} (hs : Host E) (hc : Host E') (plugins : ℕ → Cmd (Network E) (ℕ × ℕ)) where
  -- With a network that carries datagrams between a client and the server, as Between has it, let the client build the packet
  -- of a call, for arguments that it has room for and whose types have names, as the type of the result does. Let the client
  -- have a context with the address of the server, and the server a context, a dispatcher of class 0 that is fmr_rpc, memory,
  -- and at the index (below 256) a module with the function, which leaves the transport alone; the addresses have an
  -- internet address and a port. Then a turn of the server performs what the client has sent: the function runs once on
  -- arguments of the same types whose values agree on the bytes of their types. And the exchange of the client succeeds
  -- with the value that the function returned there, modulo 2 ^ 64, whatever error the answer has.
  pub exchange_by_index-Answers :
      (dc : Device (Network E')) (own ctx : Context) (client : Address)
      (net : Between hs hc plugins own.fd ctx.fd client own.addr) (m : Module (Network E))
      (f : Function (Network E)) (args : List Arg) (idx function ret : ℕ) (packet : List ℕ)
      → Fits args
      → AreNamed args
      → ret < 32
      → Allocates (platform hs)
      → invoke_packet idx function ret args ≡ some packet
      → dc.env.endpoint ≡ context own
      → 0 < own.addr.ip
      → 0 < own.addr.port
      → 0 < client.ip
      → 0 < client.port
      → (net.device dc.env.env).env.endpoint ≡ context ctx
      → get_elem? (net.device dc.env.env).registry 0 ≡ some (some rpc)
      → get_elem? (net.device dc.env.env).modules (idx % 256) ≡ some m
      → function < m.length
      → get_elem? m.table function ≡ some f
      → IsLocal f
      → (z : Device (Network E)) × (a : Answers hs plugins
          (net.device (net.posted packet dc.env.env))
          z
          f
          args
          (record ctx { addr = client }))
        × (dc' : Device (Network E')) × (exchange_by_index (platform hc) packet dc
            ≡ done (some (returned (platform hs) plugins f args z a.called % 256 ^ 8)) dc')
        × (dc'.modules ≡ dc.modules)
  exchange_by_index-Answers dc own ctx client net m f args idx function ret packet fits named small
        ok built at ip port ip' port' there registered hm hl hf local =
      let (packet', built', call) = invoke_packet-IsCall idx function ret args fits in
      let size : length packet ≡ 64 = ap length (some_eq (sym built ∙ built')) ∙ call.bytes in
      let e0 = dc.env.env in
      let e1 = net.posted packet e0 in
      let same = net.delivers packet e0 in
      let x0 = (net.device e0).env.env in
      let got : hs.sockets.recvfrom ctx.fd 64 (net.device e1).env.env
          ≡ (datagram packet client, x0) =
        ap (λ d. hs.sockets.recvfrom ctx.fd 64 d.env.env) same ∙ net.receives packet x0 size in
      let (held, a) =
        serve-Answers hs plugins (net.device e1) m f args idx function ret packet ctx client x0 fits
          named small ok built (ap (λ d. d.env.endpoint) same ∙ there) got ip' port'
          (ap (λ d. get_elem? d.registry 0) same ∙ registered)
          (ap (λ d. get_elem? d.modules (idx % 256)) same ∙ hm) hl hf local in
      let z = running hs plugins (received hs plugins (net.device e1) ctx client x0 held) in
      let value = returned (platform hs) plugins f args z a.called in
      let w = after (platform hs) plugins f args z a.called in
      let sent : hc.sockets.sendto own.fd packet own.addr e0 ≡ (suc 63, e1) =
        net.sends packet e0 ∙ ap (λ n. (n, e1)) size in
      let answered =
        net.answers e1 a.d' (to_le 8 value ++ to_le 1 w.err) w.env.env a.run a.sent
          (unfold to_le in refl) in
      (
        z,
        a,
        _,
        exchange_by_index-result hc dc own packet 63 0 value w.err own.addr e1 (net.replied e1 a.d')
            at ip port sent answered (omega arith),
        refl,
      )
    where
      some_eq : {a b : List ℕ} → some a ≡ some b → a ≡ b
      some_eq e = cc
