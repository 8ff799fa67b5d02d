-- ===== src/Fvm/Runs.antt =====
-- Tests of utils/fvm/src/main.c on concrete inputs.
use flipper.Prelude.{
  ℕ, suc, ◌%◌, ◌^◌, ◌≡◌, refl, ap, ◌∙◌, List, [], ◌∷◌, ◌++◌, none, some, Bool, true, false,
  replicate, length, arith, if◌then◌else◌, All,
}
use flipper.Prelude.Bytes.{peek, poke, to_le, of_le, bytes_eq}
use flipper.Prelude.Outcome.{Outcome, done, fault, spent}
use flipper.Crc.{calcrc, lf_crc}
use flipper.Device.{Module, Device, Cmd}
use flipper.Error.{lf_error_set}
use flipper.Fmr.{
  fmr_perform, fmr_rpc, perform_class, dispatch, invoke, module_item, rpc_args, release_args,
  send_result, fail, field,
}
use flipper.Fmr.Args.{Allocates}
use flipper.Fmr.Checksum.{message}
use flipper.Modules.Register.{Distinct}
use flipper.Call.{total}
use flipper.Client.{invoke_packet, args_loop, seal}
use flipper.Client.RoundTrip.{Fits}
use flipper.Debug.{
  class_string, type_string, call_types, call_args, lf_debug_call, payload, lf_debug_packet,
}
use flipper.Network.{
  Address, Context, no_device, context, Reception, datagram, transient, broken, Sockets, Network,
  lf_network_write,
}
use flipper.Fvm.{
  Host, Emulated, write, emulate, platform, dac_table, dac_module, load_modules, serve, serve_loop,
  start, handle,
}
use flipper.Fvm.Load.{IsKnown, IsLoaded, load_modules-IsLoaded}
use flipper.Fvm.Start.{registered, handlers, fresh, start-ready}
use flipper.Fvm.Serve.{Answers, running, received, serve-Answers}
use flipper.Client.{exchange_by_index}
use flipper.Fmr.Rpc.{returned}
use flipper.Fvm.Session.{Between, exchange_by_index-Answers}
use flipper.Fvm.Fault.{serve-unknown_class, handle-replay}

-- A system: what the next calls of `recvfrom` find, what has been sent or printed, and the last address.
abbrev Env : Type 0
Env = List Reception × List (List ℕ × Address) × ℕ

abbrev nobody : Address
nobody = record { ip = 0; port = 0 }

abbrev next : Env → Reception × Env
next ([], sent, at) = (broken, ([], sent, at))
next (r ∷ rs, sent, at) = (r, (rs, sent, at))

abbrev sockets : Sockets Env
sockets = record {
  socket = λ e. (some 7, e);
  bind = λ fd e. (0, e);
  inet_addr = λ host. none;
  recvfrom = λ fd n e. next e;
  sendto = λ fd bs to e. (length bs, (e.0, e.1 ++ (bs, to) ∷ [], e.2));
  close = λ fd e. e;
}

abbrev print : Emulated → Env → Env
print what e = (e.0, e.1 ++ ([], nobody) ∷ [], e.2)

-- a module without a name and functions, under the symbol "x"
abbrev unnamed : Module (Network Env)
unnamed = record { name = []; version = 0; idx = 65535; table = []; length = 0; state = none }

abbrev host : Host Env
host = record {
  sockets = sockets;
  malloc = λ n e. (suc e.2, (e.0, e.1, suc e.2));
  free = λ at e. e;
  garbage = λ e. replicate 8 170;
  dlopen = true;
  dlsym = λ symbol. if◌then◌else◌ (bytes_eq symbol (b'x' ∷ [])) (some unnamed) none;
}

allocates : Allocates (platform host)
allocates size e = ground arith

abbrev no_plugins : ℕ → Cmd (Network Env) (ℕ × ℕ)
no_plugins n d = done (0, 0) d

-- the globals before the start
abbrev nothing : List Reception → Device (Network Env)
nothing rs = record {
  name = [];
  modules = [];
  err = 0;
  registry = replicate 6 none;
  current = false;
  packet = replicate 64 0;
  env = record { endpoint = no_device; err = 0; env = (rs, [], 100) };
}

ready :
    (d' : Device (Network Env)) × (start host print 200 100 (nothing []) ≡ done true d')
    × (d'.modules ≡ registered host print ∷ [])
    × (d'.registry ≡ handlers host print)
    × (d'.env.endpoint ≡ context (fresh host print (some 7)))
ready =
    start-ready host print 200 100 (nothing []) (some 7) ([], [], 100) ([], [], 100) allocates refl
      refl refl refl

-- the server behind its start
abbrev server : List Reception → Device (Network Env)
server rs = record (nothing rs) {
  name = b'f' ∷ b'v' ∷ b'm' ∷ [];
  modules = registered host print ∷ [];
  registry = handlers host print;
  env = record { endpoint = context (fresh host print (some 7)); err = 0; env = (rs, [], 103) };
}

load_modules-IsLoaded_example :
    (ok : Bool) × (d' : Device (Network Env)) × (load_modules host ((b'x' ∷ []) ∷ []) (server [])
      ≡ done ok d')
    × (Distinct (server []).modules → Distinct d'.modules)
    × ((n : List ℕ) → IsKnown n (server []).modules → IsKnown n d'.modules)
    × (ok ≡ true → All (IsLoaded host d'.modules) ((b'x' ∷ []) ∷ []))
load_modules-IsLoaded_example = load_modules-IsLoaded host ((b'x' ∷ []) ∷ []) (server [])

-- the packet that calls the fourth function of the module without arguments
abbrev packet : List ℕ
packet = 254 ∷ 96 ∷ 164 ∷ 26 ∷ 0 ∷ 0 ∷ 0 ∷ 3 ∷ 4 ∷ replicate 55 0

built : invoke_packet 0 3 4 [] ≡ some packet
unfolding invoke_packet args_loop seal lf_crc calcrc poke to_le
built = refl

no_args : Fits []
unfolding total
no_args = record { count = omega arith; room = omega arith; small = tt }

abbrev peer : Address
peer = record { ip = 9; port = 40000 }

serve-Answers_example :
    (held : List ℕ) × Answers host no_plugins
      (server (datagram packet peer ∷ []))
      (running host no_plugins (
        received host no_plugins
          (server (datagram packet peer ∷ []))
          (fresh host print (some 7))
          peer
          ([], [], 103)
          held))
      (emulate host print write)
      []
      (record (fresh host print (some 7)) { addr = peer })
unfolding dac_module dac_table
serve-Answers_example =
    serve-Answers host no_plugins (server (datagram packet peer ∷ [])) (registered host print)
      (emulate host print write) [] 0 3 4 packet (fresh host print (some 7)) peer ([], [], 103)
      no_args tt (omega arith) allocates built refl refl (omega arith) (omega arith) refl refl
      (omega arith) refl (λ args n err. refl)

serve-unknown_class_example :
    serve host no_plugins (server (datagram (254 ∷ 0 ∷ 0 ∷ 0 ∷ 0 ∷ 6 ∷ []) peer ∷ [])) ≡ fault
serve-unknown_class_example =
    serve-unknown_class host no_plugins (server (datagram (254 ∷ 0 ∷ 0 ∷ 0 ∷ 0 ∷ 6 ∷ []) peer ∷ []))
      (fresh host print (some 7)) peer ([], [], 103) 0 0 0 0 6 [] refl refl (omega arith)

-- a function that prints runs once, and the reply goes to the peer
answered :
    (s' : Device (Network Env)) × (serve_loop host no_plugins 3
        (server (broken ∷ datagram packet peer ∷ transient ∷ []))
      ≡ done tt s')
    × (s'.env.env.1 ≡ ([], nobody) ∷ (replicate 9 0, peer) ∷ [])
unfolding serve_loop serve handle lf_debug_packet fmr_perform fmr_rpc dac_module dac_table
    perform_class dispatch invoke module_item rpc_args release_args send_result fail field peek poke
    to_le of_le lf_crc calcrc lf_network_write class_string type_string payload lf_debug_call
    call_types call_args lf_error_set
answered = (_, refl, refl)

-- a system whose memory has what a turn leaves of the packet behind its reply
abbrev stale : Host Env
stale = record host { garbage = λ e. 254 ∷ 0 ∷ 0 ∷ 26 ∷ 0 ∷ 0 ∷ 0 ∷ 3 ∷ 4 ∷ replicate 55 0 }

abbrev call : List ℕ
call = 0 ∷ 3 ∷ 4 ∷ replicate 17 0

left : stale.garbage ([], [], 103) ≡ (message 0 0 call ++ replicate 38 0) ++ []
unfolding to_le
left = refl

handle-replay_example :
    handle stale no_plugins
      (fresh host print (some 7))
      (datagram (254 ∷ to_le 2 42080) peer)
      (server [])
    ≡ handle stale no_plugins
        (fresh host print (some 7))
        (datagram (message 42080 0 call ++ replicate 38 0) peer)
        (server [])
handle-replay_example =
    handle-replay stale no_plugins (server []) (fresh host print (some 7)) peer 42080 0 call
      (replicate 38 0) [] left (unfold to_le in refl)

abbrev srv : Address
srv = record { ip = 5; port = 3258 }

-- the bytes that were sent last
abbrev last : List (List ℕ × Address) → List ℕ
last [] = []
last ((bs, to) ∷ []) = bs
last (a ∷ b ∷ rest) = last (b ∷ rest)

last-append :
    (sent : List (List ℕ × Address)) (bs : List ℕ) (to : Address)
    → last (sent ++ (bs, to) ∷ []) ≡ bs
last-append [] bs to = refl
last-append (a ∷ []) bs to = refl
last-append (a ∷ b ∷ rest) bs to = last-append (b ∷ rest) bs to

-- The system of a client, with the device of the server: a datagram waits for it, and a read waits for its turn.
abbrev Remote : Type 0
Remote = Device (Network Env)

abbrev inbox : List ℕ → Env → Env
inbox bs x = (datagram bs peer ∷ x.0, x.1, x.2)

abbrev posted : List ℕ → Remote → Remote
posted bs e = record e { env = record e.env { env = inbox bs e.env.env } }

abbrev turned : Remote → Outcome Remote (Unit {0}) → Reception × Remote
turned e (done x d') = (datagram (last d'.env.env.1) srv, d')
turned e fault = (broken, e)
turned e spent = (broken, e)

abbrev remote : Host Remote
remote = record {
  sockets = record {
    socket = λ e. (some 3, e);
    bind = λ fd e. (0, e);
    inet_addr = λ host. none;
    recvfrom = λ fd n e. turned e (serve host no_plugins e);
    sendto = λ fd bs to e. (length bs, posted bs e);
    close = λ fd e. e;
  };
  malloc = λ n e. (100, e);
  free = λ at e. e;
  garbage = λ e. replicate 9 170;
  dlopen = false;
  dlsym = λ symbol. none;
}

abbrev between : Between host remote no_plugins (some 3) (some 7) peer srv
between = record {
  device = λ e. e;
  posted = posted;
  inbox = inbox;
  replied = λ e d'. d';
  sends = λ bs e. refl;
  delivers = λ bs e. refl;
  receives = λ bs x size. refl;
  answers = λ e d' bs x run sent size.
      ap (turned e) run
      ∙ ap (λ n. (datagram (last n.1) srv, d')) sent
      ∙ ap (λ t. (datagram t srv, d')) (last-append x.1 bs peer);
}

abbrev client_context : Context
client_context = record { fd = some 3; host = []; addr = srv }

abbrev client : Device (Network Remote)
client = record {
  name = [];
  modules = [];
  err = 0;
  registry = replicate 6 none;
  current = false;
  packet = replicate 64 0;
  env = record { endpoint = context client_context; err = 0; env = server [] };
}

exchange_by_index-Answers_example :
    (z : Remote) × (a : Answers host no_plugins
      (posted packet (server []))
      z
      (emulate host print write)
      []
      (record (fresh host print (some 7)) { addr = peer }))
    × (dc' : Device (Network Remote)) × (exchange_by_index (platform remote) packet client
        ≡ done
            (some (
              returned (platform host) no_plugins (emulate host print write) [] z a.called
              % 256 ^ 8))
            dc')
    × (dc'.modules ≡ [])
unfolding dac_module dac_table
exchange_by_index-Answers_example =
    exchange_by_index-Answers host remote no_plugins client client_context
      (fresh host print (some 7)) peer between (registered host print) (emulate host print write) []
      0 3 4 packet no_args tt (omega arith) allocates built refl (omega arith) (omega arith)
      (omega arith) (omega arith) refl refl refl (omega arith) refl (λ args n err. refl)
