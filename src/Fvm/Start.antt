-- ===== src/Fvm/Start.antt =====
-- utils/fvm/src/main.c: the server up to its command line.
use flipper.Prelude.{ℕ, ◌≡◌, refl, ap, List, [], ◌∷◌, Option, none, some, true, false, replicate}
use flipper.Prelude.Outcome.{done}
use flipper.Device.{Module, Handler, rpc, push, pull, dyld, malloc, free, Device}
use flipper.Device.Create.{lf_device_create_named}
use flipper.Modules.{node_size, find, assign_index, dyld_register}
use flipper.Fmr.{fmr_register, fmr_init}
use flipper.Fmr.Args.{Allocates}
use flipper.Network.{Context, no_context, context, Network}
use flipper.Fvm.{Host, Emulated, platform, is_zero, dac_module, start}

module _ {E : Type 0} (h : Host E) (print : Emulated → E → E) where
  -- the module of the converter as the server registers it
  abbrev pub registered : Module (Network E)
  registered = record (dac_module h print) { idx = 0 }

  abbrev pub handlers : List (Option Handler)
  handlers = some rpc ∷ some push ∷ some pull ∷ some dyld ∷ some malloc ∷ some free ∷ []

  abbrev pub fresh : Option ℕ → Context
  fresh sd = record { fd = sd; host = []; addr = record { ip = 0; port = 0 } }

  -- With a socket that is not 0, which can be bound, and with memory, the server starts: its one module is that of the
  -- converter, with the index 0; each class has its dispatcher; and the context has the socket and no address.
  pub start-ready :
      (device_size context_size : ℕ) (d : Device (Network E)) (sd : Option ℕ) (e e' : E)
      → Allocates (platform h)
      → h.sockets.socket d.env.env ≡ (sd, e)
      → is_zero sd ≡ false
      → h.sockets.bind sd e ≡ (0, e')
      → d.registry ≡ replicate 6 none
      → (d' : Device (Network E)) × (start h print device_size context_size d ≡ done true d')
        × (d'.modules ≡ registered ∷ [])
        × (d'.registry ≡ handlers)
        × (d'.env.endpoint ≡ context (fresh sd))
  unfolding start dac_module lf_device_create_named dyld_register find assign_index fmr_init
      fmr_register
  start-ready device_size context_size d sd e e' ok socket valid bound registry =
      let p = platform h in
      let n : Network E = record d.env { endpoint = no_context; env = e' } in
      let n1 = (p.malloc device_size n).1 in
      let n2 = (p.malloc node_size n1).1 in
      rw (socket, valid, bound, ok device_size n, ok node_size n1, ok context_size n2, registry)
        (_, refl, refl, refl, ap (λ r. context (fresh r.0)) socket)
