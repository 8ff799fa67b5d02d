-- ===== src/Fvm.antt =====
-- utils/fvm/src/main.c and utils/fvm/src/api/fvm_dac_module.c: the virtual device, a server that performs the messages
-- which it gets as datagrams. The system is the record Host, a parameter; it lists what libraries of the command line hold. The lines
-- that are printed are left out, and so is the file with the port.
pub mod Load
pub mod Serve
pub mod Start
pub mod Fault
pub mod Session
mod Runs
use flipper.Prelude.{
  ℕ, zero, suc, ◌+◌, List, [], ◌∷◌, ◌++◌, Option, none, some, Bool, true, false, not, if◌then◌else◌,
  length, take, drop, replicate, ◌==◌,
}
use flipper.Prelude.Outcome.{Outcome, done, fault, spent, pure, continue, ◌>>=◌, ◌>>◌}
use flipper.Error.{lf_success, lf_error, e_null, e_endpoint, e_unimplemented}
use flipper.Device.{
  Function, Module, Handler, Device, Platform, Cmd, raise, call, no_index, fvm_name,
}
use flipper.Device.Create.{lf_device_create_named}
use flipper.Modules.{dyld_register}
use flipper.Fmr.{fmr_packet_size, fmr_init, fmr_perform}
use flipper.Debug.{level_all, lf_debug_packet}
use flipper.Network.{
  Address, Context, Endpoint, no_device, no_context, context, Reception, datagram, transient,
  broken, Sockets, Network, lf_network_read, lf_network_write,
}

-- What the server uses of the system besides its sockets: memory, and what is in memory that no one has written; `dlopen` of the library, which is false for NULL;
-- and the objects that `dlsym` finds in it by their symbols.
pub record Host (E : Type 0) : Type 0 where
  pub sockets : Sockets E
  pub malloc : ℕ → E → ℕ × E
  pub free : ℕ → E → E
  pub garbage : E → List ℕ
  pub dlopen : Bool
  pub dlsym : List ℕ → Option (Module (Network E))

-- The text of fvm_dac_module.c that goes to the standard output, by the function that writes it
pub data Emulated : Type 0 where
  configure enable_channels set_channels write cleanup : Emulated

-- "dac_module"
abbrev pub dac_name : List ℕ
dac_name = b'd' ∷ b'a' ∷ b'c' ∷ b'_' ∷ b'm' ∷ b'o' ∷ b'd' ∷ b'u' ∷ b'l' ∷ b'e' ∷ []

-- a status and the state behind a function of the transport, which neither faults nor runs out of fuel
abbrev pub settle : {S A : Type 0} → (failed : A) → S → Outcome S A → A × S
settle failed s (done a s') = (a, s')
settle failed s fault = (failed, s)
settle failed s spent = (failed, s)

-- `!sd` of a descriptor, -1 is none
abbrev is_zero : Option ℕ → Bool
is_zero none = false
is_zero (some sd) = sd == 0

module _ {E : Type 0} (h : Host E) where
  -- what the device of the server is created with: lf_network_read, lf_network_write, and the memory
  abbrev pub platform : Platform (Network E)
  platform = record {
    write = λ bs n. settle lf_error n (lf_network_write h.sockets bs n);
    read = λ len n.
        let r = settle (lf_error, []) n (lf_network_read h.sockets len n) in (r.0.0, r.0.1, r.1);
    malloc = λ size n. ((h.malloc size n.env).0, record n { env = (h.malloc size n.env).1 });
    free = λ at n. record n { env = h.free at n.env };
    garbage = λ n. h.garbage n.env;
  }

  -- `write(STDOUT_FILENO, ...)` is a parameter
  module _ (print : Emulated → E → E) where
    abbrev pub emulate : Emulated → Function (Network E)
    emulate what args n err = (lf_success, record n { env = print what n.env }, err)

    unfoldable pub dac_table : List (Function (Network E))
    dac_table =
        emulate configure
        ∷ emulate enable_channels
        ∷ emulate set_channels
        ∷ emulate write
        ∷ emulate cleanup
        ∷ []

    unfoldable pub dac_module : Module (Network E)
    unfolding dac_table
    dac_module = record {
      name = dac_name;
      version = 1;
      idx = no_index;
      table = dac_table;
      length = 5;
      state = none;
    }

    -- Up to the command line; false is EXIT_FAILURE. The device that is made takes the place of the one at the start, whose
    -- error register and table of dispatchers are the globals. Only a socket 0 is refused. The sizes are those of the structs.
    unfoldable pub start : (device_size context_size : ℕ) → Cmd (Network E) Bool
    unfolding dac_module dyld_register lf_device_create_named fmr_init
    start device_size context_size = do
      sd ← call (λ n. let r = h.sockets.socket n.env in (r.0, record n { env = r.1 }))
      if is_zero sd then (do raise e_unimplemented; pure false) else (do
        e ← call (λ n. let r = h.sockets.bind sd n.env in (r.0, record n { env = r.1 }))
        if not (e == 0) then (do raise e_unimplemented; pure false) else (do
          created ← lf_device_create_named platform device_size (some fvm_name)
          elim created [
            | none ↦ do raise e_endpoint; pure false
            | some c ↦ do
              (λ d. done tt (record d {
                name = c.name;
                modules = [];
                env = record d.env { endpoint = no_context };
              }))
              dyld_register platform true (some dac_module)
              (λ d. done tt (record d { registry = fmr_init d.registry }))
              at ← call (platform.malloc context_size)
              if at == 0 then (do raise e_null; pure false) else (do
                (λ d. done tt (record d {
                  env = record d.env {
                    endpoint =
                        context (record { fd = sd; host = []; addr = record { ip = 0; port = 0 } });
                  };
                }))
                pure true)
          ]))

  -- The loop over the modules of the command line; the result is that of the program where an assertion fails.
  unfoldable pub load_modules : (modules : List (List ℕ)) → Cmd (Network E) Bool
  unfolding dyld_register
  load_modules [] = pure true
  load_modules (module' ∷ modules) =
      if not h.dlopen then (do raise e_null; pure false) else elim (h.dlsym (take 31 module')) [
        | none ↦ do raise e_null; pure false
        | some m ↦ do
          r ←
              dyld_register platform true
                (some (if length m.name == 0 then record m { name = take 31 module' } else m))
          if r.0 == lf_success then load_modules modules else (do raise e_null; pure false)
      ]

  -- The arguments are the library and the modules. `plugin` is the function fmr_plugin_register of the library, none for NULL.
  unfoldable pub command_line :
      (plugin : Option (Cmd (Network E) (Unit {0})))
      → (modules : Option (List (List ℕ))) → Cmd (Network E) Bool
  unfolding load_modules
  command_line plugin none = pure true
  command_line none (some modules) = load_modules modules
  command_line (some register) (some modules) = do
    if h.dlopen then register else pure tt
    load_modules modules

  module _ (plugins : ℕ → Cmd (Network E) (ℕ × ℕ)) where
    -- `recvfrom` into the packet: the bytes of the datagram, and behind them those that were there. The packet is a variable of
    -- the loop's body, so that before the call it has what its memory happens to have.
    abbrev pub fill : List ℕ → List ℕ → List ℕ
    fill bs packet = take fmr_packet_size bs ++ drop (length (take fmr_packet_size bs)) packet

    -- what follows the end of `recvfrom`
    unfoldable pub handle : Context → Reception → Cmd (Network E) (Unit {0})
    unfolding lf_debug_packet fmr_perform
    handle ctx (datagram bs from) = do
      (λ d. done tt (record d {
        packet = fill bs (h.garbage d.env.env);
        env = record d.env { endpoint = context (record ctx { addr = from }) };
      }))
      lf_debug_packet level_all
      fmr_perform platform plugins true
      pure tt
    handle ctx transient = pure tt
    handle ctx broken = pure tt

    -- a turn of `while (1)`
    unfoldable pub serve : Cmd (Network E) (Unit {0})
    unfolding handle
    serve d = elim d.env.endpoint [
      | no_device ↦ fault
      | no_context ↦ fault
      | context ctx ↦
          let r = h.sockets.recvfrom ctx.fd fmr_packet_size d.env.env in
          handle ctx r.0 (record d { env = record d.env { env = r.1 } })
    ]

    unfoldable pub serve_loop : (turns : ℕ) → Cmd (Network E) (Unit {0})
    unfolding serve
    serve_loop zero = pure tt
    serve_loop (suc turns) = do serve; serve_loop turns

    -- EXIT_SUCCESS is 0 and EXIT_FAILURE 1; the turns are those of the endless loop
    pub main :
        (print : Emulated → E → E)
        → (device_size context_size : ℕ) → (version : Bool)
        → (plugin : Option (Cmd (Network E) (Unit {0}))) → (modules : Option (List (List ℕ)))
        → (turns : ℕ) → Cmd (Network E) ℕ
    unfolding start command_line serve_loop
    main print device_size context_size true plugin modules turns = pure 0
    main print device_size context_size false plugin modules turns = do
      started ← start print device_size context_size
      if not started then pure 1 else (do
        loaded ← command_line plugin modules
        if loaded then (do serve_loop turns; pure 1) else pure 1)
