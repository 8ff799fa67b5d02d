-- ===== src/Dyld/Runs.antt =====
-- Tests of lib/dyld.c on concrete inputs.
use flipper.Prelude.{ℕ, ◌≡◌, refl, List, [], ◌∷◌, ◌++◌, some, true, false, replicate, arith}
use flipper.Prelude.Bytes.{bytes_eq, poke, to_le, of_le}
use flipper.Prelude.Outcome.{done}
use flipper.Crc.{calcrc, lf_crc}
use flipper.Error.{lf_success, lf_error, e_ok, e_null}
use flipper.Device.{Module, Device, Cmd}
use flipper.Device.Sample.{Env, platform, led, board}
use flipper.Modules.{find, assign_index, dyld_register}
use flipper.Fmr.{fmr_perform}
use flipper.Fmr.Checksum.{replied}
use flipper.Fmr.Names.{index_of}
use flipper.Dyld.{dyld_packet, lf_dyld_dyn_sym_lookup, dyld_module, dyld_unload}
use flipper.Dyld.Adopt.{dyld_module-twice}
use flipper.Dyld.Lookup.{lookup-answered, fmr_perform-dyld_packet, awaited}

abbrev led_name : List ℕ
led_name = b'l' ∷ b'e' ∷ b'd' ∷ []

abbrev asks : List ℕ
asks = 254 ∷ 72 ∷ 190 ∷ 10 ∷ 0 ∷ 3 ∷ 108 ∷ 101 ∷ 100 ∷ replicate 55 0

asked : dyld_packet led_name ≡ some asks
unfolding dyld_packet lf_crc calcrc poke to_le
asked = refl

abbrev no_plugins : ℕ → Cmd Env (ℕ × ℕ)
no_plugins n d = done (0, 0) d

-- another name stands behind the packet
abbrev beyond : List ℕ
beyond = b'x' ∷ []

fmr_perform-dyld_packet_example :
    (packet' : List ℕ) × (let z : Device Env = record (board (asks ++ b'x' ∷ 0 ∷ [])) {
      packet = packet';
      err = e_ok;
      current = false;
    } in
      let r =
        replied platform no_plugins z
          (index_of platform no_plugins (find beyond (led ∷ [])))
          e_ok in
      fmr_perform platform no_plugins true (board (asks ++ b'x' ∷ 0 ∷ [])) ≡ done r.0 r.1)
fmr_perform-dyld_packet_example =
    fmr_perform-dyld_packet platform no_plugins (board (asks ++ b'x' ∷ 0 ∷ [])) led_name beyond asks
      [] (omega arith) asked refl (omega arith, tt) refl refl

abbrev registered : Device Env
registered = record (board []) {
  modules = led ∷ record led { name = b'g' ∷ [] } ∷ [];
  env = (101, []);
}

registers :
    dyld_register platform true (some (record led { name = b'g' ∷ [] })) (board [])
    ≡ done (lf_success, some (record led { name = b'g' ∷ [] })) registered
unfolding dyld_register find bytes_eq assign_index
registers = refl

-- A module that is registered is not unloaded.
kept :
    dyld_unload platform 90 true (some (b'g' ∷ [])) registered
    ≡ done lf_error (record registered { err = e_null })
unfolding dyld_unload dyld_module find bytes_eq
kept = refl

-- a board whose modules the host does not know yet
abbrev unknown : Device Env
unknown = record (board []) { modules = [] }

looked_up :
    lf_dyld_dyn_sym_lookup platform true (some led_name) unknown
    ≡ done (some 0) (awaited platform no_plugins unknown asks)
unfolding of_le
looked_up =
    lookup-answered platform no_plugins unknown b'f' (b'v' ∷ b'm' ∷ []) led_name asks refl
      (omega arith) asked refl refl

dyld_module-twice_example :
    (m : Module Env) × (d' : Device Env) × (dyld_module platform 90 true (some led_name) unknown
      ≡ done (some m) d')
    × (m.name ≡ led_name)
    × (m.idx ≡ 0)
    × (d'.modules ≡ m ∷ [])
    × (dyld_module platform 90 true (some led_name) d' ≡ done (some m) d')
unfolding find
dyld_module-twice_example =
    dyld_module-twice platform 90 0 _ _ led_name unknown (awaited platform no_plugins unknown asks)
      _ _ refl looked_up refl (omega arith) (λ e. omega arith) refl refl
