-- ===== src/Modules/Runs.antt =====
-- Tests of the list of modules on concrete inputs.
use flipper.Prelude.{ℕ, ◌≡◌, refl, List, [], ◌∷◌, some, true}
use flipper.Prelude.Bytes.{bytes_eq}
use flipper.Prelude.Outcome.{done}
use flipper.Device.{Module, Device}
use flipper.Device.Sample.{Env, platform, led, board}
use flipper.Modules.{find, assign_index, dyld_register}
use flipper.Modules.Register.{lookup, dyld_register-lookup}

-- a module that asks for the next free index
abbrev gpio : Module Env
gpio = record led { name = b'g' ∷ []; idx = 65535 }

second_index :
    dyld_register platform true (some gpio) (board [])
    ≡ done
        (0, some (record gpio { idx = 1 }))
        (record (board []) { modules = led ∷ record gpio { idx = 1 } ∷ []; env = (101, []) })
unfolding dyld_register find bytes_eq assign_index
second_index = refl

dyld_register-lookup_example :
    (status : ℕ) × (m' : Module Env) × (d' : Device Env) × (dyld_register platform true
        (some gpio)
        (board [])
      ≡ done (status, some m') d')
    × (m'.name ≡ gpio.name)
    × ((n : List ℕ) → find n d'.modules ≡ lookup status m' (led ∷ []) n)
dyld_register-lookup_example = dyld_register-lookup platform gpio (board [])
