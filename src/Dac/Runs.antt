-- ===== src/Dac/Runs.antt =====
-- Tests of platforms/atsam4s/api/dac.c and dac_wrapper.c on concrete inputs.
use flipper.Device.Sample.{platform, board}
use flipper.Dac.Module.{dac_init_module, platform_init}
use flipper.Prelude.{◌≡◌, refl, [], ◌∷◌, some, true, false, replicate}
use flipper.Prelude.Outcome.{done}
use flipper.Error.{lf_success, lf_error}
use flipper.Dac.{Dac, lock_loop, dac_write, dacc_write_conversion_data}

-- a clock that never becomes ready
abbrev dac : Dac
dac = record { locked = false ∷ true ∷ []; ready = replicate 5 false; calls = [] }

locks : lock_loop dac.locked ≡ some []
unfolding lock_loop
locks = refl

written :
    dac_write 4095 dac
    ≡ done lf_success (record dac { calls = dacc_write_conversion_data 4095 ∷ [] })
unfolding dac_write
written = refl

refused : dac_write 4096 dac ≡ done lf_error dac
unfolding dac_write
refused = refl

-- without a device there is no module
no_device : dac_init_module platform 90 false true [] (board []) ≡ done lf_error (board [])
unfolding dac_init_module
no_device = refl

ignored : platform_init platform 90 false true [] (board []) ≡ done tt (board [])
unfolding platform_init dac_init_module
ignored = refl
