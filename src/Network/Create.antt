-- ===== src/Network/Create.antt =====
-- lf_network_device_for_hostname of platforms/posix/src/network.c.
use flipper.Prelude.{ℕ, List, Option, none, some, if◌then◌else◌, take, ◌==◌}
use flipper.Prelude.Outcome.{pure, ◌>>=◌, ◌>>◌}
use flipper.Error.{e_null, e_endpoint}
use flipper.Device.{Platform, Cmd, call, raise}
use flipper.Device.Create.{Created, lf_device_create}
use flipper.Network.{Context}

-- The device is allocated, then its context; the size of each is its sizeof. The result is the device with
-- the address of its context and the context.
pub lf_network_device_for_hostname :
    {E : Type 0} (p : Platform E) (device_size context_size : ℕ)
    → (hostname : List ℕ) → Cmd E (Option (Created × ℕ × Context))
lf_network_device_for_hostname p device_size context_size hostname = do
  device ← lf_device_create p device_size
  elim device [
    | none ↦ (do raise e_endpoint; pure none)
    | some created ↦ (do
      at ← call (p.malloc context_size)
      if at == 0 then (do raise e_null; pure none) else pure (some (created, at, fresh)))
  ]
  where
    fresh : Context
    fresh = record { fd = some 0; host = take 63 hostname; addr = record { ip = 0; port = 0 } }
