-- ===== src/Usb/Devices.antt =====
-- lf_libusb_get_devices of platforms/posix/src/libusb.c. The list of devices is the sequence of its items, as `Ll`
-- shows for lib/ll.c; an item is the address of a device with its context.
use flipper.Prelude.{ℕ, List, [], ◌∷◌, ◌++◌, Bool, true, false, if◌then◌else◌, ◌==◌}
use flipper.Prelude.Outcome.{done, fault, pure, ◌>>=◌, ◌>>◌}
use flipper.Error.{lf_success, lf_error, e_null, e_no_device, e_endpoint, e_libusb}
use flipper.Usb.{Context, Host, Cmd, sys, flipper_usb_vendor_id}

-- a device that has been created: its address, and its context from `calloc`
pub record Attached : Type 0 where
  pub at : ℕ
  pub context : Context

-- the context of a device behind libusb_open: nothing sets its sizes and endpoints
abbrev pub fresh : (handle : ℕ) → Context
fresh handle = record { handle = handle; in_sz = 0; out_sz = 0; in_endpoint = 0; out_endpoint = 0 }

module _ {E : Type 0} (k : Host E) (device_size context_size node_size : ℕ) where
  abbrev raise : ℕ → Cmd E (Unit {0})
  raise e s = done tt (record s { err = e })

  -- calls that give a status and a number
  abbrev both : (E → ℕ × ℕ × E) → Cmd E (ℕ × ℕ)
  both f s = let r = f s.env in done (r.0, r.1) (record s { env = r.2 })

  -- the devices are freed in order
  unfoldable pub release_all : List Attached → E → E
  release_all [] env = env
  release_all (d ∷ ds) env = release_all ds (k.free d.at env)

  -- `lf_ll_append(&devices, device, lf_device_release)`: its result, and the list
  unfoldable pub append_device : List Attached → Attached → Cmd E (ℕ × List Attached)
  append_device devices d = do
    node ← sys (k.malloc node_size)
    if node == 0 then pure (lf_error, devices) else pure (lf_success, devices ++ d ∷ [])

  -- What follows `libusb_open`: whether the loop goes on, and the list. The test of lf_ll_append goes on where its
  -- result is not 0.
  unfoldable pub claim_device : List Attached → (at handle : ℕ) → Cmd E (Bool × List Attached)
  unfolding append_device
  claim_device devices at handle = do
    e ← sys (k.claim handle)
    if e == 0
        then (do
          r ← append_device devices (record { at = at; context = fresh handle })
          if r.0 == 0 then (do raise e_null; pure (false, r.1)) else pure (true, r.1))
        else (do raise e_libusb; pure (false, devices))

  -- A device of the vendor. lf_device_create raises E_MALLOC first where it fails; the test behind the second
  -- allocation is one of another pointer, so the writes to the context fault where it fails.
  unfoldable pub attach_device : List Attached → (usb : ℕ) → Cmd E (Bool × List Attached)
  unfolding claim_device
  attach_device devices usb = do
    at ← sys (k.malloc device_size)
    if at == 0
        then (do sys (λ e. (tt, k.free at e)); raise e_endpoint; pure (false, devices))
        else (do
          ctx ← sys (k.malloc context_size)
          if ctx == 0 then (λ s. fault) else (do
            r ← both (k.open_device usb)
            if r.0 == 0
                then claim_device devices at r.1
                else (do raise e_no_device; pure (false, devices))))

  -- the loop over the devices of the bus
  unfoldable pub attach_loop : List Attached → (usbs : List ℕ) → Cmd E (Bool × List Attached)
  unfolding attach_device
  attach_loop devices [] = pure (true, devices)
  attach_loop devices (usb ∷ usbs) = do
    r ← both (k.descriptor usb)
    if r.0 == 0
        then if r.1 == flipper_usb_vendor_id
          then (do
            next ← attach_device devices usb
            if next.0 then attach_loop next.1 usbs else pure next)
          else attach_loop devices usbs
        else (do raise e_libusb; pure (false, devices))

  -- The list that is returned, NULL being the empty one, or `fail:`. libusb_free_device_list is left out.
  unfoldable pub return_devices : Bool × List Attached → Cmd E (List Attached)
  unfolding release_all
  return_devices (true, devices) s = done devices s
  return_devices (false, devices) s =
      done [] (record s { env = k.exit (release_all devices s.env) })

  unfoldable pub lf_libusb_get_devices : Cmd E (List Attached)
  unfolding attach_loop return_devices
  lf_libusb_get_devices = do
    e ← sys k.init
    r ←
        (if e == 0
          then (do usbs ← sys k.get_device_list; attach_loop [] usbs)
          else (do raise e_libusb; pure (false, [])))
    return_devices r
