-- ===== src/Usb/Runs.antt =====
-- Tests of platforms/posix/src/libusb.c on concrete inputs.
use flipper.Prelude.{ℕ, ◌+◌, ◌≡◌, refl, [], ◌∷◌, length, ◌==◌, if◌then◌else◌}
use flipper.Prelude.Outcome.{done, spent}
use flipper.Error.{e_null}
use flipper.Usb.{
  Context, context, Host, Session, write_loop, lf_libusb_write, read_loop, lf_libusb_read,
}
use flipper.Usb.Devices.{
  lf_libusb_get_devices, attach_loop, attach_device, claim_device, append_device, release_all,
  return_devices,
}

-- a world that counts what it allocates, with one device of the vendor among two
abbrev host : Host ℕ
host = record {
  init = λ e. (0, e);
  exit = λ e. e;
  get_device_list = λ e. (4 ∷ 5 ∷ [], e);
  descriptor = λ d e. (0, if d == 5 then 5824 else 1, e);
  open_device = λ d e. (0, 77, e);
  claim = λ h e. (0, e);
  close = λ h e. e;
  transfer_in = λ h p bs e. (0, bs, e);
  transfer_out = λ h p bs e. (0, e + length bs);
  malloc = λ n e. (e + 1, e + 1);
  free = λ a e. e;
}

abbrev ctx : Context
ctx = record { handle = 77; in_sz = 2; out_sz = 2; in_endpoint = 1; out_endpoint = 2 }

abbrev session : Session ℕ
session = record { err = 0; env = 0 }

-- a size that has never been set
hang : lf_libusb_write host 50 (context (record ctx { out_sz = 0 })) (1 ∷ []) session ≡ spent
unfolding lf_libusb_write write_loop
hang = refl

hang_read : lf_libusb_read host 50 (context (record ctx { in_sz = 0 })) (1 ∷ []) session ≡ spent
unfolding lf_libusb_read read_loop
hang_read = refl

-- The device of the vendor is found and claimed, but the list that is returned is empty.
no_devices : lf_libusb_get_devices host 1 1 1 session ≡ done [] (record { err = e_null; env = 3 })
unfolding lf_libusb_get_devices attach_loop attach_device claim_device append_device release_all
    return_devices
no_devices = refl
