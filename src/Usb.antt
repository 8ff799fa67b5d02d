-- ===== src/Usb.antt =====
-- platforms/posix/src/libusb.c: a device that is attached to the host by the bus. The library libusb and the
-- allocation of memory are the record Host, a parameter. A handle is a number. The loops of the transfers
-- run on fuel. Text and timeouts are left out.
pub mod Attached
pub mod Devices
pub mod Transfer
mod Runs
use flipper.Prelude.{
  ℕ, zero, suc, ◌-◌, List, [], ◌∷◌, ◌++◌, Option, none, some, Bool, true, false, if◌then◌else◌,
  length, take, drop, ltb, ◌==◌,
}
use flipper.Prelude.Outcome.{Outcome, done, fault, spent, pure, ◌>>=◌, ◌>>◌}
use flipper.Error.{lf_success, lf_error, e_null, e_no_device, e_endpoint, e_libusb}

abbrev pub flipper_usb_vendor_id : ℕ
flipper_usb_vendor_id = 5824

-- struct _lf_libusb_context, without the pointer to the session
pub record Context : Type 0 where
  pub handle : ℕ
  pub in_sz : ℕ
  pub out_sz : ℕ
  pub in_endpoint : ℕ
  pub out_endpoint : ℕ

-- where the pointer `device` leads
pub data Endpoint : Type 0 where
  no_device no_context : Endpoint
  context : Context → Endpoint

-- The results of libusb, 0 on success. A transfer to the host gives what the bytes of the buffer are then.
-- `open` gives the handle too, and `descriptor` the vendor. `malloc` gives 0 where memory is exhausted.
pub record Host (E : Type 0) : Type 0 where
  pub init : E → ℕ × E
  pub exit : E → E
  pub get_device_list : E → List ℕ × E
  pub descriptor : ℕ → E → ℕ × ℕ × E
  pub open_device : ℕ → E → ℕ × ℕ × E
  pub claim : ℕ → E → ℕ × E
  pub close : ℕ → E → E
  pub transfer_in : (handle endpoint : ℕ) → List ℕ → E → ℕ × List ℕ × E
  pub transfer_out : (handle endpoint : ℕ) → List ℕ → E → ℕ × E
  pub malloc : (size : ℕ) → E → ℕ × E
  pub free : ℕ → E → E

-- the error register and the world
pub record Session (E : Type 0) : Type 0 where
  pub err : ℕ
  pub env : E

abbrev pub Cmd : Type 0 → Type 0 → Type 0
Cmd E A = Session E → Outcome (Session E) A

module _ {E A : Type 0} where
  abbrev pub sys : (E → A × E) → Cmd E A
  sys f s = done (f s.env).0 (record s { env = (f s.env).1 })

module _ {E : Type 0} where
  abbrev pub failed : ℕ → Cmd E ℕ
  failed e s = done lf_error (record s { err = e })

-- the bytes of the next transfer
abbrev pub chunk : (length size : ℕ) → ℕ
chunk length size = if ltb size length then size else length

module _ {E : Type 0} (k : Host E) where
  unfoldable pub write_loop : (fuel : ℕ) → Context → (src : List ℕ) → Cmd E ℕ
  write_loop fuel ctx [] = pure lf_success
  write_loop zero ctx (b ∷ src) = λ s. spent
  write_loop (suc fuel) ctx (b ∷ src) = do
    let len : ℕ = chunk (length (b ∷ src)) ctx.out_sz
    e ← sys (k.transfer_out ctx.handle ctx.out_endpoint (take len (b ∷ src)))
    if e == 0 then write_loop fuel ctx (drop len (b ∷ src)) else failed e_libusb

  unfoldable pub lf_libusb_write : (fuel : ℕ) → Endpoint → (src : List ℕ) → Cmd E ℕ
  unfolding write_loop
  lf_libusb_write fuel no_device src = failed e_null
  lf_libusb_write fuel no_context src = failed e_null
  lf_libusb_write fuel (context ctx) src = write_loop fuel ctx src

  abbrev pub transfer_into : Context → List ℕ → Cmd E (ℕ × List ℕ)
  transfer_into ctx dst s =
      let r = k.transfer_in ctx.handle ctx.in_endpoint dst s.env in
      done (r.0, r.1) (record s { env = r.2 })

  -- the status and the bytes of `dst`, which holds some at the start
  unfoldable pub read_loop : (fuel : ℕ) → Context → (dst : List ℕ) → Cmd E (ℕ × List ℕ)
  read_loop fuel ctx [] = pure (lf_success, [])
  read_loop zero ctx (b ∷ dst) = λ s. spent
  read_loop (suc fuel) ctx (b ∷ dst) = do
    let len : ℕ = chunk (length (b ∷ dst)) ctx.in_sz
    r ← transfer_into ctx (take len (b ∷ dst))
    if r.0 == 0
        then (do rest ← read_loop fuel ctx (drop len (b ∷ dst)); pure (rest.0, r.1 ++ rest.1))
        else (do e ← failed e_libusb; pure (e, r.1 ++ drop len (b ∷ dst)))

  unfoldable pub lf_libusb_read : (fuel : ℕ) → Endpoint → (dst : List ℕ) → Cmd E (ℕ × List ℕ)
  unfolding read_loop
  lf_libusb_read fuel no_device dst = do e ← failed e_null; pure (e, dst)
  lf_libusb_read fuel no_context dst = do e ← failed e_null; pure (e, dst)
  lf_libusb_read fuel (context ctx) dst = read_loop fuel ctx dst

  unfoldable pub lf_libusb_release : Endpoint → Cmd E ℕ
  lf_libusb_release no_device = failed e_null
  lf_libusb_release no_context = failed e_null
  lf_libusb_release (context ctx) =
      λ s. done lf_success (record s { env = k.exit (k.close ctx.handle s.env) })
