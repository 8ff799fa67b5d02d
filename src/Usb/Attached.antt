-- ===== src/Usb/Attached.antt =====
-- lf_libusb_get_devices of platforms/posix/src/libusb.c: its result, by the answers of the bus.
use flipper.Prelude.{
  ℕ, ◌≡◌, refl, sym, ap, ◌⊎◌, inl, inr, List, [], ◌∷◌, Bool, true, false, Bool-cases, ◌==◌,
  if◌then◌else◌,
}
use mathlib.Core.Path.{subst}
use flipper.Prelude.Outcome.{Outcome, done, fault, spent, pure, continue}
use flipper.Error.{e_libusb}
use flipper.Usb.{Host, Session, flipper_usb_vendor_id}
use flipper.Usb.Devices.{
  Attached, append_device, claim_device, attach_device, attach_loop, return_devices,
  lf_libusb_get_devices,
}

module _ {E : Type 0} where
  -- The run ends or faults, and where the loop goes on there are no devices.
  abbrev IsIdle : Outcome (Session E) (Bool × List Attached) → Type 0
  IsIdle (done (true, ds) s) = ds ≡ []
  IsIdle (done (false, ds) s) = Unit {0}
  IsIdle fault = Unit {0}
  IsIdle spent = ⊥

module _ {E : Type 0} (k : Host E) (device_size context_size node_size : ℕ) where
  claim_device-IsIdle :
      (at handle : ℕ) (s : Session E)
      → IsIdle (claim_device k device_size context_size node_size [] at handle s)
  unfolding claim_device append_device
  claim_device-IsIdle at handle s = elim (Bool-cases ((k.claim handle s.env).0 == 0)) [
    | inl claimed ↦ elim (Bool-cases ((k.malloc node_size (k.claim handle s.env).1).0 == 0)) [
      | inl full ↦ rw (claimed, full) refl
      | inr node ↦ rw (claimed, node) tt
    ]
    | inr failed ↦ rw (failed) tt
  ]

  attach_device-IsIdle :
      (usb : ℕ) (s : Session E)
      → IsIdle (attach_device k device_size context_size node_size [] usb s)
  unfolding attach_device
  attach_device-IsIdle usb s =
      let at = k.malloc device_size s.env in
      let ctx = k.malloc context_size at.1 in
      let opened = k.open_device usb ctx.1 in
      elim (Bool-cases (at.0 == 0)) [
        | inl full ↦ rw (full) tt
        | inr device ↦ elim (Bool-cases (ctx.0 == 0)) [
          | inl full ↦ rw (device, full) tt
          | inr context ↦ elim (Bool-cases (opened.0 == 0)) [
            | inl ok ↦
                rw (device, context, ok)
                  (claim_device-IsIdle at.0 opened.1 (record s { env = opened.2 }))
            | inr failed ↦ rw (device, context, failed) tt
          ]
        ]
      ]

  -- the rest of the loop behind a device of the vendor
  continued :
      (usbs : List ℕ)
      → ((s : Session E) → IsIdle (attach_loop k device_size context_size node_size [] usbs s))
      → (m : Outcome (Session E) (Bool × List Attached)) → IsIdle m
      → IsIdle (
          continue m (λ next.
            if next.0
            then attach_loop k device_size context_size node_size next.1 usbs
            else pure next))
  continued usbs rest (done (true, ds) s) none_yet =
      let back : [] ≡ ds = sym none_yet in
      subst (λ t. IsIdle (attach_loop k device_size context_size node_size t usbs s)) back (rest s)
  continued usbs rest (done (false, ds) s) h = tt
  continued usbs rest fault h = tt
  continued usbs rest spent h = h

  attach_loop-IsIdle :
      (usbs : List ℕ) (s : Session E)
      → IsIdle (attach_loop k device_size context_size node_size [] usbs s)
  unfolding attach_loop
  attach_loop-IsIdle [] s = refl
  attach_loop-IsIdle (usb ∷ usbs) s =
      let d = k.descriptor usb s.env in
      elim (Bool-cases (d.0 == 0)) [
        | inl ok ↦ elim (Bool-cases (d.1 == flipper_usb_vendor_id)) [
          | inl ours ↦
              rw (ok, ours)
                (continued usbs (attach_loop-IsIdle usbs)
                  (attach_device k device_size context_size node_size [] usb
                    (record s { env = d.2 }))
                  (attach_device-IsIdle usb (record s { env = d.2 })))
          | inr other ↦ rw (ok, other) (attach_loop-IsIdle usbs (record s { env = d.2 }))
        ]
        | inr failed ↦ rw (failed) tt
      ]

  abbrev returned : Bool × List Attached → Session E → Outcome (Session E) (List Attached)
  returned = return_devices k device_size context_size node_size

  -- what lf_libusb_get_devices does with the result of the loop
  concluded :
      (m : Outcome (Session E) (Bool × List Attached))
      → IsIdle m
      → (continue m returned ≡ fault) ⊎ ((s' : Session E) × (continue m returned ≡ done [] s'))
  unfolding return_devices
  concluded (done (true, ds) s) none_yet = inr (s, ap (λ t. done t s) none_yet)
  concluded (done (false, ds) s) h = inr (_, refl)
  concluded fault h = inl refl
  concluded spent h = absurd h

  -- Whatever the bus has and whichever calls fail, lf_libusb_get_devices ends with the empty list, or writes through
  -- NULL where memory for a context is exhausted.
  lf_libusb_get_devices-empty :
      (s : Session E)
      → (lf_libusb_get_devices k device_size context_size node_size s ≡ fault)
        ⊎ ((s' : Session E) × (lf_libusb_get_devices k device_size context_size node_size s
              ≡ done [] s'))
  unfolding lf_libusb_get_devices
  lf_libusb_get_devices-empty s =
      let started = k.init s.env in
      let listed = k.get_device_list started.1 in
      elim (Bool-cases (started.0 == 0)) [
        | inl ok ↦ rw (ok) (
            concluded
              (attach_loop k device_size context_size node_size [] listed.0
                (record s { env = listed.1 }))
              (attach_loop-IsIdle listed.0 (record s { env = listed.1 })))
        | inr failed ↦
            rw (failed)
              (concluded (done (false, []) (record { err = e_libusb; env = started.1 })) tt)
      ]
