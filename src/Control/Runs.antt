-- ===== src/Control/Runs.antt =====
-- Tests of platforms/atmegau2/src/control.c, debug.c and descriptors.c on concrete inputs.
use flipper.Prelude.{◌≡◌, refl, [], ◌∷◌, true, false, arith, drop, ◌==◌}
use flipper.Prelude.Outcome.{done, fault}
use flipper.Bulk.{ready, timed_out, waiting}
use flipper.Control.{
  Answer, Usb, select, accept, send, put, stall, flush, usb_com, request, read_setup, either,
  in_ready, usb_wait_in_ready, set_configuration_request, get_status_request, configure_loop,
  search, get_descriptor_request,
}
use flipper.Control.Debug.{
  usb_debug_putchar, debug_loop, write_character, usb_gen, start_of_frame, end_of_reset,
  flush_debug, fill_debug,
}
use flipper.Control.Descriptors.{descriptors, endpoint, configuration, device_descriptor}
use flipper.Control.Packets.{Sent, Grants, usb_com-Sent}

abbrev free : Answer
free = record { tx_in = true; rx_out = false }

abbrev usb : Usb
usb = record {
  megausb_configuration = 1;
  debug_flush_timer = 1;
  previous_timeout = false;
  statuses = record free { tx_in = false } ∷ free ∷ free ∷ free ∷ free ∷ [];
  stalled = λ i. i == 2;
  turns = waiting ∷ ready ∷ timed_out ∷ [];
  room = true ∷ false ∷ [];
  actions = [];
}

grants : Grants 4 usb.statuses
unfolding either
grants = (_, refl, (_, refl, (_, refl, (_, refl, tt))))

-- the configuration descriptor, with a limit of 255 bytes
usb_com-Sent_example :
    (s : Sent (record usb { actions = select 0 ∷ accept ∷ [] }) 48 configuration) × (usb_com
        descriptors endpoint true
        (128 ∷ 6 ∷ 0 ∷ 2 ∷ 0 ∷ 0 ∷ 255 ∷ 0 ∷ [])
        usb
      ≡ done tt s.u')
usb_com-Sent_example =
    usb_com-Sent (record { value = 256; index = 0; address = device_descriptor; length = 18 } ∷ [])
      (drop 2 descriptors) (record { value = 512; index = 0; address = configuration; length = 48 })
      endpoint usb 128 0 2 0 0 255 0 refl refl (omega arith) (refl, tt) (omega arith) grants

-- SET_CONFIGURATION configures four endpoints from a table of three.
configured : usb_com descriptors endpoint true (0 ∷ 9 ∷ 1 ∷ 0 ∷ 0 ∷ 0 ∷ 0 ∷ 0 ∷ []) usb ≡ fault
unfolding usb_com read_setup request set_configuration_request configure_loop
configured = refl

-- a status of an endpoint that is stalled
status :
    usb_com descriptors endpoint true (130 ∷ 0 ∷ 0 ∷ 0 ∷ 2 ∷ 0 ∷ 2 ∷ 0 ∷ []) usb
    ≡ done tt (record usb {
      statuses = drop 2 usb.statuses;
      actions = select 0 ∷ accept ∷ select 2 ∷ select 0 ∷ send (1 ∷ 0 ∷ []) ∷ [];
    })
unfolding usb_com read_setup request get_status_request usb_wait_in_ready in_ready
status = refl

no_descriptor :
    usb_com descriptors endpoint true (128 ∷ 6 ∷ 0 ∷ 9 ∷ 0 ∷ 0 ∷ 64 ∷ 0 ∷ []) usb
    ≡ done tt (record usb { actions = select 0 ∷ accept ∷ stall ∷ [] })
unfolding usb_com read_setup request get_descriptor_request search
no_descriptor = refl

printed :
    usb_debug_putchar 65 usb
    ≡ done 0 (record usb {
      turns = timed_out ∷ [];
      room = false ∷ [];
      debug_flush_timer = 2;
      actions = select 131 ∷ select 131 ∷ put 65 ∷ [];
    })
unfolding usb_debug_putchar debug_loop write_character
printed = refl

frame_flush :
    usb_gen false true usb
    ≡ done tt
        (record usb { room = []; debug_flush_timer = 0; actions = select 131 ∷ put 0 ∷ flush ∷ [] })
unfolding usb_gen start_of_frame end_of_reset flush_debug fill_debug
frame_flush = refl
