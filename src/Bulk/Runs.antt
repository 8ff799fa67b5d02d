-- ===== src/Bulk/Runs.antt =====
-- Tests of platforms/atmegau2/src/bulk.c on concrete inputs.
use flipper.Prelude.{◌≡◌, refl, [], ◌∷◌, ◌++◌, true, replicate, arith}
use flipper.Prelude.Outcome.{done}
use flipper.Error.{lf_success}
use flipper.Bulk.{
  Controller, ready, waiting, timed_out, wait, await, fill, drain, receive_loop,
  megausb_bulk_transmit, megausb_bulk_receive,
}
use flipper.Bulk.Reception.{megausb_bulk_receive-parts}
use flipper.Bulk.Transfer.{Sent, Lets, megausb_bulk_transmit-Sent}

abbrev controller : Controller
controller = record {
  configured = true;
  polls = ready ∷ waiting ∷ ready ∷ timed_out ∷ [];
  banks = (replicate 64 5) ∷ (6 ∷ 7 ∷ replicate 62 0) ∷ [];
  packets = [];
}

lets : Lets 2 controller.polls
unfolding wait
lets = (waiting ∷ ready ∷ timed_out ∷ [], refl, (timed_out ∷ [], refl, tt))

megausb_bulk_transmit-Sent_example :
    (s : Sent controller 2 (replicate 70 1)) × (megausb_bulk_transmit (replicate 70 1) controller
      ≡ done lf_success s.c')
megausb_bulk_transmit-Sent_example =
    megausb_bulk_transmit-Sent (replicate 70 1) controller refl (omega arith) lets

-- 66 bytes come in two banks
received :
    megausb_bulk_receive 66 controller
    ≡ done
        (lf_success, replicate 64 5 ++ 6 ∷ 7 ∷ [])
        (record controller { polls = timed_out ∷ []; banks = [] })
unfolding megausb_bulk_receive receive_loop await wait drain
received = refl

-- the same banks, where what stands behind the last byte is left out
abbrev full : Controller
full = record controller { banks = (replicate 64 5) ∷ (6 ∷ 7 ∷ []) ∷ (9 ∷ []) ∷ [] }

megausb_bulk_receive-parts_example :
    (c' : Controller) × (megausb_bulk_receive 66 full
      ≡ done (lf_success, replicate 64 5 ++ 6 ∷ 7 ∷ []) c')
    × (c'.banks ≡ (9 ∷ []) ∷ [])
unfolding fill
megausb_bulk_receive-parts_example =
    megausb_bulk_receive-parts (replicate 64 5 ++ 6 ∷ 7 ∷ []) full ((9 ∷ []) ∷ []) refl
      (omega arith) lets refl
