-- ===== src/Bridge/Turn.antt =====
-- platforms/atmegau2/src/main.c: a message that arrives at the bridge, and the answer to it.
use flipper.Prelude.{
  ℕ, ◌≤◌, ◌<◌, ◌≡◌, refl, sym, ap, ◌∙◌, List, [], ◌∷◌, ◌++◌, append-nil, append_assoc, some, true,
  length, drop, arith, lt→ltb, length-append, ◌==◌, if◌then◌else◌,
}
use flipper.Prelude.Bytes.{to_le}
use flipper.Prelude.Outcome.{done}
use flipper.Error.{lf_success, lf_error, e_ok, e_null}
use flipper.Device.{Device, Cmd}
use flipper.Fmr.{fmr_perform, perform_class, send_result}
use flipper.Fmr.Checksum.{message, crc_of, length-message, perform_accepts}
use flipper.Bulk.{
  Poll, Controller, wait, fill, drain, receive_loop, transmit_loop, turns, megausb_bulk_receive,
  megausb_bulk_transmit,
}
use flipper.Bulk.Transfer.{fill-parts, fill-rest, await-ready}
use flipper.Bridge.{transmitted, platform, turn}

drain-whole : (bs : List ℕ) → drain (length bs) (length bs) bs ≡ some (bs, 0)
unfolding drain
drain-whole [] = refl
drain-whole (b ∷ bs) = rw (drain-whole bs) refl

-- One bank of 64 bytes is received as it is.
receive_one :
    (c : Controller) (bank : List ℕ) (banks : List (List ℕ)) (qs : List _)
    → c.configured ≡ true
    → wait c.polls ≡ some (true, qs)
    → c.banks ≡ bank ∷ banks
    → length bank ≡ 64
    → megausb_bulk_receive 64 c ≡ done (lf_success, bank) (record c { polls = qs; banks = banks })
unfolding megausb_bulk_receive receive_loop
receive_one c bank banks qs on ready here size =
    let drained : drain 64 64 bank ≡ some (bank, 0) =
      ap (λ n. drain n n bank) (sym size) ∙ drain-whole bank in
    ap (λ t. if t then receive_loop (turns 64) 64 [] c else done (lf_error, []) c) on
    ∙ rw (await-ready c qs ready, here, drained) refl

-- What fits into a bank is sent as one packet.
fill-all : (bs : List ℕ) → length bs ≤ 64 → (fill 64 bs).0 ≡ bs
fill-all bs h =
    let (e, small, _, _) = fill-parts 64 bs in
    sym (append-nil (fill 64 bs).0) ∙ ap (λ t. (fill 64 bs).0 ++ t) (sym (fill-rest 64 bs h)) ∙ e

transmit_nine :
    (c : Controller) (bs : List ℕ) (qs : List _)
    → c.configured ≡ true
    → wait c.polls ≡ some (true, qs)
    → length bs ≡ 9
    → megausb_bulk_transmit bs c
      ≡ done lf_success (record c { polls = qs; packets = c.packets ++ bs ∷ [] })
unfolding megausb_bulk_transmit transmit_loop
transmit_nine c bs qs on ready size =
    ap (λ t. if t then transmit_loop (turns (length bs)) bs c else done lf_error c) on
    ∙ ap (λ n. transmit_loop (turns n) bs c) size
    ∙ rw (await-ready c qs ready, fill-all bs (omega (arith, size))) refl

module _ (malloc : ℕ → Controller → ℕ × Controller) (free : ℕ → Controller → Controller)
    (garbage : Controller → List ℕ) (read : ℕ → Controller → ℕ × List ℕ × Controller)
    (plugins : ℕ → Cmd Controller (ℕ × ℕ)) where
  unregistered :
      (type : ℕ) (d : Device Controller)
      → type < 6
      → d.modules ≡ []
      → perform_class (platform malloc free garbage read) plugins true type d
        ≡ send_result (platform malloc free garbage read) plugins true 0 e_null d
  unfolding perform_class
  unregistered type d small empty =
      let none_left : (length d.modules == 0) ≡ true = ap (λ t. length t == 0) empty in
      rw (lt→ltb type 6 small, none_left) refl

  -- Let a message of a class below 6 with its own checksum, in 64 bytes, be the first bank of a configured controller
  -- that becomes ready for it and for an answer, where no module is registered on the device. Then a turn of the loop ends,
  -- the bank is used up, the error register is cleared, and the one packet that is sent holds a result of zero with
  -- the error for NULL.
  pub turn-no_modules :
      (d : Device Controller) (type : ℕ) (more behind : List ℕ) (banks : List (List ℕ))
      (qs qs' : List Poll)
      → d.env.configured ≡ true
      → wait d.env.polls ≡ some (true, qs)
      → wait qs ≡ some (true, qs')
      → d.env.banks ≡ (message (crc_of type more) type more ++ behind) ∷ banks
      → length (message (crc_of type more) type more ++ behind) ≡ 64
      → type < 6
      → d.modules ≡ []
      → (d' : Device Controller) × (turn (platform malloc free garbage read) plugins true d
          ≡ done tt d')
        × (d'.env.banks ≡ banks)
        × (d'.env.packets ≡ d.env.packets ++ (to_le 8 0 ++ to_le 1 e_null) ∷ [])
        × (d'.err ≡ e_ok)
  unfolding turn send_result to_le
  turn-no_modules d type more behind banks qs qs' on ready ready' here size small empty =
      let p = platform malloc free garbage read in
      let bank = message (crc_of type more) type more ++ behind in
      let left = drop (length bank) d.packet in
      let c : Controller = record d.env { polls = qs; banks = banks } in
      let d1 : Device Controller = record d { packet = bank ++ left; env = c } in
      let d2 : Device Controller = record d1 {
        packet = message 0 type more ++ (behind ++ left);
        err = e_ok;
      } in
      let c' : Controller = record c {
        polls = qs';
        packets = c.packets ++ (to_le 8 0 ++ to_le 1 e_null) ∷ [];
      } in
      let performed : fmr_perform p plugins true d1 ≡ done lf_success (record d2 { env = c' }) =
        perform_accepts p plugins d1 type more (behind ++ left)
          (append_assoc (message (crc_of type more) type more) behind left) (omega arith)
          (omega (
            arith,
            size,
            length-message (crc_of type more) type more,
            length-append {0} (message (crc_of type more) type more) behind,
          ))
        ∙ unregistered type d2 small empty
        ∙ ap (λ o. done (transmitted c o).0 (record d2 { env = (transmitted c o).1 }))
            (transmit_nine c (to_le 8 0 ++ to_le 1 e_null) qs' on ready' refl) in
      (
        record d2 { env = c' },
        rw (receive_one d.env bank banks qs on ready here size, performed) refl,
        refl,
        refl,
        refl,
      )
