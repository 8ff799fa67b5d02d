-- ===== src/Control/Packets.antt =====
-- platforms/atmegau2/src/control.c: the packets of a descriptor.
use flipper.Prelude.{
  ℕ, zero, suc, ◌+◌, ◌-◌, ◌*◌, ◌/◌, ◌≤◌, ◌<◌, ◌≡◌, refl, sym, ap, ◌∙◌, List, [], ◌∷◌, ◌++◌,
  append_assoc, append-nil, some, true, false, not, ◌==◌, ◌||◌, ◌&&◌, length, take, drop, arith,
  All, if◌then◌else◌, Bool-cases, inl, inr, ltb, map, length-take, length-drop, take-nil,
}
use mathlib.Core.Path.{subst}
use flipper.Prelude.Outcome.{done, pure}
use flipper.Bulk.Transfer.{concat}
use flipper.Control.{
  Descriptor, Answer, select, accept, send, Usb, usb_com, request, read_setup, either, wait_either,
  pgm_read, search, send_loop, wanted, get_descriptor_request,
}

-- Answers that grant a number of packets: TXINI comes before RXOUTI each time.
abbrev pub Grants : (packets : ℕ) → List Answer → Type 0
Grants zero ss = Unit {0}
Grants (suc n) ss = (rest : List Answer) × (either ss ≡ some (true, rest)) × Grants n rest

pgm_read-take : (n : ℕ) (bs : List ℕ) → n ≤ length bs → pgm_read n bs ≡ some (take n bs, drop n bs)
unfolding pgm_read
pgm_read-take zero bs h = refl
pgm_read-take (suc n) [] h = absurd (omega arith)
pgm_read-take (suc n) (b ∷ bs) h = rw (pgm_read-take n bs (omega arith)) refl

take_more : (n m : ℕ) (bs : List ℕ) → take n bs ++ take m (drop n bs) ≡ take (n + m) bs
take_more zero m bs = ap (λ t. take t bs) (omega arith)
take_more (suc n) m [] = take-nil m ∙ sym (take-nil (suc n + m))
take_more (suc n) m (b ∷ bs) =
    let e : suc n + m ≡ suc (n + m) = omega arith in
    ap (λ t. b ∷ t) (take_more n m bs) ∙ ap (λ t. take t (b ∷ bs)) (sym e)

await-granted :
    (u : Usb) (rest : List Answer)
    → either u.statuses ≡ some (true, rest)
    → wait_either u ≡ done true (record u { statuses = rest })
unfolding wait_either
await-granted u rest h = rw (h, wait_either) refl

abbrev sent_one : Usb → List Answer → List ℕ → Usb
sent_one u rest p = record u { statuses = rest; actions = u.actions ++ send p ∷ [] }

send_turn :
    (fuel len n : ℕ) (bs : List ℕ) (u : Usb) (rest : List Answer)
    → (if ltb len 16 then len else 16) ≡ n
    → n ≤ length bs
    → either u.statuses ≡ some (true, rest)
    → send_loop (suc fuel) len bs u
      ≡ (if not (len - n == 0) || (n == 16) then send_loop fuel (len - n) (drop n bs) else pure tt)
          (sent_one u rest (take n bs))
unfolding send_loop
send_turn fuel len n bs u rest size fits here =
    let read : pgm_read (if ltb len 16 then len else 16) bs ≡ some (take n bs, drop n bs) =
      rw (size) (pgm_read-take n bs fits) in
    rw (await-granted u rest here, read, size) refl

-- the outcome of the loop: the packets that it has sent
pub record Sent (u : Usb) (len : ℕ) (bs : List ℕ) : Type 0 where
  pub u' : Usb
  pub packets : List (List ℕ)
  pub actions : u'.actions ≡ u.actions ++ map send packets
  pub whole : concat packets ≡ take len bs
  pub count : length packets ≡ suc (len / 16)
  pub small : All (λ p. length p ≤ 16) packets

send_loop-Sent :
    (fuel len : ℕ) (bs : List ℕ) (u : Usb)
    → len / 16 < fuel
    → len ≤ length bs
    → Grants (suc (len / 16)) u.statuses
    → (s : Sent u len bs) × (send_loop fuel len bs u ≡ done tt s.u')
unfolding send_loop
send_loop-Sent zero len bs u enough fits grants = absurd (omega arith)
send_loop-Sent (suc fuel) len bs u enough fits (rest, here, grants) =
    elim (Bool-cases (ltb len 16)) [
      | inl short ↦
          let h : len < 16 = ground arith in
          let size : (if ltb len 16 then len else 16) ≡ len = rw (short) refl in
          let last : (not (len - len == 0) || (len == 16)) ≡ false = ground arith in
          (
            record {
              u' = sent_one u rest (take len bs);
              packets = take len bs ∷ [];
              actions = refl;
              whole = append-nil (take len bs);
              count = omega arith;
              small = (omega (arith, length-take len bs fits), tt);
            },
            rw (send_turn fuel len len bs u rest size fits here, last) refl,
          )
      | inr long ↦
          let h : 16 ≤ len = ground arith in
          let size : (if ltb len 16 then len else 16) ≡ 16 = rw (long) refl in
          let more : (not (len - 16 == 0) || (16 == 16)) ≡ true = ground arith in
          let shift : len / 16 ≡ suc ((len - 16) / 16) = omega arith in
          let v : Usb = sent_one u rest (take 16 bs) in
          let g : Grants (suc ((len - 16) / 16)) v.statuses =
            subst (λ t. Grants t rest) shift grants in
          let (s, run) =
            send_loop-Sent fuel (len - 16) (drop 16 bs) v (omega arith)
              (omega (arith, length-drop {0} 16 bs)) g in
          (
            record {
              u' = s.u';
              packets = take 16 bs ∷ s.packets;
              actions =
                  s.actions ∙ append_assoc u.actions (send (take 16 bs) ∷ []) (map send s.packets);
              whole =
                  ap (λ t. take 16 bs ++ t) s.whole
                  ∙ take_more 16 (len - 16) bs
                  ∙ ap (λ t. take t bs) (omega arith);
              count = omega (arith, s.count);
              small = (omega (arith, length-take 16 bs (omega arith)), s.small);
            },
            rw (send_turn fuel len 16 bs u rest size (omega arith) here, more) run,
          )
    ]

-- The request asks for another descriptor.
abbrev pub Misses : (value index : ℕ) → Descriptor → Type 0
Misses value index d = ((d.value == value) && (d.index == index)) ≡ false

search-found :
    (turns : ℕ) (front back : List Descriptor) (d : Descriptor) (u : Usb)
    → length front < turns
    → All (Misses d.value d.index) front
    → search turns (front ++ d ∷ back) d.value d.index u ≡ done (some d) u
unfolding search
search-found zero front back d u h misses = absurd (omega arith)
search-found (suc turns) [] back d u h misses =
    let here : ((d.value == d.value) && (d.index == d.index)) ≡ true = ground arith in
    rw (here) refl
search-found (suc turns) (x ∷ front) back d u h (miss, misses) =
    rw (miss) (search-found turns front back d u (omega arith) misses)

wanted_small : (w_length desc_length : ℕ) → wanted w_length desc_length / 16 < 16
wanted_small w_length desc_length = ground arith

-- When the setup packet asks for a descriptor that is the first of its value and index among the first five of the
-- table, and the address has the bytes that are wanted (the length of the request, at most 255, and that of the
-- descriptor), and the controller lets each packet go before the host ends the transfer, the handler sends the
-- wanted bytes in order, in packets of at most 16 bytes, one more than their number divided by 16.
pub usb_com-Sent :
    (front back : List Descriptor) (d : Descriptor) (endpoint : List ℕ)
    → (u : Usb) → (t v0 v1 i0 i1 l0 l1 : ℕ) → d.value ≡ v0 + 256 * v1
    → d.index ≡ i0 + 256 * i1
    → length front < 5
    → All (Misses d.value d.index) front
    → wanted (l0 + 256 * l1) d.length ≤ length d.address
    → Grants (suc (wanted (l0 + 256 * l1) d.length / 16)) u.statuses
    → (s : Sent
        (record u { actions = (u.actions ++ select 0 ∷ []) ++ accept ∷ [] })
        (wanted (l0 + 256 * l1) d.length)
        d.address)
      × (usb_com (front ++ d ∷ back) endpoint true (t ∷ 6 ∷ v0 ∷ v1 ∷ i0 ∷ i1 ∷ l0 ∷ l1 ∷ []) u
          ≡ done tt s.u')
unfolding usb_com request get_descriptor_request read_setup
usb_com-Sent front back d endpoint u t v0 v1 i0 i1 l0 l1 value index few misses fits grants =
    let v : Usb = record u { actions = (u.actions ++ select 0 ∷ []) ++ accept ∷ [] } in
    let (s, run) =
      send_loop-Sent 16 (wanted (l0 + 256 * l1) d.length) d.address v
        (wanted_small (l0 + 256 * l1) d.length) fits grants in
    (s, rw (← value, ← index, search-found 5 front back d v few misses) run)
