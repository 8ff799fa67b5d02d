-- ===== src/Dyld/Lookup.antt =====
-- lib/dyld.c: lf_dyld_dyn_sym_lookup, and what a device answers to its message.
use flipper.Prelude.{
  ℕ, zero, suc, ◌+◌, ◌-◌, ◌%◌, ◌^◌, ◌<◌, ◌≤◌, ◌≡◌, refl, sym, ap, ◌∙◌, List, [], ◌∷◌, ◌++◌, none,
  some, true, false, length, replicate, arith, ◌==◌, leb, if◌then◌else◌, take, drop, All,
  length-append, length-replicate, get_elem?, Bool-cases, inl, inr,
}
use flipper.Prelude.Bytes.{poke, poke_in, to_le, of_le}
use flipper.Prelude.Outcome.{done}
use flipper.Error.{lf_success, e_ok}
use flipper.Device.{dyld, Device, Platform, Cmd, name_max}
use flipper.Modules.{find}
use flipper.Fmr.{fmr_magic_number, fmr_perform}
use flipper.Fmr.Checksum.{message, crc_of, lf_crc-message, replied}
use flipper.Fmr.Names.{index_of, fmr_perform-beyond}
use flipper.Dyld.{cleared, result_of, dyld_packet, lf_dyld_dyn_sym_lookup}

zeros_split : (n : ℕ) → n ≤ 58 → replicate {A = ℕ} 58 0 ≡ replicate n 0 ++ replicate (58 - n) 0
zeros_split n h =
    let whole : 58 ≡ n + (58 - n) = omega arith in
    ap (λ k. replicate {A = ℕ} k 0) whole ∙ split n (58 - n)
  where
    split : (n k : ℕ) → replicate {A = ℕ} (n + k) 0 ≡ replicate {A = ℕ} n 0 ++ replicate k 0
    split zero k = let e : 0 + k ≡ k = omega arith in ap (λ i. replicate {A = ℕ} i 0) e
    split (suc n) k =
        let e : suc n + k ≡ suc (n + k) = omega arith in
        ap (λ i. replicate {A = ℕ} i 0) e ∙ ap (λ t. 0 ∷ t) (split n k)

module _ (name : List ℕ) (h : length name < 58) where
  abbrev more : List ℕ
  more = name ++ 0 ∷ []

  abbrev padding : List ℕ
  padding = replicate (57 - length name) 0

  abbrev headed : List ℕ → List ℕ
  headed bs = fmr_magic_number ∷ 0 ∷ 0 ∷ (to_le 2 (length more + 6) ++ 3 ∷ bs)

  size : 6 + (length name + 1) ≡ length more + 6
  size = omega (arith, length-append {0} name (0 ∷ []))

  started :
      poke cleared 0 (fmr_magic_number ∷ 0 ∷ 0 ∷ to_le 2 (length more + 6) ++ 3 ∷ [])
      ≡ some (headed (replicate 58 0))
  unfolding poke to_le
  started = refl

  named : poke (headed (replicate 58 0)) 6 more ≡ some (message 0 3 more ++ padding)
  unfolding to_le
  named =
      let left : 58 - (length name + 1) ≡ 57 - length name = omega arith in
      poke_in (headed []) (replicate (length name + 1) 0) more padding
        (ap headed (
          zeros_split (length name + 1) (omega arith)
          ∙ ap (λ k. replicate {A = ℕ} (length name + 1) 0 ++ replicate k 0) left))
        refl (length-replicate (length name + 1) 0 ∙ omega (arith, length-append {0} name (0 ∷ [])))

  sealed :
      poke (message 0 3 more ++ padding) 1 (to_le 2 (crc_of 3 more))
      ≡ some (message (crc_of 3 more) 3 more ++ padding)
  unfolding to_le
  sealed =
      poke_in (fmr_magic_number ∷ []) (0 ∷ 0 ∷ []) (to_le 2 (crc_of 3 more))
        (to_le 2 (length more + 6) ++ (3 ∷ (more ++ padding))) refl refl refl

  -- For a name of less than 58 bytes the packet is a message of class 3 with its own checksum, whose payload
  -- is the name with its final zero.
  dyld_packet-message :
      dyld_packet name
      ≡ some
          (message (crc_of 3 (name ++ 0 ∷ [])) 3 (name ++ 0 ∷ []) ++ replicate (57 - length name) 0)
  unfolding dyld_packet
  dyld_packet-message =
      rw (size, started, named, size, lf_crc-message 3 more padding, sealed, dyld_packet) refl

module _ {E : Type 0} (p : Platform E) (plugins : ℕ → Cmd E (ℕ × ℕ)) where
  -- A device with modules, whose dispatcher of class 3 is fmr_dyld, that gets the packet which asks for a name
  -- of less than 58 bytes answers with the index of the first module whose name stands as a C string behind the
  -- 64 bytes of the packet, or with 0 where there is none, and with E_OK: the name that was asked for does not
  -- matter.
  pub fmr_perform-dyld_packet :
      (d : Device E) (asked other packet behind : List ℕ)
      → length asked < 58
      → dyld_packet asked ≡ some packet
      → d.packet ≡ packet ++ (other ++ 0 ∷ behind)
      → All (λ b. 0 < b) other
      → (length d.modules == 0) ≡ false
      → get_elem? d.registry 3 ≡ some (some dyld)
      → (packet' : List ℕ) × (let z : Device E = record d {
        packet = packet';
        err = e_ok;
        current = false;
      } in
          let r = replied p plugins z (index_of p plugins (find other d.modules)) e_ok in
          fmr_perform p plugins true d ≡ done r.0 r.1)
  fmr_perform-dyld_packet d asked other packet behind h asks here nonzero modules registered =
      let more : List ℕ = asked ++ 0 ∷ [] in
      let padding : List ℕ = replicate (57 - length asked) 0 in
      let filled : length padding ≡ 57 - length asked = length-replicate (57 - length asked) 0 in
      let same : packet ≡ message (crc_of 3 more) 3 more ++ padding =
        some_eq (sym asks ∙ dyld_packet-message asked h) in
      (
        message 0 3 more ++ (padding ++ (other ++ 0 ∷ behind)),
        fmr_perform-beyond p plugins d more padding other behind
            (here ∙ ap (λ t. t ++ (other ++ 0 ∷ behind)) same)
            (omega (arith, length-append {0} asked (0 ∷ []), filled)) nonzero modules registered,
      )
    where
      some_eq : {a b : List ℕ} → some a ≡ some b → a ≡ b
      some_eq e = cc

  -- the part of a lookup behind the name of the device
  abbrev pub awaited : Device E → List ℕ → Device E
  awaited d packet =
      let sent = p.write packet d.env in let got = p.read 9 sent.1 in record d { env = got.2 }

  -- the result that a lookup reads
  abbrev pub answer : Device E → List ℕ → List ℕ
  answer d packet =
      let sent = p.write packet d.env in result_of (p.read 9 sent.1).1 (p.garbage sent.1)

  -- On a device with a name, for a name of less than 32 bytes, where the write and the read succeed, a
  -- lookup writes one message of class 3 with the name and gives the low 16 bits of the value in the answer if its error is
  -- E_OK; otherwise it gives nothing and the error register is that error.
  pub lookup-answered :
      (d : Device E) (b : ℕ) (bs name packet : List ℕ)
      → d.name ≡ b ∷ bs
      → length name < name_max
      → dyld_packet name ≡ some packet
      → ((p.write packet d.env).0 == lf_success) ≡ true
      → ((p.read 9 (p.write packet d.env).1).0 == lf_success) ≡ true
      → let result : List ℕ = answer d packet in
        let error : ℕ = of_le (drop 8 result) in
        lf_dyld_dyn_sym_lookup p true (some name) d ≡ (
          if error == e_ok
          then done (some (of_le (take 8 result) % 2 ^ 16)) (awaited d packet)
          else done none (record (awaited d packet) { err = error }))
  unfolding lf_dyld_dyn_sym_lookup
  lookup-answered d b bs name packet named short asks sent got =
      let fits : leb name_max (length name) ≡ false = ground arith in
      let error : ℕ = of_le (drop 8 (answer d packet)) in
      elim (Bool-cases (error == e_ok)) [
        | inl fine ↦ rw (named, fits, asks, sent, got, fine) refl
        | inr failed ↦ rw (named, fits, asks, sent, got, failed) refl
      ]
