-- ===== src/Debug/Print.antt =====
-- lib/debug.c: the text of the packet of a call.
use flipper.Prelude.{
  ℕ, ◌+◌, ◌%◌, ◌^◌, ◌<◌, ◌≡◌, refl, sym, ap, ◌∙◌, List, [], ◌∷◌, ◌++◌, append_assoc, some, true,
  length, take, take-length-append, arith, ltb, All,
}
use flipper.Prelude.Bytes.{peek_in, to_le, of_le-to_le}
use flipper.Prelude.Outcome.{done}
use flipper.Device.{Arg, Device}
use flipper.Fmr.{fmr_magic_number, lf_sizeof, field}
use flipper.Fmr.Args.{Holds, field-to_le}
use flipper.Fmr.Checksum.{
  message, crc_of, crc_of-lt, magic_field, crc_field, len_field, type_field, length-message,
}
use flipper.Fmr.Rpc.{byte_in}
use mathlib.Core.Path.{subst}
use flipper.Client.{invoke_packet}
use flipper.Client.RoundTrip.{Fits, invoke_packet-IsCall}
use flipper.Debug.{
  ArgText, is_unsigned, exec, packet_text, type_string, call_types, call_args, lf_debug_call,
  level_all, lf_debug_packet, payload, class_string,
}

-- The types have a name in the array of names.
abbrev pub AreNamed : List Arg → Type 0
AreNamed = All (λ a. a.type < 32)

-- what is printed of the arguments: in each value the bytes of its type
abbrev pub type_texts : List Arg → List ℕ
type_texts [] = []
type_texts (a ∷ as') = a.type ∷ type_texts as'

abbrev pub arg_texts : List Arg → List ArgText
arg_texts [] = []
arg_texts (a ∷ as') =
    record {
      type = a.type;
      unsigned = is_unsigned a.type;
      value = a.value % 256 ^ lf_sizeof a.type;
    }
    ∷ arg_texts as'

module _ {E : Type 0} (d : Device E) where
  type_string-done : (type : ℕ) → type < 32 → type_string type d ≡ done type d
  unfolding type_string
  type_string-done type h = let e : ltb type 32 ≡ true = ground arith in rw (e, type_string) refl

  call_types-Holds :
      (as' : List Arg) (i offset : ℕ)
      → Holds d.packet i offset as'
      → AreNamed as'
      → call_types (length as') i d ≡ done (type_texts as') d
  unfolding call_types
  call_types-Holds [] i offset h named = refl
  call_types-Holds (a ∷ as') i offset (small, typed, valued, rest) (n, named) =
      rw
        (
          field-to_le d (10 + i) a.type small typed,
          type_string-done a.type n,
          call_types-Holds as' (i + 1) (offset + lf_sizeof a.type) rest named,
        )
        refl

  call_args-Holds :
      (as' : List Arg) (i offset : ℕ)
      → Holds d.packet i offset as'
      → AreNamed as'
      → call_args (length as') i offset d ≡ done (arg_texts as') d
  unfolding call_args
  call_args-Holds [] i offset h named = refl
  call_args-Holds (a ∷ as') i offset (small, typed, valued, rest) (n, named) =
      rw
        (
          field-to_le d (10 + i) a.type small typed,
          valued,
          type_string-done a.type n,
          call_args-Holds as' (i + 1) (offset + lf_sizeof a.type) rest named,
        )
        (ap
          (λ v.
            done
              (record { type = a.type; unsigned = is_unsigned a.type; value = v } ∷ arg_texts as')
              d)
          (of_le-to_le (lf_sizeof a.type) a.value))

module _ {E : Type 0} (d : Device E) (crc a b c n : ℕ) (tail rest : List ℕ) where
  abbrev more : List ℕ
  more = a ∷ b ∷ c ∷ n ∷ tail

  abbrev headed : List ℕ
  headed = fmr_magic_number ∷ (to_le 2 crc ++ (to_le 2 (length more + 6) ++ to_le 1 0))

  -- the fields of the call behind the header
  call_fields :
      d.packet ≡ message crc 0 more ++ rest
      → (field 6 1 d ≡ done a d)
        × (field 7 1 d ≡ done b d)
        × (field 8 1 d ≡ done c d)
        × (field 9 1 d ≡ done n d)
  unfolding to_le
  call_fields e = (
    byte_in d 6 a headed (b ∷ c ∷ n ∷ (tail ++ rest)) e refl,
    byte_in d 7 b (headed ++ a ∷ []) (c ∷ n ∷ (tail ++ rest)) e refl,
    byte_in d 8 c (headed ++ a ∷ b ∷ []) (n ∷ (tail ++ rest)) e refl,
    byte_in d 9 n (headed ++ a ∷ b ∷ c ∷ []) (tail ++ rest) e refl,
  )

module _ {E : Type 0} (d : Device E) (as' : List Arg) (crc a b ret : ℕ) (tail rest : List ℕ) where
  abbrev call : List ℕ
  call = a ∷ b ∷ ret ∷ length as' ∷ tail

  lf_debug_call-message :
      d.packet ≡ message crc 0 call ++ rest
      → Holds d.packet 0 26 as'
      → AreNamed as'
      → ret < 32
      → lf_debug_call d ≡ done (exec a b ret (type_texts as') (arg_texts as')) d
  unfolding lf_debug_call
  lf_debug_call-message e holds named small =
      let (e6, e7, e8, e9) = call_fields d crc a b ret (length as') tail rest e in
      rw
        (
          e6,
          e7,
          e8,
          type_string-done d ret small,
          e9,
          call_types-Holds d as' 0 26 holds named,
          call_args-Holds d as' 0 26 holds named,
        )
        refl

  -- With the level for everything, the packet of a call is printed without a fault, whatever stands behind it.
  pub lf_debug_packet-message :
      d.packet ≡ message crc 0 call ++ rest
      → crc < 65536
      → length tail + 10 < 65536
      → Holds d.packet 0 26 as'
      → AreNamed as'
      → ret < 32
      → lf_debug_packet level_all d
        ≡ done
            (some (
              packet_text crc
                (length call + 6)
                0
                (exec a b ret (type_texts as') (arg_texts as'))
                (message crc 0 call)))
            d
  unfolding lf_debug_packet payload class_string
  lf_debug_packet-message e small size holds named r =
      rw
        (
          magic_field d _ e,
          crc_field d crc 0 call rest e small,
          len_field d crc 0 call rest e (omega arith),
          type_field d crc 0 call rest e (omega arith),
          lf_debug_call-message e holds named r,
          peek_in {mem = d.packet} {offset = 0} {n = length call + 6} [] (message crc 0 call) rest e
              refl (length-message crc 0 call),
        )
        refl

-- For arguments that the packet has room for and whose types have names, as the type of the result does, the
-- packet of lf_invoke_by_index is printed at the level for everything without a fault, whatever stands behind
-- it: the text is of class 0 and has the index of the module (modulo 256), the function, the types, of each value
-- the bytes of its type, and the bytes of the packet up to a length that it has too.
pub lf_debug_packet-invoke_packet :
    {E : Type 0} (d : Device E) (idx function ret : ℕ) (args : List Arg) (packet beyond : List ℕ)
    → Fits args
    → AreNamed args
    → ret < 32
    → invoke_packet idx function ret args ≡ some packet
    → d.packet ≡ packet ++ beyond
    → (crc len : ℕ) × (dump : List ℕ) × (lf_debug_packet level_all d
        ≡ done
            (some (
              packet_text crc len 0
                (exec (idx % 256) function ret (type_texts args) (arg_texts args))
                dump))
            d)
      × (take len packet ≡ dump)
lf_debug_packet-invoke_packet d idx function ret args packet beyond fits named small built here =
    let (packet', built', call) = invoke_packet-IsCall idx function ret args fits in
    let same : packet ≡ packet' = cc in
    let more : List ℕ = idx % 256 ∷ function ∷ ret ∷ length args ∷ call.tail in
    let crc : ℕ = crc_of 0 more in
    let whole : d.packet ≡ message crc 0 more ++ (call.rest ++ beyond) =
      here
      ∙ ap (λ t. t ++ beyond) (same ∙ call.sent)
      ∙ append_assoc (message crc 0 more) call.rest beyond in
    (
      crc,
      length more + 6,
      message crc 0 more,
      lf_debug_packet-message d args crc (idx % 256) function ret call.tail (call.rest ++ beyond)
          whole (crc_of-lt 0 more) call.size
          (subst (λ m. Holds m 0 26 args) (sym whole) (call.holds crc beyond)) named small,
      ap (take (length more + 6)) (same ∙ call.sent)
          ∙ ap (λ n. take n (message crc 0 more ++ call.rest)) (sym (length-message crc 0 more))
          ∙ take-length-append (message crc 0 more) call.rest,
    )
