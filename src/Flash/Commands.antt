-- ===== src/Flash/Commands.antt =====
-- The commands of the boot monitor of utils/fdfu/src/main.c, and the transfer by packets.
use flipper.Prelude.{
  ℕ, zero, suc, ◌+◌, ◌*◌, ◌%◌, ◌^◌, List, [], ◌∷◌, ◌++◌, Option, none, some, Bool, true, false,
  if◌then◌else◌, length, take, drop, ltb, ◌==◌,
}
use flipper.Prelude.Bytes.{of_le, bytes_eq}
use flipper.Prelude.Outcome.{fault, spent, pure, ◌>>=◌, ◌>>◌}
use flipper.Error.{lf_success, lf_error, e_unimplemented, e_timeout}
use flipper.Flash.{Link, Cmd, sys, raise, hex, xpacket, sam_read, sam_write, eot, ack, can, xlen}

-- EFC0->EEFC_FCR, EFC0->EEFC_FSR and EFC0->EEFC_FRR
abbrev pub fcr : ℕ
fcr = 0x400E0A04

abbrev pub fsr : ℕ
fsr = 0x400E0A08

abbrev pub frr : ℕ
frr = 0x400E0A0C

-- EEFC_FCR_FARG, EEFC_FCR_FCMD_SGPB and EEFC_FCR_FCMD_GGPB
abbrev pub farg : ℕ → ℕ
farg x = x * 256 % 2 ^ 24

abbrev pub sgpb : ℕ
sgpb = 11

abbrev pub ggpb : ℕ
ggpb = 13

module _ {E : Type 0} (k : Link E) (fuel : ℕ) where
  unfoldable pub sam_ba_jump : (address : ℕ) → Cmd E (Unit {0})
  sam_ba_jump address = do sam_write k fuel ((71 ∷ hex 8 address) ++ 35 ∷ []); pure tt

  unfoldable pub sam_ba_write_word : (destination word : ℕ) → Cmd E (Unit {0})
  sam_ba_write_word destination word = do
    sam_write k fuel ((87 ∷ hex 8 destination) ++ ((44 ∷ hex 8 word) ++ 35 ∷ []))
    pure tt

  -- `retries` more polls after the first
  unfoldable pub await_byte : (retries : ℕ) → Cmd E (Unit {0})
  await_byte zero = do sys k.uart0_ready; pure tt
  await_byte (suc retries) = do
    e ← sys k.uart0_ready
    if e == 0 then await_byte retries else pure tt

  unfoldable pub getbyte : Cmd E ℕ
  unfolding await_byte
  getbyte = do await_byte 8; sys k.uart0_get

  unfoldable pub sam_ba_read_byte : (source : ℕ) → Cmd E ℕ
  unfolding getbyte
  sam_ba_read_byte source = do sam_write k fuel ((111 ∷ hex 8 source) ++ 44 ∷ 35 ∷ []); getbyte

  -- All but the last of the 20 bytes of the buffer are sent: a zero and some bytes that are not initialised, `rest`, follow the
  -- command.
  unfoldable pub sam_ba_write_byte : (rest : List ℕ) → (destination byte : ℕ) → Cmd E (Unit {0})
  sam_ba_write_byte rest destination byte = do
    sam_write k fuel ((79 ∷ hex 8 destination) ++ ((44 ∷ hex 2 byte) ++ (35 ∷ 0 ∷ take 5 rest)))
    pure tt

  unfoldable pub sam_ba_read_word : (source : ℕ) → Cmd E ℕ
  unfolding await_byte
  sam_ba_read_word source = do
    sam_write k fuel ((119 ∷ hex 8 source) ++ 44 ∷ 35 ∷ [])
    await_byte 8
    r ← sam_read k fuel (0 ∷ 0 ∷ 0 ∷ 0 ∷ [])
    pure (of_le r.1)

  -- EEFC_FCR_FKEY_PASSWD, the argument and the command have no bit in common.
  unfoldable pub sam_ba_write_efc_fcr : (command arg : ℕ) → Cmd E (Unit {0})
  unfolding sam_ba_write_word
  sam_ba_write_efc_fcr command arg = sam_ba_write_word fcr (0x5A000000 + farg arg + command)

  -- The attempts of sam_ba_copy: the number `tries` where the loop ends; none is a failed reset. `old` is what
  -- `ack` holds.
  unfoldable pub start_copy :
      (attempts tries destination size : ℕ) → (old : List ℕ) → Cmd E (Option ℕ)
  start_copy zero tries destination size old = pure (some tries)
  start_copy (suc attempts) tries destination size old = do
    e ← sys k.uart0_reset
    if e == 0 then (do raise e_unimplemented; pure none) else (do
      sam_write k fuel ((83 ∷ hex 8 destination) ++ ((44 ∷ hex 8 size) ++ 35 ∷ []))
      r ← sam_read k fuel old
      if bytes_eq r.1 (67 ∷ [])
          then pure (some tries)
          else start_copy attempts (suc tries) destination size r.1)

  -- the packets, with the data that is left
  unfoldable pub packet_loop : (turns i : ℕ) → (src : List ℕ) → Cmd E (Option (Unit {0}))
  unfolding getbyte
  packet_loop turns i [] = pure (some tt)
  packet_loop zero i (b ∷ src) = λ s. spent
  packet_loop (suc turns) i (b ∷ src) = elim (xpacket i (take xlen (b ∷ src))) [
    | none ↦ (λ s. fault)
    | some packet ↦ (do
      sam_write k fuel packet
      c ← getbyte
      if c == can
          then (do raise e_timeout; pure none)
          else if c == ack
          then packet_loop turns (suc i) (drop xlen (b ∷ src))
          else (do raise e_unimplemented; pure none))
  ]

  abbrev refuse : Cmd E ℕ
  refuse = do raise e_unimplemented; pure lf_error

  -- the end of transmission
  unfoldable pub end_copy : Cmd E ℕ
  unfolding getbyte
  end_copy = do
    sys (λ e. (tt, k.uart0_put eot e))
    c ← getbyte
    if c == ack then pure lf_success else refuse

  unfoldable pub send_copy : (src : List ℕ) → Cmd E ℕ
  unfolding packet_loop end_copy
  send_copy src = do
    sent ← packet_loop (length src) 0 src
    elim sent [ none ↦ pure lf_error | some _ ↦ end_copy ]

  -- An answer to the fifth attempt leaves `tries` at 4 and is refused.
  unfoldable pub sam_ba_copy : (destination : ℕ) → (src old : List ℕ) → Cmd E ℕ
  unfolding start_copy send_copy
  sam_ba_copy destination src old = do
    started ← start_copy 5 0 destination (length src) old
    elim started [
      | none ↦ pure lf_error
      | some tries ↦ (if ltb tries 4 then send_copy src else refuse)
    ]

  -- `memcmp` of three bytes reads one behind its array of two, and `behind` is what stands there.
  unfoldable pub enter_loop :
      (attempts : ℕ) → (first : Bool) → (old : List ℕ) → (behind : ℕ) → Cmd E ℕ
  enter_loop zero first old behind = do sam_write k fuel (78 ∷ 35 ∷ []); pure lf_error
  enter_loop (suc attempts) first old behind = do
    e ← sys k.uart0_reset
    if e == 0 then refuse else (do
      sam_write k fuel (78 ∷ 35 ∷ [])
      r ← sam_read k fuel old
      if bytes_eq r.1 (10 ∷ 13 ∷ behind ∷ []) then pure lf_success else (do
        (if first then sys (λ e. (tt, k.sam_enter_dfu e)) else pure tt)
        enter_loop attempts false r.1 behind))

  unfoldable pub enter_normal_mode : (old : List ℕ) → (behind : ℕ) → Cmd E ℕ
  unfolding enter_loop
  enter_normal_mode old behind = enter_loop 5 true old behind
