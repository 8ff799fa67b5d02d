-- ===== src/Flash.antt =====
-- utils/fdfu/src/main.c: the tool that writes firmware to the main chip by its boot monitor. This file has
-- the commands of the monitor and the transfer of data by packets. What the tool calls on the device is the
-- record Link, a parameter: lf_malloc, lf_free, lf_push and lf_pull are declared in lib/libflipper.h but have no body. Tests
-- of a status go on where it is not 0. Loops run on fuel, or on the number of attempts; pauses are left out.
pub mod Commands
pub mod Firmware
pub mod Pages
pub mod Xmodem
mod Runs
use flipper.Prelude.{
  ℕ, zero, suc, ◌+◌, ◌-◌, ◌*◌, ◌/◌, ◌%◌, ◌^◌, List, [], ◌∷◌, ◌++◌, Option, none, some, Bool, true,
  false, if◌then◌else◌, length, take, drop, replicate, ltb, ◌==◌,
}
use flipper.Prelude.Bytes.{of_le}
use flipper.Prelude.Outcome.{Outcome, done, fault, spent, pure, ◌>>=◌, ◌>>◌}
use flipper.Crc.{lf_crc}
use flipper.Error.{lf_success, lf_error, e_malloc, e_unimplemented, e_timeout}

abbrev pub soh : ℕ
soh = 1

abbrev pub eot : ℕ
eot = 4

abbrev pub ack : ℕ
ack = 6

abbrev pub can : ℕ
can = 24

abbrev pub xlen : ℕ
xlen = 128

-- The functions of the device, with their status; `ready` is 0 where no byte waits.
pub record Link (E : Type 0) : Type 0 where
  pub malloc : (size : ℕ) → E → ℕ × ℕ × E
  pub free : ℕ → E → ℕ × E
  pub push : (at : ℕ) → List ℕ → E → ℕ × E
  pub pull : (at length : ℕ) → E → ℕ × List ℕ × E
  pub uart0_write : (at length : ℕ) → E → ℕ × E
  pub uart0_read : (at length : ℕ) → E → ℕ × E
  pub uart0_reset : E → ℕ × E
  pub uart0_ready : E → ℕ × E
  pub uart0_get : E → ℕ × E
  pub uart0_put : ℕ → E → E
  pub sam_enter_dfu : E → E
  pub sam_exit_dfu : E → E
  pub sam_reset : E → E

pub record Tool (E : Type 0) : Type 0 where
  pub err : ℕ
  pub env : E

abbrev pub Cmd : Type 0 → Type 0 → Type 0
Cmd E A = Tool E → Outcome (Tool E) A

module _ {E A : Type 0} where
  abbrev pub sys : (E → A × E) → Cmd E A
  sys f s = done (f s.env).0 (record s { env = (f s.env).1 })

  abbrev pub both : (E → ℕ × A × E) → Cmd E (ℕ × A)
  both f s = let r = f s.env in done (r.0, r.1) (record s { env = r.2 })

module _ {E : Type 0} where
  abbrev pub raise : ℕ → Cmd E (Unit {0})
  raise e s = done tt (record s { err = e })

-- `%0nX` of a number below 16 ^ n
unfoldable pub hex : (n x : ℕ) → List ℕ
hex zero x = []
hex (suc n) x = let d : ℕ = x / 16 ^ n % 16 in (if ltb d 10 then 48 + d else 55 + d) ∷ hex n x

-- the packet with some bytes of data: SOH, the number, its complement, the data and zeros, and the
-- checksum with its high byte first
unfoldable pub xpacket : (i : ℕ) → List ℕ → Option (List ℕ)
unfolding lf_crc
xpacket i bytes =
    let data' : List ℕ = bytes ++ replicate (xlen - length bytes) 0 in
    elim (lf_crc data' xlen) [
      | none ↦ none
      | some crc ↦
          some (
            soh ∷ (i + 1) % 256 ∷ (255 - (i + 1) % 256) ∷ (data' ++ (crc / 256) ∷ (crc % 256) ∷ []))
    ]

module _ {E : Type 0} (k : Link E) where
  -- `fail:` of sam_read and sam_write, which goes to itself while lf_free returns 0
  unfoldable pub release_failed : (fuel : ℕ) → (ptr : ℕ) → Cmd E ℕ
  release_failed zero ptr = λ s. spent
  release_failed (suc fuel) ptr = do
    e ← sys (k.free ptr)
    if e == 0 then (do raise e_malloc; release_failed fuel ptr) else pure lf_error

  -- a failed test before the end of the loops
  unfoldable pub fail_with : (fuel ptr e : ℕ) → Cmd E ℕ
  unfolding release_failed
  fail_with fuel ptr e = do raise e; release_failed fuel ptr

  -- what follows the loops
  unfoldable pub finish : (fuel ptr : ℕ) → Cmd E ℕ
  unfolding fail_with
  finish fuel ptr = do
    e ← sys (k.free ptr)
    if e == 0 then fail_with fuel ptr e_malloc else pure lf_success

  unfoldable pub write_chunks : (fuel ptr : ℕ) → (src : List ℕ) → Cmd E ℕ
  unfolding finish fail_with
  write_chunks fuel ptr [] = finish fuel ptr
  write_chunks zero ptr (b ∷ src) = λ s. spent
  write_chunks (suc fuel) ptr (b ∷ src) = do
    e ← sys (k.push ptr (take 128 (b ∷ src)))
    if e == 0 then fail_with fuel ptr e_unimplemented else (do
      w ← sys (k.uart0_write ptr (length (take 128 (b ∷ src))))
      if w == 0
          then fail_with fuel ptr e_unimplemented
          else write_chunks fuel ptr (drop 128 (b ∷ src)))

  unfoldable pub sam_write : (fuel : ℕ) → (src : List ℕ) → Cmd E ℕ
  unfolding write_chunks fail_with
  sam_write fuel src = do
    r ← both (k.malloc 128)
    if r.0 == 0 then fail_with fuel r.1 e_malloc else write_chunks fuel r.1 src

  -- the status, and the bytes of `dst`, which holds some at the start
  unfoldable pub read_chunks : (fuel ptr : ℕ) → (dst : List ℕ) → Cmd E (ℕ × List ℕ)
  unfolding finish fail_with
  read_chunks fuel ptr [] = do e ← finish fuel ptr; pure (e, [])
  read_chunks zero ptr (b ∷ dst) = λ s. spent
  read_chunks (suc fuel) ptr (b ∷ dst) = do
    e ← sys (k.uart0_read ptr (length (take 128 (b ∷ dst))))
    if e == 0 then (do f ← fail_with fuel ptr e_unimplemented; pure (f, b ∷ dst)) else (do
      r ← both (k.pull ptr (length (take 128 (b ∷ dst))))
      if r.0 == 0
          then (do f ← fail_with fuel ptr e_unimplemented; pure (f, b ∷ dst))
          else (do rest ← read_chunks fuel ptr (drop 128 (b ∷ dst)); pure (rest.0, r.1 ++ rest.1)))

  unfoldable pub sam_read : (fuel : ℕ) → (dst : List ℕ) → Cmd E (ℕ × List ℕ)
  unfolding read_chunks fail_with
  sam_read fuel dst = do
    r ← both (k.malloc 128)
    if r.0 == 0
        then (do f ← fail_with fuel r.1 e_malloc; pure (f, dst))
        else read_chunks fuel r.1 dst
