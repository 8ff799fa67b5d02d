-- ===== src/Bulk.antt =====
-- platforms/atmegau2/src/bulk.c: the bulk transfers of the usb bridge, in packets of 64 bytes. The
-- controller is what the code sees of it: one poll for each turn of a waiting loop, the banks of bytes that
-- it has received, and the packets that it is given. The status register and interrupts are left out.
pub mod Reception
pub mod Transfer
mod Runs
use flipper.Prelude.{
  ℕ, zero, suc, ◌+◌, ◌/◌, ◌%◌, ◌^◌, List, [], ◌∷◌, ◌++◌, Option, none, some, Bool, true, false,
  length, if◌then◌else◌, ltb,
}
use flipper.Prelude.Outcome.{Outcome, done, fault, spent, pure, continue, ◌>>=◌, ◌>>◌}
use flipper.Error.{lf_success, lf_error}

-- BULK_OUT_SIZE and BULK_IN_SIZE
abbrev pub bulk_size : ℕ
bulk_size = 64

-- What a turn finds: the bank is ready; or it is not, and the frame number is that of the timeout, or the
-- configuration is gone, or neither.
pub data Poll : Type 0 where
  ready timed_out unconfigured waiting : Poll

pub record Controller : Type 0 where
  pub configured : Bool
  pub polls : List Poll
  pub banks : List (List ℕ)
  pub packets : List (List ℕ)

abbrev pub Cmd : Type 0 → Type 0
Cmd A = Controller → Outcome Controller A

-- the loop `while (1)`: whether it ends by its `break`, and the polls that are left; none is no end
unfoldable pub wait : List Poll → Option (Bool × List Poll)
wait [] = none
wait (ready ∷ ps) = some (true, ps)
wait (timed_out ∷ ps) = some (false, ps)
wait (unconfigured ∷ ps) = some (false, ps)
wait (waiting ∷ ps) = wait ps

unfoldable pub await : Cmd Bool
unfolding wait
await c = elim (wait c.polls) [ none ↦ spent | some (b, ps) ↦ done b (record c { polls = ps }) ]

-- `while (len --)` of a transmission: the bytes that go to the bank, and those that are left
unfoldable pub fill : (len : ℕ) → List ℕ → List ℕ × List ℕ
fill zero bs = ([], bs)
fill (suc len) [] = fill len []
fill (suc len) (b ∷ bs) = let r = fill len bs in (b ∷ r.0, r.1)

-- The loop over the packets; `total` is what `turns` makes of the length, so that `i` stays in its int.
unfoldable pub transmit_loop : (total : ℕ) → List ℕ → Cmd ℕ
unfolding await fill
transmit_loop zero bs = pure lf_success
transmit_loop (suc total) bs = do
  ok ← await
  if ok
      then (do
        (λ c. done tt (record c { packets = c.packets ++ (fill bulk_size bs).0 ∷ [] }))
        transmit_loop total (fill bulk_size bs).1)
      else pure lf_error

-- lf_ceiling in an uint32_t
abbrev pub lf_ceiling : ℕ → ℕ
lf_ceiling n = (n + 63) % 2 ^ 32 / 64

-- The turns of `for (int i = 0; i < total; i ++)`, where `total` is the ceiling in an int, which has 16 bits and a sign: a
-- negative one gives no turn.
abbrev pub turns : (length' : ℕ) → ℕ
turns n = let total : ℕ = lf_ceiling n % 2 ^ 16 in if ltb total (2 ^ 15) then total else 0

unfoldable pub megausb_bulk_transmit : (source : List ℕ) → Cmd ℕ
unfolding transmit_loop
megausb_bulk_transmit source c =
    if c.configured then transmit_loop (turns (length source)) source c else done lf_error c

-- `while (len --)` of a reception: the bytes that are read and how many are still missing; a read behind
-- the end of the bank is none
unfoldable pub drain : (len missing : ℕ) → (bank : List ℕ) → Option (List ℕ × ℕ)
drain zero missing bank = some ([], missing)
drain (suc len) zero bank = drain len zero bank
drain (suc len) (suc missing) [] = none
drain (suc len) (suc missing) (b ∷ bank) = elim (drain len missing bank) [
  | none ↦ none
  | some (bs, left) ↦ some (b ∷ bs, left)
]

-- the loop over the packets with the same `total`, and the bank of the next turn; the write to UEINTX releases it
unfoldable pub receive_loop : (total missing : ℕ) → (destination : List ℕ) → Cmd (ℕ × List ℕ)
unfolding await drain
receive_loop zero missing destination = pure (lf_success, destination)
receive_loop (suc total) missing destination = do
  ok ← await
  if ok
      then (λ c. elim c.banks [
        | [] ↦ fault
        | bank ∷ banks ↦ elim (drain bulk_size missing bank) [
          | none ↦ fault
          | some (bs, left) ↦
              receive_loop total left (destination ++ bs) (record c { banks = banks })
        ]
      ])
      else pure (lf_error, destination)

unfoldable pub megausb_bulk_receive : (length' : ℕ) → Cmd (ℕ × List ℕ)
unfolding receive_loop
megausb_bulk_receive length' c =
    if c.configured then receive_loop (turns length') length' [] c else done (lf_error, []) c
