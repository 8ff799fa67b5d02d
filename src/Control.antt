-- ===== src/Control.antt =====
-- platforms/atmegau2/src/control.c, debug.c and include/megausb.h: the interrupt handlers of the usb
-- bridge. The controller is what its status registers answer, in order, and the handlers write actions to
-- it. An action `send bs` is the writes of the bytes to UEDATX and the write to UEINTX that hands them over.
-- A table in program memory is a list, and a read behind its end is a fault. The global interrupt flag and the
-- start of the phase locked loop are left out.
pub mod Debug
pub mod Descriptors
pub mod Packets
mod Runs
use flipper.Prelude.{
  ℕ, zero, suc, ◌+◌, ◌-◌, ◌*◌, ◌%◌, ◌^◌, List, [], ◌∷◌, ◌++◌, Option, none, some, Bool, true, false,
  not, ◌&&◌, ◌||◌, if◌then◌else◌, ltb, leb, ◌==◌,
}
use flipper.Prelude.Outcome.{Outcome, done, fault, spent, pure, ◌>>=◌, ◌>>◌}
use flipper.Bulk.{Poll}

abbrev pub control_size : ℕ
control_size = 16

abbrev num_desc_list : ℕ
num_desc_list = 5

abbrev max_endpoint : ℕ
max_endpoint = 4

abbrev pub debug_in_endpoint : ℕ
debug_in_endpoint = 131

-- bRequest
abbrev get_status : ℕ
get_status = 0

abbrev clear_feature : ℕ
clear_feature = 1

abbrev set_feature : ℕ
set_feature = 3

abbrev set_address : ℕ
set_address = 5

abbrev pub get_descriptor : ℕ
get_descriptor = 6

abbrev get_configuration : ℕ
get_configuration = 8

abbrev set_configuration : ℕ
set_configuration = 9

-- struct _descriptor; the address is the bytes from there on
pub record Descriptor : Type 0 where
  pub value : ℕ
  pub index : ℕ
  pub address : List ℕ
  pub length : ℕ

-- TXINI and RXOUTI of UEINTX
pub record Answer : Type 0 where
  pub tx_in : Bool
  pub rx_out : Bool

-- What the handlers write. `select` is UENUM; `enable`, `disable_stall` and `stall` are UECONX of the selected endpoint
-- with a value, with STALLRQC, RSTDT and EPEN, and with STALLRQ and EPEN; `shape` is UECFG0X and UECFG1X;
-- `reset` is UERST; `accept` takes the setup packet; `address` is UDADDR with ADDEN; `enable_setup` is
-- UEIENX with RXSTPE; `flush` is UEINTX of the debug endpoint with 0x3A.
pub data Action : Type 0 where
  select enable reset address : ℕ → Action
  stall disable_stall accept enable_setup flush : Action
  shape : ℕ → ℕ → Action
  send : List ℕ → Action
  put : ℕ → Action
  freeze_clock start_pll enable_controller attach_device enable_events : Action

-- The globals of the handlers, and the controller: the answers of UEINTX to the control endpoint, the endpoints
-- whose STALLRQ is set when the handler starts, what each turn of the waiting loop of debug.c finds, the answers of RWAL, and what
-- has been written.
pub record Usb : Type 0 where
  pub megausb_configuration : ℕ
  pub debug_flush_timer : ℕ
  pub previous_timeout : Bool
  pub statuses : List Answer
  pub stalled : ℕ → Bool
  pub turns : List Poll
  pub room : List Bool
  pub actions : List Action

abbrev pub Cmd : Type 0 → Type 0
Cmd A = Usb → Outcome Usb A

abbrev pub emit : List Action → Cmd (Unit {0})
emit as' u = done tt (record u { actions = u.actions ++ as' })

-- until TXINI or RXOUTI is set: whether it goes on, that is RXOUTI is not
unfoldable pub either : List Answer → Option (Bool × List Answer)
either [] = none
either (s ∷ ss) = if s.tx_in || s.rx_out then some (not s.rx_out, ss) else either ss

unfoldable pub wait_either : Cmd Bool
unfolding either
wait_either u = elim (either u.statuses) [
  | none ↦ spent
  | some (go, ss) ↦ done go (record u { statuses = ss })
]

unfoldable pub in_ready : List Answer → Option (List Answer)
in_ready [] = none
in_ready (s ∷ ss) = if s.tx_in then some ss else in_ready ss

unfoldable pub usb_wait_in_ready : Cmd (Unit {0})
unfolding in_ready
usb_wait_in_ready u = elim (in_ready u.statuses) [
  | none ↦ spent
  | some ss ↦ done tt (record u { statuses = ss })
]

-- `n` bytes of program memory, and where it goes on
unfoldable pub pgm_read : ℕ → List ℕ → Option (List ℕ × List ℕ)
pgm_read zero bs = some ([], bs)
pgm_read (suc n) [] = none
pgm_read (suc n) (b ∷ bs) = elim (pgm_read n bs) [
  | none ↦ none
  | some (front, back) ↦ some (b ∷ front, back)
]

-- the search of GET_DESCRIPTOR, with the turns that are left; none is the stall
unfoldable pub search : (turns : ℕ) → List Descriptor → (value index : ℕ) → Cmd (Option Descriptor)
search zero ds value index = pure none
search (suc turns) [] value index = λ u. fault
search (suc turns) (d ∷ ds) value index =
    let rest = search turns ds value index in
    if (d.value == value) && (d.index == index) then pure (some d) else rest

-- The loop of GET_DESCRIPTOR; each turn sends a packet.
unfoldable pub send_loop : (fuel : ℕ) → (len : ℕ) → (bytes : List ℕ) → Cmd (Unit {0})
unfolding wait_either pgm_read
send_loop zero len bytes = λ u. spent
send_loop (suc fuel) len bytes = do
  go ← wait_either
  if go
      then (let n : ℕ = if ltb len control_size then len else control_size in
          elim (pgm_read n bytes) [
            | none ↦ (λ u. fault)
            | some (bs, rest) ↦ (do
              emit (send bs ∷ [])
              if not (len - n == 0) || (n == control_size)
                  then send_loop fuel (len - n) rest
                  else pure tt)
          ])
      else pure tt

-- the number of bytes that are wanted
abbrev pub wanted : (w_length desc_length : ℕ) → ℕ
wanted w_length desc_length =
    let len : ℕ = if ltb w_length 256 then w_length else 255 in
    if ltb desc_length len then desc_length else len

-- at most 255 bytes take 16 packets
unfoldable pub get_descriptor_request :
    List Descriptor → (w_value w_index w_length : ℕ) → Cmd (Unit {0})
unfolding search send_loop
get_descriptor_request descriptors w_value w_index w_length = do
  found ← search num_desc_list descriptors w_value w_index
  elim found [
    | none ↦ emit (stall ∷ [])
    | some d ↦ send_loop 16 (wanted w_length d.length) d.address
  ]

-- the loop of SET_CONFIGURATION, with the turns that are left
unfoldable pub configure_loop : (turns i : ℕ) → (cfg : List ℕ) → Cmd (Unit {0})
configure_loop zero i cfg = pure tt
configure_loop (suc turns) i [] = λ u. fault
configure_loop (suc turns) i (zero ∷ cfg) = do
  emit (select i ∷ enable 0 ∷ [])
  configure_loop turns (suc i) cfg
configure_loop (suc turns) i (suc en ∷ type ∷ size ∷ cfg) = do
  emit (select i ∷ enable (suc en) ∷ shape type size ∷ [])
  configure_loop turns (suc i) cfg
configure_loop (suc turns) i (suc en ∷ _) = λ u. fault

-- SET_FEATURE and CLEAR_FEATURE of an endpoint
unfoldable pub feature : (b_request w_index : ℕ) → Cmd (Unit {0})
feature b_request w_index =
    let i : ℕ = w_index % 128 in
    if leb 1 i && leb i max_endpoint
    then emit (
        send []
        ∷ select i
        ∷ (if b_request == set_feature
            then stall ∷ []
            else disable_stall ∷ reset (2 ^ i) ∷ reset 0 ∷ []))
    else emit (stall ∷ [])

-- the eight bytes of a setup packet
pub record Setup : Type 0 where
  pub bm_request_type : ℕ
  pub b_request : ℕ
  pub w_value : ℕ
  pub w_index : ℕ
  pub w_length : ℕ

unfoldable pub read_setup : List ℕ → Option Setup
read_setup (b0 ∷ b1 ∷ v0 ∷ v1 ∷ i0 ∷ i1 ∷ l0 ∷ l1 ∷ bs) = some (record {
  bm_request_type = b0;
  b_request = b1;
  w_value = v0 + 256 * v1;
  w_index = i0 + 256 * i1;
  w_length = l0 + 256 * l1;
})
read_setup _ = none

module _ (descriptors : List Descriptor) (endpoint : List ℕ) where
  unfoldable pub set_configuration_request : (w_value : ℕ) → Cmd (Unit {0})
  unfolding configure_loop
  set_configuration_request w_value = do
    (λ u. done tt (record u { megausb_configuration = w_value % 256 }))
    emit (send [] ∷ [])
    configure_loop 4 1 endpoint
    emit (reset 30 ∷ reset 0 ∷ [])

  unfoldable pub get_status_request : (bm_request_type w_index : ℕ) → Cmd (Unit {0})
  unfolding usb_wait_in_ready
  get_status_request bm_request_type w_index = do
    usb_wait_in_ready
    (λ u.
        (if bm_request_type == 130
            then emit (
                select (w_index % 256)
                ∷ select 0
                ∷ send ((if u.stalled (w_index % 256) then 1 else 0) ∷ 0 ∷ [])
                ∷ [])
            else emit (send (0 ∷ 0 ∷ []) ∷ []))
          u)

  unfoldable pub request : Setup → Cmd (Unit {0})
  unfolding get_descriptor_request usb_wait_in_ready feature set_configuration_request
      get_status_request
  request s =
      if s.b_request == get_descriptor
      then get_descriptor_request descriptors s.w_value s.w_index s.w_length
      else if s.b_request == set_address
      then (do emit (send [] ∷ []); usb_wait_in_ready; emit (address (s.w_value) ∷ []))
      else if (s.b_request == set_configuration) && (s.bm_request_type == 0)
      then set_configuration_request s.w_value
      else if (s.b_request == get_configuration) && (s.bm_request_type == 128)
      then (do usb_wait_in_ready; (λ u. emit (send (u.megausb_configuration ∷ []) ∷ []) u))
      else if s.b_request == get_status
      then get_status_request s.bm_request_type s.w_index
      else if ((s.b_request == clear_feature) || (s.b_request == set_feature))
          && ((s.bm_request_type == 2) && (s.w_value == 0))
      then feature s.b_request s.w_index
      else emit (stall ∷ [])

  -- The handler, with RXSTPI and the bytes that UEDATX gives.
  unfoldable pub usb_com : (rxstpi : Bool) → (uedatx : List ℕ) → Cmd (Unit {0})
  unfolding request read_setup
  usb_com rxstpi uedatx = do
    emit (select 0 ∷ [])
    if rxstpi
        then (elim (read_setup uedatx) [
          | none ↦ (λ u. fault)
          | some s ↦ (do emit (accept ∷ []); request s)
        ])
        else emit (stall ∷ [])
