-- ===== src/Debug.antt =====
-- lib/debug.c: what the library prints of a packet, and the memory that it reads for that. The values that are
-- printed are the result, the words between them are left out. The strings of an array are modelled by the index that is read. A
-- packet is the packet at hand of a device.
pub mod Print
mod Runs
use flipper.Prelude.{
  ℕ, zero, suc, ◌+◌, List, [], ◌∷◌, Option, none, some, Bool, true, false, ◌||◌, if◌then◌else◌,
  drop, ltb, ◌==◌,
}
use flipper.Prelude.Bytes.{peek, of_le, c_string}
use flipper.Prelude.Outcome.{done, pure, ◌>>=◌}
use flipper.Device.{Cmd, access}
use flipper.Fmr.{fmr_magic_number, lf_sizeof, field}

-- LF_DEBUG_LEVEL_ALL
abbrev pub level_all : ℕ
level_all = 3

-- an argument: its type, whether "u" stands before it, and its value
pub record ArgText : Type 0 where
  pub type : ℕ
  pub unsigned : Bool
  pub value : ℕ

-- what is printed behind the class
pub data Payload : Type 0 where
  exec : (module' function ret : ℕ) → (types : List ℕ) → (args : List ArgText) → Payload
  memory_text : (at len : ℕ) → Payload
  name_text : List ℕ → Payload
  size_text ptr_text : ℕ → Payload

pub data Text : Type 0 where
  invalid_magic : (magic : ℕ) → Text
  packet_text : (crc len class : ℕ) → Payload → (dump : List ℕ) → Text

abbrev pub is_unsigned : ℕ → Bool
is_unsigned type = (type == 3) || (type == 6) || (type == 16) || (type == 17) || (type == 19)

module _ {E : Type 0} where
  -- `typestrs[type]` and `classstrs[type]`: the arrays have 32 and 6 entries
  unfoldable pub type_string : (type : ℕ) → Cmd E ℕ
  type_string type = access (if ltb type 32 then some type else none)

  unfoldable pub class_string : (type : ℕ) → Cmd E ℕ
  class_string type = access (if ltb type 6 then some type else none)

  -- the loop over the types, for those that are left from index `i` on
  unfoldable pub call_types : (left i : ℕ) → Cmd E (List ℕ)
  unfolding type_string field
  call_types zero i = pure []
  call_types (suc left) i = do
    type ← field (10 + i) 1
    string ← type_string type
    more ← call_types left (i + 1)
    pure (string ∷ more)

  -- the loop over the arguments
  unfoldable pub call_args : (left i offset : ℕ) → Cmd E (List ArgText)
  unfolding type_string field
  call_args zero i offset = pure []
  call_args (suc left) i offset = do
    type ← field (10 + i) 1
    bs ← (λ d. access (peek d.packet offset (lf_sizeof type)) d)
    string ← type_string type
    more ← call_args left (i + 1) (offset + lf_sizeof type)
    pure (record { type = string; unsigned = is_unsigned type; value = of_le bs } ∷ more)

  unfoldable pub lf_debug_call : Cmd E Payload
  unfolding type_string call_types call_args field
  lf_debug_call = do
    module' ← field 6 1
    function ← field 7 1
    ret ← field 8 1
    string ← type_string ret
    argc ← field 9 1
    types ← call_types argc 0
    args ← call_args argc 0 26
    pure (exec module' function string types args)

  -- the cases of the `switch`; there is none but these behind class_string
  unfoldable pub payload : (class : ℕ) → Cmd E Payload
  unfolding lf_debug_call field
  payload class =
      if class == 0
      then lf_debug_call
      else if (class == 1) || (class == 2)
      then (do at ← field 10 8; len ← field 6 4; pure (memory_text at len))
      else if class == 3
      then (do s ← (λ d. access (c_string (drop 6 d.packet)) d); pure (name_text s))
      else if class == 4
      then (do n ← field 6 4; pure (size_text n))
      else (do at ← field 10 8; pure (ptr_text at))

  -- none is nothing; `level` is lf_debug_level
  unfoldable pub lf_debug_packet : (level : ℕ) → Cmd E (Option Text)
  unfolding class_string payload field
  lf_debug_packet level =
      if level == level_all
      then (do
        magic ← field 0 1
        if magic == fmr_magic_number
            then (do
              crc ← field 1 2
              len ← field 3 2
              type ← field 5 1
              class ← class_string type
              shown ← payload class
              dump ← (λ d. access (peek d.packet 0 len) d)
              pure (some (packet_text crc len class shown dump)))
            else pure (some (invalid_magic magic)))
      else pure none
