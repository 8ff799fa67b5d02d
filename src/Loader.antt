-- ===== src/Loader.antt =====
-- os/src/loader.c and os/include/os/loader.h: the loader of images on a device. An image is its address and
-- the bytes of memory from there on; an access outside of them is a fault. Pointers have four bytes, and
-- arithmetic on them counts in the size of what they point to. The loops read the header in each turn, as the
-- code does, and run on fuel.
pub mod Application
mod Runs
use flipper.Prelude.{
  ℕ, zero, suc, ◌+◌, ◌*◌, ◌/◌, ◌%◌, ◌^◌, List, [], ◌∷◌, ◌++◌, Option, none, some, if◌then◌else◌,
  ltb, ◌==◌,
}
use flipper.Prelude.Bytes.{peek, poke, of_le, to_le}
use flipper.Prelude.Outcome.{Outcome, done, fault, spent, pure, ◌>>=◌, ◌>>◌}
use flipper.Error.{lf_success, lf_error, e_null}

-- struct _lf_abi_header: its size, and where its fields are
abbrev pub header_bytes : ℕ
header_bytes = 44

abbrev entry_at : ℕ
entry_at = 8

abbrev pub module_size_at : ℕ
module_size_at = 12

abbrev module_offset_at : ℕ
module_offset_at = 16

abbrev bss_size_at : ℕ
bss_size_at = 28

abbrev got_size_at : ℕ
got_size_at = 36

abbrev got_offset_at : ℕ
got_offset_at = 40

-- `header` is 0 for NULL. `registered` are the modules that are given to dyld_register.
pub record Image : Type 0 where
  pub header : ℕ
  pub mem : List ℕ
  pub registered : List ℕ
  pub freed_headers : List ℕ
  pub err : ℕ

abbrev pub Cmd : Type 0 → Type 0
Cmd A = Image → Outcome Image A

unfoldable pub load_word : (offset : ℕ) → Cmd ℕ
load_word offset s = elim (peek s.mem offset 4) [ none ↦ fault | some bs ↦ done (of_le bs) s ]

unfoldable pub store_word : (offset word : ℕ) → Cmd (Unit {0})
store_word offset word s = elim (poke s.mem offset (to_le 4 word)) [
  | none ↦ fault
  | some mem ↦ done tt (record s { mem = mem })
]

-- `p[i] += (uintptr_t)header` for the words at an offset
unfoldable pub patch_loop : (fuel i size_at offset : ℕ) → Cmd (Unit {0})
unfolding load_word store_word
patch_loop zero i size_at offset = λ s. spent
patch_loop (suc fuel) i size_at offset = do
  size ← load_word size_at
  if ltb i (size / 4)
      then (do
        w ← load_word (offset + 4 * i)
        (λ s. store_word (offset + 4 * i) ((w + s.header) % 2 ^ 32) s)
        patch_loop fuel (suc i) size_at offset)
      else pure tt

unfoldable pub zero_loop : (fuel i size_at offset : ℕ) → Cmd (Unit {0})
unfolding load_word store_word
zero_loop zero i size_at offset = λ s. spent
zero_loop (suc fuel) i size_at offset = do
  size ← load_word size_at
  if ltb i (size / 4)
      then (do store_word (offset + 4 * i) 0; zero_loop fuel (suc i) size_at offset)
      else pure tt

-- The functions and the table are at four times the offsets of the header, and the words that become zero at the
-- offset of the table. `module_bytes` is sizeof(struct _lf_module).
unfoldable pub relocate : (fuel : ℕ) → Cmd (Unit {0})
unfolding patch_loop zero_loop
relocate fuel = do
  module_offset ← load_word module_offset_at
  patch_loop fuel 0 module_size_at (4 * module_offset)
  got_offset ← load_word got_offset_at
  patch_loop fuel 0 got_size_at (4 * got_offset)
  bss ← load_word got_offset_at
  zero_loop fuel 0 bss_size_at bss

unfoldable pub os_load_image : (fuel module_bytes : ℕ) → Cmd ℕ
unfolding relocate
os_load_image fuel module_bytes s =
    if s.header == 0
    then done lf_error (record s { err = e_null; freed_headers = s.freed_headers ++ 0 ∷ [] })
    else (do
      relocate fuel
      entry ← load_word entry_at
      if entry == 0
          then (do
            module_offset ← load_word module_offset_at
            (λ s. done tt (record s {
              registered =
                  s.registered ++ ((s.header + module_bytes * module_offset) % 2 ^ 32) ∷ [];
            })))
          else pure tt
      pure lf_success)
        s
