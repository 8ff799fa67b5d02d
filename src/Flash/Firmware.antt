-- ===== src/Flash/Firmware.antt =====
-- utils/fdfu/src/main.c: the image of the firmware by pages, its upload, and its verification.
use flipper.Prelude.{
  ℕ, zero, suc, ◌+◌, ◌*◌, ◌/◌, ◌%◌, ◌^◌, List, [], ◌∷◌, ◌++◌, Option, none, some, Bool, true, false,
  not, ◌&&◌, if◌then◌else◌, length, take, drop, ltb, ◌==◌,
}
use flipper.Prelude.Bytes.{of_le, peek, bytes_eq}
use flipper.Prelude.Outcome.{fault, pure, ◌>>=◌, ◌>>◌}
use flipper.Error.{e_no_device, e_unimplemented}
use flipper.Flash.{Link, Cmd, sys, raise}
use flipper.Flash.Commands.{
  fsr, frr, farg, sgpb, ggpb, sam_ba_jump, sam_ba_write_word, sam_ba_read_byte, sam_ba_read_word,
  sam_ba_write_efc_fcr, sam_ba_copy, enter_normal_mode,
}

abbrev pub page_size : ℕ
page_size = 512

-- lf_ceiling in a size_t
abbrev pub pages_of : (size : ℕ) → ℕ
pages_of size = (size + 511) % 2 ^ 64 / page_size

-- the inner loop, and the rest of the file; `fgetc` sets `feof` behind the last byte
unfoldable pub read_page : (count : ℕ) → (file : List ℕ) → List ℕ × List ℕ
read_page zero file = ([], file)
read_page (suc n) [] = let r = read_page n [] in (0 ∷ r.0, r.1)
read_page (suc n) (b ∷ file) = let r = read_page n file in (b ∷ r.0, r.1)

unfoldable pub read_pages : (pages : ℕ) → (file : List ℕ) → List ℕ
unfolding read_page
read_pages zero file = []
read_pages (suc pages) file = let r = read_page page_size file in r.0 ++ read_pages pages r.1

-- `allocated` is whether `malloc` gives memory, which is not tested; the writes fault where there is a page.
unfoldable pub load_page_data : (allocated : Bool) → (file : List ℕ) → (size : ℕ) → Option (List ℕ)
unfolding read_pages
load_page_data allocated file size =
    if not allocated && not (pages_of size == 0)
    then none
    else some (read_pages (pages_of size) file)

abbrev applet : List ℕ
applet =
    0 ∷ 0 ∷ 0 ∷ 0 ∷ 0 ∷ 0 ∷ 0 ∷ 0 ∷ 0x09 ∷ 0x48 ∷ 0x0A ∷ 0x49 ∷ 0x0B ∷ 0x4A ∷ 0x02 ∷ 0xE0 ∷ 0x08
    ∷ 0xC9 ∷ 0x08 ∷ 0xC0 ∷ 0x01 ∷ 0x3A ∷ 0 ∷ 0x2A ∷ 0xFA ∷ 0xD1 ∷ 0x09 ∷ 0x48 ∷ 0x0A ∷ 0x49 ∷ 0x06
    ∷ 0x4A ∷ 0x11 ∷ 0x43 ∷ 0x01 ∷ 0x60 ∷ 0x70 ∷ 0x47 ∷ 0 ∷ 0xBF ∷ 0xAF ∷ 0xF3 ∷ 0 ∷ 0x80 ∷ 0xAF
    ∷ 0xF3 ∷ 0 ∷ 0x80 ∷ 0 ∷ 0 ∷ 0 ∷ 0 ∷ 0 ∷ 0 ∷ 0 ∷ 0 ∷ 0 ∷ 0 ∷ 0 ∷ 0 ∷ 0x80 ∷ 0 ∷ 0 ∷ 0 ∷ 0x04
    ∷ 0x0A ∷ 0x0E ∷ 0x40 ∷ 0x08 ∷ 0x0A ∷ 0x0E ∷ 0x40 ∷ 0x01 ∷ 0 ∷ 0 ∷ 0x5A ∷ []

-- IRAM_ADDR + 0x800, IRAM_ADDR + IRAM_SIZE and IFLASH0_ADDR
abbrev applet_addr : ℕ
applet_addr = 0x20000800

abbrev stack_addr : ℕ
stack_addr = 0x20020000

abbrev flash_addr : ℕ
flash_addr = 0x00400000

abbrev page_buffer : ℕ
page_buffer = applet_addr + 76

-- What the bytes that are not initialised hold: `ack` of the copy and of enter_normal_mode, and the byte behind
-- the array that is compared.
pub record Stale : Type 0 where
  pub copy_ack : List ℕ
  pub enter_ack : List ℕ
  pub behind : ℕ

module _ {E : Type 0} (k : Link E) (fuel : ℕ) (stale : Stale) where
  -- the wait for the controller, with `retries` more polls
  unfoldable pub await_flash : (retries : ℕ) → Cmd E (Unit {0})
  await_flash zero = do sam_ba_read_byte k fuel fsr; pure tt
  await_flash (suc retries) = do
    b ← sam_ba_read_byte k fuel fsr
    if b % 2 == 0 then await_flash retries else pure tt

  -- The body of the loop over the pages: whether it goes on. The copy succeeds with 0, and the test wants
  -- something else.
  unfoldable pub upload_page : (page : ℕ) → (pagedata : List ℕ) → Cmd E Bool
  unfolding await_flash
  upload_page page pagedata = do
    e ←
        sam_ba_copy k fuel page_buffer (take page_size (drop (page * page_size) pagedata))
          stale.copy_ack
    if e == 0 then (do raise e_unimplemented; pure false) else (do
      sam_ba_write_word k fuel (applet_addr + 0x38) (farg page)
      sam_ba_jump k fuel applet_addr
      await_flash 4
      pure true)

  unfoldable pub upload_loop : (left page : ℕ) → (pagedata : List ℕ) → Cmd E Bool
  unfolding upload_page
  upload_loop zero page pagedata = pure true
  upload_loop (suc left) page pagedata = do
    go ← upload_page page pagedata
    if go then upload_loop left (suc page) pagedata else pure false

  -- the boot bit; the count of retries is 0 at its test
  unfoldable pub set_boot : Cmd E (Unit {0})
  set_boot = do
    sam_ba_write_efc_fcr k fuel sgpb 1
    sam_ba_write_efc_fcr k fuel ggpb 0
    b ← sam_ba_read_byte k fuel frr
    if b / 2 % 2 == 0
        then (do sam_ba_write_efc_fcr k fuel sgpb 1; sam_ba_write_efc_fcr k fuel ggpb 0)
        else pure tt

  -- the words of the verification; the result is the number of errors
  unfoldable pub verify_loop : (left i retries errors : ℕ) → (pagedata : List ℕ) → Cmd E ℕ
  verify_loop zero i retries errors pagedata = pure errors
  verify_loop (suc left) i retries errors pagedata = do
    word ← sam_ba_read_word k fuel (flash_addr + i * 4)
    elim (peek pagedata (i * 4) 4) [
      | none ↦ (λ s. fault)
      | some bytes ↦
          (if not (word % 65536 == of_le bytes % 65536) && ltb retries 4
            then verify_loop left (suc i) (suc retries)
                (if retries == 0 then suc errors else errors) pagedata
            else verify_loop left (suc i) 0 errors pagedata)
    ]

  -- from the copy of the applet to the stack and the addresses in it
  unfoldable pub prepare_applet : Cmd E Bool
  prepare_applet = do
    e ← sam_ba_copy k fuel applet_addr applet stale.copy_ack
    if e == 0 then (do raise e_unimplemented; pure false) else (do
      sam_ba_write_word k fuel applet_addr stack_addr
      sam_ba_write_word k fuel (applet_addr + 4) (applet_addr + 9)
      sam_ba_write_word k fuel (applet_addr + 0x30) flash_addr
      sam_ba_write_word k fuel (applet_addr + 0x34) page_buffer
      pure true)

  -- from the reset to the check of the security bit: whether the tool goes on
  unfoldable pub enter_monitor : Cmd E Bool
  enter_monitor = do
    sys (λ e. (tt, k.sam_reset e))
    e ← enter_normal_mode k fuel stale.enter_ack stale.behind
    if e == 0 then (do raise e_unimplemented; pure false) else (do
      sam_ba_write_efc_fcr k fuel ggpb 0
      word ← sam_ba_read_word k fuel frr
      if word % 2 == 0 then pure true else (do raise e_unimplemented; pure false))

  -- from the image on; 1 is EXIT_FAILURE
  unfoldable pub program : (allocated : Bool) → (file : List ℕ) → (verify : Bool) → Cmd E ℕ
  unfolding load_page_data upload_loop set_boot verify_loop
  program allocated file verify = elim (load_page_data allocated file (length file)) [
    | none ↦ (λ s. fault)
    | some pagedata ↦ (do
      go ← upload_loop (pages_of (length file)) 0 pagedata
      if go
          then (do
            set_boot
            (if verify
                then (do
                  verify_loop ((length file + 3) % 2 ^ 64 / 4 % 2 ^ 32) 0 0 0 pagedata
                  pure tt)
                else pure tt)
            sys (λ e. (tt, k.sam_exit_dfu e))
            sys (λ e. (tt, k.sam_reset e))
            pure 0)
          else pure 1)
  ]

  -- `main` with the arguments behind the name of the tool, where lf_attach gives a status
  unfoldable pub fdfu :
      (attach : E → ℕ × E) (fopen : List ℕ → Option (List ℕ)) (allocated : Bool)
      → (args : List (List ℕ)) → Cmd E ℕ
  unfolding enter_monitor prepare_applet program
  fdfu attach fopen allocated [] = pure 1
  fdfu attach fopen allocated (path ∷ args) = do
    e ← sys attach
    if e == 0 then (do raise e_no_device; pure 1) else elim (fopen path) [
      | none ↦ (do raise e_unimplemented; pure 1)
      | some file ↦ (do
        entered ← enter_monitor
        if entered
            then (do
              ready ← prepare_applet
              if ready then program allocated file (wants args) else pure 1)
            else pure 1)
    ]
    where
      wants : List (List ℕ) → Bool
      wants [] = false
      wants (a ∷ _) = bytes_eq a (118 ∷ 101 ∷ 114 ∷ 105 ∷ 102 ∷ 121 ∷ [])
