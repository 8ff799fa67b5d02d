-- ===== src/Flash/Runs.antt =====
-- Tests of utils/fdfu/src/main.c on concrete inputs.
use flipper.Prelude.{
  ℕ, ◌+◌, ◌≡◌, ◌<◌, refl, [], ◌∷◌, ◌++◌, some, true, false, arith, replicate, ◌*◌,
}
use flipper.Prelude.Bytes.{of_le, peek, bytes_eq}
use flipper.Prelude.Outcome.{done, spent}
use flipper.Crc.{lf_crc}
use flipper.Error.{lf_success, e_unimplemented}
use flipper.Flash.{
  Link, Tool, xpacket, sam_write, release_failed, fail_with, finish, write_chunks, read_chunks,
  sam_read, hex,
}
use flipper.Flash.Commands.{
  sam_ba_read_word, await_byte, sam_ba_copy, start_copy, send_copy, packet_loop, end_copy, getbyte,
}
use flipper.Flash.Firmware.{Stale, pages_of, load_page_data, verify_loop, upload_page}
use flipper.Flash.Pages.{load_page_data-padded}

-- a device whose calls all give one status, and whose line always holds the same byte
abbrev steady : (status : ℕ) → Link (Unit {0})
steady status = record {
  malloc = λ n e. (status, 64, e);
  free = λ p e. (status, e);
  push = λ p bs e. (status, e);
  pull = λ p n e. (status, replicate n 67, e);
  uart0_write = λ p n e. (status, e);
  uart0_read = λ p n e. (status, e);
  uart0_reset = λ e. (status, e);
  uart0_ready = λ e. (1, e);
  uart0_get = λ e. (6, e);
  uart0_put = λ b e. e;
  sam_enter_dfu = λ e. e;
  sam_exit_dfu = λ e. e;
  sam_reset = λ e. e;
}

abbrev tool : Tool (Unit {0})
tool = record { err = 0; env = tt }

load_page_data-padded_example :
    (load_page_data true (replicate 600 7) 600 ≡ some (replicate 600 7 ++ replicate 424 0))
    × (600 + 424 ≡ pages_of 600 * 512)
    × (424 < 512)
load_page_data-padded_example = load_page_data-padded (replicate 600 7) (omega arith)

-- On a device whose calls succeed with 0, a write does not come back.
hang : sam_write (steady 0) 100 (71 ∷ []) tool ≡ spent
unfolding sam_write fail_with release_failed
hang = refl

-- It comes back where the calls give something else.
written : sam_write (steady 1) 1 (71 ∷ []) tool ≡ done lf_success tool
unfolding sam_write write_chunks finish
written = refl

word : sam_ba_read_word (steady 1) 1 0 tool ≡ done 0x43434343 tool
unfolding sam_ba_read_word sam_write sam_read write_chunks read_chunks finish await_byte hex of_le
word = refl

abbrev stale : Stale
stale = record { copy_ack = 0 ∷ []; enter_ack = 0 ∷ 0 ∷ 0 ∷ []; behind = 0 }

-- A word that differs in its upper half from the image passes the verification.
verified : verify_loop (steady 1) 1 stale 1 0 0 0 (67 ∷ 67 ∷ 0 ∷ 0 ∷ []) tool ≡ done 0 tool
unfolding verify_loop peek sam_ba_read_word sam_write sam_read write_chunks read_chunks finish
    await_byte hex of_le
verified = refl

copied : sam_ba_copy (steady 1) 5 0 (1 ∷ []) (0 ∷ []) tool ≡ done lf_success tool
unfolding sam_ba_copy start_copy send_copy packet_loop end_copy getbyte await_byte xpacket sam_write
    sam_read write_chunks read_chunks finish hex bytes_eq lf_crc
copied = refl

-- The upload ends at the first page whose copy succeeds.
stopped :
    upload_page (steady 1) 5 stale 0 (1 ∷ []) tool
    ≡ done false (record tool { err = e_unimplemented })
unfolding upload_page sam_ba_copy start_copy send_copy packet_loop end_copy getbyte await_byte
    xpacket sam_write sam_read write_chunks read_chunks finish hex bytes_eq lf_crc
stopped = refl
