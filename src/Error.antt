-- ===== src/Error.antt =====
-- lib/error.h, lib/errors.def and lib/error.c: status codes, error codes and the error register
-- `_lf_err`. An error code is its number in the enumeration. The strings are printed only, and
-- `lf_error_string` is modelled by the index that it reads.
use flipper.Prelude.{ℕ, suc, Option, none, some, ltb, leb, if◌then◌else◌}

abbrev pub lf_success : ℕ
lf_success = 0

abbrev pub lf_error : ℕ
lf_error = 1

abbrev pub e_ok : ℕ
e_ok = 0

abbrev pub e_malloc : ℕ
e_malloc = 1

abbrev pub e_null : ℕ
e_null = 2

abbrev pub e_overflow : ℕ
e_overflow = 3

abbrev pub e_no_device : ℕ
e_no_device = 5

abbrev pub e_fmr : ℕ
e_fmr = 11

abbrev pub e_endpoint : ℕ
e_endpoint = 12

abbrev pub e_libusb : ℕ
e_libusb = 13

abbrev pub e_communication : ℕ
e_communication = 14

abbrev pub e_socket : ℕ
e_socket = 15

abbrev pub e_module : ℕ
e_module = 16

abbrev pub e_checksum : ℕ
e_checksum = 19

abbrev pub e_boundary : ℕ
e_boundary = 24

abbrev pub e_timeout : ℕ
e_timeout = 26

abbrev pub e_invalid_task : ℕ
e_invalid_task = 28

abbrev pub e_unimplemented : ℕ
e_unimplemented = 30

abbrev pub e_uart0_write_timeout : ℕ
e_uart0_write_timeout = 33

abbrev pub e_uart0_read_timeout : ℕ
e_uart0_read_timeout = 34

abbrev pub lf_max_err : ℕ
lf_max_err = 35

-- the new value of `_lf_err`; an error out of bounds raises E_BOUNDARY instead
unfoldable pub lf_error_set : ℕ → ℕ
lf_error_set err = if ltb err lf_max_err then err else e_boundary

-- the entry of `err_strs` that is read, of LF_MAX_ERR + 1 entries; `none` is "error out of bounds"
unfoldable pub lf_error_string : ℕ → Option ℕ
lf_error_string error = if leb (suc lf_max_err) error then none else some error
