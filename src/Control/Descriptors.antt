-- ===== src/Control/Descriptors.antt =====
-- platforms/atmegau2/src/descriptors.c: the tables of the usb bridge, with the constants of lib/defines.h and
-- of platforms/atmegau2/include/atmegau2.h.
use flipper.Prelude.{ℕ, List, [], ◌∷◌}
use flipper.Control.{Descriptor}

abbrev vendor_specific : ℕ
vendor_specific = 255

abbrev pub endpoint : List ℕ
endpoint = 1 ∷ 129 ∷ 50 ∷ 1 ∷ 128 ∷ 50 ∷ 1 ∷ 193 ∷ 34 ∷ []

abbrev pub device_descriptor : List ℕ
device_descriptor =
    18 ∷ 1 ∷ 0 ∷ 2 ∷ vendor_specific ∷ 0 ∷ 0 ∷ 16 ∷ 192 ∷ 22 ∷ 128 ∷ 4 ∷ 0 ∷ 1 ∷ 1 ∷ 2 ∷ 0 ∷ 1 ∷ []

-- CONFIGURATION_SIZE is 48.
abbrev pub configuration : List ℕ
configuration =
    9 ∷ 2 ∷ 48 ∷ 0 ∷ 1 ∷ 1 ∷ 0 ∷ 192 ∷ 250 ∷ 9 ∷ 4 ∷ 0 ∷ 0 ∷ 2 ∷ vendor_specific ∷ 1 ∷ 1 ∷ 0 ∷ 7 ∷ 5
    ∷ 129 ∷ 2 ∷ 64 ∷ 0 ∷ 1 ∷ 7 ∷ 5 ∷ 2 ∷ 2 ∷ 64 ∷ 0 ∷ 1 ∷ 9 ∷ 4 ∷ 1 ∷ 0 ∷ 1 ∷ vendor_specific ∷ 1
    ∷ 1 ∷ 0 ∷ 7 ∷ 5 ∷ 131 ∷ 3 ∷ 32 ∷ 0 ∷ 1 ∷ []

-- The strings are of 16-bit characters and end with a zero, and `sizeof` counts it.
abbrev pub language : List ℕ
language = 4 ∷ 3 ∷ 9 ∷ 4 ∷ []

abbrev pub manufacturer : List ℕ
manufacturer =
    22 ∷ 3 ∷ 102 ∷ 0 ∷ 108 ∷ 0 ∷ 105 ∷ 0 ∷ 112 ∷ 0 ∷ 112 ∷ 0 ∷ 101 ∷ 0 ∷ 114 ∷ 0 ∷ 46 ∷ 0 ∷ 105 ∷ 0
    ∷ 111 ∷ 0 ∷ 0 ∷ 0 ∷ []

abbrev pub product : List ℕ
product =
    32 ∷ 3 ∷ 70 ∷ 0 ∷ 108 ∷ 0 ∷ 105 ∷ 0 ∷ 112 ∷ 0 ∷ 112 ∷ 0 ∷ 101 ∷ 0 ∷ 114 ∷ 0 ∷ 58 ∷ 0 ∷ 32 ∷ 0
    ∷ 67 ∷ 0 ∷ 97 ∷ 0 ∷ 114 ∷ 0 ∷ 98 ∷ 0 ∷ 111 ∷ 0 ∷ 110 ∷ 0 ∷ 0 ∷ 0 ∷ []

abbrev pub descriptors : List Descriptor
descriptors =
    record { value = 256; index = 0; address = device_descriptor; length = 18 }
    ∷ record { value = 512; index = 0; address = configuration; length = 48 }
    ∷ record { value = 768; index = 0; address = language; length = 4 }
    ∷ record { value = 769; index = 1033; address = manufacturer; length = 22 }
    ∷ record { value = 770; index = 1033; address = product; length = 32 }
    ∷ []
