-- ===== src/Loader/Runs.antt =====
-- Tests of os/src/loader.c on concrete inputs.
use flipper.Prelude.{ℕ, ◌+◌, ◌≡◌, refl, List, [], ◌∷◌, ◌++◌}
use flipper.Prelude.Bytes.{peek, poke, of_le, to_le}
use flipper.Prelude.Outcome.{done}
use flipper.Error.{lf_success}
use flipper.Loader.{Image, relocate, patch_loop, zero_loop, load_word, store_word, os_load_image}

-- the bytes of some words
abbrev words : List ℕ → List ℕ
words [] = []
words (w ∷ ws) = to_le 4 w ++ words ws

-- The header of two functions right behind it, and, behind four more bytes, a table of one address.
abbrev header : List ℕ
header = words (0 ∷ 0 ∷ 0 ∷ 8 ∷ 11 ∷ 0 ∷ 0 ∷ 0 ∷ 0 ∷ 4 ∷ 14 ∷ [])

abbrev image : Image
image = record {
  header = 0x20000000;
  mem = header ++ (words (1 ∷ 2 ∷ []) ++ (words (7 ∷ []) ++ (words (3 ∷ []) ++ 9 ∷ [])));
  registered = [];
  freed_headers = [];
  err = 0;
}

-- The words at four times the offsets are patched, and the others stay.
patched :
    relocate 3 image
    ≡ done tt (record image {
      mem =
          header
          ++ (words (0x20000001 ∷ 0x20000002 ∷ [])
              ++ (words (7 ∷ []) ++ (words (0x20000003 ∷ []) ++ 9 ∷ [])));
    })
unfolding relocate patch_loop zero_loop load_word store_word peek poke of_le to_le
patched = refl

-- A module is registered at its offset times the size of a module, behind the header.
registered :
    os_load_image 3 100
      (record image { mem = words (0 ∷ 0 ∷ 0 ∷ 0 ∷ 11 ∷ 0 ∷ 0 ∷ 0 ∷ 0 ∷ 0 ∷ 0 ∷ []) })
    ≡ done lf_success (record image {
      mem = words (0 ∷ 0 ∷ 0 ∷ 0 ∷ 11 ∷ 0 ∷ 0 ∷ 0 ∷ 0 ∷ 0 ∷ 0 ∷ []);
      registered = (0x20000000 + 1100) ∷ [];
    })
unfolding os_load_image relocate patch_loop zero_loop load_word store_word peek poke of_le to_le
registered = refl

-- The words that become zero are at the offset of the table, here 40: the header loses it.
zeroed :
    os_load_image 3 100
      (record image { mem = words (0 ∷ 0 ∷ 1 ∷ 0 ∷ 11 ∷ 0 ∷ 0 ∷ 4 ∷ 44 ∷ 0 ∷ 40 ∷ 5 ∷ []) })
    ≡ done lf_success
        (record image { mem = words (0 ∷ 0 ∷ 1 ∷ 0 ∷ 11 ∷ 0 ∷ 0 ∷ 4 ∷ 44 ∷ 0 ∷ 0 ∷ 5 ∷ []) })
unfolding os_load_image relocate patch_loop zero_loop load_word store_word peek poke of_le to_le
zeroed = refl
