-- ===== src/Flash/Pages.antt =====
-- utils/fdfu/src/main.c: the image of load_page_data and the bytes of the file.
use flipper.Prelude.{
  ℕ, zero, suc, ◌+◌, ◌-◌, ◌*◌, ◌%◌, ◌^◌, ◌≤◌, ◌<◌, ◌≡◌, refl, sym, ap, ◌∙◌, List, [], ◌∷◌, ◌++◌,
  some, true, arith, length, drop, replicate,
}
use native.Mathlib.Nat.{mod-eq_of_lt}
use flipper.Flash.Firmware.{page_size, pages_of, read_page, read_pages, load_page_data}

-- the file with zeros behind it, cut at a length
abbrev padded : (count : ℕ) → List ℕ → List ℕ
padded zero file = []
padded (suc n) [] = 0 ∷ padded n []
padded (suc n) (b ∷ file) = b ∷ padded n file

drop-nil : (n : ℕ) → drop {A = ℕ} n [] ≡ []
drop-nil zero = refl
drop-nil (suc n) = refl

padded-append :
    (n m : ℕ) (file : List ℕ) → padded (n + m) file ≡ padded n file ++ padded m (drop n file)
padded-append zero m file = ap (λ t. padded t file) (omega arith)
padded-append (suc n) m [] =
    let e : suc n + m ≡ suc (n + m) = omega arith in
    ap (λ t. padded t []) e
    ∙ ap (λ t. 0 ∷ t) (padded-append n m [] ∙ ap (λ t. padded n [] ++ padded m t) (drop-nil n))
padded-append (suc n) m (b ∷ file) =
    let e : suc n + m ≡ suc (n + m) = omega arith in
    ap (λ t. padded t (b ∷ file)) e ∙ ap (λ t. b ∷ t) (padded-append n m file)

padded-fits :
    (n : ℕ) (file : List ℕ)
    → length file ≤ n
    → padded n file ≡ file ++ replicate (n - length file) 0
padded-fits zero [] h = refl
padded-fits zero (b ∷ file) h = absurd (omega arith)
padded-fits (suc n) [] h =
    let e : suc (n - 0) ≡ suc n - 0 = omega arith in
    ap (λ t. 0 ∷ t) (padded-fits n [] (omega arith)) ∙ ap (λ t. replicate t 0) e
padded-fits (suc n) (b ∷ file) h =
    let e : n - length file ≡ suc n - suc (length file) = omega arith in
    ap (λ t. b ∷ t) (padded-fits n file (omega arith) ∙ ap (λ t. file ++ replicate t 0) e)

read_page-padded : (n : ℕ) (file : List ℕ) → read_page n file ≡ (padded n file, drop n file)
unfolding read_page
read_page-padded zero file = refl
read_page-padded (suc n) [] =
    rw (read_page-padded n []) (ap (λ t. (0 ∷ padded n [], t)) (drop-nil n))
read_page-padded (suc n) (b ∷ file) = rw (read_page-padded n file) refl

read_pages-padded : (pages : ℕ) (file : List ℕ) → read_pages pages file ≡ padded (pages * 512) file
unfolding read_pages
read_pages-padded zero file = refl
read_pages-padded (suc pages) file =
    let e : page_size + pages * 512 ≡ suc pages * 512 = omega arith in
    rw (read_page-padded page_size file) (
      ap (λ t. padded page_size file ++ t) (read_pages-padded pages (drop page_size file))
      ∙ sym (padded-append page_size (pages * 512) file)
      ∙ ap (λ t. padded t file) e)

pages_bounds : (n : ℕ) → n + 511 < 2 ^ 64 → (n ≤ pages_of n * 512) × (pages_of n * 512 < n + 512)
pages_bounds n h =
    let e : (n + 511) % 2 ^ 64 ≡ n + 511 = mod-eq_of_lt h in (omega arith, omega arith)

-- When `malloc` gives memory and the size is that of the file, with 511 more still in 64 bits, load_page_data
-- gives the file with zeros behind it: whole pages of 512 bytes, and less than a page of zeros.
pub load_page_data-padded :
    (file : List ℕ)
    → length file + 511 < 2 ^ 64
    → let zeros : ℕ = pages_of (length file) * 512 - length file in
      (load_page_data true file (length file) ≡ some (file ++ replicate zeros 0))
      × (length file + zeros ≡ pages_of (length file) * 512)
      × (zeros < 512)
unfolding load_page_data
load_page_data-padded file h =
    let fits : length file ≤ pages_of (length file) * 512 = (pages_bounds (length file) h).0 in
    (
      ap some (
          read_pages-padded (pages_of (length file)) file
          ∙ padded-fits (pages_of (length file) * 512) file fits),
      omega arith,
      omega (arith, pages_bounds (length file) h),
    )
