-- ===== src/Prelude/Bytes.antt =====
-- Memory as a list of bytes: little-endian numbers, and reads and writes at an offset. An access that
-- leaves the object is `none`.
use Prim.Native.Nat.{ℕ, zero, suc, ◌+◌, ◌*◌, ◌/◌, ◌%◌, ◌^◌, ◌≤◌, ◌<◌}
use mathlib.Core.Path.{◌≡◌, refl, sym, ap, ◌∙◌}
use mathlib.Core.Bool.{Bool, true, false, ◌&&◌}
use mathlib.Core.List.{List, [], ◌∷◌, ◌++◌, append_assoc}
use mathlib.Core.Option.{Option, none, some}
use native.Mathlib.Nat.{
  pow-suc, one-le-pow, div-add-mod, mod-lt, mod-eq_of_lt, add-mul-mod_self_left, mod-mod,
}
use native.Mathlib.Omega.{arith}
use flipper.Prelude.Tests.{leb, ◌==◌, if◌then◌else◌}
use flipper.Prelude.Lists.{
  length, take, drop, length-append, take-length-append, drop-length-append, All,
}

-- the low `n` bytes of a number, lowest first, and the number of a list of bytes
unfoldable pub to_le : ℕ → ℕ → List ℕ
to_le zero x = []
to_le (suc n) x = x % 256 ∷ to_le n (x / 256)

unfoldable pub of_le : List ℕ → ℕ
of_le [] = 0
of_le (b ∷ bs) = b + 256 * of_le bs

pub length-to_le : (n x : ℕ) → length (to_le n x) ≡ n
unfolding to_le
length-to_le zero x = refl
length-to_le (suc n) x = ap suc (length-to_le n (x / 256))

of_le_step : (x m : ℕ) → 0 < m → x % 256 + 256 * (x / 256 % m) ≡ x % (m * 256)
of_le_step x m h =
    let q : ℕ = x / 256 in
    let low : ℕ = x % 256 + 256 * (q % m) in
    let split : x ≡ low + m * 256 * (q / m) = omega (arith, div-add-mod q m) in
    let fits : low < m * 256 = omega (arith, mod-lt q h) in
    sym (
      ap (λ t. t % (m * 256)) split
      ∙ add-mul-mod_self_left low (m * 256) (q / m)
      ∙ mod-eq_of_lt fits)

-- Reading back `n` bytes gives the number modulo 256 ^ n.
pub of_le-to_le : (n x : ℕ) → of_le (to_le n x) ≡ x % 256 ^ n
unfolding to_le of_le
of_le-to_le zero x = omega arith
of_le-to_le (suc n) x =
    ap (λ t. x % 256 + 256 * t) (of_le-to_le n (x / 256))
    ∙ of_le_step x (256 ^ n) (one-le-pow n 256 (omega arith))
    ∙ ap (λ t. x % t) (sym (pow-suc 256 n))

-- `n` bytes from the offset on
unfoldable pub peek : List ℕ → (offset n : ℕ) → Option (List ℕ)
peek mem offset n = if leb (offset + n) (length mem) then some (take n (drop offset mem)) else none

-- the memory with the bytes written at the offset
unfoldable pub poke : List ℕ → (offset : ℕ) → List ℕ → Option (List ℕ)
poke mem offset bs =
    if leb (offset + length bs) (length mem)
    then some (take offset mem ++ (bs ++ drop (offset + length bs) mem))
    else none

-- A C string: the bytes before the first zero.
unfoldable pub c_string : List ℕ → Option (List ℕ)
c_string [] = none
c_string (b ∷ bs) =
    if b == 0 then some [] else elim (c_string bs) [ none ↦ none | some s ↦ some (b ∷ s) ]

-- `strcmp(a, b) == 0`, and other comparisons of bytes
unfoldable pub bytes_eq : List ℕ → List ℕ → Bool
bytes_eq [] [] = true
bytes_eq [] (b ∷ bs) = false
bytes_eq (a ∷ as') [] = false
bytes_eq (a ∷ as') (b ∷ bs) = (a == b) && bytes_eq as' bs

pub bytes_eq_refl : (a : List ℕ) → bytes_eq a a ≡ true
unfolding bytes_eq
bytes_eq_refl [] = refl
bytes_eq_refl (a ∷ as') = ground (arith, bytes_eq_refl as')

pub bytes_eq→eq : (a b : List ℕ) → bytes_eq a b ≡ true → a ≡ b
unfolding bytes_eq
bytes_eq→eq [] [] h = refl
bytes_eq→eq [] (b ∷ bs) h = cc
bytes_eq→eq (a ∷ as') [] h = cc
bytes_eq→eq (a ∷ as') (b ∷ bs) h = ground (arith, bytes_eq→eq as' bs)

pub peek_at : (xs bs ys : List ℕ) → peek (xs ++ (bs ++ ys)) (length xs) (length bs) ≡ some bs
unfolding peek
peek_at xs bs ys =
    rw (drop-length-append, take-length-append)
      (ground (arith, length-append xs (bs ++ ys), length-append bs ys))

pub poke_at :
    (xs os bs ys : List ℕ)
    → length os ≡ length bs
    → poke (xs ++ (os ++ ys)) (length xs) bs ≡ some (xs ++ (bs ++ ys))
unfolding poke
poke_at xs os bs ys e =
    let fits : leb (length xs + length bs) (length (xs ++ (os ++ ys))) ≡ true =
      ground (arith, length-append xs (os ++ ys), length-append os ys) in
    let end : length xs + length bs ≡ length (xs ++ os) = omega (arith, length-append xs os) in
    rw (fits, take-length-append)
      (ap (λ t. some (xs ++ (bs ++ t)))
        (rw (← append_assoc xs os ys) (rw end (drop-length-append (xs ++ os) ys))))

pub of_le-append : (xs ys : List ℕ) → of_le (xs ++ ys) ≡ of_le xs + 256 ^ length xs * of_le ys
unfolding of_le
of_le-append [] ys = omega arith
of_le-append (x ∷ xs) ys =
    omega (arith, of_le-append xs ys, ap (λ t. t * of_le ys) (pow-suc 256 (length xs)))

-- The low bytes of a number determine it modulo a power of 256, whatever stands above them.
pub of_le-low : (n x : ℕ) (ys : List ℕ) → of_le (to_le n x ++ ys) % 256 ^ n ≡ x % 256 ^ n
of_le-low n x ys =
    ap (λ t. t % 256 ^ n) (of_le-append (to_le n x) ys)
    ∙ ap (λ t. (of_le (to_le n x) + 256 ^ t * of_le ys) % 256 ^ n) (length-to_le n x)
    ∙ add-mul-mod_self_left (of_le (to_le n x)) (256 ^ n) (of_le ys)
    ∙ ap (λ t. t % 256 ^ n) (of_le-to_le n x)
    ∙ mod-mod x (256 ^ n)

pub to_le_byte : (x : ℕ) → x < 256 → of_le (to_le 1 x) ≡ x
unfolding to_le of_le
to_le_byte x h = omega arith

pub to_le_word : (x : ℕ) → x < 65536 → of_le (to_le 2 x) ≡ x
unfolding to_le of_le
to_le_word x h = omega arith

-- A list with enough elements is cut at a place.
pub split_at :
    (n : ℕ) (xs : List ℕ)
    → n ≤ length xs
    → (ys : List ℕ) × (zs : List ℕ) × (xs ≡ ys ++ zs) × (length ys ≡ n)
split_at zero xs h = ([], xs, refl, refl)
split_at (suc n) [] h = absurd (omega arith)
split_at (suc n) (x ∷ xs) h =
    let (ys, zs, e, l) = split_at n xs (omega arith) in (x ∷ ys, zs, ap (λ t. x ∷ t) e, ap suc l)

-- The same with the place and the number of bytes given by equations.
pub peek_in :
    {mem : List ℕ} {offset n : ℕ} (xs bs ys : List ℕ)
    → mem ≡ xs ++ (bs ++ ys)
    → length xs ≡ offset
    → length bs ≡ n
    → peek mem offset n ≡ some bs
peek_in xs bs ys e o l = rw (e, ← o, ← l) (peek_at xs bs ys)

pub poke_in :
    {mem : List ℕ} {offset : ℕ} (xs os bs ys : List ℕ)
    → mem ≡ xs ++ (os ++ ys)
    → length xs ≡ offset
    → length os ≡ length bs
    → poke mem offset bs ≡ some (xs ++ (bs ++ ys))
poke_in xs os bs ys e o l = rw (e, ← o) (poke_at xs os bs ys l)

pub bytes_eq_sym : (a b : List ℕ) → bytes_eq a b ≡ bytes_eq b a
unfolding bytes_eq
bytes_eq_sym [] [] = refl
bytes_eq_sym [] (b ∷ bs) = refl
bytes_eq_sym (a ∷ as') [] = refl
bytes_eq_sym (a ∷ as') (b ∷ bs) = ground (arith, bytes_eq_sym as' bs)

-- The bytes of an object at a place that it has.
pub record Carved (mem : List ℕ) (offset n : ℕ) : Type 0 where
  pub front : List ℕ
  pub here : List ℕ
  pub back : List ℕ
  pub whole : mem ≡ front ++ (here ++ back)
  pub front_size : length front ≡ offset
  pub here_size : length here ≡ n

pub carve : (mem : List ℕ) (offset n : ℕ) → offset + n ≤ length mem → Carved mem offset n
carve mem offset n h =
    let (front, rest, e, l) = split_at offset mem (omega arith) in
    let (here, back, e', l') =
      split_at n rest (omega (arith, ap length e, length-append {0} front rest)) in
    record {
      front = front;
      here = here;
      back = back;
      whole = e ∙ ap (λ t. front ++ t) e';
      front_size = l;
      here_size = l';
    }

-- A write at a place that the object has, and what reads there before and behind it give.
pub poke_fits :
    (mem : List ℕ) (offset : ℕ) (bs : List ℕ)
    → offset + length bs ≤ length mem
    → (mem' : List ℕ) × (poke mem offset bs ≡ some mem')
      × (peek mem' offset (length bs) ≡ some bs)
      × (length mem' ≡ length mem)
poke_fits mem offset bs h =
    let c = carve mem offset (length bs) h in
    let mem' = c.front ++ (bs ++ c.back) in
    (
      mem',
      poke_in c.front c.here bs c.back c.whole c.front_size c.here_size,
      peek_in c.front bs c.back refl c.front_size refl,
      omega (
        arith,
        ap length c.whole,
        c.here_size,
        length-append {0} c.front (bs ++ c.back),
        length-append {0} bs c.back,
        length-append {0} c.front (c.here ++ c.back),
        length-append {0} c.here c.back,
      ),
    )

-- The bytes before the first zero are what a C string reads.
pub c_string-append : (s more : List ℕ) → All (λ b. 0 < b) s → c_string (s ++ 0 ∷ more) ≡ some s
unfolding c_string
c_string-append [] more h = refl
c_string-append (b ∷ bs) more (pos, rest) =
    let differs : (b == 0) ≡ false = ground arith in rw (differs, c_string-append bs more rest) refl
