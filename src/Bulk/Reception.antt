-- ===== src/Bulk/Reception.antt =====
-- platforms/atmegau2/src/bulk.c: the bytes of a reception, by the banks that it takes.
use flipper.Prelude.{
  ℕ, zero, suc, ◌+◌, ◌*◌, ◌/◌, ◌^◌, ◌≤◌, ◌<◌, ◌≡◌, refl, sym, ap, ◌∙◌, List, [], ◌∷◌, ◌++◌,
  append_assoc, append-nil, some, true, length, arith, if◌then◌else◌,
}
use flipper.Prelude.Outcome.{done}
use flipper.Error.{lf_success, lf_error}
use flipper.Bulk.{bulk_size, Controller, fill, drain, receive_loop, turns, megausb_bulk_receive}
use flipper.Bulk.Transfer.{Lets, turns-exact, fill-parts, fill-bound, await-ready}

-- the packets of some bytes
abbrev pub parts : (total : ℕ) → List ℕ → List (List ℕ)
parts zero bs = []
parts (suc n) bs = (fill bulk_size bs).0 ∷ parts n (fill bulk_size bs).1

drain-fill :
    (len : ℕ) (bs : List ℕ)
    → drain len (length bs) (fill len bs).0 ≡ some ((fill len bs).0, length (fill len bs).1)
unfolding drain fill
drain-fill zero bs = refl
drain-fill (suc len) [] = drain-fill len []
drain-fill (suc len) (b ∷ bs) = rw (drain-fill len bs) refl

receive_loop-parts :
    (total : ℕ) (bs before : List ℕ) (more : List (List ℕ)) (c : Controller)
    → Lets total c.polls
    → length bs ≤ 64 * total
    → c.banks ≡ parts total bs ++ more
    → (c' : Controller) × (receive_loop total (length bs) before c
        ≡ done (lf_success, before ++ bs) c')
      × (c'.banks ≡ more)
unfolding receive_loop
receive_loop-parts zero [] before more c lets fits banks =
    (c, ap (λ t. done (lf_success, t) c) (sym (append-nil before)), banks)
receive_loop-parts zero (b ∷ bs) before more c lets fits banks = absurd (omega arith)
receive_loop-parts (suc total) bs before more c (qs, here, lets) fits banks =
    let p = (fill bulk_size bs).0 in
    let rest = (fill bulk_size bs).1 in
    let d = record c { polls = qs; banks = parts total rest ++ more } in
    let (c', run, left) =
      receive_loop-parts total rest (before ++ p) more d lets
        (fill-bound bs (64 * total) (omega arith)) refl in
    let whole : (before ++ p) ++ rest ≡ before ++ bs =
      append_assoc before p rest ∙ ap (λ t. before ++ t) (fill-parts bulk_size bs).0 in
    (
      c',
      rw (await-ready c qs here, banks, drain-fill bulk_size bs)
          (run ∙ ap (λ t. done (lf_success, t) c') whole),
      left,
    )

-- the number of packets of some bytes
abbrev pub packets_of : List ℕ → ℕ
packets_of bs = (length bs + 63) / 64

-- For less than 2 ^ 21 - 63 bytes, let a configured controller become ready for each packet before the timeout, and let its
-- banks start with the bytes of a message, 64 in each but for the last one. Then megausb_bulk_receive of as many bytes
-- succeeds with just these bytes in order, and uses up just these banks.
pub megausb_bulk_receive-parts :
    (source : List ℕ) (c : Controller) (more : List (List ℕ))
    → c.configured ≡ true
    → length source + 63 < 2 ^ 21
    → Lets (packets_of source) c.polls
    → c.banks ≡ parts (packets_of source) source ++ more
    → (c' : Controller) × (megausb_bulk_receive (length source) c ≡ done (lf_success, source) c')
      × (c'.banks ≡ more)
unfolding megausb_bulk_receive
megausb_bulk_receive-parts source c more on small lets banks =
    let total = packets_of source in
    let whole = turns-exact (length source) small in
    let (c', received, left) = receive_loop-parts total source [] more c lets (omega arith) banks in
    (
      c',
      ap
            (λ t.
              if t
              then receive_loop (turns (length source)) (length source) [] c
              else done (lf_error, []) c)
            on
          ∙ ap (λ n. receive_loop n (length source) [] c) whole
          ∙ received,
      left,
    )
