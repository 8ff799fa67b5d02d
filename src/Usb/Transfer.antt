-- ===== src/Usb/Transfer.antt =====
-- platforms/posix/src/libusb.c: the transfers of a write, and those with a size that has never been set.
use flipper.Prelude.{
  ℕ, zero, suc, ◌≤◌, ◌<◌, ◌≡◌, refl, ap, ◌∙◌, List, [], ◌∷◌, ◌++◌, arith, All, true, length, take,
  drop, ◌==◌, length-take, length-drop,
}
use flipper.Prelude.Outcome.{done}
use flipper.Error.{lf_success}
use flipper.Bulk.Transfer.{concat}
use flipper.Usb.{Context, context, Host, Session, chunk, write_loop, lf_libusb_write}

take-drop : (n : ℕ) (xs : List ℕ) → take n xs ++ drop n xs ≡ xs
take-drop zero xs = refl
take-drop (suc n) [] = refl
take-drop (suc n) (x ∷ xs) = ap (λ t. x ∷ t) (take-drop n xs)

chunk_size :
    (n size : ℕ)
    → 0 < n
    → 0 < size
    → (0 < chunk n size) × (chunk n size ≤ n) × (chunk n size ≤ size)
chunk_size n size pos h = ground arith

module _ {E : Type 0} (k : Host E) (ctx : Context) where
  -- the world after some transfers in order
  abbrev pub deliver : List (List ℕ) → E → E
  deliver [] env = env
  deliver (p ∷ ps) env = deliver ps (k.transfer_out ctx.handle ctx.out_endpoint p env).1

  abbrev pub Accepts : Type 0
  Accepts =
      (bytes : List ℕ) (env : E) → (k.transfer_out ctx.handle ctx.out_endpoint bytes env).0 ≡ 0

  -- the state behind a transfer
  abbrev turned : List ℕ → Session E → Session E
  turned p s = record s { env = (k.transfer_out ctx.handle ctx.out_endpoint p s.env).1 }

  write_turn :
      (fuel b n : ℕ) (src : List ℕ) (s : Session E)
      → (k.transfer_out ctx.handle ctx.out_endpoint (take n (b ∷ src)) s.env).0 ≡ 0
      → chunk (length (b ∷ src)) ctx.out_sz ≡ n
      → write_loop k (suc fuel) ctx (b ∷ src) s
        ≡ write_loop k fuel ctx (drop n (b ∷ src)) (turned (take n (b ∷ src)) s)
  unfolding write_loop
  write_turn fuel b n src s accepted size =
      let ok : ((k.transfer_out ctx.handle ctx.out_endpoint (take n (b ∷ src)) s.env).0 == 0)
          ≡ true =
        ap (λ t. t == 0) accepted in
      rw (size, ok) refl

  write_loop-delivers :
      (fuel : ℕ) (src : List ℕ) (s : Session E)
      → 0 < ctx.out_sz
      → Accepts
      → length src ≤ fuel
      → (packets : List (List ℕ)) × (concat packets ≡ src)
        × All (λ p. (0 < length p) × (length p ≤ ctx.out_sz)) packets
        × (write_loop k fuel ctx src s ≡ done lf_success (record s { env = deliver packets s.env }))
  unfolding write_loop
  write_loop-delivers fuel [] s size accepts enough = ([], refl, tt, refl)
  write_loop-delivers zero (b ∷ src) s size accepts enough = absurd (omega arith)
  write_loop-delivers (suc fuel) (b ∷ src) s size accepts enough =
      let n = chunk (length (b ∷ src)) ctx.out_sz in
      let (pos, fits, small) = chunk_size (length (b ∷ src)) ctx.out_sz (omega arith) size in
      let p = take n (b ∷ src) in
      let env' = (k.transfer_out ctx.handle ctx.out_endpoint p s.env).1 in
      let l = length-take n (b ∷ src) fits in
      let (ps, whole, sizes, run) =
        write_loop-delivers fuel (drop n (b ∷ src)) (record s { env = env' }) size accepts
          (omega (arith, length-drop {0} n (b ∷ src))) in
      (
        p ∷ ps,
        ap (λ t. p ++ t) whole ∙ take-drop n (b ∷ src),
        ((omega arith, omega arith), sizes),
        write_turn fuel b n src s (accepts p s.env) refl ∙ run,
      )

  -- On a device with a context whose size for writes is not 0, when no transfer fails, a write with as much fuel as it has bytes
  -- ends: it succeeds after transfers of at least one byte and at most that size, which together are the bytes of the
  -- source in order.
  lf_libusb_write-delivers :
      (fuel : ℕ) (src : List ℕ) (s : Session E)
      → 0 < ctx.out_sz
      → Accepts
      → length src ≤ fuel
      → (packets : List (List ℕ)) × (concat packets ≡ src)
        × All (λ p. (0 < length p) × (length p ≤ ctx.out_sz)) packets
        × (lf_libusb_write k fuel (context ctx) src s
            ≡ done lf_success (record s { env = deliver packets s.env }))
  unfolding lf_libusb_write
  lf_libusb_write-delivers fuel src s size accepts enough =
      write_loop-delivers fuel src s size accepts enough
