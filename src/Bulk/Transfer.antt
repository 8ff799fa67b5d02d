-- ===== src/Bulk/Transfer.antt =====
-- platforms/atmegau2/src/bulk.c: the packets of a transmission.
use flipper.Prelude.{
  ℕ, zero, suc, ◌+◌, ◌*◌, ◌/◌, ◌%◌, ◌^◌, ◌≤◌, ◌<◌, ◌≡◌, refl, sym, ap, ◌∙◌, List, [], ◌∷◌, ◌++◌,
  append_assoc, append-nil, some, true, length, arith, All, if◌then◌else◌, Bool-cases, inl, inr,
  leb, ltb, lt→ltb,
}
use flipper.Prelude.Outcome.{done}
use flipper.Error.{lf_success, lf_error}
use flipper.Bulk.{
  bulk_size, Poll, Controller, wait, await, fill, transmit_loop, turns, megausb_bulk_transmit,
}

-- For so few bytes the int holds the number of packets.
pub turns-exact : (n : ℕ) → n + 63 < 2 ^ 21 → turns n ≡ (n + 63) / 64
turns-exact n small =
    let whole : (n + 63) % 2 ^ 32 / 64 % 2 ^ 16 ≡ (n + 63) / 64 = omega arith in
    let positive : ltb ((n + 63) / 64) (2 ^ 15) ≡ true =
      lt→ltb ((n + 63) / 64) (2 ^ 15) (omega arith) in
    rw (whole, positive) refl

abbrev pub concat : List (List ℕ) → List ℕ
concat [] = []
concat (p ∷ ps) = p ++ concat ps

-- Polls that let a number of waits end by their `break`.
abbrev pub Lets : (waits : ℕ) → List Poll → Type 0
Lets zero ps = Unit {0}
Lets (suc n) ps = (qs : List Poll) × (wait ps ≡ some (true, qs)) × Lets n qs

pub fill-parts :
    (len : ℕ) (bs : List ℕ)
    → ((fill len bs).0 ++ (fill len bs).1 ≡ bs)
      × (length (fill len bs).0 ≤ len)
      × (length bs ≤ len + length (fill len bs).1)
      × (length (fill len bs).1 + len ≤ length bs + len)
unfolding fill
fill-parts zero bs = (refl, omega arith, omega arith, omega arith)
fill-parts (suc len) [] =
    let (e, a, b, c) = fill-parts len [] in (e, omega arith, omega arith, omega arith)
fill-parts (suc len) (x ∷ bs) =
    let (e, a, b, c) = fill-parts len bs in
    (ap (λ t. x ∷ t) e, omega arith, omega arith, omega arith)

pub fill-rest : (len : ℕ) (bs : List ℕ) → length bs ≤ len → (fill len bs).1 ≡ []
unfolding fill
fill-rest zero [] h = refl
fill-rest zero (x ∷ bs) h = absurd (omega arith)
fill-rest (suc len) [] h = fill-rest len [] (omega arith)
fill-rest (suc len) (x ∷ bs) h = fill-rest len bs (omega arith)

fill-left : (len : ℕ) (bs : List ℕ) → len ≤ length bs → length (fill len bs).1 + len ≡ length bs
unfolding fill
fill-left zero bs h = omega arith
fill-left (suc len) [] h = absurd (omega arith)
fill-left (suc len) (x ∷ bs) h = omega (arith, fill-left len bs (omega arith))

pub fill-bound : (bs : List ℕ) (k : ℕ) → length bs ≤ 64 + k → length (fill bulk_size bs).1 ≤ k
fill-bound bs k h = elim (Bool-cases (leb 64 (length bs))) [
  | inl long ↦ let h' : 64 ≤ length bs = ground arith in omega (arith, fill-left 64 bs h')
  | inr short ↦
      let h' : length bs ≤ 64 = ground arith in omega (arith, ap length (fill-rest 64 bs h'))
]

-- the outcome of a transmission: the packets that it has sent
pub record Sent (c : Controller) (total : ℕ) (bs : List ℕ) : Type 0 where
  pub c' : Controller
  pub sent : List (List ℕ)
  pub packets : c'.packets ≡ c.packets ++ sent
  pub whole : concat sent ≡ bs
  pub count : length sent ≡ total
  pub small : All (λ p. length p ≤ 64) sent

pub await-ready :
    (c : Controller) (qs : List Poll)
    → wait c.polls ≡ some (true, qs)
    → await c ≡ done true (record c { polls = qs })
unfolding await
await-ready c qs h = rw (h, await) refl

transmit_loop-Sent :
    (total : ℕ) (bs : List ℕ) (c : Controller)
    → Lets total c.polls
    → length bs ≤ 64 * total
    → (s : Sent c total bs) × (transmit_loop total bs c ≡ done lf_success s.c')
unfolding transmit_loop
transmit_loop-Sent zero [] c lets fits = (
  record {
    c' = c;
    sent = [];
    packets = sym (append-nil c.packets);
    whole = refl;
    count = refl;
    small = tt;
  },
  refl,
)
transmit_loop-Sent zero (b ∷ bs) c lets fits = absurd (omega arith)
transmit_loop-Sent (suc total) bs c (qs, here, lets) fits =
    let p = (fill bulk_size bs).0 in
    let (e, small, _, _) = fill-parts bulk_size bs in
    let (s, run) =
      transmit_loop-Sent total (fill bulk_size bs).1
        (record c { polls = qs; packets = c.packets ++ p ∷ [] }) lets
        (fill-bound bs (64 * total) (omega arith)) in
    (
      record {
        c' = s.c';
        sent = p ∷ s.sent;
        packets = s.packets ∙ append_assoc c.packets (p ∷ []) s.sent;
        whole = ap (λ t. p ++ t) s.whole ∙ e;
        count = ap suc s.count;
        small = (small, s.small);
      },
      rw (await-ready c qs here) run,
    )

-- On a configured controller that becomes ready for each packet before the timeout, for less than
-- 2 ^ 21 - 63 bytes, megausb_bulk_transmit succeeds: it sends packets of at most 64 bytes, as many as the length
-- divided by 64 and rounded up, which together are the bytes of the source in order.
pub megausb_bulk_transmit-Sent :
    (source : List ℕ) (c : Controller)
    → c.configured ≡ true
    → length source + 63 < 2 ^ 21
    → Lets ((length source + 63) / 64) c.polls
    → (s : Sent c ((length source + 63) / 64) source) × (megausb_bulk_transmit source c
        ≡ done lf_success s.c')
unfolding megausb_bulk_transmit
megausb_bulk_transmit-Sent source c configured small lets =
    let total = turns-exact (length source) small in
    let (s, run) = transmit_loop-Sent ((length source + 63) / 64) source c lets (omega arith) in
    (
      s,
      ap (λ b. if b then transmit_loop (turns (length source)) source c else done lf_error c)
            configured
          ∙ ap (λ n. transmit_loop n source c) total
          ∙ run,
    )
