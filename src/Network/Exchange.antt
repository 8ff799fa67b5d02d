-- ===== src/Network/Exchange.antt =====
-- platforms/posix/src/network.c: the attempts of a read, and to whom the next write goes.
use flipper.Prelude.{
  ℕ, zero, suc, ◌<◌, ◌≡◌, refl, ap, ◌∙◌, List, [], Option, none, some, true, false, ◌==◌, arith,
  ltb,
}
use flipper.Prelude.Outcome.{done, ◌>>=◌}
use flipper.Error.{lf_success, lf_error}
use flipper.Network.{
  Address, Context, context, Reception, datagram, transient, broken, Sockets, Network, receive_loop,
  conclude, lf_network_read, lf_network_write,
}

-- what a read returns and does to the context when its last attempt ends so
abbrev pub status : Reception → ℕ
status (datagram bs from) = lf_success
status transient = lf_error
status broken = lf_error

abbrev pub content : Reception → List ℕ
content (datagram bs from) = bs
content transient = []
content broken = []

abbrev pub redirect : Context → Reception → Context
redirect ctx (datagram bs from) = record ctx { addr = from }
redirect ctx transient = ctx
redirect ctx broken = ctx

abbrev taken : Reception → Option (List ℕ × Address)
taken (datagram bs from) = some (bs, from)
taken transient = none
taken broken = none

module _ {E : Type 0} (k : Sockets E) (fd : Option ℕ) (length : ℕ) where
  -- After `again` transient failures the next attempt ends with the reception.
  abbrev pub Tried : (again : ℕ) → E → Reception → E → Type 0
  Tried zero env r env' = k.recvfrom fd length env ≡ (r, env')
  Tried (suc n) env r env' =
      (mid : E) × (k.recvfrom fd length env ≡ (transient, mid)) × Tried n mid r env'

  receive_loop-Tried :
      (n retries : ℕ) (r : Reception) (env env' : E)
      → Tried n env r env'
      → n < retries
      → (r ≡ transient → suc n ≡ retries)
      → receive_loop k retries fd length env ≡ (taken r, env')
  unfolding receive_loop
  receive_loop-Tried n zero r env env' t h last = absurd (omega arith)
  receive_loop-Tried (suc n) (suc retries) r env env' (mid, e, t) h last =
      rw (e, receive_loop)
        (ap (λ x. receive_loop k retries fd length x.1) e
          ∙ receive_loop-Tried n retries r mid env' t (omega arith) (λ i. omega (arith, last i)))
  receive_loop-Tried zero (suc retries) (datagram bs from) env env' t h last =
      rw (t, receive_loop) (ap (λ x. (some (bs, from), x.1)) t)
  receive_loop-Tried zero (suc retries) broken env env' t h last =
      rw (t, receive_loop) (ap (λ x. (none, x.1)) t)
  receive_loop-Tried zero (suc zero) transient env env' t h last =
      rw (t, receive_loop) (ap (λ x. (none, x.1)) t)
  receive_loop-Tried zero (suc (suc n)) transient env env' t h last =
      absurd (omega (arith, last refl))

module _ {E : Type 0} (k : Sockets E) where
  conclude-taken :
      (s : Network E) (ctx : Context) (r : Reception) (env' : E)
      → s.endpoint ≡ context ctx
      → conclude k ctx (taken r, env') s
        ≡ done (status r, content r) (record s { endpoint = context (redirect ctx r); env = env' })
  unfolding conclude
  conclude-taken s ctx (datagram bs from) env' at = refl
  conclude-taken s ctx transient env' at =
      ap (λ t. done (lf_error, []) (record s { endpoint = t; env = env' })) at
  conclude-taken s ctx broken env' at =
      ap (λ t. done (lf_error, []) (record s { endpoint = t; env = env' })) at

  -- A read on a device with a context, whose first attempts fail with a transient error up to one that ends
  -- otherwise or is the fifth, returns the bytes of that attempt's datagram and keeps its sender as the new
  -- address; without a datagram it returns lf_error and leaves the address.
  pub lf_network_read-Tried :
      (n length : ℕ) (s : Network E) (ctx : Context) (r : Reception) (env' : E)
      → s.endpoint ≡ context ctx
      → Tried k ctx.fd length n s.env r env'
      → n < 5
      → (r ≡ transient → suc n ≡ 5)
      → lf_network_read k length s
        ≡ done (status r, content r) (record s { endpoint = context (redirect ctx r); env = env' })
  unfolding lf_network_read
  lf_network_read-Tried n length s ctx r env' at t h last =
      rw (at, lf_network_read)
        (ap (λ x. conclude k ctx x s) (receive_loop-Tried k ctx.fd length n 5 r s.env env' t h last)
          ∙ conclude-taken s ctx r env' at)

  -- When a read on a device with a context receives a datagram in one of the five attempts, after only transient
  -- errors, from an address with an internet address and a port, the write that follows sends its bytes to that
  -- address, and succeeds when the system sends some.
  lf_network_write-lf_network_read :
      (n length m : ℕ) (src bs : List ℕ) (s : Network E) (ctx : Context) (from : Address)
      (env' env'' : E)
      → s.endpoint ≡ context ctx
      → Tried k ctx.fd length n s.env (datagram bs from) env'
      → n < 5
      → 0 < from.ip
      → 0 < from.port
      → k.sendto ctx.fd src from env' ≡ (suc m, env'')
      → (lf_network_read k length >>= λ _. lf_network_write k src) s
        ≡ done lf_success
            (record s { endpoint = context (record ctx { addr = from }); env = env'' })
  unfolding lf_network_write
  lf_network_write-lf_network_read n length m src bs s ctx from env' env'' at t h ip port sent =
      let ip' : (from.ip == 0) ≡ false = ground arith in
      let port' : (from.port == 0) ≡ false = ground arith in
      let sends : ltb 0 (suc m) ≡ true = ground arith in
      rw
        (
          lf_network_read-Tried n length s ctx (datagram bs from) env' at t h (λ i. absurd cc),
          ip',
          port',
          sent,
          sends,
        )
        refl
