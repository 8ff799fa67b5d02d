-- ===== src/Network.antt =====
-- platforms/posix/src/network.c and platforms/posix/include/network.h: a device that is reached by datagrams.
-- The sockets of the system are the record Sockets, a parameter. A port is the number before `htons`, which
-- is 0 just where the stored one is. The lines that are printed and the pauses between attempts are left out.
pub mod Create
pub mod Exchange
mod Runs
use flipper.Prelude.{
  ℕ, zero, suc, List, [], ◌∷◌, Option, none, some, Bool, true, false, if◌then◌else◌, take, ltb,
  ◌==◌, ◌||◌,
}
use flipper.Prelude.Bytes.{bytes_eq}
use flipper.Prelude.Outcome.{Outcome, done, fault, pure, continue, ◌>>=◌, ◌>>◌}
use flipper.Error.{lf_success, lf_error, e_null, e_communication, e_socket}

pub record Address : Type 0 where
  pub ip : ℕ
  pub port : ℕ

-- struct _lf_network_context; the descriptor -1 is none. The field `device` is not used.
pub record Context : Type 0 where
  pub fd : Option ℕ
  pub host : List ℕ
  pub addr : Address

-- where the pointer `device` leads: NULL, a device whose `_ep_ctx` is NULL, or a device with a context
pub data Endpoint : Type 0 where
  no_device no_context : Endpoint
  context : Context → Endpoint

-- The end of `recvfrom`: a datagram and its sender; or -1 with `errno` EAGAIN, EWOULDBLOCK or EINTR; or -1
-- with another one.
pub data Reception : Type 0 where
  datagram : List ℕ → Address → Reception
  transient broken : Reception

-- The system. `socket` gives a descriptor or -1, `bind` is 0 on success, `inet_addr` is none for
-- INADDR_NONE, and `sendto` is 0 for every result that is not positive.
pub record Sockets (E : Type 0) : Type 0 where
  pub socket : E → Option ℕ × E
  pub bind : Option ℕ → E → ℕ × E
  pub inet_addr : List ℕ → Option ℕ
  pub recvfrom : Option ℕ → (length : ℕ) → E → Reception × E
  pub sendto : Option ℕ → List ℕ → Address → E → ℕ × E
  pub close : Option ℕ → E → E

pub record Network (E : Type 0) : Type 0 where
  pub endpoint : Endpoint
  pub err : ℕ
  pub env : E

abbrev pub Cmd : Type 0 → Type 0 → Type 0
Cmd E A = Network E → Outcome (Network E) A

abbrev localhost : List ℕ
localhost = 108 ∷ 111 ∷ 99 ∷ 97 ∷ 108 ∷ 104 ∷ 111 ∷ 115 ∷ 116 ∷ []

abbrev loopback : List ℕ
loopback = 49 ∷ 50 ∷ 55 ∷ 46 ∷ 48 ∷ 46 ∷ 48 ∷ 46 ∷ 49 ∷ []

-- `fd > 0`
abbrev is_open : Option ℕ → Bool
is_open none = false
is_open (some fd) = ltb 0 fd

module _ {E : Type 0} where
  abbrev pub store : Context → Cmd E (Unit {0})
  store ctx s = done tt (record s { endpoint = context ctx })

  -- the failure of an `lf_assert` of a function whose `fail:` returns lf_error
  abbrev pub failed : ℕ → Cmd E ℕ
  failed e s = done lf_error (record s { err = e })

module _ {E : Type 0} {A : Type 0} where
  abbrev pub sys : (E → A × E) → Cmd E A
  sys f s = done (f s.env).0 (record s { env = (f s.env).1 })

module _ {E : Type 0} (k : Sockets E) where
  -- `fail:` of lf_network_connect, which reads the context again
  unfoldable pub give_up : Context → Cmd E ℕ
  give_up ctx s =
      done lf_error (if is_open ctx.fd then record s { env = k.close ctx.fd s.env } else s)

  unfoldable pub target : Context → (host : List ℕ) → (port : ℕ) → Cmd E ℕ
  unfolding give_up
  target ctx host port =
      let resolved : List ℕ = if bytes_eq host localhost then loopback else host in
      elim (k.inet_addr resolved) [
        | none ↦ (do
          store (record ctx { addr = record { ip = 0; port = port } })
          (λ s. done tt (record s { err = e_communication }))
          give_up ctx)
        | some ip ↦ (do
          store (record ctx { host = take 63 resolved; addr = record { ip = ip; port = port } })
          pure lf_success)
      ]

  unfoldable pub open_socket : Context → (host : List ℕ) → (port : ℕ) → Cmd E ℕ
  unfolding target give_up
  open_socket ctx host port = do
    fd ← sys k.socket
    store (record ctx { fd = fd })
    if is_open fd
        then (do
          b ← sys (k.bind fd)
          if b == 0 then target (record ctx { fd = fd }) host port else (do
            (λ s. done tt (record s { err = e_socket }))
            give_up (record ctx { fd = fd })))
        else (do (λ s. done tt (record s { err = e_socket })); give_up (record ctx { fd = fd }))

  -- Without a context `fail:` reads through NULL.
  unfoldable pub lf_network_connect : (host : List ℕ) → (port : ℕ) → Cmd E ℕ
  unfolding open_socket
  lf_network_connect host port s = elim s.endpoint [
    | no_device ↦ fault
    | no_context ↦ fault
    | context ctx ↦ open_socket ctx host port s
  ]

  -- the attempts of lf_network_read; none is `goto fail`
  unfoldable pub receive_loop :
      (retries : ℕ) → (fd : Option ℕ) → (length : ℕ) → E → Option (List ℕ × Address) × E
  receive_loop zero fd length env = (none, env)
  receive_loop (suc retries) fd length env =
      let (reception, env') = k.recvfrom fd length env in
      elim reception [
        | datagram bs from ↦ (some (bs, from), env')
        | transient ↦ receive_loop retries fd length env'
        | broken ↦ (none, env')
      ]

  -- what follows the attempts: the address of the sender becomes that of the context
  unfoldable pub conclude : Context → Option (List ℕ × Address) × E → Cmd E (ℕ × List ℕ)
  conclude ctx (none, env') s = done (lf_error, []) (record s { env = env' })
  conclude ctx (some (bs, from), env') s =
      done (lf_success, bs)
        (record s { endpoint = context (record ctx { addr = from }); env = env' })

  -- the status, and the bytes that stand in `dst`
  unfoldable pub lf_network_read : (length : ℕ) → Cmd E (ℕ × List ℕ)
  unfolding receive_loop conclude
  lf_network_read length s = elim s.endpoint [
    | no_device ↦ done (lf_error, []) (record s { err = e_null })
    | no_context ↦ done (lf_error, []) (record s { err = e_null })
    | context ctx ↦ conclude ctx (receive_loop 5 ctx.fd length s.env) s
  ]

  -- The result E_COMMUNICATION is returned, not raised.
  unfoldable pub lf_network_write : (src : List ℕ) → Cmd E ℕ
  lf_network_write src s = elim s.endpoint [
    | no_device ↦ failed e_null s
    | no_context ↦ failed e_null s
    | context ctx ↦
        if (ctx.addr.ip == 0) || (ctx.addr.port == 0)
        then done e_communication s
        else (do
          e ← sys (k.sendto ctx.fd src ctx.addr)
          if ltb 0 e then pure lf_success else failed e_communication)
            s
  ]

  unfoldable pub lf_network_release : Cmd E ℕ
  lf_network_release s = elim s.endpoint [
    | no_device ↦ failed e_null s
    | no_context ↦ failed e_null s
    | context ctx ↦ done lf_success (record s { env = k.close ctx.fd s.env })
  ]
