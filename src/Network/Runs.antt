-- ===== src/Network/Runs.antt =====
-- Tests of platforms/posix/src/network.c on concrete inputs.
use flipper.Prelude.{ℕ, ◌≡◌, refl, List, [], ◌∷◌, none, some, arith, length, if◌then◌else◌}
use flipper.Prelude.Bytes.{bytes_eq}
use flipper.Prelude.Outcome.{done}
use flipper.Error.{lf_success, lf_error, e_communication}
use flipper.Network.{
  Address, Context, context, Reception, datagram, transient, broken, Sockets, Network, open_socket,
  target, lf_network_connect, lf_network_read, give_up,
}
use flipper.Network.Exchange.{lf_network_read-Tried}

-- A system whose environment lists what the next attempts receive.
abbrev next : List Reception → Reception × List Reception
next [] = (broken, [])
next (r ∷ rs) = (r, rs)

abbrev loopback : List ℕ
loopback = 49 ∷ 50 ∷ 55 ∷ 46 ∷ 48 ∷ 46 ∷ 48 ∷ 46 ∷ 49 ∷ []

abbrev sockets : Sockets (List Reception)
sockets = record {
  socket = λ e. (some 7, e);
  bind = λ fd e. (0, e);
  inet_addr = λ host. if◌then◌else◌ (bytes_eq host loopback) (some 16777343) none;
  recvfrom = λ fd n e. next e;
  sendto = λ fd bs to e. (length bs, e);
  close = λ fd e. e;
}

abbrev peer : Address
peer = record { ip = 9; port = 40000 }

abbrev ctx : Context
ctx = record { fd = some 7; host = loopback; addr = record { ip = 16777343; port = 3258 } }

abbrev net : Network (List Reception)
net = record {
  endpoint = context ctx;
  err = 0;
  env = transient ∷ transient ∷ datagram (1 ∷ 2 ∷ []) peer ∷ [];
}

lf_network_read-Tried_example :
    lf_network_read sockets 64 net
    ≡ done
        (lf_success, 1 ∷ 2 ∷ [])
        (record { endpoint = context (record ctx { addr = peer }); err = 0; env = [] })
lf_network_read-Tried_example =
    lf_network_read-Tried sockets 2 64 net ctx (datagram (1 ∷ 2 ∷ []) peer) [] refl
      (_, refl, (_, refl, refl)) (omega arith) (λ i. absurd cc)

-- a host that is not an address
refused :
    (lf_network_connect sockets (1 ∷ []) 3258 net)
    ≡ done lf_error (record net {
      endpoint = context (record ctx { addr = record { ip = 0; port = 3258 } });
      err = e_communication;
    })
unfolding lf_network_connect open_socket target give_up bytes_eq
refused = refl

connected :
    (lf_network_connect sockets (108 ∷ 111 ∷ 99 ∷ 97 ∷ 108 ∷ 104 ∷ 111 ∷ 115 ∷ 116 ∷ []) 3258 net)
    ≡ done lf_success net
unfolding lf_network_connect open_socket target give_up bytes_eq
connected = refl
