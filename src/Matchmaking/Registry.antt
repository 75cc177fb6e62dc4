-- ===== src/Matchmaking/Registry.antt =====
-- apps/server/src/ws/matchmaking.ts: which sockets are bound to which address, and the messages
-- that go out by address.
use flicky.Prelude.{ℕ, ◌+◌, String, none, some, List, [], ◌∷◌}
use flicky.Prelude.{length}
use flicky.Prelude.Buckets.{Buckets, members, enter, leave}
use flicky.Protocol.{ServerMsg, hello}
use flicky.Matchmaking.{World, set_socket, send, send_each, send_all}

-- `ws.data.address = null` and out of the address's bucket
unfoldable pub unregister_address : ℕ → World → World
unregister_address ws w = elim (w.sockets ws).address [
  | none ↦ w
  | some addr ↦
      set_socket ws (record (w.sockets ws) { address = none })
        (record w { sockets_by_address = leave addr ws w.sockets_by_address })
]

bind_address : ℕ → String → World → World
bind_address ws address w =
    set_socket ws (record (w.sockets ws) { address = some address })
      (record w { sockets_by_address = enter address ws w.sockets_by_address })

unfoldable pub register_address : ℕ → String → World → World
unfolding bind_address unregister_address
register_address ws address w =
    send ws (hello address) (bind_address ws address (unregister_address ws w))

abbrev pub sockets_for_address : String → World → List ℕ
sockets_for_address address w = members address w.sockets_by_address

-- Every live socket of the addresses, and how many messages that makes.
unfoldable pub send_to_addresses : List String → ServerMsg → World → World × ℕ
send_to_addresses [] msg w = (w, 0)
send_to_addresses (addr ∷ addrs) msg w =
    let bucket = members addr w.sockets_by_address in
    let (w', n) = send_to_addresses addrs msg (send_all bucket msg w) in (w', length bucket + n)

send_buckets : Buckets → ServerMsg → List (ℕ × ServerMsg) → List (ℕ × ServerMsg)
send_buckets [] msg out = out
send_buckets ((addr, bucket) ∷ m) msg out = send_buckets m msg (send_each bucket msg out)

unfoldable pub broadcast_all : ServerMsg → World → World
unfolding send_buckets
broadcast_all msg w = record w { outbox = send_buckets w.sockets_by_address msg w.outbox }

abbrev pub connected_address_count : World → ℕ
connected_address_count w = length w.sockets_by_address
