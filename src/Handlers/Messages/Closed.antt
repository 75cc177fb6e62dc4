-- ===== src/Handlers/Messages/Closed.antt =====
-- apps/server/src/ws/handlers.ts: what is left of a socket that closes.
use flicky.Prelude.{
  ℕ, String, ◌≡◌, refl, ap, ◌∙◌, inl, inr, false, none, List, [], ◌∷◌, arith, Option-cases, ==_iff,
  ==_refl,
}
use flicky.Prelude.Maps.{contains, lookup, contains-remove, mem}
use flicky.Prelude.Buckets.{members}
use flicky.Env.{Env}
use flicky.Matchmaking.{World, has_address}
use flicky.Matchmaking.Registry.{unregister_address}
use flicky.Matchmaking.Leaving.{leave_queue}
use flicky.Matchmaking.Closing.{on_socket_close, close_rooms, clear_duels}
use flicky.Matchmaking.Events.Registered.{
  Registered, SameRegistry, Registered-of_same, on_socket_close-Registered,
}
use flicky.Matchmaking.Events.Subscribed.{Subscribed, SameRooms, Subscribed-of_same}
use flicky.Matchmaking.Events.RoomsLeft.{on_socket_close-Subscribed, unregister_address-same}
use flicky.OracleStream.{
  Stream, cleanup_one, cleanup_all, forget_oracles, unsubscribe_spot, on_socket_close_oracle_stream,
}
use flicky.OracleStream.Watching.{Watching, close-contains}
use flicky.Handlers.Messages.{Server, close}

-- The markets of a socket are all that leaving one of them changes in the world.
abbrev OnlyOracles : World → World → Type 0
OnlyOracles w w' = SameRegistry w w' × SameRooms w w'

cleanup_one-OnlyOracles :
    (ws : ℕ) (id : String) (st : Stream) (w : World) → OnlyOracles w (cleanup_one ws id (st, w)).1
unfolding cleanup_one
cleanup_one-OnlyOracles ws id st w = elim (Option-cases (lookup id st.market_subscribers)) [
  | inl e ↦ rw (e, cleanup_one) ((refl, λ k. refl), (refl, λ k. refl))
  | inr (b, e) ↦
      rw (e, cleanup_one)
        ((refl, λ k. ground (arith, ==_iff k ws)), (refl, λ k. ground (arith, ==_iff k ws)))
]

cleanup_all-OnlyOracles :
    (ws : ℕ) (ids : List String) (s : Stream × World) → OnlyOracles s.1 (cleanup_all ws ids s).1
unfolding cleanup_all
cleanup_all-OnlyOracles ws [] s = ((refl, λ k. refl), (refl, λ k. refl))
cleanup_all-OnlyOracles ws (id ∷ ids) (st, w) =
    let next = cleanup_one ws id (st, w) in
    let ((a, b), (c, d)) = cleanup_one-OnlyOracles ws id st w in
    let ((a', b'), (c', d')) = cleanup_all-OnlyOracles ws ids next in
    ((a' ∙ a, λ k. b' k ∙ b k), (c' ∙ c, λ k. d' k ∙ d k))

on_socket_close_oracle_stream-OnlyOracles :
    (ws : ℕ) (st : Stream) (w : World) → OnlyOracles w (on_socket_close_oracle_stream ws (st, w)).1
unfolding on_socket_close_oracle_stream forget_oracles
on_socket_close_oracle_stream-OnlyOracles ws st w =
    let ((a, b), (c, d)) =
      cleanup_all-OnlyOracles ws (w.sockets ws).subscribed_oracles (unsubscribe_spot ws st, w) in
    (
      (a, λ k. ground (arith, b k, b ws, ==_iff k ws)),
      (c, λ k. ground (arith, d k, d ws, ==_iff k ws)),
    )

cleanup_all-spot :
    (ws : ℕ) (ids : List String) (s : Stream × World)
    → (cleanup_all ws ids s).0.spot_subscribers ≡ s.0.spot_subscribers
unfolding cleanup_all cleanup_one
cleanup_all-spot ws [] s = refl
cleanup_all-spot ws (id ∷ ids) (st, w) =
    cleanup_all-spot ws ids (cleanup_one ws id (st, w))
    ∙ (elim (Option-cases (lookup id st.market_subscribers)) [
      | inl e ↦ rw (e, cleanup_one) refl
      | inr (b, e) ↦ rw (e, cleanup_one) refl
    ])

on_socket_close_oracle_stream-spotless :
    (ws : ℕ) (st : Stream) (w : World)
    → contains ws (on_socket_close_oracle_stream ws (st, w)).0.spot_subscribers ≡ false
unfolding on_socket_close_oracle_stream forget_oracles unsubscribe_spot
on_socket_close_oracle_stream-spotless ws st w =
    ap (contains ws)
      (cleanup_all-spot ws (w.sockets ws).subscribed_oracles (unsubscribe_spot ws st, w))
    ∙ (contains-remove ws ws st.spot_subscribers ∙ ground (arith, ==_refl ws))

on_socket_close-nameless :
    (env : Env) (ws : ℕ) (w : World) → ((on_socket_close env ws w).sockets ws).address ≡ none
unfolding on_socket_close unregister_address
on_socket_close-nameless env ws w =
    let w' = leave_queue ws w in
    let left =
      clear_duels ws
        (close_rooms env ws (w'.sockets ws).address (w'.sockets ws).subscribed_duels w') in
    elim (Option-cases (left.sockets ws).address) [
      | inl e ↦ rw (e, unregister_address) e
      | inr (a, e) ↦ rw (e, unregister_address) (ground (arith, ==_refl ws))
    ]

on_socket_close-roomless :
    (env : Env) (ws : ℕ) (w : World) → ((on_socket_close env ws w).sockets ws).subscribed_duels ≡ []
unfolding on_socket_close clear_duels
on_socket_close-roomless env ws w =
    let w' = leave_queue ws w in
    let left =
      clear_duels ws
        (close_rooms env ws (w'.sockets ws).address (w'.sockets ws).subscribed_duels w') in
    (unregister_address-same ws left).1 ws ∙ ground (arith, ==_refl ws)

-- A socket that closes is in none of four registers any more: it is not among the sockets of any
-- address, any room, any market or the spot, where the registers of the addresses, the rooms and the
-- markets agreed with the sockets before.
pub close-forgotten :
    (env : Env) (ws : ℕ) (s : Server)
    → Registered s.world
    → Subscribed s.world
    → Watching (s.stream, s.world)
    → let t = close env ws s in
      ((a : String) → contains ws (members a t.world.sockets_by_address) ≡ false)
      × (((d : String) → contains ws (members d t.world.room_subscribers) ≡ false)
          × (((id : String) → contains ws (members id t.stream.market_subscribers) ≡ false)
              × (contains ws t.stream.spot_subscribers ≡ false)))
unfolding close mem
close-forgotten env ws s r q h =
    let quiet = on_socket_close_oracle_stream ws (s.stream, s.world) in
    let (same, rooms) = on_socket_close_oracle_stream-OnlyOracles ws s.stream s.world in
    let r' =
      on_socket_close-Registered env ws quiet.1 (Registered-of_same s.world quiet.1 same r) in
    let q' =
      on_socket_close-Subscribed env ws quiet.1 (Subscribed-of_same s.world quiet.1 rooms q) in
    (
      λ a. r'.agree a ws ∙ ap (has_address a) (on_socket_close-nameless env ws quiet.1),
      (
        λ d. q'.agree d ws ∙ ap (mem d) (on_socket_close-roomless env ws quiet.1),
        (
          λ id. close-contains ws (s.stream, s.world) h id ws ∙ ground (arith, ==_refl ws),
          on_socket_close_oracle_stream-spotless ws s.stream s.world,
        ),
      ),
    )
