-- ===== src/OracleStream/Refines.antt =====
-- apps/server/src/ws/oracle-stream.ts: over every history, the buckets of the markets are a set of
-- pairs of a socket and a market.
use flicky.Prelude.{
  ℕ, String, ◌≡◌, refl, ap, ◌∙◌, inl, inr, Bool, true, false, ◌&&◌, Option, none, some, List, [],
  ◌∷◌, arith, ◌==◌, if◌then◌else◌, Bool-cases,
}
use flicky.Prelude.Maps.{lookup, contains, mem, keys}
use flicky.Prelude.Buckets.{members}
use flicky.Env.{Env}
use flicky.Matchmaking.{World, SocketState, initial_world}
use flicky.Matchmaking.Closing.{on_socket_close}
use flicky.Matchmaking.Events.{Event, step}
use flicky.Matchmaking.Events.Oracles.{SameOracles, step-oracles}
use flicky.OracleStream.{
  Stream, initial_stream, MarketState, subscribe_oracles, unsubscribe_oracles, subscribe_spot,
  unsubscribe_spot, on_socket_close_oracle_stream, push_market, push_markets, push_spot, tick,
  latest, nobody, or_zero,
}
use flicky.OracleStream.Watching.{
  Watching, close-contains, close-Watching, watch_each-Watching, unwatch_each-Watching, takes_in,
  gives_up, watch_each-contains, unwatch_each-contains,
}

pub data StreamEvent : Type 0 where
  oracle_subscribe oracle_unsubscribe : (ws : ℕ) → Option (List (Option String)) → StreamEvent
  spot_subscribe spot_unsubscribe : (ws : ℕ) → StreamEvent
  closed : (ws : ℕ) → StreamEvent
  ticked : (read_spot : Option ℕ) → (String → Option (Option MarketState)) → (now : ℕ) → StreamEvent
  -- of the queues and rooms
  other : Event → StreamEvent

unfoldable pub stream_step : Env → (String → String) → Stream × World → StreamEvent → Stream × World
stream_step env normalize s (oracle_subscribe ws ids) = subscribe_oracles normalize ws ids s
stream_step env normalize s (oracle_unsubscribe ws ids) = unsubscribe_oracles normalize ws ids s
stream_step env normalize (st, w) (spot_subscribe ws) = (subscribe_spot ws st, w)
stream_step env normalize (st, w) (spot_unsubscribe ws) = (unsubscribe_spot ws st, w)
stream_step env normalize s (closed ws) =
    let (st, w) = on_socket_close_oracle_stream ws s in (st, on_socket_close env ws w)
stream_step env normalize s (ticked read_spot fetch now) = tick read_spot fetch now s
stream_step env normalize (st, w) (other e) = (st, step env w e)

unfoldable pub stream_run :
    Env → (String → String) → Stream × World → List StreamEvent → Stream × World
unfolding stream_step
stream_run env normalize s [] = s
stream_run env normalize s (e ∷ es) = stream_run env normalize (stream_step env normalize s e) es

-- The pairs, as a set: whether the socket k watches the market d after an event, and a history.
abbrev pub watches : (String → String) → ℕ → String → Bool → StreamEvent → Bool
watches normalize k d before (oracle_subscribe ws none) = before
watches normalize k d before (oracle_subscribe ws (some ids)) =
    if ws == k && takes_in normalize d ids then true else before
watches normalize k d before (oracle_unsubscribe ws none) = before
watches normalize k d before (oracle_unsubscribe ws (some ids)) =
    if ws == k && gives_up normalize d ids then false else before
watches normalize k d before (closed ws) = if ws == k then false else before
watches normalize k d before (spot_subscribe ws) = before
watches normalize k d before (spot_unsubscribe ws) = before
watches normalize k d before (ticked read_spot fetch now) = before
watches normalize k d before (other e) = before

abbrev pub watches_after : (String → String) → ℕ → String → Bool → List StreamEvent → Bool
watches_after normalize k d before [] = before
watches_after normalize k d before (e ∷ es) =
    watches_after normalize k d (watches normalize k d before e) es

-- What leaves the buckets and what the sockets watch as they are.
Watching-of_same :
    (s s' : Stream × World)
    → s'.0.market_subscribers ≡ s.0.market_subscribers
    → SameOracles s.1 s'.1
    → Watching s
    → Watching s'
Watching-of_same s s' e f h = record {
  agree = λ d k. rw (e, f k) (h.agree d k);
  none_empty = rw e h.none_empty;
}

push_market-sockets :
    (fetch : String → Option (Option MarketState)) (spot now : ℕ) (st : Stream) (id : String)
    (w : World)
    → (push_market fetch spot now st id w).sockets ≡ w.sockets
unfolding push_market
push_market-sockets fetch spot now st id w = ground arith

push_markets-sockets :
    (fetch : String → Option (Option MarketState)) (spot now : ℕ) (st : Stream) (ids : List String)
    (w : World)
    → (push_markets fetch spot now st ids w).sockets ≡ w.sockets
unfolding push_markets
push_markets-sockets fetch spot now st [] w = refl
push_markets-sockets fetch spot now st (id ∷ ids) w =
    push_markets-sockets fetch spot now st ids (push_market fetch spot now st id w)
    ∙ push_market-sockets fetch spot now st id w

push_spot-sockets :
    (last : Option ℕ) (now : ℕ) (wss : List ℕ) (w : World)
    → (push_spot last now wss w).sockets ≡ w.sockets
unfolding push_spot
push_spot-sockets last now wss w = ground arith

tick-same :
    (read_spot : Option ℕ) (fetch : String → Option (Option MarketState)) (now : ℕ)
    (s : Stream × World)
    → ((tick read_spot fetch now s).0.market_subscribers ≡ s.0.market_subscribers)
      × ((tick read_spot fetch now s).1.sockets ≡ s.1.sockets)
unfolding tick
tick-same read_spot fetch now (st, w) =
    let last = latest read_spot st.last_btc_spot in
    let told = push_spot last now st.spot_subscribers w in
    let ids = keys st.market_subscribers in
    elim (Bool-cases (nobody st.spot_subscribers ids)) [
      | inl e ↦ rw e (refl, refl)
      | inr e ↦ rw e (
        refl,
        push_markets-sockets fetch (or_zero last) now st ids told
            ∙ push_spot-sockets last now st.spot_subscribers w,
      )
    ]

module _ (env : Env) (normalize : String → String) where
  step-Watching :
      (s : Stream × World) (e : StreamEvent) → Watching s → Watching (stream_step env normalize s e)
  unfolding stream_step subscribe_oracles unsubscribe_oracles subscribe_spot unsubscribe_spot step
  step-Watching (st, w) (oracle_subscribe ws none) h = Watching-of_same (st, w) _ refl (λ k. refl) h
  step-Watching s (oracle_subscribe ws (some ids)) h = watch_each-Watching normalize ws ids s h
  step-Watching s (oracle_unsubscribe ws none) h = h
  step-Watching s (oracle_unsubscribe ws (some ids)) h = unwatch_each-Watching normalize ws ids s h
  step-Watching (st, w) (spot_subscribe ws) h = Watching-of_same (st, w) _ refl (λ k. refl) h
  step-Watching (st, w) (spot_unsubscribe ws) h = Watching-of_same (st, w) _ refl (λ k. refl) h
  step-Watching s (closed ws) h =
      let (st, w) = on_socket_close_oracle_stream ws s in
      Watching-of_same (st, w) (st, on_socket_close env ws w) refl
        (step-oracles env w (Event.closed ws)) (close-Watching ws s h)
  step-Watching s (ticked read_spot fetch now) h =
      let (e, f) = tick-same read_spot fetch now s in
      Watching-of_same s (tick read_spot fetch now s) e
        (λ k. ap (λ (sockets : ℕ → SocketState). (sockets k).subscribed_oracles) f) h
  step-Watching (st, w) (other e) h =
      Watching-of_same (st, w) (st, step env w e) refl (step-oracles env w e) h

  step-watches :
      (s : Stream × World) (e : StreamEvent) (d : String) (k : ℕ)
      → Watching s
      → contains k (members d (stream_step env normalize s e).0.market_subscribers)
        ≡ watches normalize k d (contains k (members d s.0.market_subscribers)) e
  unfolding stream_step subscribe_oracles unsubscribe_oracles subscribe_spot unsubscribe_spot
  step-watches (st, w) (oracle_subscribe ws none) d k h = refl
  step-watches s (oracle_subscribe ws (some ids)) d k h = watch_each-contains normalize ws ids s d k
  step-watches s (oracle_unsubscribe ws none) d k h = refl
  step-watches s (oracle_unsubscribe ws (some ids)) d k h =
      unwatch_each-contains normalize ws ids s d k
  step-watches (st, w) (spot_subscribe ws) d k h = refl
  step-watches (st, w) (spot_unsubscribe ws) d k h = refl
  step-watches s (closed ws) d k h = close-contains ws s h d k
  step-watches s (ticked read_spot fetch now) d k h =
      ap (λ m. contains k (members d m)) (tick-same read_spot fetch now s).0
  step-watches (st, w) (other e) d k h = refl

  run_from-refines :
      (s : Stream × World) (es : List StreamEvent) (d : String) (k : ℕ)
      → Watching s
      → contains k (members d (stream_run env normalize s es).0.market_subscribers)
        ≡ watches_after normalize k d (contains k (members d s.0.market_subscribers)) es
  unfolding stream_run
  run_from-refines s [] d k h = refl
  run_from-refines s (e ∷ es) d k h =
      run_from-refines (stream_step env normalize s e) es d k (step-Watching s e h)
      ∙ ap (λ b. watches_after normalize k d b es) (step-watches s e d k h)

  run_from-Watching :
      (s : Stream × World) (es : List StreamEvent)
      → Watching s
      → Watching (stream_run env normalize s es)
  unfolding stream_run
  run_from-Watching s [] h = h
  run_from-Watching s (e ∷ es) h =
      run_from-Watching (stream_step env normalize s e) es (step-Watching s e h)

  initially-Watching : Watching (initial_stream, initial_world)
  unfolding initial_world contains members lookup mem
  initially-Watching = record { agree = λ d k. refl; none_empty = λ j e. cc }

  initially_unwatched :
      (d : String) (k : ℕ) → contains k (members d initial_stream.market_subscribers) ≡ false
  unfolding contains members lookup
  initially_unwatched d k = refl

  -- After any history, from the start, of messages about markets, ticks, closing sockets and events
  -- of the queues and rooms, a socket is among the watchers of a market exactly when the set of
  -- pairs holds the two: the last of its messages that named the market took it in, and the socket
  -- has not closed since. The sockets agree, and no market without a watcher is kept.
  pub stream_run-refines :
      (es : List StreamEvent)
      → let s = stream_run env normalize (initial_stream, initial_world) es in
        ((d : String) (k : ℕ)
          → contains k (members d s.0.market_subscribers) ≡ watches_after normalize k d false es)
        × Watching s
  stream_run-refines es = (
    λ d k.
        run_from-refines (initial_stream, initial_world) es d k initially-Watching
        ∙ ap (λ b. watches_after normalize k d b es) (initially_unwatched d k),
    run_from-Watching (initial_stream, initial_world) es initially-Watching,
  )
