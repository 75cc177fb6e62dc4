-- ===== src/OracleStream.antt =====
-- apps/server/src/ws/oracle-stream.ts: who watches which market, and the ticks that are sent. The
-- ids of a message are none where they are no texts, and the whole is none where it is no array.
-- A failing `ws.send` changes nothing. A tick runs without other handlers in between.
pub mod Watching
pub mod Refines
mod Tests
use flicky.Prelude.{
  ℕ, zero, suc, ◌+◌, ◌-◌, ◌*◌, ◌/◌, ◌%◌, ◌^◌, ◌≤◌, ◌<◌, String, ◌≡◌, refl, sym, ap, ◌∙◌, ◌≢◌, ◌↔◌,
  ◌⊎◌, inl, inr, Bool, true, false, not, ◌&&◌, ◌||◌, Option, none, some, List, [], ◌∷◌, ◌++◌, map,
  arith, eq_iff, ltb, leb, ◌==◌, str_eq, str_eq_refl, if◌then◌else◌, Bool-cases, Option-cases,
  ==_iff, ==_refl, ltb→lt, leb→le, le→leb,
}
use flicky.Prelude.{length}
use flicky.Prelude.Maps.{lookup, add, remove, put, take_out, keys}
use flicky.Prelude.Buckets.{Buckets, members, enter, leave}
use flicky.Protocol.{ServerMsg, error, no_detail, oracle_tick, spot_tick}
use flicky.Matchmaking.{World, set_socket, send, send_all}
use Prim.Native.Char.{code}
use Prim.Native.String

pub record Stream : Type 0 where
  pub market_subscribers : Buckets
  pub spot_subscribers : List ℕ
  pub last_btc_spot : Option ℕ

abbrev pub initial_stream : Stream
initial_stream = record { market_subscribers = []; spot_subscribers = []; last_btc_spot = none }

-- `s.startsWith("0x")`
unfoldable pub starts_with_0x : String → Bool
starts_with_0x String.[] = false
starts_with_0x (String.◌∷◌ a String.[]) = false
starts_with_0x (String.◌∷◌ a (String.◌∷◌ b s)) = code a == b'0' && code b == b'x'

-- An id that is subscribed to, or that is skipped.
abbrev pub wanted : Option String → Bool
wanted none = false
wanted (some id) = starts_with_0x id

unfoldable pub watch : ℕ → String → Stream × World → Stream × World
watch ws id (st, w) = (
  record st { market_subscribers = enter id ws st.market_subscribers },
  set_socket ws
      (record (w.sockets ws) { subscribed_oracles = put id (w.sockets ws).subscribed_oracles }) w,
)

unfoldable pub cleanup_one : ℕ → String → Stream × World → Stream × World
cleanup_one ws id (st, w) = elim (lookup id st.market_subscribers) [
  | none ↦ (st, w)
  | some bucket ↦ (
    record st { market_subscribers = leave id ws st.market_subscribers },
    set_socket ws
        (record (w.sockets ws) {
          subscribed_oracles = take_out id (w.sockets ws).subscribed_oracles;
        })
        w,
  )
]

module _ (normalize : String → String) where
  unfoldable pub watch_one : ℕ → Option String → Stream × World → Stream × World
  unfolding watch
  watch_one ws none s = s
  watch_one ws (some id) s = if starts_with_0x id then watch ws (normalize id) s else s

  unfoldable pub watch_each : ℕ → List (Option String) → Stream × World → Stream × World
  unfolding watch_one
  watch_each ws [] s = s
  watch_each ws (id ∷ ids) s = watch_each ws ids (watch_one ws id s)

  unfoldable pub subscribe_oracles :
      ℕ → Option (List (Option String)) → Stream × World → Stream × World
  unfolding watch_each
  subscribe_oracles ws none (st, w) =
      (st, send ws (error "bad_market_ids" "marketIds must be a string array" no_detail) w)
  subscribe_oracles ws (some ids) s = watch_each ws ids s

  unfoldable pub unwatch_one : ℕ → Option String → Stream × World → Stream × World
  unfolding cleanup_one
  unwatch_one ws none s = s
  unwatch_one ws (some id) s = cleanup_one ws (normalize id) s

  unfoldable pub unwatch_each : ℕ → List (Option String) → Stream × World → Stream × World
  unfolding unwatch_one
  unwatch_each ws [] s = s
  unwatch_each ws (id ∷ ids) s = unwatch_each ws ids (unwatch_one ws id s)

  unfoldable pub unsubscribe_oracles :
      ℕ → Option (List (Option String)) → Stream × World → Stream × World
  unfolding unwatch_each
  unsubscribe_oracles ws none s = s
  unsubscribe_oracles ws (some ids) s = unwatch_each ws ids s

unfoldable pub subscribe_spot : ℕ → Stream → Stream
subscribe_spot ws st = record st { spot_subscribers = add ws st.spot_subscribers }

unfoldable pub unsubscribe_spot : ℕ → Stream → Stream
unsubscribe_spot ws st = record st { spot_subscribers = remove ws st.spot_subscribers }

unfoldable pub cleanup_all : ℕ → List String → Stream × World → Stream × World
unfolding cleanup_one
cleanup_all ws [] s = s
cleanup_all ws (id ∷ ids) s = cleanup_all ws ids (cleanup_one ws id s)

unfoldable pub forget_oracles : ℕ → Stream × World → Stream × World
forget_oracles ws (st, w) =
    (st, set_socket ws (record (w.sockets ws) { subscribed_oracles = [] }) w)

unfoldable pub on_socket_close_oracle_stream : ℕ → Stream × World → Stream × World
unfolding unsubscribe_spot cleanup_all forget_oracles
on_socket_close_oracle_stream ws (st, w) =
    forget_oracles ws (cleanup_all ws (w.sockets ws).subscribed_oracles (unsubscribe_spot ws st, w))

-- What `fetchMarketState` answers; a market without an expiry has 0.
pub record MarketState : Type 0 where
  pub settlement_price : Option ℕ
  pub expiry : ℕ

abbrev pub or_zero : Option ℕ → ℕ
or_zero none = 0
or_zero (some spot) = spot

unfoldable pub push_market :
    (String → Option (Option MarketState)) → (spot now : ℕ) → Stream → String → World → World
push_market fetch spot now st id w = elim (members id st.market_subscribers) [
  | [] ↦ w
  | k ∷ ks ↦ elim (fetch id) [
    | none ↦ w
    | some none ↦ w
    | some (some m) ↦ send_all (k ∷ ks) (oracle_tick id spot m.expiry m.settlement_price now) w
  ]
]

unfoldable pub push_markets :
    (String → Option (Option MarketState)) → (spot now : ℕ) → Stream → List String → World → World
unfolding push_market
push_markets fetch spot now st [] w = w
push_markets fetch spot now st (id ∷ ids) w =
    push_markets fetch spot now st ids (push_market fetch spot now st id w)

-- The spot that was read, or the last one.
abbrev pub latest : Option ℕ → Option ℕ → Option ℕ
latest none last = last
latest (some spot) last = some spot

unfoldable pub push_spot : Option ℕ → ℕ → List ℕ → World → World
push_spot none now wss w = w
push_spot (some spot) now wss w = send_all wss (spot_tick spot now) w

abbrev pub nobody : List ℕ → List String → Bool
nobody [] [] = true
nobody _ _ = false

-- `read_spot` is none where `readBtcSpot` throws.
unfoldable pub tick :
    (read_spot : Option ℕ) (fetch : String → Option (Option MarketState)) (now : ℕ)
    → Stream × World
    → Stream × World
unfolding push_markets push_spot
tick read_spot fetch now (st, w) =
    let ids = keys st.market_subscribers in
    let last = latest read_spot st.last_btc_spot in
    let told = push_spot last now st.spot_subscribers w in
    if nobody st.spot_subscribers ids
    then (st, w)
    else (record st { last_btc_spot = last }, push_markets fetch (or_zero last) now st ids told)

unfoldable pub count_sockets : Buckets → ℕ
count_sockets [] = 0
count_sockets ((id, bucket) ∷ m) = length bucket + count_sockets m

-- The markets that are watched, and the sockets that watch.
unfoldable pub oracle_stream_stats : Stream → ℕ × ℕ
unfolding count_sockets
oracle_stream_stats st = (length st.market_subscribers, count_sockets st.market_subscribers)
