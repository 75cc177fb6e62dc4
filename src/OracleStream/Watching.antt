-- ===== src/OracleStream/Watching.antt =====
-- apps/server/src/ws/oracle-stream.ts: the watchers of the markets and the sockets agree.
use flicky.Prelude.{
  ℕ, String, ◌≡◌, ◌∙◌, inl, inr, Bool, true, false, ◌&&◌, ◌||◌, Option, none, some, List, [], ◌∷◌,
  arith, eq_iff, ◌==◌, str_eq, if◌then◌else◌, Bool-cases, Option-cases,
}
use flicky.Prelude.Maps.{lookup, contains, remove, mem, mem-put, mem-take_out}
use flicky.Prelude.Buckets.{
  members, contains-enter, contains-leave, NoneEmpty, enter-NoneEmpty, leave-NoneEmpty,
}
use flicky.Matchmaking.{World}
use flicky.OracleStream.{
  Stream, starts_with_0x, watch, cleanup_one, watch_one, watch_each, unwatch_one, unwatch_each,
  unsubscribe_spot, cleanup_all, forget_oracles, on_socket_close_oracle_stream,
}

pub record Watching (s : Stream × World) : Type 0 where
  pub agree :
      (id : String) (k : ℕ)
      → contains k (members id s.0.market_subscribers) ≡ mem id (s.1.sockets k).subscribed_oracles
  pub none_empty : NoneEmpty s.0.market_subscribers

watch-Watching : (ws : ℕ) (id : String) (s : Stream × World) → Watching s → Watching (watch ws id s)
unfolding watch
watch-Watching ws id (st, w) h = record {
  agree = λ d k. ground (
    arith,
    contains-enter id d ws k st.market_subscribers,
    h.agree d k,
    mem-put id d (w.sockets ws).subscribed_oracles,
    eq_iff id d,
  );
  none_empty = enter-NoneEmpty id ws st.market_subscribers h.none_empty;
}

watch-contains :
    (ws : ℕ) (id : String) (s : Stream × World) (d : String) (k : ℕ)
    → contains k (members d (watch ws id s).0.market_subscribers)
      ≡ (if str_eq id d && ws == k then true else contains k (members d s.0.market_subscribers))
unfolding watch
watch-contains ws id (st, w) d k = contains-enter id d ws k st.market_subscribers

-- The market of a bucket that is not there is watched by nobody.
members-none :
    (id : String) (st : Stream)
    → lookup id st.market_subscribers ≡ none
    → (k : ℕ) → contains k (members id st.market_subscribers) ≡ false
unfolding members contains
members-none id st e k = rw e

-- What a clean-up leaves of one socket and one market.
cleanup_one-contains :
    (ws : ℕ) (id : String) (s : Stream × World) (d : String) (k : ℕ)
    → contains k (members d (cleanup_one ws id s).0.market_subscribers)
      ≡ (if str_eq id d && ws == k then false else contains k (members d s.0.market_subscribers))
unfolding cleanup_one
cleanup_one-contains ws id (st, w) d k = elim (Option-cases (lookup id st.market_subscribers)) [
  | inl e ↦ rw (e, cleanup_one) (ground (arith, members-none id st e k, eq_iff id d))
  | inr (b, e) ↦ rw (e, cleanup_one) (contains-leave id d ws k st.market_subscribers)
]

cleanup_one-Watching :
    (ws : ℕ) (id : String) (s : Stream × World) → Watching s → Watching (cleanup_one ws id s)
unfolding cleanup_one
cleanup_one-Watching ws id (st, w) h = elim (Option-cases (lookup id st.market_subscribers)) [
  | inl e ↦ rw (e, cleanup_one) h
  | inr (b, e) ↦
      rw (e, cleanup_one)
        (record {
          agree = λ d k. ground (
            arith,
            contains-leave id d ws k st.market_subscribers,
            h.agree d k,
            mem-take_out id d (w.sockets ws).subscribed_oracles,
            eq_iff id d,
          );
          none_empty = leave-NoneEmpty id ws st.market_subscribers h.none_empty;
        })
]

cleanup_all-Watching :
    (ws : ℕ) (ids : List String) (s : Stream × World) → Watching s → Watching (cleanup_all ws ids s)
unfolding cleanup_all
cleanup_all-Watching ws [] s h = h
cleanup_all-Watching ws (id ∷ ids) s h =
    cleanup_all-Watching ws ids (cleanup_one ws id s) (cleanup_one-Watching ws id s h)

cleanup_all-contains :
    (ws : ℕ) (ids : List String) (s : Stream × World) (d : String) (k : ℕ)
    → contains k (members d (cleanup_all ws ids s).0.market_subscribers)
      ≡ (if ws == k && mem d ids then false else contains k (members d s.0.market_subscribers))
unfolding cleanup_all mem
cleanup_all-contains ws [] s d k = ground arith
cleanup_all-contains ws (id ∷ ids) s d k = ground (
  arith,
  cleanup_all-contains ws ids (cleanup_one ws id s) d k,
  cleanup_one-contains ws id s d k,
  eq_iff id d,
)

-- A socket that closes watches nothing any more; the others watch what they did.
pub close-contains :
    (ws : ℕ) (s : Stream × World)
    → Watching s
    → (d : String) (k : ℕ)
    → contains k (members d (on_socket_close_oracle_stream ws s).0.market_subscribers)
      ≡ (if ws == k then false else contains k (members d s.0.market_subscribers))
unfolding on_socket_close_oracle_stream forget_oracles unsubscribe_spot
close-contains ws (st, w) h d k = ground (
  arith,
  cleanup_all-contains ws (w.sockets ws).subscribed_oracles
      (record st { spot_subscribers = remove ws st.spot_subscribers }, w) d k,
  h.agree d ws,
)

pub close-Watching :
    (ws : ℕ) (s : Stream × World) → Watching s → Watching (on_socket_close_oracle_stream ws s)
unfolding on_socket_close_oracle_stream forget_oracles unsubscribe_spot mem
close-Watching ws (st, w) h =
    let ids = (w.sockets ws).subscribed_oracles in
    let quiet : Stream × World =
      (record st { spot_subscribers = remove ws st.spot_subscribers }, w) in
    let start : Watching quiet = record { agree = h.agree; none_empty = h.none_empty } in
    let after = cleanup_all-Watching ws ids quiet start in
    record {
      agree = λ d k.
          ground (arith, after.agree d k, cleanup_all-contains ws ids quiet d k, h.agree d ws);
      none_empty = after.none_empty;
    }

module _ (normalize : String → String) where
  pub watch_each-Watching :
      (ws : ℕ) (ids : List (Option String)) (s : Stream × World)
      → Watching s
      → Watching (watch_each normalize ws ids s)
  unfolding watch_each watch_one
  watch_each-Watching ws [] s h = h
  watch_each-Watching ws (none ∷ ids) s h = watch_each-Watching ws ids s h
  watch_each-Watching ws (some id ∷ ids) s h = elim (Bool-cases (starts_with_0x id)) [
    | inl e ↦ rw e (
        watch_each-Watching ws ids (watch ws (normalize id) s)
          (watch-Watching ws (normalize id) s h))
    | inr e ↦ rw e (watch_each-Watching ws ids s h)
  ]

  pub unwatch_each-Watching :
      (ws : ℕ) (ids : List (Option String)) (s : Stream × World)
      → Watching s
      → Watching (unwatch_each normalize ws ids s)
  unfolding unwatch_each unwatch_one
  unwatch_each-Watching ws [] s h = h
  unwatch_each-Watching ws (none ∷ ids) s h = unwatch_each-Watching ws ids s h
  unwatch_each-Watching ws (some id ∷ ids) s h =
      unwatch_each-Watching ws ids (cleanup_one ws (normalize id) s)
        (cleanup_one-Watching ws (normalize id) s h)

  -- Whether the ids of a message name a market that is taken in, or one that is given up.
  abbrev pub takes_in : String → List (Option String) → Bool
  takes_in d [] = false
  takes_in d (none ∷ ids) = takes_in d ids
  takes_in d (some id ∷ ids) = starts_with_0x id && str_eq (normalize id) d || takes_in d ids

  abbrev pub gives_up : String → List (Option String) → Bool
  gives_up d [] = false
  gives_up d (none ∷ ids) = gives_up d ids
  gives_up d (some id ∷ ids) = str_eq (normalize id) d || gives_up d ids

  watch_one-contains :
      (ws : ℕ) (id : Option String) (s : Stream × World) (d : String) (k : ℕ)
      → contains k (members d (watch_one normalize ws id s).0.market_subscribers) ≡ (
          if ws == k && takes_in d (id ∷ [])
          then true
          else contains k (members d s.0.market_subscribers))
  unfolding watch_one
  watch_one-contains ws none s d k = ground arith
  watch_one-contains ws (some id) s d k = elim (Bool-cases (starts_with_0x id)) [
    | inl e ↦ rw e (ground (arith, watch-contains ws (normalize id) s d k))
    | inr e ↦ rw e (ground arith)
  ]

  pub watch_each-contains :
      (ws : ℕ) (ids : List (Option String)) (s : Stream × World) (d : String) (k : ℕ)
      → contains k (members d (watch_each normalize ws ids s).0.market_subscribers) ≡ (
          if ws == k && takes_in d ids then true else contains k (members d s.0.market_subscribers))
  unfolding watch_each
  watch_each-contains ws [] s d k = ground arith
  watch_each-contains ws (none ∷ ids) s d k =
      watch_each-contains ws ids (watch_one normalize ws none s) d k
      ∙ ground (arith, watch_one-contains ws none s d k)
  watch_each-contains ws (some id ∷ ids) s d k = ground (
    arith,
    watch_each-contains ws ids (watch_one normalize ws (some id) s) d k,
    watch_one-contains ws (some id) s d k,
  )

  pub unwatch_each-contains :
      (ws : ℕ) (ids : List (Option String)) (s : Stream × World) (d : String) (k : ℕ)
      → contains k (members d (unwatch_each normalize ws ids s).0.market_subscribers) ≡ (
          if ws == k && gives_up d ids
          then false
          else contains k (members d s.0.market_subscribers))
  unfolding unwatch_each unwatch_one
  unwatch_each-contains ws [] s d k = ground arith
  unwatch_each-contains ws (none ∷ ids) s d k = unwatch_each-contains ws ids s d k
  unwatch_each-contains ws (some id ∷ ids) s d k = ground (
    arith,
    unwatch_each-contains ws ids (cleanup_one ws (normalize id) s) d k,
    cleanup_one-contains ws (normalize id) s d k,
  )
