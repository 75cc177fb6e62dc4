-- ===== src/Matchmaking/Handshake.antt =====
-- apps/server/src/ws/matchmaking.ts: a pairing from its deck to the duel, or to its timer.
use flicky.Prelude.{ℕ, String, ◌≡◌, refl, ap, none, some, ◌∷◌}
use flicky.Prelude.Maps.{lookup, delete, lookup-insert_self, lookup-delete_self}
use flicky.Protocol.{ServerMsg, error, no_detail}
use flicky.Matchmaking.{World}
use flicky.Matchmaking.Pairing.{Matching, deck_ready, take_matched_pair, handshake_fires, abandoned}

fires-idle :
    (a : String) (w : World) → lookup a w.pending_pair_timers ≡ none → handshake_fires a w ≡ w
unfolding handshake_fires
fires-idle a w e = rw (e, handshake_fires) refl

abbrev told : ServerMsg
told = error "match_abandoned" abandoned no_detail

-- What a timer whose pair is remembered leaves behind.
fires-tears :
    (a c : String) (x y : ℕ) (w : World)
    → lookup a w.pending_pair_timers ≡ some (x, y)
    → lookup a w.pending_pairs ≡ some c
    → handshake_fires a w ≡ record w {
      pending_pairs = delete a w.pending_pairs;
      pending_pair_timers = delete a w.pending_pair_timers;
      outbox = (y, told) ∷ (x, told) ∷ w.outbox;
    }
unfolding handshake_fires
fires-tears a c x y w e f = rw (e, f, handshake_fires) refl

ready-remembers :
    (m : Matching) (a b hash : String) (n : ℕ) (w : World)
    → m.creator_addr ≡ some a
    → m.challenger_addr ≡ some b
    → (lookup a (deck_ready m hash n w).pending_pairs ≡ some b)
      × (lookup a (deck_ready m hash n w).pending_pair_timers
          ≡ some (m.creator_ws, m.challenger_ws))
unfolding deck_ready
ready-remembers m a b hash n w e f =
    rw (e, f, deck_ready)
      (
        lookup-insert_self a b w.pending_pairs,
        lookup-insert_self a (m.creator_ws, m.challenger_ws) w.pending_pair_timers,
      )

-- What is left once the entry is gone.
tears-idle :
    (a c : String) (x y : ℕ) (w : World)
    → lookup a w.pending_pair_timers ≡ some (x, y)
    → lookup a w.pending_pairs ≡ some c
    → ((take_matched_pair a (handshake_fires a w)).1 ≡ none)
      × (handshake_fires a (handshake_fires a w) ≡ handshake_fires a w)
unfolding take_matched_pair
tears-idle a c x y w e f = rw (fires-tears a c x y w e f) (
  lookup-delete_self a w.pending_pairs,
  fires-idle a _ (lookup-delete_self a w.pending_pair_timers),
)

-- A pairing of two known addresses is confirmed once: the duel that its creator makes gets the
-- challenger that was announced, a second one gets none, and the timer has nothing left to tear
-- down.
confirmed_once :
    (m : Matching) (a b : String) (hash : String) (n : ℕ) (w : World)
    → m.creator_addr ≡ some a
    → m.challenger_addr ≡ some b
    → let ready = deck_ready m hash n w in
      let taken = take_matched_pair a ready in
      (taken.1 ≡ some b)
      × (((take_matched_pair a taken.0).1 ≡ none) × (handshake_fires a taken.0 ≡ taken.0))
unfolding take_matched_pair
confirmed_once m a b hash n w e f =
    let ready = deck_ready m hash n w in
    let (p, t) = ready-remembers m a b hash n w e f in
    (
      p,
      (
        lookup-delete_self a ready.pending_pairs,
        fires-idle a (take_matched_pair a ready).0 (lookup-delete_self a ready.pending_pair_timers),
      ),
    )

-- A creator that is matched again before the first timer fires takes over the entry: when the
-- timer fires, the second challenger is told, and the first one is not.
first_challenger_forgotten :
    (m m' : Matching) (a b c : String) (hash hash' : String) (n n' : ℕ) (w : World)
    → m.creator_addr ≡ some a
    → m'.creator_addr ≡ some a
    → m.challenger_addr ≡ some b
    → m'.challenger_addr ≡ some c
    → let ready = deck_ready m' hash' n' (deck_ready m hash n w) in
      let over = handshake_fires a ready in
      (over.outbox ≡ (m'.challenger_ws, told) ∷ (m'.creator_ws, told) ∷ ready.outbox)
      × (handshake_fires a over ≡ over)
first_challenger_forgotten m m' a b c hash hash' n n' w e e' f f' =
    let before = deck_ready m hash n w in
    let ready = deck_ready m' hash' n' before in
    let (p, t) = ready-remembers m' a c hash' n' before e' f' in
    (
      ap (λ v. v.outbox) (fires-tears a c m'.creator_ws m'.challenger_ws ready t p),
      (tears-idle a c m'.creator_ws m'.challenger_ws ready t p).1,
    )
