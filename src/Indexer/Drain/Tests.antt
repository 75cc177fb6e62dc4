-- ===== src/Indexer/Drain/Tests.antt =====
-- Runs of the drains of apps/server/src/indexer.ts, and their theorems at concrete inputs.
use flicky.Prelude.{
  ℕ, ◌+◌, ◌-◌, String, ◌≡◌, refl, ◌≢◌, true, false, Option, none, some, List, [], ◌∷◌, arith, ltb,
}
use flicky.Prelude.{length, take, drop}
use flicky.Indexer.{Db, save_order_premium}
use flicky.Indexer.Drain.{Page, Replies, drain, drain_pages}
use Prim.Native.Nat.{min}
use flicky.Indexer.Drain.Ordered.{handle_all, Handled, drains, drains-in_order}
use flicky.Indexer.Drain.Caught.{Full, drains-catch_up}
use flicky.Indexer.Events.{OrderMinted, on_order_minted, parse_order_minted_event}

abbrev same : String → String
same s = s

abbrev no_tables : Db
no_tables = record {
  duels = [];
  order_premiums = [];
  market_settlements = [];
  predict_markets = [];
  player_ratings = [];
}

abbrev order : ℕ → ℕ → OrderMinted
order id premium = record {
  expiry_market_id = some "0xm";
  order_id = some id;
  premium = some premium;
  net_premium = none;
}

abbrev order_log : List OrderMinted
order_log = order 1 30 ∷ order 2 40 ∷ []

-- A page with both orders, and nothing behind it.
abbrev order_pages : ℕ → Option String → Option (Page OrderMinted)
order_pages n none =
    some (record { nodes = order_log; end_cursor = some "end"; has_next_page = false })
order_pages n (some c) = some (record { nodes = []; end_cursor = none; has_next_page = false })

abbrev order_replies : Replies OrderMinted
order_replies = record { loads = true; ask = order_pages; saved = λ n. true }

abbrev behind : Option String → ℕ
behind none = 0
behind (some c) = 2

order_window :
    (n : ℕ) (c : Option String) (p : Page OrderMinted)
    → order_pages n c ≡ some p
    → p.nodes ≡ take (length p.nodes) (drop (behind c) order_log)
order_window n none p h = ground (arith, h)
order_window n (some c) p h = ground (arith, h)

order_ends :
    (n : ℕ) (c : Option String) (p : Page OrderMinted)
    → order_pages n c ≡ some p
    → p.nodes ≢ []
    → (e : String) × (p.end_cursor ≡ some e) × (behind (some e) ≡ behind c + length p.nodes)
order_ends n none p h k = ("end", ground (arith, h), ground (arith, h))
order_ends n (some c) p h k = absurd (k (ground (arith, h)))

order_sizes :
    (n : ℕ) (c : Option String) (p : Page OrderMinted)
    → order_pages n c ≡ some p
    → (length p.nodes ≡ min 50 (2 - behind c))
      × (p.has_next_page ≡ ltb (behind c + length p.nodes) 2)
order_sizes n none p h = (ground (arith, h), ground (arith, h))
order_sizes n (some c) p h = (ground (arith, h), ground (arith, h))

order_answers : (n : ℕ) (c : Option String) → order_pages n c ≢ none
order_answers n none = cc
order_answers n (some c) = cc

orders-Full : Full order_log behind order_replies
orders-Full = record {
  paginates = record { window = order_window; ends = order_ends };
  loads = refl;
  saved = λ n. refl;
  answers = order_answers;
  full_page = λ n c p h. (order_sizes n c p h).0;
  next_page = λ n c p h. (order_sizes n c p h).1;
}

abbrev two_ticks : List (Replies OrderMinted)
two_ticks = order_replies ∷ order_replies ∷ []

drains-in_order_example :
    let after = drains (handle_all (on_order_minted same (λ id. true))) two_ticks none no_tables in
    Handled (on_order_minted same (λ id. true)) order_log behind none no_tables after.0 after.1
drains-in_order_example =
    drains-in_order (on_order_minted same (λ id. true)) order_log behind two_ticks none no_tables
      ((orders-Full.paginates, orders-Full.saved), ((orders-Full.paginates, orders-Full.saved), tt))

drains-catch_up_example :
    (drains (handle_all (on_order_minted same (λ id. true))) two_ticks none no_tables).1
    ≡ handle_all (on_order_minted same (λ id. true)) (drop (behind none) order_log) no_tables
drains-catch_up_example =
    drains-catch_up (on_order_minted same (λ id. true)) order_log behind two_ticks none no_tables
      (orders-Full, (orders-Full, tt)) (omega arith) (omega arith)

both_premiums :
    (drains
      (handle_all (on_order_minted same (λ id. true)))
      two_ticks
      none
      no_tables).1.order_premiums
    ≡ (("0xm", 1), 30) ∷ (("0xm", 2), 40) ∷ []
unfolding drains drain drain_pages on_order_minted parse_order_minted_event save_order_premium
both_premiums = refl
