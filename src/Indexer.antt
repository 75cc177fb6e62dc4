-- ===== src/Indexer.antt =====
-- apps/server/src/indexer.ts: the mirror of the chain's events, with the tables of
-- apps/server/src/db.ts that it writes. What the chain and the database answer are arguments.
-- A decimal text is the number that it denotes; the key `${market}:${order}` of a premium is the
-- pair. `normalizeSuiObjectId` is the parameter `normalize`.
pub mod Outcomes
pub mod Cards
pub mod Drain
pub mod Events
pub mod Duels
pub mod Tick
pub mod Winners
pub mod Rated
pub mod Told
mod Tests
use flicky.Prelude.{
  ℕ, zero, suc, ◌+◌, ◌-◌, ◌*◌, ◌/◌, ◌%◌, ◌^◌, ◌≤◌, ◌<◌, String, ◌≡◌, refl, sym, ap, ◌∙◌, ◌≢◌, ◌↔◌,
  ◌⊎◌, inl, inr, Bool, true, false, not, ◌&&◌, ◌||◌, Option, none, some, List, [], ◌∷◌, ◌++◌, map,
  arith, eq_iff, ltb, leb, ◌==◌, str_eq, str_eq_refl, if◌then◌else◌, Bool-cases, Option-cases,
  ==_iff, ==_refl, ltb→lt, leb→le, le→leb,
}
use flicky.Prelude.Maps.{lookup}
use flicky.Duel.{DuelRow, Status, Card, Swipe, pending, active, complete}
use flicky.Mmr.Ladder.{Table}

-- A row of `predict_market`.
pub record PredictMarketRow : Type 0 where
  pub propbook_underlying_id : ℕ
  pub expiry : ℕ
  pub tick_size : ℕ
  pub admission_tick_size : ℕ
  pub created_at_ms : Option ℕ

pub record MarketSettlementRow : Type 0 where
  pub settlement_price : ℕ
  pub settled_at_ms : ℕ

-- The tables.
pub record Db : Type 0 where
  pub duels : List (String × DuelRow)
  pub order_premiums : List ((String × ℕ) × ℕ)
  pub market_settlements : List (String × MarketSettlementRow)
  pub predict_markets : List (String × PredictMarketRow)
  pub player_ratings : Table

abbrev pub same_order : String × ℕ → String × ℕ → Bool
same_order (m, o) (m', o') = str_eq m m' && o == o'

-- `orderPremiums.get(key)`
unfoldable pub premium_of : String × ℕ → List ((String × ℕ) × ℕ) → Option ℕ
premium_of k [] = none
premium_of k ((j, p) ∷ m) = if same_order j k then some p else premium_of k m

-- An insert that replaces the premium of a key that is there.
unfoldable pub save_order_premium :
    String × ℕ → ℕ → List ((String × ℕ) × ℕ) → List ((String × ℕ) × ℕ)
save_order_premium k p [] = (k, p) ∷ []
save_order_premium k p ((j, q) ∷ m) =
    if same_order j k then (k, p) ∷ m else (j, q) ∷ save_order_premium k p m

premium_of-save :
    (k j : String × ℕ) (p : ℕ) (m : List ((String × ℕ) × ℕ))
    → premium_of j (save_order_premium k p m) ≡ (if same_order k j then some p else premium_of j m)
unfolding premium_of save_order_premium
premium_of-save (a, b) (c, d) p [] = refl
premium_of-save (a, b) (c, d) p (((e, f), q) ∷ m) =
    ground (arith, premium_of-save (a, b) (c, d) p m, eq_iff a c, eq_iff e a, eq_iff e c)
