-- ===== src/Deckmaster/Selection.antt =====
-- apps/server/src/deckmaster.ts: `selectMarketRows`, `classifyTier` and `selectTieredMarkets`.
-- `normalizeSuiObjectId` is a parameter. The sorts are stable.
pub mod Soonest
pub mod Tiered
use flicky.Prelude.{
  ℕ, zero, suc, ◌+◌, ◌-◌, ◌*◌, ◌/◌, ◌%◌, ◌^◌, ◌≤◌, ◌<◌, String, ◌≡◌, refl, sym, ap, ◌∙◌, ◌≢◌, ◌↔◌,
  ◌⊎◌, inl, inr, Bool, true, false, not, ◌&&◌, ◌||◌, Option, none, some, List, [], ◌∷◌, ◌++◌, map,
  arith, eq_iff, ltb, leb, ◌==◌, str_eq, str_eq_refl, if◌then◌else◌, Bool-cases, Option-cases,
  ==_iff, ==_refl, ltb→lt, leb→le, le→leb,
}
use flicky.Prelude.{length, take}
use flicky.Prelude.Maps.{mem}
use flicky.Deckmaster.{MarketRow, MarketSnapshot}

-- An element goes before the first one that must stand after it.
module _ {ℓ} {A : Type ℓ} (key : A → ℕ) where
  unfoldable pub insert_by : A → List A → List A
  insert_by a [] = a ∷ []
  insert_by a (b ∷ bs) = if leb (key a) (key b) then a ∷ b ∷ bs else b ∷ insert_by a bs

  unfoldable pub sort_by : List A → List A
  unfolding insert_by
  sort_by [] = []
  sort_by (a ∷ rest) = insert_by a (sort_by rest)

-- A BTC market that was created.
abbrev pub is_btc : MarketRow → Bool
is_btc r = r.propbook_underlying_id == 1 && str_eq r.kind "market_created"

abbrev pub snapshot_of : String → MarketRow → MarketSnapshot
snapshot_of id r = record {
  expiry_market_id = id;
  expiry = r.expiry;
  tick_size = r.tick_size;
  admission_tick_size = r.admission_tick_size;
}

-- The first row of each market, in the order of the rows.
unfoldable pub first_rows :
    (String → String) → List String → List MarketRow → List (String × MarketRow)
first_rows normalize seen [] = []
first_rows normalize seen (r ∷ rows) =
    let id = normalize r.expiry_market_id in
    let later = first_rows normalize seen rows in
    let later' = first_rows normalize (id ∷ seen) rows in
    if not (is_btc r) then later else if mem id seen then later else (id, r) ∷ later'

abbrev pub in_window : ℕ → ℕ → ℕ → ℕ → Bool
in_window now min_headroom_ms max_horizon_ms expiry =
    ltb (now + min_headroom_ms) expiry && leb expiry (now + max_horizon_ms)

unfoldable pub windowed : ℕ → ℕ → ℕ → List (String × MarketRow) → List MarketSnapshot
windowed now min_headroom_ms max_horizon_ms [] = []
windowed now min_headroom_ms max_horizon_ms ((id, r) ∷ rows) =
    let later = windowed now min_headroom_ms max_horizon_ms rows in
    if in_window now min_headroom_ms max_horizon_ms r.expiry
    then snapshot_of id r ∷ later
    else later

unfoldable pub select_market_rows :
    (String → String)
    → List MarketRow
    → (now min_headroom_ms max_horizon_ms count : ℕ) → List MarketSnapshot
unfolding first_rows windowed sort_by
select_market_rows normalize rows now min_headroom_ms max_horizon_ms count = take count (
    sort_by (λ m. m.expiry)
      (windowed now min_headroom_ms max_horizon_ms (first_rows normalize [] rows)))

pub data MarketTier : Type 0 where
  short mid long : MarketTier

abbrev pub short_lifetime_max_ms : ℕ
short_lifetime_max_ms = 300_000

abbrev pub mid_lifetime_max_ms : ℕ
mid_lifetime_max_ms = 3_600_000

-- Where a market expires before it was created the lifetime is negative there, and 0 here.
unfoldable pub classify_tier : Option ℕ → MarketTier
classify_tier none = long
classify_tier (some lifetime_ms) =
    if ltb mid_lifetime_max_ms lifetime_ms
    then long
    else if leb lifetime_ms short_lifetime_max_ms
    then short
    else mid

abbrev pub lifetime_of : MarketRow → Option ℕ
lifetime_of r = elim r.checkpoint_timestamp_ms [ none ↦ none | some t ↦ some (r.expiry - t) ]

pub record TieredSelectOpts : Type 0 where
  pub now : ℕ
  pub short_count : ℕ
  pub mid_count : ℕ
  pub short_ttl_floor_ms : ℕ
  pub mid_ttl_floor_ms : ℕ
  pub max_horizon_ms : ℕ

abbrev pub same_market_tier : MarketTier → MarketTier → Bool
same_market_tier short short = true
same_market_tier mid mid = true
same_market_tier long long = true
same_market_tier _ _ = false

-- The markets of one tier that live long enough, but not too long.
unfoldable pub of_tier :
    TieredSelectOpts → MarketTier → ℕ → List (String × MarketRow) → List MarketSnapshot
unfolding classify_tier
of_tier opts tier floor [] = []
of_tier opts tier floor ((id, r) ∷ rows) =
    let later = of_tier opts tier floor rows in
    if ltb opts.now r.expiry
      && leb r.expiry (opts.now + opts.max_horizon_ms)
      && same_market_tier (classify_tier (lifetime_of r)) tier
      && leb floor (r.expiry - opts.now)
    then snapshot_of id r ∷ later
    else later

-- By falling time to live, as the source's first sort; `max_horizon_ms` bounds it.
abbrev pub freshness : TieredSelectOpts → MarketSnapshot → ℕ
freshness opts m = opts.now + opts.max_horizon_ms - m.expiry

unfoldable pub select_tiered_markets :
    (String → String) → List MarketRow → TieredSelectOpts → List MarketSnapshot
unfolding first_rows of_tier sort_by
select_tiered_markets normalize rows opts =
    let live = first_rows normalize [] rows in
    let shorts = sort_by (freshness opts) (of_tier opts short opts.short_ttl_floor_ms live) in
    let mids = sort_by (λ m. m.expiry) (of_tier opts mid opts.mid_ttl_floor_ms live) in
    sort_by (λ m. m.expiry) (take opts.short_count shorts ++ take opts.mid_count mids)
