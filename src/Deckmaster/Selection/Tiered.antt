-- ===== src/Deckmaster/Selection/Tiered.antt =====
-- apps/server/src/deckmaster.ts: what `selectTieredMarkets` picks.
use flicky.Prelude.{
  ℕ, ◌+◌, ◌-◌, ◌≤◌, ◌<◌, String, ◌≡◌, inl, inr, ◌&&◌, List, [], ◌∷◌, ◌++◌, arith, ltb, leb,
  Bool-cases,
}
use Prim.Native.Nat.{min}
use flicky.Prelude.{length, length-append, length-take, take, All, All-append, All-map, All-take}
use flicky.Deckmaster.{MarketRow, MarketSnapshot}
use flicky.Deckmaster.Selection.{
  sort_by, first_rows, MarketTier, short, mid, TieredSelectOpts, of_tier, freshness, classify_tier,
  lifetime_of, same_market_tier, select_tiered_markets,
}
use flicky.Deckmaster.Selection.Soonest.{Rising, sort_by-Rising, sort_by-length, sort_by-All}

-- Not expired, within the horizon, and with so much time to live.
abbrev pub Lasting : TieredSelectOpts → ℕ → MarketSnapshot → Type 0
Lasting opts floor m =
    (opts.now < m.expiry)
    × ((m.expiry ≤ opts.now + opts.max_horizon_ms) × (opts.now + floor ≤ m.expiry))

of_tier-Lasting :
    (opts : TieredSelectOpts) (tier : MarketTier) (floor : ℕ) (rows : List (String × MarketRow))
    → All (Lasting opts floor) (of_tier opts tier floor rows)
unfolding of_tier
of_tier-Lasting opts tier floor [] = tt
of_tier-Lasting opts tier floor ((id, r) ∷ rows) =
    elim (Bool-cases (
      ltb opts.now r.expiry
      && leb r.expiry (opts.now + opts.max_horizon_ms)
      && same_market_tier (classify_tier (lifetime_of r)) tier
      && leb floor (r.expiry - opts.now))) [
        | inl e ↦ rw (e, of_tier) (ground arith, of_tier-Lasting opts tier floor rows)
        | inr e ↦ rw (e, of_tier) (of_tier-Lasting opts tier floor rows)
      ]

-- The markets of one tier that are picked from.
abbrev pub shorts : (String → String) → List MarketRow → TieredSelectOpts → List MarketSnapshot
shorts normalize rows opts =
    of_tier opts short opts.short_ttl_floor_ms (first_rows normalize [] rows)

abbrev pub mids : (String → String) → List MarketRow → TieredSelectOpts → List MarketSnapshot
mids normalize rows opts = of_tier opts mid opts.mid_ttl_floor_ms (first_rows normalize [] rows)

-- The markets that are picked stand in the order of their expiry; each is live, expires within the
-- horizon, and has the time to live of the lower floor at least. They are as many short and mid
-- ones as were asked for, or all that there are.
select_tiered_sound :
    (normalize : String → String) (rows : List MarketRow) (opts : TieredSelectOpts)
    → let chosen = select_tiered_markets normalize rows opts in
      Rising (λ m. m.expiry) 0 chosen
      × (All (Lasting opts (min opts.short_ttl_floor_ms opts.mid_ttl_floor_ms)) chosen
          × (length chosen
              ≡ min opts.short_count (length (shorts normalize rows opts))
                + min opts.mid_count (length (mids normalize rows opts))))
unfolding select_tiered_markets
select_tiered_sound normalize rows opts =
    let ss = sort_by (freshness opts) (shorts normalize rows opts) in
    let ms = sort_by (λ m. m.expiry) (mids normalize rows opts) in
    let picked = take opts.short_count ss ++ take opts.mid_count ms in
    let floor = min opts.short_ttl_floor_ms opts.mid_ttl_floor_ms in
    let P = Lasting opts floor in
    let s_ok : All P ss = sort_by-All (freshness opts) P (shorts normalize rows opts) (
      All-map (shorts normalize rows opts) (λ m h. ground arith)
        (of_tier-Lasting opts short opts.short_ttl_floor_ms (first_rows normalize [] rows))) in
    let m_ok : All P ms =
      sort_by-All (λ m. m.expiry) P (mids normalize rows opts)
        (All-map (mids normalize rows opts) (λ m h. ground arith)
          (of_tier-Lasting opts mid opts.mid_ttl_floor_ms (first_rows normalize [] rows))) in
    (
      sort_by-Rising (λ m. m.expiry) picked,
      (
        sort_by-All (λ m. m.expiry) P picked
            (All-append P (take opts.short_count ss) (take opts.mid_count ms)
              (All-take P opts.short_count ss s_ok) (All-take P opts.mid_count ms m_ok)),
        ground (
          arith,
          sort_by-length (λ m. m.expiry) picked,
          length-append (take opts.short_count ss) (take opts.mid_count ms),
          length-take opts.short_count ss,
          length-take opts.mid_count ms,
          sort_by-length (freshness opts) (shorts normalize rows opts),
          sort_by-length (λ m. m.expiry) (mids normalize rows opts),
        ),
      ),
    )
