-- ===== src/Deckmaster/Tests.antt =====
-- Runs of apps/server/src/deckmaster.ts, and each theorem at a concrete input.
use flicky.Prelude.{
  ℕ, ◌+◌, ◌*◌, ◌≤◌, String, ◌≡◌, refl, Bool, true, false, Option, none, some, List, [], ◌∷◌, ◌++◌,
  arith,
}
use Prim.Native.Nat.{min}
use flicky.Prelude.{length, count_if}
use flicky.Prelude.Maps.{mem}
use flicky.Deckmaster.{MarketRow, MarketSnapshot, above, Zone, close, mid, edge, DeckCardOut}
use flicky.Deckmaster.Strike.{snap_to_admission_tick}
use flicky.Deckmaster.Dealing.{
  draw_below, set_at, swap_at, shuffle_from, shuffle, sign_pattern, up_count_of,
  allocate_sign_balance, repeat_pattern, zone_pattern, allocate_zones,
}
use flicky.Deckmaster.Deck.{
  tick_at, zone_offset_bps, seen_before, place_from, place, cards_from, build_deck,
}
use flicky.Deckmaster.Deck.Shape.{favors_up, favors_down, build_deck-fair}
use flicky.Deckmaster.Deck.Total.{Gives, build_deck-Gives}
use flicky.Deckmaster.Selection.{
  insert_by, sort_by, first_rows, windowed, select_market_rows, TieredSelectOpts, of_tier,
  classify_tier, select_tiered_markets,
}
use flicky.Deckmaster.Selection.Soonest.{Rising, live, select-soonest}
use flicky.Deckmaster.Size.{SizeRequest, resolve_deck_bounds, decide_deck_size}

deckmaster : Unit {0}
unfolding snap_to_admission_tick draw_below set_at swap_at shuffle_from shuffle sign_pattern
    up_count_of allocate_sign_balance repeat_pattern zone_pattern allocate_zones tick_at seen_before
    place_from place cards_from build_deck insert_by sort_by first_rows windowed select_market_rows
    of_tier classify_tier select_tiered_markets mem resolve_deck_bounds decide_deck_size
deckmaster = tt

abbrev same : String → String
same s = s

abbrev btc : MarketSnapshot
btc = record {
  expiry_market_id = "0xm";
  expiry = 900_000;
  tick_size = 10;
  admission_tick_size = 100;
}

abbrev seed : List ℕ
seed = 200 ∷ 7 ∷ 255 ∷ 3 ∷ 90 ∷ 41 ∷ 12 ∷ 77 ∷ 100 ∷ 5 ∷ 31 ∷ 66 ∷ 18 ∷ 9 ∷ []

abbrev card : ℕ → ℕ → ℕ → Bool → DeckCardOut
card strike lower higher up = record {
  expiry_market_id = "0xm";
  strike = strike;
  lower_tick = lower;
  higher_tick = higher;
  is_up_favored = up;
}

abbrev dealt : Option (List DeckCardOut)
dealt = build_deck same (btc ∷ []) 1_000_000 seed 3

three_cards :
    dealt
    ≡ some (
        card 1_000_400 0 100_040 false
        ∷ card 999_400 99_940 1_073_741_823 true
        ∷ card 999_800 99_980 1_073_741_823 true
        ∷ [])
unfolding deckmaster
three_cards = refl

build_deck-fair_example :
    let cards =
      card 1_000_400 0 100_040 false
      ∷ card 999_400 99_940 1_073_741_823 true
      ∷ card 999_800 99_980 1_073_741_823 true
      ∷ [] in
    let up = count_if favors_up cards in
    let down = count_if favors_down cards in (up + down ≡ 3) × ((up ≤ down + 1) × (down ≤ up + 1))
build_deck-fair_example = build_deck-fair same (btc ∷ []) 1_000_000 3 seed _ three_cards

build_deck-Gives_example : Gives (build_deck same (btc ∷ []) 1_000_000 seed 3)
build_deck-Gives_example =
    build_deck-Gives same btc [] 1_000_000 3 seed (ground arith, tt) (ground arith) (ground arith)

fresh_at_two : tick_at btc 1_000_000 above (zone_offset_bps close + 2 * 1) ≡ some 100_040
unfolding deckmaster
fresh_at_two = refl

not_seen : seen_before "0xm" 100_040 (("0xm", 100_020) ∷ []) ≡ false
unfolding deckmaster
not_seen = refl

moved_on : place btc "0xm" 1_000_000 above close (("0xm", 100_020) ∷ []) ≡ some 100_040
unfolding deckmaster
moved_on = refl

abbrev is_edge : Zone → Bool
is_edge close = false
is_edge mid = false
is_edge edge = true

five_zones :
    allocate_zones 5 (1 ∷ 2 ∷ 3 ∷ 4 ∷ []) ≡ some (edge ∷ mid ∷ close ∷ mid ∷ close ∷ [], [])
unfolding deckmaster
five_zones = refl

abbrev row : String → ℕ → ℕ → MarketRow
row id created expiry = record {
  expiry_market_id = id;
  propbook_underlying_id = 1;
  expiry = expiry;
  tick_size = 10;
  admission_tick_size = 100;
  kind = "market_created";
  checkpoint_timestamp_ms = some created;
}

abbrev rows : List MarketRow
rows =
    row "0xm" 0 900_000
    ∷ row "0xn" 500_000 680_000
    ∷ row "0xm" 0 900_000
    ∷ row "0xo" 0 10_800_000
    ∷ []

soonest_first :
    select_market_rows same rows 600_000 30_000 1_000_000 5
    ≡ record {
      expiry_market_id = "0xn";
      expiry = 680_000;
      tick_size = 10;
      admission_tick_size = 100;
    }
      ∷ btc
      ∷ []
unfolding deckmaster
soonest_first = refl

select-soonest_example :
    let chosen = select_market_rows same rows 600_000 30_000 1_000_000 1 in
    let all = live same rows 600_000 30_000 1_000_000 in
    (left : List MarketSnapshot) × ((Rising (λ m. m.expiry) 0 (chosen ++ left))
      × (((p : MarketSnapshot → Bool) → count_if p chosen + count_if p left ≡ count_if p all)
          × (length chosen ≡ min 1 (length all))))
select-soonest_example = select-soonest same rows 600_000 30_000 1_000_000 1

abbrev opts : TieredSelectOpts
opts = record {
  now = 600_000;
  short_count = 2;
  mid_count = 3;
  short_ttl_floor_ms = 45_000;
  mid_ttl_floor_ms = 120_000;
  max_horizon_ms = 900_000;
}

abbrev explicit : SizeRequest
explicit = record { deck_size = some 40; min_deck_size = none; max_deck_size = none }
