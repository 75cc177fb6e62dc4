-- ===== src/DuelResult.antt =====
-- apps/web/src/lib/duel-result.ts: who won a finished duel, as the client shows it. The labels are
-- not modelled. `toLowerCase` is the parameter `lower`.
pub mod Agrees
mod Tests
use flicky.Prelude.{
  ℕ, zero, suc, ◌+◌, ◌-◌, ◌*◌, ◌/◌, ◌%◌, ◌^◌, ◌≤◌, ◌<◌, String, ◌≡◌, refl, sym, ap, ◌∙◌, ◌≢◌, ◌↔◌,
  ◌⊎◌, inl, inr, Bool, true, false, not, ◌&&◌, ◌||◌, Option, none, some, List, [], ◌∷◌, ◌++◌, map,
  arith, eq_iff, ltb, leb, ◌==◌, str_eq, str_eq_refl, if◌then◌else◌, Bool-cases, Option-cases,
  ==_iff, ==_refl, ltb→lt, leb→le, le→leb,
}
use flicky.Prelude.{length, count_if}
use flicky.Prelude.Int.{ℤ, pos, negsuc, sub_ℕ, ltb_ℤ}
use flicky.Duel.{DuelWinner, p0, p1, tie, DuelRow, CardOutcome, Swipe}

pub data PlayerResult : Type 0 where
  win loss tied : PlayerResult

abbrev pub side_by_net : ℤ → ℤ → DuelWinner
side_by_net p0_net p1_net =
    if ltb_ℤ p1_net p0_net then p0 else if ltb_ℤ p0_net p1_net then p1 else tie

unfoldable pub winner_side_of : DuelRow → DuelWinner
winner_side_of d = elim d.winner [
  | some w ↦ w
  | none ↦ side_by_net (sub_ℕ d.p0_payout d.p0_premium) (sub_ℕ d.p1_payout d.p1_premium)
]

unfoldable pub result_for : DuelWinner → Bool → PlayerResult
result_for tie my_is_p0 = tied
result_for p0 my_is_p0 = if my_is_p0 then win else loss
result_for p1 my_is_p0 = if my_is_p0 then loss else win

unfoldable pub player_duel_result : (String → String) → DuelRow → String → PlayerResult
unfolding result_for winner_side_of
player_duel_result lower d me = result_for (winner_side_of d) (str_eq (lower d.creator) (lower me))

abbrev pub is_hit : Option Swipe → Option ℤ → Bool
is_hit none pnl = false
is_hit (some s) none = false
is_hit (some s) (some (pos n)) = true
is_hit (some s) (some (negsuc n)) = false

abbrev pub hit_of : Bool → CardOutcome → Bool
hit_of my_is_p0 o = if my_is_p0 then is_hit o.p0_swipe o.p0_pnl else is_hit o.p1_swipe o.p1_pnl

abbrev pub greater : ℕ → ℕ → ℕ
greater a b = if ltb a b then b else a

pub record DuelSummary : Type 0 where
  pub outcome : PlayerResult
  pub hits : ℕ
  pub total_cards : ℕ
  pub free_duel : Bool

unfoldable pub summarize_duel_result : DuelRow → Bool → DuelSummary
unfolding result_for winner_side_of
summarize_duel_result d my_is_p0 = record {
  outcome = result_for (winner_side_of d) my_is_p0;
  hits = count_if (hit_of my_is_p0) d.card_outcomes;
  total_cards = greater d.card_count (length d.card_outcomes);
  free_duel = (if my_is_p0 then d.p0_premium else d.p1_premium) == 0;
}
