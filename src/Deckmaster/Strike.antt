-- ===== src/Deckmaster/Strike.antt =====
-- apps/server/src/deckmaster.ts: `snapToAdmissionTick`.
pub mod Nearest
use flicky.Prelude.{
  ℕ, zero, suc, ◌+◌, ◌-◌, ◌*◌, ◌/◌, ◌%◌, ◌^◌, ◌≤◌, ◌<◌, String, ◌≡◌, refl, sym, ap, ◌∙◌, ◌≢◌, ◌↔◌,
  ◌⊎◌, inl, inr, Bool, true, false, not, ◌&&◌, ◌||◌, Option, none, some, List, [], ◌∷◌, ◌++◌, map,
  arith, eq_iff, ltb, leb, ◌==◌, str_eq, str_eq_refl, if◌then◌else◌, Bool-cases, Option-cases,
  ==_iff, ==_refl, ltb→lt, leb→le, le→leb,
}

-- A tick size of 0 is refused by an exception.
unfoldable pub snap_to_admission_tick : ℕ → ℕ → ℕ → Option ℕ
snap_to_admission_tick raw_strike tick_size admission_tick_size =
    let half = admission_tick_size / 2 in
    let snapped_raw = (raw_strike + half) / admission_tick_size * admission_tick_size in
    if tick_size == 0
    then none
    else if admission_tick_size == 0
    then some (raw_strike / tick_size)
    else some (snapped_raw / tick_size)
