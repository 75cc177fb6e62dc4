-- ===== src/Env.antt =====
-- The settings of apps/server/src/env.ts that the modelled parts read, with their defaults.
-- All are whole numbers there too.
use flicky.Prelude.{ℕ}

pub record Env : Type 0 where
  pub peer_forfeit_grace_ms : ℕ
  pub mmr_initial_rating : ℕ
  pub mmr_k_factor : ℕ
  pub mmr_match_window_initial : ℕ
  pub mmr_match_window_expand_per_sec : ℕ
  pub season_min_staked_duels : ℕ

abbrev pub default_env : Env
default_env = record {
  peer_forfeit_grace_ms = 30_000;
  mmr_initial_rating = 1000;
  mmr_k_factor = 32;
  mmr_match_window_initial = 200;
  mmr_match_window_expand_per_sec = 20;
  season_min_staked_duels = 1;
}
