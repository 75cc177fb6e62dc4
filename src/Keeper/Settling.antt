-- ===== src/Keeper/Settling.antt =====
-- apps/server/src/keeper.ts: a transaction settles the cards of its pass, each once.
use flicky.Prelude.{ℕ, List, [], ◌∷◌}
use flicky.Keeper.{
  Call, new_card, reveal_deck, settle_card, finalize, redeem_settled_permissionless,
}
use flicky.Keeper.Batch.{ReadyCard}

-- The indices that a transaction settles.
abbrev pub settles : List Call → List ℕ
settles [] = []
settles (settle_card d a b i p x y ∷ cs) = i ∷ settles cs
settles (finalize d ∷ cs) = settles cs
settles (redeem_settled_permissionless m a o ∷ cs) = settles cs
settles (new_card m s ∷ cs) = settles cs
settles (reveal_deck d ∷ cs) = settles cs

indices : List ReadyCard → List ℕ
indices [] = []
indices (r ∷ rs) = r.i ∷ indices rs
