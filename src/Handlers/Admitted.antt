-- ===== src/Handlers/Admitted.antt =====
-- apps/server/src/ws/handlers.ts: who gets into `joinQueue`.
use flicky.Prelude.{ℕ, String, ◌≡◌, ◌⊎◌, Bool, true, false, Option, none, some, leb}
use flicky.Funding.{BalanceGateResult, required_queue_balance, check_queue_balance_gate}
use flicky.Funding.Lockstep.{is_passed}
use flicky.Protocol.{Tier, practice, casual, standard, high_roller, starter, ServerMsg}
use flicky.Matchmaking.{World, send}
use flicky.Handlers.{Replies, Texts, done, join, Verdict, preflight, resume}

abbrev pub some_market : Option ℕ → Bool
some_market none = false
some_market (some available) = leb 1 available

-- The gate of a tier, for an owner.
abbrev pub gate_of : Replies → Tier → String → BalanceGateResult
gate_of replies tier owner =
    check_queue_balance_gate replies.derive_wrapper_for replies.read_account_balance owner
      (required_queue_balance tier)

module _ (texts : Texts) (replies : Replies) (ws : ℕ) where
  -- The handler of one message: `during_gate` is what other handlers do while it waits for the
  -- gate, and `during_looks` what they do while it waits for the markets.
  abbrev pub whole : (World → World) → (World → World) → Verdict → Verdict
  whole during_gate during_looks (w, next) =
      let (w', next') = resume texts replies ws next (during_gate w) in
      resume texts replies ws next' (during_looks w')

  -- One error goes to the socket, at the start or after one of the waits, and the handler does
  -- nothing else.
  abbrev pub Refused : (World → World) → (World → World) → World → Verdict → Type 0
  Refused f g w v =
      (msg : ServerMsg) × ((v ≡ (g (f (send ws msg w)), done))
        ⊎ ((v ≡ (g (send ws msg (f w)), done)) ⊎ (v ≡ (send ws msg (g (f w)), done))))

  -- What a human tier asks for: a name, whose account passes the gate of the tier, and a market.
  abbrev pub Fit : Tier → World → Type 0
  Fit tier w =
      (a : String) × (((w.sockets ws).address ≡ some a)
        × ((is_passed (gate_of replies tier a) ≡ true)
            × (some_market (preflight 2 1 replies.find_deck_markets) ≡ true)))

  -- The conditions of each tier; practice is passed on to be refused by `joinQueue`.
  abbrev pub FitFor : Tier → World → Type 0
  FitFor practice w = Unit
  FitFor casual w = Fit casual w
  FitFor standard w = Fit standard w
  FitFor high_roller w = Fit high_roller w
  FitFor starter w = Fit starter w

  abbrev pub Admitted : (World → World) → (World → World) → World → Tier → Verdict → Type 0
  Admitted f g w tier v = v ≡ (g (f w), join tier)
