-- ===== src/Matchmaking/Leaving.antt =====
-- apps/server/src/ws/matchmaking.ts: `leaveQueue`, and what JavaScript's `splice` and `indexOf` do
-- to the array of a tier's queue.
use flicky.Prelude.{ℕ, Bool, true, false, none, some, List, [], ◌∷◌, ◌==◌, if◌then◌else◌}
use flicky.Prelude.Maps.{contains}
use flicky.Protocol.{Tier, practice, casual, standard, high_roller, starter, queue_left}
use flicky.Matchmaking.{World, set_socket, send}

abbrev pub same_tier : Tier → Tier → Bool
same_tier practice practice = true
same_tier casual casual = true
same_tier standard standard = true
same_tier high_roller high_roller = true
same_tier starter starter = true
same_tier _ _ = false

-- The array of one tier is replaced.
abbrev pub set_queue : Tier → List ℕ → World → World
set_queue tier q w = record w { queues = λ t. if same_tier t tier then q else w.queues t }

-- `const idx = q.indexOf(ws); if (idx >= 0) q.splice(idx, 1)`
unfoldable pub remove_first : ℕ → List ℕ → List ℕ
remove_first ws [] = []
remove_first ws (x ∷ q) = if x == ws then q else x ∷ remove_first ws q

unfoldable pub drop_last : List ℕ → List ℕ
drop_last [] = []
drop_last (x ∷ []) = []
drop_last (x ∷ y ∷ q) = x ∷ drop_last (y ∷ q)

-- `q.splice(q.indexOf(ws), 1)`: for a socket that is not in the array the index is -1, and
-- `splice(-1, 1)` takes out the last element.
unfoldable pub splice_out : ℕ → List ℕ → List ℕ
splice_out ws q = if contains ws q then remove_first ws q else drop_last q

unfoldable pub leave_queue : ℕ → World → World
leave_queue ws w = elim (w.sockets ws).queued_tier [
  | none ↦ w
  | some tier ↦ send ws queue_left (
      set_socket ws (record (w.sockets ws) { queued_tier = none; queued_at = 0 })
        (set_queue tier (remove_first ws (w.queues tier)) w))
]
