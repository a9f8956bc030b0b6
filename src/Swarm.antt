-- ===== src/Swarm.antt =====
-- agent/swarm.py, `SwarmState`: the admission of delegated agents. `admit` has no await, so that the
-- agents of a run admit one after the other, in some order.
pub mod Admitted
mod Tests
use borealis_coder.Prelude.{
  ℕ, zero, suc, ◌+◌, ◌==◌, Bool, true, false, ◌||◌, Option, none, some, List, [], ◌∷◌, ltb, leb,
  if◌then◌else◌,
}

-- Why an agent is not admitted.
pub data Refusal : Type 0 where
  disabled depth_limit descendant_limit : Refusal

pub record SwarmState : Type 0 where
  pub max_depth : ℕ
  pub max_descendants : ℕ
  pub admitted : ℕ

-- SwarmState.start, of the two limits.
unfoldable pub start : ℕ → ℕ → SwarmState
start max_depth max_descendants = record {
  max_depth = max_depth;
  max_descendants = max_descendants;
  admitted = 0;
}

unfoldable pub admit : SwarmState → ℕ → Option Refusal × SwarmState
admit s depth =
    if s.max_depth == 0 || s.max_descendants == 0
    then (some disabled, s)
    else if ltb s.max_depth depth
    then (some depth_limit, s)
    else if leb s.max_descendants s.admitted
    then (some descendant_limit, s)
    else (none, record s { admitted = s.admitted + 1 })

-- The requests of a run by their depths, with the answers.
unfoldable pub admit_all : SwarmState → List ℕ → List (ℕ × Option Refusal) × SwarmState
unfolding admit
admit_all s [] = ([], s)
admit_all s (depth ∷ depths) =
    let (answer, next) = admit s depth in
    let (answers, last) = admit_all next depths in ((depth, answer) ∷ answers, last)
