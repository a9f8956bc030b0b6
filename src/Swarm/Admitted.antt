-- ===== src/Swarm/Admitted.antt =====
-- The agents that a run admits (agent/swarm.py).
use borealis_coder.Prelude.{
  ℕ, suc, ◌+◌, ◌≤◌, ◌≡◌, ◌==◌, ◌||◌, Option, none, some, List, [], ◌∷◌, ltb, leb, arith, All,
  if-under,
}
use borealis_coder.Swarm.{Refusal, SwarmState, start, admit, admit_all}

-- The number of requests that were admitted.
pub granted : List (ℕ × Option Refusal) → ℕ
granted [] = 0
granted ((depth, none) ∷ answers) = suc (granted answers)
granted ((depth, some refusal) ∷ answers) = granted answers

-- An admitted request is within the limit of depth.
abbrev pub IsShallow : ℕ → ℕ × Option Refusal → Type 0
IsShallow max_depth (depth, none) = (1 ≤ max_depth) × (depth ≤ max_depth)
IsShallow max_depth (depth, some refusal) = Unit {0}

-- The answers and the last state of a run from the state `s`.
abbrev IsBounded : SwarmState → List (ℕ × Option Refusal) → SwarmState → Type 0
IsBounded s answers last =
    (last.admitted ≡ s.admitted + granted answers)
    × (last.admitted ≤ s.max_descendants)
    × All (IsShallow s.max_depth) answers

-- A run behind an answer.
abbrev Continues : SwarmState → ℕ → List ℕ → Option Refusal × SwarmState → Type 0
Continues s depth depths (answer, next) =
    IsBounded s ((depth, answer) ∷ (admit_all next depths).0) (admit_all next depths).1

admit_all-IsBounded :
    (s : SwarmState) (depths : List ℕ)
    → s.admitted ≤ s.max_descendants
    → IsBounded s (admit_all s depths).0 (admit_all s depths).1
unfolding admit_all admit granted
admit_all-IsBounded s [] h = (omega arith, h, tt)
admit_all-IsBounded s (depth ∷ depths) h =
    let (counts, within, shallow) = admit_all-IsBounded s depths h in
    let Q = Continues s depth depths in
    if-under Q (s.max_depth == 0 || s.max_descendants == 0) (λ e. (counts, within, (tt, shallow)))
      (λ enabled.
        if-under Q (ltb s.max_depth depth) (λ e. (counts, within, (tt, shallow)))
          (λ deep.
            if-under Q (leb s.max_descendants s.admitted) (λ e. (counts, within, (tt, shallow)))
              (λ full.
                let (more, below, flat) =
                  admit_all-IsBounded (record s { admitted = s.admitted + 1 }) depths
                    (ground arith) in
                (omega (arith, more), below, ((ground arith, ground arith), flat)))))

-- In a run of any number of requests, in whatever order, the number of agents that are admitted is
-- the count that the state keeps; it is at most the limit of descendants; and each of them is within
-- the limit of depth, which is not 0.
pub admit_all-start :
    (max_depth max_descendants : ℕ) (depths : List ℕ)
    → (let (answers, last) = admit_all (start max_depth max_descendants) depths in
        (last.admitted ≡ granted answers)
        × (granted answers ≤ max_descendants)
        × All (IsShallow max_depth) answers)
unfolding start
admit_all-start max_depth max_descendants depths =
    let (counts, within, shallow) =
      admit_all-IsBounded (start max_depth max_descendants) depths (omega arith) in
    (omega (arith, counts), omega (arith, counts, within), shallow)
