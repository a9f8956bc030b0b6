-- ===== src/Swarm/Tests.antt =====
-- Runs of the admission, and an instance of its theorem.
use borealis_coder.Prelude.{ℕ, ◌≤◌, ◌≡◌, refl, none, some, List, [], ◌∷◌, All}
use borealis_coder.Swarm.{depth_limit, descendant_limit, disabled, start, admit, admit_all}
use borealis_coder.Swarm.Admitted.{granted, IsShallow, admit_all-start}

abbrev depths : List ℕ
depths = 1 ∷ 3 ∷ 2 ∷ 1 ∷ []

answered :
    (admit_all (start 2 2) depths).0
    ≡ (1, none) ∷ (3, some depth_limit) ∷ (2, none) ∷ (1, some descendant_limit) ∷ []
unfolding admit_all start
answered = refl

turned_off : (admit (start 0 2) 1).0 ≡ some disabled
unfolding admit start
turned_off = refl

admit_all-start_example :
    (let (answers, last) = admit_all (start 2 2) depths in
      (last.admitted ≡ granted answers) × (granted answers ≤ 2) × All (IsShallow 2) answers)
admit_all-start_example = admit_all-start 2 2 depths
