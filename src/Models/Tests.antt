-- ===== src/Models/Tests.antt =====
-- Runs of the accounting of usage, and an instance of its theorem.
use borealis_coder.Prelude.{ℕ, ◌≡◌, refl, [], ◌∷◌, arith}
use borealis_coder.Models.Float.{whole}
use borealis_coder.Models.Usage.{Usage, CostStatus, known, unknown, incomplete, fresh_usage}
use borealis_coder.Models.Usage.Status.{add_all, verdict, add_all-verdict}

abbrev request : ℕ → CostStatus → Usage whole
request cost status = record (fresh_usage whole) {
  input_tokens = 10;
  requests = 1;
  cost_usd = cost;
  cost_status = status;
}

add_all-verdict_example :
    (add_all whole (fresh_usage whole) (request 2 known ∷ request 0 unknown ∷ [])).cost_status
    ≡ verdict (known ∷ unknown ∷ [])
add_all-verdict_example =
    add_all-verdict whole refl (request 2 known) (request 0 unknown ∷ [])
      (omega arith, (omega arith, tt))

known_and_unknown : verdict (known ∷ unknown ∷ []) ≡ incomplete
known_and_unknown = refl
