-- ===== src/Budget/Ops.antt =====
-- The methods of the budget as the agents of a run call them, one after another on one event loop.
use borealis_coder.Prelude.{
  ℕ, ◌+◌, ◌<◌, String, ◌≡◌, refl, ◌∙◌, Bool, true, false, none, some, List, [], ◌∷◌, Result, ok,
  err, arith, if◌then◌else◌,
}
use borealis_coder.Models.Float.{Float}
use borealis_coder.Models.Usage.{Usage}
use borealis_coder.Budget.{
  discard, Budget, check_time_and_cost, before_turn, retry_current_turn, remaining_requests,
  reserve_closure, release_closure, before_model_request, hold_usage, release_usage, release_cost,
  settle_usage,
}

module _ (fl : Float) where
  -- What an admitted request has passed, and what it leaves.
  pub before_model_request-inv :
      (now : ℕ) (o : String) (closure : Bool) (b c : Budget fl)
      → before_model_request fl now o closure b ≡ ok c
      → (0 < remaining_requests fl (if closure then some o else none) b)
        × (check_time_and_cost fl now b ≡ ok tt)
        × (c.config ≡ b.config)
        × (c.requests_used ≡ b.requests_used + 1)
        × (c.request_closures
            ≡ (if closure then discard o b.request_closures else b.request_closures))
  unfolding before_model_request
  before_model_request-inv now o true b c h =
      (ground arith, ground arith, ground arith, ground arith, ground arith)
  before_model_request-inv now o false b c h =
      (ground arith, ground arith, ground arith, ground arith, ground arith)

  -- The methods, as the agents of a run call them.
  pub data Op : Type 0 where
    turn : ℕ → Op
    retry : Op
    reserve release : String → Op
    request : ℕ → String → Bool → Op
    hold : ℕ → Usage fl → Op
    unhold : ℕ → Op
    give_back : fl.F → Op
    settle : Usage fl → Op

  -- A call that raises leaves the state that it found.
  abbrev pub state_of : {A : Type 0} → Budget fl → Result A (Budget fl) → Budget fl
  state_of b (ok c) = c
  state_of b (err e) = b

  unfoldable pub run : Op → Budget fl → Budget fl
  unfolding before_turn retry_current_turn hold_usage release_usage release_cost settle_usage
  run (turn now) b = state_of b (before_turn fl now b)
  run retry b = state_of b (retry_current_turn fl b)
  run (reserve o) b = (reserve_closure fl o b).0
  run (release o) b = release_closure fl o b
  run (request now o closure) b = state_of b (before_model_request fl now o closure b)
  run (hold i u) b = hold_usage fl i u b
  run (unhold i) b = release_usage fl i b
  run (give_back r) b = release_cost fl r b
  run (settle u) b = (settle_usage fl u b).0

  unfoldable pub run_all : List Op → Budget fl → Budget fl
  run_all [] b = b
  run_all (op ∷ ops) b = run_all ops (run op b)

  state_of-config :
      {A : Type 0} (b : Budget fl) (r : Result A (Budget fl))
      → ((c : Budget fl) → r ≡ ok c → c.config ≡ b.config)
      → (state_of b r).config ≡ b.config
  state_of-config b (ok c) h = h c refl
  state_of-config b (err e) h = refl

  run-config : (op : Op) (b : Budget fl) → (run op b).config ≡ b.config
  unfolding run reserve_closure release_closure
  run-config (request now o closure) b =
      state_of-config b (before_model_request fl now o closure b)
        (λ c e. (before_model_request-inv now o closure b c e).2)
  run-config (turn now) b = ground arith
  run-config retry b = ground arith
  run-config (reserve o) b = ground arith
  run-config (release o) b = refl
  run-config (hold i u) b = refl
  run-config (unhold i) b = refl
  run-config (give_back r) b = refl
  run-config (settle u) b = refl

  pub run_all-config : (ops : List Op) (b : Budget fl) → (run_all ops b).config ≡ b.config
  unfolding run_all
  run_all-config [] b = refl
  run_all-config (op ∷ ops) b = run_all-config ops (run op b) ∙ run-config op b
