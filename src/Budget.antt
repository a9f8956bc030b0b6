-- ===== src/Budget.antt =====
-- `Budget` of agent/budget.py: the state of a run's budget and its methods. A method that raises
-- before its first write returns `err`, and the state is the old one. The clock is an argument.
mod Owners
pub mod Ops
pub mod Requests
pub mod Promise
pub mod Unsettled
pub mod Turns
mod Tests
use borealis_coder.Prelude.{
  ℕ, zero, suc, ◌+◌, ◌-◌, ◌*◌, String, ◌≡◌, Bool, true, false, not, ◌&&◌, ◌||◌, Option, none, some,
  List, [], ◌∷◌, ◌==◌, ltb, leb, str_eq, elem, any, map, length, Result, ok, err, guard, ◌>>=◌,
  ◌>>◌, if◌then◌else◌,
}
use borealis_coder.Models.Float.{Float}
use borealis_coder.Models.Usage.{
  CostStatus, unknown, incomplete, status_eq, Usage, fresh_usage, is_empty, add_usage,
}

-- The `kind` of BudgetExceeded, and the RuntimeError of `retry_current_turn`.
pub data BudgetError : Type 0 where
  turns time cost model_requests not_started : BudgetError

-- Python's `set.discard`
pub discard : String → List String → List String
discard o [] = []
discard o (x ∷ xs) = let rest = discard o xs in if str_eq x o then rest else x ∷ rest

-- `closures - ({owner} if owner else set())`
pub others : Option String → List String → List String
unfolding discard
others none cs = cs
others (some o) cs = if str_eq o "" then cs else discard o cs

module _ (fl : Float) where
  open fl use {F, of_ℕ, add, sub, mul, div, gt, ge, round12}

  -- The fields of AgentConfig that the budget reads.
  pub record Config : Type 0 where
    pub max_turns : ℕ
    pub max_model_requests : ℕ
    pub max_time_seconds : ℕ
    pub max_cost_usd : F

  -- An entry of `_held_usage`: the identity of a usage object, its cost and whether it is
  -- incomplete.
  pub record Held : Type 0 where
    pub usage_id : ℕ
    pub held_cost : F
    pub unreconciled : Bool

  pub record Budget : Type 0 where
    pub config : Config
    pub started_ms : ℕ
    pub turns_used : ℕ
    pub requests_used : ℕ
    pub usage : Usage fl
    pub pending_cost_usd : F
    pub held_usage : List Held
    pub request_closures : List String

  pub start : Config → ℕ → Budget
  unfolding fresh_usage
  start config now = record {
    config = config;
    started_ms = now;
    turns_used = 0;
    requests_used = 0;
    usage = fresh_usage fl;
    pending_cost_usd = of_ℕ 0;
    held_usage = [];
    request_closures = [];
  }

  -- `max_cost_usd > 0`
  abbrev pub is_strict : Budget → Bool
  is_strict b = gt b.config.max_cost_usd (of_ℕ 0)

  -- `elapsed_seconds >= max_time_seconds`, both sides times 1000.
  pub check_time_and_cost : ℕ → Budget → Result BudgetError (Unit {0})
  check_time_and_cost now b = do
    guard (not (leb (1000 * b.config.max_time_seconds) (now - b.started_ms))) time
    guard (not (is_strict b && ge b.usage.cost_usd b.config.max_cost_usd)) cost

  pub before_turn : ℕ → Budget → Result BudgetError Budget
  unfolding check_time_and_cost
  before_turn now b = do
    guard (not (leb b.config.max_turns b.turns_used)) turns
    check_time_and_cost now b
    ok (record b { turns_used = b.turns_used + 1 })

  pub retry_current_turn : Budget → Result BudgetError Budget
  retry_current_turn b =
      if leb b.turns_used 0
      then err not_started
      else ok (record b { turns_used = b.turns_used - 1 })

  -- `max(0, …)` is the subtraction of natural numbers.
  pub remaining_requests : Option String → Budget → ℕ
  unfolding others
  remaining_requests owner b =
      b.config.max_model_requests - b.requests_used - length (others owner b.request_closures)

  pub reserve_closure : String → Budget → Budget × Bool
  unfolding remaining_requests
  reserve_closure owner b =
      if elem owner b.request_closures
      then (b, true)
      else if remaining_requests none b == 0
      then (b, false)
      else (record b { request_closures = owner ∷ b.request_closures }, true)

  pub release_closure : String → Budget → Budget
  unfolding discard
  release_closure owner b = record b { request_closures = discard owner b.request_closures }

  pub before_model_request : ℕ → String → Bool → Budget → Result BudgetError Budget
  unfolding remaining_requests check_time_and_cost release_closure
  before_model_request now owner closure b = do
    guard (not (remaining_requests (if closure then some owner else none) b == 0)) model_requests
    check_time_and_cost now b
    let b' = if closure then release_closure owner b else b
    ok (record b' { requests_used = b'.requests_used + 1 })

  -- `_held_usage.get(id, (0.0, False))[0]`
  pub held_before : ℕ → List Held → F
  held_before i [] = of_ℕ 0
  held_before i (h ∷ hs) = if h.usage_id == i then h.held_cost else held_before i hs

  pub without_held : ℕ → List Held → List Held
  without_held i [] = []
  without_held i (h ∷ hs) =
      let rest = without_held i hs in if h.usage_id == i then rest else h ∷ rest

  -- `not usage.is_empty and usage.cost_status in {"unknown", "incomplete"}`
  pub is_unreconciled : Usage fl → Bool
  unfolding is_empty
  is_unreconciled u =
      not (is_empty fl u) && (status_eq u.cost_status unknown || status_eq u.cost_status incomplete)

  pub hold_usage : ℕ → Usage fl → Budget → Budget
  unfolding held_before without_held is_unreconciled
  hold_usage i u b = record b {
    pending_cost_usd = add b.pending_cost_usd (sub u.cost_usd (held_before i b.held_usage));
    held_usage =
        record { usage_id = i; held_cost = u.cost_usd; unreconciled = is_unreconciled u }
        ∷ without_held i b.held_usage;
  }

  -- `max(0.0, round(pending - reservation, 12))`
  pub release_cost : F → Budget → Budget
  release_cost reservation b =
      let rest = round12 (sub b.pending_cost_usd reservation) in
      record b { pending_cost_usd = if gt rest (of_ℕ 0) then rest else of_ℕ 0 }

  pub release_usage : ℕ → Budget → Budget
  unfolding held_before without_held release_cost
  release_usage i b =
      release_cost (held_before i b.held_usage)
        (record b { held_usage = without_held i b.held_usage })

  abbrev pub is_held : ℕ → List Held → Bool
  is_held i hs = any (λ (h : Held). h.usage_id == i) hs

  pub check_unsettled : ℕ → ℕ → Usage fl → Budget → Result BudgetError (Unit {0})
  unfolding check_time_and_cost is_unreconciled
  check_unsettled now i u b = do
    check_time_and_cost now b
    if not (is_strict b) then ok tt else do
      guard
          (not (
            any (λ (h : Held). h.unreconciled) b.held_usage
            || is_unreconciled b.usage
            || is_unreconciled u))
          cost
      let unheld = if is_held i b.held_usage then of_ℕ 0 else u.cost_usd
      guard (not (gt (add (add b.usage.cost_usd b.pending_cost_usd) unheld) b.config.max_cost_usd))
          cost

  -- `provider.prices(model)`: input and output rates, and the two cache rates if they are set.
  pub record Rates : Type 0 where
    pub input_rate : F
    pub output_rate : F
    pub cached_rate : Option F
    pub write_rate : Option F

  -- What `reserve_cost` reads of the provider and of the request. `tokens` is the value of
  -- `context.estimated_total(request.messages)`.
  pub record Offer : Type 0 where
    pub provider_name : String
    pub model : String
    pub model_fallbacks : List String
    pub prices : String → Option Rates
    pub one_hour_cache : Bool
    pub tokens : ℕ
    pub max_output_tokens : ℕ

  -- The known rates; `none` if a candidate has no price.
  pub all_known : List (Option Rates) → Option (List Rates)
  all_known [] = some []
  all_known (none ∷ rs) = none
  all_known (some r ∷ rs) = elim (all_known rs) [ none ↦ none | some l ↦ some (r ∷ l) ]

  abbrev pub or_else : Option F → F → F
  or_else none d = d
  or_else (some x) d = x

  -- `max(values)`
  abbrev pub max_of : F → List F → F
  max_of x [] = x
  max_of x (y ∷ ys) = max_of (if gt y x then y else x) ys

  pub multiplier : Offer → F
  multiplier o =
      if str_eq o.provider_name "anthropic"
      then (if o.one_hour_cache then of_ℕ 2 else div (of_ℕ 5) (of_ℕ 4))
      else if str_eq o.provider_name "openai"
      then div (of_ℕ 5) (of_ℕ 4)
      else of_ℕ 1

  -- The dearest rate for an input token under one price list.
  pub input_rate_of : F → Rates → F
  input_rate_of times r =
      max_of r.input_rate
        (or_else r.cached_rate r.input_rate ∷ or_else r.write_rate (mul r.input_rate times) ∷ [])

  -- The estimate at the dearest of the known rates.
  pub estimate : Offer → Rates → List Rates → F
  unfolding multiplier input_rate_of
  estimate o r rs =
      let times = multiplier o in
      let input = max_of (input_rate_of times r) (map (input_rate_of times) rs) in
      let output = max_of r.output_rate (map (λ (k : Rates). k.output_rate) rs) in
      div (add (mul (of_ℕ o.tokens) input) (mul (of_ℕ o.max_output_tokens) output)) (of_ℕ 1000000)

  abbrev pub candidates : Offer → List (Option Rates)
  candidates o =
      map o.prices
        (o.model ∷ (if str_eq o.provider_name "openrouter" then o.model_fallbacks else []))

  -- The check of the amount against the limit, and the reservation.
  pub reserve_amount : F → Budget → Result BudgetError (Budget × F)
  reserve_amount amount b = do
    guard (not (gt (add (add b.usage.cost_usd b.pending_cost_usd) amount) b.config.max_cost_usd))
        cost
    ok (record b { pending_cost_usd = add b.pending_cost_usd amount }, amount)

  pub reserve_priced : Offer → Option (List Rates) → Budget → Result BudgetError (Budget × F)
  unfolding reserve_amount
  reserve_priced o none b = err cost
  reserve_priced o (some []) b = err cost
  reserve_priced o (some (r ∷ rs)) b = reserve_amount (estimate o r rs) b

  -- The identity of the `Usage()` that is checked here does not matter: its cost is 0.0, held or not.
  pub reserve_cost : ℕ → Offer → Budget → Result BudgetError (Budget × F)
  reserve_cost now o b = do
    check_time_and_cost now b
    if not (is_strict b) || str_eq o.provider_name "mock" then ok (b, of_ℕ 0) else do
      check_unsettled now 0 (fresh_usage fl) b
      reserve_priced o (all_known (candidates o)) b

  -- `add_usage` settles the usage first and raises after that: the new state comes with the error.
  pub settle_usage : Usage fl → Budget → Budget × Result BudgetError (Unit {0})
  unfolding add_usage
  settle_usage u b =
      let b' : Budget = record b { usage = add_usage fl b.usage u } in
      (b', guard (not (is_strict b' && gt b'.usage.cost_usd b'.config.max_cost_usd)) cost)
