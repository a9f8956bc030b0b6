-- ===== src/Models/Usage.antt =====
pub mod Status
-- `Usage` of models.py, over an abstract `float`.
use borealis_coder.Prelude.{
  ℕ, ◌+◌, ◌<◌, ◌≡◌, refl, Bool, true, false, not, ◌&&◌, ◌||◌, List, [], ◌∷◌, ◌++◌, ◌==◌, ltb, any,
  arith, if◌then◌else◌,
}
use borealis_coder.Models.Float.{Float}
use borealis_coder.Models.JsonValue.{Json, obj, Fields, end, field}

-- The values that the comment on `cost_status` lists.
pub data CostStatus : Type 0 where
  known estimated unknown incomplete : CostStatus

abbrev pub status_eq : CostStatus → CostStatus → Bool
status_eq known known = true
status_eq estimated estimated = true
status_eq unknown unknown = true
status_eq incomplete incomplete = true
status_eq _ _ = false

module _ (fl : Float) where
  open fl use {F, of_ℕ, add, is_zero}

  pub record Usage : Type 0 where
    pub input_tokens : ℕ
    pub output_tokens : ℕ
    pub cached_input_tokens : ℕ
    pub cache_write_tokens : ℕ
    pub reasoning_tokens : ℕ
    pub requests : ℕ
    pub cost_usd : F
    pub cost_status : CostStatus
    pub native_usage : Fields
    pub attempt_usage : List Fields
    pub cache_savings_usd : F
    pub application_cache_hits : ℕ
    pub application_cache_misses : ℕ
    pub application_cache_saved_tokens : ℕ
    pub application_cache_saved_cost_usd : F

  -- Usage()
  unfoldable pub fresh_usage : Usage
  fresh_usage = record {
    input_tokens = 0;
    output_tokens = 0;
    cached_input_tokens = 0;
    cache_write_tokens = 0;
    reasoning_tokens = 0;
    requests = 0;
    cost_usd = of_ℕ 0;
    cost_status = unknown;
    native_usage = end;
    attempt_usage = [];
    cache_savings_usd = of_ℕ 0;
    application_cache_hits = 0;
    application_cache_misses = 0;
    application_cache_saved_tokens = 0;
    application_cache_saved_cost_usd = of_ℕ 0;
  }

  unfoldable pub is_empty : Usage → Bool
  is_empty u = not (
      status_eq u.cost_status incomplete
      || ltb 0 u.input_tokens
      || ltb 0 u.output_tokens
      || ltb 0 u.cached_input_tokens
      || ltb 0 u.cache_write_tokens
      || ltb 0 u.reasoning_tokens
      || ltb 0 u.requests
      || not (is_zero u.cost_usd)
      || not (is_zero u.cache_savings_usd)
      || ltb 0 u.application_cache_hits
      || ltb 0 u.application_cache_misses
      || ltb 0 u.application_cache_saved_tokens
      || not (is_zero u.application_cache_saved_cost_usd))

  pub total_tokens : Usage → ℕ
  total_tokens u = u.input_tokens + u.output_tokens

  -- The status that `add` leaves in `self`.
  pub added_status : Usage → Usage → CostStatus
  unfolding is_empty
  added_status self other =
      let s = self.cost_status in
      let o = other.cost_status in
      if not (is_empty other) || status_eq o incomplete
      then (if is_empty self && not (status_eq s incomplete)
          then o
          else if status_eq s incomplete || status_eq o incomplete
          then incomplete
          else if status_eq s unknown || status_eq o unknown
          then (if status_eq s o then unknown else incomplete)
          else if status_eq s estimated || status_eq o estimated
          then estimated
          else s)
      else s

  -- [{"native_usage": native_usage}]
  abbrev wrapped : Fields → List Fields
  wrapped end = []
  wrapped (field k v fs) = field "native_usage" (obj (field k v fs)) end ∷ []

  -- attempts or ([{"native_usage": ...}] if native_usage else [])
  abbrev attempts_or : List Fields → Fields → List Fields
  attempts_or [] native = wrapped native
  attempts_or (a ∷ more) native = a ∷ more

  unfoldable pub add_usage : Usage → Usage → Usage
  unfolding added_status
  add_usage self other = record {
    input_tokens = self.input_tokens + other.input_tokens;
    output_tokens = self.output_tokens + other.output_tokens;
    cached_input_tokens = self.cached_input_tokens + other.cached_input_tokens;
    cache_write_tokens = self.cache_write_tokens + other.cache_write_tokens;
    reasoning_tokens = self.reasoning_tokens + other.reasoning_tokens;
    requests = self.requests + other.requests;
    cost_usd = add self.cost_usd other.cost_usd;
    cost_status = added_status self other;
    native_usage = end;
    attempt_usage =
        attempts_or self.attempt_usage self.native_usage
        ++ attempts_or other.attempt_usage other.native_usage;
    cache_savings_usd = add self.cache_savings_usd other.cache_savings_usd;
    application_cache_hits = self.application_cache_hits + other.application_cache_hits;
    application_cache_misses = self.application_cache_misses + other.application_cache_misses;
    application_cache_saved_tokens =
        self.application_cache_saved_tokens + other.application_cache_saved_tokens;
    application_cache_saved_cost_usd =
        add self.application_cache_saved_cost_usd other.application_cache_saved_cost_usd;
  }
