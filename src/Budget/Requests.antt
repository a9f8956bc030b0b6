-- ===== src/Budget/Requests.antt =====
-- The limit of model requests holds whatever the agents of a run do.
use borealis_coder.Prelude.{
  ℕ, ◌+◌, ◌≤◌, String, ◌≡◌, refl, ap, ◌∙◌, Bool, true, false, List, [], ◌∷◌, distinct, length,
  Result, ok, err, arith,
}
use borealis_coder.Models.Float.{Float}
use borealis_coder.Budget.{
  Config, Budget, start, remaining_requests, reserve_closure, release_closure, before_model_request,
}
use borealis_coder.Budget.Owners.{length-discard-le, distinct-discard, length-discard-le-others}
use borealis_coder.Budget.Ops.{
  Op, turn, retry, reserve, release, request, hold, unhold, give_back, settle, state_of, run,
  run_all, before_model_request-inv, run_all-config,
}

module _ (fl : Float) where
  -- Used and reserved requests stay within the limit.
  pub record IsWithin (b : Budget fl) : Type 0 where
    pub room : b.requests_used + length b.request_closures ≤ b.config.max_model_requests
    pub owners : distinct b.request_closures ≡ true

  start-IsWithin : (config : Config fl) (now : ℕ) → IsWithin (start fl config now)
  unfolding start
  start-IsWithin config now = record { room = omega arith; owners = refl }

  reserve_closure-IsWithin :
      (o : String) (b : Budget fl) → IsWithin b → IsWithin (reserve_closure fl o b).0
  unfolding reserve_closure remaining_requests
  reserve_closure-IsWithin o b v = ground (arith, v.room, v.owners)

  release_closure-IsWithin :
      (o : String) (b : Budget fl) → IsWithin b → IsWithin (release_closure fl o b)
  unfolding release_closure
  release_closure-IsWithin o b v = record {
    room = omega (arith, v.room, length-discard-le o b.request_closures);
    owners = distinct-discard o b.request_closures v.owners;
  }

  before_model_request-IsWithin :
      (now : ℕ) (o : String) (closure : Bool) (b c : Budget fl)
      → IsWithin b
      → before_model_request fl now o closure b ≡ ok c
      → IsWithin c
  unfolding remaining_requests
  before_model_request-IsWithin now o true b c v h =
      let (left, clear, same, used, kept) = before_model_request-inv fl now o true b c h in
      record {
        room = ground (
          arith,
          length-discard-le-others o b.request_closures,
          ap (λ (k : Config fl). k.max_model_requests) same,
          ap length kept,
        );
        owners = ap distinct kept ∙ distinct-discard o b.request_closures v.owners;
      }
  before_model_request-IsWithin now o false b c v h =
      let (left, clear, same, used, kept) = before_model_request-inv fl now o false b c h in
      record {
        room = ground (arith, ap (λ (k : Config fl). k.max_model_requests) same, ap length kept);
        owners = ap distinct kept ∙ v.owners;
      }

  state_of-IsWithin :
      {A : Type 0} (b : Budget fl) (r : Result A (Budget fl))
      → IsWithin b
      → ((c : Budget fl) → r ≡ ok c → IsWithin c)
      → IsWithin (state_of fl b r)
  state_of-IsWithin b (ok c) v h = h c refl
  state_of-IsWithin b (err e) v h = v

  run-IsWithin : (op : Op fl) (b : Budget fl) → IsWithin b → IsWithin (run fl op b)
  unfolding run
  run-IsWithin (turn now) b v = ground (arith, v.room, v.owners)
  run-IsWithin retry b v = ground (arith, v.room, v.owners)
  run-IsWithin (reserve o) b v = reserve_closure-IsWithin o b v
  run-IsWithin (release o) b v = release_closure-IsWithin o b v
  run-IsWithin (request now o closure) b v =
      state_of-IsWithin b (before_model_request fl now o closure b) v
        (λ c. before_model_request-IsWithin now o closure b c v)
  run-IsWithin (hold i u) b v = record { room = v.room; owners = v.owners }
  run-IsWithin (unhold i) b v = record { room = v.room; owners = v.owners }
  run-IsWithin (give_back r) b v = record { room = v.room; owners = v.owners }
  run-IsWithin (settle u) b v = record { room = v.room; owners = v.owners }

  pub run_all-IsWithin :
      (ops : List (Op fl)) (b : Budget fl) → IsWithin b → IsWithin (run_all fl ops b)
  unfolding run_all
  run_all-IsWithin [] b v = v
  run_all-IsWithin (op ∷ ops) b v = run_all-IsWithin ops (run fl op b) (run-IsWithin op b v)

  -- From the start of a run, whatever its agents call in whatever order, the requests made and the
  -- closure requests reserved, no owner counted twice, together stay within the limit of the
  -- configuration that the run was started with.
  pub run_all-start-IsWithin :
      (config : Config fl) (now : ℕ) (ops : List (Op fl))
      → IsWithin (run_all fl ops (start fl config now))
        × ((run_all fl ops (start fl config now)).config ≡ config)
  run_all-start-IsWithin config now ops =
      let b = start fl config now in
      (
        run_all-IsWithin ops b (start-IsWithin config now),
        run_all-config fl ops b ∙ (unfold start in refl),
      )
