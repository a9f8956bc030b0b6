-- ===== src/Budget/Tests.antt =====
-- Runs of the budget with whole numbers for dollars, and instances of its theorems.
use borealis_coder.Prelude.{
  ◌≡◌, refl, ◌+◌, ◌≤◌, true, false, List, [], ◌∷◌, none, some, ok, err, is_ok, all, ◌>>=◌, arith,
}
use borealis_coder.Models.Float.{whole}
use borealis_coder.Models.Usage.{fresh_usage}
use borealis_coder.Budget.{
  not_started, Config, Budget, start, is_strict, reserve_closure, reserve_priced, estimate,
  all_known, is_unreconciled, multiplier, input_rate_of, reserve_amount, discard,
  check_time_and_cost, before_turn, retry_current_turn, release_closure, before_model_request,
  check_unsettled, Offer, reserve_cost,
}
use borealis_coder.Budget.Ops.{Op, run, turn, reserve, request, run_all}
use borealis_coder.Budget.Requests.{IsWithin, run_all-start-IsWithin}
use borealis_coder.Budget.Promise.{spares, reserved_request-admitted}
use borealis_coder.Budget.Unsettled.{blocks, leaves, unreconciled_blocks}
use borealis_coder.Budget.Turns.{retry-before_turn}

abbrev config : Config whole
config = record { max_turns = 10; max_model_requests = 3; max_time_seconds = 60; max_cost_usd = 50 }

abbrev fresh : Budget whole
fresh = start whole config 0

-- Two owners reserve the last requests; the second request of a third one is refused.
abbrev calls : List (Op whole)
calls =
    turn 0
    ∷ reserve "a"
    ∷ reserve "b"
    ∷ request 3 "c" false
    ∷ request 4 "c" false
    ∷ request 5 "a" true
    ∷ []

third_is_refused :
    ((run_all whole calls fresh).requests_used ≡ 2)
    × ((run_all whole calls fresh).request_closures ≡ "b" ∷ [])
unfolding run_all run before_turn reserve_closure before_model_request start discard
third_is_refused = (refl, refl)

run_all-start-IsWithin_example :
    IsWithin whole (run_all whole calls fresh) × ((run_all whole calls fresh).config ≡ config)
run_all-start-IsWithin_example = run_all-start-IsWithin whole config 0 calls

abbrev reserved : Budget whole
reserved = record fresh { request_closures = "b" ∷ [] }

reserved-IsWithin : IsWithin whole reserved
unfolding start
reserved-IsWithin = record { room = omega arith; owners = refl }

others_calls : List (Op whole)
others_calls = request 1 "a" false ∷ request 2 "a" false ∷ reserve "c" ∷ []

spares_b : all (spares whole "b") others_calls ≡ true
unfolding spares others_calls
spares_b = refl

reserved_request-admitted_example :
    before_model_request whole 3 "b" true (run_all whole others_calls reserved) ≡ (
      check_time_and_cost whole 3 (run_all whole others_calls reserved) >>= λ _.
      ok (record (release_closure whole "b" (run_all whole others_calls reserved)) {
        requests_used = (run_all whole others_calls reserved).requests_used + 1;
      }))
reserved_request-admitted_example =
    reserved_request-admitted whole "b" reserved others_calls 3 reserved-IsWithin refl refl spares_b

abbrev offer : Offer whole
offer = record {
  provider_name = "openai";
  model = "m";
  model_fallbacks = [];
  prices =
      λ m. some (record { input_rate = 2; output_rate = 8; cached_rate = none; write_rate = none });
  one_hour_cache = false;
  tokens = 1000000;
  max_output_tokens = 2000000;
}

abbrev held : Budget whole
held = record fresh {
  held_usage = record { usage_id = 7; held_cost = 0; unreconciled = true } ∷ [];
}

strict_held : is_strict whole held ≡ true
unfolding start
strict_held = refl

held_blocks : blocks whole 7 held.held_usage ≡ true
unfolding blocks
held_blocks = refl

leaves_held : all (leaves whole 7) others_calls ≡ true
unfolding leaves others_calls
leaves_held = refl

unreconciled_blocks_example :
    (is_ok (check_unsettled whole 9 8 (fresh_usage whole) (run_all whole others_calls held))
      ≡ false)
    × (is_ok (reserve_cost whole 9 offer (run_all whole others_calls held)) ≡ false)
unreconciled_blocks_example =
    unreconciled_blocks whole 7 held others_calls 9 8 (fresh_usage whole) offer strict_held
      held_blocks leaves_held refl

abbrev one_turn : Budget whole
one_turn = record fresh { turns_used = 1 }

turn_begins : before_turn whole 5 fresh ≡ ok one_turn
unfolding before_turn start
turn_begins = refl

retry-before_turn_example :
    (one_turn.turns_used ≤ fresh.config.max_turns)
    × (retry_current_turn whole one_turn ≡ ok fresh)
    × ((d : Budget whole) → d.turns_used ≡ 0 → retry_current_turn whole d ≡ err not_started)
retry-before_turn_example = retry-before_turn whole 5 fresh one_turn turn_begins

abbrev priced : Budget whole
priced = record fresh { pending_cost_usd = 18 }

is_priced : reserve_cost whole 5 offer fresh ≡ ok (priced, 18)
unfolding reserve_cost reserve_priced estimate check_unsettled check_time_and_cost all_known start
    fresh_usage is_unreconciled multiplier input_rate_of reserve_amount
is_priced = refl
