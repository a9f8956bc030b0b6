-- ===== src/Budget/Promise.antt =====
-- A reserved closure request stays available to its owner.
use borealis_coder.Prelude.{
  ℕ, ◌+◌, ◌<◌, String, ◌≡◌, refl, ap, ◌∙◌, Bool, true, false, not, ◌&&◌, some, List, [], ◌∷◌,
  str_eq, elem, all, Result, ok, err, ◌>>=◌, arith,
}
use borealis_coder.Models.Float.{Float}
use borealis_coder.Budget.{
  others, Budget, check_time_and_cost, remaining_requests, reserve_closure, release_closure,
  before_model_request,
}
use borealis_coder.Budget.Owners.{elem-discard, length-discard_of_elem}
use borealis_coder.Budget.Ops.{
  Op, turn, retry, reserve, release, request, hold, unhold, give_back, settle, state_of, run,
  run_all, before_model_request-inv,
}
use borealis_coder.Budget.Requests.{IsWithin, run_all-IsWithin}

module _ (fl : Float) where
  -- The call is not the one by which `owner` gives its reserved request up or uses it.
  unfoldable pub spares : String → Op fl → Bool
  spares owner (release o) = not (str_eq o owner)
  spares owner (request now o closure) = not (closure && str_eq o owner)
  spares owner (turn now) = true
  spares owner retry = true
  spares owner (reserve o) = true
  spares owner (hold i u) = true
  spares owner (unhold i) = true
  spares owner (give_back r) = true
  spares owner (settle u) = true

  state_of-elem :
      {A : Type 0} (owner : String) (b : Budget fl) (r : Result A (Budget fl))
      → elem owner b.request_closures ≡ true
      → ((c : Budget fl) → r ≡ ok c → elem owner c.request_closures ≡ true)
      → elem owner (state_of fl b r).request_closures ≡ true
  state_of-elem owner b (ok c) v h = h c refl
  state_of-elem owner b (err e) v h = v

  run-elem :
      (owner : String) (op : Op fl) (b : Budget fl)
      → spares owner op ≡ true
      → elem owner b.request_closures ≡ true
      → elem owner (run fl op b).request_closures ≡ true
  unfolding run spares
  run-elem owner (turn now) b s h = ground arith
  run-elem owner retry b s h = ground arith
  run-elem owner (reserve o) b s h = unfold reserve_closure in ground arith
  run-elem owner (release o) b s h =
      unfold release_closure in ground (arith, elem-discard owner o b.request_closures)
  run-elem owner (request now o true) b s h =
      state_of-elem owner b (before_model_request fl now o true b) h λ c e.
        let (left, clear, same, used, kept) = before_model_request-inv fl now o true b c e in
        ap (elem owner) kept ∙ ground (arith, elem-discard owner o b.request_closures)
  run-elem owner (request now o false) b s h =
      state_of-elem owner b (before_model_request fl now o false b) h λ c e.
        let (left, clear, same, used, kept) = before_model_request-inv fl now o false b c e in
        ap (elem owner) kept ∙ h
  run-elem owner (hold i u) b s h = h
  run-elem owner (unhold i) b s h = h
  run-elem owner (give_back r) b s h = h
  run-elem owner (settle u) b s h = h

  run_all-elem :
      (owner : String) (ops : List (Op fl)) (b : Budget fl)
      → all (spares owner) ops ≡ true
      → elem owner b.request_closures ≡ true
      → elem owner (run_all fl ops b).request_closures ≡ true
  unfolding run_all
  run_all-elem owner [] b s h = h
  run_all-elem owner (op ∷ ops) b s h =
      run_all-elem owner ops (run fl op b) (ground arith) (run-elem owner op b (ground arith) h)

  remaining_of_elem :
      (owner : String) (b : Budget fl)
      → IsWithin fl b
      → str_eq owner "" ≡ false
      → elem owner b.request_closures ≡ true
      → 0 < remaining_requests fl (some owner) b
  unfolding remaining_requests others
  remaining_of_elem owner b v named h =
      rw named (omega (arith, v.room, length-discard_of_elem owner b.request_closures v.owners h))

  before_model_request-admits :
      (now : ℕ) (owner : String) (b : Budget fl)
      → 0 < remaining_requests fl (some owner) b
      → before_model_request fl now owner true b ≡ (
          check_time_and_cost fl now b >>= λ _.
          ok (record (release_closure fl owner b) { requests_used = b.requests_used + 1 }))
  unfolding before_model_request release_closure
  before_model_request-admits now owner b h = ground arith

  -- An agent (its id is not empty) that has reserved its closure request can make it after any calls
  -- of the other agents, and after its own calls that neither use nor release it: the request is
  -- refused only when the time or the cost limit stops the run.
  pub reserved_request-admitted :
      (owner : String) (b : Budget fl) (ops : List (Op fl)) (now : ℕ)
      → IsWithin fl b
      → str_eq owner "" ≡ false
      → elem owner b.request_closures ≡ true
      → all (spares owner) ops ≡ true
      → before_model_request fl now owner true (run_all fl ops b) ≡ (
          check_time_and_cost fl now (run_all fl ops b) >>= λ _.
          ok (record (release_closure fl owner (run_all fl ops b)) {
            requests_used = (run_all fl ops b).requests_used + 1;
          }))
  reserved_request-admitted owner b ops now v named h s =
      before_model_request-admits now owner (run_all fl ops b) (
        remaining_of_elem owner (run_all fl ops b) (run_all-IsWithin fl ops b v) named
          (run_all-elem owner ops b s h))
