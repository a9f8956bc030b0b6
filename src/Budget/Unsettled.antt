-- ===== src/Budget/Unsettled.antt =====
-- A strict dollar budget stops at usage whose cost is not known.
use borealis_coder.Prelude.{
  ℕ, String, ◌≡◌, refl, ap, ◌∙◌, Bool, true, false, not, ◌&&◌, List, [], ◌∷◌, str_eq, all, any,
  Result, ok, err, is_ok, arith, ◌==◌,
}
use borealis_coder.Models.Float.{Float}
use borealis_coder.Models.Usage.{Usage, fresh_usage}
use borealis_coder.Budget.{
  Held, Budget, Offer, is_strict, reserve_closure, release_closure, before_model_request,
  without_held, check_unsettled, reserve_cost,
}
use borealis_coder.Budget.Ops.{
  Op, turn, retry, reserve, release, request, hold, unhold, give_back, settle, state_of, run,
  run_all, run_all-config,
}

module _ (fl : Float) where
  -- The entry of the usage object `i` is there, and its cost is not settled.
  unfoldable pub blocks : ℕ → List (Held fl) → Bool
  blocks i hs = any (λ (h : Held fl). h.usage_id == i && h.unreconciled) hs

  -- The call neither replaces nor releases the entry of `i`.
  unfoldable pub leaves : ℕ → Op fl → Bool
  leaves i (hold j u) = not (j == i)
  leaves i (unhold j) = not (j == i)
  leaves i (turn now) = true
  leaves i retry = true
  leaves i (reserve o) = true
  leaves i (release o) = true
  leaves i (request now o closure) = true
  leaves i (give_back r) = true
  leaves i (settle u) = true

  blocks-without_held :
      (i j : ℕ) (hs : List (Held fl))
      → (j == i) ≡ false
      → blocks i (without_held fl j hs) ≡ blocks i hs
  unfolding blocks without_held
  blocks-without_held i j [] h = refl
  blocks-without_held i j (k ∷ hs) h = ground (arith, blocks-without_held i j hs h)

  state_of-blocks :
      {A : Type 0} (i : ℕ) (b : Budget fl) (r : Result A (Budget fl))
      → blocks i b.held_usage ≡ true
      → ((c : Budget fl) → r ≡ ok c → blocks i c.held_usage ≡ true)
      → blocks i (state_of fl b r).held_usage ≡ true
  state_of-blocks i b (ok c) h k = k c refl
  state_of-blocks i b (err e) h k = h

  before_model_request-held :
      (now : ℕ) (o : String) (closure : Bool) (b c : Budget fl)
      → before_model_request fl now o closure b ≡ ok c
      → c.held_usage ≡ b.held_usage
  unfolding before_model_request
  before_model_request-held now o true b c h = ground arith
  before_model_request-held now o false b c h = ground arith

  run-blocks :
      (i : ℕ) (op : Op fl) (b : Budget fl)
      → leaves i op ≡ true
      → blocks i b.held_usage ≡ true
      → blocks i (run fl op b).held_usage ≡ true
  unfolding run leaves
  run-blocks i (hold j u) b s h =
      unfold blocks in ground (arith, blocks-without_held i j b.held_usage)
  run-blocks i (unhold j) b s h = ground (arith, blocks-without_held i j b.held_usage)
  run-blocks i (turn now) b s h = ground arith
  run-blocks i retry b s h = ground arith
  run-blocks i (reserve o) b s h = unfold reserve_closure in ground arith
  run-blocks i (release o) b s h = unfold release_closure in h
  run-blocks i (request now o closure) b s h =
      state_of-blocks i b (before_model_request fl now o closure b) h
        (λ c e. ap (blocks i) (before_model_request-held now o closure b c e) ∙ h)
  run-blocks i (give_back r) b s h = h
  run-blocks i (settle u) b s h = h

  run_all-blocks :
      (i : ℕ) (ops : List (Op fl)) (b : Budget fl)
      → all (leaves i) ops ≡ true
      → blocks i b.held_usage ≡ true
      → blocks i (run_all fl ops b).held_usage ≡ true
  unfolding run_all
  run_all-blocks i [] b s h = h
  run_all-blocks i (op ∷ ops) b s h =
      run_all-blocks i ops (run fl op b) (ground arith) (run-blocks i op b (ground arith) h)

  any-unreconciled :
      (i : ℕ) (hs : List (Held fl))
      → blocks i hs ≡ true
      → any (λ (h : Held fl). h.unreconciled) hs ≡ true
  unfolding blocks
  any-unreconciled i [] h = cc
  any-unreconciled i (k ∷ hs) h = ground (arith, any-unreconciled i hs)

  check_unsettled-blocked :
      (now j : ℕ) (u : Usage fl) (b : Budget fl)
      → is_strict fl b ≡ true
      → any (λ (h : Held fl). h.unreconciled) b.held_usage ≡ true
      → is_ok (check_unsettled fl now j u b) ≡ false
  unfolding check_unsettled
  check_unsettled-blocked now j u b strict h = ground arith

  reserve_cost-blocked :
      (now : ℕ) (o : Offer fl) (b : Budget fl)
      → is_strict fl b ≡ true
      → str_eq o.provider_name "mock" ≡ false
      → any (λ (h : Held fl). h.unreconciled) b.held_usage ≡ true
      → is_ok (reserve_cost fl now o b) ≡ false
  unfolding reserve_cost
  reserve_cost-blocked now o b strict paid bad =
      let stop = check_unsettled-blocked now 0 (fresh_usage fl) b strict bad in ground arith

  -- In a strict run (the configuration has a dollar limit) a held usage of unknown or incomplete cost
  -- blocks every retry and every reservation with a paying provider, whatever else the agents of the
  -- run call, until that usage object is held anew or released.
  pub unreconciled_blocks :
      (i : ℕ) (b : Budget fl) (ops : List (Op fl)) (now j : ℕ) (u : Usage fl) (o : Offer fl)
      → is_strict fl b ≡ true
      → blocks i b.held_usage ≡ true
      → all (leaves i) ops ≡ true
      → str_eq o.provider_name "mock" ≡ false
      → (is_ok (check_unsettled fl now j u (run_all fl ops b)) ≡ false)
        × (is_ok (reserve_cost fl now o (run_all fl ops b)) ≡ false)
  unreconciled_blocks i b ops now j u o strict h s paid =
      let c = run_all fl ops b in
      let strict' : is_strict fl c ≡ true = rw (run_all-config fl ops b) strict in
      let bad = any-unreconciled i c.held_usage (run_all-blocks i ops b s h) in
      (check_unsettled-blocked now j u c strict' bad, reserve_cost-blocked now o c strict' paid bad)
