-- ===== src/Budget/Turns.antt =====
-- The turns of a run.
use borealis_coder.Prelude.{ℕ, ◌≤◌, ◌≡◌, ok, err, arith}
use borealis_coder.Models.Float.{Float}
use borealis_coder.Budget.{not_started, Budget, before_turn, retry_current_turn}

module _ (fl : Float) where
  -- A turn that is begun is below the limit, and counted; retrying it gives the count back, so that
  -- the failed attempt and its retry are one turn. Before the first turn there is nothing to retry.
  pub retry-before_turn :
      (now : ℕ) (b c : Budget fl)
      → before_turn fl now b ≡ ok c
      → (c.turns_used ≤ b.config.max_turns)
        × (retry_current_turn fl c ≡ ok b)
        × ((d : Budget fl) → d.turns_used ≡ 0 → retry_current_turn fl d ≡ err not_started)
  unfolding before_turn retry_current_turn
  retry-before_turn now b c h = (ground arith, ground arith, λ d z. ground arith)
