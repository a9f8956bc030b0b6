-- ===== src/Models/Usage/Status.antt =====
-- The cost status of a sum of usages.
use borealis_coder.Prelude.{
  ◌<◌, ◌≡◌, refl, true, false, ◌||◌, List, [], ◌∷◌, All, all, any, arith, map, ap, ◌∙◌,
  if◌then◌else◌,
}
use borealis_coder.Models.Float.{Float}
use borealis_coder.Models.Usage.{
  CostStatus, known, estimated, unknown, incomplete, status_eq, Usage, fresh_usage, is_empty,
  added_status, add_usage,
}

-- The status of a sum by the statuses of its parts, in whatever order they were added.
abbrev pub verdict : List CostStatus → CostStatus
verdict l =
    if any (status_eq incomplete) l
    then incomplete
    else if all (status_eq unknown) l
    then unknown
    else if any (status_eq unknown) l
    then incomplete
    else if any (status_eq estimated) l
    then estimated
    else known

-- Two parts may be joined first.
join_status : CostStatus → CostStatus → CostStatus
join_status s o = verdict (s ∷ o ∷ [])

verdict-join_status :
    (s o : CostStatus) (os : List CostStatus)
    → verdict (join_status s o ∷ os) ≡ verdict (s ∷ o ∷ os)
unfolding join_status
verdict-join_status known known os = ground arith
verdict-join_status known o os = ground arith
verdict-join_status estimated known os = ground arith
verdict-join_status estimated o os = ground arith
verdict-join_status unknown known os = ground arith
verdict-join_status unknown o os = ground arith
verdict-join_status incomplete o os = ground arith

module _ (fl : Float) where
  -- `add` over some usages, in order.
  pub add_all : Usage fl → List (Usage fl) → Usage fl
  add_all u [] = u
  add_all u (v ∷ vs) = add_all (add_usage fl u v) vs

  -- Each usage stands for one request at least.
  abbrev pub AllCounted : List (Usage fl) → Type 0
  AllCounted = All (λ (u : Usage fl). 0 < u.requests)

  requests-is_empty : (u : Usage fl) → 0 < u.requests → is_empty fl u ≡ false
  unfolding is_empty
  requests-is_empty u h = ground arith

  added_status-join :
      (u v : Usage fl)
      → 0 < u.requests
      → 0 < v.requests
      → (add_usage fl u v).cost_status ≡ join_status u.cost_status v.cost_status
  unfolding add_usage added_status join_status
  added_status-join u v hu hv =
      rw (requests-is_empty u hu, requests-is_empty v hv) (statuses u.cost_status v.cost_status)
    where
      statuses :
          (s o : CostStatus)
          → (if status_eq s incomplete || status_eq o incomplete
              then incomplete
              else if status_eq s unknown || status_eq o unknown
              then (if status_eq s o then unknown else incomplete)
              else if status_eq s estimated || status_eq o estimated
              then estimated
              else s)
            ≡ verdict (s ∷ o ∷ [])
      statuses known o = ground arith
      statuses estimated o = ground arith
      statuses unknown o = ground arith
      statuses incomplete o = ground arith

  add_all-status :
      (u : Usage fl) (vs : List (Usage fl))
      → 0 < u.requests
      → AllCounted vs
      → (add_all u vs).cost_status ≡ verdict (u.cost_status ∷ map (λ v. v.cost_status) vs)
  unfolding add_all
  add_all-status u [] hu hs = ground arith
  add_all-status u (v ∷ vs) hu hs =
      add_all-status (add_usage fl u v) vs (unfold add_usage in omega arith) hs.1
      ∙ (rw (added_status-join u v hu hs.0)
          (verdict-join_status u.cost_status v.cost_status (map (λ w. w.cost_status) vs)))

  add_usage-fresh :
      fl.is_zero (fl.of_ℕ 0) ≡ true
      → (v : Usage fl) → 0 < v.requests
      → (add_usage fl (fresh_usage fl) v).cost_status ≡ v.cost_status
  unfolding add_usage added_status fresh_usage
  add_usage-fresh zero_false v hv = rw (requests-is_empty v hv, fresh-is_empty) refl
    where
      fresh-is_empty : is_empty fl (fresh_usage fl) ≡ true
      fresh-is_empty = unfold is_empty fresh_usage in rw zero_false refl

  -- Usages that each count a request are added to a fresh one: the status of the sum is `incomplete`
  -- if a part is, `unknown` if all parts are, `incomplete` if only some are, else `estimated` if a
  -- part is, and `known` only if all parts are. (`0.0` counts as false.)
  pub add_all-verdict :
      fl.is_zero (fl.of_ℕ 0) ≡ true
      → (v : Usage fl) (vs : List (Usage fl)) → AllCounted (v ∷ vs)
      → (add_all (fresh_usage fl) (v ∷ vs)).cost_status
        ≡ verdict (map (λ w. w.cost_status) (v ∷ vs))
  unfolding add_all
  add_all-verdict zero_false v vs hs =
      add_all-status (add_usage fl (fresh_usage fl) v) vs
        (unfold add_usage fresh_usage in omega arith) hs.1
      ∙ ap (λ s. verdict (s ∷ map (λ w. w.cost_status) vs)) (add_usage-fresh zero_false v hs.0)
