-- ===== src/Checkpoints/Retention.antt =====
-- `CheckpointManager.prune` of safety/checkpoints.py: which complete checkpoints it removes. The
-- records come as the source sorts them, the newest first; each has its size, and whether it is
-- older than the age that is kept (`too_old`, from the clock and the configuration).
pub mod Spared
pub mod Order
use borealis_coder.Prelude.{
  ℕ, suc, ◌+◌, ◌-◌, ◌≤◌, ◌≡◌, refl, ◌∙◌, ◌⊎◌, inl, inr, Bool, not, ◌||◌, List, [], ◌∷◌, ◌++◌,
  length, ltb, if◌then◌else◌, arith, Option, none, some, Bool-cases, Option-cases, length-append,
}
use borealis_coder.Prelude.Chars.{Text, text_eq}

pub record Record : Type 0 where
  pub id : Text
  pub size : ℕ
  pub too_old : Bool

pub record Limits : Type 0 where
  pub max_count : ℕ
  pub max_bytes : ℕ

unfoldable pub total_size : List Record → ℕ
total_size [] = 0
total_size (r ∷ rs) = r.size + total_size rs

-- The first record of the id, and the others in their order.
unfoldable pub take_out : Text → List Record → Option (Record × List Record)
take_out id [] = none
take_out id (r ∷ rs) =
    let later = take_out id rs in
    if text_eq r.id id
    then some (r, rs)
    else (elim later [ none ↦ none | some found ↦ some (found.0, r ∷ found.1) ])

-- `records.insert(0, records.pop(preserved))`
unfoldable pub preserve : Option Text → List Record → List Record
unfolding take_out
preserve none rs = rs
preserve (some id) rs = elim (take_out id rs) [ none ↦ rs | some found ↦ found.0 ∷ found.1 ]

-- The records selected, and the count and the bytes that remain.
pub record Pruned : Type 0 where
  pub selected : List Record
  pub remaining_count : ℕ
  pub remaining_bytes : ℕ

-- The loop over the records that may go.
unfoldable pub select : Limits → List Record → ℕ → ℕ → Pruned
select limits [] count bytes = record {
  selected = [];
  remaining_count = count;
  remaining_bytes = bytes;
}
select limits (r ∷ rs) remaining_count remaining_bytes =
    let removed = select limits rs (remaining_count - 1) (remaining_bytes - r.size) in
    let kept = select limits rs remaining_count remaining_bytes in
    if not
      (r.too_old || ltb limits.max_count remaining_count || ltb limits.max_bytes remaining_bytes)
    then kept
    else record removed { selected = r ∷ removed.selected }

abbrev pub reversed : List Record → List Record
reversed [] = []
reversed (r ∷ rs) = reversed rs ++ r ∷ []

-- What `prune` selects, the oldest first, and what remains; the first record may not go.
unfoldable pub prune_sorted : Limits → List Record → Pruned
unfolding select total_size
prune_sorted limits [] = record { selected = []; remaining_count = 0; remaining_bytes = 0 }
prune_sorted limits (newest ∷ others) =
    select limits (reversed others) (length (newest ∷ others)) (total_size (newest ∷ others))

unfoldable pub prune : Limits → Option Text → List Record → Pruned
unfolding preserve prune_sorted
prune limits preserve_id rs = prune_sorted limits (preserve preserve_id rs)

pub select-le :
    (limits : Limits) (rs : List Record) (count bytes : ℕ)
    → (let p = select limits rs count bytes in
        (p.remaining_count ≤ count) × (p.remaining_bytes ≤ bytes))
unfolding select
select-le limits [] count bytes = (omega arith, omega arith)
select-le limits (r ∷ rs) count bytes =
    ground
      (arith, select-le limits rs (count - 1) (bytes - r.size), select-le limits rs count bytes)

-- Within both limits.
abbrev pub IsWithin : Limits → Pruned → Type 0
IsWithin limits p = (p.remaining_count ≤ limits.max_count) × (p.remaining_bytes ≤ limits.max_bytes)

take_out-sizes :
    (id : Text) (rs : List Record) (x : Record) (ys : List Record)
    → take_out id rs ≡ some (x, ys)
    → (suc (length ys) ≡ length rs) × (x.size + total_size ys ≡ total_size rs)
unfolding take_out total_size
take_out-sizes id [] x ys h = cc
take_out-sizes id (r ∷ rs) x ys h = elim (Bool-cases (text_eq r.id id)) [
  | inl same ↦ ground arith
  | inr other ↦ elim (Option-cases (take_out id rs)) [
    | inl e ↦ ground arith
    | inr ((z, zs), e) ↦ ground (arith, take_out-sizes id rs z zs e)
  ]
]

-- The sizes of the records, the first of them apart.
abbrev Sizes : List Record → List Record → Type 0
Sizes xs ys = (length xs ≡ length ys) × (total_size xs ≡ total_size ys)

pub preserve-Sizes : (pid : Option Text) (rs : List Record) → Sizes (preserve pid rs) rs
unfolding preserve total_size
preserve-Sizes none rs = (refl, refl)
preserve-Sizes (some id) rs = elim (Option-cases (take_out id rs)) [
  | inl e ↦ rw (preserve, e) (refl, refl)
  | inr ((x, ys), e) ↦ rw (preserve, e) (take_out-sizes id rs x ys e)
]

total_size-append :
    (rs : List Record) (r : Record) → total_size (rs ++ r ∷ []) ≡ total_size rs + r.size
unfolding total_size
total_size-append [] r = omega arith
total_size-append (k ∷ rs) r = omega (arith, total_size-append rs r)

pub reversed-Sizes : (rs : List Record) → Sizes (reversed rs) rs
unfolding total_size
reversed-Sizes [] = (refl, refl)
reversed-Sizes (r ∷ rs) =
    let (counts, sizes) = reversed-Sizes rs in
    (
      omega (arith, length-append (reversed rs) (r ∷ [])),
      omega (arith, total_size-append (reversed rs) r),
    )
