-- ===== src/Checkpoints/Retention/Order.antt =====
-- Which records `CheckpointManager.prune` of safety/checkpoints.py selects, and in what order.
use borealis_coder.Prelude.{
  ℕ, suc, ◌+◌, ◌-◌, ◌≤◌, ◌<◌, ◌≡◌, refl, sym, ap, subst, ◌∙◌, ◌⊎◌, inl, inr, true, false, ◌||◌,
  List, [], ◌∷◌, length, ltb, arith, Option, All, Bool-cases,
}
use borealis_coder.Prelude.Chars.{Text}
use borealis_coder.Checkpoints.Retention.{
  Record, Limits, Pruned, IsWithin, total_size, select, select-le, reversed, prune_sorted, prune,
  preserve-Sizes, reversed-Sizes,
}
use borealis_coder.Checkpoints.Retention.Spared.{IsSpared, preserve-IsSpared}

-- The records, the oldest first, are those selected and those kept, in their order. None that is too
-- old is kept, and those selected after a kept one are all too old.
pub data IsOldestFirst : List Record → List Record → List Record → Type 0 where
  nothing : IsOldestFirst [] [] []
  goes :
      (r : Record) (rs selected kept : List Record)
      → IsOldestFirst rs selected kept
      → IsOldestFirst (r ∷ rs) (r ∷ selected) kept
  stays :
      (r : Record) (rs selected kept : List Record)
      → r.too_old ≡ false
      → All (λ (s : Record). s.too_old ≡ true) selected
      → IsOldestFirst rs selected kept
      → IsOldestFirst (r ∷ rs) selected (r ∷ kept)

-- With what remains when its turn comes, each selected record is too old, or a limit is exceeded.
abbrev pub Needed : Limits → ℕ → ℕ → List Record → Type 0
Needed limits count bytes [] = Unit
Needed limits count bytes (s ∷ ss) =
    ((s.too_old ≡ true) ⊎ (limits.max_count < count) ⊎ (limits.max_bytes < bytes))
    × Needed limits (count - 1) (bytes - s.size) ss

select-old :
    (limits : Limits) (rs : List Record) (count bytes : ℕ)
    → count ≤ limits.max_count
    → bytes ≤ limits.max_bytes
    → All (λ (s : Record). s.too_old ≡ true) (select limits rs count bytes).selected
unfolding select
select-old limits [] count bytes h k = tt
select-old limits (r ∷ rs) count bytes h k =
    let over = r.too_old || ltb limits.max_count count || ltb limits.max_bytes bytes in
    elim (Bool-cases over) [
      | inl e ↦ rw e (
        ground arith,
        select-old limits rs (count - 1) (bytes - r.size) (omega arith) (omega arith),
      )
      | inr e ↦ rw e (select-old limits rs count bytes h k)
    ]

-- What a run of the loop has done that begins with the count and the bytes `c` and `b`, of which
-- `count` and `bytes` are not those of the records.
abbrev IsSelection : Limits → List Record → ℕ → ℕ → ℕ → ℕ → Pruned → Type 0
IsSelection limits rs count bytes c b p =
    (kept : List Record) × IsOldestFirst rs p.selected kept
    × Needed limits c b p.selected
    × (p.remaining_count ≡ count + length kept)
    × (p.remaining_bytes ≡ bytes + total_size kept)
    × ((kept ≡ []) ⊎ IsWithin limits p)

select-IsSelection :
    (limits : Limits) (rs : List Record) (count bytes c b : ℕ)
    → c ≡ count + length rs
    → b ≡ bytes + total_size rs
    → IsSelection limits rs count bytes c b (select limits rs c b)
unfolding select total_size
select-IsSelection limits [] count bytes c b hc hb =
    ([], IsOldestFirst.nothing, tt, hc, hb, inl refl)
select-IsSelection limits (r ∷ rs) count bytes c b hc hb =
    let over = r.too_old || ltb limits.max_count c || ltb limits.max_bytes b in
    elim (Bool-cases over) [
      | inl e ↦
          let (kept, split, needed, counts, sizes, within) =
            select-IsSelection limits rs count bytes (c - 1) (b - r.size) (omega arith)
              (omega arith) in
          rw e (
            kept,
            IsOldestFirst.goes r rs _ kept split,
            (ground arith, needed),
            counts,
            sizes,
            within,
          )
      | inr e ↦
          let (kept, split, needed, counts, sizes, within) =
            select-IsSelection limits rs (suc count) (bytes + r.size) c b (omega arith)
              (omega arith) in
          let young : r.too_old ≡ false = ground arith in
          let count_fits : c ≤ limits.max_count = ground arith in
          let bytes_fit : b ≤ limits.max_bytes = ground arith in
          let small = select-le limits rs c b in
          rw e (
            r ∷ kept,
            IsOldestFirst.stays r rs _ kept young (select-old limits rs c b count_fits bytes_fit)
                split,
            needed,
            omega (arith, counts),
            omega (arith, sizes),
            inr (omega (arith, small.0), omega (arith, small.1)),
          )
    ]

-- What pruning has done with the sorted records: one is spared, and the others are gone through.
abbrev pub IsPruned : Limits → Option Text → List Record → Pruned → Type 0
IsPruned limits preserve_id rs p =
    (spared : Record) × (others kept : List Record) × IsSpared preserve_id rs spared others
    × IsOldestFirst (reversed others) p.selected kept
    × Needed limits (length rs) (total_size rs) p.selected
    × (p.remaining_count ≡ suc (length kept))
    × (p.remaining_bytes ≡ spared.size + total_size kept)
    × ((kept ≡ []) ⊎ IsWithin limits p)

-- Of records that come the newest first, pruning spares the first that the identifier names, or else
-- the newest. It goes through the others from the oldest on: those it selects and those it keeps are
-- all of them, in their order; none too old is kept, and once one is kept only those too old are
-- selected. Each selected record was, when its turn came, too old, or the records that remained
-- exceeded a limit. The count and the bytes that remain are those of the spared record and of the
-- kept ones, and if any is kept besides the spared one, they are within both limits.
pub prune-IsPruned :
    (limits : Limits) (preserve_id : Option Text) (r : Record) (rs : List Record)
    → IsPruned limits preserve_id (r ∷ rs) (prune limits preserve_id (r ∷ rs))
unfolding prune prune_sorted total_size
prune-IsPruned limits preserve_id r rs =
    let (x, others, e, spared) = preserve-IsSpared preserve_id r rs in
    let (counts, sizes) = preserve-Sizes preserve_id (r ∷ rs) in
    let same_count : length (x ∷ others) ≡ length (r ∷ rs) = ap length (sym e) ∙ counts in
    let same_size : total_size (x ∷ others) ≡ total_size (r ∷ rs) = ap total_size (sym e) ∙ sizes in
    let turned = reversed-Sizes others in
    let (kept, split, needed, left_count, left_bytes, within) =
      select-IsSelection limits (reversed others) 1 x.size (length (x ∷ others))
        (total_size (x ∷ others)) (omega (arith, turned.0)) (omega (arith, turned.1)) in
    let one : 1 + length kept ≡ suc (length kept) = omega arith in
    rw (prune, e)
      (
        x,
        others,
        kept,
        spared,
        split,
        subst
            (λ n. Needed limits n (total_size (r ∷ rs)) (prune_sorted limits (x ∷ others)).selected)
            same_count
            (subst
              (λ n.
                Needed limits (length (x ∷ others)) n (prune_sorted limits (x ∷ others)).selected)
              same_size needed),
        left_count ∙ one,
        left_bytes,
        within,
      )
