-- ===== src/Patch/Hunks/Counted.antt =====
-- Hunks whose counts are those of their lines.
use borealis_coder.Prelude.{
  ℕ, ◌+◌, ◌≡◌, refl, Bool, true, false, not, ◌||◌, ◌&&◌, List, [], ◌∷◌, ◌++◌, ◌==◌, ltb, length,
  slice, drop, ok, guard, All, arith, if-both, option-both,
}
use borealis_coder.Prelude.Chars.{Text}
use borealis_coder.Patch.{
  HunkLine, Hunk, IsCounted, kind-both, old_lines, new_lines, PatchError, hunk_counts,
  bare_not_found, bare_ambiguous, context_mismatch, removal_mismatch, overlapping,
}
use borealis_coder.Patch.Ends.{
  is_fuel, is_miscount, Avoids, Avoids-bind, Avoids-guard, Avoids-guard_passed, Avoids-ok, Ends,
}
use borealis_coder.Patch.Hunks.{
  Progress, apply_lines, apply_from, apply_hunks, locate, locate_bare, only_match, differs,
}
use borealis_coder.Patch.Lines.{splitlines, join}

-- Where the lines apply, their counts are those that the source steps through.
apply_lines-counts :
    (source : List Text) (p : Progress) (ls : List HunkLine) (q : Progress)
    → apply_lines source p ls ≡ ok q
    → (q.old_seen ≡ p.old_seen + old_lines ls) × (q.new_seen ≡ p.new_seen + new_lines ls)
unfolding apply_lines old_lines new_lines
apply_lines-counts source p [] q h = (ground arith, ground arith)
apply_lines-counts source p (l ∷ ls) q h =
    let kept : Progress = record {
      emitted = p.emitted ++ l.text ∷ [];
      source_index = p.source_index + 1;
      old_seen = p.old_seen + 1;
      new_seen = p.new_seen + 1;
    } in
    let removed : Progress = record p {
      source_index = p.source_index + 1;
      old_seen = p.old_seen + 1;
    } in
    let added : Progress = record p {
      emitted = p.emitted ++ l.text ∷ [];
      new_seen = p.new_seen + 1;
    } in
    ground (
      arith,
      apply_lines-counts source kept ls q,
      apply_lines-counts source removed ls q,
      apply_lines-counts source added ls q,
    )

apply_lines-Avoids :
    (bad : PatchError → Bool) (source : List Text) (ls : List HunkLine) (p : Progress)
    → ((n : ℕ) → bad (context_mismatch n) ≡ false)
    → ((n : ℕ) → bad (removal_mismatch n) ≡ false)
    → Avoids bad (apply_lines source p ls)
unfolding apply_lines Avoids
apply_lines-Avoids bad source [] p c r = tt
apply_lines-Avoids bad source (l ∷ ls) p c r =
    kind-both (Avoids bad) l.kind
      (if-both (Avoids bad) (differs source p.source_index l.text) (c (p.source_index + 1))
        (apply_lines-Avoids bad source ls _ c r))
      (if-both (Avoids bad) (differs source p.source_index l.text) (r (p.source_index + 1))
        (apply_lines-Avoids bad source ls _ c r))
      (apply_lines-Avoids bad source ls _ c r)

only_match-Avoids :
    (bad : PatchError → Bool) (found : List ℕ)
    → bad bare_not_found ≡ false
    → ((n : ℕ) → bad (bare_ambiguous n) ≡ false)
    → Avoids bad (only_match found)
unfolding only_match Avoids
only_match-Avoids bad [] a b = a
only_match-Avoids bad (i ∷ []) a b = tt
only_match-Avoids bad (i ∷ j ∷ more) a b = b (length more + 2)

locate-Avoids :
    (bad : PatchError → Bool) (source : List Text) (cursor : ℕ) (h : Hunk)
    → bad bare_not_found ≡ false
    → ((n : ℕ) → bad (bare_ambiguous n) ≡ false)
    → Avoids bad (locate source cursor h)
unfolding locate locate_bare Avoids
locate-Avoids bad source cursor h a b =
    option-both (Avoids bad) h.old_start (only_match-Avoids bad _ a b) (λ n. tt)

-- Hunks that count their lines never raise the error of a miscount.
apply_from-Avoids :
    (source : List Text) (cursor : ℕ) (hs : List Hunk)
    → All IsCounted hs
    → Avoids is_miscount (apply_from source cursor hs)
unfolding apply_from is_miscount
apply_from-Avoids source cursor [] c = Avoids-ok is_miscount (drop cursor source)
apply_from-Avoids source cursor (h ∷ hs) (c, cs) =
    Avoids-bind is_miscount (locate source cursor h) _
      (locate-Avoids is_miscount source cursor h refl (λ n. refl))
      (λ start e.
        let early = ltb start cursor || ltb (length source) start in
        let p : Progress = record {
          emitted = [];
          source_index = start;
          old_seen = 0;
          new_seen = 0;
        } in
        Avoids-bind is_miscount (guard (not early) overlapping) _
          (Avoids-guard is_miscount (not early) overlapping refl)
          (λ u f.
            Avoids-bind is_miscount (apply_lines source p h.lines) _
              (apply_lines-Avoids is_miscount source h.lines p (λ n. refl) (λ n. refl))
              (λ q g.
                let fits : (q.old_seen == h.old_count && q.new_seen == h.new_count) ≡ true =
                  ground (arith, apply_lines-counts source p h.lines q g) in
                Avoids-bind is_miscount
                  (guard (q.old_seen == h.old_count && q.new_seen == h.new_count) hunk_counts) _
                  (Avoids-guard_passed is_miscount _ hunk_counts fits)
                  (λ v k.
                    Avoids-bind is_miscount (apply_from source q.source_index hs) _
                      (apply_from-Avoids source q.source_index hs cs)
                      (λ rest m.
                        Avoids-ok is_miscount
                          (slice source cursor start ++ (q.emitted ++ rest)))))))

pub apply_hunks-Avoids :
    (original : Text) (hs : List Hunk)
    → All IsCounted hs
    → Avoids is_miscount (apply_hunks original hs)
unfolding apply_hunks
apply_hunks-Avoids original hs c =
    Avoids-bind is_miscount (apply_from (splitlines original) 0 hs) _
      (apply_from-Avoids (splitlines original) 0 hs c)
      (λ output e. Avoids-ok is_miscount (join output))

apply_from-Ends :
    (source : List Text) (hs : List Hunk) (cursor : ℕ) → Ends (apply_from source cursor hs)
unfolding apply_from is_fuel
apply_from-Ends source [] cursor = Avoids-ok is_fuel (drop cursor source)
apply_from-Ends source (h ∷ hs) cursor =
    Avoids-bind is_fuel (locate source cursor h) _
      (locate-Avoids is_fuel source cursor h refl (λ n. refl))
      (λ start e.
        let early = ltb start cursor || ltb (length source) start in
        let p : Progress = record {
          emitted = [];
          source_index = start;
          old_seen = 0;
          new_seen = 0;
        } in
        Avoids-bind is_fuel (guard (not early) overlapping) _
          (Avoids-guard is_fuel (not early) overlapping refl)
          (λ u f.
            Avoids-bind is_fuel (apply_lines source p h.lines) _
              (apply_lines-Avoids is_fuel source h.lines p (λ n. refl) (λ n. refl))
              (λ q g.
                Avoids-bind is_fuel
                  (guard (q.old_seen == h.old_count && q.new_seen == h.new_count) hunk_counts) _
                  (Avoids-guard is_fuel _ hunk_counts refl)
                  (λ v k.
                    Avoids-bind is_fuel (apply_from source q.source_index hs) _
                      (apply_from-Ends source hs q.source_index)
                      (λ rest m.
                        Avoids-ok is_fuel (slice source cursor start ++ (q.emitted ++ rest)))))))

pub apply_hunks-Ends : (original : Text) (hs : List Hunk) → Ends (apply_hunks original hs)
unfolding apply_hunks
apply_hunks-Ends original hs =
    Avoids-bind is_fuel (apply_from (splitlines original) 0 hs) _
      (apply_from-Ends (splitlines original) hs 0) (λ output e. Avoids-ok is_fuel (join output))
