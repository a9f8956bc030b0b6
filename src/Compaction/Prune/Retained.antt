-- ===== src/Compaction/Prune/Retained.antt =====
-- Whatever read is pruned is still shown by a later one (agent/compaction.py).
use borealis_coder.Prelude.{
  ℕ, zero, suc, ◌+◌, ◌≤◌, ◌<◌, ◌≡◌, refl, sym, ap, subst, ◌∙◌, ◌⊎◌, inl, inr, true, false, Option,
  none, some, List, [], ◌∷◌, map, elem, str_eq, length, get_elem?, get_elem?-lt, get_elem?-map,
  Bool-cases, some_inj, if-both, arith,
}
use borealis_coder.Models.{Message}
use borealis_coder.Compaction.Reads.{
  Readers, Interval, interval_covers, is_read_file, canonical_path, read_path, read_sha,
  read_interval, with_identity,
}
use borealis_coder.Compaction.Prune.{
  Notes, changed_paths, is_superseded, is_pruned_read, is_repeated, prune_copy, prune_all, notes_of,
  pruned, prune_provider_messages,
}
use borealis_coder.Compaction.Prune.Noted.{ChangedAfter, is_superseded-cases}
use borealis_coder.Compaction.Prune.Identity.{
  raw_path, raw_sha, IsNormal, read_path-raw, read_sha-raw, read_path-IsCanonical,
  changed_paths-canonical,
}

interval_covers_trans :
    (a b c : Option Interval)
    → interval_covers a b ≡ true
    → interval_covers b c ≡ true
    → interval_covers a c ≡ true
interval_covers_trans none b c h k = cc
interval_covers_trans (some a) none c h k = cc
interval_covers_trans (some a) (some b) none h k = cc
interval_covers_trans (some a) (some b) (some c) h k = ground arith

module _ (readers : Readers) (messages : List Message) where
  get_elem?-prune_all :
      (notes : Notes) (i : ℕ) (cs : List Message) (k : ℕ) (c : Message)
      → get_elem? cs k ≡ some c
      → get_elem? (prune_all readers messages notes i cs) k
        ≡ some (prune_copy readers messages notes (i + k) c)
  unfolding prune_all
  get_elem?-prune_all notes i [] k c e = cc
  get_elem?-prune_all notes i (d ∷ cs) zero c e = ap some (
      ap (prune_copy readers messages notes i) (some_inj e)
      ∙ ap (λ n. prune_copy readers messages notes n c) (omega arith))
  get_elem?-prune_all notes i (d ∷ cs) (suc k) c e =
      get_elem?-prune_all notes (suc i) cs k c e
      ∙ ap (λ n. some (prune_copy readers messages notes n c)) (omega arith)

  -- The message shows what the other shows: it has the same content, or its lines include the other's.
  abbrev pub Shows : Message → Message → Type 0
  Shows n m =
      (n.content ≡ m.content)
      ⊎ (interval_covers (read_interval readers n.content) (read_interval readers m.content) ≡ true)

  Shows-trans : (o n m : Message) → Shows o n → Shows n m → Shows o m
  Shows-trans o n m (inl e) (inl f) = inl (e ∙ f)
  Shows-trans o n m (inl e) (inr f) = inr (
      subst
        (λ t. interval_covers (read_interval readers t) (read_interval readers m.content) ≡ true)
        (sym e) f)
  Shows-trans o n m (inr e) (inl f) = inr (
      subst
        (λ t. interval_covers (read_interval readers o.content) (read_interval readers t) ≡ true) f
        e)
  Shows-trans o n m (inr e) (inr f) = inr (
      interval_covers_trans (read_interval readers o.content) (read_interval readers n.content)
        (read_interval readers m.content) e f)

  -- Contents of the history with the same hash are the same.
  abbrev pub HashesApart : Type 0
  HashesApart =
      (i j : ℕ) (m n : Message)
      → get_elem? messages i ≡ some m
      → get_elem? messages j ≡ some n
      → readers.slice_identity m.content ≡ readers.slice_identity n.content
      → m.content ≡ n.content

  -- The message at the index is kept, up to the identity in its metadata.
  abbrev pub IsKept : ℕ → Message → Type 0
  IsKept j n =
      get_elem? (prune_provider_messages readers messages).0 j ≡ some (with_identity readers n)

  -- The read is kept, or a later one of the same file is, which shows it.
  abbrev pub IsShown : ℕ → Message → Type 0
  IsShown i m =
      (j : ℕ) × (n : Message) × (get_elem? messages j ≡ some n)
      × IsKept j n
      × Shows n m
      × ((j ≡ i)
          ⊎ ((i < j)
              × (str_eq (raw_path readers m) "" ≡ false)
              × (str_eq (raw_sha readers m) "" ≡ false)
              × (read_path readers n ≡ raw_path readers m)
              × (read_sha readers n ≡ raw_sha readers m)))

  -- The file of the read was changed behind it.
  abbrev pub IsStale : ℕ → Message → Type 0
  IsStale i m =
      (str_eq (raw_path readers m) "" ≡ false)
      × ChangedAfter readers messages i (raw_path readers m)

  content-with_identity : (m : Message) → (with_identity readers m).content ≡ m.content
  unfolding with_identity
  content-with_identity m =
      if-both (λ (k : Message). k.content ≡ m.content) (is_read_file m) refl refl

  is_read_file-with_identity :
      (m : Message) → is_read_file (with_identity readers m) ≡ is_read_file m
  unfolding with_identity
  is_read_file-with_identity m =
      if-both (λ (k : Message). is_read_file k ≡ is_read_file m) (is_read_file m) refl refl

  prune_copy-kept :
      (notes : Notes) (i : ℕ) (c : Message)
      → is_read_file c ≡ true
      → is_pruned_read readers notes i c ≡ false
      → prune_copy readers messages notes i c ≡ c
  unfolding prune_copy
  prune_copy-kept notes i c is_read kept =
      let other : is_repeated readers messages notes i c ≡ false = ground arith in
      rw (kept, other) refl

  unpruned-IsKept :
      (i : ℕ) (m : Message)
      → get_elem? messages i ≡ some m
      → is_read_file m ≡ true
      → is_pruned_read readers (notes_of readers messages) i (with_identity readers m) ≡ false
      → IsKept i m
  unfolding prune_provider_messages pruned
  unpruned-IsKept i m at is_read kept =
      let c = with_identity readers m in
      let notes = notes_of readers messages in
      get_elem?-prune_all notes 0 (map (with_identity readers) messages) i c
        (get_elem?-map (with_identity readers) messages i m at)
      ∙ ap some (
          ap (λ n. prune_copy readers messages notes n c) (omega arith)
          ∙ prune_copy-kept notes i c (is_read_file-with_identity m ∙ is_read) kept)

  -- A read that is noted later shows the read that it supersedes.
  later-Shows :
      HashesApart
      → (i j : ℕ) (m n : Message) → get_elem? messages i ≡ some m
      → get_elem? messages j ≡ some n
      → (readers.slice_identity n.content
          ≡ readers.slice_identity (with_identity readers m).content)
        ⊎ (interval_covers
              (read_interval readers n.content)
              (read_interval readers (with_identity readers m).content)
            ≡ true)
      → Shows n m
  later-Shows apart i j m n at_i at_j (inl e) =
      inl (apart j i n m at_j at_i (e ∙ ap readers.slice_identity (content-with_identity m)))
  later-Shows apart i j m n at_i at_j (inr e) = inr (
      subst
        (λ t. interval_covers (read_interval readers n.content) (read_interval readers t) ≡ true)
        (content-with_identity m) e)

  ReadOutcome : ℕ → Message → Type 0
  ReadOutcome i m = IsStale i m ⊎ IsShown i m

  -- What holds of a later read of the file holds of the read that it supersedes.
  ReadOutcome-back :
      IsNormal readers
      → (i j : ℕ) (m n : Message) → i < j
      → get_elem? messages j ≡ some n
      → is_read_file n ≡ true
      → str_eq (raw_path readers m) "" ≡ false
      → str_eq (raw_sha readers m) "" ≡ false
      → read_path readers n ≡ raw_path readers m
      → read_sha readers n ≡ raw_sha readers m
      → Shows n m
      → ReadOutcome j n
      → ReadOutcome i m
  unfolding ReadOutcome
  ReadOutcome-back normal i j m n later at is_read full full_sha p s shows
        (inl (e, (k, o, after, at_k, changed))) =
      let canonical =
        changed_paths-canonical readers normal messages o (raw_path readers n) changed in
      let same = sym (read_path-raw readers n is_read canonical e) ∙ p in
      inl (
        full,
        (
          k,
          o,
          omega arith,
          at_k,
          subst (λ q. elem q (changed_paths readers messages o) ≡ true) same changed,
        ),
      )
  ReadOutcome-back normal i j m n later at is_read full full_sha p s shows
        (inr (l, o, at_l, kept, more, inl e)) =
      let same : o ≡ n = some_inj (sym at_l ∙ ap (get_elem? messages) e ∙ at) in
      inr (
        l,
        o,
        at_l,
        kept,
        Shows-trans o n m more shows,
        inr (
          omega arith,
          full,
          full_sha,
          ap (read_path readers) same ∙ p,
          ap (read_sha readers) same ∙ s,
        ),
      )
  ReadOutcome-back normal i j m n later at is_read full full_sha p s shows
        (inr (l, o, at_l, kept, more, inr (after, e, f, q, t))) =
      let canonical =
        subst (λ x. canonical_path readers x ≡ x) q (read_path-IsCanonical readers normal o) in
      inr (
        l,
        o,
        at_l,
        kept,
        Shows-trans o n m more shows,
        inr (
          omega arith,
          full,
          full_sha,
          q ∙ sym (read_path-raw readers n is_read canonical e) ∙ p,
          t ∙ sym (read_sha-raw readers n is_read f) ∙ s,
        ),
      )

  ReadOutcome-from :
      IsNormal readers
      → HashesApart
      → (fuel i : ℕ) (m : Message) → length messages ≤ i + fuel
      → get_elem? messages i ≡ some m
      → is_read_file m ≡ true
      → ReadOutcome i m
  unfolding ReadOutcome
  ReadOutcome-from normal apart zero i m enough at is_read =
      absurd (omega (arith, get_elem?-lt messages i m at))
  ReadOutcome-from normal apart (suc fuel) i m enough at is_read =
      let c = with_identity readers m in
      elim (Bool-cases (is_pruned_read readers (notes_of readers messages) i c)) [
        | inr kept ↦ inr (i, m, at, unpruned-IsKept i m at is_read kept, inl refl, inl refl)
        | inl dropped ↦
            (let superseded : is_superseded readers (notes_of readers messages) i c ≡ true =
                ground arith in
              let (full, full_sha, cause) = is_superseded-cases readers messages i c superseded in
              elim cause [
                | inl changed ↦ inl (full, changed)
                | inr (j, n, later, at_j, is, p, s, shows) ↦
                    ReadOutcome-back normal i j m n later at_j is full full_sha p s
                      (later-Shows apart i j m n at at_j shows)
                      (ReadOutcome-from normal apart fuel j n (omega arith) at_j is)
              ])
      ]

  -- Where normalizing a path twice is normalizing it once, and contents of the history with the same
  -- hash are the same: every read of the history is kept in the pruned view, or the view keeps a later
  -- read of the same file with the same hash, with the same content or of all its lines, or the file
  -- was changed behind the read.
  pub prune_provider_messages-retained :
      IsNormal readers
      → HashesApart
      → (i : ℕ) (m : Message) → get_elem? messages i ≡ some m
      → is_read_file m ≡ true
      → IsStale i m ⊎ IsShown i m
  unfolding ReadOutcome
  prune_provider_messages-retained normal apart i m at is_read =
      ReadOutcome-from normal apart (length messages) i m (omega arith) at is_read
