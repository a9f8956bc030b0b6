-- ===== src/Compaction/Prune/Noted.antt =====
-- What the first loop of `prune_provider_messages` notes, and what makes a read superseded
-- (agent/compaction.py).
use borealis_coder.Prelude.{
  ℕ, suc, ◌+◌, ◌<◌, ◌≡◌, refl, sym, ap, subst, ◌∙◌, ◌⊎◌, inl, inr, String, Bool, true, false, ◌&&◌,
  ◌||◌, Option, none, some, List, [], ◌∷◌, map, any, elem, str_eq, str_eq_iff, get_elem?, All,
  All-append, Bool-cases, or_cases, some_inj, if-under, ltb→lt, if◌then◌else◌, arith,
}
use borealis_coder.Models.{Message}
use borealis_coder.Compaction.Reads.{
  Readers, Interval, interval_covers, read_path, read_sha, read_interval, is_read_file, is_noted,
  text_at,
}
use borealis_coder.Compaction.Prune.{
  Read, Notes, later_covers, is_after, latest, latest_read, note_read, changed_paths, note,
  note_all, notes_of, is_superseded,
}

latest-All :
    (Q : String × ℕ → Type 0) (k : String) (entries : List (String × ℕ)) (i : ℕ)
    → All Q entries
    → latest k entries ≡ some i
    → Q (k, i)
unfolding latest
latest-All Q k [] i h e = cc
latest-All Q k ((j, n) ∷ entries) i (h, hs) e = elim (Bool-cases (str_eq j k)) [
  | inl t ↦
      let same : some n ≡ some i =
        subst (λ b. (if b then some n else latest k entries) ≡ some i) t e in
      subst (λ s. Q (s, i)) ((str_eq_iff j k).0 t) (subst (λ x. Q (j, x)) (some_inj same) h)
  | inr f ↦
      latest-All Q k entries i hs
        (subst (λ b. (if b then some n else latest k entries) ≡ some i) f e)
]

latest_read-All :
    (Q : Read → Type 0) (path sha hash : String) (rs : List Read) (j : ℕ)
    → All Q rs
    → latest_read path sha hash rs ≡ some j
    → (r : Read) × Q r × (r.path ≡ path) × (r.sha ≡ sha) × (r.content_hash ≡ hash) × (r.index ≡ j)
unfolding latest_read
latest_read-All Q path sha hash [] j h e = cc
latest_read-All Q path sha hash (r ∷ rs) j (h, hs) e =
    let same = str_eq r.path path && str_eq r.sha sha && str_eq r.content_hash hash in
    let view : Bool → Option ℕ = λ b. if b then some r.index else latest_read path sha hash rs in
    elim (Bool-cases same) [
      | inl t ↦
          let found : some r.index ≡ some j = subst (λ b. view b ≡ some j) t e in
          (
            r,
            h,
            ground (arith, str_eq_iff r.path path),
            ground (arith, str_eq_iff r.sha sha),
            ground (arith, str_eq_iff r.content_hash hash),
            cc,
          )
      | inr f ↦ latest_read-All Q path sha hash rs j hs (subst (λ b. view b ≡ some j) f e)
    ]

any-All :
    (Q : Read → Type 0) (p : Read → Bool) (rs : List Read)
    → All Q rs
    → any p rs ≡ true
    → (r : Read) × Q r × (p r ≡ true)
any-All Q p [] h e = cc
any-All Q p (r ∷ rs) (h, hs) e = elim (Bool-cases (p r)) [
  | inl t ↦ (r, h, t)
  | inr f ↦ any-All Q p rs hs (subst (λ b. (b || any p rs) ≡ true) f e)
]

later_covers-parts :
    (path sha : String) (i : ℕ) (interval : Option Interval) (r : Read)
    → later_covers path sha i interval r ≡ true
    → ((i < r.index) × (interval_covers r.interval interval ≡ true))
      × ((r.path ≡ path) × (r.sha ≡ sha))
later_covers-parts path sha i interval r h = (
  (ltb→lt i r.index (ground arith), ground arith),
  (ground (arith, str_eq_iff r.path path), ground (arith, str_eq_iff r.sha sha)),
)

module _ (readers : Readers) (messages : List Message) where
  -- The entry tells of a read in the history.
  IsNoted : Read → Type 0
  IsNoted r =
      (m : Message) × (get_elem? messages r.index ≡ some m)
      × (is_read_file m ≡ true)
      × (read_path readers m ≡ r.path)
      × (read_sha readers m ≡ r.sha)
      × (readers.slice_identity m.content ≡ r.content_hash)
      × (read_interval readers m.content ≡ r.interval)

  -- The entry tells of a change in the history.
  IsChange : String × ℕ → Type 0
  IsChange (path, i) =
      (m : Message) × (get_elem? messages i ≡ some m)
      × (elem path (changed_paths readers messages m) ≡ true)

  AreSound : Notes → Type 0
  AreSound notes = All IsNoted notes.reads × All IsChange notes.mutations

  note_read-IsNoted :
      (i : ℕ) (m : Message) (rs : List Read)
      → get_elem? messages i ≡ some m
      → All IsNoted rs
      → All IsNoted (note_read readers i m rs)
  unfolding note_read IsNoted
  note_read-IsNoted i m rs e h =
      if-under (All IsNoted) (is_noted readers m)
        (λ t. ((m, e, ground arith, refl, refl, refl, refl), h)) (λ f. h)

  changes-IsChange :
      (i : ℕ) (m : Message) (paths : List String)
      → get_elem? messages i ≡ some m
      → ((p : String) → elem p paths ≡ true → elem p (changed_paths readers messages m) ≡ true)
      → All IsChange (map (λ p. (p, i)) paths)
  unfolding IsChange
  changes-IsChange i m [] e sub = tt
  changes-IsChange i m (p ∷ paths) e sub = (
    (m, e, sub p (ap (λ b. b || elem p paths) ((str_eq_iff p p).1 refl))),
    changes-IsChange i m paths e (λ q h. sub q (ground arith)),
  )

  note-AreSound :
      (i : ℕ) (m : Message) (notes : Notes)
      → get_elem? messages i ≡ some m
      → AreSound notes
      → AreSound (note readers messages i m notes)
  unfolding note AreSound
  note-AreSound i m notes e (reads, changes) = (
    note_read-IsNoted i m notes.reads e reads,
    All-append IsChange (map (λ p. (p, i)) (changed_paths readers messages m)) notes.mutations
        (changes-IsChange i m (changed_paths readers messages m) e (λ p h. h)) changes,
  )

  note_all-AreSound :
      (i : ℕ) (ms : List Message) (notes : Notes)
      → ((k : ℕ) (m : Message) → get_elem? ms k ≡ some m → get_elem? messages (i + k) ≡ some m)
      → AreSound notes
      → AreSound (note_all readers messages i ms notes)
  unfolding note_all
  note_all-AreSound i [] notes inside h = h
  note_all-AreSound i (m ∷ ms) notes inside h =
      note_all-AreSound (suc i) ms (note readers messages i m notes)
        (λ k n e. subst (λ x. get_elem? messages x ≡ some n) (omega arith) (inside (suc k) n e))
        (note-AreSound i m notes
          (subst (λ x. get_elem? messages x ≡ some m) (omega arith) (inside 0 m refl)) h)

  notes_of-AreSound : AreSound (notes_of readers messages)
  unfolding AreSound
  notes_of-AreSound =
      note_all-AreSound 0 messages (record { reads = []; discoveries = []; mutations = [] })
        (λ k m e. subst (λ x. get_elem? messages x ≡ some m) (omega arith) e) (tt, tt)

  -- A change of the path behind the index.
  abbrev pub ChangedAfter : ℕ → String → Type 0
  ChangedAfter i path =
      (k : ℕ) × (m : Message) × (i < k)
      × (get_elem? messages k ≡ some m)
      × (elem path (changed_paths readers messages m) ≡ true)

  -- A read of the file behind the index, with the same content or of all the lines.
  abbrev pub ReadAfter : ℕ → String → String → Message → Type 0
  ReadAfter i path sha c =
      (j : ℕ) × (m : Message) × (i < j)
      × (get_elem? messages j ≡ some m)
      × (is_read_file m ≡ true)
      × (read_path readers m ≡ path)
      × (read_sha readers m ≡ sha)
      × ((readers.slice_identity m.content ≡ readers.slice_identity c.content)
          ⊎ (interval_covers (read_interval readers m.content) (read_interval readers c.content)
              ≡ true))

  is_after-some : (i : ℕ) (o : Option ℕ) → is_after i o ≡ true → (j : ℕ) × (i < j) × (o ≡ some j)
  is_after-some i none h = cc
  is_after-some i (some j) h = (j, ltb→lt i j h, refl)

  pub is_superseded-cases :
      (i : ℕ) (c : Message)
      → is_superseded readers (notes_of readers messages) i c ≡ true
      → (let path = text_at readers "path" c.metadata in
          let sha = text_at readers "sha256" c.metadata in
          (str_eq path "" ≡ false)
          × (str_eq sha "" ≡ false)
          × (ChangedAfter i path ⊎ ReadAfter i path sha c))
  unfolding is_superseded AreSound IsNoted IsChange
  is_superseded-cases i c h =
      let path = text_at readers "path" c.metadata in
      let sha = text_at readers "sha256" c.metadata in
      let notes = notes_of readers messages in
      let (reads, changes) = notes_of-AreSound in
      let hash = readers.slice_identity c.content in
      let changed = is_after i (latest path notes.mutations) in
      let reread = is_after i (latest_read path sha hash notes.reads) in
      let covered = any (later_covers path sha i (read_interval readers c.content)) notes.reads in
      (
        ground arith,
        ground arith,
        elim (or_cases changed (reread || covered) (ground arith)) [
          | inl t ↦
              let (k, later, e) = is_after-some i (latest path notes.mutations) t in
              let (m, at, changes_path) = latest-All IsChange path notes.mutations k changes e in
              inl (k, m, later, at, changes_path)
          | inr u ↦ elim (or_cases reread covered u) [
            | inl t ↦
                let (j, later, e) = is_after-some i (latest_read path sha hash notes.reads) t in
                let (r, (m, at, is, p, s, x, v), rp, rs, rh, ri) =
                  latest_read-All IsNoted path sha hash notes.reads j reads e in
                inr (
                  j,
                  m,
                  later,
                  subst (λ n. get_elem? messages n ≡ some m) ri at,
                  is,
                  p ∙ rp,
                  s ∙ rs,
                  inl (x ∙ rh),
                )
            | inr t ↦
                let (r, (m, at, is, p, s, x, v), test) =
                  any-All IsNoted (later_covers path sha i (read_interval readers c.content))
                    notes.reads reads t in
                let parts =
                  later_covers-parts path sha i (read_interval readers c.content) r test in
                inr (
                  r.index,
                  m,
                  parts.0.0,
                  at,
                  is,
                  p ∙ parts.1.0,
                  s ∙ parts.1.1,
                  inr (
                      subst (λ w. interval_covers w (read_interval readers c.content) ≡ true)
                        (sym v) parts.0.1),
                )
          ]
        ],
      )
