-- ===== src/Compaction/Prune/Identity.antt =====
-- The path and the hash under which a read is noted, and those under which it is looked up
-- (agent/compaction.py).
use borealis_coder.Prelude.{
  ◌≡◌, refl, sym, ap, subst, ◌∙◌, inl, inr, String, true, false, not, ◌&&◌, ◌||◌, Option, none,
  some, List, [], ◌∷◌, elem, str_eq, str_eq_iff, All, Bool-cases, Option-cases, if-both, if-under,
  if◌then◌else◌,
}
use borealis_coder.Models.{Message}
use borealis_coder.Models.JsonValue.{
  Json, str, null, bool, num, arr, obj, Items, nil, cons, Fields, get, truthy, has_truthy,
}
use borealis_coder.Compaction.Fit.{with_key}
use borealis_coder.Compaction.ToolOrder.{is_result}
use borealis_coder.Compaction.Reads.Keys.{get-with_key, get-set_default}
use borealis_coder.Compaction.Reads.{
  Readers, set_default, is_read_file, json_text, text_at, canonical_path, canonical_items, one_path,
  read_path, read_sha, mutation_paths, with_identity,
}
use borealis_coder.Compaction.Prune.{call_details, path_mutation_tools, changed_paths}

module _ (readers : Readers) where
  -- The text is found again under a key that was not there, and otherwise what was there.
  text_at-set_default :
      (k v : String) (d : Fields) → get k d ≡ none → text_at readers k (set_default k v d) ≡ v
  unfolding text_at truthy
  text_at-set_default k v d e = elim (Bool-cases (str_eq v "")) [
    | inl t ↦ rw (set_default, t, text_at, e) (sym ((str_eq_iff v "").0 t))
    | inr f ↦
        let found : get k (with_key k (str v) d) ≡ some (str v) =
          get-with_key k k (str v) d
          ∙ ap (λ b. if b then some (str v) else get k d) ((str_eq_iff k k).1 refl) in
        rw (set_default, f, e, text_at, found, f) refl
  ]

  text_at-cong :
      (k : String) (d e : Fields) → get k d ≡ get k e → text_at readers k d ≡ text_at readers k e
  unfolding text_at
  text_at-cong k d e h =
      ap
        (λ (o : Option Json). elim o [
          | none ↦ ""
          | some v ↦ if truthy v then json_text readers v else ""
        ])
        h

  set_default-kept :
      (k v : String) (d : Fields) {w : Json} → get k d ≡ some w → set_default k v d ≡ d
  set_default-kept k v d e = if-both (λ f. f ≡ d) (str_eq v "") refl (rw e refl)

  -- A text that is looked up is the one under which the read is noted, if the text that was there
  -- is, where it is not empty.
  raw_text :
      (k v : String) (d : Fields)
      → (text_at readers k (set_default k v d) ≡ text_at readers k d
          → str_eq (text_at readers k d) "" ≡ false
          → text_at readers k d ≡ v)
      → str_eq (text_at readers k (set_default k v d)) "" ≡ false
      → text_at readers k (set_default k v d) ≡ v
  raw_text k v d old h = elim (Option-cases (get k d)) [
    | inl e ↦ text_at-set_default k v d e
    | inr (w, e) ↦
        let same = ap (text_at readers k) (set_default-kept k v d e) in
        same ∙ old same (ap (λ t. str_eq t "") (sym same) ∙ h)
  ]

  -- The path and the hash that the second loop looks up.
  abbrev pub raw_path : Message → String
  raw_path m = text_at readers "path" (with_identity readers m).metadata

  abbrev pub raw_sha : Message → String
  raw_sha m = text_at readers "sha256" (with_identity readers m).metadata

  -- The metadata of the copy of a read.
  abbrev noted_metadata : Message → Fields
  noted_metadata m =
      set_default "sha256" (read_sha readers m)
        (set_default "path" (read_path readers m) m.metadata)

  metadata-with_identity :
      (m : Message) → is_read_file m ≡ true → (with_identity readers m).metadata ≡ noted_metadata m
  unfolding with_identity
  metadata-with_identity m h =
      ap (λ b. (if b then record m { metadata = noted_metadata m } else m).metadata) h

  path-with_identity :
      (m : Message)
      → is_read_file m ≡ true
      → raw_path m ≡ text_at readers "path" (set_default "path" (read_path readers m) m.metadata)
  path-with_identity m h =
      ap (text_at readers "path") (metadata-with_identity m h)
      ∙ text_at-cong "path" (noted_metadata m) (set_default "path" (read_path readers m) m.metadata)
          (get-set_default "path" "sha256" (read_sha readers m)
            (set_default "path" (read_path readers m) m.metadata) refl)

  pub read_path-raw :
      (m : Message)
      → is_read_file m ≡ true
      → canonical_path readers (raw_path m) ≡ raw_path m
      → str_eq (raw_path m) "" ≡ false
      → read_path readers m ≡ raw_path m
  unfolding with_identity read_path
  read_path-raw m is_read canonical full =
      let R = text_at readers "path" (set_default "path" (read_path readers m) m.metadata) in
      let same : raw_path m ≡ R = path-with_identity m is_read in
      let given = text_at readers "path" m.metadata in
      sym (
        same
        ∙ raw_text "path" (read_path readers m) m.metadata
            (λ kept e.
              let normal : canonical_path readers given ≡ given =
                subst (λ t. canonical_path readers t ≡ t) (same ∙ kept) canonical in
              sym (
                ap (λ b. canonical_path readers (if b then readers.find_path m.content else given))
                  e
                ∙ normal))
            (ap (λ t. str_eq t "") (sym same) ∙ full))

  pub read_sha-raw :
      (m : Message)
      → is_read_file m ≡ true
      → str_eq (raw_sha m) "" ≡ false
      → read_sha readers m ≡ raw_sha m
  unfolding with_identity read_sha
  read_sha-raw m is_read full =
      let d = set_default "path" (read_path readers m) m.metadata in
      let same : raw_sha m
          ≡ text_at readers "sha256" (set_default "sha256" (read_sha readers m) d) =
        ap (text_at readers "sha256") (metadata-with_identity m is_read) in
      let inner : text_at readers "sha256" d ≡ text_at readers "sha256" m.metadata =
        text_at-cong "sha256" d m.metadata
          (get-set_default "sha256" "path" (read_path readers m) m.metadata refl) in
      sym (
        same
        ∙ raw_text "sha256" (read_sha readers m) d
            (λ kept e.
              inner
              ∙ sym (
                  ap
                    (λ b.
                      if b then readers.find_sha m.content else text_at readers "sha256" m.metadata)
                    (ap (λ t. str_eq t "") (sym inner) ∙ e)))
            (ap (λ t. str_eq t "") (sym same) ∙ full))

  -- Normalizing a path again changes nothing.
  abbrev pub IsNormal : Type 0
  IsNormal = (p : String) → readers.normpath (readers.normpath p) ≡ readers.normpath p

  pub canonical_path-canonical_path :
      IsNormal
      → (p : String) → canonical_path readers (canonical_path readers p) ≡ canonical_path readers p
  unfolding canonical_path
  canonical_path-canonical_path normal p =
      let Q : String → Type 0 = λ q. (if str_eq q "" then "" else readers.normpath q) ≡ q in
      if-under Q (str_eq p "") {u = ""} {v = readers.normpath p} (λ t. refl)
        (λ f.
          if-under (λ q. q ≡ readers.normpath p) (str_eq (readers.normpath p) "") {u = ""}
            {v = readers.normpath (readers.normpath p)}
            (λ t. sym ((str_eq_iff (readers.normpath p) "").0 t)) (λ u. normal p))

  pub read_path-IsCanonical :
      IsNormal → (m : Message) → canonical_path readers (read_path readers m) ≡ read_path readers m
  unfolding read_path
  read_path-IsCanonical normal m = canonical_path-canonical_path normal _

  IsCanonical : String → Type 0
  IsCanonical p = canonical_path readers p ≡ p

  canonical_items-IsCanonical :
      IsNormal → (vs : Items) → All IsCanonical (canonical_items readers vs)
  unfolding IsCanonical
  canonical_items-IsCanonical normal nil = tt
  canonical_items-IsCanonical normal (cons v vs) =
      let rest = canonical_items-IsCanonical normal vs in
      if-both (All IsCanonical) (truthy v)
        (canonical_path-canonical_path normal (json_text readers v), rest) rest

  one_path-IsCanonical : IsNormal → (o : Option Json) → All IsCanonical (one_path readers o)
  unfolding IsCanonical
  one_path-IsCanonical normal none = tt
  one_path-IsCanonical normal (some v) =
      if-both (All IsCanonical) (truthy v)
        (canonical_path-canonical_path normal (json_text readers v), tt) tt

  listed : List String → Option Json → List String
  listed single (some (arr items)) = canonical_items readers items
  listed single _ = single

  listed-IsCanonical :
      IsNormal
      → (single : List String) (o : Option Json) → All IsCanonical single
      → All IsCanonical (listed single o)
  unfolding listed
  listed-IsCanonical normal single none h = h
  listed-IsCanonical normal single (some null) h = h
  listed-IsCanonical normal single (some (bool b)) h = h
  listed-IsCanonical normal single (some (num n)) h = h
  listed-IsCanonical normal single (some (str s)) h = h
  listed-IsCanonical normal single (some (arr items)) h = canonical_items-IsCanonical normal items
  listed-IsCanonical normal single (some (obj d)) h = h

  mutation_paths-IsCanonical :
      IsNormal
      → (metadata arguments : Fields) → All IsCanonical (mutation_paths readers metadata arguments)
  unfolding mutation_paths listed
  mutation_paths-IsCanonical normal metadata arguments =
      listed-IsCanonical normal
        (one_path readers (get "path" (if has_truthy "path" metadata then metadata else arguments)))
        (get (if has_truthy "files" metadata then "files" else "changed_files") metadata)
        (one_path-IsCanonical normal
          (get "path" (if has_truthy "path" metadata then metadata else arguments)))

  elem-IsCanonical :
      (p : String) (ps : List String)
      → All IsCanonical ps
      → elem p ps ≡ true
      → canonical_path readers p ≡ p
  unfolding IsCanonical
  elem-IsCanonical p [] h e = cc
  elem-IsCanonical p (q ∷ ps) (h, hs) e = elim (Bool-cases (str_eq q p)) [
    | inl t ↦ subst (λ r. canonical_path readers r ≡ r) ((str_eq_iff q p).0 t) h
    | inr f ↦ elem-IsCanonical p ps hs (subst (λ b. (b || elem p ps) ≡ true) f e)
  ]

  pub changed_paths-canonical :
      IsNormal
      → (messages : List Message) (m : Message) (p : String)
      → elem p (changed_paths readers messages m) ≡ true
      → canonical_path readers p ≡ p
  unfolding changed_paths
  changed_paths-canonical normal messages m p =
      let name = (call_details messages m).0 in
      let arguments = (call_details messages m).1 in
      let metadata = (with_identity readers m).metadata in
      elem-IsCanonical p (changed_paths readers messages m) (
        if-both (All IsCanonical)
          (is_result m
            && ((not m.is_error && elem name path_mutation_tools)
                || has_truthy "changed_files" metadata))
          (mutation_paths-IsCanonical normal metadata arguments) tt)
