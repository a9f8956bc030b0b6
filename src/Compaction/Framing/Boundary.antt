-- ===== src/Compaction/Framing/Boundary.antt =====
-- The boundary of quoted history (agent/compaction.py).
use borealis_coder.Prelude.{
  ℕ, ◌+◌, ◌-◌, ◌*◌, ◌/◌, ◌≤◌, ◌≡◌, refl, Bool, false, ◌||◌, [], ◌∷◌, ◌++◌, ◌==◌, length, ltb, leb,
  take, drop, max, any, if-both, if-under, length-append, arith, zero, suc, inl, inr, ◌⊎◌,
}
use borealis_coder.Prelude.Chars.{Text}
use borealis_coder.Truncation.{truncate_text, marker, last_part}
use borealis_coder.Truncation.Length.{truncate_text-le}
use borealis_coder.Compaction.Framing.{
  Strategy, escape, frame_prefix, frame_suffix, frame_body, frame_untrusted_history,
}

-- No character of the text opens or closes a tag.
abbrev pub opens_tag : ℕ → Bool
opens_tag c = c == b'<' || c == b'>'

abbrev pub IsEscaped : Text → Type 0
IsEscaped s = any opens_tag s ≡ false

any-append_false :
    (p : ℕ → Bool) (xs ys : Text) → any p xs ≡ false → any p ys ≡ false → any p (xs ++ ys) ≡ false
any-append_false p [] ys h k = k
any-append_false p (x ∷ xs) ys h k = ground (arith, any-append_false p xs ys)

escape-IsEscaped : (s : Text) → IsEscaped (escape s)
unfolding escape
escape-IsEscaped [] = refl
escape-IsEscaped (c ∷ s) =
    let rest = escape-IsEscaped s in
    if-under IsEscaped (c == b'&') (λ e. rest)
      (λ e.
        if-under IsEscaped (c == b'<') (λ f. rest)
          (λ f. if-under IsEscaped (c == b'>') (λ g. rest) (λ g. ground arith)))

take-IsEscaped : (n : ℕ) (s : Text) → IsEscaped s → IsEscaped (take n s)
take-IsEscaped zero s h = refl
take-IsEscaped (suc n) [] h = refl
take-IsEscaped (suc n) (c ∷ s) h = ground (arith, take-IsEscaped n s)

drop-IsEscaped : (n : ℕ) (s : Text) → IsEscaped s → IsEscaped (drop n s)
drop-IsEscaped zero s h = h
drop-IsEscaped (suc n) [] h = refl
drop-IsEscaped (suc n) (c ∷ s) h = drop-IsEscaped n s (ground arith)

truncate_text-IsEscaped : (s : Text) (limit : ℕ) → IsEscaped s → IsEscaped (truncate_text s limit)
unfolding truncate_text
truncate_text-IsEscaped s limit h =
    let head = (limit - length marker) * 2 / 3 in
    let tail = limit - length marker - head in
    if-both IsEscaped (limit == 0 || leb (length s) limit) h (
      if-both IsEscaped (ltb limit (length marker + 20)) (take-IsEscaped limit s h) (
        any-append_false opens_tag (take head s) (marker ++ last_part tail s)
          (take-IsEscaped head s h)
          (any-append_false opens_tag marker (last_part tail s) refl
            (drop-IsEscaped (length s - tail) s h))))

frame_body-IsEscaped :
    (content : Text) (strategy : Strategy) (limit : ℕ)
    → IsEscaped (frame_body content strategy limit)
unfolding frame_body
frame_body-IsEscaped content strategy limit =
    let available = limit - length (frame_prefix strategy) - length (frame_suffix strategy) in
    let whole = escape-IsEscaped content in
    if-both IsEscaped (ltb 0 limit)
      (if-both IsEscaped (ltb 0 available)
        (truncate_text-IsEscaped (escape content) available whole) refl)
      whole

frame_body-le :
    (content : Text) (strategy : Strategy) (limit : ℕ)
    → 1 ≤ limit
    → length (frame_body content strategy limit)
      ≤ limit - length (frame_prefix strategy) - length (frame_suffix strategy)
unfolding frame_body
frame_body-le content strategy limit h =
    let available = limit - length (frame_prefix strategy) - length (frame_suffix strategy) in
    let Q : Text → Type 0 = λ t. length t ≤ available in
    if-under Q (ltb 0 limit)
      (λ e.
        if-under Q (ltb 0 available)
          (λ f. truncate_text-le (escape content) available (ground arith)) (λ f. omega arith))
      (λ e. absurd (ground arith))

frame_untrusted_history-le :
    (content : Text) (strategy : Strategy) (limit : ℕ)
    → (limit ≡ 0)
      ⊎ (length (frame_untrusted_history content strategy limit)
          ≤ max limit (length (frame_prefix strategy) + length (frame_suffix strategy)))
unfolding frame_untrusted_history
frame_untrusted_history-le content strategy zero = inl refl
frame_untrusted_history-le content strategy (suc limit) =
    let body = frame_body content strategy (suc limit) in
    inr (
      omega (
        arith,
        frame_body-le content strategy (suc limit) (omega arith),
        length-append (frame_prefix strategy) (body ++ frame_suffix strategy),
        length-append body (frame_suffix strategy),
      ))

-- Framed history is the prefix, a body and the suffix of its strategy, whole whatever the limit. No
-- character of the body opens or closes a tag, so that the content cannot close the element. The
-- text is no longer than the limit, unless that is 0, or than the prefix and the suffix together.
pub frame_untrusted_history-IsEscaped :
    (content : Text) (strategy : Strategy) (limit : ℕ)
    → (body : Text) × (frame_untrusted_history content strategy limit
        ≡ frame_prefix strategy ++ (body ++ frame_suffix strategy))
      × IsEscaped body
      × ((limit ≡ 0)
          ⊎ (length (frame_untrusted_history content strategy limit)
              ≤ max limit (length (frame_prefix strategy) + length (frame_suffix strategy))))
unfolding frame_untrusted_history
frame_untrusted_history-IsEscaped content strategy limit = (
  frame_body content strategy limit,
  refl,
  frame_body-IsEscaped content strategy limit,
  frame_untrusted_history-le content strategy limit,
)
