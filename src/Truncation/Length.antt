-- ===== src/Truncation/Length.antt =====
-- The length of a truncated text (util.py).
use borealis_coder.Prelude.{
  ℕ, ◌+◌, ◌-◌, ◌*◌, ◌/◌, ◌≤◌, ◌<◌, ◌||◌, ◌++◌, ◌==◌, leb, ltb, length, take, length-append,
  length-take, length-drop, if-under, arith,
}
use borealis_coder.Prelude.Chars.{Text}
use borealis_coder.Truncation.{marker, last_part, truncate_text}

-- A truncated text is at most as long as the limit, marker included, where there is a limit.
pub truncate_text-le :
    (text : Text) (limit : ℕ) → 1 ≤ limit → length (truncate_text text limit) ≤ limit
unfolding truncate_text
truncate_text-le text limit h =
    let Q : Text → Type 0 = λ t. length t ≤ limit in
    let head = (limit - length marker) * 2 / 3 in
    let tail = limit - length marker - head in
    if-under Q (limit == 0 || leb (length text) limit) (λ e. ground arith)
      (λ e.
        if-under Q (ltb limit (length marker + 20)) (λ f. omega (arith, length-take limit text))
          (λ f.
            let long : limit < length text = ground arith in
            let room : length marker + 20 ≤ limit = ground arith in
            omega (
              arith,
              length-append (take head text) (marker ++ last_part tail text),
              length-take head text,
              length-drop (length text - tail) text,
            )))
