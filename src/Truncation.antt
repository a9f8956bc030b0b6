-- ===== src/Truncation.antt =====
-- `truncate_text` of util.py, and `_tail` of agent/compaction.py.
pub mod Length
use borealis_coder.Prelude.{
  ℕ, ◌+◌, ◌-◌, ◌*◌, ◌/◌, Bool, ◌||◌, ◌++◌, ◌==◌, leb, ltb, length, take, drop, if◌then◌else◌,
}
use borealis_coder.Prelude.Chars.{Text, codes, strip}

abbrev pub marker : Text
marker = codes "\n… output truncated …\n"

-- text[-n:], for n > 0
abbrev pub last_part : ℕ → Text → Text
last_part n text = drop (length text - n) text

unfoldable pub truncate_text : Text → ℕ → Text
truncate_text text limit =
    let head = (limit - length marker) * 2 / 3 in
    let tail = limit - length marker - head in
    if limit == 0 || leb (length text) limit
    then text
    else if ltb limit (length marker + 20)
    then take limit text
    else take head text ++ (marker ++ last_part tail text)

-- `_tail`
unfoldable pub diagnostic_tail : Text → ℕ → Text
unfolding strip
diagnostic_tail value limit =
    let stripped = strip value in
    if leb (length stripped) limit
    then stripped
    else codes "[diagnostic head omitted]\n" ++ last_part limit stripped
