-- ===== src/Compaction/Fit/Shape.antt =====
-- Shrinking keeps the shape of a history (agent/compaction.py).
use borealis_coder.Prelude.{
  ℕ, String, ◌≡◌, refl, sym, ap, subst, ◌∙◌, Bool, true, false, ◌||◌, not, Option, List, [], ◌∷◌,
  ◌++◌, map, any, distinct, disjoint, leb, length, All, if-both,
}
use borealis_coder.Prelude.Chars.{is_blank}
use borealis_coder.Models.{ToolCall, Message}
use borealis_coder.Compaction.ToolOrder.{is_result, has_calls, call_ids, result_id, names_other}
use borealis_coder.Compaction.ToolOrder.Grammar.{IsCycle, Ordered, done, plain, cycle, result_ids}
use borealis_coder.Compaction.Fit.{
  Target, limits, shrink_message, messages_fit, shrink_rounds, shrink_diagnostic_messages,
}

-- The two messages differ in nothing that the validation looks at.
pub record IsAlike (m k : Message) : Type 0 where
  pub role : k.role ≡ m.role
  pub tool_calls : k.tool_calls ≡ m.tool_calls
  pub tool_call_id : k.tool_call_id ≡ m.tool_call_id
  pub tool_name : k.tool_name ≡ m.tool_name

-- Two histories that are alike, message by message.
abbrev pub AreAlike : List Message → List Message → Type 0
AreAlike [] [] = Unit {0}
AreAlike [] (k ∷ ks) = ⊥
AreAlike (m ∷ ms) [] = ⊥
AreAlike (m ∷ ms) (k ∷ ks) = IsAlike m k × AreAlike ms ks

AreAlike-map :
    (f : Message → Message)
    → ((m : Message) → IsAlike m (f m))
    → (ms : List Message) → AreAlike ms (map f ms)
AreAlike-map f alike [] = tt
AreAlike-map f alike (m ∷ ms) = (alike m, AreAlike-map f alike ms)

AreAlike-split :
    (ms rest ks : List Message)
    → AreAlike (ms ++ rest) ks
    → (front : List Message) × (back : List Message) × (ks ≡ front ++ back)
      × AreAlike ms front
      × AreAlike rest back
AreAlike-split [] rest ks a = ([], ks, refl, tt, a)
AreAlike-split (m ∷ ms) rest [] a = absurd a
AreAlike-split (m ∷ ms) rest (k ∷ ks) (a, more) =
    let (front, back, e, b, c) = AreAlike-split ms rest ks more in
    (k ∷ front, back, ap (λ l. k ∷ l) e, (a, b), c)

is_result-alike : (m k : Message) → IsAlike m k → is_result k ≡ is_result m
is_result-alike m k a = rw (a.role) refl

has_calls-alike : (m k : Message) → IsAlike m k → has_calls k ≡ has_calls m
has_calls-alike m k a = rw (a.role, a.tool_calls) refl

call_ids-alike : (m k : Message) → IsAlike m k → call_ids k ≡ call_ids m
call_ids-alike m k a = rw (a.tool_calls) refl

result_id-alike : (m k : Message) → IsAlike m k → result_id k ≡ result_id m
result_id-alike m k a = rw (a.tool_call_id) refl

names_other-alike :
    (r s m k : Message)
    → IsAlike r s
    → IsAlike m k
    → names_other s k.tool_calls ≡ names_other r m.tool_calls
unfolding names_other
names_other-alike r s m k a b =
    let view : Option String → Option String → List ToolCall → Bool =
      λ n i cs. names_other (record r { tool_name = n; tool_call_id = i }) cs in
    ap (λ n. view n s.tool_call_id k.tool_calls) (a.tool_name)
    ∙ ap (λ i. view r.tool_name i k.tool_calls) (a.tool_call_id)
    ∙ ap (view r.tool_name r.tool_call_id) (b.tool_calls)

result_ids-alike : (rs ss : List Message) → AreAlike rs ss → result_ids ss ≡ result_ids rs
result_ids-alike [] [] a = refl
result_ids-alike [] (s ∷ ss) a = absurd a
result_ids-alike (r ∷ rs) [] a = absurd a
result_ids-alike (r ∷ rs) (s ∷ ss) (a, more) =
    rw (result_id-alike r s a, result_ids-alike rs ss more) refl

results-alike :
    (rs ss : List Message)
    → AreAlike rs ss
    → All (λ r. is_result r ≡ true) rs
    → All (λ r. is_result r ≡ true) ss
results-alike [] [] a h = tt
results-alike [] (s ∷ ss) a h = absurd a
results-alike (r ∷ rs) [] a h = absurd a
results-alike (r ∷ rs) (s ∷ ss) (a, more) (h, hs) =
    (is_result-alike r s a ∙ h, results-alike rs ss more hs)

names-alike :
    (m k : Message) (rs ss : List Message)
    → IsAlike m k
    → AreAlike rs ss
    → All (λ r. names_other r m.tool_calls ≡ false) rs
    → All (λ r. names_other r k.tool_calls ≡ false) ss
names-alike m k [] [] b a h = tt
names-alike m k [] (s ∷ ss) b a h = absurd a
names-alike m k (r ∷ rs) [] b a h = absurd a
names-alike m k (r ∷ rs) (s ∷ ss) b (a, more) (h, hs) =
    (names_other-alike r s m k a b ∙ h, names-alike m k rs ss b more hs)

IsCycle-alike :
    (m k : Message) (rs ss : List Message)
    → IsAlike m k
    → AreAlike rs ss
    → IsCycle m rs
    → IsCycle k ss
IsCycle-alike m k rs ss a more c =
    let ids = call_ids-alike m k a in
    let answers = result_ids-alike rs ss more in
    record {
      calls = has_calls-alike m k a ∙ c.calls;
      named = ap (any is_blank) ids ∙ c.named;
      distinct_calls = ap distinct ids ∙ c.distinct_calls;
      results = results-alike rs ss more c.results;
      names_fit = names-alike m k rs ss a more c.names_fit;
      expected = rw (answers, ids) (c.expected);
      once = ap distinct answers ∙ c.once;
      answered = rw (answers, ids) (c.answered);
    }

-- A history that is alike is as ordered.
pub Ordered-alike :
    {known : List String} {ms : List Message} (ks : List Message)
    → Ordered known ms
    → AreAlike ms ks
    → Ordered known ks
Ordered-alike [] done a = done
Ordered-alike (k ∷ ks) done a = absurd a
Ordered-alike [] (plain other calls o) a = absurd a
Ordered-alike (k ∷ ks) (plain {m = m} other calls o) (a, more) =
    plain (is_result-alike m k a ∙ other) (has_calls-alike m k a ∙ calls) (Ordered-alike ks o more)
Ordered-alike [] (cycle rs rest c fresh split o) a = absurd a
Ordered-alike (k ∷ ks) (cycle {known = known} {m = m} rs rest c fresh split o) (a, more) =
    let (front, back, e, b, d) =
      AreAlike-split rs rest ks (subst (λ l. AreAlike l ks) split more) in
    let ids = call_ids-alike m k a in
    cycle front back (IsCycle-alike m k rs front a b c) (ap (λ is. disjoint is known) ids ∙ fresh) e
      (subst (λ is. Ordered (is ++ known) back) (sym ids) (Ordered-alike back o d))

shrink_message-IsAlike : (limit : ℕ) (m : Message) → IsAlike m (shrink_message limit m)
unfolding shrink_message
shrink_message-IsAlike limit m =
    if-both (IsAlike m) (not (is_result m) || leb (length m.content) limit)
      (record { role = refl; tool_calls = refl; tool_call_id = refl; tool_name = refl })
      (record { role = refl; tool_calls = refl; tool_call_id = refl; tool_name = refl })

module _ (message_tokens : Message → ℕ) (messages_bytes : List Message → ℕ) where
  shrink_rounds-Ordered :
      (ls : List ℕ) (ms : List Message) (target : Target)
      → Ordered [] ms
      → Ordered [] (shrink_rounds message_tokens messages_bytes ls ms target)
  unfolding shrink_rounds
  shrink_rounds-Ordered [] ms target o = o
  shrink_rounds-Ordered (limit ∷ rest) ms target o =
      if-both (Ordered []) (messages_fit message_tokens messages_bytes ms target) o (
        shrink_rounds-Ordered rest (map (shrink_message limit) ms) target (
          Ordered-alike (map (shrink_message limit) ms) o
            (AreAlike-map (shrink_message limit) (shrink_message-IsAlike limit) ms)))

  pub shrink_diagnostic_messages-Ordered :
      (ms : List Message) (target : Target)
      → Ordered [] ms
      → Ordered [] (shrink_diagnostic_messages message_tokens messages_bytes ms target)
  unfolding shrink_diagnostic_messages
  shrink_diagnostic_messages-Ordered ms target o = shrink_rounds-Ordered limits ms target o
