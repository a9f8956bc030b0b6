-- ===== src/Sessions/Repeat.antt =====
-- Completing a tool call again.
use borealis_coder.Prelude.{
  ◌≡◌, refl, Bool, true, false, ◌&&◌, String, Option, none, some, List, [], ◌∷◌, ◌++◌, ok, arith,
  Bool-cases, Option-cases, inl, inr, str_eq, str_eq_iff, ap,
}
use borealis_coder.Prelude.Chars.{Text, text_eq, text_eq_refl}
use borealis_coder.Models.{Message, Role, role_eq}
use borealis_coder.Models.JsonValue.{Fields}
use borealis_coder.Sessions.{
  running, status_eq, ToolCallRow, MessageRow, Store, is_call, find_call, Outcome, finish, finished,
  is_outcome, find_message, message_row, append_message, append_given, settle, complete_tool_call,
}
use borealis_coder.Sessions.Terminal.{append_given-calls}

str_eq_refl : (s : String) → str_eq s s ≡ true
str_eq_refl s = (str_eq_iff s s).1 refl

role_eq_refl : (r : Role) → role_eq r r ≡ true
role_eq_refl Role.system = refl
role_eq_refl Role.user = refl
role_eq_refl Role.assistant = refl
role_eq_refl Role.tool = refl

find_message-append :
    (s m : String) (rows : List MessageRow) (row : MessageRow)
    → find_message s m rows ≡ none
    → (str_eq row.session_id s && str_eq row.message_id m) ≡ true
    → find_message s m (rows ++ row ∷ []) ≡ some row
unfolding find_message
find_message-append s m [] row h k = ground arith
find_message-append s m (r ∷ rs) row h k = ground (arith, find_message-append s m rs row)

finish-outcome :
    (s c : String) (now : Text) (o : Outcome) (rows : List ToolCallRow) (row : ToolCallRow)
    → find_call s c rows ≡ some row
    → status_eq row.status running ≡ true
    → find_call s c (finish s c now o rows) ≡ some (finished now o row)
unfolding find_call finish
finish-outcome s c now o [] row h k = cc
finish-outcome s c now o (r ∷ rs) row h k = elim (Bool-cases (is_call s c r)) [
  | inl mine ↦
      let same : r ≡ row = ground arith in
      let runs : status_eq r.status running ≡ true = rw same k in
      ground (arith, ap (λ x. some (finished now o x)) same)
  | inr other ↦ let rest = finish-outcome s c now o rs row (rw other at h) k in ground arith
]

is_outcome-finished :
    (o : Outcome) (now : Text) (row : ToolCallRow)
    → status_eq o.status o.status ≡ true
    → is_outcome o (finished now o row) ≡ true
unfolding is_outcome finished
is_outcome-finished o now row h =
    ground (arith, text_eq_refl o.output, text_eq_refl o.metadata_json)

module _ (dumps : Fields → Text) (message_json : Message → Text) (same_json : Text → Text → Bool)
    (with_cancelled : Text → Text) where
  -- The message stands in the store, as it is.
  IsStored : String → Message → Store → Type 0
  IsStored s m st =
      (row : MessageRow) × (find_message s m.id st.messages ≡ some row)
      × (role_eq row.role m.role ≡ true)
      × (text_eq row.payload_json (message_json m) ≡ true)
      × (str_eq row.created_at m.created_at ≡ true)

  stored-append_message :
      (now : Text) (s : String) (m : Message) (st : Store)
      → IsStored s m st
      → append_message dumps message_json same_json with_cancelled now s m st ≡ ok st
  unfolding append_message IsStored
  stored-append_message now s m st (row, found, a, b, c) = ground arith

  append_message-IsStored :
      (now : Text) (s : String) (m : Message) (st next : Store)
      → append_message dumps message_json same_json with_cancelled now s m st ≡ ok next
      → IsStored s m next
  unfolding append_message IsStored message_row
  append_message-IsStored now s m st next h =
      elim (Option-cases (find_message s m.id st.messages)) [
        | inl absent ↦
            let new = message_row dumps message_json same_json with_cancelled s m in
            let named : (str_eq s s && str_eq m.id m.id) ≡ true =
              ground (arith, str_eq_refl s, str_eq_refl m.id) in
            let found : find_message s m.id (st.messages ++ new ∷ []) ≡ some new =
              find_message-append s m.id st.messages new absent named in
            let same : next.messages ≡ st.messages ++ new ∷ [] = ground arith in
            (
              new,
              rw same found,
              role_eq_refl m.role,
              text_eq_refl (message_json m),
              str_eq_refl m.created_at,
            )
        | inr (row, found) ↦
            let same : st ≡ next = ground arith in
            (row, rw (← same) found, ground arith, ground arith, ground arith)
      ]

  append_message-again :
      (now later : Text) (s : String) (m : Message) (st next : Store)
      → append_message dumps message_json same_json with_cancelled now s m st ≡ ok next
      → append_message dumps message_json same_json with_cancelled later s m next ≡ ok next
  append_message-again now later s m st next h =
      stored-append_message later s m next (append_message-IsStored now s m st next h)

  append_given-again :
      (now later : Text) (s : String) (m : Option Message) (st next : Store)
      → append_given dumps message_json same_json with_cancelled now s m st ≡ ok next
      → append_given dumps message_json same_json with_cancelled later s m next ≡ ok next
  unfolding append_given
  append_given-again now later s none st next h = refl
  append_given-again now later s (some m) st next h = append_message-again now later s m st next h

  settle-again :
      (now later : Text) (s c : String) (o : Outcome) (m : Option Message) (st next : Store)
      → status_eq o.status o.status ≡ true
      → status_eq o.status running ≡ false
      → settle dumps message_json same_json with_cancelled now s c o m st ≡ ok next
      → settle dumps message_json same_json with_cancelled later s c o m next ≡ ok next
  unfolding settle
  settle-again now later s c o m st next same ended h =
      elim (Option-cases (find_call s c st.calls)) [
        | inl absent ↦ ground arith
        | inr (row, found) ↦ elim (Bool-cases (status_eq row.status running)) [
          | inl runs ↦
              let done = finish s c now o st.calls in
              let k : append_given dumps message_json same_json with_cancelled now s m
                    (record st { calls = done })
                  ≡ ok next =
                ground arith in
              let e : find_call s c next.calls ≡ some (finished now o row) =
                rw
                  (append_given-calls dumps message_json same_json with_cancelled now s m
                    (record st { calls = done }) next k)
                  (finish-outcome s c now o st.calls row found runs) in
              let over : status_eq (finished now o row).status running ≡ false =
                unfold finished in ended in
              let kept = is_outcome-finished o now row same in
              ground (
                arith,
                e,
                over,
                kept,
                append_given-again now later s m (record st { calls = done }) next k,
              )
          | inr over ↦
              let kept : is_outcome o row ≡ true = ground arith in
              let k : append_given dumps message_json same_json with_cancelled now s m st
                  ≡ ok next =
                ground arith in
              let e : find_call s c next.calls ≡ some row =
                rw
                  (append_given-calls dumps message_json same_json with_cancelled now s m st next k)
                  found in
              ground (arith, e, over, kept, append_given-again now later s m st next k)
        ]
      ]

  -- A completion that was recorded can be repeated, at any later time: it returns, and changes
  -- nothing, neither the row of the call nor the message that it appended.
  pub complete_tool_call-again :
      (now later : Text) (s c : String) (output : Text) (is_error : Bool) (metadata : Fields)
      (message : Option Message) (st next : Store)
      → complete_tool_call dumps message_json same_json with_cancelled now s c output is_error
          metadata message st
        ≡ ok next
      → complete_tool_call dumps message_json same_json with_cancelled later s c output is_error
          metadata message next
        ≡ ok next
  unfolding complete_tool_call
  complete_tool_call-again now later s c output true metadata message st next h =
      settle-again now later s c _ message st next refl refl h
  complete_tool_call-again now later s c output false metadata message st next h =
      settle-again now later s c _ message st next refl refl h
