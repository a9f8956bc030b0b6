-- ===== src/Sessions/Terminal.antt =====
-- What a tool call that has ended keeps.
use borealis_coder.Prelude.{
  ◌≡◌, Bool, false, String, Option, none, some, List, [], ◌∷◌, ◌++◌, Result, ok, err, arith,
  Bool-cases, Result-cases, inl, inr,
}
use borealis_coder.Prelude.Chars.{Text}
use borealis_coder.Models.{Message}
use borealis_coder.Models.JsonValue.{Fields}
use borealis_coder.Sessions.{
  SessionError, running, status_eq, ToolCallRow, Store, is_call, find_call, Outcome, finish,
  finished, append_message, append_given, start_tool_call, started, settle, complete_tool_call,
  cancel_tool_call,
}

-- The row of a call is the given one, and has ended.
unfoldable pub HasEnded : String → String → ToolCallRow → List ToolCallRow → Type 0
HasEnded s c row rows = (find_call s c rows ≡ some row) × (status_eq row.status running ≡ false)

find_call-append :
    (s c : String) (rows more : List ToolCallRow) (row : ToolCallRow)
    → find_call s c rows ≡ some row
    → find_call s c (rows ++ more) ≡ some row
unfolding find_call
find_call-append s c [] more row h = cc
find_call-append s c (r ∷ rs) more row h = ground (arith, find_call-append s c rs more row)

finish-keeps :
    (s c t d : String) (now : Text) (o : Outcome) (rows : List ToolCallRow) (row : ToolCallRow)
    → HasEnded s c row rows
    → find_call s c (finish t d now o rows) ≡ some row
unfolding HasEnded find_call finish finished
finish-keeps s c t d now o [] row (h, e) = cc
finish-keeps s c t d now o (r ∷ rs) row (h, e) = elim (Bool-cases (is_call s c r)) [
  | inl mine ↦
      let same : r ≡ row = ground arith in
      let ended : status_eq r.status running ≡ false = rw same e in ground arith
  | inr other ↦ let rest = finish-keeps s c t d now o rs row (rw other at h, e) in ground arith
]

module _ (dumps : Fields → Text) (message_json : Message → Text) (same_json : Text → Text → Bool)
    (with_cancelled : Text → Text) where
  -- A transaction on the store.
  pub data Op : Type 0 where
    begin : Text → String → String → String → String → Fields → Fields → Op
    complete : Text → String → String → Text → Bool → Fields → Option Message → Op
    cancel : Text → String → String → Text → Option Message → Op
    append : Text → String → Message → Op

  -- A transaction that raises leaves the store as it was.
  abbrev pub state_of : Store → Result SessionError Store → Store
  state_of st (ok next) = next
  state_of st (err e) = st

  pub transact : Op → Store → Result SessionError Store
  transact (begin now s run c name arguments metadata) st =
      start_tool_call dumps message_json same_json with_cancelled now s run c name arguments
        metadata st
  transact (complete now s c output is_error metadata message) st =
      complete_tool_call dumps message_json same_json with_cancelled now s c output is_error
        metadata message st
  transact (cancel now s c reason message) st =
      cancel_tool_call dumps message_json same_json with_cancelled now s c reason message st
  transact (append now s m) st =
      append_message dumps message_json same_json with_cancelled now s m st

  pub run_all : List Op → Store → Store
  run_all [] st = st
  run_all (op ∷ ops) st = run_all ops (state_of st (transact op st))

  append_message-calls :
      (now : Text) (s : String) (m : Message) (st next : Store)
      → append_message dumps message_json same_json with_cancelled now s m st ≡ ok next
      → next.calls ≡ st.calls
  unfolding append_message
  append_message-calls now s m st next h = ground arith

  pub append_given-calls :
      (now : Text) (s : String) (m : Option Message) (st next : Store)
      → append_given dumps message_json same_json with_cancelled now s m st ≡ ok next
      → next.calls ≡ st.calls
  unfolding append_given
  append_given-calls now s none st next h = ground arith
  append_given-calls now s (some m) st next h = append_message-calls now s m st next h

  start_tool_call-keeps :
      (now : Text) (t run d name : String) (arguments metadata : Fields) (s c : String)
      (row : ToolCallRow) (st next : Store)
      → HasEnded s c row st.calls
      → start_tool_call dumps message_json same_json with_cancelled now t run d name arguments
          metadata st
        ≡ ok next
      → find_call s c next.calls ≡ some row
  unfolding start_tool_call HasEnded
  start_tool_call-keeps now t run d name arguments metadata s c row st next (h, e) k = ground (
    arith,
    find_call-append s c st.calls
        (started dumps message_json same_json with_cancelled now t run d name arguments metadata
          ∷ [])
        row h,
  )

  settle-keeps :
      (now : Text) (t d : String) (o : Outcome) (m : Option Message) (s c : String)
      (row : ToolCallRow) (st next : Store)
      → HasEnded s c row st.calls
      → settle dumps message_json same_json with_cancelled now t d o m st ≡ ok next
      → find_call s c next.calls ≡ some row
  unfolding settle
  settle-keeps now t d o m s c row st next h k =
      let found : find_call s c st.calls ≡ some row = unfold HasEnded in h.0 in
      ground (
        arith,
        finish-keeps s c t d now o st.calls row h,
        append_given-calls now t m (record st { calls = finish t d now o st.calls }) next,
        append_given-calls now t m st next,
      )

  transact-keeps :
      (op : Op) (s c : String) (row : ToolCallRow) (st next : Store)
      → HasEnded s c row st.calls
      → transact op st ≡ ok next
      → find_call s c next.calls ≡ some row
  unfolding transact HasEnded
  transact-keeps (begin now t run d name arguments metadata) s c row st next h k =
      start_tool_call-keeps now t run d name arguments metadata s c row st next h k
  transact-keeps (complete now t d output is_error metadata message) s c row st next h k =
      unfold complete_tool_call in settle-keeps now t d _ message s c row st next h k
  transact-keeps (cancel now t d reason message) s c row st next h k =
      unfold cancel_tool_call in settle-keeps now t d _ message s c row st next h k
  transact-keeps (append now t m) s c row st next (h, e) k =
      ground (arith, append_message-calls now t m st next)

  state_of-HasEnded :
      (op : Op) (s c : String) (row : ToolCallRow) (st : Store)
      → HasEnded s c row st.calls
      → HasEnded s c row (state_of st (transact op st)).calls
  unfolding HasEnded
  state_of-HasEnded op s c row st h = elim (Result-cases (transact op st)) [
    | inl (next, e) ↦ rw e (transact-keeps op s c row st next h e, h.1)
    | inr (f, e) ↦ rw e h
  ]

  -- A tool call that has ended keeps its row, with its output, its status and its metadata, whatever
  -- transactions follow: none of them overwrites or reopens it.
  pub run_all-HasEnded :
      (ops : List Op) (s c : String) (row : ToolCallRow) (st : Store)
      → HasEnded s c row st.calls
      → HasEnded s c row (run_all ops st).calls
  unfolding run_all
  run_all-HasEnded [] s c row st h = h
  run_all-HasEnded (op ∷ ops) s c row st h =
      run_all-HasEnded ops s c row (state_of st (transact op st))
        (state_of-HasEnded op s c row st h)
