-- ===== src/Sessions.antt =====
-- sessions/store.py: the rows of tool calls and messages, and the transactions on them. A transaction
-- that raises is rolled back, so that it is a function into a result. Texts of JSON are written by
-- `dumps`; `same_json` compares what two of them say, and `with_cancelled` sets the key `cancelled`
-- in one. The clock is an argument.
pub mod Terminal
pub mod Repeat
mod Tests
use borealis_coder.Prelude.{
  ℕ, Bool, true, false, not, ◌&&◌, ◌||◌, String, Option, none, some, List, [], ◌∷◌, ◌++◌, map, any,
  Result, ok, err, if◌then◌else◌, str_eq, guard, ◌>>=◌, ◌>>◌,
}
use borealis_coder.Prelude.Chars.{Text, text_eq, is_blank}
use borealis_coder.Models.{Role, role_eq, Message}
use borealis_coder.Models.JsonValue.{Fields, end}

pub data SessionError : Type 0 where
  empty_call_id : SessionError
  call_exists call_missing call_terminal message_exists no_session : String → SessionError

pub data Status : Type 0 where
  running completed error cancelled : Status

abbrev pub status_eq : Status → Status → Bool
status_eq running running = true
status_eq completed completed = true
status_eq error error = true
status_eq cancelled cancelled = true
status_eq _ _ = false

-- A row of the table `tool_calls`; `output`, `is_error` and `completed_at` are NULL at first.
pub record ToolCallRow : Type 0 where
  pub session_id : String
  pub tool_call_id : String
  pub run_id : String
  pub tool_name : String
  pub arguments_json : Text
  pub output : Option Text
  pub is_error : Option Bool
  pub status : Status
  pub started_at : Text
  pub completed_at : Option Text
  pub metadata_json : Text

-- A row of the table `messages`.
pub record MessageRow : Type 0 where
  pub session_id : String
  pub message_id : String
  pub role : Role
  pub payload_json : Text
  pub created_at : String

-- A row of the table `sessions`, as far as these transactions touch it.
pub record SessionRow : Type 0 where
  pub id : String
  pub updated_at : Text

pub record Store : Type 0 where
  pub sessions : List SessionRow
  pub calls : List ToolCallRow
  pub messages : List MessageRow

abbrev pub is_call : String → String → ToolCallRow → Bool
is_call s c row = str_eq row.session_id s && str_eq row.tool_call_id c

-- SELECT … WHERE session_id=? AND tool_call_id=?
pub find_call : String → String → List ToolCallRow → Option ToolCallRow
find_call s c [] = none
find_call s c (row ∷ rows) = if is_call s c row then some row else find_call s c rows

pub find_message : String → String → List MessageRow → Option MessageRow
find_message s m [] = none
find_message s m (row ∷ rows) =
    if str_eq row.session_id s && str_eq row.message_id m then some row else find_message s m rows

abbrev is_running : ToolCallRow → Bool
is_running row = status_eq row.status running

-- What the UPDATE of a running row sets.
pub record Outcome : Type 0 where
  pub output : Text
  pub is_error : Bool
  pub status : Status
  pub metadata_json : Text

pub finished : Text → Outcome → ToolCallRow → ToolCallRow
finished now o row = record row {
  output = some o.output;
  is_error = some o.is_error;
  status = o.status;
  completed_at = some now;
  metadata_json = o.metadata_json;
}

-- UPDATE … WHERE session_id=? AND tool_call_id=? AND status='running'
pub finish : String → String → Text → Outcome → List ToolCallRow → List ToolCallRow
unfolding finished
finish s c now o [] = []
finish s c now o (row ∷ rows) =
    (if is_call s c row && is_running row then finished now o row else row) ∷ finish s c now o rows

-- The row holds this outcome already.
pub is_outcome : Outcome → ToolCallRow → Bool
is_outcome o row =
    elim row.output [ none ↦ false | some t ↦ text_eq t o.output ]
    && elim row.is_error [ none ↦ false | some b ↦ (if b then o.is_error else not o.is_error) ]
    && status_eq row.status o.status
    && text_eq row.metadata_json o.metadata_json

pub touch : String → Text → List SessionRow → List SessionRow
touch s now [] = []
touch s now (row ∷ rows) =
    (if str_eq row.id s then record row { updated_at = now } else row) ∷ touch s now rows

module _ (dumps : Fields → Text) (message_json : Message → Text) (same_json : Text → Text → Bool)
    (with_cancelled : Text → Text) where
  -- The row that the INSERT of a message adds.
  pub message_row : String → Message → MessageRow
  message_row s m = record {
    session_id = s;
    message_id = m.id;
    role = m.role;
    payload_json = message_json m;
    created_at = m.created_at;
  }

  -- `_append_message_locked`; the foreign key wants the session.
  pub append_message : Text → String → Message → Store → Result SessionError Store
  append_message now s m st = elim (find_message s m.id st.messages) [
    | some row ↦
        if not (role_eq row.role m.role)
          || not (text_eq row.payload_json (message_json m))
          || not (str_eq row.created_at m.created_at)
        then err (message_exists m.id)
        else ok st
    | none ↦
        if any (λ (r : SessionRow). str_eq r.id s) st.sessions
        then ok (record st {
          messages = st.messages ++ message_row s m ∷ [];
          sessions = touch s now st.sessions;
        })
        else err (no_session s)
  ]

  -- `if message is not None: self._append_message_locked(…)`
  pub append_given : Text → String → Option Message → Store → Result SessionError Store
  append_given now s none st = ok st
  append_given now s (some m) st = append_message now s m st

  -- The row that the INSERT adds.
  pub started : Text → String → String → String → String → Fields → Fields → ToolCallRow
  started now s run c name arguments metadata = record {
    session_id = s;
    tool_call_id = c;
    run_id = run;
    tool_name = name;
    arguments_json = dumps arguments;
    output = none;
    is_error = none;
    status = running;
    started_at = now;
    completed_at = none;
    metadata_json = dumps metadata;
  }

  pub start_tool_call :
      Text → String → String → String → String → Fields → Fields → Store → Result SessionError Store
  start_tool_call now s run c name arguments metadata st =
      if is_blank c then err empty_call_id else (elim (find_call s c st.calls) [
        | some row ↦
            if status_eq row.status running
              && str_eq row.run_id run
              && str_eq row.tool_name name
              && same_json row.arguments_json (dumps arguments)
            then ok st
            else err (call_exists c)
        | none ↦
            if any (λ (r : SessionRow). str_eq r.id s) st.sessions
            then ok
                (record st { calls = st.calls ++ started now s run c name arguments metadata ∷ [] })
            else err (no_session s)
      ])

  -- The UPDATE, and what follows it: a row that was not running must hold the same outcome.
  pub settle : Text → String → String → Outcome → Option Message → Store → Result SessionError Store
  unfolding append_given finish
  settle now s c o message st = elim (find_call s c st.calls) [
    | none ↦ err (call_missing c)
    | some row ↦
        if status_eq row.status running
        then append_given now s message (record st { calls = finish s c now o st.calls })
        else if is_outcome o row
        then append_given now s message st
        else err (call_terminal c)
  ]

  pub complete_tool_call :
      Text
      → String
      → String
      → Text
      → Bool
      → Fields
      → Option Message
      → Store
      → Result SessionError Store
  unfolding settle
  complete_tool_call now s c output is_error metadata message st =
      settle now s c
        (record {
          output = output;
          is_error = is_error;
          status = if is_error then error else completed;
          metadata_json = dumps metadata;
        })
        message st

  -- The metadata of the row, with the key `cancelled` set; `{}` if there is no row.
  pub cancelled_metadata : String → String → Store → Text
  unfolding find_call
  cancelled_metadata s c st = elim (find_call s c st.calls) [
    | none ↦ with_cancelled (dumps end)
    | some row ↦ with_cancelled row.metadata_json
  ]

  pub cancel_tool_call :
      Text → String → String → Text → Option Message → Store → Result SessionError Store
  unfolding settle cancelled_metadata
  cancel_tool_call now s c reason message st =
      settle now s c
        (record {
          output = reason;
          is_error = true;
          status = cancelled;
          metadata_json = cancelled_metadata s c st;
        })
        message st
