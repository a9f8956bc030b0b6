-- ===== src/Lib.antt =====
-- Borealis Coder (src/borealis_coder) is a coding agent: a loop asks a model provider for the next
-- turn, runs the tools that the answer calls, and keeps the conversation in a session store. This
-- library models the parts that decide what the loop may do and what it keeps, and proves what they
-- promise.
--
-- Parts and files:
-- - Prelude: shared names, tests on native numbers, results of code that may raise, and text as code
--   points.
-- - Models: src/borealis_coder/models.py. `Message`, `ToolCall`, `Role` and `Effect`; `Usage` and `Usage.add`
--   (Models/Usage.antt). A `float` is a parameter with its operations (Models/Float.antt), and no
--   law of arithmetic is assumed.
-- - Compaction: src/borealis_coder/agent/compaction.py. `validate_tool_call_order` (Compaction/ToolOrder.antt) and
--   `bundle_conversation` (Compaction/Bundles.antt). Both loops of the source consume the history;
--   here they run on fuel, the length of the history, and the theorems state that it is enough.
--   `_shrink_diagnostic_messages` (Compaction/Fit.antt), `frame_untrusted_history`
--   (Compaction/Framing.antt), the loops of `_render_deterministic_summary_with_evidence`
--   (Compaction/Summary.antt), whose fuel is the weight of a section, `render_transcript`
--   (Compaction/Transcript.antt), and `compact_messages` (Compaction/Compact.antt), whose loop over the
--   byte limit has the first limit for fuel. `prune_provider_messages` (Compaction/Prune.antt) has its
--   first loop apart for the copies and for the notes, over the identities of Compaction/Reads.antt.
--   The extraction of evidence, the estimates of tokens and bytes, the hash and the JSON of the
--   metadata are parameters of the compaction.
-- - Runner: src/borealis_coder/agent/runner.py, `_validate_new_tool_call_ids` and
--   `_abandoned_tool_call_results` (Runner/Repair.antt), which complete a history that a stopped run leaves;
--   `_next_compaction_targets` and the loop over it (Runner/Targets.antt), which counts its rounds, so
--   that a few more than it allows are enough fuel.
-- - Truncation: `truncate_text` of src/borealis_coder/util.py and `_tail` of src/borealis_coder/agent/compaction.py.
-- - Patch: src/borealis_coder/tools/patch.py. `apply_hunks` on lines of text (Patch/Hunks.antt); `parse_patch` with
--   the parsers of the envelope (Patch/Parse.antt) and of unified diffs (Patch/Parse/Unified.antt),
--   whose loops have the number of lines for fuel; the tool itself, from the plan to the rollback
--   (Patch/Commit.antt), which calls Checkpoints. The failures of the system in the writes and those in
--   the restoration are two parameters, so that a failure may last or pass.
-- - Files: src/borealis_coder/util.py, the atomic write, on a store from paths to files.
-- - Checkpoints: src/borealis_coder/safety/checkpoints.py. What `create` saves and `restore` writes back, where
--   the system may refuse any write or removal, and the checkpoints that `prune` selects
--   (Checkpoints/Retention.antt).
-- - Budget: src/borealis_coder/agent/budget.py, the class `Budget`. A method that raises before its first write is a
--   function into a result; `add_usage`, which writes first, returns its state with the error. The
--   agents of a run share one budget on one event loop, and no method awaits, so that a run is a
--   sequence of whole calls (Budget/Ops.antt).
-- - Commands: src/borealis_coder/safety/commands.py, `assess_command`, with the lexer of `shlex.split`.
-- - Policy: src/borealis_coder/safety/policy.py, `PolicyEngine.decide`, which asks Commands for a shell command.
-- - Approvals: src/borealis_coder/safety/approvals.py, `ApprovalManager`, which enforces the decision of the policy.
-- - Sessions: src/borealis_coder/sessions/store.py, the transactions `start_tool_call`, `complete_tool_call`,
--   `cancel_tool_call` and `_append_message_locked`, over tables that are lists of rows. A transaction
--   that raises is rolled back, so that it is a function into a result.
-- - Paths: src/borealis_coder/safety/paths.py, `WorkspaceRoots`. The file system, with its resolution of symbolic links,
--   and `fnmatch` are parameters.
-- - Ignore: src/borealis_coder/context/ignore.py, the rules of ignore files and `IgnoreMatcher.ignored`; `fnmatch` is a
--   parameter.
-- - Swarm: src/borealis_coder/agent/swarm.py, `SwarmState.admit`, over the requests of a run in any order.
-- Not modelled: providers and the HTTP client, processes and sandboxes, terminal and protocols, which
-- are input and output; the agent loop of src/borealis_coder/agent/runner.py, which is asynchronous. Python's `str.lower`, the values of
-- its digits, UTF-8, SHA-256, `fnmatch`, the failures of the system and the callback of the approval manager are parameters. Times are whole milliseconds; a number of Python that the code keeps
-- non-negative is a natural number.
pub mod Approvals
pub mod Budget
pub mod Checkpoints
pub mod Commands
pub mod Compaction
pub mod Files
pub mod Ignore
pub mod Models
pub mod Patch
pub mod Paths
pub mod Policy
pub mod Prelude
pub mod Runner
pub mod Sessions
pub mod Swarm
pub mod Truncation
