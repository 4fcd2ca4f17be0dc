-- ===== src/Lib.antt =====
-- A verification library for hermes-claude-agent-sdk, the provider that runs Hermes turns on one
-- Claude Agent SDK client with the user's subscription.
--
-- The program's parts. A host opens a session (`SDKSession`) that owns one SDK client, one reader
-- of its stream, and one turn at a time. Before a message of the stream is used, the zero-native
-- guard (`zero_native_violation`) checks that it stays inside the Hermes tools. The turn takes the
-- messages from its inbox, gathers billing evidence, asks the billing policy for a decision, and
-- projects the messages to the host; the terminal message only after a decision that allows. The
-- compaction lifecycle suspends the deadline of a turn while the SDK compacts. The environment of
-- the SDK's child process is planned by the billing policy. The tools of the host are shown to the
-- SDK by the tool bridge (`HostToolBridge`), which checks each call before it reaches the host. The
-- prompt of a turn is made of the host's last user message (`build_sdk_turn_input`). The runtime
-- adapter (`ClaudeAgentSDKRuntime`) puts these parts together: it checks a request, opens one session
-- with one bridge, runs a turn on it, and passes the projections on to the host.
--
-- Files and sources, under src/hermes_claude_agent_sdk/:
--   Common, Common/*     Boolean tests, lists, integers, association lists, sorted sets of names
--   Python, Python/*     the values that the program is given, as far as the code tells them apart:
--                        `_sdk_type_name` is class_name and `_safe_attr` is attr; the fields of
--                        Interpreter stand for the text functions of Python (`lower`, `casefold`,
--                        `str` of numbers), about which nothing is assumed
--   Billing, Billing/*   billing.py: Env has plan_sdk_env_overrides, Normalize _normalize_evidence,
--                        Extract extract_sdk_billing_evidence and, from sdk_session.py,
--                        _merge_evidence, Classify classify_sdk_billing
--   Compaction, .../*    compaction.py: the state and methods of NativeCompactionLifecycle, with
--                        Message for the hook and the compact boundary of the stream
--   Guard, Guard/*       content_events.py, lines 68 to 189: the guard over typed messages and over
--                        partial stream events
--   Session, Session/*   sdk_session.py: Session has the object's state, its reader and its ends,
--                        Turn the beginning of run_turn, Handle what run_turn does with one item of
--                        the inbox and how a result settles, Outcome the results and the codes of
--                        _classify_result_failure, Text the final text of a projection
--                        (content_events.py), World the interleaving of all the tasks
--   Configuration, .../* configuration.py: `create` and `option_fields`
--   ToolBridge, .../*    tool_bridge.py: Text has _bounded_text and _safe_identifier, Json
--                        _copy_plain_json, Schema _valid_schema, Match _matches_schema, Normalize
--                        normalize_tool_schemas, ToolBridge itself the state of HostToolBridge, its
--                        creation and handle_tool_call, Handler what the SDK calls; Calls and the
--                        children of Json and Match hold proofs
--   TurnInput, .../*     turn_input.py: Words has _bounded_text, DataUrl _DATA_URL, Images
--                        _image_source and the loop over images, Base64 the encoding, TurnInput
--                        itself build_sdk_turn_input, Blocks as_sdk_message; Failing, Length,
--                        Sources and Bounds hold proofs
--   Projector, .../*     content_events.py: Events has the events and results of a projection,
--                        Model the evidence of the model that is gathered, Provenance what
--                        `_model_provenance` makes of it; Gather and Identity hold proofs
--   Runtime, Runtime/*   runtime.py: Preflight has `preflight`, Forward one round of the loop of
--                        `run_turn`, Settle the loop and how the result is reported, Runtime itself
--                        the object, `run_turn` from its first check on, and `close`; Protocol is
--                        what an observer may see; Rounds, Turns, Runs, Host, Gate, Observations and
--                        Sound hold proofs
--   PromptContext, .../* prompt_context.py: _safe_text and _safe_relative_path
--
-- State and errors. A method is a function from the state to the state; an exception that the code
-- catches is a value (`none`, raises, failed) and takes the code's branch. A mapping whose lookup
-- raises is the value broken. Times are not modelled: a deadline or a watchdog passes at any moment
-- at which the code waits for it. Bounds on sizes are the source's own numbers. Every loop
-- goes over a list that the code is given, so there is no fuel, save for schemas: they are checked
-- and matched within 65 levels, the source's own limit.
--
-- Simplifications. The servers of a configuration are an ordinary dict or a false value, and what
-- `float` makes of a text is a parameter. A call of the SDK client's interrupt may take any time,
-- during which the other tasks move. Its other calls and the host's callbacks return, and at once,
-- so a method that awaits one of them is one step. Cancelling the turn's own task from outside is
-- left out. In the tool bridge the tables of Unicode and the regular expressions are a parameter
-- (Texts), and so is json (Printer). A value is a tree, so it has no cycles, and a float is finite
-- or has no sign; a text holds no surrogates. The decoding of base64 and the splitting of URLs are
-- a parameter (Decoders); the encoding is that of the standard library. The patterns of secrets in
-- the prompt context are a parameter, too (Patterns). The host in one call is an argument: what it
-- answers to the two questions whether it is cancelled, and what the tool does. What happens
-- around the runtime in one turn is its argument Input: the answers of the host, the probe and the
-- check of the model, the rounds in which the loop is woken, the calls of the bridge, and how the
-- session's turn ends. The messages of failures are left out, and so is a cancellation of the task
-- that runs the runtime's turn.
--
-- Not modelled: the rest of the event projector (tool arguments and results, usage),
-- authentication, the assembly of the prompt context, memory and skills, compatibility probes,
-- diagnostics, and the parity harness, which is tooling around the product.
mod Common
pub mod Python
pub mod Billing
pub mod Compaction
pub mod Guard
pub mod Session
pub mod Configuration
pub mod ToolBridge
pub mod TurnInput
pub mod PromptContext
pub mod Projector
pub mod Runtime
