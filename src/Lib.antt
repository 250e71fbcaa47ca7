-- ===== src/Lib.antt =====
-- Verification of the agent harness (agent_harness) and of the chat worker built on it
-- (simple_chat_agent/worker).
--
-- An agent alternates model calls and tool calls. Its context manager stores the conversation and
-- shows the model a window of it that fits a token budget; its tool set runs the tools that the model
-- requests, each between guards. A chat is a workflow around an agent: signals put messages into a
-- queue, steer or interrupt the agent and answer its requests for approval, queries show the
-- transcript, and a long run continues as a new one.
--
-- Prelude: numbers, lists, texts, integers, loops on fuel, and outcomes (a value or an exception).
-- Json: the values that messages and snapshots hold, and json.dumps (Json/Dumps).
-- Messages: agent_harness/messages.py; Messages/Snapshots: their stored form and normalize_message.
-- Attachments: agent_harness/attachments.py, the manifest that the model is shown.
-- Context: agent_harness/sliding_window_context_manager.py. Exchanges models
--   _drop_incomplete_tool_exchanges, Groups _message_groups, Budget the token budget of
--   agent_harness/context_manager.py, Shrink the two truncating loops, Fit
--   _fit_messages_to_token_budget, Manager the state and the operations that change it, View what the
--   model is shown and what a continuation starts from. Same relates a conversation to one with
--   changed contents, Shrink/Shorter to one whose texts were shortened.
-- Guards: agent_harness/guards.py and agent_harness/tool_types.py; Policy says which tools a policy
--   accepts, Runs what a run of guards did.
-- Tools: agent_harness/tools.py; Execute models execute_tool, Setup the registration of tools and
--   guards, Setup/Keeps what a registration keeps, Setup/Names what it does not replace.
-- Activity: record_routed_activity_call of agent_harness/workflow_activities.py. Options models
--   agent_harness/activity_options.py, Overrides which of several options an activity gets.
-- Invocation: agent_harness/invocation.py and its calls in guards.py, tools.py and activity_router.py;
--   Binding says when the arguments of a call fit a signature.
-- Agent: agent_harness/agent.py, here the token budgets. Calls models _execute_requested_tools, State
--   the state with its signals and flushes, Call _call_provider, and Run the method run. Run/Calm says
--   what a call does while no interrupt arrives, Run/Rounds how a round ends, Run/Ends how a run ends,
--   Run/Paired and Run/Answers what a round writes into the history.
-- Providers: what agent_harness/providers share (_shared.py, errors.py); Interface is interface.py.
--   Claude models agent_harness/providers/claude.py: Requests its requests and responses, Refusals the
--   visible refusals, Adapter the provider that the loop uses. Blocks, Pairing and Stored follow a
--   history to the API and back, Native an answer of the API, Thinking the thinking budget; Stream
--   models the events of a streamed answer, Inputs the tool inputs that they put together.
-- Streaming: agent_harness/streaming.py; Order says how its events are numbered.
-- LlmGuards: agent_harness/llm_guards.py; Halts says how a guard ends a pipeline.
-- Chat: simple_chat_agent/worker/workflow.py, the workflow of one chat. Bytes bounds the size of query
--   results, Deltas models transcript_deltas_since and the buffer of changes against a log of all of
--   them, Page _transcript_page, Signals the signals, Approvals the requests for approval
--   (_request_tool_approval is split at its wait), Turns the turns and the state that a continuation
--   keeps, Steps all of these as steps in any order, and Steps/Buffer what they tell to clients. Queue
--   says what users see of the queue, Memory which approvals are remembered.
-- Registry: simple_chat_agent/worker/user_chats_workflow.py, the registry of a user's chats; Updates
--   says what its updates keep, Continues what a continuation keeps.
-- Tests: example inputs.
--
-- Exceptions are values of Outcome; their texts leave out the values that the source quotes in them.
-- Python's integers are ℤ where they may be negative and ℕ elsewhere; a float such as 2.5 characters
-- per token is a fraction, and its division is exact. Copies of dicts are the dicts themselves, since
-- values do not change. Asynchronous functions run to their end, and what user functions answer
-- (guards, tools) is a parameter that may depend on everything that ran before.
--
-- A truncating loop runs on fuel: one round more than the number of characters it may shorten, which
-- is enough, since every round shortens one text.
--
-- The steps of a chat are functions from state to state; what the agent does to the transcript, whether
-- the delivery of a signal fails, and the time are arguments of a step, so that every interleaving of
-- signals, turns and continuations is a list of steps.
--
-- A run of the agent has a round for each model call: the signals that arrive while the agent waits,
-- the answers of the guards, the ends of the model call's activity and of the tools are the round's, so
-- that every interleaving of signals with calls is a sequence of rounds. Fuel counts the rounds; more
-- rounds than turns left and interrupts are enough, as is shown.
--
-- Not modelled: the providers for Gemini and ChatGPT; the calls of model vendors, of Temporal, of web
-- services and of databases; schemas that pydantic makes; the API server and the frontend.
pub mod Prelude
pub mod Json
pub mod Messages
pub mod Attachments
pub mod Context
pub mod Guards
pub mod Tools
pub mod Activity
pub mod Invocation
pub mod Agent
pub mod LlmGuards
pub mod Streaming
pub mod Providers
pub mod Chat
pub mod Registry
pub mod Tests
