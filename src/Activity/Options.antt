-- ===== src/Activity/Options.antt =====
-- agent_harness/activity_options.py: the options of an activity. The values are of types of Temporal
-- and are only copied: they are of one type here.
pub mod Overrides
use temporal_agent_harness_e.Prelude.{String, Option, none, some, List, [], ◌∷◌, cons_some}
use temporal_agent_harness_e.Invocation.{Mapping, lookup}

pub record ActivityOptions {ℓ} (A : Type ℓ) : Type ℓ where
  pub task_queue : Option A
  pub schedule_to_close_timeout : Option A
  pub schedule_to_start_timeout : Option A
  pub start_to_close_timeout : Option A
  pub heartbeat_timeout : Option A
  pub retry_policy : Option A
  pub cancellation_type : Option A
  pub versioning_intent : Option A
  pub priority : Option A

-- the fields, for getattr
pub data Field : Type 0 where
  task_queue : Field
  schedule_to_close : Field
  schedule_to_start : Field
  start_to_close : Field
  heartbeat : Field
  retry : Field
  cancellation : Field
  versioning : Field
  priority : Field

abbrev pub field_name : Field → String
field_name task_queue = "task_queue"
field_name schedule_to_close = "schedule_to_close_timeout"
field_name schedule_to_start = "schedule_to_start_timeout"
field_name start_to_close = "start_to_close_timeout"
field_name heartbeat = "heartbeat_timeout"
field_name retry = "retry_policy"
field_name cancellation = "cancellation_type"
field_name versioning = "versioning_intent"
field_name priority = "priority"

abbrev pub fields : List Field
fields =
    task_queue ∷ schedule_to_close ∷ schedule_to_start ∷ start_to_close ∷ heartbeat ∷ retry
    ∷ cancellation ∷ versioning ∷ priority ∷ []

module _ {ℓ} {A : Type ℓ} where
  -- `old if new is None else new`
  abbrev pub replaced : Option A → Option A → Option A
  replaced old none = old
  replaced old (some v) = some v

  unfoldable pub getattr : ActivityOptions A → Field → Option A
  getattr o task_queue = o.task_queue
  getattr o schedule_to_close = o.schedule_to_close_timeout
  getattr o schedule_to_start = o.schedule_to_start_timeout
  getattr o start_to_close = o.start_to_close_timeout
  getattr o heartbeat = o.heartbeat_timeout
  getattr o retry = o.retry_policy
  getattr o cancellation = o.cancellation_type
  getattr o versioning = o.versioning_intent
  getattr o priority = o.priority

  -- with_overrides; its keyword arguments are the second record
  unfoldable pub with_overrides : ActivityOptions A → ActivityOptions A → ActivityOptions A
  with_overrides o new = record {
    task_queue = replaced o.task_queue new.task_queue;
    schedule_to_close_timeout = replaced o.schedule_to_close_timeout new.schedule_to_close_timeout;
    schedule_to_start_timeout = replaced o.schedule_to_start_timeout new.schedule_to_start_timeout;
    start_to_close_timeout = replaced o.start_to_close_timeout new.start_to_close_timeout;
    heartbeat_timeout = replaced o.heartbeat_timeout new.heartbeat_timeout;
    retry_policy = replaced o.retry_policy new.retry_policy;
    cancellation_type = replaced o.cancellation_type new.cancellation_type;
    versioning_intent = replaced o.versioning_intent new.versioning_intent;
    priority = replaced o.priority new.priority;
  }

  abbrev pub named : String → Option A → Option (String × A)
  named name none = none
  named name (some v) = some (name, v)

  unfoldable pub set_fields : ActivityOptions A → List Field → Mapping A
  unfolding getattr
  set_fields o [] = []
  set_fields o (f ∷ fs) = cons_some (named (field_name f) (getattr o f)) (set_fields o fs)

  unfoldable pub to_execute_activity_kwargs : ActivityOptions A → Mapping A
  unfolding set_fields
  to_execute_activity_kwargs o = set_fields o fields

  -- the keyword arguments that `**kwargs` stands for
  unfoldable pub keyword_arguments : Mapping A → ActivityOptions A
  unfolding lookup
  keyword_arguments kwargs = record {
    task_queue = lookup "task_queue" kwargs;
    schedule_to_close_timeout = lookup "schedule_to_close_timeout" kwargs;
    schedule_to_start_timeout = lookup "schedule_to_start_timeout" kwargs;
    start_to_close_timeout = lookup "start_to_close_timeout" kwargs;
    heartbeat_timeout = lookup "heartbeat_timeout" kwargs;
    retry_policy = lookup "retry_policy" kwargs;
    cancellation_type = lookup "cancellation_type" kwargs;
    versioning_intent = lookup "versioning_intent" kwargs;
    priority = lookup "priority" kwargs;
  }

  unfoldable pub activity_options_with_overrides :
      ActivityOptions A → Option (ActivityOptions A) → ActivityOptions A → ActivityOptions A
  unfolding with_overrides to_execute_activity_kwargs keyword_arguments
  activity_options_with_overrides defaults none explicit = with_overrides defaults explicit
  activity_options_with_overrides defaults (some o) explicit =
      with_overrides (with_overrides defaults (keyword_arguments (to_execute_activity_kwargs o)))
        explicit
