-- ===== src/Tests/InvocationTests.antt =====
-- Tests of the keyword arguments of a function of the user and of the options of activities, and the witnesses of their properties.
use temporal_agent_harness_e.Prelude.{◌≡◌, refl, String, true, false, none, some, [], ◌∷◌}
use temporal_agent_harness_e.Prelude.Text.{contains}
use temporal_agent_harness_e.Prelude.Outcome.{ok, raise, type_error}
use temporal_agent_harness_e.Invocation.{
  Signature, Mapping, bind_keyword_arguments, kwargs_for_tool, kwargs_for_activity, lookup,
}
use temporal_agent_harness_e.Invocation.Binding.{
  Decides, accepts, arguments, bind_keyword_arguments-Decides,
}
use temporal_agent_harness_e.Activity.Options.{
  ActivityOptions, Field, field_name, getattr, replaced, activity_options_with_overrides,
  to_execute_activity_kwargs,
}
use temporal_agent_harness_e.Activity.Options.Overrides.{
  given_option, lookup-activity_options_with_overrides,
}

-- def fetch(self, ctx: ToolContext, url: str, limit: int = 10)
abbrev fetch : Signature
fetch = record {
  name = "fetch";
  parameters =
      record { name = "self"; annotation = ""; has_default = false }
      ∷ record { name = "ctx"; annotation = "ToolContext"; has_default = false }
      ∷ record { name = "url"; annotation = "str"; has_default = false }
      ∷ record { name = "limit"; annotation = "int"; has_default = true }
      ∷ [];
}

-- def download(ctx: RoutedActivityContext)
abbrev download : Signature
download = record {
  name = "download";
  parameters =
      record { name = "ctx"; annotation = "RoutedActivityContext"; has_default = false } ∷ [];
}

abbrev given : Mapping String
given = ("url", "a.org") ∷ []

kept :
    kwargs_for_tool {A = String} fetch "context" given
    ≡ ok (("ctx", "context") ∷ ("url", "a.org") ∷ [])
unfolding kwargs_for_tool lookup contains
kept = refl

missing_url :
    kwargs_for_tool {A = String} fetch "context" []
    ≡ raise (type_error "Missing required tool argument fetch.url")
unfolding kwargs_for_tool lookup contains
missing_url = refl

names_are_sorted :
    kwargs_for_tool {A = String} fetch "context" (("z", "1") ∷ ("url", "a.org") ∷ ("ctx", "2") ∷ [])
    ≡ raise (type_error "Unexpected tool argument(s) for fetch: ctx, z")
unfolding kwargs_for_tool lookup contains
names_are_sorted = refl

missing_context :
    kwargs_for_activity {A = String} download "stream" [] none
    ≡ raise (type_error "download.ctx requires a routed activity context")
unfolding kwargs_for_activity lookup contains
missing_context = refl

present_context :
    kwargs_for_activity {A = String} download "stream" [] (some "context")
    ≡ ok (("ctx", "context") ∷ [])
unfolding kwargs_for_activity lookup contains
present_context = refl

bind_keyword_arguments-Decides_example :
    Decides
      (accepts fetch given (("ToolContext", "context") ∷ []) [] "tool" true)
      (arguments fetch given (("ToolContext", "context") ∷ []) [] "tool" fetch.parameters)
      (bind_keyword_arguments fetch given (("ToolContext", "context") ∷ []) [] "tool" true)
bind_keyword_arguments-Decides_example =
    bind_keyword_arguments-Decides fetch given (("ToolContext", "context") ∷ []) [] "tool" true

abbrev no_options : ActivityOptions String
no_options = record {
  task_queue = none;
  schedule_to_close_timeout = none;
  schedule_to_start_timeout = none;
  start_to_close_timeout = none;
  heartbeat_timeout = none;
  retry_policy = none;
  cancellation_type = none;
  versioning_intent = none;
  priority = none;
}

abbrev default_options : ActivityOptions String
default_options = record no_options { start_to_close_timeout = some "5m"; task_queue = some "main" }

abbrev tool_options : ActivityOptions String
tool_options = record no_options { start_to_close_timeout = some "1m"; retry_policy = some "once" }

abbrev call_options : ActivityOptions String
call_options = record no_options { retry_policy = some "never" }

merged :
    to_execute_activity_kwargs
      (activity_options_with_overrides default_options (some tool_options) call_options)
    ≡ ("task_queue", "main") ∷ ("start_to_close_timeout", "1m") ∷ ("retry_policy", "never") ∷ []
unfolding to_execute_activity_kwargs activity_options_with_overrides
merged = refl

lookup-activity_options_with_overrides_example :
    lookup (field_name Field.retry) (
      to_execute_activity_kwargs
        (activity_options_with_overrides default_options (some tool_options) call_options))
    ≡ replaced
        (replaced
          (getattr default_options Field.retry)
          (given_option (some tool_options) Field.retry))
        (getattr call_options Field.retry)
lookup-activity_options_with_overrides_example =
    lookup-activity_options_with_overrides default_options (some tool_options) call_options
      Field.retry
