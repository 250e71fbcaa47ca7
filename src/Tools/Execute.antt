-- ===== src/Tools/Execute.antt =====
-- ToolSet.execute_tool of agent_harness/tools.py: no tool runs past its guards.
use temporal_agent_harness_e.Prelude.{
  suc, String, ◌≡◌, refl, ap, ◌∙◌, ◌≢◌, true, false, ◌&&◌, Option, none, some, [], ◌∷◌, ◌++◌, arith,
  is_empty,
}
use temporal_agent_harness_e.Prelude.Text.{contains}
use temporal_agent_harness_e.Prelude.Outcome.{Outcome, ok, raise}
use temporal_agent_harness_e.Json.{Dict}
use temporal_agent_harness_e.Guards.{
  GuardTiming, pre, post, GuardDef, GuardResult, validate_tool_guards, tool_ran, History,
  GuardContext, Run, execute_guards, ToolResult,
}
use temporal_agent_harness_e.Guards.Policy.{AllFulfill, validate_tool_guards_iff}
use temporal_agent_harness_e.Guards.Runs.{
  tool_runs, tool_runs-append, AllPassed, execute_guards-AllPassed, tool_runs-execute_guards,
}
use temporal_agent_harness_e.Tools.{ToolDef, ToolSet, get_tool}

abbrev failed : Dict → ToolResult
failed payload = record { payload = payload; error = true }

unfoldable pub after_post :
    ToolResult → Outcome (Option Dict) × History → Outcome ToolResult × History
after_post r (raise e, h) = (raise e, h)
after_post r (ok none, h) = (ok r, h)
after_post r (ok (some payload), h) = (ok (failed payload), h)

module _ (answer : GuardTiming → GuardDef → GuardContext → History → Outcome GuardResult)
    (call_tool : ToolDef → Dict → History → Outcome ToolResult) where
  unfoldable pub after_tool : ToolDef → GuardContext → Outcome ToolResult → Run ToolResult
  after_tool t ctx (raise e) h = (raise e, h)
  after_tool t ctx (ok r) h =
      after_post r
        (execute_guards answer t.post_guards post (record ctx { tool_result = some r }) h)

  -- The tool function runs only where no pre guard failed or raised.
  unfoldable pub after_pre :
      ToolDef → GuardContext → Outcome (Option Dict) × History → Outcome ToolResult × History
  after_pre t ctx (raise e, h) = (raise e, h)
  after_pre t ctx (ok (some payload), h) = (ok (failed payload), h)
  after_pre t ctx (ok none, h) =
      after_tool t ctx (call_tool t ctx.tool_args h) (h ++ tool_ran ctx.tool_name ∷ [])

  context_for : String → ToolDef → Dict → GuardContext
  context_for name t args = record {
    tool_name = name;
    tool_type = t.tool_type;
    tool_args = args;
    tool_result = none;
  }

  guarded : ToolDef → GuardContext → Outcome (Unit {0}) → Run ToolResult
  unfolding after_pre
  guarded t ctx (raise e) h = (raise e, h)
  guarded t ctx (ok _) h = after_pre t ctx (execute_guards answer t.pre_guards pre ctx h)

  found_tool : ToolSet → String → Dict → Outcome ToolDef → Run ToolResult
  unfolding context_for guarded
  found_tool ts name args (raise e) h = (raise e, h)
  found_tool ts name args (ok t) h =
      guarded t (context_for name t args)
        (validate_tool_guards ts.policy t.tool_type t.pre_guards t.post_guards) h

  unfoldable pub execute_tool : ToolSet → String → Dict → Run ToolResult
  unfolding found_tool
  execute_tool ts name args = found_tool ts name args (get_tool ts name)

  after_post-history :
      (r : ToolResult) (p : Outcome (Option Dict) × History) → (after_post r p).1 ≡ p.1
  unfolding after_post
  after_post-history r (raise e, h) = refl
  after_post-history r (ok none, h) = refl
  after_post-history r (ok (some payload), h) = refl

  after_tool-tool_runs :
      (t : ToolDef) (ctx : GuardContext) (o : Outcome ToolResult) (h : History)
      → tool_runs (after_tool t ctx o h).1 ≡ tool_runs h
  unfolding after_tool
  after_tool-tool_runs t ctx (raise e) h = refl
  after_tool-tool_runs t ctx (ok r) h =
      ap tool_runs (after_post-history r _)
      ∙ tool_runs-execute_guards answer t.post_guards post (record ctx { tool_result = some r }) h

  -- What is certain once a tool function ran.
  pub record Guarded (ts : ToolSet) (name : String) (args : Dict) (h : History) (t : ToolDef)
      : Type 0 where
    pub registered : get_tool ts name ≡ ok t
    pub pre_present : contains ts.policy.required_pre t.tool_type && is_empty t.pre_guards ≡ false
    pub pre_fulfil : AllFulfill t.tool_type t.pre_guards
    pub post_fulfil : AllFulfill t.tool_type t.post_guards
    pub before : History
    pub passed :
        AllPassed answer pre
          (record {
            tool_name = name;
            tool_type = t.tool_type;
            tool_args = args;
            tool_result = none;
          })
          t.pre_guards
          h
          before
    pub once : tool_runs (execute_tool ts name args h).1 ≡ suc (tool_runs h)

  after_pre-runs :
      (t : ToolDef) (ctx : GuardContext) (h : History) (p : Outcome (Option Dict) × History)
      → tool_runs p.1 ≡ tool_runs h
      → tool_runs (after_pre t ctx p).1 ≢ tool_runs h
      → (p.0 ≡ ok none) × (tool_runs (after_pre t ctx p).1 ≡ suc (tool_runs h))
  unfolding after_pre
  after_pre-runs t ctx h (raise e, k) same ran = absurd (ran same)
  after_pre-runs t ctx h (ok (some payload), k) same ran = absurd (ran same)
  after_pre-runs t ctx h (ok none, k) same ran = (
    refl,
    omega (
      arith,
      after_tool-tool_runs t ctx (call_tool t ctx.tool_args k) (k ++ tool_ran ctx.tool_name ∷ []),
      tool_runs-append k (tool_ran ctx.tool_name ∷ []),
    ),
  )

  guarded-runs :
      (t : ToolDef) (ctx : GuardContext) (v : Outcome (Unit {0})) (h : History)
      → tool_runs (guarded t ctx v h).1 ≢ tool_runs h
      → (v ≡ ok tt)
        × ((execute_guards answer t.pre_guards pre ctx h).0 ≡ ok none)
        × (tool_runs (guarded t ctx v h).1 ≡ suc (tool_runs h))
  unfolding guarded
  guarded-runs t ctx (raise e) h ran = absurd (ran refl)
  guarded-runs t ctx (ok tt) h ran =
      let (none_failed, once) =
        after_pre-runs t ctx h (execute_guards answer t.pre_guards pre ctx h)
          (tool_runs-execute_guards answer t.pre_guards pre ctx h) ran in
      (refl, none_failed, once)

  found-Guarded :
      (ts : ToolSet) (name : String) (args : Dict) (h : History) (o : Outcome ToolDef)
      → get_tool ts name ≡ o
      → tool_runs (found_tool ts name args o h).1 ≢ tool_runs h
      → (t : ToolDef) × Guarded ts name args h t
  unfolding execute_tool context_for
  found-Guarded ts name args h (raise e) found ran = absurd (ran refl)
  found-Guarded ts name args h (ok t) found ran =
      let ctx = context_for name t args in
      let (valid, none_failed, once) =
        guarded-runs t ctx (validate_tool_guards ts.policy t.tool_type t.pre_guards t.post_guards) h
          ran in
      let (pre_present, _, pre_fulfil, post_fulfil) =
        (validate_tool_guards_iff ts.policy t.tool_type t.pre_guards t.post_guards).0 valid in
      let before = (execute_guards answer t.pre_guards pre ctx h).1 in
      (
        t,
        record {
          registered = found;
          pre_present = pre_present;
          pre_fulfil = pre_fulfil;
          post_fulfil = post_fulfil;
          before = before;
          passed =
              execute_guards-AllPassed answer t.pre_guards pre ctx h before
                (ap (λ (r : Outcome (Option Dict)). (r, before)) none_failed);
          once = rw found once;
        },
      )

  -- A call in which a tool function ran is a call of a registered tool whose guards the policy
  -- accepts: where the policy requires a pre guard for the tool's type there is one, all of its
  -- guards fulfil that type, every pre guard was asked before the tool and passed, and the tool
  -- function ran exactly once.
  pub execute_tool-Guarded :
      (ts : ToolSet) (name : String) (args : Dict) (h : History)
      → tool_runs (execute_tool ts name args h).1 ≢ tool_runs h
      → (t : ToolDef) × Guarded ts name args h t
  unfolding execute_tool
  execute_tool-Guarded ts name args h ran = found-Guarded ts name args h (get_tool ts name) refl ran
