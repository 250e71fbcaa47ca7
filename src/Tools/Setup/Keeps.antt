-- ===== src/Tools/Setup/Keeps.antt =====
-- A registration of agent_harness/tools.py keeps what each new tool and each new guard keeps.
use temporal_agent_harness_e.Prelude.{
  ℕ, String, ◌≡◌, refl, Bool, true, false, Option, none, some, List, [], ◌∷◌, if◌then◌else◌,
}
use temporal_agent_harness_e.Prelude.Outcome.{Outcome, ok, raise}
use temporal_agent_harness_e.Json.{Dict}
use temporal_agent_harness_e.Guards.{normalize_tool_category, tool_category_set, GuardDef}
use temporal_agent_harness_e.Tools.{ArgsMode, signature, raw, ToolDef, find, ToolSet}
use temporal_agent_harness_e.Tools.Setup.{
  Setup, continue, and_then, give, fail, lift, gets, GuardReference, by_function, by_name,
  GuardMetadata, ToolMetadata, Functions, register_guard, resolve_guard_refs, register_tool,
  add_decorated, add_tool, add_guard, add_dynamic_tool, add_provider,
}
use temporal_agent_harness_e.Prelude.Outcome.{Fault}
use temporal_agent_harness_e.Tools.Setup.{
  store_guard, define_guard, define_tool, categorised, add_guard_def, store_tool, described_guard,
  known_guard, or_registered, resolve_guard_ref, schema_or, missing_or, require_metadata,
  note_guard, provider_guards_of, offer_tool, provider_tools_of,
}

-- `m` keeps `P`, whether it returns or raises.
pub record Keeps {ℓ} {A : Type ℓ} (P : ToolSet → Type 0) (m : Setup A) : Type ℓ where
  pub at : (s : ToolSet) → P s → P (m s).1

module _ {ℓ} {A : Type ℓ} {P : ToolSet → Type 0} where
  Keeps-give : (a : A) → Keeps P (give a)
  unfolding give
  Keeps-give a = record { at = λ s h. h }

  Keeps-fail : (e : Fault) → Keeps P (fail {A = A} e)
  unfolding fail
  Keeps-fail e = record { at = λ s h. h }

  Keeps-lift : (r : Outcome A) → Keeps P (lift r)
  unfolding lift
  Keeps-lift r = record { at = λ s h. h }

  Keeps-gets : (g : ToolSet → A) → Keeps P (gets g)
  unfolding gets
  Keeps-gets g = record { at = λ s h. h }

  Keeps-if : (b : Bool) (m n : Setup A) → Keeps P m → Keeps P n → Keeps P (if b then m else n)
  Keeps-if true m n hm hn = hm
  Keeps-if false m n hm hn = hn

module _ {ℓ κ} {A : Type ℓ} {B : Type κ} {P : ToolSet → Type 0} where
  Keeps-continue :
      (r : Outcome A) (f : A → Setup B) (s : ToolSet)
      → ((a : A) → Keeps P (f a))
      → P s
      → P (continue r f s).1
  Keeps-continue (ok a) f s hf h = (hf a).at s h
  Keeps-continue (raise e) f s hf h = h

  Keeps-and_then :
      (m : Setup A) (f : A → Setup B)
      → Keeps P m
      → ((a : A) → Keeps P (f a))
      → Keeps P (and_then m f)
  unfolding and_then
  Keeps-and_then m f hm hf = record {
    at = λ s h. let (r, t) = m s in Keeps-continue r f t hf (hm.at s h);
  }

ruleset keeps_rules = (Keeps-give, Keeps-fail, Keeps-lift, Keeps-gets, Keeps-if, Keeps-and_then)

-- The ways to register from outside.
pub data Registration : Type 0 where
  tools_of : List ℕ → Registration
  guards_of : List ℕ → Registration
  provider : List ℕ → Option (List String) → List String → Registration
  dynamic :
      String → String → Dict → String → ℕ → List GuardReference → List GuardReference → Registration

unfoldable pub register : Functions → Registration → Setup (Unit {0})
register f (tools_of fns) = add_tool f fns
register f (guards_of fns) = add_guard f fns
register f (provider methods included excluded) = add_provider f methods included excluded
register f (dynamic name description schema tool_type fn pres posts) =
    add_dynamic_tool f name description schema tool_type fn pres posts

-- What an outcome decides without a change of the tool set.
Keeps-lifted {ℓ κ} :
    {A : Type ℓ} {B : Type κ} (P : ToolSet → Type 0) (r : Outcome A) (g : A → Setup B) (s : ToolSet)
    → P s
    → ((a : A) → P (g a s).1)
    → P (and_then (lift r) g s).1
unfolding and_then lift
Keeps-lifted P (ok a) g s h hg = hg a
Keeps-lifted P (raise e) g s h hg = h

module _ (f : Functions) (P : ToolSet → Type 0)
    (new_guard : (d : GuardDef) (s : ToolSet)
      → find d.name s.guards ≡ none
      → P s
      → P (store_guard d s).1)
    (new_tool : (t : ToolDef) (s : ToolSet)
      → find t.name s.tools ≡ none
      → P s
      → P (store_tool t s).1) where
  add_guard_def-at :
      (fn : ℕ) (m : GuardMetadata) (o : Option GuardDef) (s : ToolSet)
      → find m.name s.guards ≡ o
      → P s
      → P (add_guard_def fn m o s).1
  unfolding add_guard_def
  add_guard_def-at fn m (some d) s e h = h
  add_guard_def-at fn m none s e h =
      Keeps-lifted P (tool_category_set m.fulfills) (define_guard fn m) s h
        λ categories. new_guard (record { name = m.name; fulfills = categories; fn = fn }) s e h

  described_guard-Keeps : (fn : ℕ) (o : Option GuardMetadata) → Keeps P (described_guard f fn o)
  unfolding described_guard
  described_guard-Keeps fn none = search keeps_rules
  described_guard-Keeps fn (some m) = record {
    at = λ s h. add_guard_def-at fn m (find m.name s.guards) s refl h;
  }

  known_guard-Keeps : (fn : ℕ) (o : Option GuardDef) → Keeps P (known_guard f fn o)
  unfolding known_guard
  known_guard-Keeps fn none = described_guard-Keeps fn (f.guard_metadata fn)
  known_guard-Keeps fn (some d) = search keeps_rules

  register_guard-Keeps : (fn : ℕ) → Keeps P (register_guard f fn)
  unfolding register_guard
  register_guard-Keeps fn = search (keeps_rules, known_guard-Keeps)

  or_registered-Keeps : (name : String) (o p : Option GuardDef) → Keeps P (or_registered f name o p)
  unfolding or_registered
  or_registered-Keeps name (some d) p = search keeps_rules
  or_registered-Keeps name none (some d) = search keeps_rules
  or_registered-Keeps name none none = search keeps_rules

  resolve_guard_ref-Keeps :
      (known : List (String × GuardDef)) (r : GuardReference)
      → Keeps P (resolve_guard_ref f known r)
  unfolding resolve_guard_ref
  resolve_guard_ref-Keeps known (by_name n) =
      Keeps-and_then _ _ (Keeps-gets _) (or_registered-Keeps n (find n known))
  resolve_guard_ref-Keeps known (by_function fn) = register_guard-Keeps fn

  resolve_guard_refs-Keeps :
      (rs : List GuardReference) (known : List (String × GuardDef))
      → Keeps P (resolve_guard_refs f rs known)
  unfolding resolve_guard_refs
  resolve_guard_refs-Keeps [] known = Keeps-give []
  resolve_guard_refs-Keeps (r ∷ rs) known =
      Keeps-and_then _ _ (resolve_guard_ref-Keeps known r)
        λ d. Keeps-and_then _ _ (resolve_guard_refs-Keeps rs known) λ ds. Keeps-give (d ∷ ds)

  register_tool-at :
      (name description tool_type : String) (fn : ℕ) (pres posts : List GuardDef)
      (schema : Option Dict) (mode : ArgsMode) (o : Option ToolDef) (s : ToolSet)
      → find name s.tools ≡ o
      → P s
      → P (register_tool f name description tool_type fn pres posts schema mode o s).1
  unfolding register_tool fail
  register_tool-at name description tool_type fn pres posts schema mode (some t) s e h = h
  register_tool-at name description tool_type fn pres posts schema mode none s e h =
      Keeps-lifted P (schema_or f schema fn)
        (categorised name description tool_type fn pres posts mode) s h
        λ input.
          Keeps-lifted P (normalize_tool_category tool_type)
            (define_tool name description fn pres posts mode input) s h
            λ category.
              new_tool
                (record {
                  name = name;
                  description = description;
                  input_schema = input;
                  tool_type = category;
                  fn = fn;
                  pre_guards = pres;
                  post_guards = posts;
                  args_mode = mode;
                })
                s e h

  register_new-Keeps :
      (name description tool_type : String) (fn : ℕ) (pres posts : List GuardDef)
      (schema : Option Dict) (mode : ArgsMode)
      → Keeps P (
          and_then
            (gets (λ s. find name s.tools))
            (register_tool f name description tool_type fn pres posts schema mode))
  register_new-Keeps name description tool_type fn pres posts schema mode = record {
    at = λ s h.
        unfold and_then gets in
        register_tool-at name description tool_type fn pres posts schema mode (find name s.tools) s
          refl h;
  }

  add_decorated-Keeps :
      (fn : ℕ) (m : ToolMetadata) (known : List (String × GuardDef))
      → Keeps P (add_decorated f fn m known)
  unfolding add_decorated
  add_decorated-Keeps fn m known =
      Keeps-and_then _ _ (resolve_guard_refs-Keeps m.pre_guards known) λ pres.
        Keeps-and_then _ _ (resolve_guard_refs-Keeps m.post_guards known)
          λ posts. register_new-Keeps m.name m.description m.tool_type fn pres posts none signature

  missing_or-Keeps : (fn : ℕ) (o : Option ToolMetadata) → Keeps P (missing_or f fn o)
  unfolding missing_or
  missing_or-Keeps fn none = search keeps_rules
  missing_or-Keeps fn (some m) = add_decorated-Keeps fn m []

  add_tool-Keeps : (fns : List ℕ) → Keeps P (add_tool f fns)
  unfolding add_tool
  add_tool-Keeps [] = Keeps-give tt
  add_tool-Keeps (fn ∷ fns) =
      Keeps-and_then _ _ (missing_or-Keeps fn (f.tool_metadata fn)) λ _. add_tool-Keeps fns

  require_metadata-Keeps : (o : Option GuardMetadata) → Keeps P (require_metadata f o)
  unfolding require_metadata
  require_metadata-Keeps none = search keeps_rules
  require_metadata-Keeps (some m) = search keeps_rules

  add_guard-Keeps : (fns : List ℕ) → Keeps P (add_guard f fns)
  unfolding add_guard
  add_guard-Keeps [] = Keeps-give tt
  add_guard-Keeps (fn ∷ fns) =
      Keeps-and_then _ _ (require_metadata-Keeps (f.guard_metadata fn))
        λ _. Keeps-and_then _ _ (register_guard-Keeps fn) λ _. add_guard-Keeps fns

  note_guard-Keeps :
      (fn : ℕ) (known : List (String × GuardDef)) (o : Option GuardMetadata)
      → Keeps P (note_guard f fn known o)
  unfolding note_guard
  note_guard-Keeps fn known none = search keeps_rules
  note_guard-Keeps fn known (some m) = search (keeps_rules, register_guard-Keeps)

  provider_guards_of-Keeps :
      (fns : List ℕ) (known : List (String × GuardDef)) → Keeps P (provider_guards_of f fns known)
  unfolding provider_guards_of
  provider_guards_of-Keeps [] known = Keeps-give known
  provider_guards_of-Keeps (fn ∷ fns) known =
      Keeps-and_then _ _ (note_guard-Keeps fn known (f.guard_metadata fn))
        (provider_guards_of-Keeps fns)

  offer_tool-Keeps :
      (included : Option (List String)) (excluded : List String) (known : List (String × GuardDef))
      (fn : ℕ) (o : Option ToolMetadata)
      → Keeps P (offer_tool f included excluded known fn o)
  unfolding offer_tool
  offer_tool-Keeps included excluded known fn none = search keeps_rules
  offer_tool-Keeps included excluded known fn (some m) = search (keeps_rules, add_decorated-Keeps)

  provider_tools_of-Keeps :
      (included : Option (List String)) (excluded : List String) (known : List (String × GuardDef))
      (fns : List ℕ)
      → Keeps P (provider_tools_of f included excluded known fns)
  unfolding provider_tools_of
  provider_tools_of-Keeps included excluded known [] = Keeps-give tt
  provider_tools_of-Keeps included excluded known (fn ∷ fns) =
      Keeps-and_then _ _ (offer_tool-Keeps included excluded known fn (f.tool_metadata fn))
        λ _. provider_tools_of-Keeps included excluded known fns

  add_provider-Keeps :
      (methods : List ℕ) (included : Option (List String)) (excluded : List String)
      → Keeps P (add_provider f methods included excluded)
  unfolding add_provider
  add_provider-Keeps methods included excluded =
      Keeps-and_then _ _ (provider_guards_of-Keeps methods [])
        λ known. provider_tools_of-Keeps included excluded known methods

  add_dynamic_tool-Keeps :
      (name description : String) (schema : Dict) (tool_type : String) (fn : ℕ)
      (pres posts : List GuardReference)
      → Keeps P (add_dynamic_tool f name description schema tool_type fn pres posts)
  unfolding add_dynamic_tool
  add_dynamic_tool-Keeps name description schema tool_type fn pres posts =
      Keeps-and_then _ _ (resolve_guard_refs-Keeps pres []) λ pre_defs.
        Keeps-and_then _ _ (resolve_guard_refs-Keeps posts []) λ post_defs.
          register_new-Keeps name description tool_type fn pre_defs post_defs (some schema) raw

  pub register-Keeps : (r : Registration) → Keeps P (register f r)
  unfolding register
  register-Keeps (tools_of fns) = add_tool-Keeps fns
  register-Keeps (guards_of fns) = add_guard-Keeps fns
  register-Keeps (provider methods included excluded) = add_provider-Keeps methods included excluded
  register-Keeps (dynamic name description schema tool_type fn pres posts) =
      add_dynamic_tool-Keeps name description schema tool_type fn pres posts
