-- ===== src/Permissions/Standing.antt =====
-- crates/assistant-permissions/src/standing.rs. The Unicode tables of `str::to_lowercase` are the
-- parameter `lowercase`.
use text.Mathlib.Text.{starts_with, find?}
use assistant_platform.Base.{
  ℕ, String, Bool, not, ◌&&◌, ◌||◌, Option, none, some, List, [], ◌∷◌, ◌++◌, map, str_eq,
  if◌then◌else◌, ◌==◌, ok, err, select, any, order_desc, update, RowIds, is_some,
}
use Prim.Native.String.{◌++◌ as concat}
use assistant_platform.Permissions.Model.{InstructionRow, Conn}
use assistant_platform.Permissions.Store.{Return}
use assistant_platform.Permissions.Access.{require_admin}

pub data InstructionClass : Type 0 where
  persistent_instruction memory_update code_tool_invariant : InstructionClass

pub record StandingInstruction : Type 0 where
  pub id : ℕ
  pub user_id : ℕ
  pub scope : String
  pub body : String
  pub active : Bool

pub record CaptureOutcome : Type 0 where
  pub class : InstructionClass
  pub stored_id : Option ℕ
  pub memory_update : Option String
  pub invariant_report : Option String

abbrev pub hard_constraint_terms : List String
hard_constraint_terms = "never" ∷ "always" ∷ "must" ∷ "don't" ∷ "do not" ∷ "ensure" ∷ "no " ∷ []

abbrev pub code_tool_terms : List String
code_tool_terms =
    "code" ∷ "commit" ∷ "deploy" ∷ "test" ∷ "build" ∷ "lint" ∷ " ci" ∷ "tool" ∷ "command"
    ∷ "migration" ∷ "branch" ∷ "merge" ∷ "production" ∷ "secret" ∷ "pipeline" ∷ []

abbrev contains : String → String → Bool
contains s t = is_some (find? s t)

unfoldable pub classify : (String → String) → String → InstructionClass
classify lowercase text =
    let lower = lowercase text in
    let hard = any (contains lower) hard_constraint_terms in
    let code_tool = any (contains lower) code_tool_terms in
    if hard && code_tool
    then code_tool_invariant
    else if hard
        || starts_with lower "from now on"
        || contains lower "whenever"
        || starts_with lower "please always"
    then persistent_instruction
    else memory_update

abbrev pub outcome : InstructionClass → Option ℕ → Option String → Option String → CaptureOutcome
outcome class stored update report = record {
  class = class;
  stored_id = stored;
  memory_update = update;
  invariant_report = report;
}

-- The rows after INSERT INTO standing_instructions; `active` is 1 by default.
abbrev pub insert_instruction : Conn → ℕ → ℕ → String → String → Conn
insert_instruction c id actor scope body = record c {
  standing_instructions =
      c.standing_instructions
      ++ record { id = id; user_id = actor; scope = scope; body = body; active = 1 } ∷ [];
}

-- The `match class` of `capture_as`, after the gate.
unfoldable pub route :
    RowIds → Conn → ℕ → String → String → InstructionClass → Return CaptureOutcome
route ids c actor scope body persistent_instruction =
    let id = ids.next (map (λ r. r.id) c.standing_instructions) in
    (
      ok (outcome persistent_instruction (some id) none none),
      insert_instruction c id actor scope body,
    )
route ids c actor scope body memory_update = (ok (outcome memory_update none (some body) none), c)
route ids c actor scope body code_tool_invariant = (
  ok (
      outcome code_tool_invariant none none (
        some (
          concat
            "instruction implies a code/tool invariant; encode and verify it rather than relying on memory: "
            body))),
  c,
)

unfoldable pub capture_as :
    RowIds → Conn → ℕ → String → String → InstructionClass → Return CaptureOutcome
unfolding route
capture_as ids c actor scope body class = elim (require_admin c actor) [
  | err e ↦ (err e, c)
  | ok _ ↦ route ids c actor scope body class
]

unfoldable pub capture :
    (String → String) → RowIds → Conn → ℕ → String → String → Return CaptureOutcome
unfolding capture_as
capture lowercase ids c actor scope body =
    capture_as ids c actor scope body (classify lowercase body)

abbrev pub read_instruction : InstructionRow → StandingInstruction
read_instruction r = record {
  id = r.id;
  user_id = r.user_id;
  scope = r.scope;
  body = r.body;
  active = not (r.active == 0);
}

-- The two SELECTs: with a scope and without one.
abbrev pub is_active_in : Option String → InstructionRow → Bool
is_active_in (some scope) r = r.active == 1 && str_eq r.scope scope
is_active_in none r = r.active == 1

unfoldable pub active_standing_instructions : Conn → Option String → List StandingInstruction
active_standing_instructions c scope =
    map read_instruction
      (order_desc (λ r. r.id) (select (is_active_in scope) c.standing_instructions))

unfoldable pub deactivate : Conn → ℕ → ℕ → Return (Unit {0})
deactivate c actor id = elim (require_admin c actor) [
  | err e ↦ (err e, c)
  | ok _ ↦ (
    ok tt,
    record c {
      standing_instructions =
          update (λ r. r.id == id) (λ r. record r { active = 0 }) c.standing_instructions;
    },
  )
]
