-- ===== src/Graph/Handoff.antt =====
-- crates/assistant-agent-graph/src/handoff.rs, but for the JSON of packets and results.
use Prim.Native.Char.{code}
use assistant_platform.Base.{
  ℕ, ltb, leb, ◌==◌, if◌then◌else◌, Result, ok, err, any, String, Bool, true, false, not, ◌&&◌,
  ◌||◌, Option, none, some, List, [], ◌∷◌,
}
use assistant_platform.Graph.Job.{JobBudget}

pub data RetentionLabel : Type 0 where
  ephemeral cite_only may_persist : RetentionLabel

pub record MemoryFact : Type 0 where
  pub text : String
  pub source : Option String
  pub retention : RetentionLabel

pub record ScopeLabels : Type 0 where
  pub user : Option String
  pub channel : Option String
  pub group : Option String
  pub privacy : List String

pub record CredentialPolicy : Type 0 where
  pub allowed_scopes : List String
  pub browser_session_allowed : Bool

pub record HandoffPacket : Type 0 where
  pub goal : String
  pub expected_result_schema : Option String
  pub facts : List MemoryFact
  pub scope : ScopeLabels
  pub attachments : List String
  pub constraints : List String
  pub non_goals : List String
  pub credential_policy : CredentialPolicy
  pub budget_hint : JobBudget

unfoldable pub new_packet : String → HandoffPacket
new_packet goal = record {
  goal = goal;
  expected_result_schema = none;
  facts = [];
  scope = record { user = none; channel = none; group = none; privacy = [] };
  attachments = [];
  constraints = [];
  non_goals = [];
  credential_policy = record { allowed_scopes = []; browser_session_allowed = false };
  budget_hint = record { max_tokens = none; max_wall_secs = none };
}

pub data SpecialistStatus : Type 0 where
  completed partial failed cancelled timed_out : SpecialistStatus

pub record ResultArtifact : Type 0 where
  pub artifact_id : String
  pub kind : String
  pub by_reference : Bool
  pub size_bytes : Option ℕ

pub record SpecialistResult : Type 0 where
  pub status : SpecialistStatus
  pub summary : String
  pub answer : String
  pub evidence : List String
  pub artifacts : List ResultArtifact
  pub credential_state_changes : List String
  pub follow_ups : List String

unfoldable pub new_result : SpecialistStatus → String → SpecialistResult
new_result status summary = record {
  status = status;
  summary = summary;
  answer = "";
  evidence = [];
  artifacts = [];
  credential_state_changes = [];
  follow_ups = [];
}

pub data HandoffError : Type 0 where
  empty_goal empty_fact_text : HandoffError

-- `char::is_whitespace`: the Unicode property White_Space.
unfoldable pub is_whitespace : ℕ → Bool
is_whitespace c =
    leb 9 c && leb c 13
    || c == 32
    || c == 0x85
    || c == 0xa0
    || c == 0x1680
    || leb 0x2000 c && leb c 0x200a
    || c == 0x2028
    || c == 0x2029
    || c == 0x202f
    || c == 0x205f
    || c == 0x3000

-- `s.trim().is_empty()`
unfoldable pub is_blank : String → Bool
unfolding is_whitespace
is_blank String.[] = true
is_blank (String.◌∷◌ c s) = is_whitespace (code c) && is_blank s

unfoldable pub validate_handoff : HandoffPacket → Result HandoffError (Unit {0})
validate_handoff packet =
    if is_blank packet.goal
    then err empty_goal
    else if any (λ f. is_blank f.text) packet.facts
    then err empty_fact_text
    else ok tt

pub data ArtifactPolicyError : Type 0 where
  not_by_reference : String → ArtifactPolicyError
  too_large : String → ℕ → ℕ → ArtifactPolicyError

-- One round of the loop: `none` goes on to the next artifact.
abbrev pub check_artifact : ResultArtifact → ℕ → Option ArtifactPolicyError
check_artifact a max_bytes =
    if not a.by_reference then some (not_by_reference a.artifact_id) else elim a.size_bytes [
      | none ↦ none
      | some size ↦
          if ltb max_bytes size then some (too_large a.artifact_id size max_bytes) else none
    ]

unfoldable pub check_artifacts : List ResultArtifact → ℕ → Result ArtifactPolicyError (Unit {0})
check_artifacts [] max_bytes = ok tt
check_artifacts (a ∷ rest) max_bytes =
    let later = check_artifacts rest max_bytes in
    elim (check_artifact a max_bytes) [ some e ↦ err e | none ↦ later ]

unfoldable pub artifacts_within_policy :
    SpecialistResult → ℕ → Result ArtifactPolicyError (Unit {0})
unfolding check_artifacts
artifacts_within_policy result max_bytes = check_artifacts result.artifacts max_bytes
