-- ===== src/Core/Manifest.antt =====
-- The schemas of crates/assistant-core/src/manifest.rs, and the diagnostics of validate.rs.
use assistant_platform.Base.{ℕ, String, Bool, List}

pub record ModuleNode : Type 0 where
  pub id : String
  pub depends_on : List String

pub record PlatformManifest : Type 0 where
  pub platform_id : String
  pub platform_version : String
  pub runner_protocol_version : String
  pub generated_manifest_schema_version : String
  pub base_container_image_contract_version : String
  pub conformance_suite_version : String
  pub modules : List ModuleNode

pub record ProductManifest : Type 0 where
  pub product_id : String
  pub product_name : String
  pub product_version : String
  pub compatible_platform_version : String
  pub orchestrator_profile_id : String
  pub orchestrator_profile_version : String
  pub enabled_modules : List String

pub record PromptFragment : Type 0 where
  pub id : String
  pub owner_module : String
  pub version : String
  pub target_agent_kind : String
  pub parameters : List String
  pub depends_on : List String
  pub order : ℕ
  pub override_rules : String
  pub conformance_assertions : List String

pub record PromptFragmentManifest : Type 0 where
  pub fragments : List PromptFragment

pub data DiagnosticCode : Type 0 where
  duplicate_module_id missing_module_id module_graph_cycle unknown_enabled_module : DiagnosticCode
  duplicate_fragment_id unknown_fragment_owner_module : DiagnosticCode
  unknown_fragment_dependency invalid_fragment_ordering fragment_dependency_cycle : DiagnosticCode
  missing_contract_file contract_missing_section incompatible_platform_version : DiagnosticCode

-- The names that the message shows stand in the order in which it shows them.
pub record Diagnostic : Type 0 where
  pub code : DiagnosticCode
  pub names : List String

abbrev pub new_diagnostic : DiagnosticCode → List String → Diagnostic
new_diagnostic code names = record { code = code; names = names }

pub record ContractCoverage : Type 0 where
  pub present_sections : List String

pub record CompatibilityReport : Type 0 where
  pub ok : Bool
  pub product_id : String
  pub product_version : String
  pub platform_id : String
  pub platform_version : String
  pub diagnostics : List Diagnostic
