-- ===== src/Core/Tests.antt =====
-- A release of two modules and a product built against it.
use assistant_platform.Base.{ℕ, String, ◌≡◌, refl, ◌↔◌, true, some, List, [], ◌∷◌}
use assistant_platform.Core.Manifest.{
  PlatformManifest, ProductManifest, PromptFragment, PromptFragmentManifest,
  invalid_fragment_ordering, new_diagnostic, CompatibilityReport,
}
use assistant_platform.Core.Validate.{
  required_contract_sections, first_cycle_node, module_ids, validate_module_graph,
  validate_enabled_modules, validate_prompt_fragments, Contracts, check_contract_presence,
  check_version_compatibility, report_of, build_report,
}
use assistant_platform.Core.Report.{Compatible, build_report_exact}
use assistant_platform.Graph.Routing.{search_from, visit}

abbrev platform : PlatformManifest
platform = record {
  platform_id = "assistant-platform";
  platform_version = "7";
  runner_protocol_version = "1";
  generated_manifest_schema_version = "1";
  base_container_image_contract_version = "1";
  conformance_suite_version = "1";
  modules =
      record { id = "db"; depends_on = "core" ∷ [] } ∷ record { id = "core"; depends_on = [] } ∷ [];
}

abbrev fragment : String → List String → ℕ → PromptFragment
fragment id depends_on order = record {
  id = id;
  owner_module = "core";
  version = "1";
  target_agent_kind = "any";
  parameters = [];
  depends_on = depends_on;
  order = order;
  override_rules = "";
  conformance_assertions = [];
}

abbrev fragments : PromptFragmentManifest
fragments = record { fragments = fragment "b" ("a" ∷ []) 2 ∷ fragment "a" [] 1 ∷ [] }

abbrev product : ProductManifest
product = record {
  product_id = "personal";
  product_name = "Personal";
  product_version = "1";
  compatible_platform_version = "7";
  orchestrator_profile_id = "main";
  orchestrator_profile_version = "1";
  enabled_modules = "core" ∷ [];
}

abbrev contracts : Contracts
contracts =
    ("core", record { present_sections = required_contract_sections })
    ∷ ("db", record { present_sections = required_contract_sections })
    ∷ []

build_report_exact_example :
    (report : CompatibilityReport) × (build_report platform fragments product contracts
      ≡ some report)
    × ((report.ok ≡ true) ↔ Compatible platform fragments product contracts)
build_report_exact_example = build_report_exact platform fragments product contracts

-- The two fragments swapped: "b" renders before what it depends on.
abbrev swapped : PromptFragmentManifest
swapped = record { fragments = fragment "b" ("a" ∷ []) 1 ∷ fragment "a" [] 1 ∷ [] }

swapped_diagnostics :
    validate_prompt_fragments swapped (module_ids platform)
    ≡ some (new_diagnostic invalid_fragment_ordering ("b" ∷ "a" ∷ []) ∷ [])
unfolding validate_prompt_fragments first_cycle_node search_from visit
swapped_diagnostics = refl

report_is_ok :
    build_report platform fragments product contracts ≡ some (report_of platform product [])
unfolding build_report validate_module_graph validate_enabled_modules validate_prompt_fragments
    check_contract_presence check_version_compatibility first_cycle_node search_from visit
report_is_ok = refl
