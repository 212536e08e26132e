-- ===== src/Core/Report.antt =====
-- build_report of crates/assistant-core/src/compat.rs: what an accepted combination is.
use mathlib.Core.Path.{subst}
use assistant_platform.Core.Empty.{append-empty, concat_map-All, push-empty}
use assistant_platform.Base.{
  eq_iff, All, String, ◌≡◌, refl, sym, ◌↔◌, true, Option, none, some, some-injective, List, [], ◌∷◌,
  ◌++◌, str_eq,
}
use assistant_platform.Core.Manifest.{
  PlatformManifest, ProductManifest, PromptFragmentManifest, unknown_enabled_module,
  contract_missing_section, incompatible_platform_version, Diagnostic, new_diagnostic,
  ContractCoverage, CompatibilityReport,
}
use assistant_platform.Core.Validate.{
  required_contract_sections, module_ids, validate_enabled_modules, Contracts, contract_of,
  check_contract, check_contract_presence, check_version_compatibility, is_empty, report_of,
  build_report,
}
use assistant_platform.Core.Modules.{SoundModules, validate_module_graph_lem}
use assistant_platform.Core.Fragments.{SoundFragments, validate_prompt_fragments_lem}
use assistant_platform.Graph.Cycle.Paths.{listed}

-- The module has a contract that has every required section.
abbrev pub HasContract : Contracts → String → Type 0
HasContract contracts id =
    (c : ContractCoverage) × (contract_of contracts id ≡ some c)
    × All (λ s. listed s c.present_sections ≡ true) required_contract_sections

pub record Compatible (platform : PlatformManifest) (fragments : PromptFragmentManifest)
    (product : ProductManifest) (contracts : Contracts) : Type 0 where
  pub modules : SoundModules platform
  pub enabled : All (λ m. listed m (module_ids platform) ≡ true) product.enabled_modules
  pub prompts : SoundFragments fragments (module_ids platform)
  pub covered : All (HasContract contracts) (module_ids platform)
  pub version : product.compatible_platform_version ≡ platform.platform_version

check_contract-empty :
    (id : String) (o : Option ContractCoverage)
    → (check_contract id o ≡ []) ↔ (
        (c : ContractCoverage) × (o ≡ some c)
        × All (λ s. listed s c.present_sections ≡ true) required_contract_sections)
check_contract-empty id none = (λ h. absurd (cc), λ h. absurd (let e = h.1 in cc))
check_contract-empty id (some c) =
    let sections =
      concat_map-All _ (λ s. listed s c.present_sections ≡ true) required_contract_sections
        (λ s.
          push-empty (listed s c.present_sections)
            (new_diagnostic contract_missing_section (id ∷ s ∷ []))) in
    (
      λ h. (c, refl, sections.0 h),
      λ (d, e, h). sections.1 (
          subst
            (λ (x : ContractCoverage).
              All (λ s. listed s x.present_sections ≡ true) required_contract_sections)
            (sym (some-injective c d e)) h),
    )

is_empty_iff : (ds : List Diagnostic) → (is_empty ds ≡ true) ↔ (ds ≡ [])
is_empty_iff [] = (λ _. refl, λ _. refl)
is_empty_iff (d ∷ ds) = (λ h. absurd (cc), λ h. absurd (cc))

-- The report is always made, within the fuel of the cycle searches, and it is ok exactly if: the
-- module ids are distinct, every dependency of a module is a module, and no module depends on itself
-- directly or through others; every enabled module is a module; the fragment ids are distinct, every
-- fragment is owned by a module, and every dependency of a fragment is a fragment of smaller order;
-- every module has a contract with all required sections; and the product pins the platform version.
pub build_report_exact :
    (platform : PlatformManifest) (fragments : PromptFragmentManifest) (product : ProductManifest)
    → (contracts : Contracts)
    → (report : CompatibilityReport) × (build_report platform fragments product contracts
        ≡ some report)
      × ((report.ok ≡ true) ↔ Compatible platform fragments product contracts)
unfolding build_report validate_enabled_modules check_contract_presence check_version_compatibility
build_report_exact platform fragments product contracts =
    let ids = module_ids platform in
    let (graph, ge, graph_ok) = validate_module_graph_lem platform in
    let (prompts, pe, prompts_ok) = validate_prompt_fragments_lem fragments ids in
    let enabled =
      concat_map-All _ (λ m. listed m ids ≡ true) product.enabled_modules
        (λ m.
          push-empty (listed m ids)
            (new_diagnostic unknown_enabled_module (product.product_id ∷ m ∷ []))) in
    let covered =
      concat_map-All _ (HasContract contracts) ids
        (λ id. check_contract-empty id (contract_of contracts id)) in
    let same = push-empty (str_eq product.compatible_platform_version platform.platform_version) (
      new_diagnostic incompatible_platform_version (
        product.product_id ∷ product.compatible_platform_version ∷ platform.platform_version
        ∷ [])) in
    let eq = eq_iff product.compatible_platform_version platform.platform_version in
    let a = append-empty graph _ in
    let b = append-empty (validate_enabled_modules product platform) _ in
    let c = append-empty prompts _ in
    let d = append-empty (check_contract_presence ids contracts) _ in
    let report = report_of platform product (
      graph
      ++ (validate_enabled_modules product platform
          ++ (prompts
              ++ (check_contract_presence ids contracts
                  ++ check_version_compatibility product platform)))) in
    let empty = is_empty_iff report.diagnostics in
    (
      report,
      rw (ge, pe) refl,
      (
        λ h.
            let x = a.0 (empty.0 h) in
            let y = b.0 x.1 in
            let z = c.0 y.1 in
            let w = d.0 z.1 in
            record {
              modules = graph_ok.0 x.0;
              enabled = enabled.0 y.0;
              prompts = prompts_ok.0 z.0;
              covered = covered.0 w.0;
              version = eq.0 (same.0 w.1);
            },
        λ h. empty.1 (
            a.1 (
              graph_ok.1 h.modules,
              b.1 (
                enabled.1 h.enabled,
                c.1 (prompts_ok.1 h.prompts, d.1 (covered.1 h.covered, same.1 (eq.1 h.version))),
              ),
            )),
      ),
    )
