-- ===== src/Core/Validate.antt =====
-- crates/assistant-core/src/validate.rs and build_report of compat.rs. Each check returns the
-- diagnostics that it pushes; the decimal text of an `order` is left out of the message.
use mathlib.Core.Option
use assistant_platform.Base.{
  leb, if◌then◌else◌, or_else, length, select, ℕ, suc, String, Bool, true, false, Option, none,
  some, List, [], ◌∷◌, ◌++◌, map, str_eq,
}
use assistant_platform.Core.Manifest.{
  PlatformManifest, ModuleNode, ProductManifest, PromptFragment, PromptFragmentManifest,
  DiagnosticCode, duplicate_module_id, missing_module_id, module_graph_cycle,
  unknown_enabled_module, duplicate_fragment_id, unknown_fragment_owner_module,
  unknown_fragment_dependency, invalid_fragment_ordering, fragment_dependency_cycle,
  missing_contract_file, contract_missing_section, incompatible_platform_version, Diagnostic,
  new_diagnostic, ContractCoverage, CompatibilityReport,
}
use assistant_platform.Graph.Routing.{A2aAcl, insert_node, search_from}
use assistant_platform.Graph.Cycle.Paths.{listed}

abbrev pub concat_map {ℓ κ} : {A : Type ℓ} {B : Type κ} → (A → List B) → List A → List B
concat_map f [] = []
concat_map f (x ∷ xs) = f x ++ concat_map f xs

abbrev pub required_contract_sections : List String
required_contract_sections =
    "Public API" ∷ "Persistence Ownership" ∷ "Config" ∷ "Events" ∷ "CLI/Web Surfaces"
    ∷ "Prompt Fragments" ∷ "Readiness Checks" ∷ "Conformance Tests" ∷ []

-- A node and what it depends on.
abbrev pub Node : Type 0
Node = String × List String

abbrev pub names_of : List Node → List String
names_of nodes = map (λ n. n.0) nodes

-- The loop with the set `seen`: the ids that come again.
abbrev pub duplicates : (String → Diagnostic) → List String → List String → List Diagnostic
duplicates report seen [] = []
duplicates report seen (id ∷ ids) =
    let rest = duplicates report (id ∷ seen) ids in
    if listed id seen then report id ∷ rest else rest

-- The keys of the `BTreeMap` of edges, in order.
abbrev pub keys_of : List Node → List String
keys_of [] = []
keys_of ((id, deps) ∷ nodes) = insert_node id (keys_of nodes)

-- The edges of the map, as pairs of a node and a dependency that is known: where an id comes again,
-- the last of its nodes stands in the map.
abbrev pub edges_of : List String → List Node → A2aAcl
edges_of known [] = []
edges_of known ((id, deps) ∷ nodes) =
    let rest = edges_of known nodes in
    if listed id (names_of nodes)
    then rest
    else map (λ d. (id, d)) (select (λ d. listed d known) deps) ++ rest

-- The search is the one of the agent graph, over the keys; each nested visit marks one more of them.
unfoldable pub first_cycle_node : List String → List Node → Option (Option String)
first_cycle_node known nodes =
    search_from (edges_of known nodes) (suc (length (keys_of nodes))) (keys_of nodes) []

abbrev pub cycle_diagnostic : DiagnosticCode → Option String → List Diagnostic
cycle_diagnostic code none = []
cycle_diagnostic code (some node) = new_diagnostic code (node ∷ []) ∷ []

abbrev pub module_node : ModuleNode → Node
module_node m = (m.id, m.depends_on)

abbrev pub module_ids : PlatformManifest → List String
module_ids manifest = map (λ m. m.id) manifest.modules

abbrev pub missing_dependencies : List String → ModuleNode → List Diagnostic
missing_dependencies known m =
    concat_map
      (λ d. if listed d known then [] else new_diagnostic missing_module_id (m.id ∷ d ∷ []) ∷ [])
      m.depends_on

unfoldable pub validate_module_graph : PlatformManifest → Option (List Diagnostic)
validate_module_graph manifest =
    let known = module_ids manifest in
    Option.map
      (λ node.
        duplicates (λ id. new_diagnostic duplicate_module_id (id ∷ [])) [] known
        ++ concat_map (missing_dependencies known) manifest.modules
        ++ cycle_diagnostic module_graph_cycle node)
      (first_cycle_node known (map module_node manifest.modules))

unfoldable pub validate_enabled_modules : ProductManifest → PlatformManifest → List Diagnostic
validate_enabled_modules product platform =
    concat_map
      (λ m.
        if listed m (module_ids platform)
        then []
        else new_diagnostic unknown_enabled_module (product.product_id ∷ m ∷ []) ∷ [])
      product.enabled_modules

abbrev pub fragment_node : PromptFragment → Node
fragment_node f = (f.id, f.depends_on)

-- `order_by_id`: where an id comes again, the order of the last fragment with it.
abbrev pub order_by_id : List PromptFragment → String → Option ℕ
order_by_id [] id = none
order_by_id (f ∷ fragments) id =
    or_else (order_by_id fragments id) (if str_eq f.id id then some f.order else none)

abbrev pub check_order : PromptFragment → String → Option ℕ → List Diagnostic
check_order f dep none = new_diagnostic unknown_fragment_dependency (f.id ∷ dep ∷ []) ∷ []
check_order f dep (some dep_order) =
    if leb f.order dep_order
    then new_diagnostic invalid_fragment_ordering (f.id ∷ dep ∷ []) ∷ []
    else []

abbrev pub check_fragment : List String → List PromptFragment → PromptFragment → List Diagnostic
check_fragment known_modules fragments f =
    (if listed f.owner_module known_modules
      then []
      else new_diagnostic unknown_fragment_owner_module (f.id ∷ f.owner_module ∷ []) ∷ [])
    ++ concat_map (λ dep. check_order f dep (order_by_id fragments dep)) f.depends_on

abbrev pub fragment_ids : PromptFragmentManifest → List String
fragment_ids manifest = map (λ f. f.id) manifest.fragments

unfoldable pub validate_prompt_fragments :
    PromptFragmentManifest → List String → Option (List Diagnostic)
validate_prompt_fragments manifest known_modules =
    Option.map
      (λ node.
        duplicates (λ id. new_diagnostic duplicate_fragment_id (id ∷ [])) [] (fragment_ids manifest)
        ++ concat_map (check_fragment known_modules manifest.fragments) manifest.fragments
        ++ cycle_diagnostic fragment_dependency_cycle node)
      (first_cycle_node (fragment_ids manifest) (map fragment_node manifest.fragments))

-- `BTreeMap<String, ContractCoverage>`
abbrev pub Contracts : Type 0
Contracts = List (String × ContractCoverage)

abbrev pub contract_of : Contracts → String → Option ContractCoverage
contract_of [] id = none
contract_of ((k, c) ∷ contracts) id =
    let rest = contract_of contracts id in if str_eq k id then some c else rest

abbrev pub check_contract : String → Option ContractCoverage → List Diagnostic
check_contract id none = new_diagnostic missing_contract_file (id ∷ []) ∷ []
check_contract id (some coverage) =
    concat_map
      (λ s.
        if listed s coverage.present_sections
        then []
        else new_diagnostic contract_missing_section (id ∷ s ∷ []) ∷ [])
      required_contract_sections

unfoldable pub check_contract_presence : List String → Contracts → List Diagnostic
check_contract_presence ids contracts =
    concat_map (λ id. check_contract id (contract_of contracts id)) ids

unfoldable pub check_version_compatibility : ProductManifest → PlatformManifest → List Diagnostic
check_version_compatibility product platform =
    if str_eq product.compatible_platform_version platform.platform_version
    then []
    else new_diagnostic incompatible_platform_version
        (product.product_id ∷ product.compatible_platform_version ∷ platform.platform_version ∷ [])
      ∷ []

abbrev pub is_empty {ℓ} : {A : Type ℓ} → List A → Bool
is_empty [] = true
is_empty (x ∷ xs) = false

abbrev pub report_of : PlatformManifest → ProductManifest → List Diagnostic → CompatibilityReport
report_of platform product diagnostics = record {
  ok = is_empty diagnostics;
  product_id = product.product_id;
  product_version = product.product_version;
  platform_id = platform.platform_id;
  platform_version = platform.platform_version;
  diagnostics = diagnostics;
}

abbrev pub combine :
    PlatformManifest
    → ProductManifest
    → Contracts
    → Option (List Diagnostic)
    → Option (List Diagnostic)
    → Option CompatibilityReport
combine platform product contracts none prompts = none
combine platform product contracts (some graph) none = none
combine platform product contracts (some graph) (some prompts) = some (
    report_of platform product (
      graph
      ++ (validate_enabled_modules product platform
          ++ (prompts
              ++ (check_contract_presence (module_ids platform) contracts
                  ++ check_version_compatibility product platform)))))

-- None where a cycle search runs out of fuel, which it does not.
unfoldable pub build_report :
    PlatformManifest
    → PromptFragmentManifest
    → ProductManifest
    → Contracts
    → Option CompatibilityReport
build_report platform fragments product contracts =
    combine platform product contracts (validate_module_graph platform)
      (validate_prompt_fragments fragments (module_ids platform))
