-- ===== src/Capabilities/Registry.antt =====
-- crates/assistant-capabilities/src/registry.rs and readiness.rs. A descriptor is what its methods
-- return.
use assistant_platform.Base.{
  err, if◌then◌else◌, is_some, Result, ok, ◌>>=◌, select, find, String, Bool, not, Option, none,
  some, List, [], ◌∷◌, ◌++◌, str_eq,
}
use assistant_platform.Graph.Cycle.Paths.{listed}

pub record RegisteredCapability : Type 0 where
  pub id : String
  pub version : String
  pub module_id : String
  pub readiness_check_ids : List String
  pub prompt_fragment_ids : List String

-- A capability without an owner of its own is its own owner.
pub record CapabilityDescriptor : Type 0 where
  pub id : String
  pub version : String
  pub owner : Option String
  pub readiness_check_ids : List String
  pub prompt_fragment_ids : List String

abbrev pub module_id_of : CapabilityDescriptor → String
module_id_of d = elim d.owner [ none ↦ d.id | some m ↦ m ]

pub record ProfileDescriptor : Type 0 where
  pub id : String
  pub version : String
  pub kind : String
  pub capability_ids : List String

pub record AssembledProduct : Type 0 where
  pub profile_id : String
  pub profile_version : String
  pub capability_ids : List String
  pub readiness_check_ids : List String
  pub prompt_fragment_ids : List String

pub data CapabilityError : Type 0 where
  duplicate_capability : String → CapabilityError
  duplicate_in_profile : String → CapabilityError
  unknown_capability : String → CapabilityError

-- The map, which is only read by key, as the list of its values.
abbrev pub CapabilityRegistry : Type 0
CapabilityRegistry = List RegisteredCapability

unfoldable pub get_capability : CapabilityRegistry → String → Option RegisteredCapability
get_capability registry id = find (λ c. str_eq c.id id) registry

unfoldable pub contains_capability : CapabilityRegistry → String → Bool
contains_capability registry id = is_some (get_capability registry id)

abbrev pub registered : CapabilityDescriptor → RegisteredCapability
registered d = record {
  id = d.id;
  version = d.version;
  module_id = module_id_of d;
  readiness_check_ids = d.readiness_check_ids;
  prompt_fragment_ids = d.prompt_fragment_ids;
}

unfoldable pub register_capability :
    CapabilityRegistry → CapabilityDescriptor → Result CapabilityError CapabilityRegistry
register_capability registry d =
    if contains_capability registry d.id
    then err (duplicate_capability d.id)
    else ok (registered d ∷ registry)

-- for check in …: push what is not yet there
abbrev pub push_new : List String → List String → List String
push_new seen [] = seen
push_new seen (x ∷ xs) = push_new (if listed x seen then seen else seen ++ x ∷ []) xs

-- The three vectors of the loop: ids, checks, fragments.
pub record Gathered : Type 0 where
  pub ids : List String
  pub checks : List String
  pub fragments : List String

abbrev pub gather : Gathered → String → RegisteredCapability → Gathered
gather g id cap = record {
  ids = g.ids ++ id ∷ [];
  checks = push_new g.checks cap.readiness_check_ids;
  fragments = push_new g.fragments cap.prompt_fragment_ids;
}

unfoldable pub assemble_each :
    CapabilityRegistry → Gathered → List String → Result CapabilityError Gathered
assemble_each registry g [] = ok g
assemble_each registry g (id ∷ ids) =
    if listed id g.ids then err (duplicate_in_profile id) else elim (get_capability registry id) [
      | none ↦ err (unknown_capability id)
      | some cap ↦ assemble_each registry (gather g id cap) ids
    ]

abbrev pub product_of : ProfileDescriptor → Gathered → AssembledProduct
product_of profile g = record {
  profile_id = profile.id;
  profile_version = profile.version;
  capability_ids = g.ids;
  readiness_check_ids = g.checks;
  prompt_fragment_ids = g.fragments;
}

unfoldable pub assemble_profile :
    CapabilityRegistry → ProfileDescriptor → Result CapabilityError AssembledProduct
assemble_profile registry profile = do
  g ←
      assemble_each registry (record { ids = []; checks = []; fragments = [] })
        profile.capability_ids
  ok (product_of profile g)

abbrev pub is_capability_enabled : List String → String → Bool
is_capability_enabled enabled id = listed id enabled

pub data CheckStatus : Type 0 where
  pass : CheckStatus
  not_registered : List String → CheckStatus
  not_assembled : CapabilityError → CheckStatus

abbrev pub missing_status : List String → CheckStatus
missing_status [] = pass
missing_status (id ∷ ids) = not_registered (id ∷ ids)

unfoldable pub enabled_capabilities_registered : List String → CapabilityRegistry → CheckStatus
enabled_capabilities_registered enabled registry =
    missing_status (select (λ id. not (contains_capability registry id)) enabled)

abbrev pub assembly_status : Result CapabilityError AssembledProduct → CheckStatus
assembly_status (ok _) = pass
assembly_status (err e) = not_assembled e

unfoldable pub profile_assembles : CapabilityRegistry → ProfileDescriptor → CheckStatus
profile_assembles registry profile = assembly_status (assemble_profile registry profile)
