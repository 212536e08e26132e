-- ===== src/Capabilities/Tests.antt =====
-- A profile of two capabilities that share a check.
use assistant_platform.Base.{ok, ◌>>=◌, String, ◌≡◌, refl, none, List, [], ◌∷◌}
use assistant_platform.Capabilities.Registry.{
  CapabilityDescriptor, ProfileDescriptor, CapabilityRegistry, get_capability, contains_capability,
  registered, register_capability, assemble_each, assemble_profile,
}
use assistant_platform.Capabilities.Assembly.{Assembles, assemble_profile_exact}

abbrev capability : String → List String → List String → CapabilityDescriptor
capability id checks fragments = record {
  id = id;
  version = "1";
  owner = none;
  readiness_check_ids = checks;
  prompt_fragment_ids = fragments;
}

abbrev registry : CapabilityRegistry
registry =
    registered (capability "web" ("net" ∷ "disk" ∷ []) ("pages" ∷ []))
    ∷ registered (capability "memory" ("disk" ∷ []) [])
    ∷ []

abbrev profile : ProfileDescriptor
profile = record {
  id = "main";
  version = "1";
  kind = "orchestrator";
  capability_ids = "memory" ∷ "web" ∷ [];
}

assembled :
    assemble_profile registry profile
    ≡ ok (record {
      profile_id = "main";
      profile_version = "1";
      capability_ids = "memory" ∷ "web" ∷ [];
      readiness_check_ids = "disk" ∷ "net" ∷ [];
      prompt_fragment_ids = "pages" ∷ [];
    })
unfolding assemble_profile assemble_each get_capability
assembled = refl

registered_in_turn :
    (do
      one ← register_capability [] (capability "memory" ("disk" ∷ []) [])
      register_capability one (capability "web" ("net" ∷ "disk" ∷ []) ("pages" ∷ [])))
    ≡ ok registry
unfolding register_capability contains_capability get_capability
registered_in_turn = refl

assemble_profile_exact_example : Assembles registry profile (assemble_profile registry profile)
assemble_profile_exact_example = assemble_profile_exact registry profile
