-- ===== src/Capabilities/Assembly.antt =====
-- What assemble_profile of crates/assistant-capabilities/src/registry.rs gathers.
use assistant_platform.Core.Empty.{Distinct}
use assistant_platform.Core.Validate.{concat_map}
use assistant_platform.Base.{
  Bool-cases, any-append, String, ◌≡◌, refl, sym, ap, ◌∙◌, inl, inr, true, List, [], ◌∷◌, ◌++◌,
  append-nil, arith, str_eq, eq_iff, is_some, Result, ok, err, ◌>>=◌, All, count_where,
  any-count_where, count_where-append, ℕ, ◌+◌, ◌≤◌, false, Option, none, some, append_assoc,
  eq_refl,
}
use assistant_platform.Graph.Cycle.Paths.{listed}
use assistant_platform.Capabilities.Firsts.{firsts, push_new-firsts, all_unseen, push_new-append}
use assistant_platform.Capabilities.Registry.{
  push_new, RegisteredCapability, ProfileDescriptor, AssembledProduct, CapabilityError,
  duplicate_capability, duplicate_in_profile, unknown_capability, CapabilityRegistry,
  get_capability, Gathered, gather, assemble_each, product_of, assemble_profile,
}

-- The capabilities that the ids name.
abbrev pub named_by :
    Option RegisteredCapability → List RegisteredCapability → List RegisteredCapability
named_by none rest = rest
named_by (some c) rest = c ∷ rest

abbrev pub capabilities_of : CapabilityRegistry → List String → List RegisteredCapability
capabilities_of registry [] = []
capabilities_of registry (id ∷ ids) =
    named_by (get_capability registry id) (capabilities_of registry ids)

abbrev pub all_checks : List RegisteredCapability → List String
all_checks caps = concat_map (λ c. c.readiness_check_ids) caps

abbrev pub all_fragments : List RegisteredCapability → List String
all_fragments caps = concat_map (λ c. c.prompt_fragment_ids) caps

abbrev pub IsRegistered : CapabilityRegistry → String → Type 0
IsRegistered registry id = is_some (get_capability registry id) ≡ true

abbrev pub occurrences : String → List String → ℕ
occurrences id ids = count_where (λ x. str_eq x id) ids

abbrev Gathers :
    CapabilityRegistry → Gathered → List String → Result CapabilityError Gathered → Type 0
Gathers registry g ids (ok g') =
    (g'.ids ≡ g.ids ++ ids)
    × All (λ x. listed x g.ids ≡ false) ids
    × Distinct ids
    × All (IsRegistered registry) ids
    × (g'.checks ≡ push_new g.checks (all_checks (capabilities_of registry ids)))
    × (g'.fragments ≡ push_new g.fragments (all_fragments (capabilities_of registry ids)))
Gathers registry g ids (err (duplicate_in_profile id)) =
    2 ≤ occurrences id g.ids + occurrences id ids
Gathers registry g ids (err (unknown_capability id)) =
    (listed id ids ≡ true) × (get_capability registry id ≡ none)
Gathers registry g ids (err (duplicate_capability id)) = ⊥

new_name :
    (id : String) (seen ids : List String)
    → All (λ x. listed x (seen ++ id ∷ []) ≡ false) ids
    → (listed id ids ≡ false) × All (λ x. listed x seen ≡ false) ids
new_name id seen [] h = (refl, tt)
new_name id seen (x ∷ ids) h =
    let rest = new_name id seen ids h.1 in
    let split = any-append (λ y. str_eq y x) seen (id ∷ []) in
    (
      ground (arith, h.0, split, rest.0, eq_iff id x, eq_iff x id),
      (ground (arith, h.0, split), rest.1),
    )

module _ (registry : CapabilityRegistry) (g : Gathered) (id : String) (ids : List String) where
  more_gathered :
      (c : RegisteredCapability) (r : Result CapabilityError Gathered)
      → listed id g.ids ≡ false
      → get_capability registry id ≡ some c
      → Gathers registry (gather g id c) ids r
      → Gathers registry g (id ∷ ids) r
  more_gathered c (ok g') new e h =
      let names = new_name id g.ids ids h.1 in
      (
        h.0 ∙ append_assoc g.ids (id ∷ []) ids,
        (new, names.1),
        (names.0, h.2),
        (ap is_some e, h.3),
        rw e (
            h.4
            ∙ sym (
                push_new-append g.checks c.readiness_check_ids
                  (all_checks (capabilities_of registry ids)))),
        rw e (
            h.5
            ∙ sym (
                push_new-append g.fragments c.prompt_fragment_ids
                  (all_fragments (capabilities_of registry ids)))),
      )
  more_gathered c (err (duplicate_in_profile d)) new e h =
      ground (arith, h, count_where-append (λ x. str_eq x d) g.ids (id ∷ []))
  more_gathered c (err (unknown_capability d)) new e h = (ground (arith, h.0), h.1)
  more_gathered c (err (duplicate_capability d)) new e h = h

  found_gathered :
      (o : Option RegisteredCapability)
      → ((c : RegisteredCapability)
          → Gathers registry (gather g id c) ids (assemble_each registry (gather g id c) ids))
      → listed id g.ids ≡ false
      → get_capability registry id ≡ o
      → Gathers registry g (id ∷ ids) (elim o [
        | none ↦ err (unknown_capability id)
        | some c ↦ assemble_each registry (gather g id c) ids
      ])
  found_gathered none ih new e = (ground (arith, eq_refl id), e)
  found_gathered (some c) ih new e =
      more_gathered c (assemble_each registry (gather g id c) ids) new e (ih c)

  seen_twice : listed id g.ids ≡ true → 2 ≤ occurrences id g.ids + occurrences id (id ∷ ids)
  seen_twice h = ground (arith, any-count_where (λ x. str_eq x id) g.ids, eq_refl id)

assemble_each-Gathers :
    (registry : CapabilityRegistry) (g : Gathered) (ids : List String)
    → Gathers registry g ids (assemble_each registry g ids)
unfolding assemble_each
assemble_each-Gathers registry g [] = (sym (append-nil g.ids), tt, tt, tt, refl, refl)
assemble_each-Gathers registry g (id ∷ ids) = elim (Bool-cases (listed id g.ids)) [
  | inl e ↦ rw e (seen_twice registry g id ids e)
  | inr e ↦ rw e (
      found_gathered registry g id ids (get_capability registry id)
        (λ c. assemble_each-Gathers registry (gather g id c) ids) e refl)
]

abbrev pub Assembles :
    CapabilityRegistry → ProfileDescriptor → Result CapabilityError AssembledProduct → Type 0
Assembles registry profile (ok product) =
    Distinct profile.capability_ids
    × All (IsRegistered registry) profile.capability_ids
    × (product ≡ record {
      profile_id = profile.id;
      profile_version = profile.version;
      capability_ids = profile.capability_ids;
      readiness_check_ids = firsts (all_checks (capabilities_of registry profile.capability_ids));
      prompt_fragment_ids =
          firsts (all_fragments (capabilities_of registry profile.capability_ids));
    })
Assembles registry profile (err (duplicate_in_profile id)) =
    2 ≤ occurrences id profile.capability_ids
Assembles registry profile (err (unknown_capability id)) =
    (listed id profile.capability_ids ≡ true) × (get_capability registry id ≡ none)
Assembles registry profile (err (duplicate_capability id)) = ⊥

-- A profile is assembled exactly if its capability ids are distinct and registered: the product then
-- has the profile's id and version, its capabilities in order, and of the checks and of the fragments
-- that these capabilities declare, one after the other, the first of each. Otherwise the error names
-- an id that the profile lists twice, or one that it lists and that is not registered.
pub assemble_profile_exact :
    (registry : CapabilityRegistry) (profile : ProfileDescriptor)
    → Assembles registry profile (assemble_profile registry profile)
unfolding assemble_profile
assemble_profile_exact registry profile =
    at (assemble_each registry start profile.capability_ids)
      (assemble_each-Gathers registry start profile.capability_ids)
  where
    start : Gathered
    start = record { ids = []; checks = []; fragments = [] }

    pushed : (xs : List String) → push_new [] xs ≡ firsts xs
    pushed xs = push_new-firsts [] xs ∙ all_unseen (firsts xs)

    at :
        (r : Result CapabilityError Gathered)
        → Gathers registry
            (record { ids = []; checks = []; fragments = [] })
            profile.capability_ids
            r
        → Assembles registry profile (r >>= λ g. ok (product_of profile g))
    at (ok g) h = (
      h.2,
      h.3,
      rw
          (
            h.0,
            h.4,
            h.5,
            pushed (all_checks (capabilities_of registry profile.capability_ids)),
            pushed (all_fragments (capabilities_of registry profile.capability_ids)),
          )
          refl,
    )
    at (err (duplicate_in_profile id)) h = omega (arith, h)
    at (err (unknown_capability id)) h = h
    at (err (duplicate_capability id)) h = h
