-- ===== src/Graph/Policy.antt =====
-- What the gates on packets, results and profiles let through.
use Prim.Native.Nat.{Ordering}
use Prim.Native.String.{compare}
use assistant_platform.Base.{
  ℕ, if◌then◌else◌, ok, All, any, ◌≤◌, String, ◌≡◌, refl, ◌↔◌, Bool, true, false, Option, none,
  some, List, [], ◌∷◌, arith, str_eq, eq_iff, Option-cases, inl, inr, eq_refl,
}
use assistant_platform.Graph.Handoff.{
  HandoffPacket, MemoryFact, ResultArtifact, SpecialistResult, is_blank, validate_handoff,
  check_artifact, artifacts_within_policy, check_artifacts,
}
use assistant_platform.Graph.Registry.{RegisteredProfile, SpecialistRegistry, register, get, place}

All-of_any :
    {A : Type 0} (p : A → Bool) (xs : List A) → (any p xs ≡ false) ↔ All (λ x. p x ≡ false) xs
All-of_any p [] = (λ h. tt, λ h. refl)
All-of_any p (x ∷ xs) =
    let ih = All-of_any p xs in
    (λ h. (ground arith, ih.0 (ground arith)), λ h. ground (arith, h.0, ih.1 h.1))

-- A packet is accepted exactly if its goal and the text of each of its facts have a character that is
-- not white space.
pub validate_handoff_exact :
    (packet : HandoffPacket)
    → (validate_handoff packet ≡ ok tt)
      ↔ ((is_blank packet.goal ≡ false) × All (λ f. is_blank f.text ≡ false) packet.facts)
unfolding validate_handoff
validate_handoff_exact packet =
    let facts = All-of_any (λ (f : MemoryFact). is_blank f.text) packet.facts in
    (λ h. (ground arith, facts.0 (ground arith)), λ h. ground (arith, h.0, facts.1 h.1))

-- By reference, and not known to be larger than `max`.
abbrev pub Fits : ℕ → Option ℕ → Type 0
Fits max none = Unit
Fits max (some size) = size ≤ max

abbrev pub Permitted : ℕ → ResultArtifact → Type 0
Permitted max a = (a.by_reference ≡ true) × Fits max a.size_bytes

Fits-exact :
    (a : ResultArtifact) (max : ℕ) (size : Option ℕ)
    → a.size_bytes ≡ size
    → (check_artifact a max ≡ none) ↔ ((a.by_reference ≡ true) × Fits max size)
Fits-exact a max none e = (λ h. (ground arith, tt), λ h. ground (arith, h.0))
Fits-exact a max (some size) e = (λ h. (ground arith, ground arith), λ h. ground (arith, h.0, h.1))

check_artifact_exact :
    (a : ResultArtifact) (max : ℕ) → (check_artifact a max ≡ none) ↔ Permitted max a
check_artifact_exact a max = Fits-exact a max a.size_bytes refl

check_artifacts_exact :
    (artifacts : List ResultArtifact) (max : ℕ)
    → (check_artifacts artifacts max ≡ ok tt) ↔ All (Permitted max) artifacts
unfolding check_artifacts
check_artifacts_exact [] max = (λ h. tt, λ h. refl)
check_artifacts_exact (a ∷ artifacts) max =
    let head = check_artifact_exact a max in
    let ih = check_artifacts_exact artifacts max in
    elim (Option-cases (check_artifact a max)) [
      | inl e ↦ (λ h. (head.0 e, ih.0 (ground arith)), λ h. ground (arith, ih.1 h.1))
      | inr (x, e) ↦ (λ h. absurd (ground arith), λ h. absurd (cc (head.1 h.0)))
    ]

-- A result is accepted exactly if every artifact is by reference and within the size, where known.
pub artifacts_exact :
    (result : SpecialistResult) (max : ℕ)
    → (artifacts_within_policy result max ≡ ok tt) ↔ All (Permitted max) result.artifacts
unfolding artifacts_within_policy
artifacts_exact result max = check_artifacts_exact result.artifacts max

get-place :
    (o : Ordering) (p q : RegisteredProfile) (rest later : List RegisteredProfile) (id : String)
    → compare p.profile_id q.profile_id ≡ o
    → get later id ≡ (if str_eq p.profile_id id then some p else get rest id)
    → get (place o p q rest later) id
      ≡ (if str_eq p.profile_id id then some p else get (q ∷ rest) id)
unfolding get
get-place Ordering.lt p q rest later id e ih = refl
get-place Ordering.eq p q rest later id e ih =
    ground (arith, eq_iff p.profile_id q.profile_id, eq_iff q.profile_id id, eq_iff p.profile_id id)
get-place Ordering.gt p q rest later id e ih = ground (
  arith,
  eq_iff p.profile_id q.profile_id,
  eq_iff q.profile_id id,
  eq_iff p.profile_id id,
  eq_refl p.profile_id,
)

-- The last registration of a profile id is the one that is found; other ids are found as before.
pub get-register :
    (registry : SpecialistRegistry) (p : RegisteredProfile) (id : String)
    → get (register registry p) id ≡ (if str_eq p.profile_id id then some p else get registry id)
unfolding get register
get-register [] p id = refl
get-register (q ∷ registry) p id =
    get-place (compare p.profile_id q.profile_id) p q registry (register registry p) id refl
      (get-register registry p id)
