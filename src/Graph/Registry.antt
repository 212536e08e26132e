-- ===== src/Graph/Registry.antt =====
-- crates/assistant-agent-graph/src/registry.rs. `u32` values are numbers below 2 ^ 32.
use Prim.Native.Nat.{Ordering}
use Prim.Native.String.{compare}
use assistant_platform.Base.{
  ℕ, leb, if◌then◌else◌, Result, ok, err, ◌>>=◌, ok_or, find, any, String, Bool, true, false, not,
  Option, List, [], ◌∷◌, str_eq,
}

pub record ProfileLimits : Type 0 where
  pub max_specialists : ℕ
  pub max_concurrent_jobs : ℕ

pub record RegisteredProfile : Type 0 where
  pub profile_id : String
  pub profile_version : String
  pub kind : String
  pub allows_external_destinations : Bool
  pub limits : ProfileLimits

unfoldable pub specialist : String → String → ProfileLimits → RegisteredProfile
specialist profile_id profile_version limits = record {
  profile_id = profile_id;
  profile_version = profile_version;
  kind = "specialist";
  allows_external_destinations = false;
  limits = limits;
}

unfoldable pub orchestrator : String → String → ProfileLimits → RegisteredProfile
orchestrator profile_id profile_version limits = record {
  profile_id = profile_id;
  profile_version = profile_version;
  kind = "orchestrator";
  allows_external_destinations = true;
  limits = limits;
}

unfoldable pub is_specialist : RegisteredProfile → Bool
is_specialist p = str_eq p.kind "specialist"

unfoldable pub is_orchestrator : RegisteredProfile → Bool
is_orchestrator p = str_eq p.kind "orchestrator"

-- `BTreeMap<String, RegisteredProfile>`: the values in the order of their keys, which are the profile
-- ids.
abbrev pub SpecialistRegistry : Type 0
SpecialistRegistry = List RegisteredProfile

abbrev pub empty : SpecialistRegistry
empty = []

abbrev pub place :
    Ordering
    → RegisteredProfile
    → RegisteredProfile
    → List RegisteredProfile
    → List RegisteredProfile
    → List RegisteredProfile
place Ordering.lt profile p rest later = profile ∷ p ∷ rest
place Ordering.eq profile p rest later = profile ∷ rest
place Ordering.gt profile p rest later = p ∷ later

unfoldable pub register : SpecialistRegistry → RegisteredProfile → SpecialistRegistry
register [] profile = profile ∷ []
register (p ∷ rest) profile =
    place (compare profile.profile_id p.profile_id) profile p rest (register rest profile)

unfoldable pub get : SpecialistRegistry → String → Option RegisteredProfile
get registry profile_id = find (λ p. str_eq p.profile_id profile_id) registry

unfoldable pub is_registered : SpecialistRegistry → String → Bool
is_registered registry profile_id = any (λ p. str_eq p.profile_id profile_id) registry

pub data PolicyError : Type 0 where
  unknown_profile not_a_specialist : String → PolicyError
  specialist_limit_reached concurrency_limit_reached : String → ℕ → PolicyError

unfoldable pub authorize_create :
    SpecialistRegistry → String → ℕ → Result PolicyError RegisteredProfile
authorize_create registry profile_id existing_specialists = do
  profile ← ok_or (get registry profile_id) (unknown_profile profile_id)
  if not (is_specialist profile)
      then err (not_a_specialist profile_id)
      else if leb profile.limits.max_specialists existing_specialists
      then err (specialist_limit_reached profile_id profile.limits.max_specialists)
      else ok profile

unfoldable pub authorize_job_start : RegisteredProfile → ℕ → Result PolicyError (Unit {0})
authorize_job_start profile in_flight_jobs =
    if leb profile.limits.max_concurrent_jobs in_flight_jobs
    then err (concurrency_limit_reached profile.profile_id profile.limits.max_concurrent_jobs)
    else ok tt
