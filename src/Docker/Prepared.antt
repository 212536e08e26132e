-- ===== src/Docker/Prepared.antt =====
-- What prepare_spawn of crates/assistant-runtime-docker/src/lifecycle.rs lets start.
use assistant_platform.Base.{
  if◌then◌else◌, Result, ok, err, ◌>>=◌, map_err, All, ℕ, ◌≤◌, String, ◌≡◌, refl, ◌⊎◌, inl, inr,
  Bool, true, false, Option, none, some, List, [], ◌∷◌, arith,
}
use assistant_platform.Docker.Path.{PathBuf}
use assistant_platform.Docker.Mount.{Mount, MountError, validate_mounts}
use assistant_platform.Docker.Spawn.{
  SpawnSpec, RunnerAuthMode, stub, claude_oauth, specialist, OneCliReadiness, AuthError,
  first_failure, Env, prepare_runner_env, ImageRef, SchemaRange, supports, SpawnError,
  unsupported_session_schema, mount_error, auth_error, gate_session_schema, prepare_spawn,
}
use assistant_platform.Docker.Allowed.{Allowed, DistinctTargets, validate_mounts-Allowed}

abbrev pub InRange : ℕ → SchemaRange → Type 0
InRange found range = (range.min ≤ found) × (found ≤ range.max)

-- The variables that could hold a credential hold the placeholder and nothing.
abbrev pub NoSecret : String × String → Type 0
NoSecret (name, value) =
    (name ≡ "ASSISTANT_RUNNER_MODE")
    ⊎ ((name ≡ "ANTHROPIC_API_KEY") × (value ≡ "placeholder"))
    ⊎ ((name ≡ "CLAUDE_CODE_OAUTH_TOKEN") × (value ≡ ""))

abbrev pub Authorized : RunnerAuthMode → OneCliReadiness → Type 0
Authorized mode readiness =
    (mode ≡ stub)
    ⊎ ((readiness.proxy_configured ≡ true)
        × (readiness.anthropic_secret_present ≡ true)
        × (readiness.placeholder_injection_ok ≡ true))

abbrev EnvOutcome : RunnerAuthMode → OneCliReadiness → Result AuthError Env → Type 0
EnvOutcome mode readiness (ok env) = Authorized mode readiness × All NoSecret env
EnvOutcome mode readiness (err e) = ¬ Authorized mode readiness

credentialed :
    (mode : RunnerAuthMode) (tag : String) (readiness : OneCliReadiness)
    → ¬ (mode ≡ stub)
    → (o : Option AuthError) → first_failure readiness ≡ o
    → EnvOutcome mode readiness (elim o [
      | some failure ↦ err failure
      | none ↦ ok (
          ("ASSISTANT_RUNNER_MODE", tag)
          ∷ ("ANTHROPIC_API_KEY", "placeholder")
          ∷ ("CLAUDE_CODE_OAUTH_TOKEN", "")
          ∷ [])
    ])
credentialed mode tag readiness ne none e = (
  inr (ground arith, ground arith, ground arith),
  (inl refl, (inr (inl (refl, refl)), (inr (inr (refl, refl)), tt))),
)
credentialed mode tag readiness ne (some failure) e =
    λ h. elim h [ inl s ↦ ne s | inr r ↦ ground arith ]

prepare_runner_env-outcome :
    (mode : RunnerAuthMode) (readiness : OneCliReadiness)
    → EnvOutcome mode readiness (prepare_runner_env mode readiness)
unfolding prepare_runner_env
prepare_runner_env-outcome stub readiness = (inl refl, (inl refl, tt))
prepare_runner_env-outcome claude_oauth readiness =
    credentialed claude_oauth "claude_oauth" readiness (λ h. cc) (first_failure readiness) refl
prepare_runner_env-outcome specialist readiness =
    credentialed specialist "specialist" readiness (λ h. cc) (first_failure readiness) refl

-- What the outcome of a preparation says.
abbrev pub Prepares :
    (String → String)
    → List Mount
    → List PathBuf
    → ℕ
    → SchemaRange
    → RunnerAuthMode
    → OneCliReadiness
    → Result SpawnError SpawnSpec
    → Type 0
Prepares lower mounts roots found range mode readiness (ok spec) =
    InRange found range
    × All (Allowed lower roots) mounts
    × DistinctTargets mounts
    × Authorized mode readiness
    × (spec.mounts ≡ mounts)
    × All NoSecret spec.env
    × (spec.volumes ≡ [])
Prepares lower mounts roots found range mode readiness (err (unsupported_session_schema _ _ _)) =
    ¬ InRange found range
Prepares lower mounts roots found range mode readiness (err (mount_error _)) =
    ¬ (All (Allowed lower roots) mounts × DistinctTargets mounts)
Prepares lower mounts roots found range mode readiness (err (auth_error _)) =
    ¬ Authorized mode readiness

-- The three checks in turn, given their outcomes.
abbrev after_checks :
    String
    → ImageRef
    → List Mount
    → Result SpawnError (Unit {0})
    → Result MountError (Unit {0})
    → Result AuthError Env
    → Result SpawnError SpawnSpec
after_checks name image mounts schema v r = do
  _ ← schema
  _ ← map_err mount_error v
  env ← map_err auth_error r
  ok (record { name = name; image = image; mounts = mounts; env = env; volumes = [] })

-- A start is prepared exactly if the schema of the session is in range, every mount is allowed, no two
-- mounts have the same target, and the runner is the stub or the proxy, the secret and the placeholder
-- are all in order. A mount is allowed if its host path is under a root and has no `..`, no component
-- `.ssh` or `.aws` (in this spelling only), no blocked file name and no blocked extension (in any
-- case), and the inbound database is read-only. The specification that `prepare_spawn` returns has
-- these mounts, no volumes, and no variable with a secret; what callers add to it afterwards is not
-- spoken of. Otherwise the error says which of the three failed.
pub prepare_spawn_exact :
    (lower : String → String) (name : String) (image : ImageRef) (mounts : List Mount)
    → (roots : List PathBuf) (found : ℕ) (range : SchemaRange) (mode : RunnerAuthMode)
    → (readiness : OneCliReadiness)
    → Prepares lower mounts roots found range mode readiness
        (prepare_spawn lower name image mounts roots found range mode readiness)
unfolding prepare_spawn gate_session_schema
prepare_spawn_exact lower name image mounts roots found range mode readiness =
    at (supports range found) refl (validate_mounts lower mounts roots) refl
      (prepare_runner_env mode readiness) (prepare_runner_env-outcome mode readiness)
  where
    at :
        (b : Bool)
        → supports range found ≡ b
        → (v : Result MountError (Unit {0})) → validate_mounts lower mounts roots ≡ v
        → (r : Result AuthError Env) → EnvOutcome mode readiness r
        → Prepares lower mounts roots found range mode readiness (
            after_checks name image mounts
              (if b then ok tt else err (unsupported_session_schema found range.min range.max))
              v
              r)
    at false s v w r o = λ h. ground arith
    at true s (err e) w r o = λ h. let g = (validate_mounts-Allowed lower mounts roots).1 h in cc
    at true s (ok _) w (err e) o = o
    at true s (ok _) w (ok env) o =
        let a = (validate_mounts-Allowed lower mounts roots).0 w in
        (ground arith, a.0, a.1, o.0, refl, o.1, refl)
