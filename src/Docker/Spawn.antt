-- ===== src/Docker/Spawn.antt =====
-- crates/assistant-runtime-docker/src/auth.rs, image.rs and lifecycle.rs, up to the runtime. Durations
-- are natural numbers of nanoseconds.
use Prim.Native.String.{◌++◌ as ◌<>◌}
use assistant_platform.Base.{
  leb, if◌then◌else◌, Result, ok, err, ◌>>=◌, map_err, ℕ, String, Bool, not, ◌&&◌, Option, none,
  some, List, [], ◌∷◌, ◌++◌,
}
use assistant_platform.Core.Validate.{concat_map}
use assistant_platform.Docker.Path.{PathBuf}
use assistant_platform.Docker.Mount.{Mount, is_read_only, MountError, validate_mounts}

pub data RunnerAuthMode : Type 0 where
  stub claude_oauth specialist : RunnerAuthMode

pub record OneCliReadiness : Type 0 where
  pub proxy_configured : Bool
  pub anthropic_secret_present : Bool
  pub placeholder_injection_ok : Bool

abbrev pub is_ready : OneCliReadiness → Bool
is_ready r = r.proxy_configured && r.anthropic_secret_present && r.placeholder_injection_ok

pub data AuthError : Type 0 where
  one_cli_proxy_missing anthropic_secret_missing placeholder_injection_failed : AuthError

abbrev pub first_failure : OneCliReadiness → Option AuthError
first_failure r =
    if not r.proxy_configured
    then some one_cli_proxy_missing
    else if not r.anthropic_secret_present
    then some anthropic_secret_missing
    else if not r.placeholder_injection_ok
    then some placeholder_injection_failed
    else none

abbrev pub Env : Type 0
Env = List (String × String)

abbrev pub claude_credentialed_env : String → OneCliReadiness → Result AuthError Env
claude_credentialed_env runner_mode readiness = elim (first_failure readiness) [
  | some failure ↦ err failure
  | none ↦ ok (
      ("ASSISTANT_RUNNER_MODE", runner_mode)
      ∷ ("ANTHROPIC_API_KEY", "placeholder")
      ∷ ("CLAUDE_CODE_OAUTH_TOKEN", "")
      ∷ [])
]

unfoldable pub prepare_runner_env : RunnerAuthMode → OneCliReadiness → Result AuthError Env
prepare_runner_env stub readiness = ok (("ASSISTANT_RUNNER_MODE", "stub") ∷ [])
prepare_runner_env claude_oauth readiness = claude_credentialed_env "claude_oauth" readiness
prepare_runner_env specialist readiness = claude_credentialed_env "specialist" readiness

pub record ImageRef : Type 0 where
  pub repository : String
  pub tag : String
  pub digest : Option String

abbrev pub reference : ImageRef → String
reference image = elim image.digest [
  | some digest ↦ image.repository <> "@" <> digest
  | none ↦ image.repository <> ":" <> image.tag
]

pub record SchemaRange : Type 0 where
  pub min : ℕ
  pub max : ℕ

abbrev pub supports : SchemaRange → ℕ → Bool
supports range found = leb range.min found && leb found range.max

pub data SpawnError : Type 0 where
  unsupported_session_schema : ℕ → ℕ → ℕ → SpawnError
  mount_error : MountError → SpawnError
  auth_error : AuthError → SpawnError

unfoldable pub gate_session_schema : ℕ → SchemaRange → Result SpawnError (Unit {0})
gate_session_schema found range =
    if supports range found
    then ok tt
    else err (unsupported_session_schema found range.min range.max)

pub record SpawnSpec : Type 0 where
  pub name : String
  pub image : ImageRef
  pub mounts : List Mount
  pub env : Env
  pub volumes : List String

unfoldable pub prepare_spawn :
    (String → String)
    → String
    → ImageRef
    → List Mount
    → List PathBuf
    → ℕ
    → SchemaRange
    → RunnerAuthMode
    → OneCliReadiness
    → Result SpawnError SpawnSpec
prepare_spawn lower name image mounts allowed_roots found range auth_mode onecli = do
  _ ← gate_session_schema found range
  _ ← map_err mount_error (validate_mounts lower mounts allowed_roots)
  env ← map_err auth_error (prepare_runner_env auth_mode onecli)
  ok (record { name = name; image = image; mounts = mounts; env = env; volumes = [] })

-- `display` of a path is the argument `show`.
unfoldable pub docker_run_args : (PathBuf → String) → SpawnSpec → List String
docker_run_args show spec =
    ("run" ∷ "--detach" ∷ "--rm" ∷ "--name" ∷ spec.name ∷ [])
    ++ (concat_map
          (λ m.
            "--mount"
            ∷ ("type=bind,source="
                <> show m.host_path
                <> ",target="
                <> show m.container_path
                <> (if is_read_only m.mode then ",readonly" else ""))
            ∷ [])
          spec.mounts
        ++ (concat_map (λ v. "--volume" ∷ v ∷ []) spec.volumes
            ++ (concat_map (λ (e : String × String). "--env" ∷ (e.0 <> "=" <> e.1) ∷ []) spec.env
                ++ reference spec.image ∷ [])))

pub data RuntimeState : Type 0 where
  running idle stale stopped : RuntimeState

pub record LifecyclePolicy : Type 0 where
  pub idle_after : ℕ
  pub stale_after : ℕ

abbrev pub classify : Option ℕ → LifecyclePolicy → RuntimeState
classify none policy = stopped
classify (some since) policy =
    if leb since policy.idle_after
    then running
    else if leb since policy.stale_after
    then idle
    else stale

pub data ReapAction : Type 0 where
  keep stop_idle force_reap : ReapAction

abbrev pub reap_action : RuntimeState → ReapAction
reap_action running = keep
reap_action stopped = keep
reap_action idle = stop_idle
reap_action stale = force_reap
