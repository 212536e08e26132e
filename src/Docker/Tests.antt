-- ===== src/Docker/Tests.antt =====
-- A session container of the stub runner, and paths that no container gets.
use assistant_platform.Base.{ok, String, ◌≡◌, refl, true, false, none, List, [], ◌∷◌}
use assistant_platform.Docker.Path.{PathBuf, root_dir, normal}
use assistant_platform.Docker.Mount.{
  SessionPaths, build_session_mounts, is_blocked, validate_each, validate_mounts,
}
use assistant_platform.Docker.Spawn.{stub, OneCliReadiness, ImageRef, SchemaRange, prepare_spawn}
use assistant_platform.Docker.Prepared.{Prepares, prepare_spawn_exact}

abbrev under_home : String → PathBuf
under_home name = root_dir ∷ normal "home" ∷ normal name ∷ []

abbrev paths : SessionPaths
paths = record {
  inbound_db = under_home "inbound.db";
  outbound_db = under_home "outbound.db";
  heartbeat = under_home ".heartbeat";
  inbox_dir = under_home "inbox";
  outbox_dir = under_home "outbox";
}

abbrev roots : List PathBuf
roots = (root_dir ∷ normal "home" ∷ []) ∷ []

abbrev image : ImageRef
image = record { repository = "assistant-base"; tag = "7"; digest = none }

abbrev range : SchemaRange
range = record { min = 3; max = 5 }

abbrev unready : OneCliReadiness
unready = record {
  proxy_configured = true;
  anthropic_secret_present = false;
  placeholder_injection_ok = true;
}

mounts_pass : validate_mounts (λ s. s) (build_session_mounts paths none) roots ≡ ok tt
unfolding validate_mounts validate_each build_session_mounts is_blocked
mounts_pass = refl

key_is_blocked : is_blocked (λ s. s) (under_home "server.key") ≡ true
unfolding is_blocked
key_is_blocked = refl

prepare_spawn_exact_example :
    Prepares
      (λ s. s)
      (build_session_mounts paths none)
      roots
      4
      range
      stub
      unready
      (prepare_spawn
        (λ s. s)
        "run-1"
        image
        (build_session_mounts paths none)
        roots
        4
        range
        stub
        unready)
prepare_spawn_exact_example =
    prepare_spawn_exact (λ s. s) "run-1" image (build_session_mounts paths none) roots 4 range stub
      unready
