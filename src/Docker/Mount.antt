-- ===== src/Docker/Mount.antt =====
-- crates/assistant-runtime-docker/src/mount.rs. `str::to_ascii_lowercase` is the argument `lower`.
use assistant_platform.Base.{
  if◌then◌else◌, Result, ok, err, any, String, Bool, true, false, not, ◌&&◌, ◌||◌, Option, none,
  some, List, [], ◌∷◌, ◌++◌,
}
use assistant_platform.Docker.Path.{
  PathBuf, root_dir, normal, same_path, is_under, is_parent, is_named, file_name, extension,
}
use assistant_platform.Graph.Cycle.Paths.{listed}

pub data MountMode : Type 0 where
  read_only read_write : MountMode

abbrev pub is_read_only : MountMode → Bool
is_read_only read_only = true
is_read_only read_write = false

pub record Mount : Type 0 where
  pub host_path : PathBuf
  pub container_path : PathBuf
  pub mode : MountMode

pub record SessionPaths : Type 0 where
  pub inbound_db : PathBuf
  pub outbound_db : PathBuf
  pub heartbeat : PathBuf
  pub inbox_dir : PathBuf
  pub outbox_dir : PathBuf

pub record MemoryMountSpec : Type 0 where
  pub host_root : PathBuf
  pub container_path : PathBuf
  pub is_read_only : Bool

abbrev pub session_path : String → PathBuf
session_path name = root_dir ∷ normal "session" ∷ normal name ∷ []

abbrev pub container_inbound_db : PathBuf
container_inbound_db = session_path "inbound.db"

abbrev pub memory_mounts : Option MemoryMountSpec → List Mount
memory_mounts none = []
memory_mounts (some memory) =
    record {
      host_path = memory.host_root;
      container_path = memory.container_path;
      mode = if memory.is_read_only then read_only else read_write;
    }
    ∷ []

abbrev pub mount_of : MountMode → PathBuf → PathBuf → Mount
mount_of mode host container = record { host_path = host; container_path = container; mode = mode }

unfoldable pub build_session_mounts : SessionPaths → Option MemoryMountSpec → List Mount
build_session_mounts session memory =
    mount_of read_only session.inbound_db container_inbound_db
    ∷ mount_of read_write session.outbound_db (session_path "outbound.db")
    ∷ mount_of read_write session.heartbeat (session_path ".heartbeat")
    ∷ mount_of read_only session.inbox_dir (session_path "inbox")
    ∷ mount_of read_write session.outbox_dir (session_path "outbox")
    ∷ memory_mounts memory

abbrev pub blocked_names : List String
blocked_names =
    ".env" ∷ "credentials" ∷ "credentials.json" ∷ "id_rsa" ∷ "id_ed25519" ∷ ".npmrc" ∷ ".netrc" ∷ []

abbrev pub blocked_extensions : List String
blocked_extensions = "pem" ∷ "key" ∷ []

abbrev pub is_listed_in : (String → String) → Option String → List String → Bool
is_listed_in lower none names = false
is_listed_in lower (some s) names = listed (lower s) names

unfoldable pub is_blocked : (String → String) → PathBuf → Bool
is_blocked lower path =
    any (λ c. is_named ".ssh" c || is_named ".aws" c) path
    || is_listed_in lower (file_name path) blocked_names
    || is_listed_in lower (extension path) blocked_extensions

pub data MountError : Type 0 where
  outside_allowlist path_traversal blocked_path : PathBuf → MountError
  inbound_not_read_only : MountError
  duplicate_target : PathBuf → MountError

abbrev pub is_target : PathBuf → PathBuf → Bool
is_target path seen = same_path seen path

unfoldable pub validate_each :
    (String → String) → List PathBuf → List PathBuf → List Mount → Result MountError (Unit {0})
validate_each lower roots seen [] = ok tt
validate_each lower roots seen (m ∷ mounts) =
    let rest = validate_each lower roots (seen ++ m.container_path ∷ []) mounts in
    if any is_parent m.host_path
    then err (path_traversal m.host_path)
    else if is_blocked lower m.host_path
    then err (blocked_path m.host_path)
    else if not (any (is_under m.host_path) roots)
    then err (outside_allowlist m.host_path)
    else if same_path m.container_path container_inbound_db && not (is_read_only m.mode)
    then err inbound_not_read_only
    else if any (is_target m.container_path) seen
    then err (duplicate_target m.container_path)
    else rest

unfoldable pub validate_mounts :
    (String → String) → List Mount → List PathBuf → Result MountError (Unit {0})
validate_mounts lower mounts allowed_roots = validate_each lower allowed_roots [] mounts
