-- ===== src/Permissions/Events.antt =====
-- crates/assistant-permissions/src/event.rs: the events and the in-memory sink.
use assistant_platform.Base.{ℕ, String, List, [], ◌∷◌, ◌++◌}
use assistant_platform.Permissions.Model.{Role}

pub data RoleChange : Type 0 where
  granted revoked : RoleChange

pub data PermissionEvent : Type 0 where
  membership_changed : ℕ → Role → RoleChange → PermissionEvent
  access_denied : String → String → String → PermissionEvent

-- `VecEventSink::record`
unfoldable pub record_event : List PermissionEvent → PermissionEvent → List PermissionEvent
record_event events event = events ++ event ∷ []
