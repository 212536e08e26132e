-- ===== src/Permissions/Run.antt =====
-- Every function of the crate that writes, as one type of calls, and a run of calls in any order.
use assistant_platform.Base.{ℕ, String, Option, List, [], ◌∷◌, RowIds}
use assistant_platform.Permissions.Model.{Role, Conn}
use assistant_platform.Permissions.Store.{
  create_user, bootstrap_owner, grant_role, revoke_role, add_user_dm,
}
use assistant_platform.Permissions.Standing.{InstructionClass, capture_as, deactivate}

-- `capture` is `capture_as` at a computed class.
pub data Call : Type 0 where
  creates : String → Option String → Call
  bootstraps : String → Option String → Call
  grants revokes : ℕ → ℕ → Role → Call
  adds_dm : ℕ → String → String → Call
  captures : ℕ → String → String → InstructionClass → Call
  deactivates : ℕ → ℕ → Call

-- The tables after a call, whether it succeeds or fails.
unfoldable pub after : RowIds → Conn → Call → Conn
after ids c (creates handle name) = (create_user ids c handle name).1
after ids c (bootstraps handle name) = (bootstrap_owner ids c handle name).1
after ids c (grants actor target role) = (grant_role c actor target role).1
after ids c (revokes actor target role) = (revoke_role c actor target role).1
after ids c (adds_dm user_id channel address) = (add_user_dm c user_id channel address).1
after ids c (captures actor scope body class) = (capture_as ids c actor scope body class).1
after ids c (deactivates actor id) = (deactivate c actor id).1

pub run : RowIds → Conn → List Call → Conn
run ids c [] = c
run ids c (call ∷ calls) = run ids (after ids c call) calls

-- The migrated database before the first call.
abbrev pub empty : Conn
empty = record { users = []; user_roles = []; user_dms = []; standing_instructions = [] }

pub run_induction {ℓ} :
    (P : Conn → Type ℓ) (ids : RowIds)
    → ((c : Conn) (call : Call) → P c → P (after ids c call))
    → (c : Conn) (calls : List Call) → P c
    → P (run ids c calls)
unfolding run
run_induction P ids step c [] h = h
run_induction P ids step c (call ∷ calls) h =
    run_induction P ids step (after ids c call) calls (step c call h)
