-- ===== src/Permissions/Tests.antt =====
-- The crate at work on small databases, and instances of the theorems.
use assistant_platform.Base.{
  is_some, ok, err, any, ◌≡◌, refl, ◌↔◌, true, false, not, ◌||◌, none, some, List, [], ◌∷◌, ℕ, ◌⊎◌,
  Bool, ◌&&◌, ◌==◌,
}
use assistant_platform.Samples.{row_ids}
use assistant_platform.Permissions.Inactive.{deactivated_forever}
use assistant_platform.Permissions.Model.{
  Conn, member, admin, owner, as_str, parse, request_approval, not_authorized, Role, strict, public,
  allow,
}
use assistant_platform.Permissions.Store.{
  has_role, get_user, roles_of, is_administrative, owner_exists, grant_role, revoke_role,
  add_user_dm, resolve_user_by_dm,
}
use assistant_platform.Permissions.Access.{evaluate_sender}
use assistant_platform.Permissions.Standing.{
  persistent_instruction, memory_update, code_tool_invariant, classify, capture_as,
  read_instruction, active_standing_instructions, StandingInstruction, deactivate,
}
use assistant_platform.Permissions.Run.{
  run, Call, creates, bootstraps, grants, revokes, adds_dm, empty, captures, deactivates,
}
use assistant_platform.Permissions.Owner.{owner_fixed}
use assistant_platform.Permissions.Invariant.{run-IsSound, IsSound}
use assistant_platform.Permissions.Roles.{gate_exact, same_key, may_change, is_known}
use assistant_platform.Permissions.Routes.{
  resolve-add_user_dm_taken, evaluate_sender_exact, is_hold, is_deny, has_sender,
}
use assistant_platform.Permissions.Capture.{captured, active-capture_as, is_shown}

-- An owner (1), an administrator (2) and a member (3).
abbrev office : Conn
office = record {
  users =
      record { id = 1; handle = "owner"; display_name = none }
      ∷ record { id = 2; handle = "alice"; display_name = none }
      ∷ record { id = 3; handle = "bob"; display_name = none }
      ∷ [];
  user_roles =
      record { user_id = 1; role = "owner" }
      ∷ record { user_id = 2; role = "admin" }
      ∷ record { user_id = 3; role = "member" }
      ∷ [];
  user_dms = record { user_id = 3; channel = "slack"; address = "U-BOB" } ∷ [];
  standing_instructions = [];
}

abbrev attempts : List Call
attempts =
    bootstraps "mallory" none
    ∷ grants 2 3 owner
    ∷ revokes 2 1 owner
    ∷ grants 2 3 admin
    ∷ revokes 3 2 admin
    ∷ []

owner_fixed_example : has_role (run row_ids office attempts) 3 owner ≡ has_role office 3 owner
unfolding owner_exists
owner_fixed_example = owner_fixed row_ids office attempts refl 3

abbrev first_days : List Call
first_days =
    bootstraps "owner" none
    ∷ creates "alice" none
    ∷ grants 1 2 admin
    ∷ adds_dm 2 "slack" "U-ALICE"
    ∷ bootstraps "second" none
    ∷ []

run-IsSound_example : IsSound (run row_ids empty first_days)
run-IsSound_example = run-IsSound row_ids first_days

gate_exact_example :
    let may = may_change office 2 admin in
    let (granted, given) = grant_role office 2 3 admin in
    let (revoked, taken) = revoke_role office 2 3 admin in
    (granted ≡ err (not_authorized 2) ↔ may ≡ false)
    × (revoked ≡ err (not_authorized 2) ↔ may ≡ false)
    × (granted ≡ ok tt ↔ (may && is_known office 3) ≡ true)
    × (revoked ≡ ok tt ↔ may ≡ true)
    × ((u : ℕ) (r : Role)
        → has_role given u r
          ≡ (may && is_known office 3 && same_key u r 3 admin || has_role office u r))
    × ((u : ℕ) (r : Role)
        → has_role taken u r ≡ (not (may && same_key u r 3 admin) && has_role office u r))
    × (may ≡ false → (given ≡ office) × (taken ≡ office))
    × (is_known office 3 ≡ false → given ≡ office)
gate_exact_example = gate_exact office 2 3 admin

grant_admits : (grant_role office 2 3 admin).0 ≡ ok tt
unfolding grant_role is_administrative get_user
grant_admits = refl

revoke_admits : (revoke_role office 1 2 admin).0 ≡ ok tt
unfolding revoke_role is_administrative
revoke_admits = refl

dm_admits : (add_user_dm office 2 "slack" "U-ALICE").0 ≡ ok tt
unfolding add_user_dm get_user
dm_admits = refl

known : is_some (get_user office 2) ≡ true
unfolding get_user
known = refl

bob_resolves : resolve_user_by_dm office "slack" "U-BOB" ≡ some 3
unfolding resolve_user_by_dm
bob_resolves = refl

-- Alice registers Bob's address: the call succeeds, and the address still names Bob.
resolve-add_user_dm_taken_example :
    ((add_user_dm office 2 "slack" "U-BOB").0 ≡ ok tt)
    × (resolve_user_by_dm (add_user_dm office 2 "slack" "U-BOB").1 "slack" "U-BOB" ≡ some 3)
resolve-add_user_dm_taken_example =
    resolve-add_user_dm_taken office 2 3 "slack" "U-BOB" known refl bob_resolves

evaluate_sender_exact_example :
    let known = has_sender office "slack" "U-EVE" in
    let decision = evaluate_sender office "slack" "U-EVE" request_approval in
    (decision ≡ allow ↔ (known ≡ true) ⊎ (request_approval ≡ public))
    × (is_hold decision ≡ true ↔ (known ≡ false) × (request_approval ≡ request_approval))
    × (is_deny decision ≡ true ↔ (known ≡ false) × (request_approval ≡ strict))
evaluate_sender_exact_example = evaluate_sender_exact office "slack" "U-EVE" request_approval

admin_two : is_administrative office 2 ≡ true
unfolding is_administrative
admin_two = refl

active-capture_as_example :
    ((p : StandingInstruction → Bool)
      → any p (active_standing_instructions office (some "global"))
        ≡ any
            (λ r. is_shown (some "global") r && p (read_instruction r))
            office.standing_instructions)
    × (active_standing_instructions
          (capture_as row_ids office 2 "global" "greet me" persistent_instruction).1
          (some "global")
        ≡ read_instruction (captured row_ids office 2 "global" "greet me")
          ∷ active_standing_instructions office (some "global"))
active-capture_as_example =
    active-capture_as row_ids office 2 "global" "greet me" (some "global") admin_two

-- The office after an instruction has been captured.
abbrev noted : Conn
noted = record office {
  standing_instructions =
      record { id = 1; user_id = 2; scope = "global"; body = "greet me"; active = 1 } ∷ [];
}

admin_noted : is_administrative noted 2 ≡ true
unfolding is_administrative
admin_noted = refl

deactivated_forever_example :
    any
      (λ s. s.id == 1)
      (active_standing_instructions
        (run row_ids
          (deactivate noted 2 1).1
          (captures 2 "global" "greet me" persistent_instruction ∷ deactivates 3 2 ∷ []))
        (some "global"))
    ≡ false
deactivated_forever_example =
    deactivated_forever row_ids noted 2 1
      (captures 2 "global" "greet me" persistent_instruction ∷ deactivates 3 2 ∷ []) (some "global")
      admin_noted refl

classify_cases :
    (classify (λ s. s) "never deploy to production on fridays" ≡ code_tool_invariant)
    × (classify (λ s. s) "from now on, always greet me in french" ≡ persistent_instruction)
    × (classify (λ s. s) "my dog's name is rex" ≡ memory_update)
unfolding classify
classify_cases = (refl, refl, refl)

roles_in_order : roles_of (grant_role office 2 3 admin).1 3 ≡ admin ∷ member ∷ []
unfolding roles_of grant_role is_administrative get_user parse as_str
roles_in_order = refl
