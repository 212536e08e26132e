-- ===== src/Permissions/Inactive.antt =====
-- Standing instructions that are deactivated, of crates/assistant-permissions/src/standing.rs.
use assistant_platform.Permissions.Access.{require_admin}
use assistant_platform.Permissions.Store.{
  create_user, is_administrative, bootstrap_owner, grant_role, revoke_role, add_user_dm,
}
use assistant_platform.Base.{
  ℕ, List, [], ◌∷◌, String, RowIds, ◌==◌, if◌then◌else◌, Bool-cases, All, any, update, any-append,
  All-of_map, any-update, ◌<◌, ◌≡◌, refl, inl, inr, Bool, true, false, not, ◌&&◌, Option, none,
  some, ◌++◌, map, arith,
}
use assistant_platform.Permissions.Model.{Conn, InstructionRow}
use assistant_platform.Permissions.Standing.{
  deactivate, active_standing_instructions, read_instruction,
}
use assistant_platform.Permissions.Run.{
  run, Call, after, run_induction, creates, bootstraps, grants, revokes, adds_dm, captures,
  deactivates,
}
use assistant_platform.Permissions.Capture.{
  any-listed, capture_as-stores, captured, is_shown, stores,
}

abbrev has_id : ℕ → InstructionRow → Bool
has_id id r = r.id == id

abbrev is_live : ℕ → InstructionRow → Bool
is_live id r = r.id == id && not (r.active == 0)

-- A row has the id, and none that has it is active.
abbrev IsGone : ℕ → List InstructionRow → Type 0
IsGone id rows = (any (has_id id) rows ≡ true) × (any (is_live id) rows ≡ false)

live-deactivated :
    (id j : ℕ) (rows : List InstructionRow)
    → any (is_live id) rows ≡ false
    → any (is_live id) (update (λ r. r.id == j) (λ r. record r { active = 0 }) rows) ≡ false
live-deactivated id j [] h = refl
live-deactivated id j (x ∷ rows) h = elim (Bool-cases (x.id == j)) [
  | inl y ↦ rw y (ground (arith, live-deactivated id j rows, h))
  | inr n ↦ rw n (ground (arith, live-deactivated id j rows, h))
]

live-own :
    (id : ℕ) (rows : List InstructionRow)
    → any (is_live id) (update (λ r. r.id == id) (λ r. record r { active = 0 }) rows) ≡ false
live-own id [] = refl
live-own id (x ∷ rows) = elim (Bool-cases (x.id == id)) [
  | inl y ↦ rw y (ground (arith, live-own id rows))
  | inr n ↦ rw (n, n) (live-own id rows)
]

IsGone-deactivated :
    (id j : ℕ) (rows : List InstructionRow)
    → IsGone id rows
    → IsGone id (update (λ r. r.id == j) (λ r. record r { active = 0 }) rows)
IsGone-deactivated id j rows h = (
  rw (any-update (has_id id) (λ r. r.id == j) (λ r. record r { active = 0 }) rows (λ x. refl)) h.0,
  live-deactivated id j rows h.1,
)

not_above :
    (id n : ℕ) (rows : List InstructionRow)
    → All (λ r. r.id < n) rows
    → any (has_id id) rows ≡ true
    → (n == id) ≡ false
not_above id n [] h k = absurd (cc)
not_above id n (x ∷ rows) h k = ground (arith, h.0, k, not_above id n rows h.1)

IsGone-push :
    (id : ℕ) (new : InstructionRow) (rows : List InstructionRow)
    → All (λ r. r.id < new.id) rows
    → IsGone id rows
    → IsGone id (rows ++ new ∷ [])
IsGone-push id new rows below h =
    let fresh = not_above id new.id rows below h.0 in
    (
      ground (arith, any-append (has_id id) rows (new ∷ []), h.0),
      ground (arith, any-append (is_live id) rows (new ∷ []), h.1, fresh),
    )

IsGone-if :
    (b : Bool) (id : ℕ) (xs ys : List InstructionRow)
    → IsGone id xs
    → IsGone id ys
    → IsGone id (if b then xs else ys)
IsGone-if true id xs ys h k = h
IsGone-if false id xs ys h k = k

deactivate-rows :
    (c : Conn) (actor j : ℕ)
    → (deactivate c actor j).1.standing_instructions ≡ (
        if is_administrative c actor
        then update (λ r. r.id == j) (λ r. record r { active = 0 }) c.standing_instructions
        else c.standing_instructions)
unfolding deactivate require_admin
deactivate-rows c actor j = ground arith

after-IsGone :
    (ids : RowIds) (id : ℕ) (c : Conn) (call : Call)
    → IsGone id c.standing_instructions
    → IsGone id (after ids c call).standing_instructions
unfolding after
after-IsGone ids id c (creates handle name) h =
    let same : (create_user ids c handle name).1.standing_instructions ≡ c.standing_instructions =
      unfold create_user in ground arith in
    rw same h
after-IsGone ids id c (bootstraps handle name) h =
    let same : (bootstrap_owner ids c handle name).1.standing_instructions
        ≡ c.standing_instructions =
      unfold bootstrap_owner in ground arith in
    rw same h
after-IsGone ids id c (grants actor target role) h =
    let same : (grant_role c actor target role).1.standing_instructions ≡ c.standing_instructions =
      unfold grant_role in ground arith in
    rw same h
after-IsGone ids id c (revokes actor target role) h =
    let same : (revoke_role c actor target role).1.standing_instructions ≡ c.standing_instructions =
      unfold revoke_role in ground arith in
    rw same h
after-IsGone ids id c (adds_dm user_id channel address) h =
    let same : (add_user_dm c user_id channel address).1.standing_instructions
        ≡ c.standing_instructions =
      unfold add_user_dm in ground arith in
    rw same h
after-IsGone ids id c (captures actor scope body class) h =
    let rows = c.standing_instructions in
    let new = captured ids c actor scope body in
    rw (capture_as-stores ids c actor scope body class) (
      IsGone-if (is_administrative c actor && stores class) id (rows ++ new ∷ []) rows
        (IsGone-push id new rows
          (All-of_map (λ (r : InstructionRow). r.id) (λ i. i < new.id) rows
            (ids.above (map (λ r. r.id) rows)))
          h)
        h)
after-IsGone ids id c (deactivates actor j) h =
    let rows = c.standing_instructions in
    rw (deactivate-rows c actor j) (
      IsGone-if (is_administrative c actor) id
        (update (λ r. r.id == j) (λ r. record r { active = 0 }) rows) rows
        (IsGone-deactivated id j rows h) h)

shown-live :
    (id : ℕ) (filter : Option String) (rows : List InstructionRow)
    → any (is_live id) rows ≡ false
    → any (λ r. is_shown filter r && (read_instruction r).id == id) rows ≡ false
shown-live id none [] h = refl
shown-live id (some scope) [] h = refl
shown-live id none (x ∷ rows) h = ground (arith, h, shown-live id none rows)
shown-live id (some scope) (x ∷ rows) h = ground (arith, h, shown-live id (some scope) rows)

-- An instruction that an administrative actor deactivates is in no listing, of all instructions or of
-- one scope, after any later calls of the crate that write.
pub deactivated_forever :
    (ids : RowIds) (c : Conn) (actor id : ℕ) (calls : List Call) (filter : Option String)
    → is_administrative c actor ≡ true
    → any (λ r. r.id == id) c.standing_instructions ≡ true
    → any
        (λ s. s.id == id)
        (active_standing_instructions (run ids (deactivate c actor id).1 calls) filter)
      ≡ false
unfolding active_standing_instructions
deactivated_forever ids c actor id calls filter may has =
    let rows = c.standing_instructions in
    let off = update (λ (r : InstructionRow). r.id == id) (λ r. record r { active = 0 }) rows in
    let first : IsGone id (deactivate c actor id).1.standing_instructions =
      rw (deactivate-rows c actor id, may)
        (
          rw
              (any-update (has_id id) (λ r. r.id == id) (λ r. record r { active = 0 }) rows
                (λ x. refl))
              has,
          live-own id rows,
        ) in
    let gone =
      run_induction (λ d. IsGone id d.standing_instructions) ids (after-IsGone ids id)
        (deactivate c actor id).1 calls first in
    rw
      (any-listed (λ s. s.id == id) filter
        (run ids (deactivate c actor id).1 calls).standing_instructions)
      (shown-live id filter (run ids (deactivate c actor id).1 calls).standing_instructions gone.1)
