-- ===== src/Permissions/Capture.antt =====
-- Who can write a standing instruction, what is written, and what is listed afterwards.
use assistant_platform.Permissions.Access.{require_admin}
use assistant_platform.Base.{
  ℕ, if◌then◌else◌, err, RowIds, String, ◌≡◌, ◌↔◌, Bool, true, false, ◌&&◌, [], ◌∷◌, ◌++◌, map,
  arith, Bool-cases, select, order_desc, select-append, All-select, All-of_map, order_desc-push,
  ◌<◌, refl, inl, inr, Option, append-nil, ◌==◌, any, insert_desc, ◌||◌, none, some, List, str_eq,
}
use assistant_platform.Permissions.Model.{Conn, not_authorized, InstructionRow}
use assistant_platform.Permissions.Store.{is_administrative}
use assistant_platform.Permissions.Standing.{
  capture, InstructionClass, persistent_instruction, capture_as, read_instruction, is_active_in,
  active_standing_instructions, StandingInstruction,
}

-- Whatever the class, the scope and the text, a capture by an actor who is not administrative is
-- refused and changes nothing.
pub capture_denied :
    (lowercase : String → String) (ids : RowIds) (c : Conn) (actor : ℕ) (scope body : String)
    → (is_administrative c actor ≡ false)
      ↔ (capture lowercase ids c actor scope body ≡ (err (not_authorized actor), c))
unfolding capture require_admin
capture_denied lowercase ids c actor scope body = (λ h. ground arith, λ h. ground arith)

abbrev pub stores : InstructionClass → Bool
stores persistent_instruction = true
stores _ = false

-- A capture adds a row exactly if the actor is administrative and the class is persistent; then one
-- row, active, with the given text.
pub capture_as-stores :
    (ids : RowIds) (c : Conn) (actor : ℕ) (scope body : String) (class : InstructionClass)
    → (capture_as ids c actor scope body class).1.standing_instructions ≡ (
        if is_administrative c actor && stores class
        then c.standing_instructions
          ++ record {
            id = ids.next (map (λ r. r.id) c.standing_instructions);
            user_id = actor;
            scope = scope;
            body = body;
            active = 1;
          }
            ∷ []
        else c.standing_instructions)
unfolding capture_as require_admin
capture_as-stores ids c actor scope body class = ground arith

-- The row that a capture stores.
abbrev pub captured : RowIds → Conn → ℕ → String → String → InstructionRow
captured ids c actor scope body = record {
  id = ids.next (map (λ r. r.id) c.standing_instructions);
  user_id = actor;
  scope = scope;
  body = body;
  active = 1;
}

listed-push :
    (ids : RowIds) (c : Conn) (actor : ℕ) (scope body : String) (filter : Option String)
    → order_desc
        (λ r. r.id)
        (select
          (is_active_in filter)
          (c.standing_instructions ++ captured ids c actor scope body ∷ []))
      ≡ (if is_active_in filter (captured ids c actor scope body)
          then captured ids c actor scope body
            ∷ order_desc (λ r. r.id) (select (is_active_in filter) c.standing_instructions)
          else order_desc (λ r. r.id) (select (is_active_in filter) c.standing_instructions))
listed-push ids c actor scope body filter =
    let rows = c.standing_instructions in
    let new = captured ids c actor scope body in
    let below =
      All-of_map (λ (r : InstructionRow). r.id) (λ i. i < new.id) rows
        (ids.above (map (λ r. r.id) rows)) in
    let selected =
      All-select (λ (r : InstructionRow). r.id < new.id) (is_active_in filter) rows below in
    rw (select-append (is_active_in filter) rows (new ∷ []))
      (elim (Bool-cases (is_active_in filter new)) [
        | inl e ↦
            rw e (order_desc-push (λ r. r.id) new (select (is_active_in filter) rows) selected)
        | inr e ↦ rw (e, append-nil (select (is_active_in filter) rows)) refl
      ])

-- An active row, whose scope is the one asked for, if one is.
abbrev pub is_shown : Option String → InstructionRow → Bool
is_shown none r = r.active == 1
is_shown (some scope) r = r.active == 1 && str_eq r.scope scope

any-insert_desc :
    (p : StandingInstruction → Bool) (x : InstructionRow) (rows : List InstructionRow)
    → any p (map read_instruction (insert_desc (λ r. r.id) x rows))
      ≡ (p (read_instruction x) || any p (map read_instruction rows))
any-insert_desc p x [] = refl
any-insert_desc p x (y ∷ rows) = ground (arith, any-insert_desc p x rows)

-- A listing shows the rows that are shown, and no others.
pub any-listed :
    (p : StandingInstruction → Bool) (filter : Option String) (rows : List InstructionRow)
    → any p (map read_instruction (order_desc (λ r. r.id) (select (is_active_in filter) rows)))
      ≡ any (λ r. is_shown filter r && p (read_instruction r)) rows
any-listed p none [] = refl
any-listed p (some scope) [] = refl
any-listed p none (x ∷ rows) = ground (
  arith,
  any-listed p none rows,
  any-insert_desc p x (order_desc (λ r. r.id) (select (is_active_in none) rows)),
)
any-listed p (some scope) (x ∷ rows) = ground (
  arith,
  any-listed p (some scope) rows,
  any-insert_desc p x (order_desc (λ r. r.id) (select (is_active_in (some scope)) rows)),
)

-- A listing, of all instructions or of one scope, shows exactly the active ones of it. Right after an
-- administrative actor has captured a persistent instruction it stands first in the listing of all and
-- in that of its scope, before what they showed; the listing of another scope stays as it was.
pub active-capture_as :
    (ids : RowIds) (c : Conn) (actor : ℕ) (scope body : String) (filter : Option String)
    → is_administrative c actor ≡ true
    → let c' = (capture_as ids c actor scope body persistent_instruction).1 in
      ((p : StandingInstruction → Bool)
        → any p (active_standing_instructions c filter)
          ≡ any (λ r. is_shown filter r && p (read_instruction r)) c.standing_instructions)
      × (active_standing_instructions c' filter ≡ (
          if elim filter [ none ↦ true | some s ↦ str_eq scope s ]
          then read_instruction (captured ids c actor scope body)
            ∷ active_standing_instructions c filter
          else active_standing_instructions c filter))
unfolding active_standing_instructions
active-capture_as ids c actor scope body filter h = (
  λ p. any-listed p filter c.standing_instructions,
  rw
      (
        capture_as-stores ids c actor scope body persistent_instruction,
        h,
        listed-push ids c actor scope body filter,
      )
      (ground arith),
)
