-- ===== src/Scheduler/Items.antt =====
-- The projected items: the SQL of each transition against the state machine.
use mathlib.Core.Option
use assistant_platform.Base.{
  ok, if◌then◌else◌, Option-cases, err, find, find-update, find-holds, String, ◌≡◌, refl, inl, inr,
  Bool, true, ◌&&◌, some, arith, str_eq, ap, ◌≢◌, false, ◌||◌, eq_iff,
}
use assistant_platform.Scheduler.Model.{
  apply, ScheduleStatus, LifecycleTransition, pause, resume, cancel, complete, active, paused,
  cancelled, completed,
}
use assistant_platform.Scheduler.Model
use assistant_platform.Scheduler.Tables.{Conn, ItemRow}
use assistant_platform.Scheduler.Projection.{
  has_item, set_status_from, complete_item, cancel_item, pause_item, resume_item, item_status,
  read_status,
}

-- The function of the projection for each transition.
abbrev pub project_transition : LifecycleTransition → Conn → String → Conn
project_transition pause c id = pause_item c id
project_transition resume c id = resume_item c id
project_transition cancel c id = cancel_item c id
project_transition complete c id = complete_item c id

-- Where the state machine leads; an illegal transition leads nowhere.
abbrev pub led_to : ScheduleStatus → LifecycleTransition → ScheduleStatus
led_to s transition = elim (apply s transition) [ ok next ↦ next | err _ ↦ s ]

find-set_status :
    (from : String → Bool) (status : String) (c : Conn) (id other : String)
    → find (has_item other) (set_status_from from status c id).scheduled_items
      ≡ Option.map
          (λ row.
            if has_item id row && from row.status then record row { status = status } else row)
          (find (has_item other) c.scheduled_items)
find-set_status from status c id other =
    find-update (has_item other) (λ row. has_item id row && from row.status)
      (λ row. record row { status = status }) c.scheduled_items (λ x. refl)

status_of_row :
    (c : Conn) (id : String) (s : ScheduleStatus)
    → item_status c id ≡ ok (some s)
    → (row : ItemRow) × (find (has_item id) c.scheduled_items ≡ some row)
      × (has_item id row ≡ true)
      × (Model.parse row.status ≡ some s)
unfolding item_status
status_of_row c id s h = elim (Option-cases (find (has_item id) c.scheduled_items)) [
  | inl e ↦ absurd (ground arith)
  | inr (row, e) ↦ (row, e, find-holds (has_item id) c.scheduled_items row e, ground arith)
]

text_of_status :
    (text : String) (s : ScheduleStatus) → Model.parse text ≡ some s → text ≡ Model.as_str s
unfolding Model.parse Model.as_str
text_of_status text s h = ground (
  arith,
  eq_iff text "active",
  eq_iff text "paused",
  eq_iff text "cancelled",
  eq_iff text "completed",
)

-- The text of a status after the UPDATE of a transition.
abbrev moved_text : LifecycleTransition → String → String
moved_text pause text = if str_eq text "active" then "paused" else text
moved_text resume text = if str_eq text "paused" then "active" else text
moved_text cancel text = if str_eq text "active" || str_eq text "paused" then "cancelled" else text
moved_text complete text = if str_eq text "active" then "completed" else text

moved_text-led_to :
    (s : ScheduleStatus) (transition : LifecycleTransition)
    → Model.parse (moved_text transition (Model.as_str s)) ≡ some (led_to s transition)
unfolding Model.parse Model.as_str apply
moved_text-led_to active pause = refl
moved_text-led_to active resume = refl
moved_text-led_to active cancel = refl
moved_text-led_to active complete = refl
moved_text-led_to paused pause = refl
moved_text-led_to paused resume = refl
moved_text-led_to paused cancel = refl
moved_text-led_to paused complete = refl
moved_text-led_to cancelled pause = refl
moved_text-led_to cancelled resume = refl
moved_text-led_to cancelled cancel = refl
moved_text-led_to cancelled complete = refl
moved_text-led_to completed pause = refl
moved_text-led_to completed resume = refl
moved_text-led_to completed cancel = refl
moved_text-led_to completed complete = refl

moved_row :
    (b : Bool) (row : ItemRow) (text : String)
    → (if b then record row { status = text } else row).status ≡ (if b then text else row.status)
moved_row true row text = refl
moved_row false row text = refl

-- Each UPDATE moves the text of the row of its id so.
find-moved :
    (from : String → Bool) (status : String) (c : Conn) (id : String) (row : ItemRow)
    → find (has_item id) c.scheduled_items ≡ some row
    → has_item id row ≡ true
    → (row' : ItemRow) × (find (has_item id) (set_status_from from status c id).scheduled_items
        ≡ some row')
      × (row'.status ≡ (if from row.status then status else row.status))
find-moved from status c id row e k = (
  if from row.status then record row { status = status } else row,
  rw (find-set_status from status c id id, e, k) refl,
  moved_row (from row.status) row status,
)

find-transition :
    (transition : LifecycleTransition) (c : Conn) (id : String) (row : ItemRow)
    → find (has_item id) c.scheduled_items ≡ some row
    → has_item id row ≡ true
    → (row' : ItemRow) × (find (has_item id) (project_transition transition c id).scheduled_items
        ≡ some row')
      × (row'.status ≡ moved_text transition row.status)
unfolding pause_item resume_item cancel_item complete_item
find-transition pause c id row e k = find-moved (λ x. str_eq x "active") "paused" c id row e k
find-transition resume c id row e k = find-moved (λ x. str_eq x "paused") "active" c id row e k
find-transition cancel c id row e k =
    find-moved (λ x. str_eq x "active" || str_eq x "paused") "cancelled" c id row e k
find-transition complete c id row e k = find-moved (λ x. str_eq x "active") "completed" c id row e k

transition-other :
    (from : String → Bool) (status : String) (c : Conn) (id other : String)
    → other ≢ id
    → find (has_item other) (set_status_from from status c id).scheduled_items
      ≡ find (has_item other) c.scheduled_items
transition-other from status c id other ne =
    elim (Option-cases (find (has_item other) c.scheduled_items)) [
      | inl e ↦ rw (find-set_status from status c id other, e) refl
      | inr (row, e) ↦
          let miss : has_item id row ≡ false = ground (
            arith,
            find-holds (has_item other) c.scheduled_items row e,
            eq_iff row.id other,
            eq_iff row.id id,
          ) in
          rw (find-set_status from status c id other, e, miss) refl
    ]

transition-others :
    (transition : LifecycleTransition) (c : Conn) (id other : String)
    → other ≢ id
    → item_status (project_transition transition c id) other ≡ item_status c other
unfolding item_status pause_item resume_item cancel_item complete_item
transition-others pause c id other ne = ap read_status (transition-other _ _ c id other ne)
transition-others resume c id other ne = ap read_status (transition-other _ _ c id other ne)
transition-others cancel c id other ne = ap read_status (transition-other _ _ c id other ne)
transition-others complete c id other ne = ap read_status (transition-other _ _ c id other ne)

-- Each transition of the projection moves a stored item as the state machine says, leaves it where it
-- is when the state machine refuses, and moves no other item.
pub item_status-transition :
    (transition : LifecycleTransition) (c : Conn) (id : String) (s : ScheduleStatus)
    → item_status c id ≡ ok (some s)
    → (item_status (project_transition transition c id) id ≡ ok (some (led_to s transition)))
      × ((other : String)
          → other ≢ id
          → item_status (project_transition transition c id) other ≡ item_status c other)
item_status-transition transition c id s h =
    let (row, e, k, p) = status_of_row c id s h in
    let (row', e', text) = find-transition transition c id row e k in
    let read : Model.parse row'.status ≡ some (led_to s transition) =
      rw (text, text_of_status row.status s p) (moved_text-led_to s transition) in
    (
      unfold item_status in rw (e', read) refl,
      λ other ne. transition-others transition c id other ne,
    )
