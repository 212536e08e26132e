-- ===== src/Scheduler/Calendar.antt =====
-- crates/assistant-scheduler/src/model.rs: recurrences. The calendar of the crate chrono is a
-- parameter. Where the code unwraps, `none` is a panic.
use mathlib.Core.Option
use Prim.Native.Nat.{min}
use assistant_platform.Base.{
  ok, ltb, leb, ◌==◌, if◌then◌else◌, is_some, Result, err, ◌>>=◌, any, ℤ, pos, ltb_ℤ, leb_ℤ, ◌+ℤ◌,
  add_i64, ℕ, zero, suc, ◌/◌, ◌%◌, String, Bool, true, false, not, ◌&&◌, Option, none, some, List,
  [], ◌∷◌,
}

pub data Weekday : Type 0 where
  mon tue wed thu fri sat sun : Weekday

abbrev pub weekday_index : Weekday → ℕ
weekday_index mon = 0
weekday_index tue = 1
weekday_index wed = 2
weekday_index thu = 3
weekday_index fri = 4
weekday_index sat = 5
weekday_index sun = 6

-- The local result of a wall-clock time: none in a gap, two in an overlap.
pub data LocalResult : Type 0 where
  no_instant : LocalResult
  single : ℤ → LocalResult
  ambiguous : ℤ → ℤ → LocalResult

pub record Chrono : Type 1 where
  pub Tz : Type 0
  pub NaiveDate : Type 0
  pub NaiveTime : Type 0
  pub NaiveDateTime : Type 0
  pub tz_from_str : String → Option Tz
  pub from_hms_opt : ℕ → ℕ → ℕ → Option NaiveTime
  -- `tz.timestamp_opt(t, 0).single()`, then `date_naive`
  pub date_naive : Tz → ℤ → Option NaiveDate
  pub succ_opt : NaiveDate → Option NaiveDate
  pub pred_opt : NaiveDate → Option NaiveDate
  pub from_ymd_opt : ℤ → ℕ → ℕ → Option NaiveDate
  pub year : NaiveDate → ℤ
  pub month : NaiveDate → ℕ
  pub day : NaiveDate → ℕ
  pub weekday : NaiveDate → Weekday
  pub and_time : NaiveDate → NaiveTime → NaiveDateTime
  pub add_hour : NaiveDateTime → Option NaiveDateTime
  pub from_local_datetime : Tz → NaiveDateTime → LocalResult

pub data Recurrence : Type 0 where
  every : ℤ → Recurrence
  daily : ℕ → String → Recurrence
  weekly : List Weekday → ℕ → String → Recurrence
  monthly : ℕ → ℕ → String → Recurrence

-- The detail of `InvalidRecurrence`, by its cause.
pub data InvalidRecurrence : Type 0 where
  not_positive : ℤ → InvalidRecurrence
  no_weekday : InvalidRecurrence
  bad_day bad_minute : ℕ → InvalidRecurrence
  unknown_timezone : String → InvalidRecurrence

abbrev is_empty : List Weekday → Bool
is_empty [] = true
is_empty (_ ∷ _) = false

-- `single()` of a local result
abbrev pub only : LocalResult → Option ℤ
only (single t) = some t
only _ = none

module _ (ch : Chrono) where
  unfoldable pub validate_minute_of_day : ℕ → Result InvalidRecurrence (Unit {0})
  validate_minute_of_day minute = if ltb minute 1440 then ok tt else err (bad_minute minute)

  unfoldable pub validate_tz : String → Result InvalidRecurrence (Unit {0})
  validate_tz tz = if is_some (ch.tz_from_str tz) then ok tt else err (unknown_timezone tz)

  -- The two checks that the calendar recurrences end with.
  abbrev pub validate_time : ℕ → String → Result InvalidRecurrence (Unit {0})
  validate_time minute tz = do _ ← validate_minute_of_day minute; validate_tz tz

  unfoldable pub validate : Recurrence → Result InvalidRecurrence (Unit {0})
  validate (every seconds) = if ltb_ℤ (pos 0) seconds then ok tt else err (not_positive seconds)
  validate (daily minute tz) = validate_time minute tz
  validate (weekly weekdays minute tz) =
      if is_empty weekdays then err no_weekday else validate_time minute tz
  validate (monthly day minute tz) =
      if not (leb 1 day && leb day 31) then err (bad_day day) else validate_time minute tz

  abbrev pub next_month : ℤ → ℕ → ℤ × ℕ
  next_month year month = if month == 12 then (year +ℤ pos 1, 1) else (year, suc month)

  unfoldable pub days_in_month : ℤ → ℕ → Option ℕ
  days_in_month year month =
      let next = next_month year month in
      elim (ch.from_ymd_opt next.0 next.1 1) [
        | none ↦ none
        | some first_next ↦ Option.map ch.day (ch.pred_opt first_next)
      ]

  unfoldable pub clamp_day : ℕ → ch.NaiveDate → Option ℕ
  clamp_day day date =
      Option.map (λ days. min day days) (days_in_month (ch.year date) (ch.month date))

  unfoldable pub date_qualifies : Recurrence → ch.NaiveDate → Option Bool
  date_qualifies (weekly weekdays minute tz) date =
      some (any (λ w. weekday_index w == weekday_index (ch.weekday date)) weekdays)
  date_qualifies (monthly day minute tz) date =
      Option.map (λ d. ch.day date == d) (clamp_day day date)
  date_qualifies _ date = some true

  unfoldable pub resolve_local : ch.Tz → ch.NaiveDate → ch.NaiveTime → Option ℤ
  resolve_local tz date time =
      let naive = ch.and_time date time in
      elim (ch.from_local_datetime tz naive) [
        | single t ↦ some t
        | ambiguous earlier later ↦ some earlier
        | no_instant ↦ elim (ch.add_hour naive) [
          | none ↦ none
          | some shifted ↦ only (ch.from_local_datetime tz shifted)
        ]
      ]

  abbrev pub is_after : Bool → ℤ → ℤ → Bool
  is_after inclusive from epoch = if inclusive then leb_ℤ from epoch else ltb_ℤ from epoch

  -- What a qualifying day gives: its instant, if that is late enough.
  abbrev pub hit : Bool → ℤ → Option ℤ → Option ℤ
  hit inclusive from none = none
  hit inclusive from (some epoch) = if is_after inclusive from epoch then some epoch else none

  -- `date.succ_opt()?`
  abbrev pub next_day : (ch.NaiveDate → Option (Option ℤ)) → Option ch.NaiveDate → Option (Option ℤ)
  next_day go_on none = some none
  next_day go_on (some date) = go_on date

  -- One round of the loop: whether the day qualifies, what it gives, and the rounds that follow.
  abbrev pub this_day : Option Bool → Option ℤ → Option (Option ℤ) → Option (Option ℤ)
  this_day none found later = none
  this_day (some false) found later = later
  this_day (some true) none later = later
  this_day (some true) (some epoch) later = some (some epoch)

  -- The `for` loop over at most `n` days.
  unfoldable pub scan :
      Recurrence → Bool → ℤ → ch.Tz → ch.NaiveTime → ℕ → ch.NaiveDate → Option (Option ℤ)
  scan r inclusive from tz time zero date = some none
  scan r inclusive from tz time (suc n) date =
      let later = next_day (scan r inclusive from tz time n) (ch.succ_opt date) in
      this_day (date_qualifies r date) (hit inclusive from (resolve_local tz date time)) later

  abbrev pub minute_and_tz : Recurrence → Option (ℕ × String)
  minute_and_tz (every _) = none
  minute_and_tz (daily minute tz) = some (minute, tz)
  minute_and_tz (weekly _ minute tz) = some (minute, tz)
  minute_and_tz (monthly _ minute tz) = some (minute, tz)

  -- `tz.timestamp_opt(from, 0).single()?`, and the loop from that day
  abbrev pub scan_on :
      Recurrence → Bool → ℤ → ch.Tz → ch.NaiveTime → Option ch.NaiveDate → Option (Option ℤ)
  scan_on r inclusive from tz time none = some none
  scan_on r inclusive from tz time (some start) = scan r inclusive from tz time 400 start

  abbrev pub scan_from :
      Recurrence → Bool → ℤ → Option ch.Tz → Option ch.NaiveTime → Option (Option ℤ)
  scan_from r inclusive from none time = some none
  scan_from r inclusive from (some tz) none = some none
  scan_from r inclusive from (some tz) (some time) =
      scan_on r inclusive from tz time (ch.date_naive tz from)

  unfoldable pub calendar_match : Recurrence → ℤ → Bool → Option (Option ℤ)
  calendar_match r from inclusive = elim (minute_and_tz r) [
    | none ↦ some none
    | some (minute, tz) ↦
        scan_from r inclusive from (ch.tz_from_str tz)
          (ch.from_hms_opt (minute / 60) (minute % 60) 0)
  ]

  abbrev pub or_next_day : ℤ → Option ℤ → ℤ
  or_next_day t none = add_i64 t (pos 86400)
  or_next_day t (some epoch) = epoch

  unfoldable pub next_after : Recurrence → ℤ → Option ℤ
  next_after (every seconds) t = some (add_i64 t seconds)
  next_after r t = Option.map (or_next_day t) (calendar_match r t false)

  unfoldable pub first_on_or_after : Recurrence → ℤ → Option (Option ℤ)
  first_on_or_after (every _) now = some none
  first_on_or_after r now = calendar_match r now true
