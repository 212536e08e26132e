-- ===== src/Scheduler/Cadence.antt =====
-- A recurrence moves forward, from the scheduled time.
use mathlib.Core.Option
use Prim.Native.Nat.{min}
use assistant_platform.Base.{
  ◌==◌, if◌then◌else◌, is_some, any, ℤ, pos, negsuc, pos_part, neg_part, ltb_ℤ, leb_ℤ, minus, ◌+ℤ◌,
  add_i64, ℕ, zero, suc, ◌+◌, ◌-◌, ◌^◌, ◌≡◌, refl, Bool, true, Option, none, some, arith,
  Bool-cases, Option-cases, ok, ◌/◌, ◌%◌, inl, inr, false,
}
use assistant_platform.Scheduler.Calendar.{
  Chrono, weekday_index, Recurrence, every, daily, weekly, monthly, days_in_month, clamp_day,
  date_qualifies, is_after, scan, validate, resolve_local, hit, next_day, this_day, scan_from,
  calendar_match, or_next_day, next_after, scan_on,
}
use assistant_platform.Decimal.{in_i64}

-- The last year of the calendar: chrono's last date is in December 262142.
abbrev pub last_year : ℤ
last_year = pos 262142

-- Before the last year the month of every date has a last day, which the code unwraps.
abbrev pub MonthsEnd : Chrono → Type 0
MonthsEnd ch =
    (d : ch.NaiveDate)
    → ltb_ℤ (ch.year d) last_year ≡ true
    → is_some (days_in_month ch (ch.year d) (ch.month d)) ≡ true

-- The next day is in the same year or the next one.
abbrev pub DaysFollow : Chrono → Type 0
DaysFollow ch =
    (d e : ch.NaiveDate) → ch.succ_opt d ≡ some e → leb_ℤ (ch.year e) (ch.year d +ℤ pos 1) ≡ true

-- Four hundred years after the time, wherever it is read, the calendar has not ended.
abbrev pub IsEarly : Chrono → ℤ → Type 0
IsEarly ch t =
    (tz : ch.Tz) (d : ch.NaiveDate)
    → ch.date_naive tz t ≡ some d
    → leb_ℤ (ch.year d +ℤ pos 400) last_year ≡ true

-- The step stays in `i64`.
abbrev pub StepFits : Recurrence → ℤ → Type 0
StepFits (every seconds) t = in_i64 (t +ℤ seconds) ≡ true
StepFits _ t = in_i64 (t +ℤ pos 86400) ≡ true

add_in_range : (a b : ℤ) → in_i64 (a +ℤ b) ≡ true → add_i64 a b ≡ a +ℤ b
unfolding add_i64
add_in_range a b h = go (a +ℤ b) h
  where
    go :
        (s : ℤ)
        → in_i64 s ≡ true
        → (if leb_ℤ (pos (2 ^ 63)) s
            then minus (pos_part s + neg_part s) (2 ^ 64)
            else if ltb_ℤ s (negsuc (2 ^ 63 - 1))
            then minus (2 ^ 64) (pos_part s + neg_part s)
            else s)
          ≡ s
    go (pos n) k = ground arith
    go (negsuc n) k = ground arith

ltb-add : (a b : ℤ) → ltb_ℤ (pos 0) b ≡ true → ltb_ℤ a (a +ℤ b) ≡ true
ltb-add a b h = ground arith

before_last :
    (year : ℤ) (n : ℕ) → leb_ℤ (year +ℤ pos (suc n)) last_year ≡ true → ltb_ℤ year last_year ≡ true
before_last (pos y) n h = ground arith
before_last (negsuc y) n h = ground arith

still_early :
    (year later : ℤ) (n : ℕ)
    → leb_ℤ (year +ℤ pos (suc n)) last_year ≡ true
    → leb_ℤ later (year +ℤ pos 1) ≡ true
    → leb_ℤ (later +ℤ pos n) last_year ≡ true
still_early (pos y) (pos z) n h g = ground arith
still_early (pos y) (negsuc z) n h g = ground arith
still_early (negsuc y) (pos z) n h g = ground arith
still_early (negsuc y) (negsuc z) n h g = ground arith

module _ (ch : Chrono) (ends : MonthsEnd ch) (follow : DaysFollow ch) where
  -- Every date before the last year has an answer.
  qualifies_is_some :
      (r : Recurrence) (d : ch.NaiveDate)
      → ltb_ℤ (ch.year d) last_year ≡ true
      → (b : Bool) × (date_qualifies ch r d ≡ some b)
  unfolding date_qualifies clamp_day
  qualifies_is_some (every s) d early = (true, refl)
  qualifies_is_some (daily m tz) d early = (true, refl)
  qualifies_is_some (weekly ws m tz) d early =
      (any (λ w. weekday_index w == weekday_index (ch.weekday d)) ws, refl)
  qualifies_is_some (monthly day m tz) d early =
      elim (Option-cases (days_in_month ch (ch.year d) (ch.month d))) [
        | inl e ↦ absurd (ground (arith, ends d early, e))
        | inr (days, e) ↦ (ch.day d == min day days, rw e refl)
      ]

  -- A search that ends, and finds nothing too early.
  abbrev Good : Bool → ℤ → Option (Option ℤ) → Type 0
  Good inclusive from r =
      (o : Option ℤ) × (r ≡ some o)
      × ((epoch : ℤ) → o ≡ some epoch → is_after ch inclusive from epoch ≡ true)

  hit-is_after :
      (inclusive : Bool) (from : ℤ) (found : Option ℤ) (epoch : ℤ)
      → hit ch inclusive from found ≡ some epoch
      → is_after ch inclusive from epoch ≡ true
  hit-is_after inclusive from none epoch h = cc
  hit-is_after inclusive from (some e) epoch h = elim (Bool-cases (is_after ch inclusive from e)) [
    | inl y ↦ let same : e ≡ epoch = ground arith in rw (← same) y
    | inr n ↦ absurd (ground (arith, h, n))
  ]

  this_day-Good :
      (inclusive : Bool) (from : ℤ) (b : Bool) (found : Option ℤ) (later : Option (Option ℤ))
      → ((epoch : ℤ) → found ≡ some epoch → is_after ch inclusive from epoch ≡ true)
      → Good inclusive from later
      → Good inclusive from (this_day ch (some b) found later)
  this_day-Good inclusive from false found later f l = l
  this_day-Good inclusive from true none later f l = l
  this_day-Good inclusive from true (some epoch) later f l = (some epoch, refl, f)

  next_day-Good :
      (inclusive : Bool) (from : ℤ) (go_on : ch.NaiveDate → Option (Option ℤ))
      (d : Option ch.NaiveDate)
      → ((x : ch.NaiveDate) → d ≡ some x → Good inclusive from (go_on x))
      → Good inclusive from (next_day ch go_on d)
  next_day-Good inclusive from go_on none g = (none, refl, λ e h. absurd (cc h))
  next_day-Good inclusive from go_on (some x) g = g x refl

  scan-Good :
      (r : Recurrence) (inclusive : Bool) (from : ℤ) (tz : ch.Tz) (time : ch.NaiveTime) (n : ℕ)
      (date : ch.NaiveDate)
      → leb_ℤ (ch.year date +ℤ pos n) last_year ≡ true
      → Good inclusive from (scan ch r inclusive from tz time n date)
  unfolding scan
  scan-Good r inclusive from tz time zero date early = (none, refl, λ e h. absurd (cc h))
  scan-Good r inclusive from tz time (suc n) date early =
      let (b, q) = qualifies_is_some r date (before_last (ch.year date) n early) in
      rw q (
        this_day-Good inclusive from b (hit ch inclusive from (resolve_local ch tz date time))
          (next_day ch (scan ch r inclusive from tz time n) (ch.succ_opt date))
          (hit-is_after inclusive from (resolve_local ch tz date time))
          (next_day-Good inclusive from (scan ch r inclusive from tz time n) (ch.succ_opt date)
            (λ x e.
              scan-Good r inclusive from tz time n x
                (still_early (ch.year date) (ch.year x) n early (follow date x e)))))

  nothing-Good : (inclusive : Bool) (from : ℤ) → Good inclusive from (some none)
  nothing-Good inclusive from = (none, refl, λ e h. absurd (cc h))

  scan_on-Good :
      (r : Recurrence) (inclusive : Bool) (from : ℤ) (tz : ch.Tz) (time : ch.NaiveTime)
      (start : Option ch.NaiveDate)
      → ((d : ch.NaiveDate) → start ≡ some d → leb_ℤ (ch.year d +ℤ pos 400) last_year ≡ true)
      → Good inclusive from (scan_on ch r inclusive from tz time start)
  scan_on-Good r inclusive from tz time none early = nothing-Good inclusive from
  scan_on-Good r inclusive from tz time (some start) early =
      scan-Good r inclusive from tz time 400 start (early start refl)

  scan_from-Good :
      (r : Recurrence) (inclusive : Bool) (from : ℤ) (tz : Option ch.Tz)
      (time : Option ch.NaiveTime)
      → IsEarly ch from
      → Good inclusive from (scan_from ch r inclusive from tz time)
  scan_from-Good r inclusive from none time early = nothing-Good inclusive from
  scan_from-Good r inclusive from (some tz) none early = nothing-Good inclusive from
  scan_from-Good r inclusive from (some tz) (some time) early =
      scan_on-Good r inclusive from tz time (ch.date_naive tz from) (early tz)

  calendar_match-Good :
      (r : Recurrence) (from : ℤ) (inclusive : Bool)
      → IsEarly ch from
      → Good inclusive from (calendar_match ch r from inclusive)
  unfolding calendar_match
  calendar_match-Good (every s) from inclusive early = nothing-Good inclusive from
  calendar_match-Good (daily m tz) from inclusive early =
      scan_from-Good (daily m tz) inclusive from (ch.tz_from_str tz)
        (ch.from_hms_opt (m / 60) (m % 60) 0) early
  calendar_match-Good (weekly ws m tz) from inclusive early =
      scan_from-Good (weekly ws m tz) inclusive from (ch.tz_from_str tz)
        (ch.from_hms_opt (m / 60) (m % 60) 0) early
  calendar_match-Good (monthly d m tz) from inclusive early =
      scan_from-Good (monthly d m tz) inclusive from (ch.tz_from_str tz)
        (ch.from_hms_opt (m / 60) (m % 60) 0) early

  or_next_day-later :
      (t : ℤ) (o : Option ℤ)
      → in_i64 (t +ℤ pos 86400) ≡ true
      → ((epoch : ℤ) → o ≡ some epoch → ltb_ℤ t epoch ≡ true)
      → ltb_ℤ t (or_next_day ch t o) ≡ true
  or_next_day-later t none f g = rw (add_in_range t (pos 86400) f) (ltb-add t (pos 86400) refl)
  or_next_day-later t (some epoch) f g = g epoch refl

  calendar-next :
      (r : Recurrence) (t : ℤ)
      → in_i64 (t +ℤ pos 86400) ≡ true
      → IsEarly ch t
      → (next : ℤ) × (Option.map (or_next_day ch t) (calendar_match ch r t false) ≡ some next)
        × (ltb_ℤ t next ≡ true)
  calendar-next r t f early =
      let (o, e, late) = calendar_match-Good r t false early in
      (or_next_day ch t o, rw e refl, or_next_day-later t o f late)

  -- Where every month that begins before the last year of the calendar has a last day, and each day is
  -- followed by one of the same year or the next: a valid recurrence whose step stays in `i64` gives a
  -- next time, and one that is later than the scheduled time that it is given, if that is in no
  -- timezone within the last four hundred years of the calendar.
  pub next_after-later :
      (r : Recurrence) (t : ℤ)
      → validate ch r ≡ ok tt
      → StepFits r t
      → IsEarly ch t
      → (next : ℤ) × (next_after ch r t ≡ some next) × (ltb_ℤ t next ≡ true)
  unfolding next_after validate
  next_after-later (every s) t v f early =
      (add_i64 t s, refl, rw (add_in_range t s f) (ltb-add t s (ground arith)))
  next_after-later (daily m tz) t v f early = calendar-next (daily m tz) t f early
  next_after-later (weekly ws m tz) t v f early = calendar-next (weekly ws m tz) t f early
  next_after-later (monthly d m tz) t v f early = calendar-next (monthly d m tz) t f early
