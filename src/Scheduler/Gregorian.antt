-- ===== src/Scheduler/Gregorian.antt =====
-- The Gregorian calendar from 1970 to the end of 262142 in one timezone, as an instance of the calendar
-- that is a parameter of the recurrences of crates/assistant-scheduler/src/model.rs.
use assistant_platform.Base.{
  ℕ, ltb, leb, ◌==◌, if◌then◌else◌, is_some, ℤ, pos, negsuc, ltb_ℤ, leb_ℤ, minus, ◌+ℤ◌, zero, suc,
  ◌+◌, ◌-◌, ◌*◌, ◌/◌, ◌%◌, ◌≡◌, Bool, true, not, ◌&&◌, ◌||◌, Option, none, some, arith, str_eq,
}
use assistant_platform.Scheduler.Calendar.{
  Chrono, Weekday, mon, tue, wed, thu, fri, sat, sun, single, days_in_month,
}
use assistant_platform.Scheduler.Cadence.{MonthsEnd, DaysFollow}

pub data Month : Type 0 where
  january february march april may june july august september october november december : Month

pub record Date : Type 0 where
  pub year : ℕ
  pub month : Month
  pub day : ℕ

abbrev pub date : ℕ → Month → ℕ → Date
date y m d = record { year = y; month = m; day = d }

abbrev pub number : Month → ℕ
number january = 1
number february = 2
number march = 3
number april = 4
number may = 5
number june = 6
number july = 7
number august = 8
number september = 9
number october = 10
number november = 11
number december = 12

abbrev pub of_number : ℕ → Option Month
of_number n =
    if n == 1
    then some january
    else if n == 2
    then some february
    else if n == 3
    then some march
    else if n == 4
    then some april
    else if n == 5
    then some may
    else if n == 6
    then some june
    else if n == 7
    then some july
    else if n == 8
    then some august
    else if n == 9
    then some september
    else if n == 10
    then some october
    else if n == 11
    then some november
    else if n == 12
    then some december
    else none

abbrev pub following : Month → Option Month
following january = some february
following february = some march
following march = some april
following april = some may
following may = some june
following june = some july
following july = some august
following august = some september
following september = some october
following october = some november
following november = some december
following december = none

abbrev pub previous : Month → Option Month
previous january = none
previous february = some january
previous march = some february
previous april = some march
previous may = some april
previous june = some may
previous july = some june
previous august = some july
previous september = some august
previous october = some september
previous november = some october
previous december = some november

abbrev pub is_leap : ℕ → Bool
is_leap y = y % 4 == 0 && (not (y % 100 == 0) || y % 400 == 0)

abbrev pub leap_day : ℕ → ℕ
leap_day y = if is_leap y then 1 else 0

abbrev pub days_of : ℕ → Month → ℕ
days_of y january = 31
days_of y february = if is_leap y then 29 else 28
days_of y march = 31
days_of y april = 30
days_of y may = 31
days_of y june = 30
days_of y july = 31
days_of y august = 31
days_of y september = 30
days_of y october = 31
days_of y november = 30
days_of y december = 31

abbrev pub days_before : ℕ → Month → ℕ
days_before y january = 0
days_before y february = 31
days_before y march = 59 + leap_day y
days_before y april = 90 + leap_day y
days_before y may = 120 + leap_day y
days_before y june = 151 + leap_day y
days_before y july = 181 + leap_day y
days_before y august = 212 + leap_day y
days_before y september = 243 + leap_day y
days_before y october = 273 + leap_day y
days_before y november = 304 + leap_day y
days_before y december = 334 + leap_day y

-- The days from the beginning of the year 0.
abbrev pub day_number : Date → ℕ
day_number d =
    (d.year * 365 + (d.year + 3) / 4 + (d.year + 399) / 400 - (d.year + 99) / 100)
    + days_before d.year d.month
    + (d.day - 1)

abbrev pub weekday_of : ℕ → Weekday
weekday_of n =
    if n == 0
    then mon
    else if n == 1
    then tue
    else if n == 2
    then wed
    else if n == 3
    then thu
    else if n == 4
    then fri
    else if n == 5
    then sat
    else sun

abbrev pub checked : ℕ → ℕ → Option Month → Option Date
checked y d none = none
checked y d (some m) =
    if leb y 262142 && leb 1 d && leb d (days_of y m) then some (date y m d) else none

abbrev pub from_ymd : ℤ → ℕ → ℕ → Option Date
from_ymd (pos y) m d = checked y d (of_number m)
from_ymd (negsuc _) m d = none

abbrev pub last_of : ℕ → Option Month → Option Date
last_of y (some m) = some (date y m (days_of y m))
last_of zero none = none
last_of (suc y) none = some (date y december 31)

abbrev pub pred : Date → Option Date
pred d =
    if ltb 1 d.day
    then some (date d.year d.month (d.day - 1))
    else last_of d.year (previous d.month)

abbrev pub first_of : ℕ → Option Month → Option Date
first_of y (some m) = some (date y m 1)
first_of y none = if ltb y 262142 then some (date (suc y) january 1) else none

abbrev pub succ : ℕ → Month → ℕ → Option Date
succ y m n = if ltb n (days_of y m) then some (date y m (suc n)) else first_of y (following m)

-- The date of a day, counted from the first of March of the year 0.
abbrev pub date_of_doy : ℕ → ℕ → Option Date
date_of_doy y doy =
    let mp = (5 * doy + 2) / 153 in
    let d = doy - (153 * mp + 2) / 5 + 1 in
    if ltb mp 10 then from_ymd (pos y) (mp + 3) d else from_ymd (pos (y + 1)) (mp - 9) d

abbrev pub date_of_day : ℕ → Option Date
date_of_day z =
    let doe = z % 146097 in
    let yoe = (doe - doe / 1460 + doe / 36524 - doe / 146096) / 365 in
    date_of_doy (yoe + z / 146097 * 400) (doe + yoe / 100 - (365 * yoe + yoe / 4))

abbrev pub at_time : ℤ → Option Date
at_time (pos t) = date_of_day (t / 86400 + 719468)
at_time (negsuc _) = none

abbrev pub gregorian : Chrono
gregorian = record {
  Tz = Unit {0};
  NaiveDate = Date;
  NaiveTime = ℕ;
  NaiveDateTime = ℕ;
  tz_from_str = λ s. if str_eq s "UTC" then some tt else none;
  from_hms_opt =
      λ h m s. if ltb h 24 && ltb m 60 && ltb s 60 then some (h * 3600 + m * 60 + s) else none;
  date_naive = λ tz t. at_time t;
  succ_opt = λ d. succ d.year d.month d.day;
  pred_opt = pred;
  from_ymd_opt = from_ymd;
  year = λ d. pos d.year;
  month = λ d. number d.month;
  day = λ d. d.day;
  weekday = λ d. weekday_of ((day_number d + 5) % 7);
  and_time = λ d t. day_number d * 86400 + t;
  add_hour = λ t. some (t + 3600);
  from_local_datetime = λ tz t. single (minus t (719528 * 86400));
}

month_end :
    (y : ℕ) (m : Month)
    → ltb_ℤ (pos y) (pos 262142) ≡ true
    → is_some (days_in_month gregorian (pos y) (number m)) ≡ true
month_end y january h = unfold days_in_month in ground arith
month_end y february h = unfold days_in_month in ground arith
month_end y march h = unfold days_in_month in ground arith
month_end y april h = unfold days_in_month in ground arith
month_end y may h = unfold days_in_month in ground arith
month_end y june h = unfold days_in_month in ground arith
month_end y july h = unfold days_in_month in ground arith
month_end y august h = unfold days_in_month in ground arith
month_end y september h = unfold days_in_month in ground arith
month_end y october h = unfold days_in_month in ground arith
month_end y november h = unfold days_in_month in ground arith
month_end y december h = unfold days_in_month in ground arith

pub gregorian-MonthsEnd : MonthsEnd gregorian
gregorian-MonthsEnd d h = month_end d.year d.month h

next_year :
    (y n : ℕ) (m : Month) (e : Date)
    → succ y m n ≡ some e
    → leb_ℤ (pos e.year) (pos y +ℤ pos 1) ≡ true
next_year y n january e h = ground arith
next_year y n february e h = ground arith
next_year y n march e h = ground arith
next_year y n april e h = ground arith
next_year y n may e h = ground arith
next_year y n june e h = ground arith
next_year y n july e h = ground arith
next_year y n august e h = ground arith
next_year y n september e h = ground arith
next_year y n october e h = ground arith
next_year y n november e h = ground arith
next_year y n december e h = ground arith

pub gregorian-DaysFollow : DaysFollow gregorian
gregorian-DaysFollow d e h = next_year d.year d.day d.month e h
