-- ===== src/Scheduler/Tests.antt =====
-- The crate at work on small tables, and instances of the theorems.
use assistant_platform.Scheduler.Gregorian.{gregorian, gregorian-MonthsEnd, gregorian-DaysFollow}
use assistant_platform.Scheduler.Claim.{acquire_lease_exact, row_or_new, Answers}
use assistant_platform.Scheduler.Repair.{reconcile_item}
use assistant_platform.Decimal
use assistant_platform.Samples.{cast_text}
use assistant_platform.Base.{
  ok, find, count_where, String, ◌≡◌, refl, ◌≢◌, true, none, some, List, [], ◌∷◌, ℤ, pos, ltb_ℤ,
  add_i64, select, arith,
}
use assistant_platform.Samples.{text_cast}
use assistant_platform.Scheduler.Calendar.{
  every, daily, validate_minute_of_day, validate_tz, validate, days_in_month, date_qualifies,
  resolve_local, scan, calendar_match, next_after, monthly, clamp_day,
}
use assistant_platform.Scheduler.Model.{
  Names, active, paused, pause, cancel, complete, apply, current_memory, Revision, Occurrence,
  new_occurrence, ScheduledMessageMeta, transition_meta, update_meta, record_fired,
}
use assistant_platform.Scheduler.Model
use assistant_platform.Scheduler.Tables.{Conn, ItemRow, Json}
use assistant_platform.Scheduler.Projection.{
  upsert_item, has_item, row_to_item, item_status, has_occurrence,
}
use assistant_platform.Scheduler.Lease.{
  Lease, due_items, next_claimable_occurrence, acquire_lease, claim_each, claim_due,
  complete_occurrence,
}
use assistant_platform.Scheduler.Run.{run, Call, sweeps, acquires, pauses_item, resumes_item}
use assistant_platform.Scheduler.Once.{fired_once, leased_once, Others}
use assistant_platform.Scheduler.Cadence.{next_after-later}
use assistant_platform.Scheduler.Items.{item_status-transition, project_transition, led_to}
use assistant_platform.Scheduler.Projected.{row_to_item-upsert_item, projected}
use assistant_platform.Scheduler.Ahead.{is_ahead, is_of_other, IsAligned}
use assistant_platform.Scheduler.Aligned.{reconcile_item-aligns}
use assistant_platform.Scheduler.History.{
  run_meta-Continues, MetaCall, updates, transitions, fires, after_meta, run_meta, Continues,
}

nine_o_clock : next_after gregorian (daily 540 "UTC") (pos 40000) ≡ some (pos 118800)
unfolding next_after calendar_match scan date_qualifies resolve_local
nine_o_clock = refl

-- From the last of January 1970 to the last of February, and on a leap day of 2000.
last_of_february :
    (next_after gregorian (monthly 31 540 "UTC") (pos 2624400) ≡ some (pos 5043600))
    × (next_after gregorian (monthly 31 540 "UTC") (pos 949309200) ≡ some (pos 951814800))
unfolding next_after calendar_match scan date_qualifies resolve_local clamp_day days_in_month
last_of_february = (refl, refl)

month_valid : validate gregorian (monthly 31 540 "UTC") ≡ ok tt
unfolding validate validate_minute_of_day validate_tz
month_valid = refl

next_after-later_example :
    (next : ℤ) × (next_after gregorian (monthly 31 540 "UTC") (pos 2624400) ≡ some next)
    × (ltb_ℤ (pos 2624400) next ≡ true)
next_after-later_example =
    next_after-later gregorian gregorian-MonthsEnd gregorian-DaysFollow (monthly 31 540 "UTC")
      (pos 2624400) month_valid refl (λ tz d e. ground (arith, e))

abbrev plain_names : Names
plain_names = record {
  generate_scheduled_item_id = λ agent intent. intent.summary;
  occurrence_idempotency_key = λ item_id sequence. item_id;
}

abbrev plain_json : Json
plain_json = record {
  write_recurrence = λ r. "minutely";
  read_recurrence = λ s. some (every (pos 60));
  write_volumes = λ vs. "";
  read_volumes = λ s. some [];
}

abbrev water : ScheduledMessageMeta
water = record {
  scheduled_item_id = "water";
  agent_group_id = 1;
  intent = record { created_by = "U1"; summary = "water"; created_at = pos 1 };
  process_after = pos 100;
  recurrence = some (every (pos 60));
  context_policy = current_memory;
  status = active;
  revision = 1;
  revisions = [];
  occurrence_seq = 2;
  gate_command = none;
  gate_onecli_agent = none;
  gate_volumes = [];
  gate_image = none;
  run_as = none;
}

abbrev second : Occurrence
second = record {
  scheduled_item_id = "water";
  sequence = 2;
  scheduled_for = pos 100;
  idempotency_key = "water";
}

abbrev garden : Conn
garden = record {
  scheduled_items =
      record {
        id = "water";
        agent_group_id = 1;
        session_id = none;
        intent = "water";
        process_after = some "100";
        recurrence = none;
        status = "active";
        revision = 1;
        gate_command = none;
        gate_onecli_agent = none;
        gate_volumes = none;
        gate_image = none;
        run_as = none;
      }
      ∷ [];
  scheduled_occurrences =
      record {
        scheduled_item_id = "water";
        sequence = 1;
        idempotency_key = "water";
        scheduled_for = some (pos 40);
        fired_at = some "41";
        status = "fired";
        lease_owner = none;
        lease_expires_at = none;
        attempt = 1;
      }
      ∷ record {
        scheduled_item_id = "water";
        sequence = 2;
        idempotency_key = "water";
        scheduled_for = some (pos 100);
        fired_at = none;
        status = "pending";
        lease_owner = some "old";
        lease_expires_at = some (pos 90);
        attempt = 1;
      }
      ∷ [];
  container_runs = [];
}

abbrev sweeping : List Call
sweeping =
    sweeps (pos 105) "other" (pos 30)
    ∷ acquires second "third" (pos 109) (pos 30)
    ∷ pauses_item "water"
    ∷ resumes_item "water"
    ∷ []

fired_once_example :
    Others second
      (run plain_names text_cast plain_json
        (complete_occurrence garden second (pos 101))
        sweeping).0
fired_once_example =
    fired_once plain_names text_cast plain_json garden second (pos 101) sweeping refl

-- The lease of "old" has lapsed: the second attempt.
abbrev lease_of_second : Lease
lease_of_second = record { occurrence = second; owner = "new"; expires_at = pos 110; attempt = 2 }

claims_second : (acquire_lease garden second "new" (pos 100) (pos 10)).0 ≡ some lease_of_second
unfolding acquire_lease add_i64
claims_second = refl

leased_once_example :
    Others second
      (run plain_names text_cast plain_json
        (acquire_lease garden second "new" (pos 100) (pos 10)).1
        sweeping).0
leased_once_example =
    leased_once plain_names text_cast plain_json garden second "new" (pos 100) (pos 10)
      lease_of_second sweeping (refl, (refl, tt)) claims_second (refl, (refl, (tt, (tt, tt))))

water_active : item_status garden "water" ≡ ok (some active)
unfolding item_status Model.parse
water_active = refl

item_status-transition_example :
    (item_status (project_transition cancel garden "water") "water"
      ≡ ok (some (led_to active cancel)))
    × ((other : String)
        → other ≢ "water"
        → item_status (project_transition cancel garden "water") other ≡ item_status garden other)
item_status-transition_example = item_status-transition cancel garden "water" active water_active

row_to_item-upsert_item_example :
    ((row : ItemRow) × (find
          (has_item "water")
          (upsert_item plain_json garden water none).scheduled_items
        ≡ some row)
      × (row_to_item plain_json row ≡ ok (projected water none)))
    × ((other : String)
        → other ≢ "water"
        → find (has_item other) (upsert_item plain_json garden water none).scheduled_items
          ≡ find (has_item other) garden.scheduled_items)
row_to_item-upsert_item_example =
    row_to_item-upsert_item plain_json garden water none refl
      (record { recurrence = refl; volumes = refl })

reconcile_item-aligns_example :
    let (count, c') = reconcile_item plain_names plain_json garden water "s" in
    let (again, c'') = reconcile_item plain_names plain_json c' water "s" in
    IsAligned "water" 2 c'.scheduled_occurrences
    × (count ≡ count_where (is_ahead "water" 2) garden.scheduled_occurrences)
    × (select (is_of_other "water") c'.scheduled_occurrences
        ≡ select (is_of_other "water") garden.scheduled_occurrences)
    × (again ≡ 0)
    × (c''.scheduled_occurrences ≡ c'.scheduled_occurrences)
reconcile_item-aligns_example =
    reconcile_item-aligns plain_names plain_json garden water "s" (omega arith)

abbrev busy_day : List MetaCall
busy_day =
    updates "U2" (pos 50) (pos 200) (some (every (pos 120))) current_memory
    ∷ fires second
    ∷ transitions pause
    ∷ transitions complete
    ∷ []

abbrev evening : ScheduledMessageMeta
evening = record water {
  process_after = pos 220;
  recurrence = some (every (pos 120));
  status = paused;
  revision = 2;
  revisions =
      record {
        revision = 2;
        revised_at = pos 50;
        revised_by = "U2";
        process_after = pos 200;
        recurrence = some (every (pos 120));
        context_policy = current_memory;
      }
      ∷ [];
}

day_ends : run_meta gregorian water busy_day ≡ some evening
unfolding run_meta after_meta update_meta validate record_fired next_after add_i64 transition_meta
    apply
day_ends = refl

run_meta-Continues_example : (later : List Revision) × Continues water evening later
run_meta-Continues_example = run_meta-Continues gregorian water evening busy_day day_ends

-- The sweep at 100 takes the lapsed lease over.
sweep_takes_over :
    (claim_due plain_names text_cast garden (pos 100) "new" (pos 10)).0 ≡ lease_of_second ∷ []
unfolding claim_due claim_each due_items next_claimable_occurrence new_occurrence acquire_lease
    add_i64 cast_text Decimal.parse
sweep_takes_over = refl

acquire_lease_exact_example :
    Answers second "new"
      (pos 100)
      (add_i64 (pos 100) (pos 10))
      (row_or_new second (find (has_occurrence "water" 2) garden.scheduled_occurrences))
      (acquire_lease garden second "new" (pos 100) (pos 10)).0
acquire_lease_exact_example =
    acquire_lease_exact garden second "new" (pos 100) (pos 10) (refl, (refl, tt))
