-- ===== src/Scheduler/History.antt =====
-- The history of a schedule: what its life never rewrites.
use mathlib.Core.Path.{subst}
use assistant_platform.Base.{
  length, ◌+◌, ◌%◌, ◌^◌, String, ◌≡◌, refl, sym, Option, none, some, List, [], ◌∷◌, ◌++◌,
  append-nil, arith, Result, ok, err, ap, ◌∙◌, append_assoc, Bool-cases, Option-cases, suc, inl,
  inr, some-injective,
}
use assistant_platform.Scheduler.Calendar.{Chrono, Recurrence}
use assistant_platform.Scheduler.Model.{
  update_meta, EpochSecs, LifecycleTransition, ContextPolicy, Revision, Occurrence,
  ScheduledMessageMeta, transition_meta, record_fired, ScheduleStatus, ScheduleError, apply,
  is_terminal, validate_optional, revised,
}

pub data MetaCall : Type 0 where
  updates : String → EpochSecs → EpochSecs → Option Recurrence → ContextPolicy → MetaCall
  transitions : LifecycleTransition → MetaCall
  fires : Occurrence → MetaCall

module _ (ch : Chrono) where
  -- `none` is a panic of the calendar.
  unfoldable pub after_meta : ScheduledMessageMeta → MetaCall → Option ScheduledMessageMeta
  after_meta m (updates by at process_after recurrence context_policy) =
      some (update_meta ch m by at process_after recurrence context_policy).1
  after_meta m (transitions transition) = some (transition_meta m transition).1
  after_meta m (fires occurrence) = record_fired ch m occurrence

  unfoldable pub run_meta : ScheduledMessageMeta → List MetaCall → Option ScheduledMessageMeta
  run_meta m [] = some m
  run_meta m (call ∷ calls) =
      let go_on : ScheduledMessageMeta → Option ScheduledMessageMeta = λ m'. run_meta m' calls in
      elim (after_meta m call) [ none ↦ none | some m' ↦ go_on m' ]

-- `m'` is `m` with `later` revisions, by number.
pub record Continues (m m' : ScheduledMessageMeta) (later : List Revision) : Type 0 where
  pub same_id : m'.scheduled_item_id ≡ m.scheduled_item_id
  pub same_agent : m'.agent_group_id ≡ m.agent_group_id
  pub same_intent : m'.intent ≡ m.intent
  pub appended : m'.revisions ≡ m.revisions ++ later
  pub counted : m'.revision % 2 ^ 32 ≡ (m.revision + length later) % 2 ^ 32

still : (m : ScheduledMessageMeta) → Continues m m []
still m = record {
  same_id = refl;
  same_agent = refl;
  same_intent = refl;
  appended = sym (append-nil m.revisions);
  counted = ground arith;
}

length-append : (xs ys : List Revision) → length (xs ++ ys) ≡ length xs + length ys
length-append [] ys = omega arith
length-append (x ∷ xs) ys = omega (arith, length-append xs ys)

onward :
    (m m1 m2 : ScheduledMessageMeta) (l1 l2 : List Revision)
    → Continues m m1 l1
    → Continues m1 m2 l2
    → Continues m m2 (l1 ++ l2)
onward m m1 m2 l1 l2 a b = record {
  same_id = b.same_id ∙ a.same_id;
  same_agent = b.same_agent ∙ a.same_agent;
  same_intent = b.same_intent ∙ a.same_intent;
  appended = b.appended ∙ ap (λ r. r ++ l2) a.appended ∙ append_assoc m.revisions l1 l2;
  counted = omega (arith, a.counted, b.counted, length-append l1 l2);
}

module _ (ch : Chrono) where
  revised-Continues :
      (m : ScheduledMessageMeta) (by : String) (at process_after : EpochSecs)
      (recurrence : Option Recurrence) (context_policy : ContextPolicy)
      → (later : List Revision) × Continues m
          (revised ch m by at process_after recurrence context_policy)
          later
  revised-Continues m by at process_after recurrence context_policy = (
    record {
      revision = suc m.revision % 2 ^ 32;
      revised_at = at;
      revised_by = by;
      process_after = process_after;
      recurrence = recurrence;
      context_policy = context_policy;
    }
        ∷ [],
    record {
      same_id = refl;
      same_agent = refl;
      same_intent = refl;
      appended = refl;
      counted = omega arith;
    },
  )

  update-Continues :
      (m : ScheduledMessageMeta) (by : String) (at process_after : EpochSecs)
      (recurrence : Option Recurrence) (context_policy : ContextPolicy)
      → (later : List Revision) × Continues m
          (update_meta ch m by at process_after recurrence context_policy).1
          later
  unfolding update_meta
  update-Continues m by at process_after recurrence context_policy =
      elim (Bool-cases (is_terminal m.status)) [
        | inl y ↦ rw y ([], still m)
        | inr n ↦ rw n (go (validate_optional ch recurrence))
      ]
    where
      go :
          (r : Result ScheduleError (Unit {0}))
          → (later : List Revision) × Continues m
              (elim r as (λ _. Result ScheduleError (Unit {0}) × ScheduledMessageMeta) [
                | err e ↦ (err e, m)
                | ok _ ↦ (ok tt, revised ch m by at process_after recurrence context_policy)
              ]).1
              later
      go (err e) = ([], still m)
      go (ok _) = revised-Continues m by at process_after recurrence context_policy

  transition-Continues :
      (m : ScheduledMessageMeta) (transition : LifecycleTransition)
      → Continues m (transition_meta m transition).1 []
  unfolding transition_meta
  transition-Continues m transition = go (apply m.status transition)
    where
      go :
          (r : Result ScheduleError ScheduleStatus)
          → Continues m
              (elim r as (λ _. Result ScheduleError (Unit {0}) × ScheduledMessageMeta) [
                | err e ↦ (err e, m)
                | ok status ↦ (ok tt, record m { status = status })
              ]).1
              []
      go (err e) = still m
      go (ok s) = record {
        same_id = refl;
        same_agent = refl;
        same_intent = refl;
        appended = sym (append-nil m.revisions);
        counted = ground arith;
      }

  fired-Continues :
      (m m' : ScheduledMessageMeta) (o : Occurrence)
      → record_fired ch m o ≡ some m'
      → Continues m m' []
  unfolding record_fired
  fired-Continues m m' o h =
      let same_revisions : m'.revisions ≡ m.revisions = ground arith in
      let same_number : m'.revision ≡ m.revision = ground arith in
      record {
        same_id = ground arith;
        same_agent = ground arith;
        same_intent = ground arith;
        appended = same_revisions ∙ sym (append-nil m.revisions);
        counted = omega (arith, same_number);
      }

  after-Continues :
      (m m' : ScheduledMessageMeta) (call : MetaCall)
      → after_meta ch m call ≡ some m'
      → (later : List Revision) × Continues m m' later
  unfolding after_meta
  after-Continues m m' (updates by at process_after recurrence context_policy) h =
      let (later, k) = update-Continues m by at process_after recurrence context_policy in
      let same =
        some-injective (update_meta ch m by at process_after recurrence context_policy).1 m' h in
      (later, rw same at k)
  after-Continues m m' (transitions transition) h =
      let same = some-injective (transition_meta m transition).1 m' h in
      ([], rw same at (transition-Continues m transition))
  after-Continues m m' (fires o) h = ([], fired-Continues m m' o h)

  -- Whatever updates, transitions and firings a schedule goes through without a panic of the calendar,
  -- in whatever order and whether they are accepted or not, its id, its agent and its intent stay as
  -- they were, and its revisions are those that it had with later ones after them, which its revision
  -- number counts modulo 2 ^ 32.
  pub run_meta-Continues :
      (m m' : ScheduledMessageMeta) (calls : List MetaCall)
      → run_meta ch m calls ≡ some m'
      → (later : List Revision) × Continues m m' later
  unfolding run_meta
  run_meta-Continues m m' [] h =
      ([], subst (λ x. Continues m x []) (some-injective m m' h) (still m))
  run_meta-Continues m m' (call ∷ calls) h = elim (Option-cases (after_meta ch m call)) [
    | inl e ↦ absurd (ground arith)
    | inr (m1, e) ↦
        let (l1, first) = after-Continues m m1 call e in
        let (l2, rest) = run_meta-Continues m1 m' calls (ground arith) in
        (l1 ++ l2, onward m m1 m' l1 l2 first rest)
  ]
