-- ===== src/Scheduler/Sweeps.antt =====
-- What is shut stays shut through the calls of the host.
use assistant_platform.Scheduler.Shut.{
  Shut, Before, CallBefore, fired_is_shut, All-update_if, NotOf, acquire-Shut,
}
use assistant_platform.Approvals.Model.{TextCast}
use assistant_platform.Scheduler.Run.{
  Call, completes_item, cancels_item, pauses_item, resumes_item, sweeps, acquires, completes, links,
  projects, advances, after, run,
}
use assistant_platform.Base.{
  All, ℕ, String, ◌≡◌, refl, Option, none, some, List, arith, All-append, any-update, ◌∙◌, inl, inr,
  [], ◌∷◌, ℤ, Option-cases,
}
use assistant_platform.Scheduler.Model.{EpochSecs, Occurrence, Names}
use assistant_platform.Scheduler.Tables.{Conn, Json}
use assistant_platform.Scheduler.Projection.{
  has_occurrence, upsert_item, advance_recurrence, complete_item, cancel_item, pause_item,
  resume_item,
}
use assistant_platform.Scheduler.Lease.{
  Lease, acquire_lease, push_lease, next_claimable_occurrence, claim_each, set_fired,
  complete_occurrence, due_items, claim_due, link_run_to_occurrence,
}

pub claim_each-none :
    (names : Names) (c : Conn) (now : EpochSecs) (owner : String) (ttl : ℤ)
    (item : String × EpochSecs) (due : List (String × EpochSecs))
    → next_claimable_occurrence names c item.0 item.1 ≡ none
    → claim_each names c now owner ttl (item ∷ due) ≡ claim_each names c now owner ttl due
unfolding claim_each
claim_each-none names c now owner ttl item due e = ground arith

pub claim_each-some :
    (names : Names) (c : Conn) (now : EpochSecs) (owner : String) (ttl : ℤ)
    (item : String × EpochSecs) (due : List (String × EpochSecs)) (o : Occurrence)
    → next_claimable_occurrence names c item.0 item.1 ≡ some o
    → claim_each names c now owner ttl (item ∷ due) ≡ (
      push_lease
          (acquire_lease c o owner now ttl).0
          (claim_each names (acquire_lease c o owner now ttl).1 now owner ttl due).0,
      (claim_each names (acquire_lease c o owner now ttl).1 now owner ttl due).1,
    )
unfolding claim_each
claim_each-some names c now owner ttl item due o e = ground arith

module _ (item_id : String) (sequence : ℕ) (limit : Option EpochSecs) where
  All-push :
      (lease : Option Lease) (leases : List Lease)
      → NotOf item_id sequence limit (push_lease lease [])
      → NotOf item_id sequence limit leases
      → NotOf item_id sequence limit (push_lease lease leases)
  All-push none leases h k = k
  All-push (some lease) leases h k = (h.0, k)

  claim_each-Shut :
      (names : Names) (c : Conn) (now : EpochSecs) (owner : String) (ttl : ℤ)
      (due : List (String × EpochSecs))
      → Before now limit
      → Shut item_id sequence limit c.scheduled_occurrences
      → NotOf item_id sequence limit (claim_each names c now owner ttl due).0
        × Shut item_id sequence limit (claim_each names c now owner ttl due).1.scheduled_occurrences
  unfolding claim_each
  claim_each-Shut names c now owner ttl [] b h = (tt, h)
  claim_each-Shut names c now owner ttl (item ∷ due) b h =
      elim (Option-cases (next_claimable_occurrence names c item.0 item.1)) [
        | inl e ↦
            rw (claim_each-none names c now owner ttl item due e)
              (claim_each-Shut names c now owner ttl due b h)
        | inr (o, e) ↦
            let (first, kept) = acquire-Shut item_id sequence limit c o owner now ttl b h in
            let (rest, end) =
              claim_each-Shut names (acquire_lease c o owner now ttl).1 now owner ttl due b kept in
            rw (claim_each-some names c now owner ttl item due o e)
              (All-push (acquire_lease c o owner now ttl).0 _ first rest, end)
      ]

  complete-Shut :
      (c : Conn) (o : Occurrence) (fired_at : EpochSecs)
      → Shut item_id sequence limit c.scheduled_occurrences
      → Shut item_id sequence limit (complete_occurrence c o fired_at).scheduled_occurrences
  unfolding complete_occurrence
  complete-Shut c o fired_at h = record {
    present =
        any-update (has_occurrence item_id sequence) (has_occurrence o.scheduled_item_id o.sequence)
          (set_fired fired_at) c.scheduled_occurrences (λ x. refl)
        ∙ h.present;
    shut =
        All-update_if _ (has_occurrence o.scheduled_item_id o.sequence) (set_fired fired_at)
          c.scheduled_occurrences (λ x q s k. fired_is_shut limit x fired_at) h.shut;
  }

  after-Shut :
      (names : Names) (t : TextCast) (j : Json) (c : Conn) (call : Call)
      → CallBefore limit call
      → Shut item_id sequence limit c.scheduled_occurrences
      → NotOf item_id sequence limit (after names t j c call).0
        × Shut item_id sequence limit (after names t j c call).1.scheduled_occurrences
  unfolding after
  after-Shut names t j c (sweeps now owner ttl) b h =
      unfold claim_due in claim_each-Shut names c now owner ttl (due_items t c now) b h
  after-Shut names t j c (acquires o owner now ttl) b h =
      acquire-Shut item_id sequence limit c o owner now ttl b h
  after-Shut names t j c (completes o fired_at) b h = (tt, complete-Shut c o fired_at h)
  after-Shut names t j c (links run_id o) b h = (tt, unfold link_run_to_occurrence in h)
  after-Shut names t j c (projects meta session_id) b h = (tt, unfold upsert_item in h)
  after-Shut names t j c (advances id time) b h = (tt, unfold advance_recurrence in h)
  after-Shut names t j c (completes_item id) b h = (tt, unfold complete_item in h)
  after-Shut names t j c (cancels_item id) b h = (tt, unfold cancel_item in h)
  after-Shut names t j c (pauses_item id) b h = (tt, unfold pause_item in h)
  after-Shut names t j c (resumes_item id) b h = (tt, unfold resume_item in h)

  pub run-Shut :
      (names : Names) (t : TextCast) (j : Json) (c : Conn) (calls : List Call)
      → All (CallBefore limit) calls
      → Shut item_id sequence limit c.scheduled_occurrences
      → NotOf item_id sequence limit (run names t j c calls).0
        × Shut item_id sequence limit (run names t j c calls).1.scheduled_occurrences
  unfolding run
  run-Shut names t j c [] b h = (tt, h)
  run-Shut names t j c (call ∷ calls) b h =
      let (first, kept) = after-Shut names t j c call b.0 h in
      let (rest, end) = run-Shut names t j (after names t j c call).1 calls b.1 kept in
      (All-append _ (after names t j c call).0 _ first rest, end)
