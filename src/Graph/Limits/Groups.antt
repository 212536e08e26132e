-- ===== src/Graph/Limits/Groups.antt =====
-- How each call changes the number of specialists.
use assistant_platform.Graph.Limits.Bounds.{LimitsInRange}
use assistant_platform.Graph.Limits.Bounds.{LimitsInRange, max_groups, WithinLimits}
use assistant_platform.Graph.Run.{
  Call, creates, starts, moves_job, cancels, after, add_run_links-groups,
}
use assistant_platform.Base.{
  ℕ, Bool-cases, count_where, any, ◌^◌, ◌≤◌, ◌<◌, String, ◌≡◌, refl, inl, inr, true, false, some,
  List, [], ◌∷◌, ◌++◌, arith, eq_iff, str_eq, leb, count_where-append, find-All, suc, Option-cases,
  RowIds, map,
}
use assistant_platform.Graph.Job.{SpecialistJob, JobEvent}
use assistant_platform.Graph.Store.{
  is_specialist_of, new_row, Conn, insert_job, update_status, set_cancel_requested, GroupRow,
  Return, specialist_group_count, create_specialist_group,
}
use assistant_platform.Graph.Registry.{
  SpecialistRegistry, get, RegisteredProfile, authorize_create, authorize_job_start, is_specialist,
}
use assistant_platform.Graph.Delegation.{
  World, create_specialist, start_job, transition_job, created_outcome,
}

insert-groups :
    (now : String) (c : Conn) (job : SpecialistJob)
    → (insert_job now c job).1.agent_groups ≡ c.agent_groups
unfolding insert_job
insert-groups now c job = ground (
  arith,
  add_run_links-groups (record c { specialist_jobs = c.specialist_jobs ++ new_row now job ∷ [] })
      job.job_id job.run_links,
)

start-groups :
    (now : String) (registry : SpecialistRegistry) (w : World) (job : SpecialistJob)
    → (start_job now registry w job).1.conn.agent_groups ≡ w.conn.agent_groups
unfolding start_job authorize_job_start
start-groups now registry w job = ground (arith, insert-groups now w.conn job)

transition-groups :
    (now : String) (w : World) (id : String) (event : JobEvent)
    → (transition_job now w id event).1.conn.agent_groups ≡ w.conn.agent_groups
unfolding transition_job update_status
transition-groups now w id event = ground arith

-- What `create_specialist` does to the groups.
data GroupsChange (registry : SpecialistRegistry) (w : World) (profile_id : String)
    (groups : List GroupRow) : Type 0 where
  kept : groups ≡ w.conn.agent_groups → GroupsChange registry w profile_id groups
  added :
      (profile : RegisteredProfile) (row : GroupRow)
      → get registry profile_id ≡ some profile
      → leb profile.limits.max_specialists (specialist_group_count w.conn profile_id) ≡ false
      → row.profile_id ≡ profile_id
      → groups ≡ w.conn.agent_groups ++ row ∷ []
      → GroupsChange registry w profile_id groups

group-GroupsChange :
    (ids : RowIds) (registry : SpecialistRegistry) (w : World) (profile_id slug : String)
    (profile : RegisteredProfile)
    → get registry profile_id ≡ some profile
    → leb profile.limits.max_specialists (specialist_group_count w.conn profile_id) ≡ false
    → GroupsChange registry w profile_id
        (create_specialist_group ids w.conn slug profile_id profile.profile_version).1.agent_groups
group-GroupsChange ids registry w profile_id slug profile g room =
    elim (Bool-cases (any (λ x. str_eq x.slug slug) w.conn.agent_groups)) [
      | inl taken ↦ kept (unfold create_specialist_group in ground arith)
      | inr free ↦
          added profile
            (record {
              id = ids.next (map (λ x. x.id) w.conn.agent_groups);
              slug = slug;
              kind = "specialist";
              profile_id = profile_id;
              profile_version = profile.profile_version;
            })
            g room refl (unfold create_specialist_group in ground arith)
    ]

created-conn :
    (w : World) (profile_id slug : String) (r : Return ℕ)
    → (created_outcome w profile_id slug r).1.conn ≡ r.1
unfolding created_outcome
created-conn w profile_id slug r = ground arith

create-GroupsChange :
    (ids : RowIds) (registry : SpecialistRegistry) (w : World) (profile_id slug : String)
    → GroupsChange registry w profile_id
        (create_specialist ids registry w profile_id slug).1.conn.agent_groups
create-GroupsChange ids registry w profile_id slug = elim (Option-cases (get registry profile_id)) [
  | inl e ↦ kept (unfold create_specialist authorize_create in ground arith)
  | inr (profile, e) ↦ elim (Bool-cases (is_specialist profile)) [
    | inr n ↦ kept (unfold create_specialist authorize_create in ground arith)
    | inl y ↦
        elim (Bool-cases
          (leb profile.limits.max_specialists (specialist_group_count w.conn profile_id))) [
            | inl full ↦ kept (unfold create_specialist authorize_create in ground arith)
            | inr room ↦
                let step : (create_specialist ids registry w profile_id slug).1.conn
                    ≡ (create_specialist_group ids w.conn slug profile_id
                        profile.profile_version).1 =
                  unfold create_specialist authorize_create in
                  ground (
                    arith,
                    created-conn w profile_id slug (
                        create_specialist_group ids w.conn slug profile_id profile.profile_version),
                  ) in
                rw step (group-GroupsChange ids registry w profile_id slug profile e room)
          ]
  ]
]

-- A specialist that is admitted leaves its profile within the limit.
added-count :
    (registry : SpecialistRegistry) (w : World) (profile_id p : String)
    (profile : RegisteredProfile)
    → LimitsInRange registry
    → WithinLimits registry w
    → get registry profile_id ≡ some profile
    → leb profile.limits.max_specialists (specialist_group_count w.conn profile_id) ≡ false
    → str_eq profile_id p ≡ true
    → suc (count_where (is_specialist_of p) w.conn.agent_groups) ≤ max_groups registry p
unfolding specialist_group_count
added-count registry w profile_id p profile r h g room y =
    let e : profile_id ≡ p = (eq_iff profile_id p).0 y in
    let bound =
      find-All (λ q. (q.limits.max_concurrent_jobs < 2 ^ 32) × (q.limits.max_specialists < 2 ^ 32))
        (λ q. str_eq q.profile_id profile_id) registry profile r (unfold get in g) in
    rw (← e) (ground (arith, h.groups profile_id, g, bound.1))

groups-change :
    (registry : SpecialistRegistry) (w : World) (profile_id p : String) (groups : List GroupRow)
    → LimitsInRange registry
    → WithinLimits registry w
    → GroupsChange registry w profile_id groups
    → count_where (is_specialist_of p) groups ≤ max_groups registry p
groups-change registry w profile_id p groups r h (kept e) = rw e (h.groups p)
groups-change registry w profile_id p groups r h (added profile row g room key e) =
    rw (e, count_where-append (is_specialist_of p) w.conn.agent_groups (row ∷ []), key)
      (elim (Bool-cases (str_eq profile_id p)) [
        | inr n ↦ rw n (ground (arith, h.groups p))
        | inl y ↦ ground (arith, added-count registry w profile_id p profile r h g room y)
      ])

pub after-groups :
    (ids : RowIds) (registry : SpecialistRegistry) (w : World) (call : Call) (p : String)
    → LimitsInRange registry
    → WithinLimits registry w
    → count_where (is_specialist_of p) (after ids registry w call).conn.agent_groups
      ≤ max_groups registry p
unfolding after
after-groups ids registry w (creates profile_id slug) p r h =
    groups-change registry w profile_id p _ r h (create-GroupsChange ids registry w profile_id slug)
after-groups ids registry w (starts now job) p r h =
    rw (start-groups now registry w job) (h.groups p)
after-groups ids registry w (moves_job now id event) p r h =
    rw (transition-groups now w id event) (h.groups p)
after-groups ids registry w (cancels id) p r h =
    let e : (set_cancel_requested w.conn id).1.agent_groups ≡ w.conn.agent_groups =
      unfold set_cancel_requested in ground arith in
    rw e (h.groups p)
