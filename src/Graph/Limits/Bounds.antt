-- ===== src/Graph/Limits/Bounds.antt =====
-- What the registry allows, and the invariant of the tables.
use assistant_platform.Base.{
  ℕ, All, count_where, any, ◌^◌, ◌≤◌, ◌<◌, String, ◌≡◌, false, none, some, List, [], ◌∷◌,
}
use assistant_platform.Graph.Store.{JobRow, has_job, is_active_of, is_specialist_of}
use assistant_platform.Graph.Registry.{SpecialistRegistry, get}
use assistant_platform.Graph.Delegation.{World}

-- The limits are `u32` values.
abbrev pub LimitsInRange : SpecialistRegistry → Type 0
LimitsInRange registry =
    All (λ p. (p.limits.max_concurrent_jobs < 2 ^ 32) × (p.limits.max_specialists < 2 ^ 32))
      registry

-- What the registry allows a profile; nothing, if it is not registered.
abbrev pub max_jobs : SpecialistRegistry → String → ℕ
max_jobs registry p = elim (get registry p) [
  | none ↦ 0
  | some profile ↦ profile.limits.max_concurrent_jobs
]

abbrev pub max_groups : SpecialistRegistry → String → ℕ
max_groups registry p = elim (get registry p) [
  | none ↦ 0
  | some profile ↦ profile.limits.max_specialists
]

-- No two rows have one job id.
abbrev pub Distinct : List JobRow → Type 0
Distinct [] = Unit
Distinct (x ∷ xs) = (any (has_job x.job_id) xs ≡ false) × Distinct xs

pub record WithinLimits (registry : SpecialistRegistry) (w : World) : Type 0 where
  pub distinct : Distinct w.conn.specialist_jobs
  pub jobs :
      (p : String) → count_where (is_active_of p) w.conn.specialist_jobs ≤ max_jobs registry p
  pub groups :
      (p : String) → count_where (is_specialist_of p) w.conn.agent_groups ≤ max_groups registry p
