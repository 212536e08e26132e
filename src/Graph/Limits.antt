-- ===== src/Graph/Limits.antt =====
-- The limits of the registry bound the jobs in flight and the specialists of every profile.
pub mod Bounds
pub mod Jobs
pub mod Groups
use assistant_platform.Graph.Limits.Bounds.{LimitsInRange, WithinLimits}
use assistant_platform.Graph.Limits.Jobs.{Distinct-change, jobs-change}
use assistant_platform.Graph.Limits.Groups.{after-groups}
use assistant_platform.Graph.Run.{Call, after, run, run_induction, empty_world, after-JobsChange}
use assistant_platform.Base.{List, arith, RowIds}
use assistant_platform.Graph.Registry.{SpecialistRegistry}
use assistant_platform.Graph.Delegation.{World}

after-WithinLimits :
    (ids : RowIds) (registry : SpecialistRegistry)
    → LimitsInRange registry
    → (w : World) (call : Call) → WithinLimits registry w
    → WithinLimits registry (after ids registry w call)
after-WithinLimits ids registry r w call h = record {
  distinct = Distinct-change registry w _ h.distinct (after-JobsChange ids registry w call);
  jobs = λ p. jobs-change registry w _ p r h (after-JobsChange ids registry w call);
  groups = λ p. after-groups ids registry w call p r h;
}

-- With limits that are `u32` values: whatever the delegation flow is asked to do from an empty
-- database, in whatever order, no profile ever has more jobs in flight, or more specialists, than the
-- registry allows it, and none that is not registered has any.
pub run-WithinLimits :
    (ids : RowIds) (registry : SpecialistRegistry) (calls : List Call)
    → LimitsInRange registry
    → WithinLimits registry (run ids registry empty_world calls)
run-WithinLimits ids registry calls r =
    run_induction (WithinLimits registry) ids registry (after-WithinLimits ids registry r)
      empty_world calls
      (record { distinct = tt; jobs = λ p. omega arith; groups = λ p. omega arith })
