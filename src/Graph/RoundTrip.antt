-- ===== src/Graph/RoundTrip.antt =====
-- A job that is inserted is loaded again as it was, with its run links in order and without repeats.
use assistant_platform.Graph.Run.{insert-jobs}
use mathlib.Core.Option
use assistant_platform.Base.{
  ℕ, if◌then◌else◌, Bool-cases, ok, find, any, ◌^◌, ◌<◌, String, ◌≡◌, refl, sym, ap, ◌∙◌, inl, inr,
  Bool, true, false, Option, none, some, List, [], ◌∷◌, ◌++◌, arith, str_eq, eq_refl,
}
use assistant_platform.Graph.Job.{SpecialistJob, parse-as_str}
use assistant_platform.Graph.Store.{
  Conn, JobRow, RunRow, as_i64, as_u64, has_job, is_link, add_run_link, add_run_links, bit, new_row,
  insert_job, order_links, links_of, is_set, read_job, load_job,
}

-- A `u64` value.
abbrev pub U64 : Option ℕ → Type 0
U64 none = Unit
U64 (some v) = v < 2 ^ 64

as_u64-as_i64 : (v : ℕ) → v < 2 ^ 64 → as_u64 (as_i64 v) ≡ v
unfolding as_u64 as_i64
as_u64-as_i64 v h = ground arith

map-as_u64 : (o : Option ℕ) → U64 o → Option.map as_u64 (Option.map as_i64 o) ≡ o
map-as_u64 none h = refl
map-as_u64 (some v) h = rw (as_u64-as_i64 v h) refl

is_set-bit : (b : Bool) → is_set (bit b) ≡ b
is_set-bit true = refl
is_set-bit false = refl

-- The links of a job after `links` are added to `stored`: those that are new, at the end.
abbrev pub merge_links : List String → List String → List String
merge_links stored [] = stored
merge_links stored (l ∷ links) =
    merge_links (if any (λ x. str_eq x l) stored then stored else stored ++ l ∷ []) links

any-links_of :
    (id l : String) (runs : List RunRow)
    → any (is_link id l) runs ≡ any (λ x. str_eq x l) (links_of id runs)
any-links_of id l [] = refl
any-links_of id l (r ∷ runs) = ground (arith, any-links_of id l runs)

links_of-push :
    (id l : String) (runs : List RunRow)
    → links_of id (runs ++ record { job_id = id; run_link = l } ∷ []) ≡ links_of id runs ++ l ∷ []
links_of-push id l [] = rw (eq_refl id) refl
links_of-push id l (r ∷ runs) = ground (arith, links_of-push id l runs)

links_of-add_run_link :
    (c : Conn) (id l : String)
    → links_of id (add_run_link c id l).specialist_job_runs ≡ (
        if any (λ x. str_eq x l) (links_of id c.specialist_job_runs)
        then links_of id c.specialist_job_runs
        else links_of id c.specialist_job_runs ++ l ∷ [])
unfolding add_run_link
links_of-add_run_link c id l = elim (Bool-cases (any (is_link id l) c.specialist_job_runs)) [
  | inl y ↦ rw (y, sym (any-links_of id l c.specialist_job_runs) ∙ y) refl
  | inr n ↦
      rw (n, sym (any-links_of id l c.specialist_job_runs) ∙ n)
        (links_of-push id l c.specialist_job_runs)
]

links_of-add_run_links :
    (c : Conn) (id : String) (links : List String)
    → links_of id (add_run_links c id links).specialist_job_runs
      ≡ merge_links (links_of id c.specialist_job_runs) links
unfolding add_run_links
links_of-add_run_links c id [] = refl
links_of-add_run_links c id (l ∷ links) =
    links_of-add_run_links (add_run_link c id l) id links
    ∙ ap (λ s. merge_links s links) (links_of-add_run_link c id l)

find-new_row :
    (now : String) (job : SpecialistJob) (rows : List JobRow)
    → any (has_job job.job_id) rows ≡ false
    → find (has_job job.job_id) (rows ++ new_row now job ∷ []) ≡ some (new_row now job)
find-new_row now job [] h = rw (eq_refl job.job_id) refl
find-new_row now job (r ∷ rows) h = ground (arith, find-new_row now job rows)

read-new_row :
    (now : String) (job : SpecialistJob) (runs : List RunRow)
    → U64 job.budget.max_tokens
    → U64 job.budget.max_wall_secs
    → job.timeout_secs < 2 ^ 64
    → read_job job.job_id (new_row now job) runs
      ≡ ok (record job { run_links = order_links (links_of job.job_id runs) })
unfolding read_job
read-new_row now job runs t w s =
    rw
      (
        parse-as_str job.status,
        map-as_u64 job.budget.max_tokens t,
        map-as_u64 job.budget.max_wall_secs w,
        as_u64-as_i64 job.timeout_secs s,
        is_set-bit job.cancel_requested,
      )
      refl

links_of-insert :
    (now : String) (c : Conn) (job : SpecialistJob)
    → any (has_job job.job_id) c.specialist_jobs ≡ false
    → links_of job.job_id (insert_job now c job).1.specialist_job_runs
      ≡ merge_links (links_of job.job_id c.specialist_job_runs) job.run_links
unfolding insert_job
links_of-insert now c job free = rw free (
    links_of-add_run_links
      (record c { specialist_jobs = c.specialist_jobs ++ new_row now job ∷ [] }) job.job_id
      job.run_links)

-- An insertion that succeeds, of a job whose numbers are `u64` values, is read back whole, those beyond
-- the range of `i64` included; the run links come sorted, with those already stored for the id and
-- without repeats.
pub load-insert_job :
    (now : String) (c : Conn) (job : SpecialistJob)
    → U64 job.budget.max_tokens
    → U64 job.budget.max_wall_secs
    → job.timeout_secs < 2 ^ 64
    → (insert_job now c job).0 ≡ ok tt
    → load_job (insert_job now c job).1 job.job_id
      ≡ ok (record job {
        run_links =
            order_links (merge_links (links_of job.job_id c.specialist_job_runs) job.run_links);
      })
load-insert_job now c job t w s h = elim (Bool-cases (any (has_job job.job_id) c.specialist_jobs)) [
  | inl taken ↦ absurd (unfold insert_job in ground arith)
  | inr free ↦
      unfold load_job in
      rw (insert-jobs now c job free, find-new_row now job c.specialist_jobs free)
        (read-new_row now job _ t w s
          ∙ ap (λ links. ok (record job { run_links = order_links links }))
              (links_of-insert now c job free))
]
