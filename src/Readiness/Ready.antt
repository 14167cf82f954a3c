-- ===== src/Readiness/Ready.antt =====
-- When a project is ready.
use academic_affairs_system.Common.{
  ℕ, ◌≡◌, ◌≢◌, ◌↔◌, refl, sym, ap, ◌∙◌, subst, inl, inr, true, List, [], ◌∷◌, ◌++◌, map, select,
  length, ltb, arith, Elem,
}
use academic_affairs_system.Common.Text.{text_eq, is_truthy, or_empty}
use academic_affairs_system.Compilation.Rows.{Task, CoursePlan, Snapshot}
use academic_affairs_system.Compilation.Classes.{active_tasks}
use academic_affairs_system.Compilation.Build.{build_problem}
use academic_affairs_system.Compilation.Times.{group_from-lookup}
use academic_affairs_system.Validation.Limits.Days.{both_empty}
use academic_affairs_system.Readiness.{
  ProjectIssue, compile_error, task_issues, tasks_by_plan, planned_tasks, weekly_total, plan_issue,
  plan_issues, project_errors, validate_current_project,
}
use academic_affairs_system.Readiness.Tasks.{IsCovered, IsReady, task_issues-none, none-task_issues}

planned_tasks-select :
    (ts : List Task) (plan : CoursePlan)
    → planned_tasks (tasks_by_plan ts) plan
      ≡ select
          (λ (t : Task). text_eq (or_empty t.course_plan_id) plan.id)
          (select (λ (t : Task). is_truthy t.course_plan_id) ts)
unfolding tasks_by_plan
planned_tasks-select ts plan =
    group_from-lookup (λ (t : Task). or_empty t.course_plan_id) plan.id
      (select (λ (t : Task). is_truthy t.course_plan_id) ts) []

plan_issue-none :
    (plan : CoursePlan) (n : ℕ)
    → plan_issue plan n ≡ []
    → plan.weekly_slots ≢ 0
    → n ≡ plan.weekly_slots
plan_issue-none plan n h ne = ground arith

none-plan_issue :
    (plan : CoursePlan) (n : ℕ)
    → (plan.weekly_slots ≢ 0 → n ≡ plan.weekly_slots)
    → plan_issue plan n ≡ []
none-plan_issue plan n h = ground arith

module _ (ts : List Task) where
  plan_issues-none :
      (plans : List CoursePlan)
      → plan_issues (tasks_by_plan ts) plans ≡ []
      → (q : CoursePlan) → Elem q plans
      → IsCovered ts q
  unfolding plan_issues
  plan_issues-none [] h q m = absurd m
  plan_issues-none (plan ∷ plans) h q m =
      let (here, later) =
        both_empty (plan_issue plan (weekly_total (planned_tasks (tasks_by_plan ts) plan)))
          (plan_issues (tasks_by_plan ts) plans) h in
      elim m [
        | inl e ↦ subst (IsCovered ts) (sym e) (covered here)
        | inr n ↦ plan_issues-none plans later q n
      ]
    where
      covered :
          plan_issue plan (weekly_total (planned_tasks (tasks_by_plan ts) plan)) ≡ []
          → IsCovered ts plan
      covered here ne =
          sym (ap weekly_total (planned_tasks-select ts plan))
          ∙ plan_issue-none plan (weekly_total (planned_tasks (tasks_by_plan ts) plan)) here ne

  none-plan_issues :
      (plans : List CoursePlan)
      → ((q : CoursePlan) → Elem q plans → IsCovered ts q)
      → plan_issues (tasks_by_plan ts) plans ≡ []
  unfolding plan_issues
  none-plan_issues [] h = refl
  none-plan_issues (plan ∷ plans) h =
      rw
        (none-plan_issue plan (weekly_total (planned_tasks (tasks_by_plan ts) plan))
          (λ ne. ap weekly_total (planned_tasks-select ts plan) ∙ h plan (inl refl) ne))
        (none-plan_issues plans (λ q m. h q (inr m)))

map_empty : {A B : Type 0} (f : A → B) (xs : List A) → map f xs ≡ [] → xs ≡ []
map_empty f [] h = refl
map_empty f (x ∷ xs) h = cc

module _ (s : Snapshot) (plans : List CoursePlan) where
  IsReady-of : project_errors s plans ≡ [] → IsReady s plans
  unfolding project_errors
  IsReady-of h =
      let (compiled, rest) =
        both_empty (map compile_error (build_problem s).1.errors)
          (task_issues s (active_tasks s) ++ plan_issues (tasks_by_plan (active_tasks s)) plans)
          h in
      let (tasks, covered) =
        both_empty (task_issues s (active_tasks s))
          (plan_issues (tasks_by_plan (active_tasks s)) plans) rest in
      record {
        compiled = map_empty compile_error (build_problem s).1.errors compiled;
        tasks = task_issues-none s (active_tasks s) tasks;
        plans_covered = plan_issues-none (active_tasks s) plans covered;
      }

  no_project_errors : IsReady s plans → project_errors s plans ≡ []
  unfolding project_errors
  no_project_errors r =
      rw
        (
          r.compiled,
          none-task_issues s (active_tasks s) r.tasks,
          none-plan_issues (active_tasks s) plans r.plans_covered,
        )
        refl

-- The check calls a project ready exactly when the compilation reports no error, every active task has
-- an active teacher, enabled lessons that add up to its weekly slots, and a room of its kind that is in
-- use, fixed or not, where it asks for one, and every course plan that plans slots is covered exactly
-- by its active tasks.
pub validate_current_project-ready_iff :
    (s : Snapshot) (plans : List CoursePlan)
    → ((validate_current_project s plans).ready ≡ true) ↔ IsReady s plans
unfolding validate_current_project
validate_current_project-ready_iff s plans = (ready, found)
  where
    no_errors : (es : List ProjectIssue) → ltb (length es) 1 ≡ true → es ≡ []
    no_errors [] h = refl
    no_errors (e ∷ es) h = ground arith

    ready : ltb (length (project_errors s plans)) 1 ≡ true → IsReady s plans
    ready h = IsReady-of s plans (no_errors (project_errors s plans) h)

    found : IsReady s plans → ltb (length (project_errors s plans)) 1 ≡ true
    found r = rw (no_project_errors s plans r) refl
