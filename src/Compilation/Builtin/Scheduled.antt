-- ===== src/Compilation/Builtin/Scheduled.antt =====
-- The schedulers on a compiled project: whichever ran, no teacher and no homeroom is in two places.
use academic_affairs_system.Common.{
  ◌≡◌, ◌≢◌, sym, ap, ◌∙◌, subst, Bool, false, List, Option, none, some,
}
use academic_affairs_system.Common.Text.{Text, is_empty}
use academic_affairs_system.Common.Dict.{lookup}
use academic_affairs_system.Cgcs.Model.{Action, Problem}
use academic_affairs_system.Cgcs.Times.{overlaps}
use academic_affairs_system.Cgcs.Parsing.{parse_problem}
use academic_affairs_system.Cgcs.Run.{GreedyResult, run_cgcs_greedy}
use academic_affairs_system.Cgcs.Run.Correct.{IsCorrect, run_cgcs_greedy-IsCorrect}
use academic_affairs_system.CpSat.Warm.{ClassNode}
use academic_affairs_system.CpSat.Run.{Model, Answer, run_cp_sat}
use academic_affairs_system.CpSat.Run.Outcome.{Respects, WarmIsSound, run_cp_sat-IsSound}
use academic_affairs_system.Xml.{parsed}
use academic_affairs_system.Compilation.Rows.{Lesson, Snapshot}
use academic_affairs_system.Compilation.Build.{build_problem}
use academic_affairs_system.Compilation.Builtin.Apart.{ShareResource, build_problem-separates}

some_inj : (r q : GreedyResult) → some r ≡ some q → r ≡ q
some_inj r q e = ap result_in e
  where
    result_in : Option GreedyResult → GreedyResult
    result_in none = r
    result_in (some x) = x

-- In the result of a run of the greedy scheduler on the problem read from the compiled document, two
-- different lessons that share a teacher or a homeroom and are both placed do not overlap. The ids of
-- the lessons and of what they share are not empty.
pub run_cgcs_greedy-separates :
    (s : Snapshot) (p : Problem) (r : GreedyResult) (k : Text) (l m : Lesson) (a b : Action)
    → parse_problem (build_problem s).0 ≡ parsed p
    → run_cgcs_greedy p ≡ some r
    → ShareResource s k l m
    → is_empty k ≡ false
    → is_empty l.id ≡ false
    → is_empty m.id ≡ false
    → l.id ≢ m.id
    → lookup l.id r.assignments ≡ some a
    → lookup m.id r.assignments ≡ some b
    → overlaps a.time b.time ≡ false
run_cgcs_greedy-separates s p r k l m a b read run =
    let (q, e, ok) = run_cgcs_greedy-IsCorrect p in
    build_problem-separates s p k l m r.assignments a b read
      (subst (IsCorrect p) (some_inj q r (sym e ∙ run)) ok).sound.valid

-- If the solver's values satisfy the model whenever it says OPTIMAL or FEASIBLE, and there is no warm
-- start or one that is read to sound assignments, then in the result of a run of the constraint
-- scheduler on the problem read from the compiled document, two different lessons that share a
-- teacher or a homeroom and are both placed do not overlap. The ids of the lessons and of what they
-- share are not empty.
pub run_cp_sat-separates :
    (s : Snapshot) (p : Problem) (solve : Model → Answer) (time_left : Bool)
    (warm : Option (List ClassNode)) (k : Text) (l m : Lesson) (a b : Action)
    → parse_problem (build_problem s).0 ≡ parsed p
    → Respects solve
    → WarmIsSound p warm
    → ShareResource s k l m
    → is_empty k ≡ false
    → is_empty l.id ≡ false
    → is_empty m.id ≡ false
    → l.id ≢ m.id
    → lookup l.id (run_cp_sat solve time_left p warm).assignments ≡ some a
    → lookup m.id (run_cp_sat solve time_left p warm).assignments ≡ some b
    → overlaps a.time b.time ≡ false
run_cp_sat-separates s p solve time_left warm k l m a b read respects h =
    build_problem-separates s p k l m (run_cp_sat solve time_left p warm).assignments a b read
      (run_cp_sat-IsSound solve time_left p warm respects h).valid
