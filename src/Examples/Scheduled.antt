-- ===== src/Examples/Scheduled.antt =====
-- The school of the compilation, scheduled by both schedulers.
use academic_affairs_system.Common.{◌≡◌, refl, true, false, [], ◌∷◌, none, some}
use academic_affairs_system.Common.Text.{text}
use academic_affairs_system.Common.Dict.{lookup}
use academic_affairs_system.Cgcs.Times.{overlaps}
use academic_affairs_system.Cgcs.Run.{GreedyResult, run_cgcs_greedy}
use academic_affairs_system.CpSat.Run.{run_cp_sat}
use academic_affairs_system.Compilation.Builtin.Scheduled.{
  run_cgcs_greedy-separates, run_cp_sat-separates,
}
use academic_affairs_system.Examples.Greedy.{program}
use academic_affairs_system.CpSat.Warm.{greedy_assignments, solution_nodes}
use academic_affairs_system.Examples.Solver.{lazy_solver, lazy_solver-Respects}
use academic_affairs_system.Examples.Compilation.{
  school, school_problem, lesson, placed, compilation, school-parsed, one_teacher, different,
}

abbrev school_result : GreedyResult
school_result = record {
  assignments = (text "y", placed (text "y") 2) ∷ (text "x", placed (text "x") 1) ∷ [];
  failed = [];
  failed_labels = [];
  hard_violations = 0;
  metrics = record {
    distribution_penalty = 0;
    time_penalty = 0;
    room_penalty = 0;
    total_score = 0;
  };
}

school-run : run_cgcs_greedy school_problem ≡ some school_result
unfolding compilation program
school-run = refl

run_cgcs_greedy-separates_example :
    overlaps (placed (text "x") 1).time (placed (text "y") 2).time ≡ false
run_cgcs_greedy-separates_example =
    run_cgcs_greedy-separates school school_problem school_result (text "t")
      (lesson (text "x") (text "m")) (lesson (text "y") (text "n")) (placed (text "x") 1)
      (placed (text "y") 2) school-parsed school-run one_teacher refl refl refl different refl refl

school-first :
    lookup (text "x") (run_cp_sat lazy_solver true school_problem none).assignments
    ≡ some (placed (text "x") 1)
unfolding compilation program run_cp_sat greedy_assignments solution_nodes
school-first = refl

school-second :
    lookup (text "y") (run_cp_sat lazy_solver true school_problem none).assignments
    ≡ some (placed (text "y") 2)
unfolding compilation program run_cp_sat greedy_assignments solution_nodes
school-second = refl

run_cp_sat-separates_example :
    overlaps (placed (text "x") 1).time (placed (text "y") 2).time ≡ false
run_cp_sat-separates_example =
    run_cp_sat-separates school school_problem lazy_solver true none (text "t")
      (lesson (text "x") (text "m")) (lesson (text "y") (text "n")) (placed (text "x") 1)
      (placed (text "y") 2) school-parsed lazy_solver-Respects (λ nodes e. cc) one_teacher refl refl
      refl different school-first school-second
