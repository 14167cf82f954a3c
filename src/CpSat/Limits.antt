-- ===== src/CpSat/Limits.antt =====
-- `_compile_resource_limits`, `_add_resource_limit_expression`, `_action_uses_day` and
-- `_score_resource_limits` of sidecar/stt_desktop/scheduler_engine/cp_sat.py.
pub mod Daily
use academic_affairs_system.Common.{
  ℕ, zero, suc, ◌+◌, ◌-◌, ◌*◌, min, max, ◌≡◌, Bool, true, false, not, ◌&&◌, List, [], ◌∷◌, ◌++◌,
  Option, none, some, any, select, sum_of, map, ltb, leb, ◌==◌, if◌then◌else◌,
}
use academic_affairs_system.Common.Text.{Text}
use academic_affairs_system.Common.Dict.{lookup}
use academic_affairs_system.Common.Sort.{min_from}
use academic_affairs_system.Cgcs.Model.{
  Action, Assignments, ResourceLimit, LimitType, max_daily_lessons, consecutive_limit,
}
use academic_affairs_system.CpSat.Candidates.{Candidate}
use academic_affairs_system.CpSat.Compile.{candidates_of_ids}
use academic_affairs_system.CpSat.Solve.{as_number}

-- The mask's bit for a day, counted from 1; a short mask has no bit for the later days.
abbrev pub has_day : Text → ℕ → Bool
has_day [] weekday = false
has_day (b ∷ days) weekday = if weekday == 1 then b == b'1' else has_day days (weekday - 1)

unfoldable pub action_uses_day : Action → ℕ → Bool
action_uses_day action weekday = has_day action.time.days weekday

-- `range(1, 8)`
abbrev pub weekdays : List ℕ
weekdays = 1 ∷ 2 ∷ 3 ∷ 4 ∷ 5 ∷ 6 ∷ 7 ∷ []

-- The numbers from `first`, as many as asked for.
abbrev pub numbers_from : ℕ → ℕ → List ℕ
numbers_from first zero = []
numbers_from first (suc n) = first ∷ numbers_from (first + 1) n

-- `min(numbers)` and `max(numbers)` of a nonempty list.
abbrev pub least_of : ℕ → List ℕ → ℕ
least_of = min_from ltb

abbrev pub greatest_of : ℕ → List ℕ → ℕ
greatest_of n [] = n
greatest_of n (k ∷ ks) = greatest_of (max n k) ks

-- `range(min(numbers), max(numbers) + 1)`, nothing for no numbers.
abbrev pub window_starts : List ℕ → List ℕ
window_starts [] = []
window_starts (n ∷ ns) = numbers_from (least_of n ns) (greatest_of n ns + 1 - least_of n ns)

-- What a limit adds to the model: `expression <= limit`, or a variable that is at least the excess,
-- with its penalty (its upper bound, the sum of the coefficients, cuts off nothing). A term is a
-- coefficient and a literal.
pub data LimitRow : Type 0 where
  at_most : (terms : List (ℕ × ℕ)) (limit : ℕ) → LimitRow
  excess_of : (penalty : ℕ) (terms : List (ℕ × ℕ)) (limit : ℕ) → LimitRow

abbrev pub limit_expression : List (ℕ × ℕ) → ResourceLimit → List LimitRow
limit_expression [] r = []
limit_expression (t ∷ ts) r =
    if r.required then at_most (t ∷ ts) r.limit ∷ [] else excess_of r.penalty (t ∷ ts) r.limit ∷ []

abbrev pub daily_terms : List Candidate → List (ℕ × ℕ)
daily_terms = map (λ (c : Candidate). (c.action.time.span, c.ordinal))

-- The periods of the candidates that have one.
abbrev pub period_of : Option ℕ → List ℕ
period_of none = []
period_of (some p) = p ∷ []

unfoldable pub start_periods : List Candidate → List ℕ
start_periods [] = []
start_periods (c ∷ cs) = period_of c.action.time.period_index ++ start_periods cs

-- The overlap of an action with a window, 0 where they are apart.
abbrev pub window_overlap : ℕ → ℕ → ℕ → ℕ → ℕ
window_overlap start span first end = min (start + span) end - max start first

abbrev pub window_term : ℕ → ℕ → Candidate → Option ℕ → List (ℕ × ℕ)
window_term first end c none = []
window_term first end c (some p) =
    let overlap = window_overlap p c.action.time.span first end in
    if overlap == 0 then [] else (overlap, c.ordinal) ∷ []

unfoldable pub window_terms : ℕ → ℕ → List Candidate → List (ℕ × ℕ)
window_terms first end [] = []
window_terms first end (c ∷ cs) =
    window_term first end c c.action.time.period_index ++ window_terms first end cs

unfoldable pub window_rows : ResourceLimit → List Candidate → List ℕ → List LimitRow
unfolding window_terms
window_rows r day_candidates [] = []
window_rows r day_candidates (first ∷ rest) =
    limit_expression (window_terms first (first + r.limit + 1) day_candidates) r
    ++ window_rows r day_candidates rest

abbrev pub rows_by_type : ResourceLimit → LimitType → List Candidate → List LimitRow
rows_by_type r max_daily_lessons day_candidates = limit_expression (daily_terms day_candidates) r
rows_by_type r consecutive_limit day_candidates =
    window_rows r day_candidates (window_starts (start_periods day_candidates))

-- The candidates of a limit that use a day.
abbrev pub on_day : ℕ → List Candidate → List Candidate
on_day weekday = select (λ (c : Candidate). action_uses_day c.action weekday)

unfoldable pub day_rows : ResourceLimit → List Candidate → List ℕ → List LimitRow
unfolding action_uses_day window_rows start_periods
day_rows r candidates [] = []
day_rows r candidates (weekday ∷ rest) =
    rows_by_type r r.limit_type (on_day weekday candidates) ++ day_rows r candidates rest

abbrev pub terms_value : (ℕ → Bool) → List (ℕ × ℕ) → ℕ
terms_value x = sum_of (λ t. t.0 * as_number (x t.1))

-- The rows of the required limits; the variable of an excess can always be large enough.
unfoldable pub satisfies_limits : (ℕ → Bool) → List LimitRow → Bool
satisfies_limits x [] = true
satisfies_limits x (at_most terms limit ∷ rows) =
    leb (terms_value x terms) limit && satisfies_limits x rows
satisfies_limits x (excess_of penalty terms limit ∷ rows) = satisfies_limits x rows

unfoldable pub compile_resource_limits :
    List ResourceLimit → List (Text × List Candidate) → List LimitRow
unfolding candidates_of_ids day_rows
compile_resource_limits [] by_class = []
compile_resource_limits (r ∷ rs) by_class =
    day_rows r (candidates_of_ids by_class r.class_ids) weekdays
    ++ compile_resource_limits rs by_class

-- `[assignments[class_id] for class_id in class_ids if class_id in assignments]`
abbrev pub or_no_action : Option Action → List Action
or_no_action none = []
or_no_action (some a) = a ∷ []

unfoldable pub limited_actions : Assignments → List Text → List Action
limited_actions assignments [] = []
limited_actions assignments (class_id ∷ ids) =
    or_no_action (lookup class_id assignments) ++ limited_actions assignments ids

abbrev pub actions_on_day : ℕ → List Action → List Action
actions_on_day weekday = select (λ a. action_uses_day a weekday)

abbrev pub load : List Action → ℕ
load = sum_of (λ (a : Action). a.time.span)

abbrev pub periods_from : Option ℕ → ℕ → List ℕ
periods_from none span = []
periods_from (some start) span = numbers_from start span

-- The periods that some action takes; a period that two take stands twice, which no use of it sees.
unfoldable pub occupied_periods : List Action → List ℕ
occupied_periods [] = []
occupied_periods (a ∷ rest) = periods_from a.time.period_index a.time.span ++ occupied_periods rest

abbrev pub occupied_in : List ℕ → ℕ → ℕ → ℕ
occupied_in occupied first n =
    sum_of (λ p. if any (λ q. q == p) occupied then 1 else 0) (numbers_from first n)

abbrev pub day_penalty : ResourceLimit → LimitType → List Action → ℕ
day_penalty r max_daily_lessons day_actions = (load day_actions - r.limit) * r.penalty
day_penalty r consecutive_limit day_actions =
    sum_of
      (λ first.
        (occupied_in (occupied_periods day_actions) first (r.limit + 1) - r.limit) * r.penalty)
      (window_starts (occupied_periods day_actions))

unfoldable pub limit_penalty : Assignments → ResourceLimit → ℕ
unfolding action_uses_day limited_actions occupied_periods
limit_penalty assignments r =
    if r.required
    then 0
    else sum_of
        (λ weekday.
          day_penalty r r.limit_type
            (actions_on_day weekday (limited_actions assignments r.class_ids)))
        weekdays

unfoldable pub score_resource_limits : Assignments → List ResourceLimit → ℕ
unfolding limit_penalty
score_resource_limits assignments = sum_of (limit_penalty assignments)
