-- ===== src/Cgcs/Parsing.antt =====
-- `parse_problem` of sidecar/stt_desktop/scheduler_engine/cgcs.py: the records of a problem from its
-- document. An `int` that raises ends it.
use academic_affairs_system.Common.{
  ℕ, max, Bool, true, false, not, ◌&&◌, List, [], ◌∷◌, ◌++◌, Option, none, some, map, length,
  select, ltb, if◌then◌else◌,
}
use academic_affairs_system.Common.Text.{Text, text, text_eq, is_empty}
use academic_affairs_system.Common.Dict.{lookup}
use academic_affairs_system.Cgcs.Model.{
  TimeOption, TimeKey, RoomOption, Room, ClassAgent, DistributionType, not_overlap, same_room,
  different_time, different_days, different_weeks, same_days, same_start, same_time, precedence,
  consecutive, different_week_same_day_same_start, Distribution, LimitType, max_daily_lessons,
  consecutive_limit, ResourceLimit, Problem,
}
use academic_affairs_system.Xml.{
  Element, attrib_of, findall, findall_in, descendants, attribute, Parsed, parsed, ◌>>=◌, parse_all,
  int_of,
}
use academic_affairs_system.Xml.Strings.{number_attribute, strip, lower}

-- `if node.attrib.get("id")`
abbrev pub has_id : Element → Bool
has_id node = not (is_empty (attribute (text "id") [] node))

abbrev pub id_of : Element → Text
id_of = attribute (text "id") []

abbrev pub parse_room : Element → Room
parse_room node = record { room_id = id_of node; name = strip (attribute (text "name") [] node) }

abbrev pub parse_period : Option Text → Parsed (Option ℕ)
parse_period none = parsed none
parse_period (some t) = int_of t >>= λ n. parsed (some n)

unfoldable pub parse_time : Element → Parsed TimeOption
parse_time node = number_attribute (text "start") (text "0") node >>= λ start.
    number_attribute (text "length") (text "1") node >>= λ span.
    number_attribute (text "penalty") (text "0") node >>= λ penalty.
    parse_period (lookup (text "periodIndex") (attrib_of node)) >>= λ period_index. parsed (record {
      days = attribute (text "days") [] node;
      weeks = attribute (text "weeks") [] node;
      start = start;
      span = span;
      penalty = penalty;
      period_index = period_index;
    })

abbrev pub time_key_at : Element → ℕ → TimeKey
time_key_at node start = (attribute (text "days") [] node, attribute (text "weeks") [] node, start)

unfoldable pub parse_unavailable : Element → Parsed TimeKey
parse_unavailable node =
    number_attribute (text "start") (text "0") node >>= λ start. parsed (time_key_at node start)

unfoldable pub parse_preference : Element → Parsed (TimeKey × ℕ)
parse_preference node = number_attribute (text "start") (text "0") node >>= λ start.
    number_attribute (text "penalty") (text "0") node >>= λ penalty.
    parsed (time_key_at node start, penalty)

unfoldable pub parse_room_option : Element → Parsed RoomOption
unfolding findall parse_unavailable parse_preference
parse_room_option node = number_attribute (text "penalty") (text "0") node >>= λ penalty.
    parse_all parse_unavailable (findall (text "unavailable") node) >>= λ unavailable.
    parse_all parse_preference (findall (text "preference") node) >>= λ preferences.
    parsed (record {
      room_id = id_of node;
      penalty = penalty;
      unavailable_times = unavailable;
      timed_penalties = preferences;
    })

-- `a or b or c` for strings
abbrev pub or_next : Text → Text → Text
or_next [] next = next
or_next (c ∷ cs) next = c ∷ cs

abbrev pub is_none_left : List Element → Bool
is_none_left [] = true
is_none_left (e ∷ es) = false

-- Elements without an id or a time are skipped, so those that stand in the rules are.
unfoldable pub is_agent : Element → Bool
unfolding findall
is_agent node = has_id node && not (is_none_left (findall (text "time") node))

unfoldable pub parse_agent : Element → Parsed ClassAgent
unfolding findall parse_time parse_room_option
parse_agent node = parse_all parse_time (findall (text "time") node) >>= λ times.
    parse_all parse_room_option (select has_id (findall (text "room") node)) >>= λ rooms.
    parsed (record {
      class_id = id_of node;
      label =
          or_next (attribute (text "label") [] node)
            (or_next (attribute (text "subject") [] node) (id_of node));
      time_options = times;
      room_options = rooms;
    })

-- `SUPPORTED_DISTRIBUTIONS`
abbrev pub supported_distributions : List (Text × DistributionType)
supported_distributions =
    (text "NotOverlap", not_overlap)
    ∷ (text "SameRoom", same_room)
    ∷ (text "DifferentTime", different_time)
    ∷ (text "DifferentDays", different_days)
    ∷ (text "DifferentWeeks", different_weeks)
    ∷ (text "SameDays", same_days)
    ∷ (text "SameStart", same_start)
    ∷ (text "SameTime", same_time)
    ∷ (text "Precedence", precedence)
    ∷ (text "Consecutive", consecutive)
    ∷ (text "DifferentWeekSameDaySameStart", different_week_same_day_same_start)
    ∷ []

-- The ids of the classes that a rule names.
unfoldable pub named_ids : Element → List Text
unfolding findall
named_ids node = map id_of (select has_id (findall (text "class") node))

abbrev pub is_required : Element → Bool
is_required node = text_eq (lower (attribute (text "required") (text "false") node)) (text "true")

-- A rule that is kept, or none where the loop goes on.
abbrev pub distribution_of :
    Element → List Text → Option DistributionType → Parsed (List Distribution)
distribution_of node ids none = parsed []
distribution_of node ids (some kind) =
    if ltb (length ids) 2
    then parsed []
    else number_attribute (text "penalty") (text "0") node >>= λ penalty. parsed (
        record {
          distribution_id = id_of node;
          distribution_type = kind;
          required = is_required node;
          penalty = penalty;
          class_ids = ids;
          name = attribute (text "name") [] node;
          scope = attribute (text "scope") [] node;
        }
        ∷ [])

unfoldable pub parse_distribution : Element → Parsed (List Distribution)
unfolding named_ids
parse_distribution node =
    distribution_of node (named_ids node)
      (lookup (attribute (text "type") [] node) supported_distributions)

abbrev pub limit_types : List (Text × LimitType)
limit_types =
    (text "max_daily_lessons", max_daily_lessons)
    ∷ (text "consecutive_limit", consecutive_limit)
    ∷ []

abbrev pub limit_of : Element → List Text → Option LimitType → Parsed (List ResourceLimit)
limit_of node ids none = parsed []
limit_of node ids (some kind) =
    if ltb (length ids) 1
    then parsed []
    else number_attribute (text "penalty") (text "0") node >>= λ penalty.
        number_attribute (text "limit") (text "1") node >>= λ limit. parsed (
          record {
            constraint_id = id_of node;
            limit_type = kind;
            required = is_required node;
            penalty = penalty;
            limit = max 1 limit;
            class_ids = ids;
            name = attribute (text "name") [] node;
            scope = attribute (text "scope") [] node;
          }
          ∷ [])

unfoldable pub parse_limit : Element → Parsed (List ResourceLimit)
unfolding named_ids
parse_limit node =
    limit_of node (named_ids node) (lookup (attribute (text "type") [] node) limit_types)

-- The rules of each element in a row.
abbrev pub parse_each : {A : Type 0} → (Element → Parsed (List A)) → List Element → Parsed (List A)
parse_each f [] = parsed []
parse_each f (e ∷ es) = f e >>= λ xs. parse_each f es >>= λ ys. parsed (xs ++ ys)

unfoldable pub parse_problem : Element → Parsed Problem
unfolding findall descendants is_agent parse_agent parse_distribution parse_limit
parse_problem root =
    parse_all parse_agent (select is_agent (descendants (text "class") root)) >>= λ agents.
    parse_each parse_distribution (descendants (text "distribution") root) >>= λ distributions.
    parse_each parse_limit (findall_in (text "limits") (text "limit") root) >>= λ limits.
    parsed (record {
      name = attribute (text "name") (text "stt-problem") root;
      rooms = map parse_room (select has_id (findall_in (text "rooms") (text "room") root));
      agents = agents;
      distributions = distributions;
      resource_limits = limits;
    })
