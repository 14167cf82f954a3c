-- ===== src/Storage/Values.antt =====
-- The values of a payload, and `_normalize_entity_values` of sidecar/stt_desktop/storage/project.py. How
-- `json.loads` reads a text is a parameter; an object stands as the text that `json.dumps` makes of it.
use academic_affairs_system.Common.{
  ℕ, zero, suc, Bool, true, false, not, ◌&&◌, ◌||◌, List, [], ◌∷◌, ◌++◌, Option, none, some, map,
  select, if◌then◌else◌,
}
use academic_affairs_system.Common.Text.{Text, text, text_eq, contains, is_empty}
use academic_affairs_system.Common.Dict.{lookup, insert, has_key}
use academic_affairs_system.Xml.{decimal, int_of, Parsed, parsed, value_error}
use academic_affairs_system.Storage.Specs.{EntitySpec}

-- `negative n` is the number below zero by n + 1.
pub data Value : Type 0 where
  null : Value
  number : (n : ℕ) → Value
  negative : (n : ℕ) → Value
  string : (t : Text) → Value
  object : (t : Text) → Value

abbrev pub Row : Type 0
Row = List (Text × Value)

pub data Json : Type 0 where
  invalid not_an_object : Json
  is_object : (t : Text) → Json

pub data ProjectError : Type 0 where
  unknown_type : (entity_type : Text) → ProjectError
  unknown_fields missing_fields : (fields : List Text) → ProjectError
  nothing_to_save not_saved busy statement_failed commit_failed manifest_failed not_found :
      ProjectError
  invalid_json json_not_an_object : (field : Text) → ProjectError
  invalid_target missing_target unknown_target : ProjectError
  bad_number bad_hours : ProjectError
  duplicate_id : (id : Text) → ProjectError
  duplicate_count : (key : Text) → ProjectError
  revision_conflict : (expected actual : ℕ) → ProjectError
  bad_page_size : ProjectError

pub data Result {ℓ} (A : Type ℓ) : Type ℓ where
  ok : (a : A) → Result A
  raised : (e : ProjectError) → Result A

infixl 5 ◌>>=◌
abbrev pub ◌>>=◌ {ℓ κ} : {A : Type ℓ} {B : Type κ} → Result A → (A → Result B) → Result B
ok a >>= f = f a
raised e >>= f = raised e

abbrev pub keys : Row → List Text
keys = map (λ (c : Text × Value). c.0)

-- `set(payload) - spec.fields - {"id"}`, in the order of the payload; the message sorts them.
abbrev pub unknown_in : EntitySpec → Row → List Text
unknown_in spec payload =
    select (λ k. not (contains k spec.fields) && not (text_eq k (text "id"))) (keys payload)

-- The fields that a new entity needs and does not get.
abbrev pub missing_in : EntitySpec → Row → Bool → List Text
missing_in spec payload exists =
    if exists then [] else select (λ k. not (has_key k payload)) spec.required

-- `{key: payload[key] for key in payload if key in spec.fields}`
abbrev pub known_values : EntitySpec → Row → Row
known_values spec payload = select (λ (c : Text × Value). contains c.0 spec.fields) payload

-- `{**existing, **values}`
unfoldable pub merged : Row → Row → Row
merged existing [] = existing
merged existing ((k, v) ∷ values) = merged (insert k v existing) values

abbrev pub read_json : (Text → Json) → Value → Json
read_json loads (string t) = loads t
read_json loads (object t) = is_object t
read_json loads _ = not_an_object

abbrev pub with_json : Text → Row → Json → Result Row
with_json field values invalid = raised (invalid_json field)
with_json field values not_an_object = raised (json_not_an_object field)
with_json field values (is_object t) = ok (insert field (string t) values)

abbrev pub normalize_field : (Text → Json) → Text → Row → Option Value → Result Row
normalize_field loads field values none = ok values
normalize_field loads field values (some v) = with_json field values (read_json loads v)

-- The one field of three types that holds JSON.
abbrev pub json_field : Text → Option Text
json_field entity_type =
    if text_eq entity_type (text "bell_schedule") || text_eq entity_type (text "time_slot")
    then some (text "display_config")
    else if text_eq entity_type (text "constraint")
    then some (text "parameters")
    else none

abbrev pub normalize_at : (Text → Json) → Row → Option Text → Result Row
normalize_at loads values none = ok values
normalize_at loads values (some field) = normalize_field loads field values (lookup field values)

unfoldable pub normalize_entity_values : (Text → Json) → Text → Row → Result Row
normalize_entity_values loads entity_type values =
    normalize_at loads values (json_field entity_type)

-- The truth value of a value, and `str` of one.
abbrev pub is_true : Value → Bool
is_true null = false
is_true (number zero) = false
is_true (number (suc n)) = true
is_true (negative n) = true
is_true (string t) = not (is_empty t)
is_true (object t) = not (text_eq t (text "{}"))

unfoldable pub shown : Value → Text
unfolding decimal
shown null = text "None"
shown (number n) = decimal n
shown (negative n) = text "-" ++ decimal (suc n)
shown (string t) = t
shown (object t) = t

abbrev pub text_of : Option Value → Text → Text
text_of none default = default
text_of (some v) default = shown v

-- `str(v or "")`
abbrev pub text_or_empty : Option Value → Text
text_or_empty none = []
text_or_empty (some v) = if is_true v then shown v else []

-- `int(v)`; a number below zero is told apart. A text is read if it has digits only.
pub data Integer : Type 0 where
  natural : (n : ℕ) → Integer
  below_zero not_a_number : Integer

abbrev pub from_text : Parsed ℕ → Integer
from_text (parsed n) = natural n
from_text value_error = not_a_number

abbrev pub integer_of : Value → Integer
integer_of (number n) = natural n
integer_of (negative n) = below_zero
integer_of (string t) = from_text (int_of t)
integer_of _ = not_a_number

abbrev pub integer_or : Option Value → ℕ → Integer
integer_or none default = natural default
integer_or (some v) default = integer_of v
