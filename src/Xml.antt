-- ===== src/Xml.antt =====
-- The part of xml.etree.ElementTree and of `str` and `int` that `_build_problem` of
-- sidecar/stt_desktop/scheduling/service.py writes with and `parse_problem` of
-- sidecar/stt_desktop/scheduler_engine/cgcs.py reads with. `tostring` and `fromstring` undo each
-- other on such a tree, so the document is the tree. `int` reads ASCII digits; the signs, blanks and
-- underscores that Python also takes are never written, and raise here.
pub mod Numbers
pub mod Search
pub mod Strings
use academic_affairs_system.Common.{
  ℕ, zero, suc, ◌+◌, ◌-◌, ◌*◌, Bool, true, false, ◌&&◌, List, [], ◌∷◌, ◌++◌, Option, none, some,
  map, ltb, leb, if◌then◌else◌,
}
use academic_affairs_system.Common.Text.{Text, text_eq, is_empty}
use academic_affairs_system.Common.Dict.{lookup}
use Prim.Native.Nat.{◌/◌, ◌%◌}

mutual
  pub data Element : Type 0 where
    element : (tag : Text) (attrib : List (Text × Text)) (children : Elements) → Element

  pub data Elements : Type 0 where
    end : Elements
    child : (e : Element) (rest : Elements) → Elements

-- The elements of a list as children, appended by `SubElement` one by one.
abbrev pub children_of : List Element → Elements
children_of [] = end
children_of (e ∷ es) = child e (children_of es)

abbrev pub tag_of : Element → Text
tag_of (element tag attrib children) = tag

abbrev pub attrib_of : Element → List (Text × Text)
attrib_of (element tag attrib children) = attrib

abbrev pub children_in : Element → Elements
children_in (element tag attrib children) = children

-- `node.findall(tag)`: the children with the tag.
unfoldable pub children_tagged : Text → Elements → List Element
children_tagged tag end = []
children_tagged tag (child e rest) =
    let later = children_tagged tag rest in if text_eq (tag_of e) tag then e ∷ later else later

unfoldable pub findall : Text → Element → List Element
unfolding children_tagged
findall tag (element t attrib children) = children_tagged tag children

-- `node.findall("./parent/tag")`
unfoldable pub findall_each : Text → List Element → List Element
unfolding findall
findall_each tag [] = []
findall_each tag (e ∷ es) = findall tag e ++ findall_each tag es

abbrev pub findall_in : Text → Text → Element → List Element
findall_in parent tag node = findall_each tag (findall parent node)

abbrev pub if_tagged : Text → Element → List Element
if_tagged tag e = if text_eq (tag_of e) tag then e ∷ [] else []

-- `node.findall(".//tag")`: the elements with the tag below the node, in the order of the document.
unfoldable mutual
  pub descendants : Text → Element → List Element
  descendants tag (element t attrib children) = descendants_in tag children

  pub descendants_in : Text → Elements → List Element
  descendants_in tag end = []
  descendants_in tag (child e rest) =
      if_tagged tag e ++ (descendants tag e ++ descendants_in tag rest)

-- `node.attrib.get(name, default)`
abbrev pub or_text : Option Text → Text → Text
or_text none default = default
or_text (some t) default = t

abbrev pub attribute : Text → Text → Element → Text
attribute name default node = or_text (lookup name (attrib_of node)) default

-- `str(n)`
unfoldable pub digits : ℕ → ℕ → Text → Text
digits zero n after = after
digits (suc fuel) n after =
    let longer = digits fuel (n / 10) ((48 + n % 10) ∷ after) in
    if ltb n 10 then (48 + n) ∷ after else longer

unfoldable pub decimal : ℕ → Text
unfolding digits
decimal n = digits (suc n) n []

-- A result, or the ValueError that `int` raises.
pub data Parsed {ℓ} (A : Type ℓ) : Type ℓ where
  parsed : (a : A) → Parsed A
  value_error : Parsed A

infixl 5 ◌>>=◌
abbrev pub ◌>>=◌ {ℓ κ} : {A : Type ℓ} {B : Type κ} → Parsed A → (A → Parsed B) → Parsed B
parsed a >>= f = f a
value_error >>= f = value_error

-- `tuple(f(x) for x in xs)`
abbrev pub parse_all {ℓ κ} : {A : Type ℓ} {B : Type κ} → (A → Parsed B) → List A → Parsed (List B)
parse_all f [] = parsed []
parse_all f (x ∷ xs) = f x >>= λ y. parse_all f xs >>= λ ys. parsed (y ∷ ys)

unfoldable pub read_digits : Text → ℕ → Parsed ℕ
read_digits [] n = parsed n
read_digits (c ∷ cs) n =
    let rest = read_digits cs (n * 10 + (c - 48)) in
    if leb 48 c && ltb c 58 then rest else value_error

-- `int(t)`
unfoldable pub int_of : Text → Parsed ℕ
unfolding read_digits
int_of t = if is_empty t then value_error else read_digits t 0
