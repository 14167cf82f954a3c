-- ===== src/Xml/Strings.antt =====
-- `str.strip` and `str.lower`, and the numbers in attributes.
use academic_affairs_system.Common.{
  ℕ, ◌+◌, Bool, ◌&&◌, ◌||◌, [], ◌∷◌, map, leb, ◌==◌, if◌then◌else◌,
}
use academic_affairs_system.Common.Text.{Text, is_empty}
use academic_affairs_system.Xml.{Element, attribute, Parsed, int_of}

-- `int(node.attrib.get(name, default))`
abbrev pub number_attribute : Text → Text → Element → Parsed ℕ
number_attribute name default node = int_of (attribute name default node)

-- `str.isspace` on one character, and `str.strip`.
abbrev pub is_between : ℕ → ℕ → ℕ → Bool
is_between first last c = leb first c && leb c last

unfoldable pub is_space : ℕ → Bool
is_space c =
    is_between 9 13 c
    || is_between 28 32 c
    || c == 0x85
    || c == 0xa0
    || c == 0x1680
    || is_between 0x2000 0x200a c
    || is_between 0x2028 0x2029 c
    || c == 0x202f
    || c == 0x205f
    || c == 0x3000

unfoldable pub strip_left : Text → Text
unfolding is_space
strip_left [] = []
strip_left (c ∷ cs) = let rest = strip_left cs in if is_space c then rest else c ∷ cs

-- The blanks at the end go with the first of them.
unfoldable pub strip_right : Text → Text
unfolding is_space
strip_right [] = []
strip_right (c ∷ cs) =
    let rest = strip_right cs in if is_space c && is_empty rest then [] else c ∷ rest

unfoldable pub strip : Text → Text
unfolding strip_left strip_right
strip t = strip_right (strip_left t)

-- `str.lower` for the comparison with an ASCII word.
abbrev pub lower_code : ℕ → ℕ
lower_code c = if is_between 65 90 c then c + 32 else c

abbrev pub lower : Text → Text
lower = map lower_code
