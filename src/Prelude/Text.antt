-- ===== src/Prelude/Text.antt =====
-- Native texts, character by character: slashes, and Go's strings.Split, strings.Join and
-- strings.TrimPrefix at the separator "/".
use Prim.Native.Char.{Char, code}
use Prim.Native.String
use Prim.Native.String.{String, [], ◌∷◌}
use mathlib.Core.Bool.{Bool, false}
use mathlib.Core.Path.{◌≡◌}
use kompox.Prelude.Tests.{nat_eq, if◌then◌else◌}
use mathlib.Core.List.{List}

-- `++` on texts; the operator is that of lists.
abbrev pub append : String → String → String
append s t = String.◌++◌ s t

abbrev pub slash : Char
slash = "/"

unfoldable pub is_slash : Char → Bool
is_slash c = nat_eq (code c) b'/'

abbrev pub NoSlash : String → Type 0
NoSlash [] = Unit
NoSlash (c ∷ s) = (is_slash c ≡ false) × NoSlash s

-- A character put before the first part.
abbrev pub push_head : Char → List String → List String
push_head c List.[] = List.◌∷◌ (c ∷ []) List.[]
push_head c (List.◌∷◌ s parts) = List.◌∷◌ (c ∷ s) parts

-- strings.Split(s, "/")
unfoldable pub split_slash : String → List String
split_slash [] = List.◌∷◌ "" List.[]
split_slash (c ∷ s) =
    let rest = split_slash s in if is_slash c then List.◌∷◌ "" rest else push_head c rest

-- strings.TrimPrefix(s, "/")
unfoldable pub trim_slash : String → String
trim_slash [] = []
trim_slash (c ∷ s) = if is_slash c then s else c ∷ s

-- strings.HasPrefix(s, "/")
unfoldable pub has_slash : String → Bool
has_slash [] = false
has_slash (c ∷ s) = is_slash c

-- strings.Join(parts, "/")
unfoldable pub join_slash : List String → String
join_slash List.[] = ""
join_slash (List.◌∷◌ s List.[]) = s
join_slash (List.◌∷◌ s (List.◌∷◌ t parts)) =
    let rest = join_slash (List.◌∷◌ t parts) in append s (slash ∷ rest)
