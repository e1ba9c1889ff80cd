-- ===== src/UrlPath.antt =====
-- app/controller/handlers.go: how the handlers take a URL path apart: `extractName`, and the first
-- lines of `handleSandboxGet` and `handleSandboxAction`.
pub mod Names
use gke_quick_prototype.Prelude.{
  ℕ, suc, Option, none, some, List, [], ◌∷◌, ◌==◌, ltb, length, if◌then◌else◌,
}
use gke_quick_prototype.Prelude.Text.{Text}

abbrev pub slash : ℕ
slash = b'/'

-- strings.TrimSuffix(s, "/")
unfoldable pub trim_slash : Text → Text
trim_slash [] = []
trim_slash (c ∷ []) = if c == slash then [] else c ∷ []
trim_slash (c ∷ d ∷ s) = c ∷ trim_slash (d ∷ s)

abbrev pub put_first : ℕ → List Text → List Text
put_first c [] = (c ∷ []) ∷ []
put_first c (p ∷ ps) = (c ∷ p) ∷ ps

-- strings.Split(s, "/")
unfoldable pub split : Text → List Text
split [] = [] ∷ []
split (c ∷ s) = let rest = split s in if c == slash then [] ∷ rest else put_first c rest

-- parts[len(parts)-1]
abbrev pub last_part : List Text → Text
last_part [] = []
last_part (p ∷ []) = p
last_part (p ∷ q ∷ ps) = last_part (q ∷ ps)

-- parts[len(parts)-2]
abbrev pub part_before_last : List Text → Text
part_before_last [] = []
part_before_last (p ∷ []) = []
part_before_last (p ∷ q ∷ []) = p
part_before_last (p ∷ q ∷ r ∷ ps) = part_before_last (q ∷ r ∷ ps)

unfoldable pub parts_of : Text → List Text
parts_of path = split (trim_slash path)

unfoldable pub extract_name : Text → Text
extract_name path =
    let parts = parts_of path in if ltb (length parts) 4 then [] else last_part parts
