-- ===== src/UrlPath/Names.antt =====
-- The name that a path under /api/sandboxes/ addresses.
use gke_quick_prototype.Prelude.{ℕ, ◌≡◌, refl, ap, List, [], ◌∷◌, ◌++◌, arith}
use gke_quick_prototype.Prelude.Text.{Text, codes, Lacks}
use gke_quick_prototype.UrlPath.{slash, trim_slash, split, parts_of, extract_name}

-- A text without a slash is one part.
pub split_whole : (s : Text) → Lacks slash s → split s ≡ s ∷ []
unfolding split
split_whole [] a = refl
split_whole (c ∷ s) a = ground (arith, split_whole s a.1)

pub split-append : (s t : Text) → Lacks slash s → split (s ++ slash ∷ t) ≡ s ∷ split t
unfolding split
split-append [] t a = refl
split-append (c ∷ s) t a = ground (arith, split-append s t a.1)

pub trim-whole : (s : Text) → Lacks slash s → trim_slash s ≡ s
unfolding trim_slash
trim-whole [] a = refl
trim-whole (c ∷ []) a = ground arith
trim-whole (c ∷ d ∷ s) a = ap (λ t. c ∷ t) (trim-whole (d ∷ s) a.1)

trim-slash : (s : Text) → trim_slash (s ++ slash ∷ []) ≡ s
unfolding trim_slash
trim-slash [] = refl
trim-slash (c ∷ []) = refl
trim-slash (c ∷ d ∷ s) = ap (λ t. c ∷ t) (trim-slash (d ∷ s))

pub trim-append : (s : Text) (d : ℕ) (t : Text) → trim_slash (s ++ d ∷ t) ≡ s ++ trim_slash (d ∷ t)
unfolding trim_slash
trim-append [] d t = refl
trim-append (c ∷ []) d t = refl
trim-append (c ∷ e ∷ s) d t = ap (λ t. c ∷ t) (trim-append (e ∷ s) d t)

abbrev pub prefix : Text
prefix = codes "/api/sandboxes/"

-- The parts of "/api/sandboxes/{name}", behind the empty part in front of the first slash.
abbrev pub name_parts : Text → List Text
name_parts rest = [] ∷ codes "api" ∷ codes "sandboxes" ∷ split rest

pub parts-prefix : (d : ℕ) (t : Text) → parts_of (prefix ++ d ∷ t) ≡ name_parts (trim_slash (d ∷ t))
unfolding parts_of split trim_slash
parts-prefix d t = refl

-- The path of a sandbox whose name is not empty and has no slash names the sandbox, with or without
-- a slash at the path's end.
pub extract_name_lem :
    (d : ℕ) (t : Text)
    → Lacks slash (d ∷ t)
    → (extract_name (prefix ++ d ∷ t) ≡ d ∷ t)
      × (extract_name (prefix ++ d ∷ t ++ slash ∷ []) ≡ d ∷ t)
unfolding extract_name
extract_name_lem d t a = (
  rw (parts-prefix d t) (rw (trim-whole (d ∷ t) a) (rw (split_whole (d ∷ t) a) refl)),
  rw (parts-prefix d (t ++ slash ∷ [])) (rw (trim-slash (d ∷ t)) (rw (split_whole (d ∷ t) a) refl)),
)
