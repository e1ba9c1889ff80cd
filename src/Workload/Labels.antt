-- ===== src/Workload/Labels.antt =====
-- The label that takes a pod out of the pool, as the pod sees it.
use gke_quick_prototype.Prelude.{
  ℕ, ◌≡◌, refl, ap, ◌∙◌, not, true, none, some, List, [], ◌∷◌, ◌++◌, append-nil, All, arith,
}
use gke_quick_prototype.Prelude.Text.{
  Text, Lacks, strip_prefix, strip_prefix-append, codes, text_eq,
}
use gke_quick_prototype.Workload.{
  trim_left, keep, trim_right, trim, label_key, quote, scan_labels, is_detached,
}

trim_right-append : (q : ℕ) (v : Text) → Lacks q v → trim_right q (v ++ q ∷ []) ≡ v
unfolding trim_right
trim_right-append q [] a = ground arith
trim_right-append q (c ∷ []) a = ground arith
trim_right-append q (c ∷ d ∷ v) a = ap (keep q c) (trim_right-append q (d ∷ v) a.1)

-- A value between two quotes that has none itself.
trim_quoted : (q : ℕ) (v : Text) → Lacks q v → trim q (q ∷ v ++ q ∷ []) ≡ v
unfolding trim trim_left
trim_quoted q [] a = unfold trim_right in ground arith
trim_quoted q (c ∷ v) a = ground (arith, trim_right-append q (c ∷ v) a)

-- A line of the file that is about another label.
abbrev pub IsOther : Text → Type 0
IsOther line = strip_prefix label_key line ≡ none

scan_labels-others :
    (before rest : List Text) → All IsOther before → scan_labels (before ++ rest) ≡ scan_labels rest
unfolding scan_labels
scan_labels-others [] rest a = refl
scan_labels-others (line ∷ before) rest a =
    rw (a.0, scan_labels) (scan_labels-others before rest a.1)

scan_labels-quoted :
    (value : Text) (after : List Text)
    → Lacks quote value
    → scan_labels ((label_key ++ quote ∷ value ++ quote ∷ []) ∷ after)
      ≡ not (text_eq value (codes "true"))
unfolding scan_labels
scan_labels-quoted value after l =
    rw (strip_prefix-append label_key (quote ∷ value ++ quote ∷ []), scan_labels)
      (rw (trim_quoted quote value l) refl)

-- A pod counts as detached where its labels cannot be read or do not have `warmpool`; else it is
-- detached exactly if the quoted value of the first such line, which has no quote in it, is not
-- `true`.
pub is_detached_lem :
    (before : List Text) (value : Text) (after : List Text)
    → All IsOther before
    → Lacks quote value
    → (is_detached none ≡ true)
      × (is_detached (some before) ≡ true)
      × (is_detached (some (before ++ (label_key ++ quote ∷ value ++ quote ∷ []) ∷ after))
          ≡ not (text_eq value (codes "true")))
unfolding is_detached scan_labels
is_detached_lem before value after a l = (
  refl,
  rw (← append-nil before) (scan_labels-others before [] a),
  scan_labels-others before _ a ∙ scan_labels-quoted value after l,
)
