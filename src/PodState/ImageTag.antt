-- ===== src/PodState/ImageTag.antt =====
-- The tag of an image reference.
use gke_quick_prototype.Prelude.{◌∷◌, ◌++◌, ◌≡◌}
use gke_quick_prototype.Prelude.Text.{
  Text, codes, Lacks, last_index-none, last_index-append, drop-append,
}
use gke_quick_prototype.PodState.{tag_of}

-- The tag is what follows the last colon, whatever colons stand before it; an image without a colon
-- has the tag `latest`.
pub tag_of_lem :
    (repository tag : Text)
    → Lacks b':' tag
    → (tag_of (repository ++ b':' ∷ tag) ≡ tag) × (tag_of tag ≡ codes "latest")
unfolding tag_of
tag_of_lem repository tag a = (
  rw (last_index-append b':' repository tag a, tag_of) (drop-append b':' repository tag),
  rw (last_index-none b':' tag a, tag_of),
)
