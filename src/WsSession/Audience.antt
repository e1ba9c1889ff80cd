-- ===== src/WsSession/Audience.antt =====
-- The audience of the identity token.
use gke_quick_prototype.Prelude.{
  ℕ, ◌≡◌, ◌≢◌, refl, ap, ◌∙◌, inl, inr, ◌⊎◌, Bool-cases, ◌==◌, none, some, All, All-append, [], ◌∷◌,
  ◌++◌, arith, Bool, true, false, length, ltb, ◌<◌, if◌then◌else◌,
}
use gke_quick_prototype.Prelude.Text.{Text, Lacks, codes, take, index, replace_first, strip_prefix}
use gke_quick_prototype.UrlPath.{slash}
use gke_quick_prototype.IdToken.{metadata_url}
use gke_quick_prototype.IdToken.Query.{audience_of, audience_of-metadata_url}
use gke_quick_prototype.WsSession.{cut_path, derive_audience}

-- A host's name that looks like the path.
unfoldable pub starts_ws : Text → Bool
starts_ws host = elim (strip_prefix (codes "ws") host) [ some rest ↦ true | none ↦ false ]

no_scheme :
    (c : ℕ) (t : Text)
    → Lacks slash (c ∷ t)
    → strip_prefix (codes "ws://") (c ∷ t ++ codes "/ws") ≡ none
unfolding strip_prefix
no_scheme c [] a = ground arith
no_scheme c (d ∷ []) a = ground arith
no_scheme c (d ∷ e ∷ []) a = ground arith
no_scheme c (d ∷ e ∷ f ∷ t) a = ground arith

replace-host :
    (host : Text)
    → Lacks slash host
    → replace_first (codes "ws://") (codes "http://") (host ++ codes "/ws") ≡ host ++ codes "/ws"
unfolding replace_first strip_prefix
replace-host [] a = refl
replace-host (c ∷ t) a = rw (no_scheme c t a, replace_first) (ap (λ u. c ∷ u) (replace-host t a.1))

no_path : (c : ℕ) (s : Text) → c ≢ slash → strip_prefix (codes "/ws") (c ∷ s) ≡ none
unfolding strip_prefix
no_path c s n = ground arith

index-host :
    (host : Text)
    → Lacks slash host
    → index (codes "/ws") (host ++ codes "/ws") ≡ some (length host)
unfolding index strip_prefix
index-host [] a = refl
index-host (c ∷ t) a =
    rw (no_path c (t ++ codes "/ws") a.0, index) (rw (index-host t a.1) (ap some (omega arith)))

strip_ws :
    (host : Text)
    → (starts_ws host ≡ true)
        × ((rest : Text) × (strip_prefix (codes "ws") (host ++ codes "/ws") ≡ some rest))
      ⊎ (starts_ws host ≡ false) × (strip_prefix (codes "ws") (host ++ codes "/ws") ≡ none)
unfolding starts_ws strip_prefix
strip_ws [] = inr (refl, refl)
strip_ws (c ∷ []) = inr (ground arith, ground arith)
strip_ws (c ∷ d ∷ host) = elim (Bool-cases (b'w' == c)) [
  | inl p ↦ elim (Bool-cases (b's' == d)) [
    | inl q ↦ inl (ground arith, (host ++ codes "/ws", ground arith))
    | inr q ↦ inr (ground arith, ground arith)
  ]
  | inr p ↦ inr (ground arith, ground arith)
]

take-append : (s t : Text) → take (length s) (s ++ t) ≡ s
take-append [] t = refl
take-append (c ∷ s) t = ap (λ u. c ∷ u) (take-append s t)

abbrev web : Text
web = codes "https://"

secured :
    (host : Text)
    → Lacks slash host
    → replace_first
        (codes "ws://")
        (codes "http://")
        (replace_first (codes "wss://") (codes "https://") (codes "wss://" ++ host ++ codes "/ws"))
      ≡ web ++ host ++ codes "/ws"
unfolding replace_first strip_prefix
secured host a = ap (λ t. web ++ t) (replace-host host a)

cut_at :
    (i : ℕ) (s t : Text) → i ≡ length s → 0 < i → (if ltb 0 i then take i (s ++ t) else s ++ t) ≡ s
cut_at i s t e h =
    let h' : 0 < length s = omega (arith, e, h) in rw e (ground (arith, take-append s t))

cut_path_lem :
    (host : Text)
    → Lacks slash host
    → cut_path (web ++ host ++ codes "/ws")
      ≡ (if starts_ws host then codes "https:/" else web ++ host)
unfolding cut_path index strip_prefix
cut_path_lem host a = elim (strip_ws host) [
  | inl (w, (rest, e)) ↦ rw w (rw e refl)
  | inr (w, e) ↦ rw w (
      rw e
        (rw (index-host host a) (cut_at _ (web ++ host) (codes "/ws") (omega arith) (omega arith))))
]

-- For a secure address whose host has no slash and whose path is /ws, the audience is the host's
-- https address, unless the host's name begins with `ws`: then it is cut down to `https:/`.
pub derive_audience_lem :
    (host : Text)
    → Lacks slash host
    → derive_audience (codes "wss://" ++ host ++ codes "/ws")
      ≡ (if starts_ws host then codes "https:/" else codes "https://" ++ host)
unfolding derive_audience
derive_audience_lem host a = ap cut_path (secured host a) ∙ cut_path_lem host a

abbrev pub Bytes : Text → Type 0
Bytes = All (λ c. c < 256)

web-Bytes : Bytes web
web-Bytes = (
  omega arith,
  (
    omega arith,
    (omega arith, (omega arith, (omega arith, (omega arith, (omega arith, (omega arith, tt)))))),
  ),
)

cut-Bytes : Bytes (codes "https:/")
cut-Bytes = (
  omega arith,
  (omega arith, (omega arith, (omega arith, (omega arith, (omega arith, (omega arith, tt)))))),
)

-- For a secure address whose host has no slash and whose path is /ws, the metadata server is asked
-- for a token whose audience, as it reads it off the query, is the host's https address, unless the
-- host's name begins with `ws`: then it is `https:/`.
pub audience_of-derive_audience :
    (host : Text)
    → Lacks slash host
    → Bytes host
    → audience_of (metadata_url (derive_audience (codes "wss://" ++ host ++ codes "/ws")))
      ≡ some (if starts_ws host then codes "https:/" else codes "https://" ++ host)
audience_of-derive_audience host a b =
    rw (derive_audience_lem host a) (elim (Bool-cases (starts_ws host)) [
      | inl w ↦ rw w (audience_of-metadata_url (codes "https:/") cut-Bytes)
      | inr w ↦
          rw w (
            audience_of-metadata_url (web ++ host) (All-append (λ c. c < 256) web host web-Bytes b))
    ])
