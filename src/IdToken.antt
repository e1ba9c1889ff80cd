-- ===== src/IdToken.antt =====
-- app/sandbox/ws.go: `fetchIDToken`, with url.QueryEscape and strings.TrimSpace, and the headers with
-- which `wsConnect` dials.
pub mod Query
use gke_quick_prototype.Prelude.{
  ℕ, zero, suc, ◌+◌, ◌-◌, ◌/◌, ◌%◌, Bool, true, false, ◌&&◌, ◌||◌, ◌==◌, leb, ltb, length, Option,
  none, some, List, [], ◌∷◌, ◌++◌, map, if◌then◌else◌,
}
use gke_quick_prototype.Prelude.Text.{Text, codes, strip_prefix}
use gke_quick_prototype.Prelude.Map.{Map, insert}
use gke_quick_prototype.Provision.{Result, ok, err}

-- The bytes that a query keeps as they are.
abbrev pub is_unreserved : ℕ → Bool
is_unreserved c =
    (leb b'a' c && leb c b'z')
    || (leb b'A' c && leb c b'Z')
    || (leb b'0' c && leb c b'9')
    || c == b'-'
    || c == b'_'
    || c == b'.'
    || c == b'~'

abbrev pub hex_digit : ℕ → ℕ
hex_digit n = if ltb n 10 then b'0' + n else b'A' + (n - 10)

unfoldable pub escape_byte : ℕ → Text → Text
escape_byte c rest =
    if is_unreserved c
    then c ∷ rest
    else if c == b' '
    then b'+' ∷ rest
    else b'%' ∷ hex_digit (c / 16) ∷ hex_digit (c % 16) ∷ rest

-- url.QueryEscape
unfoldable pub query_escape : Text → Text
query_escape [] = []
query_escape (c ∷ s) = escape_byte c (query_escape s)

abbrev pub identity_endpoint : Text
identity_endpoint =
    codes
      "http://169.254.169.254/computeMetadata/v1/instance/service-accounts/default/identity?audience="

unfoldable pub metadata_url : Text → Text
metadata_url audience = identity_endpoint ++ query_escape audience

-- The code points of unicode.IsSpace in UTF-8.
abbrev pub spaces : List Text
spaces =
    (9 ∷ [])
    ∷ (10 ∷ [])
    ∷ (11 ∷ [])
    ∷ (12 ∷ [])
    ∷ (13 ∷ [])
    ∷ (32 ∷ [])
    ∷ (194 ∷ 133 ∷ [])
    ∷ (194 ∷ 160 ∷ [])
    ∷ (225 ∷ 154 ∷ 128 ∷ [])
    ∷ (226 ∷ 128 ∷ 128 ∷ [])
    ∷ (226 ∷ 128 ∷ 129 ∷ [])
    ∷ (226 ∷ 128 ∷ 130 ∷ [])
    ∷ (226 ∷ 128 ∷ 131 ∷ [])
    ∷ (226 ∷ 128 ∷ 132 ∷ [])
    ∷ (226 ∷ 128 ∷ 133 ∷ [])
    ∷ (226 ∷ 128 ∷ 134 ∷ [])
    ∷ (226 ∷ 128 ∷ 135 ∷ [])
    ∷ (226 ∷ 128 ∷ 136 ∷ [])
    ∷ (226 ∷ 128 ∷ 137 ∷ [])
    ∷ (226 ∷ 128 ∷ 138 ∷ [])
    ∷ (226 ∷ 128 ∷ 168 ∷ [])
    ∷ (226 ∷ 128 ∷ 169 ∷ [])
    ∷ (226 ∷ 128 ∷ 175 ∷ [])
    ∷ (226 ∷ 129 ∷ 159 ∷ [])
    ∷ (227 ∷ 128 ∷ 128 ∷ [])
    ∷ []

unfoldable pub strip_any : List Text → Text → Option Text
strip_any [] s = none
strip_any (p ∷ ps) s = elim (strip_prefix p s) [ some rest ↦ some rest | none ↦ strip_any ps s ]

-- On fuel: each round takes a byte at least.
unfoldable pub drop_any : ℕ → List Text → Text → Text
drop_any zero ps s = s
drop_any (suc fuel) ps s = elim (strip_any ps s) [ none ↦ s | some rest ↦ drop_any fuel ps rest ]

unfoldable pub reverse : Text → Text → Text
reverse [] acc = acc
reverse (c ∷ s) acc = reverse s (c ∷ acc)

-- strings.TrimSpace; the right end is trimmed from behind.
unfoldable pub trim_space : Text → Text
trim_space s =
    let t = drop_any (length s) spaces s in
    reverse (drop_any (length t) (map (λ p. reverse p []) spaces) (reverse t [])) []

-- A request for a token, and its answer: the status, what can be read of the body, and the error
-- that ends the reading before its end.
pub record TokenRequest : Type 0 where
  pub url : Text
  pub headers : Map Text

pub record TokenAnswer : Type 0 where
  pub code : ℕ
  pub body : Text
  pub read_error : Option Text

-- http.NewRequest and client.Do
pub record Metadata : Type 0 where
  pub request_error : Text → Option Text
  pub answer : TokenRequest → Result TokenAnswer

-- The cases of the error are the four messages.
pub data Fetched : Type 0 where
  token : Text → Fetched
  create_request metadata_request read_token : Text → Fetched
  metadata_http : ℕ → Text → Fetched

unfoldable pub body_read : TokenAnswer → Option Text → Fetched
body_read a (some e) = read_token e
body_read a none = token (trim_space a.body)

unfoldable pub token_answered : Result TokenAnswer → Fetched
token_answered (err e) = metadata_request e
token_answered (ok a) =
    if a.code == 200 then body_read a a.read_error else metadata_http a.code a.body

unfoldable pub requested : Metadata → Text → Option Text → Fetched
requested m url (some e) = create_request e
requested m url none =
    token_answered
      (m.answer (record { url = url; headers = (codes "Metadata-Flavor", codes "Google") ∷ [] }))

unfoldable pub fetch_id_token : Metadata → Text → Fetched
fetch_id_token m audience = let url = metadata_url audience in requested m url (m.request_error url)

abbrev pub with_token : Fetched → Map Text → Map Text
with_token (token t) header = insert (codes "Authorization") (codes "Bearer " ++ t) header
with_token _ header = header

-- The headers of the dialer. Without a token wsConnect dials all the same.
unfoldable pub connect_header : Text → Fetched → Map Text
connect_header pod_name fetched = with_token fetched (insert (codes "X-Pod-Name") pod_name [])
