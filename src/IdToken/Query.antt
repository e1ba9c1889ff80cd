-- ===== src/IdToken/Query.antt =====
-- The audience is what the metadata server reads off the query.
use gke_quick_prototype.Prelude.{
  ℕ, ◌+◌, ◌-◌, ◌*◌, ◌/◌, ◌%◌, ◌<◌, ◌≡◌, refl, ap, ◌∙◌, ◌&&◌, ◌==◌, leb, Option, none, some, [], ◌∷◌,
  All, arith, inl, inr, Bool-cases, if◌then◌else◌,
}
use gke_quick_prototype.Prelude.Text.{Text, strip_prefix}
use gke_quick_prototype.IdToken.{
  is_unreserved, hex_digit, escape_byte, query_escape, identity_endpoint, metadata_url,
}

-- The value of an upper case hexadecimal digit.
unfoldable pub hex_value : ℕ → Option ℕ
hex_value c =
    if leb b'0' c && leb c b'9'
    then some (c - b'0')
    else if leb b'A' c && leb c b'F'
    then some (c - b'A' + 10)
    else none

data Kind : Type 0 where
  plain plus percent other : Kind

unfoldable kind_of : ℕ → Kind
kind_of c =
    if is_unreserved c
    then plain
    else if c == b'+'
    then plus
    else if c == b'%'
    then percent
    else other

-- What is expected: a fresh byte, the digits of an escape, or the second of them.
data Expect : Type 0 where
  fresh digits : Expect
  second : ℕ → Expect

abbrev prepend : ℕ → Option Text → Option Text
prepend c none = none
prepend c (some s) = some (c ∷ s)

decode : Expect → Text → Option Text
decode fresh [] = some []
decode digits [] = none
decode (second h) [] = none
decode fresh (c ∷ s) = elim (kind_of c) [
  | plain ↦ prepend c (decode fresh s)
  | plus ↦ prepend b' ' (decode fresh s)
  | percent ↦ decode digits s
  | other ↦ none
]
decode digits (c ∷ s) = elim (hex_value c) [ none ↦ none | some h ↦ decode (second h) s ]
decode (second h) (c ∷ s) = elim (hex_value c) [
  | none ↦ none
  | some l ↦ prepend (h * 16 + l) (decode fresh s)
]

-- Decoding one value of a query: any byte but an unreserved one, a plus and an escape would end the
-- value or the query.
pub query_unescape : Text → Option Text
query_unescape = decode fresh

-- What the server reads as the audience that it is asked for.
pub audience_of : Text → Option Text
audience_of url = elim (strip_prefix identity_endpoint url) [
  | none ↦ none
  | some q ↦ query_unescape q
]

hex_value-hex_digit : (n : ℕ) → n < 16 → hex_value (hex_digit n) ≡ some n
unfolding hex_value
hex_value-hex_digit n h = ground arith

decode-digits :
    (c h : ℕ) (s : Text) → hex_value c ≡ some h → decode digits (c ∷ s) ≡ decode (second h) s
unfolding decode
decode-digits c h s e = rw (e, decode) refl

decode-second :
    (c h l : ℕ) (s : Text)
    → hex_value c ≡ some l
    → decode (second h) (c ∷ s) ≡ prepend (h * 16 + l) (decode fresh s)
unfolding decode
decode-second c h l s e = rw (e, decode) refl

decode-escape :
    (c : ℕ) (s : Text)
    → c < 256
    → decode fresh (b'%' ∷ hex_digit (c / 16) ∷ hex_digit (c % 16) ∷ s) ≡ prepend c (decode fresh s)
unfolding kind_of decode
decode-escape c s h =
    decode-digits (hex_digit (c / 16)) (c / 16) (hex_digit (c % 16) ∷ s)
      (hex_value-hex_digit (c / 16) (omega (arith, h)))
    ∙ decode-second (hex_digit (c % 16)) (c / 16) (c % 16) s
        (hex_value-hex_digit (c % 16) (omega arith))
    ∙ ap (λ n. prepend n (decode fresh s)) (omega arith)

decode-escape_byte :
    (c : ℕ) (s : Text) → c < 256 → decode fresh (escape_byte c s) ≡ prepend c (decode fresh s)
unfolding escape_byte decode kind_of
decode-escape_byte c s h = elim (Bool-cases (is_unreserved c)) [
  | inl u ↦ rw (u, decode) (rw (u, kind_of) refl)
  | inr u ↦ elim (Bool-cases (c == b' ')) [
    | inl e ↦
        let space : b' ' ≡ c = ground (arith, e) in
        rw (u, e) (ap (λ n. prepend n (decode fresh s)) space)
    | inr e ↦ rw (u, e) (decode-escape c s h)
  ]
]

decode-query_escape : (s : Text) → All (λ c. c < 256) s → decode fresh (query_escape s) ≡ some s
unfolding query_escape decode
decode-query_escape [] a = refl
decode-query_escape (c ∷ s) (h, a) =
    decode-escape_byte c (query_escape s) h ∙ ap (prepend c) (decode-query_escape s a)

-- Whatever the bytes of the audience, the metadata server reads off the address that the token is
-- asked for at exactly that audience.
pub audience_of-metadata_url :
    (audience : Text)
    → All (λ c. c < 256) audience
    → audience_of (metadata_url audience) ≡ some audience
unfolding audience_of metadata_url query_unescape strip_prefix
audience_of-metadata_url audience a = decode-query_escape audience a
