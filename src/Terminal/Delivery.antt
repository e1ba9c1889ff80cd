-- ===== src/Terminal/Delivery.antt =====
-- What the exec stream gets is what the client has sent.
use gke_quick_prototype.Prelude.{
  ℕ, Bool, false, ◌==◌, ◌+◌, ◌-◌, ◌≤◌, ◌<◌, ◌≡◌, refl, sym, ap, ◌∙◌, inl, inr, Bool-cases, Option,
  List, [], ◌∷◌, ◌++◌, append_assoc, append-nil, length, All, arith, if◌then◌else◌,
}
use gke_quick_prototype.Prelude.Text.{Text, take, drop, take-drop, length-take, length-drop}
use gke_quick_prototype.Terminal.{WsStream, is_control, read_message, read, or_nothing}

-- Starts with a brace.
abbrev pub has_brace : Text → Bool
has_brace [] = false
has_brace (c ∷ msg) = c == b'{'

-- The messages that do not start with a brace, one behind the other.
unfoldable pub payload : List Text → Text
payload [] = []
payload (msg ∷ rest) = if has_brace msg then payload rest else msg ++ payload rest

is_control_lem : (msg : Text) → is_control msg ≡ has_brace msg
unfolding is_control
is_control_lem [] = refl
is_control_lem (c ∷ msg) = refl

abbrev pub remaining : WsStream → Text
remaining s = s.read_buf ++ payload s.incoming

-- How many reads into a buffer that is not empty are enough.
unfoldable pub waiting : List Text → ℕ
waiting [] = 0
waiting (msg ∷ rest) = length msg + 1 + waiting rest

abbrev pub work : WsStream → ℕ
work s = length s.read_buf + waiting s.incoming

taken : (n : ℕ) (s t : Text) → take n s ++ (drop n s ++ t) ≡ s ++ t
taken n s t = sym (append_assoc (take n s) (drop n s) t) ∙ ap (λ u. u ++ t) (take-drop n s)

-- What one read does to the bytes to come, to the work, and how much it returns.
pub record IsSound (size : ℕ) (s : WsStream) (o : Option Text × WsStream) : Type 0 where
  pub kept : or_nothing o.0 ++ remaining o.1 ≡ remaining s
  pub fits : length (or_nothing o.0) ≤ size
  pub advances : 0 < size → work o.1 ≤ work s - 1

read_message-IsSound :
    (size : ℕ) (incoming : List Text)
    → IsSound size (record { read_buf = []; incoming = incoming }) (read_message size incoming)
unfolding read_message payload waiting
read_message-IsSound size [] = record {
  kept = refl;
  fits = omega arith;
  advances = λ p. omega arith;
}
read_message-IsSound size (msg ∷ rest) = elim (Bool-cases (is_control msg)) [
  | inl e ↦
      rw (e, read_message)
        (record {
          kept = rw (sym (is_control_lem msg) ∙ e, payload) refl;
          fits = omega arith;
          advances = λ p. omega arith;
        })
  | inr e ↦
      rw (e, read_message)
        (record {
          kept = rw (sym (is_control_lem msg) ∙ e, payload) (taken size msg (payload rest));
          fits = length-take size msg;
          advances = λ p. omega (arith, p, length-drop size msg);
        })
]

abbrev stream : Text → List Text → WsStream
stream buf incoming = record { read_buf = buf; incoming = incoming }

read-IsSound_at :
    (size : ℕ) (buf : Text) (incoming : List Text)
    → IsSound size (stream buf incoming) (read size (stream buf incoming))
unfolding read
read-IsSound_at size [] incoming = read_message-IsSound size incoming
read-IsSound_at size (c ∷ buf) incoming = record {
  kept = taken size (c ∷ buf) (payload incoming);
  fits = length-take size (c ∷ buf);
  advances = λ p. omega (arith, p, length-drop size (c ∷ buf));
}

pub read-IsSound : (size : ℕ) (s : WsStream) → IsSound size s (read size s)
read-IsSound size s = read-IsSound_at size s.read_buf s.incoming

-- Reads one after the other, into buffers of the given sizes.
unfoldable pub read_each : List ℕ → WsStream → Text × WsStream
read_each [] s = ([], s)
read_each (size ∷ sizes) s =
    let (o, s') = read size s in let (t, s'') = read_each sizes s' in (or_nothing o ++ t, s'')

-- Whatever the sizes of the buffers, the bytes that have been read and the bytes that remain make
-- up the buffered bytes and the messages, in order, without those that start with a brace.
read_each-remaining :
    (sizes : List ℕ) (s : WsStream)
    → (read_each sizes s).0 ++ remaining (read_each sizes s).1 ≡ remaining s
unfolding read_each
read_each-remaining [] s = refl
read_each-remaining (size ∷ sizes) s =
    append_assoc (or_nothing (read size s).0) _ _
    ∙ ap (λ t. or_nothing (read size s).0 ++ t) (read_each-remaining sizes (read size s).1)
    ∙ (read-IsSound size s).kept

work-read_each :
    (sizes : List ℕ) (s : WsStream)
    → All (λ size. 0 < size) sizes
    → work (read_each sizes s).1 ≤ work s - length sizes
unfolding read_each
work-read_each [] s a = omega arith
work-read_each (size ∷ sizes) s a =
    omega (arith, (read-IsSound size s).advances a.0, work-read_each sizes (read size s).1 a.1)

nothing_remains :
    (buf : Text) (incoming : List Text)
    → work (stream buf incoming) ≤ 0
    → remaining (stream buf incoming) ≡ []
unfolding waiting payload
nothing_remains [] [] h = refl
nothing_remains [] (msg ∷ rest) h = ground (arith, h)
nothing_remains (c ∷ buf) incoming h = ground (arith, h)

-- With buffers that are not empty, as many reads as there are bytes and messages deliver, in order
-- and to the end, the buffered bytes and the messages that do not start with a brace. A message that
-- starts with a brace is dropped.
pub read_each-delivers :
    (sizes : List ℕ) (s : WsStream)
    → All (λ size. 0 < size) sizes
    → work s ≤ length sizes
    → (read_each sizes s).0 ≡ s.read_buf ++ payload s.incoming
read_each-delivers sizes s a h =
    let u = (read_each sizes s).1 in
    let empty : remaining u ≡ [] =
      nothing_remains u.read_buf u.incoming (omega (arith, h, work-read_each sizes s a)) in
    sym (append-nil (read_each sizes s).0)
    ∙ ap (λ t. (read_each sizes s).0 ++ t) (sym empty)
    ∙ read_each-remaining sizes s
