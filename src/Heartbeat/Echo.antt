-- ===== src/Heartbeat/Echo.antt =====
-- A connection that stands can always catch up.
use gke_quick_prototype.Prelude.{
  ℕ, zero, suc, ◌+◌, ◌≡◌, inl, inr, refl, sym, ap, ◌∙◌, true, false, List, [], ◌∷◌, ◌++◌, length,
  arith,
}
use gke_quick_prototype.WsSession.{count_ping, count_message}
use gke_quick_prototype.WsServer.{Message, reply}
use gke_quick_prototype.Heartbeat.{Link, replies, counts, serves, reads, LinkRun, here, and_then}
use gke_quick_prototype.Heartbeat.Accounts.{IsAccounted, LinkStep-IsAccounted, count-sent}

-- A list with a first element.
split_list :
    (n : ℕ) (ms : List Message)
    → length ms ≡ suc n
    → (m : Message) × (rest : List Message) × (ms ≡ m ∷ rest) × (length rest ≡ n)
split_list n [] e = absurd (omega (arith, e))
split_list n (m ∷ rest) e = (m, rest, refl, omega (arith, e))

empty_list : (ms : List Message) → length ms ≡ 0 → ms ≡ []
empty_list [] e = refl
empty_list (m ∷ rest) e = absurd (omega (arith, e))

-- Where a run from `l` has come to, with as many pings as at the start, counted or not.
pub record HasReached (l m : Link) : Type 0 where
  pub run : LinkRun l m
  pub accounted : IsAccounted m
  pub stands : m.connected ≡ true
  pub as_many : m.counters.pings_sent + m.uncounted ≡ l.counters.pings_sent + l.uncounted

module _ (l m : Link) (x : HasReached l m) where
  serves-HasReached :
      (k : Message) (rest : List Message)
      → m.to_server ≡ k ∷ rest
      → HasReached l (record m { to_server = rest; to_client = m.to_client ++ replies (reply k) })
  serves-HasReached k rest e = record {
    run = and_then x.run (serves k rest e);
    accounted = LinkStep-IsAccounted x.accounted (serves k rest e);
    stands = x.stands;
    as_many = x.as_many;
  }

  counts-HasReached :
      (n : ℕ)
      → m.uncounted ≡ suc n
      → HasReached l (record m { counters = count_ping m.counters; uncounted = n })
  unfolding count_ping
  counts-HasReached n e = record {
    run = and_then x.run (counts n e);
    accounted = LinkStep-IsAccounted x.accounted (counts n e);
    stands = x.stands;
    as_many = omega (arith, e, x.as_many);
  }

  reads-HasReached :
      (k : Message) (rest : List Message)
      → m.to_client ≡ k ∷ rest
      → HasReached l (record m { to_client = rest; counters = count_message k.payload m.counters })
  reads-HasReached k rest e = record {
    run = and_then x.run (reads k rest e);
    accounted = LinkStep-IsAccounted x.accounted (reads k rest e);
    stands = x.stands;
    as_many = ap (λ n. n + m.uncounted) (count-sent k m.counters) ∙ x.as_many;
  }

-- Nothing is on its way.
abbrev CaughtUp : Link → Link → Type 0
CaughtUp l m = HasReached l m × (m.counters.pongs_received ≡ l.counters.pings_sent + l.uncounted)

even :
    (l m : Link)
    → HasReached l m
    → m.to_server ≡ []
    → length m.to_client ≡ 0
    → m.counters.pongs_received ≡ l.counters.pings_sent + l.uncounted
even l m x e c =
    let served : length m.to_server ≡ 0 = ap length e in
    elim x.accounted.lossless [
      | inl cut ↦ let broken : false ≡ true = sym cut ∙ x.stands in cc
      | inr all ↦ omega (arith, all, served, c, x.as_many)
    ]

read_all :
    (n : ℕ) (l m : Link)
    → HasReached l m
    → m.to_server ≡ []
    → length m.to_client ≡ n
    → (v : Link) × CaughtUp l v
read_all zero l m x e c = (m, (x, even l m x e c))
read_all (suc n) l m x e c =
    let (k, rest, first, fewer) = split_list n m.to_client c in
    read_all n l (record m { to_client = rest; counters = count_message k.payload m.counters })
      (reads-HasReached l m x k rest first) e fewer

serve_all :
    (n : ℕ) (l m : Link) → HasReached l m → length m.to_server ≡ n → (v : Link) × CaughtUp l v
serve_all zero l m x e = read_all (length m.to_client) l m x (empty_list m.to_server e) refl
serve_all (suc n) l m x e =
    let (k, rest, first, fewer) = split_list n m.to_server e in
    serve_all n l (record m { to_server = rest; to_client = m.to_client ++ replies (reply k) })
      (serves-HasReached l m x k rest first) fewer

-- The pings that are written get counted.
count_all :
    (n : ℕ) (l m : Link)
    → CaughtUp l m
    → m.uncounted ≡ n
    → (v : Link) × CaughtUp l v × (v.uncounted ≡ 0)
unfolding count_ping
count_all zero l m (x, p) e = (m, (x, p), e)
count_all (suc n) l m (x, p) e =
    count_all n l (record m { counters = count_ping m.counters; uncounted = n })
      (counts-HasReached l m x n e, p) refl

-- From every state of a connection that stands and adds up, serving and reading what is on its way
-- and counting what is written leads to one in which the client has counted every ping that it has
-- written by now, and no other, and has a pong for each.
pub catches_up :
    (l : Link)
    → IsAccounted l
    → l.connected ≡ true
    → (m : Link) × LinkRun l m
      × (m.uncounted ≡ 0)
      × (m.counters.pings_sent ≡ l.counters.pings_sent + l.uncounted)
      × (m.counters.pongs_received ≡ l.counters.pings_sent + l.uncounted)
catches_up l a c =
    let (u, level) =
      serve_all (length l.to_server) l l
        (record { run = here; accounted = a; stands = c; as_many = refl }) refl in
    let (m, (x, answered), settled) = count_all u.uncounted l u level refl in
    (m, x.run, settled, omega (arith, settled, x.as_many), answered)
