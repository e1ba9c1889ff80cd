-- ===== src/Heartbeat/Accounts.antt =====
-- Pings, pongs and connections add up in every state.
use gke_quick_prototype.Prelude.{
  ℕ, suc, ◌+◌, ◌%◌, ◌^◌, ◌≤◌, ◌≡◌, ◌⊎◌, inl, inr, ap, refl, subst, false, List, [], ◌∷◌, ◌++◌, All,
  All-append, All-without, length, length-append, arith,
}
use gke_quick_prototype.Prelude.Text.{text_eq}
use gke_quick_prototype.WsSession.{Counters, count_ping, count_message}
use gke_quick_prototype.WsServer.{Message, ping, pong, reply, add_one, subtract_one}
use gke_quick_prototype.Heartbeat.{
  Link, fresh, replies, LinkStep, pings, counts, serves, reads, cuts, Server, ServerStep, accepts,
  moves, closes, Reach, start, later,
}

-- Each ping is answered once at most: it is counted as a pong, on its way, or lost.
pub record IsAccounted (l : Link) : Type 0 where
  pub all_pings : All (λ m. m ≡ ping) l.to_server
  pub all_pongs : All (λ m. m ≡ pong) l.to_client
  pub answered :
      l.counters.pongs_received + length l.to_client + length l.to_server
      ≤ l.counters.pings_sent + l.uncounted
  pub lossless :
      (l.connected ≡ false)
      ⊎ (l.counters.pongs_received + length l.to_client + length l.to_server
          ≡ l.counters.pings_sent + l.uncounted)

pub reply-ping : (m : Message) → m ≡ ping → replies (reply m) ≡ pong ∷ []
unfolding reply text_eq
reply-ping m e = rw e refl

count-pong :
    (m : Message) (n : Counters)
    → m ≡ pong
    → (count_message m.payload n).pongs_received ≡ n.pongs_received + 1
unfolding count_message text_eq
count-pong m n e = rw e refl

pub count-sent :
    (m : Message) (n : Counters) → (count_message m.payload n).pings_sent ≡ n.pings_sent
unfolding count_message
count-sent m n = ground arith

module _ (l : Link) (x : IsAccounted l) where
  pings-IsAccounted :
      l.uncounted ≡ 0
      → IsAccounted (record l { to_server = l.to_server ++ ping ∷ []; uncounted = 1 })
  pings-IsAccounted e = record {
    all_pings = All-append (λ m. m ≡ ping) l.to_server (ping ∷ []) x.all_pings (refl, tt);
    all_pongs = x.all_pongs;
    answered = omega (arith, e, x.answered, length-append l.to_server (ping ∷ []));
    lossless = ground (arith, e, length-append l.to_server (ping ∷ []), x.lossless);
  }

  counts-IsAccounted :
      (n : ℕ)
      → l.uncounted ≡ suc n
      → IsAccounted (record l { counters = count_ping l.counters; uncounted = n })
  unfolding count_ping
  counts-IsAccounted n e = record {
    all_pings = x.all_pings;
    all_pongs = x.all_pongs;
    answered = omega (arith, e, x.answered);
    lossless = ground (arith, e, x.lossless);
  }

  module _ (m : Message) (rest : List Message) where
    serves-IsAccounted :
        l.to_server ≡ m ∷ rest
        → IsAccounted (record l { to_server = rest; to_client = l.to_client ++ replies (reply m) })
    serves-IsAccounted e =
        let (first, others) = subst (All (λ k. k ≡ ping)) e x.all_pings in
        let taken : length l.to_server ≡ length (m ∷ rest) = ap length e in
        rw (reply-ping m first) (record {
          all_pings = others;
          all_pongs = All-append (λ k. k ≡ pong) l.to_client (pong ∷ []) x.all_pongs (refl, tt);
          answered = omega (arith, x.answered, taken, length-append l.to_client (pong ∷ []));
          lossless = ground (arith, taken, length-append l.to_client (pong ∷ []), x.lossless);
        })

    reads-IsAccounted :
        l.to_client ≡ m ∷ rest
        → IsAccounted (record l { to_client = rest; counters = count_message m.payload l.counters })
    reads-IsAccounted e =
        let (first, others) = subst (All (λ k. k ≡ pong)) e x.all_pongs in
        let taken : length l.to_client ≡ length (m ∷ rest) = ap length e in
        let got = count-pong m l.counters first in
        let sent = count-sent m l.counters in
        record {
          all_pings = x.all_pings;
          all_pongs = others;
          answered = omega (arith, x.answered, taken, got, sent);
          lossless = ground (arith, taken, got, sent, x.lossless);
        }

  cuts-IsAccounted : IsAccounted (record l { connected = false; to_server = []; to_client = [] })
  cuts-IsAccounted = record {
    all_pings = tt;
    all_pongs = tt;
    answered = omega (arith, x.answered);
    lossless = inl refl;
  }

pub LinkStep-IsAccounted : {l m : Link} → IsAccounted l → LinkStep l m → IsAccounted m
LinkStep-IsAccounted {l} x (pings c e) = pings-IsAccounted l x e
LinkStep-IsAccounted {l} x (counts n e) = counts-IsAccounted l x n e
LinkStep-IsAccounted {l} x (serves m rest e) = serves-IsAccounted l x m rest e
LinkStep-IsAccounted {l} x (reads m rest e) = reads-IsAccounted l x m rest e
LinkStep-IsAccounted {l} x cuts = cuts-IsAccounted l x

pub fresh-IsAccounted : IsAccounted fresh
fresh-IsAccounted = record {
  all_pings = tt;
  all_pongs = tt;
  answered = omega arith;
  lossless = inr refl;
}

-- The counter is that of the handlers that run, and every connection adds up.
pub record IsBalanced (s : Server) : Type 0 where
  pub counted : s.active_connections ≡ length s.links % 2 ^ 64
  pub accounted : All IsAccounted s.links

All-replace :
    (before : List Link) (l l' : Link) (after : List Link)
    → All IsAccounted (before ++ l ∷ after)
    → IsAccounted l'
    → All IsAccounted (before ++ l' ∷ after)
All-replace [] l l' after a h = (h, a.1)
All-replace (k ∷ before) l l' after a h = (a.0, All-replace before l l' after a.1 h)

length-replace :
    (before : List Link) (l l' : Link) (after : List Link)
    → length (before ++ l' ∷ after) ≡ length (before ++ l ∷ after)
length-replace [] l l' after = omega arith
length-replace (k ∷ before) l l' after = omega (arith, length-replace before l l' after)

length-without :
    (before : List Link) (l : Link) (after : List Link)
    → length (before ++ l ∷ after) ≡ length (before ++ after) + 1
length-without [] l after = omega arith
length-without (k ∷ before) l after = omega (arith, length-without before l after)

module _ (s : Server) (b : IsBalanced s) where
  accepts-IsBalanced :
      IsBalanced
        (record { active_connections = add_one s.active_connections; links = fresh ∷ s.links })
  unfolding add_one
  accepts-IsBalanced = record {
    counted = omega (arith, b.counted);
    accounted = (fresh-IsAccounted, b.accounted);
  }

  module _ (before : List Link) (l : Link) (after : List Link)
      (e : s.links ≡ before ++ l ∷ after) where
    links_here : All IsAccounted (before ++ l ∷ after)
    links_here = subst (All IsAccounted) e b.accounted

    moves-IsBalanced :
        (l' : Link) → LinkStep l l' → IsBalanced (record s { links = before ++ l' ∷ after })
    moves-IsBalanced l' st =
        let as_many : length s.links ≡ length (before ++ l ∷ after) = ap length e in
        record {
          counted = omega (arith, b.counted, as_many, length-replace before l l' after);
          accounted =
              All-replace before l l' after links_here
                (LinkStep-IsAccounted (All-without IsAccounted before l after links_here).0 st);
        }

    closes-IsBalanced :
        IsBalanced (record {
          active_connections = subtract_one s.active_connections;
          links = before ++ after;
        })
    unfolding subtract_one
    closes-IsBalanced =
        let as_many : length s.links ≡ length (before ++ l ∷ after) = ap length e in
        record {
          counted = omega (arith, b.counted, as_many, length-without before l after);
          accounted = (All-without IsAccounted before l after links_here).1;
        }

ServerStep-IsBalanced : {s t : Server} → IsBalanced s → ServerStep s t → IsBalanced t
ServerStep-IsBalanced {s} b accepts = accepts-IsBalanced s b
ServerStep-IsBalanced {s} b (moves before l l' after e st) =
    moves-IsBalanced s b before l after e l' st
ServerStep-IsBalanced {s} b (closes before l after e) = closes-IsBalanced s b before l after e

-- In every state that clients and server reach, the server's counter is the number of the handlers
-- that run, up to the wrap of int64. On each connection the client has received a pong for a part
-- of its pings at most, and as long as the connection stands, every ping is answered, on its way
-- to the server, or on its way back as a pong. The pings are those that the client has counted and
-- those that it has written and not counted yet.
pub Reach-IsBalanced : {s : Server} → Reach s → IsBalanced s
Reach-IsBalanced start = record { counted = refl; accounted = tt }
Reach-IsBalanced (later r st) = ServerStep-IsBalanced (Reach-IsBalanced r) st
