-- ===== src/WsSession/Session.antt =====
-- The flag `wsConnected`, and the count of the reconnects.
use gke_quick_prototype.Prelude.{
  ℕ, ◌+◌, ◌≤◌, ◌≡◌, refl, sym, subst, ◌∙◌, Bool, true, false, ◌&&◌, Bool-cases, inl, inr, Option,
  none, some, List, [], ◌∷◌, length, arith, then_branch, else_branch,
}
use gke_quick_prototype.Prelude.Text.{Text}
use gke_quick_prototype.IdToken.{fetch_id_token, connect_header}
use gke_quick_prototype.Scenario.{SandboxState, set_ws_connected}
use gke_quick_prototype.WsSession.{
  WsEvent, EndReason, Attempt, Target, target_of, dialled, ws_connect, SessionState, reconnected,
  session_round, is_over, session_loop, ws_session_loop,
}

-- Between two rounds: a session that has returned is not connected; one that goes on is connected
-- only by a connection that goes on.
pub record IsSession (n : ℕ) (s : SandboxState) (w : SessionState) : Type 0 where
  pub disconnected : (w.returned && w.state.ws_connected) ≡ false
  pub few : w.reconnect_count ≤ n
  pub same_phase : w.state.phase ≡ s.phase
  pub same_tier : w.state.cpu_tier ≡ s.cpu_tier

and_false : (b : Bool) → (b && false) ≡ false
and_false true = refl
and_false false = refl

reconnected-IsSession :
    (n : ℕ) (s : SandboxState) (w : SessionState) (c : Bool) (o : Option EndReason × SandboxState)
    → w.returned ≡ false
    → o.1.phase ≡ s.phase
    → o.1.cpu_tier ≡ s.cpu_tier
    → IsSession n s w
    → IsSession (n + 1) s (reconnected c o w)
unfolding reconnected set_ws_connected
reconnected-IsSession n s w c (none, t) r p q x = record {
  disconnected = rw r refl;
  few = omega (arith, x.few);
  same_phase = p;
  same_tier = q;
}
reconnected-IsSession n s w c (some reason, t) r p q x = record {
  disconnected = and_false c;
  few = omega (arith, x.few);
  same_phase = p;
  same_tier = q;
}

dialled-keeps :
    (d : Option Text) (events : List WsEvent) (s : SandboxState)
    → ((dialled d events s).1.phase ≡ s.phase) × ((dialled d events s).1.cpu_tier ≡ s.cpu_tier)
unfolding dialled set_ws_connected
dialled-keeps none events s = (refl, refl)
dialled-keeps (some e) events s = (refl, refl)

session_round-IsSession :
    (n : ℕ) (s : SandboxState) (t : Target) (a : Attempt) (w : SessionState)
    → w.returned ≡ false
    → IsSession n s w
    → IsSession (n + 1) s (session_round t a w)
unfolding session_round
session_round-IsSession n s t a w r x = elim (Bool-cases a.cancelled_before) [
  | inl e ↦ subst (IsSession (n + 1) s) (sym (then_branch a.cancelled_before _ _ e)) (
      unfold set_ws_connected in
      record {
        disconnected = refl;
        few = omega (arith, x.few);
        same_phase = x.same_phase;
        same_tier = x.same_tier;
      })
  | inr e ↦
      let header = connect_header t.pod_name (fetch_id_token a.metadata t.audience) in
      let (p, q) = dialled-keeps (a.dial t.ws_url header) a.events w.state in
      subst (IsSession (n + 1) s) (sym (else_branch a.cancelled_before _ _ e)) (
        reconnected-IsSession n s w a.cancelled_after (ws_connect t a w.state) r
          (unfold ws_connect in p ∙ x.same_phase) (unfold ws_connect in q ∙ x.same_tier) x)
]

returned_false : (w : SessionState) → is_over w ≡ false → w.returned ≡ false
unfolding is_over
returned_false w e = ground arith

weaker : (m n : ℕ) (s : SandboxState) (w : SessionState) → m ≤ n → IsSession m s w → IsSession n s w
weaker m n s w h x = record {
  disconnected = x.disconnected;
  few = omega (arith, h, x.few);
  same_phase = x.same_phase;
  same_tier = x.same_tier;
}

session_loop-IsSession :
    (n k : ℕ) (s : SandboxState) (t : Target) (attempts : List Attempt) (w : SessionState)
    → k ≡ n + length attempts
    → IsSession n s w
    → IsSession k s (session_loop t attempts w)
unfolding session_loop
session_loop-IsSession n k s t [] w h x = weaker n k s w (omega (arith, h)) x
session_loop-IsSession n k s t (a ∷ rest) w h x = elim (Bool-cases (is_over w)) [
  | inl e ↦
      subst (IsSession k s) (sym (then_branch (is_over w) _ _ e))
        (weaker n k s w (omega (arith, h)) x)
  | inr e ↦ subst (IsSession k s) (sym (else_branch (is_over w) _ _ e)) (
      session_loop-IsSession (n + 1) k s t rest (session_round t a w) (omega (arith, h))
        (session_round-IsSession n s t a w (returned_false w e) x))
]

-- Whatever the attempts to connect come to: a session loop that has returned leaves the flag
-- `wsConnected` off, it counts a reconnect for each attempt at most, and it leaves the phase and
-- the tier that the sandbox reports alone.
pub ws_session_loop-IsSession :
    (url pod_name pid : Text) (attempts : List Attempt) (s : SandboxState)
    → s.ws_connected ≡ false
    → IsSession (length attempts) s (ws_session_loop url pod_name pid attempts s)
unfolding ws_session_loop
ws_session_loop-IsSession [] pod_name pid attempts s e = record {
  disconnected = rw e refl;
  few = omega arith;
  same_phase = refl;
  same_tier = refl;
}
ws_session_loop-IsSession (c ∷ url) pod_name pid attempts s e =
    session_loop-IsSession 0 (length attempts) s (target_of (c ∷ url) pod_name pid) attempts
      (record { state = s; reconnect_count = 0; returned = false }) (omega arith)
      (record { disconnected = refl; few = omega arith; same_phase = refl; same_tier = refl })
