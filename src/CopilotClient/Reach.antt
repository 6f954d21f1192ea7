-- ===== src/CopilotClient/Reach.antt =====
-- What holds of CanWsClient (frontend/copilot/src/protocol/client.ts) in every history.
use mathlib.Core.Option.{none-ne-some}
use discodb.Prelude.{
  ℕ, ◌≤◌, ◌≡◌, ◌⊎◌, inl, inr, refl, sym, subst, ◌∙◌, Bool, true, false, ◌&&◌, [], Option, none,
  some, Bool-cases, if-cases, if◌then◌else◌, arith,
}
use discodb.Sockets.{
  first_sent, Greets-first, is_usable, is_live, is_shut, is_delivering, is_handshake,
}
use discodb.CopilotClient.Defs.{
  closed, ClientOptions, Client, Chance, teardown_ws, teardown_socket, send_on, send,
  schedule_reconnect, open_socket, close, on_message, opening_state, set_state,
}
use discodb.CopilotClient.Events.{
  Event, connects, closes, sends, opened, delivers, fades, ended, reconnects, visibility, resumes,
  second, fire, react, Reachable,
}
use discodb.CopilotClient.Invariant.{is_ws}
use discodb.CopilotClient.Steps.{is_some, is_idle, ClientInv, handled, is_ws-some}
use discodb.CopilotClient.Histories.{Reachable-Inv}

is_some-some {ℓ} : {A : Type ℓ} (o : Option A) → is_some o ≡ true → (a : A) × (o ≡ some a)
is_some-some none h = absurd (ground (arith, h))
is_some-some (some a) h = (a, refl)

module _ {M : Type 0} (opts : ClientOptions M) where
  teardown_ws-manual :
      (w : Option ℕ) (c : Client M) → (teardown_ws w c).manual_close ≡ c.manual_close
  teardown_ws-manual none c = refl
  teardown_ws-manual (some i) c = refl

  -- What opening comes to, when the client is not closed.
  Connects : Chance → Client M → Type 0
  Connects k d = is_some (if k.constructs then d.ws else d.reconnect_timer) ≡ true

  schedule_reconnect-Connects :
      (k : Chance) (c : Client M)
      → c.manual_close ≡ false
      → is_some (schedule_reconnect opts k c).reconnect_timer ≡ true
  unfolding schedule_reconnect
  schedule_reconnect-Connects k c m =
      if-cases (λ (d : Client M). is_some d.reconnect_timer ≡ true) c.manual_close
        (λ t. absurd (ground (arith, t, m))) (λ _. refl)

  open_socket-Connects :
      (k : Chance) (c : Client M) → c.manual_close ≡ false → Connects k (open_socket opts k c)
  unfolding Connects open_socket teardown_socket
  open_socket-Connects k c m = opened k.constructs _ _ refl (
      schedule_reconnect-Connects k (set_state (opening_state opts c) (teardown_socket c))
        (teardown_ws-manual c.ws c ∙ m))
    where
      opened :
          (b : Bool) (x y : Client M)
          → is_some x.ws ≡ true
          → is_some y.reconnect_timer ≡ true
          → is_some (if b then (if b then x else y).ws else (if b then x else y).reconnect_timer)
            ≡ true
      opened true x y e f = e
      opened false x y e f = f

  fire-Connects :
      (t : Option ℕ) (k : Chance) (c : Client M)
      → c.manual_close ≡ false
      → is_some t ≡ true
      → Connects k (fire opts t k c)
  unfolding fire
  fire-Connects none k c m e = absurd (ground (arith, e))
  fire-Connects (some d) k c m e = open_socket-Connects k (record c { reconnect_timer = none }) m

  module _ (le : opts.min_backoff_ms ≤ opts.max_backoff_ms) where
    -- In any history of calls and callbacks, a socket that is being opened or is open, or that has
    -- handlers, is the one of the client, and what was sent first on it, if anything, is the greeting.
    pub one_socket :
        {c : Client M}
        → Reachable opts c
        → (j : ℕ)
        → (((is_live (c.sockets j).ready ≡ true) ⊎ ((c.sockets j).has_handlers ≡ true))
            → c.ws ≡ some j)
          × (((c.sockets j).sent ≡ []) ⊎ (first_sent (c.sockets j).sent ≡ some opts.hello))
    one_socket {c} r j =
        let h = Reachable-Inv opts le r in
        let o = h.base.sockets j in
        (
          λ l. elim l [
            | inl v ↦ elim (Bool-cases (is_ws c.ws j)) [
              | inl w ↦ is_ws-some c.ws j w
              | inr w ↦ absurd (ground (arith, v, (o.other w).1))
            ]
            | inr v ↦ handled opts le c j h v
          ],
          Greets-first opts.hello (c.sockets j).ready (c.sockets j).sent o.greets,
        )

    -- In any history, a client that was asked to connect and not closed since has a socket whose
    -- handlers are set and which is not yet closed, though it may be closing, or a timer at whose end
    -- it makes a socket, or sets the timer again if it cannot; and its backoff, which the delay is
    -- drawn from, stays within the bounds.
    pub keeps_trying :
        {c : Client M}
        → Reachable opts c
        → c.manual_close ≡ false
        → is_idle c.state ≡ false
        → ((opts.min_backoff_ms ≤ c.backoff) × (c.backoff ≤ opts.max_backoff_ms))
          × (((i : ℕ) × (c.ws ≡ some i)
                × ((c.sockets i).has_handlers ≡ true)
                × (is_shut (c.sockets i).ready ≡ false))
              ⊎ ((k : Chance)
                  → let d = react opts reconnects k c in
                    is_some (if k.constructs then d.ws else d.reconnect_timer) ≡ true))
    unfolding Connects react fire
    keeps_trying {c} r m i =
        let h = Reachable-Inv opts le r in
        (
          (h.base.low, h.base.high),
          elim (h.keeps_on m) [
            | inl e ↦ absurd (ground (arith, e, i))
            | inr (inl w) ↦
                let (j, e) = is_some-some c.ws w in
                let (t, n) =
                  (h.base.sockets j).own (subst (λ v. is_ws v j ≡ true) (sym e) (ground arith)) in
                inl (j, e, t, n)
            | inr (inr t) ↦ inr (λ k. fire-Connects c.reconnect_timer k c m t)
          ],
        )

    Rests : Client M → Client M → Type 0
    Rests c d = (d.manual_close ≡ true) × (d.made ≡ c.made)

    teardown_ws-Rests :
        (w : Option ℕ) (c : Client M) → c.manual_close ≡ true → Rests c (teardown_ws w c)
    unfolding Rests
    teardown_ws-Rests none c m = (m, refl)
    teardown_ws-Rests (some i) c m = (m, refl)

    send_on-Rests :
        (w : Option ℕ) (m : M) (c : Client M) → c.manual_close ≡ true → Rests c (send_on w m c)
    unfolding Rests
    send_on-Rests none m c e = (e, refl)
    send_on-Rests (some i) m c e = (e, refl)

    react-Rests :
        (e : Event M) (k : Chance) (c : Client M)
        → ClientInv opts c
        → c.manual_close ≡ true
        → ¬ (e ≡ connects)
        → Rests c (react opts e k c)
    unfolding react close send fire teardown_socket on_message Rests
    react-Rests connects k c h m n = absurd (n refl)
    react-Rests closes k c h m n =
        teardown_ws-Rests c.ws
          (record c {
            manual_close = true;
            reconnect_timer = none;
            stall_timer = false;
            listens = false;
          })
          refl
    react-Rests (sends msg) k c h m n = send_on-Rests c.ws msg c m
    react-Rests (opened i) k c h m n =
        if-cases (Rests c) (is_handshake (c.sockets i).ready)
          (λ _.
            if-cases (Rests c) (c.sockets i).has_handlers
              (λ t. absurd (none-ne-some i (sym (h.for_good m).0 ∙ handled opts le c i h t)))
              (λ _. (m, refl)))
          (λ _. (m, refl))
    react-Rests (delivers i) k c h m n =
        if-cases (Rests c) (is_delivering (c.sockets i).ready && (c.sockets i).has_handlers)
          (λ _. (m, refl)) (λ _. (m, refl))
    react-Rests (fades i) k c h m n =
        if-cases (Rests c) (is_usable (c.sockets i).ready) (λ _. (m, refl)) (λ _. (m, refl))
    react-Rests (ended i) k c h m n =
        if-cases (Rests c) (is_shut (c.sockets i).ready) (λ _. (m, refl))
          (λ _.
            if-cases (Rests c) (c.sockets i).has_handlers
              (λ t. absurd (none-ne-some i (sym (h.for_good m).0 ∙ handled opts le c i h t)))
              (λ _. (m, refl)))
    react-Rests reconnects k c h m n =
        subst (λ t. Rests c (fire opts t k c)) (sym (h.for_good m).1) (m, refl)
    react-Rests (visibility v) k c h m n =
        if-cases (Rests c) c.listens (λ l. absurd (ground (arith, l, (h.for_good m).3)))
          (λ _. (m, refl))
    react-Rests resumes k c h m n =
        if-cases (Rests c) c.listens (λ l. absurd (ground (arith, l, (h.for_good m).3)))
          (λ _. (m, refl))
    react-Rests (second v) k c h m n =
        if-cases (Rests c) c.stall_timer (λ l. absurd (ground (arith, l, (h.for_good m).4)))
          (λ _. (m, refl))

    -- In any history, a client that was closed shows it and has no socket; no socket that it ever made
    -- has handlers or is being opened or open; and no event but a call of `connect` changes that it
    -- was closed or makes a socket.
    pub stays_closed :
        {c : Client M}
        → Reachable opts c
        → c.manual_close ≡ true
        → (c.state ≡ closed)
          × (c.ws ≡ none)
          × ((j : ℕ) → ((c.sockets j).has_handlers ≡ false) × (is_live (c.sockets j).ready ≡ false))
          × ((e : Event M) (k : Chance)
              → (¬ (e ≡ connects))
              → let d = react opts e k c in (d.manual_close ≡ true) × (d.made ≡ c.made))
    unfolding Rests
    stays_closed {c} r m =
        let h = Reachable-Inv opts le r in
        let (w, t, s, l, q) = h.for_good m in
        (
          s,
          w,
          λ j. (h.base.sockets j).other (subst (λ v. is_ws v j ≡ false) (sym w) refl),
          λ e k n. react-Rests e k c h m n,
        )
