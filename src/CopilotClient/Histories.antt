-- ===== src/CopilotClient/Histories.antt =====
-- What holds of CanWsClient (frontend/copilot/src/protocol/client.ts) before and after every event.
use mathlib.Core.Option.{none-ne-some}
use discodb.Prelude.{
  ℕ, ◌+◌, ◌≤◌, ◌≡◌, inl, inr, refl, sym, ap, ◌∙◌, not, ◌&&◌, Option, none, some, ltb, Bool-cases,
  if-cases, arith,
}
use discodb.Sockets.{Greets, is_usable, is_live, is_shut, is_delivering, is_handshake}
use discodb.CopilotClient.Defs.{
  ClientOptions, Client, Chance, new_client, is_open, on_message, on_visibility_change, on_resume,
  on_stall_check, is_open_state,
}
use discodb.CopilotClient.Events.{
  Event, connects, closes, sends, opened, delivers, fades, ended, reconnects, visibility, resumes,
  second, fire, react, Reachable, begins, goes_on,
}
use discodb.CopilotClient.Invariant.{fades-SocketsInv, ended-SocketsInv}
use discodb.CopilotClient.Steps.{
  ClientInv, connect-Inv, close-Inv, send-Inv, force_reconnect-Inv, open_socket-Inv, resocketed-Inv,
  handled, unowned, on_open-Inv, on_close-Inv, at_handshake,
}

module _ {M : Type 0} (opts : ClientOptions M) where
  module _ (le : opts.min_backoff_ms ≤ opts.max_backoff_ms) where
    fire-Inv :
        (t : Option ℕ) (k : Chance) (c : Client M)
        → c.reconnect_timer ≡ t
        → ClientInv opts c
        → ClientInv opts (fire opts t k c)
    unfolding fire
    fire-Inv none k c e h = h
    fire-Inv (some d) k c e h =
        open_socket-Inv opts le k (record c { reconnect_timer = none })
          (elim (Bool-cases c.manual_close) [
            | inl m ↦ absurd (none-ne-some d (sym (h.for_good m).1 ∙ e))
            | inr m ↦ m
          ])
          (record { sockets = h.base.sockets; low = h.base.low; high = h.base.high })

    on_message-Inv :
        (k : Chance) (c : Client M) → ClientInv opts c → ClientInv opts (on_message opts k c)
    unfolding on_message
    on_message-Inv k c h = record {
      base = record { sockets = h.base.sockets; low = h.base.low; high = h.base.high };
      shown = h.shown;
      for_good = h.for_good;
      keeps_on = h.keeps_on;
    }

    opened-Inv :
        (i : ℕ) (k : Chance) (c : Client M)
        → ClientInv opts c
        → ClientInv opts (react opts (opened i) k c)
    unfolding react
    opened-Inv i k c h =
        if-cases (ClientInv opts) (is_handshake (c.sockets i).ready)
          (λ s.
            if-cases (ClientInv opts) (c.sockets i).has_handlers
              (λ t.
                on_open-Inv opts le k c i h (at_handshake (c.sockets i).ready s)
                  (handled opts le c i h t))
              (λ t. absurd (
                ground (
                  arith,
                  sym ((h.base.sockets i).other (unowned opts le c i h t)).1
                      ∙ ap is_live (at_handshake (c.sockets i).ready s),
                ))))
          (λ s. h)

    ended-Inv :
        (i : ℕ) (k : Chance) (c : Client M)
        → ClientInv opts c
        → ClientInv opts (react opts (ended i) k c)
    unfolding react
    ended-Inv i k c h =
        if-cases (ClientInv opts) (is_shut (c.sockets i).ready) (λ s. h)
          (λ s.
            if-cases (ClientInv opts) (c.sockets i).has_handlers
              (λ t. on_close-Inv opts le k c i h (handled opts le c i h t))
              (λ t. resocketed-Inv opts le c _ h (
                ended-SocketsInv opts.hello c.ws i c.sockets h.base.sockets
                  (unowned opts le c i h t))))

    pub react-Inv :
        (e : Event M) (k : Chance) (c : Client M)
        → ClientInv opts c
        → ClientInv opts (react opts e k c)
    unfolding react on_visibility_change on_resume on_stall_check
    react-Inv connects k c h = connect-Inv opts le k c h
    react-Inv closes k c h = close-Inv opts le c h
    react-Inv (sends m) k c h = send-Inv opts le m c h
    react-Inv (opened i) k c h = opened-Inv i k c h
    react-Inv (delivers i) k c h =
        if-cases (ClientInv opts) (is_delivering (c.sockets i).ready && (c.sockets i).has_handlers)
          (λ _. on_message-Inv k c h) (λ _. h)
    react-Inv (fades i) k c h =
        if-cases (ClientInv opts) (is_usable (c.sockets i).ready)
          (λ u.
            resocketed-Inv opts le c _ h
              (fades-SocketsInv opts.hello c.ws i c.sockets h.base.sockets u))
          (λ _. h)
    react-Inv (ended i) k c h = ended-Inv i k c h
    react-Inv reconnects k c h = fire-Inv c.reconnect_timer k c refl h
    react-Inv (visibility v) k c h =
        let again = force_reconnect-Inv opts le k c h in
        if-cases (ClientInv opts) c.listens
          (λ _.
            if-cases (ClientInv opts) v
              (λ _.
                if-cases (ClientInv opts) (not (is_open c)) (λ _. again)
                  (λ _.
                    if-cases (ClientInv opts) (ltb (c.last_msg_at + opts.stall_timeout_ms) k.now)
                      (λ _. again) (λ _. h)))
              (λ _. h))
          (λ _. h)
    react-Inv resumes k c h =
        if-cases (ClientInv opts) c.listens
          (λ _.
            if-cases (ClientInv opts) (not (is_open c)) (λ _. force_reconnect-Inv opts le k c h)
              (λ _. h))
          (λ _. h)
    react-Inv (second v) k c h =
        if-cases (ClientInv opts) c.stall_timer
          (λ _.
            if-cases (ClientInv opts) c.manual_close (λ _. h)
              (λ _.
                if-cases (ClientInv opts) (not v) (λ _. h)
                  (λ _.
                    if-cases (ClientInv opts) (not (is_open_state c.state)) (λ _. h)
                      (λ _.
                        if-cases (ClientInv opts)
                          (ltb (c.last_msg_at + opts.stall_timeout_ms) k.now)
                          (λ _. force_reconnect-Inv opts le k c h) (λ _. h)))))
          (λ _. h)

    -- In any history of calls and callbacks
    pub Reachable-Inv : {c : Client M} → Reachable opts c → ClientInv opts c
    unfolding new_client Greets
    Reachable-Inv begins = record {
      base = record {
        sockets = λ j. record {
          own = λ f. absurd (ground (arith, f));
          other = λ _. (refl, refl);
          greets = inl refl;
        };
        low = omega arith;
        high = le;
      };
      shown = λ f. absurd (ground (arith, f));
      for_good = λ f. absurd (ground (arith, f));
      keeps_on = λ _. inl refl;
    }
    Reachable-Inv (goes_on {c} r e k) = react-Inv e k c (Reachable-Inv r)
