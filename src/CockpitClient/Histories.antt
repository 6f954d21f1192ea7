-- ===== src/CockpitClient/Histories.antt =====
-- The invariant of ProtocolClient (frontend/cockpit/src/protocol/client.ts) before and after every
-- event, while `connect` is not called over a socket that is closing or has failed.
use mathlib.Core.Option.{none-ne-some, some-injective}
use discodb.Prelude.{
  ℕ, ◌<◌, ◌≡◌, ◌⊎◌, inl, inr, refl, sym, subst, ◌∙◌, Bool, true, false, not, ◌&&◌, ◌||◌, ◌∷◌,
  Option, none, some, ◌==◌, if-cases, arith,
}
use discodb.Sockets.{usable, shut, Socket, is_usable, is_shut, is_handshake, Greets}
use discodb.CockpitClient.Defs.{
  open_, is_open, ClientOptions, Client, is_here, is_settled, ws_send, send_on, relay_on, send,
  relay, close_ws, disconnect, connect, new_client, schedule_reconnect, open_socket, on_open,
  on_close, on_error,
}
use discodb.CockpitClient.Events.{
  Event, connects, disconnects, sends, relays, opened, fades, fails, ended, reconnects, with_ready,
  fire, react, Allowed, Reachable, begins, goes_on,
}
use discodb.CockpitClient.Invariant.{
  SocketsInv, send-SocketsInv, made-SocketsInv, greeted-SocketsInv, fades-SocketsInv,
  weaker-SocketsInv, closed-SocketsInv, ended-SocketsInv, handshake-shut,
}

module _ {M : Type 0} (opts : ClientOptions M) where
  pub record ClientInv (c : Client M) : Type 0 where
    pub sockets : SocketsInv opts.hello c.ws (is_open c.state) c.sockets
    pub fresh : (i : ℕ) → c.ws ≡ some i → i < c.made
    pub waits : is_here c.reconnect_timer ≡ true → c.ws ≡ none
    pub shown : is_open c.state ≡ true → is_here c.ws ≡ true
    pub quiet : c.throws ≡ 0

  -- A client that has no socket.
  record Bare (c : Client M) : Type 0 where
    none_left : c.ws ≡ none
    sockets : SocketsInv opts.hello none false c.sockets
    quiet : c.throws ≡ 0
    dark : is_open c.state ≡ false

  Bare-Inv : (c : Client M) → Bare c → ClientInv c
  Bare-Inv c h = record {
    sockets =
        subst (λ v. SocketsInv opts.hello v (is_open c.state) c.sockets) (sym h.none_left)
          (subst (λ b. SocketsInv opts.hello none b c.sockets) (sym h.dark) h.sockets);
    fresh = λ i e. absurd (none-ne-some i (sym h.none_left ∙ e));
    waits = λ _. h.none_left;
    shown = λ f. absurd (ground (arith, f, h.dark));
    quiet = h.quiet;
  }

  schedule_reconnect-Inv : (c : Client M) → Bare c → ClientInv (schedule_reconnect opts c)
  unfolding schedule_reconnect
  schedule_reconnect-Inv c h =
      if-cases ClientInv (not opts.auto_reconnect || c.intentional_close) (λ _. Bare-Inv c h)
        (λ _.
          Bare-Inv _ (record {
            none_left = h.none_left;
            sockets = h.sockets;
            quiet = h.quiet;
            dark = h.dark;
          }))

  open_socket-Inv :
      (constructs : Bool) (c : Client M)
      → c.ws ≡ none
      → SocketsInv opts.hello none false c.sockets
      → c.throws ≡ 0
      → ClientInv (open_socket opts constructs (record c { reconnect_timer = none }))
  unfolding open_socket
  open_socket-Inv constructs c w h t =
      if-cases ClientInv constructs
        (λ _. record {
          sockets = made-SocketsInv opts.hello c.made false c.sockets h;
          fresh = λ i e. ground (arith, some-injective c.made i e);
          waits = λ f. absurd (ground (arith, f));
          shown = λ _. refl;
          quiet = t;
        })
        (λ _.
          schedule_reconnect-Inv _ (record { none_left = w; sockets = h; quiet = t; dark = refl }))

  -- A client without a socket has none that is not closed.
  without : (c : Client M) → ClientInv c → c.ws ≡ none → SocketsInv opts.hello none false c.sockets
  without c h w =
      weaker-SocketsInv opts.hello none (is_open c.state) c.sockets
        (subst (λ v. SocketsInv opts.hello v (is_open c.state) c.sockets) w h.sockets)

  not_here : (w : Option ℕ) → is_here w ≡ false → w ≡ none
  not_here none e = refl
  not_here (some i) e = absurd (ground (arith, e))

  both-settled : (a b : Bool) → a && b ≡ false → (a ≡ false) ⊎ (b ≡ true) → a ≡ false
  both-settled false b e f = refl
  both-settled true true e f = absurd (ground (arith, e))
  both-settled true false e (inl f) = f
  both-settled true false e (inr f) = absurd (ground (arith, f))

  connect-Inv :
      (constructs : Bool) (c : Client M)
      → (is_here c.ws ≡ false) ⊎ (is_settled c.state ≡ true)
      → ClientInv c
      → ClientInv (connect opts constructs c)
  unfolding connect
  connect-Inv constructs c a h =
      if-cases ClientInv (is_here c.ws && is_settled c.state) (λ _. h)
        (λ e.
          let w = not_here c.ws (both-settled (is_here c.ws) (is_settled c.state) e a) in
          open_socket-Inv constructs (record c { intentional_close = false }) w (without c h w)
            h.quiet)

  -- A send on the socket of a client that shows that it is open does not throw.
  ws_send-Inv :
      (i : ℕ) (m : M) (c : Client M)
      → is_open c.state ≡ true
      → ClientInv c
      → ClientInv (ws_send i m c)
  ws_send-Inv i m c o h = record {
    sockets = send-SocketsInv opts.hello m c.ws (is_open c.state) i c.sockets h.sockets;
    fresh = h.fresh;
    waits = h.waits;
    shown = h.shown;
    quiet =
        if-cases (λ n. n ≡ 0) (is_handshake (c.sockets i).ready)
          (λ e. absurd (ground (arith, e, (h.sockets i).past o))) (λ _. h.quiet);
  }

  refused-Inv :
      (m : M) (c : Client M) → ClientInv c → ClientInv (record c { refused = m ∷ c.refused })
  refused-Inv m c h = record {
    sockets = h.sockets;
    fresh = h.fresh;
    waits = h.waits;
    shown = h.shown;
    quiet = h.quiet;
  }

  send-Inv : (m : M) (w : Option ℕ) (c : Client M) → ClientInv c → ClientInv (send_on w m c)
  send-Inv m none c h = refused-Inv m c h
  send-Inv m (some i) c h =
      if-cases ClientInv (is_open c.state) (λ o. ws_send-Inv i m c o h) (λ _. refused-Inv m c h)

  relay-Inv : (m : M) (w : Option ℕ) (c : Client M) → ClientInv c → ClientInv (relay_on w m c)
  relay-Inv m none c h = h
  relay-Inv m (some i) c h =
      if-cases ClientInv (is_open c.state) (λ o. ws_send-Inv i m c o h) (λ _. h)

  disconnect-Inv :
      (w : Option ℕ) (c : Client M)
      → c.ws ≡ w
      → ClientInv c
      → ClientInv (close_ws w (record c { intentional_close = true; reconnect_timer = none }))
  disconnect-Inv none c w h =
      Bare-Inv _ (record { none_left = w; sockets = without c h w; quiet = h.quiet; dark = refl })
  disconnect-Inv (some i) c w h = record {
    sockets = closed-SocketsInv opts.hello c.ws (is_open c.state) i c.sockets h.sockets;
    fresh = h.fresh;
    waits = λ f. absurd (ground (arith, f));
    shown = λ f. absurd (ground (arith, f));
    quiet = h.quiet;
  }

  on_open-Inv :
      (i : ℕ) (c : Client M)
      → is_handshake (c.sockets i).ready ≡ true
      → ClientInv c
      → ClientInv (on_open opts (with_ready opts i usable c))
  unfolding on_open send
  on_open-Inv i c e h =
      subst (λ v. ClientInv (send_on v opts.hello greeting)) (sym w)
        (record {
          sockets = greeted-SocketsInv opts.hello c.ws (is_open c.state) i c.sockets h.sockets e;
          fresh = h.fresh;
          waits = h.waits;
          shown = λ _. subst (λ v. is_here v ≡ true) (sym w) refl;
          quiet =
              if-cases (λ n. n ≡ 0) (is_handshake (greeting.sockets i).ready)
                (λ f. absurd (ground (arith, f, no_longer))) (λ _. h.quiet);
        })
    where
      w : c.ws ≡ some i
      w = (h.sockets i).own (handshake-shut opts.hello (c.sockets i).ready e)

      greeting : Client M
      greeting = record (with_ready opts i usable c) {
        state = open_;
        current_delay = opts.reconnect_delay_ms;
      }

      no_longer : is_handshake (greeting.sockets i).ready ≡ false
      no_longer =
          if-cases (λ (s : Socket M). is_handshake s.ready ≡ false) (i == i) (λ _. refl)
            (λ n. absurd (ground (arith, n)))

  on_close-Inv :
      (i : ℕ) (c : Client M)
      → is_shut (c.sockets i).ready ≡ false
      → ClientInv c
      → ClientInv (on_close opts (with_ready opts i shut c))
  unfolding on_close
  on_close-Inv i c e h =
      let q = ended-SocketsInv opts.hello c.ws (is_open c.state) i c.sockets h.sockets e in
      if-cases ClientInv c.intentional_close
        (λ _. Bare-Inv _ (record { none_left = refl; sockets = q; quiet = h.quiet; dark = refl }))
        (λ _.
          schedule_reconnect-Inv _
            (record { none_left = refl; sockets = q; quiet = h.quiet; dark = refl }))

  fire-Inv :
      (t : Option ℕ) (constructs : Bool) (c : Client M)
      → c.reconnect_timer ≡ t
      → ClientInv c
      → ClientInv (fire opts t constructs c)
  unfolding fire
  fire-Inv none b c e h = h
  fire-Inv (some d) b c e h =
      let w = h.waits (subst (λ v. is_here v ≡ true) (sym e) refl) in
      open_socket-Inv b c w (without c h w) h.quiet

  pub react-Inv :
      (e : Event M) (c : Client M) → Allowed opts e c → ClientInv c → ClientInv (react opts e c)
  unfolding react Allowed disconnect send relay on_error
  react-Inv (connects b) c a h = connect-Inv b c a h
  react-Inv disconnects c a h = disconnect-Inv c.ws c refl h
  react-Inv (sends m) c a h = send-Inv m c.ws c h
  react-Inv (relays m) c a h = relay-Inv m c.ws c h
  react-Inv (opened i) c a h =
      if-cases ClientInv (is_handshake (c.sockets i).ready) (λ e. on_open-Inv i c e h) (λ _. h)
  react-Inv (fades i) c a h =
      if-cases ClientInv (is_usable (c.sockets i).ready)
        (λ e. record {
          sockets = fades-SocketsInv opts.hello c.ws (is_open c.state) i c.sockets h.sockets e;
          fresh = h.fresh;
          waits = h.waits;
          shown = h.shown;
          quiet = h.quiet;
        })
        (λ _. h)
  react-Inv (fails i) c a h =
      if-cases ClientInv (is_shut (c.sockets i).ready) (λ _. h)
        (λ _. record {
          sockets = weaker-SocketsInv opts.hello c.ws (is_open c.state) c.sockets h.sockets;
          fresh = h.fresh;
          waits = h.waits;
          shown = λ f. absurd (ground (arith, f));
          quiet = h.quiet;
        })
  react-Inv (ended i) c a h =
      if-cases ClientInv (is_shut (c.sockets i).ready) (λ _. h) (λ e. on_close-Inv i c e h)
  react-Inv (reconnects b) c a h = fire-Inv c.reconnect_timer b c refl h

  pub Reachable-Inv : {c : Client M} → Reachable opts c → ClientInv c
  unfolding new_client Greets
  Reachable-Inv begins = Bare-Inv _ (record {
    none_left = refl;
    sockets = λ j. record {
      own = λ f. absurd (ground (arith, f));
      past = λ f. absurd (ground (arith, f));
      greets = inl refl;
    };
    quiet = refl;
    dark = refl;
  })
  Reachable-Inv (goes_on {c} r e a) = react-Inv e c a (Reachable-Inv r)
