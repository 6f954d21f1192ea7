-- ===== src/CockpitClient/Reach.antt =====
-- What holds of ProtocolClient (frontend/cockpit/src/protocol/client.ts) in every history in which
-- `connect` is not called over a socket that is closing or has failed, and what happens when it is.
use discodb.Prelude.{
  if◌then◌else◌, ℕ, ◌+◌, ◌<◌, ◌≡◌, ◌⊎◌, refl, sym, subst, ap, ◌∙◌, true, false, not, ◌&&◌, ◌||◌, [],
  ◌∷◌, Option, none, some, ◌==◌, if-cases, arith, min, ◌*◌,
}
use discodb.Sockets.{
  is_usable, usable, shut, Socket, is_live, is_shut, is_handshake, new_socket, put, put-same,
  put-other, first_sent, Greets-first,
}
use discodb.CockpitClient.Defs.{
  sent_on, connecting, open_, closed, is_settled, is_open, ClientOptions, Client, is_here, send,
  send_on, connect, schedule_reconnect, open_socket, on_open, on_close,
}
use discodb.CockpitClient.Events.{
  connects, sends, opened, ended, reconnects, fire, react, Reachable,
}
use discodb.CockpitClient.Histories.{Reachable-Inv}

-- From `c` to `d`, `m` is not refused, and it is sent on the client's socket if that is open.
abbrev pub Sends : {M : Type 0} → Client M → Client M → M → Type 0
Sends c d m =
    (i : ℕ) × (c.ws ≡ some i)
    × (d.refused ≡ c.refused)
    × ((d.sockets i).sent
        ≡ (if is_usable (c.sockets i).ready then m ∷ (c.sockets i).sent else (c.sockets i).sent))

module _ {M : Type 0} (opts : ClientOptions M) where
  -- In any history in which `connect` is called only while the client has no socket, or shows that it
  -- is connecting or open (so not while it is closing, or after an error, with its socket still
  -- there), at most one socket is not closed, and it is the one that the client sends on; no send
  -- throws; while the client shows that it is open, a command is not refused, and it is sent on the
  -- client's socket if the other side has not begun to close it; and what is sent first on a socket
  -- is the greeting.
  pub only_socket :
      {c : Client M}
      → Reachable opts c
      → ((j : ℕ) → is_shut (c.sockets j).ready ≡ false → c.ws ≡ some j)
        × (c.throws ≡ 0)
        × (is_open c.state ≡ true → (m : M) → Sends c (react opts (sends m) c) m)
        × ((j : ℕ) → ((c.sockets j).sent ≡ []) ⊎ (first_sent (c.sockets j).sent ≡ some opts.hello))
  unfolding react send
  only_socket {c} r =
      let h = Reachable-Inv opts r in
      (
        λ j. (h.sockets j).own,
        h.quiet,
        λ o m. accepted c.ws refl m (h.shown o) o,
        λ j. Greets-first opts.hello (c.sockets j).ready (c.sockets j).sent (h.sockets j).greets,
      )
    where
      written :
          (s : Socket M) (m : M)
          → (sent_on m s).sent ≡ (if is_usable s.ready then m ∷ s.sent else s.sent)
      written s m =
          if-cases (λ (d : Socket M). d.sent ≡ (if is_usable s.ready then m ∷ s.sent else s.sent))
            (is_usable s.ready) (λ e. rw e) (λ e. rw e)

      accepted :
          (w : Option ℕ)
          → c.ws ≡ w
          → (m : M) → is_here c.ws ≡ true
          → is_open c.state ≡ true
          → Sends c (send_on w m c) m
      accepted none q m e o = absurd (ground (arith, e, ap is_here q))
      accepted (some i) q m e o =
          if-cases (λ (d : Client M). Sends c d m) (is_open c.state)
            (λ _. (
              i,
              q,
              refl,
              ap (λ (t : Socket M). t.sent) (put-same i (sent_on m (c.sockets i)) c.sockets)
                  ∙ written (c.sockets i) m,
            ))
            (λ f. absurd (ground (arith, o, f)))

  -- `connect`, called in such a history while the last socket is not closed but the client shows
  -- neither that it is connecting nor that it is open (the socket is closing, or an error was
  -- reported), makes a second socket. If the first then ends and the second opens, the client shows
  -- that it is open but has no socket, and it refuses every command; when the timer of the
  -- reconnection fires after that, a third socket is made beside the second.
  pub connect-orphans :
      {c : Client M} (i : ℕ)
      → Reachable opts c
      → c.ws ≡ some i
      → is_settled c.state ≡ false
      → is_shut (c.sockets i).ready ≡ false
      → opts.auto_reconnect ≡ true
      → let d = react opts (opened c.made) (react opts (ended i) (react opts (connects true) c)) in
        let e = react opts (reconnects true) d in
        (is_open d.state ≡ true)
        × (d.ws ≡ none)
        × ((m : M) → (react opts (sends m) d).refused ≡ m ∷ d.refused)
        × (is_live (e.sockets c.made).ready ≡ true)
        × (is_live (e.sockets (c.made + 1)).ready ≡ true)
  unfolding react connect open_socket on_close schedule_reconnect on_open send fire
  connect-orphans {c} i r w s n a =
      subst Orphaned
        (sym (
          ap (λ d. react opts (opened c.made) (react opts (ended i) d)) second
          ∙ ap (λ d. react opts (opened c.made) d) lost
          ∙ unnoticed))
        (refl, refl, λ m. refl, still_live, live_again)
    where
      Orphaned : Client M → Type 0
      Orphaned d =
          let e = react opts (reconnects true) d in
          (is_open d.state ≡ true)
          × (d.ws ≡ none)
          × ((m : M) → (react opts (sends m) d).refused ≡ m ∷ d.refused)
          × (is_live (e.sockets c.made).ready ≡ true)
          × (is_live (e.sockets (c.made + 1)).ready ≡ true)

      older : i < c.made
      older = (Reachable-Inv opts r).fresh i w

      after_connect : Client M
      after_connect = record c {
        ws = some c.made;
        state = connecting;
        reconnect_timer = none;
        intentional_close = false;
        made = c.made + 1;
        sockets = put c.made new_socket c.sockets;
      }

      after_end : Client M
      after_end = record after_connect {
        ws = none;
        state = closed;
        reconnect_timer = some c.current_delay;
        current_delay = min (c.current_delay * 2) opts.max_reconnect_delay_ms;
        sockets = put i (record (after_connect.sockets i) { ready = shut }) after_connect.sockets;
      }

      after_opening : Client M
      after_opening = record after_end {
        state = open_;
        current_delay = opts.reconnect_delay_ms;
        refused = opts.hello ∷ c.refused;
        sockets =
            put c.made (record (after_end.sockets c.made) { ready = usable }) after_end.sockets;
      }

      second : react opts (connects true) c ≡ after_connect
      second =
          if-cases (λ d. d ≡ after_connect) (is_here c.ws && is_settled c.state)
            (λ t. absurd (ground (arith, t, s))) (λ _. refl)

      lost : react opts (ended i) after_connect ≡ after_end
      lost =
          if-cases (λ d. d ≡ after_end) (is_shut (after_connect.sockets i).ready)
            (λ t. absurd (
              if-cases (λ (x : Socket M). is_shut x.ready ≡ true → ⊥) (i == c.made)
                (λ e. absurd (ground (arith, e, older))) (λ _ f. ground (arith, n, f)) t))
            (λ _.
              if-cases (λ d. d ≡ after_end) (not opts.auto_reconnect || false)
                (λ t. absurd (ground (arith, t, a))) (λ _. refl))

      made_anew : after_end.sockets c.made ≡ new_socket
      made_anew =
          put-other i c.made _ after_connect.sockets (ground (arith, older))
          ∙ put-same c.made new_socket c.sockets

      unnoticed : react opts (opened c.made) after_end ≡ after_opening
      unnoticed =
          if-cases (λ d. d ≡ after_opening) (is_handshake (after_end.sockets c.made).ready)
            (λ _. refl)
            (λ f. absurd (ground (arith, f, ap (λ (x : Socket M). is_handshake x.ready) made_anew)))

      still_live :
          is_live ((react opts (reconnects true) after_opening).sockets c.made).ready ≡ true
      still_live =
          ap (λ (x : Socket M). is_live x.ready)
            (put-other (c.made + 1) c.made new_socket after_opening.sockets (ground arith)
              ∙ put-same c.made _ after_end.sockets)

      live_again :
          is_live ((react opts (reconnects true) after_opening).sockets (c.made + 1)).ready ≡ true
      live_again =
          ap (λ (x : Socket M). is_live x.ready)
            (put-same (c.made + 1) new_socket after_opening.sockets)
