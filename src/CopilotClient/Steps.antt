-- ===== src/CopilotClient/Steps.antt =====
-- Each operation of CanWsClient (frontend/copilot/src/protocol/client.ts) keeps its invariant.
use mathlib.Core.Option.{none-ne-some}
use discodb.Prelude.{
  ℕ, ◌+◌, ◌*◌, ◌≤◌, ◌≡◌, ◌⊎◌, inl, inr, refl, sym, subst, ap, ◌∙◌, Bool, true, false, Option, none,
  some, min, Bool-cases, if-cases, arith,
}
use discodb.Sockets.{
  Ready, handshake, usable, shutting, shut, Socket, is_handshake, new_socket, put,
}
use discodb.CopilotClient.Defs.{
  ConnState, idle, open_, reconnecting, closed, ClientOptions, Client, Chance, teardown_ws,
  teardown_socket, send_on, send, schedule_reconnect, open_socket, force_reconnect, connect, close,
  on_open, on_close, is_open_state, opening_state, auto_started, clear_reconnect, set_state,
}
use discodb.CopilotClient.Events.{with_ready}
use discodb.CopilotClient.Invariant.{
  is_ws, SocketsInv, teardown-SocketsInv, made-SocketsInv, send-SocketsInv, greeted-SocketsInv,
  lost-SocketsInv,
}

abbrev pub is_some {ℓ} : {A : Type ℓ} → Option A → Bool
is_some none = false
is_some (some a) = true

abbrev pub is_idle : ConnState → Bool
is_idle idle = true
is_idle _ = false

pub at_handshake : (r : Ready) → is_handshake r ≡ true → r ≡ handshake
at_handshake handshake h = refl
at_handshake usable h = absurd (ground (arith, h))
at_handshake shutting h = absurd (ground (arith, h))
at_handshake shut h = absurd (ground (arith, h))

pub is_ws-some : (w : Option ℕ) (i : ℕ) → is_ws w i ≡ true → w ≡ some i
is_ws-some none i h = absurd (ground (arith, h))
is_ws-some (some j) i h = ap some (ground (arith, h))

module _ {M : Type 0} (opts : ClientOptions M) where
  -- What a client needs so that it may connect.
  pub record Connectable (c : Client M) : Type 0 where
    pub sockets : SocketsInv opts.hello c.ws c.sockets
    pub low : opts.min_backoff_ms ≤ c.backoff
    pub high : c.backoff ≤ opts.max_backoff_ms

  pub record ClientInv (c : Client M) : Type 0 where
    pub base : Connectable c
    pub shown : is_open_state c.state ≡ true → is_some c.ws ≡ true
    -- Once closed, it has no socket and nothing that could make one.
    pub for_good :
        c.manual_close ≡ true
        → (c.ws ≡ none)
          × (c.reconnect_timer ≡ none)
          × (c.state ≡ closed)
          × (c.listens ≡ false)
          × (c.stall_timer ≡ false)
    -- Before that it has a socket or a timer that will make one, or has not been asked to connect.
    pub keeps_on :
        c.manual_close ≡ false
        → (is_idle c.state ≡ true) ⊎ ((is_some c.ws ≡ true) ⊎ (is_some c.reconnect_timer ≡ true))

  abbrev Torn : Client M → Client M → Type 0
  Torn c c' =
      (s : ℕ → Socket M) × (c' ≡ record c { ws = none; sockets = s }) × SocketsInv opts.hello none s

  teardown_ws-Torn :
      (w : Option ℕ) (c : Client M)
      → c.ws ≡ w
      → SocketsInv opts.hello w c.sockets
      → Torn c (teardown_ws w c)
  teardown_ws-Torn none c e h = (c.sockets, ap (λ w. record c { ws = w }) e, h)
  teardown_ws-Torn (some i) c e h = (_, refl, teardown-SocketsInv opts.hello i c.sockets h)

  teardown_socket-Torn :
      (c : Client M) → SocketsInv opts.hello c.ws c.sockets → Torn c (teardown_socket c)
  unfolding teardown_socket
  teardown_socket-Torn c h = teardown_ws-Torn c.ws c refl h

  module _ (le : opts.min_backoff_ms ≤ opts.max_backoff_ms) where
    doubled :
        (b : ℕ) → opts.min_backoff_ms ≤ b → opts.min_backoff_ms ≤ min (b * 2) opts.max_backoff_ms
    doubled b l = ground (arith, le)

    Torn-Inv :
        (k : Chance) (c : Client M)
        → c.manual_close ≡ false
        → opts.min_backoff_ms ≤ c.backoff
        → Torn c (teardown_socket c)
        → ClientInv (schedule_reconnect opts k c)
    unfolding schedule_reconnect
    Torn-Inv k c m low (s, e, q) =
        if-cases ClientInv c.manual_close (λ t. absurd (ground (arith, t, m)))
          (λ _.
            subst (λ d. ClientInv (rescheduled d)) (sym e)
              (record {
                base = record { sockets = q; low = doubled c.backoff low; high = ground arith };
                shown = λ f. absurd (ground (arith, f));
                for_good = λ f. absurd (ground (arith, f, m));
                keeps_on = λ _. inr (inr refl);
              }))
      where
        rescheduled : Client M → Client M
        rescheduled d = record (clear_reconnect (set_state reconnecting d)) {
          reconnect_timer = some (k.jitter c.backoff);
          backoff = min (c.backoff * 2) opts.max_backoff_ms;
        }

    pub schedule_reconnect-Inv :
        (k : Chance) (c : Client M)
        → c.manual_close ≡ false
        → Connectable c
        → ClientInv (schedule_reconnect opts k c)
    schedule_reconnect-Inv k c m h = Torn-Inv k c m h.low (teardown_socket-Torn c h.sockets)

    pub open_socket-Inv :
        (k : Chance) (c : Client M)
        → c.manual_close ≡ false
        → Connectable c
        → ClientInv (open_socket opts k c)
    unfolding open_socket
    open_socket-Inv k c m h =
        let (s, e, q) = teardown_socket-Torn c h.sockets in
        if-cases ClientInv k.constructs
          (λ _.
            subst (λ d. ClientInv (fresh (set_state (opening_state opts c) d))) (sym e)
              (record {
                base = record {
                  sockets = made-SocketsInv opts.hello c.made s q;
                  low = h.low;
                  high = h.high;
                };
                shown = λ _. refl;
                for_good = λ f. absurd (ground (arith, f, m));
                keeps_on = λ _. inr (inl refl);
              }))
          (λ _.
            subst (λ d. ClientInv (schedule_reconnect opts k (set_state (opening_state opts c) d)))
              (sym e)
              (schedule_reconnect-Inv k
                (record c { ws = none; sockets = s; state = opening_state opts c }) m
                (record { sockets = q; low = h.low; high = h.high })))
      where
        fresh : Client M → Client M
        fresh d = record d {
          ws = some d.made;
          made = d.made + 1;
          sockets = put d.made new_socket d.sockets;
        }

    pub force_reconnect-Inv :
        (k : Chance) (c : Client M) → ClientInv c → ClientInv (force_reconnect opts k c)
    unfolding force_reconnect
    force_reconnect-Inv k c h =
        if-cases ClientInv c.manual_close (λ m. h)
          (λ m.
            open_socket-Inv k (record c { reconnect_timer = none; backoff = opts.min_backoff_ms }) m
              (record { sockets = h.base.sockets; low = omega arith; high = le }))

    pub connect-Inv : (k : Chance) (c : Client M) → ClientInv c → ClientInv (connect opts k c)
    unfolding connect
    connect-Inv k c h =
        open_socket-Inv k (record c { manual_close = false; listens = true; stall_timer = true })
          refl (record { sockets = h.base.sockets; low = h.base.low; high = h.base.high })

    pub close-Inv : (c : Client M) → ClientInv c → ClientInv (close opts c)
    unfolding close
    close-Inv c h =
        let (s, e, q) = teardown_socket-Torn quitting h.base.sockets in
        subst (λ d. ClientInv (set_state closed d)) (sym e)
          (record {
            base = record { sockets = q; low = h.base.low; high = h.base.high };
            shown = λ f. absurd (ground (arith, f));
            for_good = λ _. (refl, refl, refl, refl, refl);
            keeps_on = λ f. absurd (ground (arith, f));
          })
      where
        quitting : Client M
        quitting = record c {
          manual_close = true;
          reconnect_timer = none;
          stall_timer = false;
          listens = false;
        }

    -- Changes of the sockets alone.
    pub resocketed-Inv :
        (c : Client M) (s : ℕ → Socket M)
        → ClientInv c
        → SocketsInv opts.hello c.ws s
        → ClientInv (record c { sockets = s })
    resocketed-Inv c s h q = record {
      base = record { sockets = q; low = h.base.low; high = h.base.high };
      shown = h.shown;
      for_good = h.for_good;
      keeps_on = h.keeps_on;
    }

    send_on-Inv : (w : Option ℕ) (m : M) (c : Client M) → ClientInv c → ClientInv (send_on w m c)
    send_on-Inv none m c h = h
    send_on-Inv (some i) m c h =
        resocketed-Inv c _ h (send-SocketsInv opts.hello m c.ws i c.sockets h.base.sockets)

    pub send-Inv : (m : M) (c : Client M) → ClientInv c → ClientInv (send m c)
    unfolding send
    send-Inv m c h = send_on-Inv c.ws m c h

    auto_started-Inv :
        (o : Option M) (c : Client M) → ClientInv c → ClientInv (auto_started opts o c)
    unfolding auto_started
    auto_started-Inv none c h = h
    auto_started-Inv (some m) c h = send-Inv m c h

    -- A socket that has handlers is the client's.
    pub handled :
        (c : Client M) (i : ℕ) → ClientInv c → (c.sockets i).has_handlers ≡ true → c.ws ≡ some i
    handled c i h t = elim (Bool-cases (is_ws c.ws i)) [
      | inl w ↦ is_ws-some c.ws i w
      | inr w ↦ absurd (ground (arith, t, ((h.base.sockets i).other w).0))
    ]

    pub unowned :
        (c : Client M) (i : ℕ)
        → ClientInv c
        → (c.sockets i).has_handlers ≡ false
        → is_ws c.ws i ≡ false
    unowned c i h t = elim (Bool-cases (is_ws c.ws i)) [
      | inl w ↦ absurd (ground (arith, t, ((h.base.sockets i).own w).0))
      | inr w ↦ w
    ]

    -- The socket opens, and its handler runs.
    pub on_open-Inv :
        (k : Chance) (c : Client M) (i : ℕ)
        → ClientInv c
        → (c.sockets i).ready ≡ handshake
        → c.ws ≡ some i
        → ClientInv (on_open opts k (with_ready opts i usable c))
    unfolding on_open send
    on_open-Inv k c i h e w =
        subst
          (λ v. ClientInv (
            auto_started opts opts.auto_start
              (send_on v opts.hello (greeting (with_ready opts i usable c)))))
          (sym w)
          (auto_started-Inv opts.auto_start _ (record {
            base = record {
              sockets =
                  greeted-SocketsInv opts.hello c.ws i c.sockets h.base.sockets e
                    (subst (λ v. is_ws v i ≡ true) (sym w) (ground arith));
              low = omega arith;
              high = le;
            };
            shown = λ _. subst (λ v. is_some v ≡ true) (sym w) refl;
            for_good = λ f. absurd (none-ne-some i (sym (h.for_good f).0 ∙ w));
            keeps_on = λ _. inr (inl (subst (λ v. is_some v ≡ true) (sym w) refl));
          }))
      where
        greeting : Client M → Client M
        greeting d =
            set_state open_ (record d { last_msg_at = k.now; backoff = opts.min_backoff_ms })

    -- The socket is closed, and its handler runs.
    pub on_close-Inv :
        (k : Chance) (c : Client M) (i : ℕ)
        → ClientInv c
        → c.ws ≡ some i
        → ClientInv (on_close opts k (with_ready opts i shut c))
    unfolding on_close teardown_socket
    on_close-Inv k c i h w =
        if-cases ClientInv c.manual_close (λ m. absurd (none-ne-some i (sym (h.for_good m).0 ∙ w)))
          (λ m. Torn-Inv k (with_ready opts i shut c) m h.base.low (
            _,
            ap (λ v. teardown_ws v (with_ready opts i shut c)) w,
            lost-SocketsInv opts.hello i c.sockets
                (subst (λ v. SocketsInv opts.hello v c.sockets) w h.base.sockets),
          ))
