-- ===== src/CockpitClient/Invariant.antt =====
-- What holds of the sockets of ProtocolClient (frontend/cockpit/src/protocol/client.ts) while `connect`
-- is not called over a socket that is closing or has failed.
use mathlib.Core.Option.{none-ne-some, some-injective}
use discodb.Prelude.{
  ℕ, ◌≡◌, inl, inr, refl, sym, ap, ◌∙◌, Bool, true, false, List, [], ◌∷◌, Option, none, some, ◌==◌,
  Bool-cases, if-cases, arith,
}
use discodb.Sockets.{
  Ready, handshake, usable, shutting, shut, Socket, is_usable, is_shut, is_handshake, closed_down,
  new_socket, put, put-all, put_twice-all, first_sent, Greets, torn_down-Greets, Greets-shut,
  first_sent-more, usable-Greets, Greets-usable,
}
use discodb.CockpitClient.Defs.{sent_on}

module _ {M : Type 0} (hello : M) where
  -- A socket that is not closed yet is the client's; while the client shows that it is open, so is it.
  pub record Owned (ws : Option ℕ) (shown : Bool) (j : ℕ) (s : Socket M) : Type 0 where
    pub own : is_shut s.ready ≡ false → ws ≡ some j
    pub past : shown ≡ true → is_handshake s.ready ≡ false
    pub greets : Greets hello s.ready s.sent

  abbrev pub SocketsInv : Option ℕ → Bool → (ℕ → Socket M) → Type 0
  SocketsInv ws shown sockets = (j : ℕ) → Owned ws shown j (sockets j)

  sent_on-Owned :
      (m : M) (ws : Option ℕ) (b : Bool) (i : ℕ) (s : Socket M)
      → Owned ws b i s
      → Owned ws b i (sent_on m s)
  sent_on-Owned m ws b i s o =
      if-cases (Owned ws b i) (is_usable s.ready)
        (λ u. record {
          own = o.own;
          past = o.past;
          greets =
              Greets-usable hello s.ready (m ∷ s.sent) u
                (first_sent-more hello m s.sent (usable-Greets hello s.ready s.sent u o.greets));
        })
        (λ _. o)

  pub send-SocketsInv :
      (m : M) (ws : Option ℕ) (b : Bool) (i : ℕ) (sockets : ℕ → Socket M)
      → SocketsInv ws b sockets
      → SocketsInv ws b (put i (sent_on m (sockets i)) sockets)
  send-SocketsInv m ws b i sockets h =
      put-all (Owned ws b) sockets i (sent_on m (sockets i)) (λ j e. h j)
        (sent_on-Owned m ws b i (sockets i) (h i))

  -- No socket is left: then one is made.
  pub made-SocketsInv :
      (n : ℕ) (b : Bool) (sockets : ℕ → Socket M)
      → SocketsInv none b sockets
      → SocketsInv (some n) false (put n new_socket sockets)
  unfolding Greets
  made-SocketsInv n b sockets h =
      put-all (Owned (some n) false) sockets n new_socket
        (λ j e. record {
          own = λ s. absurd (none-ne-some j ((h j).own s));
          past = λ f. absurd (ground (arith, f));
          greets = (h j).greets;
        })
        (record { own = λ _. refl; past = λ f. absurd (ground (arith, f)); greets = refl })

  pub handshake-shut : (r : Ready) → is_handshake r ≡ true → is_shut r ≡ false
  handshake-shut handshake e = refl
  handshake-shut usable e = refl
  handshake-shut shutting e = refl
  handshake-shut shut e = absurd (ground (arith, e))

  handshake-Greets : (r : Ready) (ms : List M) → is_handshake r ≡ true → Greets hello r ms → ms ≡ []
  unfolding Greets
  handshake-Greets handshake ms e h = h
  handshake-Greets usable ms e h = absurd (ground (arith, e))
  handshake-Greets shutting ms e h = absurd (ground (arith, e))
  handshake-Greets shut ms e h = absurd (ground (arith, e))

  shut-past : (r : Ready) → is_shut r ≡ true → is_handshake r ≡ false
  shut-past shut e = refl
  shut-past handshake e = absurd (ground (arith, e))
  shut-past usable e = absurd (ground (arith, e))
  shut-past shutting e = absurd (ground (arith, e))

  -- Only one socket is not closed.
  other-shut :
      (ws : Option ℕ) (b : Bool) (i j : ℕ) (sockets : ℕ → Socket M)
      → SocketsInv ws b sockets
      → is_shut (sockets i).ready ≡ false
      → (j == i) ≡ false
      → is_shut (sockets j).ready ≡ true
  other-shut ws b i j sockets h e n = elim (Bool-cases (is_shut (sockets j).ready)) [
    | inl s ↦ s
    | inr s ↦
        let same = some-injective i j (sym ((h i).own e) ∙ (h j).own s) in
        absurd (ground (arith, n, same))
  ]

  -- The socket opens and is greeted; any other is closed.
  pub greeted-SocketsInv :
      (ws : Option ℕ) (b : Bool) (i : ℕ) (sockets : ℕ → Socket M)
      → SocketsInv ws b sockets
      → is_handshake (sockets i).ready ≡ true
      → let opened = put i (record (sockets i) { ready = usable }) sockets in
        SocketsInv ws true (put i (sent_on hello (opened i)) opened)
  unfolding Greets first_sent
  greeted-SocketsInv ws b i sockets h e =
      put_twice-all (Owned ws true) sockets i (record (sockets i) { ready = usable })
        (sent_on hello)
        (λ j n. record {
          own = (h j).own;
          past = λ _.
              shut-past (sockets j).ready
                (other-shut ws b i j sockets h (handshake-shut (sockets i).ready e) n);
          greets = (h j).greets;
        })
        (record {
          own = λ _. (h i).own (handshake-shut (sockets i).ready e);
          past = λ _. refl;
          greets =
              ap (λ l. first_sent (hello ∷ l))
                (handshake-Greets (sockets i).ready (sockets i).sent e (h i).greets);
        })

  -- A socket gives way to one that is as far.
  pub replaced-SocketsInv :
      (ws : Option ℕ) (b : Bool) (i : ℕ) (t : Socket M) (sockets : ℕ → Socket M)
      → SocketsInv ws b sockets
      → Owned ws b i t
      → SocketsInv ws b (put i t sockets)
  replaced-SocketsInv ws b i t sockets h o = put-all (Owned ws b) sockets i t (λ j e. h j) o

  pub weaker-SocketsInv :
      (ws : Option ℕ) (b : Bool) (sockets : ℕ → Socket M)
      → SocketsInv ws b sockets
      → SocketsInv ws false sockets
  weaker-SocketsInv ws b sockets h j = record {
    own = (h j).own;
    past = λ f. absurd (ground (arith, f));
    greets = (h j).greets;
  }

  usable-shut : (r : Ready) → is_usable r ≡ true → is_shut r ≡ false
  usable-shut usable e = refl
  usable-shut handshake e = refl
  usable-shut shutting e = refl
  usable-shut shut e = absurd (ground (arith, e))

  pub fades-SocketsInv :
      (ws : Option ℕ) (b : Bool) (i : ℕ) (sockets : ℕ → Socket M)
      → SocketsInv ws b sockets
      → is_usable (sockets i).ready ≡ true
      → SocketsInv ws b (put i (record (sockets i) { ready = shutting }) sockets)
  unfolding Greets
  fades-SocketsInv ws b i sockets h e =
      replaced-SocketsInv ws b i (record (sockets i) { ready = shutting }) sockets h
        (record {
          own = λ _. (h i).own (usable-shut (sockets i).ready e);
          past = λ _. refl;
          greets = inr (usable-Greets hello (sockets i).ready (sockets i).sent e (h i).greets);
        })

  closed_down-shut : (r : Ready) → is_shut (closed_down r) ≡ false → is_shut r ≡ false
  closed_down-shut shut e = absurd (ground (arith, e))
  closed_down-shut handshake e = refl
  closed_down-shut usable e = refl
  closed_down-shut shutting e = refl

  pub closed-SocketsInv :
      (ws : Option ℕ) (b : Bool) (i : ℕ) (sockets : ℕ → Socket M)
      → SocketsInv ws b sockets
      → SocketsInv ws false
          (put i (record (sockets i) { ready = closed_down (sockets i).ready }) sockets)
  closed-SocketsInv ws b i sockets h =
      replaced-SocketsInv ws false i (record (sockets i) { ready = closed_down (sockets i).ready })
        sockets (weaker-SocketsInv ws b sockets h)
        (record {
          own = λ e. (h i).own (closed_down-shut (sockets i).ready e);
          past = λ f. absurd (ground (arith, f));
          greets = torn_down-Greets hello (sockets i).ready (sockets i).sent (h i).greets;
        })

  -- The one socket that was left is closed.
  pub ended-SocketsInv :
      (ws : Option ℕ) (b : Bool) (i : ℕ) (sockets : ℕ → Socket M)
      → SocketsInv ws b sockets
      → is_shut (sockets i).ready ≡ false
      → SocketsInv none false (put i (record (sockets i) { ready = shut }) sockets)
  ended-SocketsInv ws b i sockets h e =
      put-all (Owned none false) sockets i (record (sockets i) { ready = shut })
        (λ j n. record {
          own = λ s. absurd (ground (arith, s, other-shut ws b i j sockets h e n));
          past = λ f. absurd (ground (arith, f));
          greets = (h j).greets;
        })
        (record {
          own = λ f. absurd (ground (arith, f));
          past = λ f. absurd (ground (arith, f));
          greets = Greets-shut hello (sockets i).ready (sockets i).sent (h i).greets;
        })
