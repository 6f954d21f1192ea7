-- ===== src/CopilotClient/Invariant.antt =====
-- What holds of the sockets of CanWsClient (frontend/copilot/src/protocol/client.ts), through each of
-- the steps that its operations are made of.
use discodb.Prelude.{
  ℕ, ◌≡◌, ◌⊎◌, inl, inr, refl, sym, subst, ap, Bool, true, false, List, [], ◌∷◌, Option, none, some,
  ◌==◌, Bool-cases, if◌then◌else◌, arith,
}
use discodb.Sockets.{
  put-all, put_twice-all, closed_down-ended, first_sent, Greets, torn_down-Greets, Greets-shut,
  first_sent-more, usable-Greets, Greets-usable, handshake, usable, shutting, shut, Socket,
  is_usable, is_live, is_shut, new_socket, put,
}
use discodb.CopilotClient.Defs.{torn_down, sent_on}

abbrev pub is_ws : Option ℕ → ℕ → Bool
is_ws none j = false
is_ws (some i) j = j == i

module _ {M : Type 0} (hello : M) where
  -- Only the socket of the client has handlers, is not yet closed, or is being opened or open.
  pub record Owned (ws : Option ℕ) (j : ℕ) (s : Socket M) : Type 0 where
    pub own : is_ws ws j ≡ true → (s.has_handlers ≡ true) × (is_shut s.ready ≡ false)
    pub other : is_ws ws j ≡ false → (s.has_handlers ≡ false) × (is_live s.ready ≡ false)
    pub greets : Greets hello s.ready s.sent

  abbrev pub SocketsInv : Option ℕ → (ℕ → Socket M) → Type 0
  SocketsInv ws sockets = (j : ℕ) → Owned ws j (sockets j)

  pub teardown-SocketsInv :
      (i : ℕ) (sockets : ℕ → Socket M)
      → SocketsInv (some i) sockets
      → SocketsInv none (put i (torn_down (sockets i)) sockets)
  teardown-SocketsInv i sockets h =
      put-all (λ j s. Owned none j s) sockets i (torn_down (sockets i))
        (λ j e. record {
          own = λ f. absurd (ground (arith, f));
          other = λ _. (h j).other e;
          greets = (h j).greets;
        })
        (record {
          own = λ f. absurd (ground (arith, f));
          other = λ _. (refl, closed_down-ended (sockets i).ready);
          greets = torn_down-Greets hello (sockets i).ready (sockets i).sent (h i).greets;
        })

  pub made-SocketsInv :
      (n : ℕ) (sockets : ℕ → Socket M)
      → SocketsInv none sockets
      → SocketsInv (some n) (put n new_socket sockets)
  unfolding Greets first_sent
  made-SocketsInv n sockets h =
      put-all (λ j s. Owned (some n) j s) sockets n new_socket
        (λ j e. record {
          own = λ f. absurd (ground (arith, e, f));
          other = λ _. (h j).other refl;
          greets = (h j).greets;
        })
        (record { own = λ _. (refl, refl); other = λ f. absurd (ground (arith, f)); greets = refl })

  sent_on-Owned :
      (m : M) (ws : Option ℕ) (i : ℕ) (s : Socket M) → Owned ws i s → Owned ws i (sent_on m s)
  sent_on-Owned m ws i s o = by_ready (Bool-cases (is_usable s.ready))
    where
      by_ready :
          (is_usable s.ready ≡ true) ⊎ (is_usable s.ready ≡ false)
          → Owned ws i (if is_usable s.ready then record s { sent = m ∷ s.sent } else s)
      by_ready (inr e) =
          subst (λ c. Owned ws i (if c then record s { sent = m ∷ s.sent } else s)) (sym e) o
      by_ready (inl e) =
          subst (λ c. Owned ws i (if c then record s { sent = m ∷ s.sent } else s)) (sym e)
            (record {
              own = o.own;
              other = o.other;
              greets =
                  Greets-usable hello s.ready (m ∷ s.sent) e (
                    first_sent-more hello m s.sent (usable-Greets hello s.ready s.sent e o.greets));
            })

  -- Sending on the socket of the client.
  pub send-SocketsInv :
      (m : M) (ws : Option ℕ) (i : ℕ) (sockets : ℕ → Socket M)
      → SocketsInv ws sockets
      → SocketsInv ws (put i (sent_on m (sockets i)) sockets)
  send-SocketsInv m ws i sockets h =
      put-all (λ j s. Owned ws j s) sockets i (sent_on m (sockets i)) (λ j e. h j)
        (sent_on-Owned m ws i (sockets i) (h i))

  -- A socket that opens is greeted.
  pub greeted-SocketsInv :
      (ws : Option ℕ) (i : ℕ) (sockets : ℕ → Socket M)
      → SocketsInv ws sockets
      → (sockets i).ready ≡ handshake
      → is_ws ws i ≡ true
      → let opened = put i (record (sockets i) { ready = usable }) sockets in
        SocketsInv ws (put i (sent_on hello (opened i)) opened)
  unfolding Greets first_sent
  greeted-SocketsInv ws i sockets h e w =
      put_twice-all (λ j s. Owned ws j s) sockets i (record (sockets i) { ready = usable })
        (sent_on hello) (λ j e. h j)
        (record {
          own = λ _. (((h i).own w).0, refl);
          other = λ f. absurd (ground (arith, w, f));
          greets =
              first (sockets i).sent (subst (λ r. Greets hello r (sockets i).sent) e (h i).greets);
        })
    where
      first : (ms : List M) → ms ≡ [] → first_sent (hello ∷ ms) ≡ some hello
      first ms e = ap (λ l. first_sent (hello ∷ l)) e

  -- The socket of the client is closed and given up.
  pub lost-SocketsInv :
      (i : ℕ) (sockets : ℕ → Socket M)
      → SocketsInv (some i) sockets
      → let ended = put i (record (sockets i) { ready = shut }) sockets in
        SocketsInv none (put i (torn_down (ended i)) ended)
  lost-SocketsInv i sockets h =
      put_twice-all (λ j s. Owned none j s) sockets i (record (sockets i) { ready = shut })
        torn_down
        (λ j e. record {
          own = λ f. absurd (ground (arith, f));
          other = λ _. (h j).other e;
          greets = (h j).greets;
        })
        (record {
          own = λ f. absurd (ground (arith, f));
          other = λ _. (refl, refl);
          greets = Greets-shut hello (sockets i).ready (sockets i).sent (h i).greets;
        })

  -- Another socket is closed.
  pub ended-SocketsInv :
      (ws : Option ℕ) (i : ℕ) (sockets : ℕ → Socket M)
      → SocketsInv ws sockets
      → is_ws ws i ≡ false
      → SocketsInv ws (put i (record (sockets i) { ready = shut }) sockets)
  ended-SocketsInv ws i sockets h w =
      put-all (λ j s. Owned ws j s) sockets i (record (sockets i) { ready = shut }) (λ j e. h j)
        (record {
          own = λ f. absurd (ground (arith, w, f));
          other = λ w. (((h i).other w).0, refl);
          greets = Greets-shut hello (sockets i).ready (sockets i).sent (h i).greets;
        })

  pub fades-SocketsInv :
      (ws : Option ℕ) (i : ℕ) (sockets : ℕ → Socket M)
      → SocketsInv ws sockets
      → is_usable (sockets i).ready ≡ true
      → SocketsInv ws (put i (record (sockets i) { ready = shutting }) sockets)
  unfolding Greets
  fades-SocketsInv ws i sockets h e =
      put-all (λ j s. Owned ws j s) sockets i (record (sockets i) { ready = shutting }) (λ j e. h j)
        (record {
          own = λ w. (((h i).own w).0, refl);
          other = λ w. (((h i).other w).0, refl);
          greets = inr (usable-Greets hello (sockets i).ready (sockets i).sent e (h i).greets);
        })
