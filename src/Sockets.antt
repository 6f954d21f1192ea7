-- ===== src/Sockets.antt =====
-- The sockets that the clients of frontend/cockpit/src/protocol/client.ts and
-- frontend/copilot/src/protocol/client.ts open: what a WebSocket of the browser does to its
-- `readyState`, and its calls to the handlers that the clients set.
use discodb.Prelude.{
  Option, none, some, ◌⊎◌, inl, inr, refl, sym, subst, Bool-cases, if-cases, arith, ℕ, ◌≡◌, Bool,
  true, false, List, [], ◌∷◌, ◌==◌, if◌then◌else◌,
}

-- CONNECTING, OPEN, CLOSING and CLOSED
pub data Ready : Type 0 where
  handshake : Ready
  usable : Ready
  shutting : Ready
  shut : Ready

-- `has_handlers` is false once they are null; `sent` holds what was sent, the last first.
pub record Socket (M : Type 0) : Type 0 where
  pub ready : Ready
  pub has_handlers : Bool
  pub sent : List M

abbrev pub is_usable : Ready → Bool
is_usable usable = true
is_usable _ = false

-- The socket can still deliver a message that was on its way.
abbrev pub is_delivering : Ready → Bool
is_delivering usable = true
is_delivering shutting = true
is_delivering _ = false

-- It is being opened or is open.
abbrev pub is_live : Ready → Bool
is_live handshake = true
is_live usable = true
is_live _ = false

abbrev pub is_handshake : Ready → Bool
is_handshake handshake = true
is_handshake _ = false

abbrev pub is_shut : Ready → Bool
is_shut shut = true
is_shut _ = false

-- `close()`
abbrev pub closed_down : Ready → Ready
closed_down shut = shut
closed_down _ = shutting

abbrev pub new_socket : {M : Type 0} → Socket M
new_socket = record { ready = handshake; has_handlers = true; sent = [] }

abbrev pub no_socket : {M : Type 0} → Socket M
no_socket = record { ready = shut; has_handlers = false; sent = [] }

-- The sockets by the order in which they were made.
abbrev pub put : {A : Type 0} → ℕ → A → (ℕ → A) → ℕ → A
put i s sockets j = if j == i then s else sockets j

-- The message that was sent first.
unfoldable pub first_sent {ℓ} : {M : Type ℓ} → List M → Option M
first_sent [] = none
first_sent (m ∷ []) = some m
first_sent (m ∷ n ∷ ms) = first_sent (n ∷ ms)

module _ {A : Type 0} where
  -- A family is changed at one place.
  pub put-all :
      (P : ℕ → A → Type 0) (sockets : ℕ → A) (i : ℕ) (t : A)
      → ((j : ℕ) → (j == i) ≡ false → P j (sockets j))
      → P i t
      → (j : ℕ) → P j (put i t sockets j)
  put-all P sockets i t h p j = by_place (Bool-cases (j == i))
    where
      by_place : ((j == i) ≡ true) ⊎ ((j == i) ≡ false) → P j (if j == i then t else sockets j)
      by_place (inl e) =
          subst (λ c. P j (if c then t else sockets j)) (sym e)
            (subst (λ n. P n t) (ground (arith, e)) p)
      by_place (inr e) = subst (λ c. P j (if c then t else sockets j)) (sym e) (h j e)

  -- A family is changed twice at one place.
  pub put_twice-all :
      (P : ℕ → A → Type 0) (sockets : ℕ → A) (i : ℕ) (t : A) (g : A → A)
      → ((j : ℕ) → (j == i) ≡ false → P j (sockets j))
      → P i (g t)
      → (j : ℕ) → P j (put i (g (put i t sockets i)) (put i t sockets) j)
  put_twice-all P sockets i t g h p =
      put-all P (put i t sockets) i (g (put i t sockets i))
        (λ j e. subst (λ c. P j (if c then t else sockets j)) (sym e) (h j e))
        (subst (λ c. P i (g (if c then t else sockets i))) (sym same) p)
    where
      same : (i == i) ≡ true
      same = ground arith

  pub put-same : (i : ℕ) (t : A) (s : ℕ → A) → put i t s i ≡ t
  put-same i t s = if-cases (λ x. x ≡ t) (i == i) (λ _. refl) (λ f. absurd (ground (arith, f)))

  pub put-other : (i j : ℕ) (t : A) (s : ℕ → A) → (j == i) ≡ false → put i t s j ≡ s j
  put-other i j t s e =
      if-cases (λ x. x ≡ s j) (j == i) (λ f. absurd (ground (arith, e, f))) (λ _. refl)

pub closed_down-ended : (r : Ready) → is_live (closed_down r) ≡ false
closed_down-ended handshake = refl
closed_down-ended usable = refl
closed_down-ended shutting = refl
closed_down-ended shut = refl

module _ {M : Type 0} (hello : M) where
  -- Nothing is sent before the socket is open, and the first thing sent is the greeting.
  unfoldable pub Greets : Ready → List M → Type 0
  unfolding first_sent
  Greets handshake ms = ms ≡ []
  Greets usable ms = first_sent ms ≡ some hello
  Greets _ ms = (ms ≡ []) ⊎ (first_sent ms ≡ some hello)

  pub torn_down-Greets : (r : Ready) (ms : List M) → Greets r ms → Greets (closed_down r) ms
  unfolding Greets first_sent
  torn_down-Greets handshake ms h = inl h
  torn_down-Greets usable ms h = inr h
  torn_down-Greets shutting ms h = h
  torn_down-Greets shut ms h = h

  pub Greets-first :
      (r : Ready) (ms : List M) → Greets r ms → (ms ≡ []) ⊎ (first_sent ms ≡ some hello)
  unfolding Greets first_sent
  Greets-first handshake ms h = inl h
  Greets-first usable ms h = inr h
  Greets-first shutting ms h = h
  Greets-first shut ms h = h

  pub Greets-shut : (r : Ready) (ms : List M) → Greets r ms → Greets shut ms
  unfolding Greets first_sent
  Greets-shut handshake ms h = inl h
  Greets-shut usable ms h = inr h
  Greets-shut shutting ms h = h
  Greets-shut shut ms h = h

  pub first_sent-more :
      (m : M) (ms : List M) → first_sent ms ≡ some hello → first_sent (m ∷ ms) ≡ some hello
  unfolding first_sent
  first_sent-more m [] h = absurd (ground (arith, h))
  first_sent-more m (n ∷ ms) h = h

  pub usable-Greets :
      (r : Ready) (ms : List M) → is_usable r ≡ true → Greets r ms → first_sent ms ≡ some hello
  unfolding Greets
  usable-Greets usable ms e h = h
  usable-Greets handshake ms e h = absurd (ground (arith, e))
  usable-Greets shutting ms e h = absurd (ground (arith, e))
  usable-Greets shut ms e h = absurd (ground (arith, e))

  pub Greets-usable :
      (r : Ready) (ms : List M) → is_usable r ≡ true → first_sent ms ≡ some hello → Greets r ms
  unfolding Greets
  Greets-usable usable ms e h = h
  Greets-usable handshake ms e h = absurd (ground (arith, e))
  Greets-usable shutting ms e h = absurd (ground (arith, e))
  Greets-usable shut ms e h = absurd (ground (arith, e))
