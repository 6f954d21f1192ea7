-- ===== src/CockpitClient/Events.antt =====
-- The histories of ProtocolClient (frontend/cockpit/src/protocol/client.ts): the calls of the
-- application and the callbacks of the browser, in any order.
use discodb.Prelude.{ℕ, ◌≡◌, ◌⊎◌, Bool, true, false, Option, none, some, if◌then◌else◌}
use discodb.Sockets.{Ready, usable, shutting, shut, is_usable, is_handshake, is_shut, put}
use discodb.CockpitClient.Defs.{
  ClientOptions, Client, is_settled, is_here, new_client, connect, disconnect, send, relay,
  open_socket, on_open, on_error, on_close,
}

pub data Event (M : Type 0) : Type 0 where
  -- `connect()`, `disconnect()`, a command, and a relay of the Wizard or the Logbook
  connects : (constructs : Bool) → Event M
  disconnects : Event M
  sends : M → Event M
  relays : M → Event M
  -- Socket `i` opens, starts to be closed by the other side, fails, is closed.
  opened : (i : ℕ) → Event M
  fades : (i : ℕ) → Event M
  fails : (i : ℕ) → Event M
  ended : (i : ℕ) → Event M
  -- The timer of the reconnection fires.
  reconnects : (constructs : Bool) → Event M

module _ {M : Type 0} (opts : ClientOptions M) where
  abbrev pub with_ready : ℕ → Ready → Client M → Client M
  with_ready i r c = record c { sockets = put i (record (c.sockets i) { ready = r }) c.sockets }

  unfoldable pub fire : Option ℕ → Bool → Client M → Client M
  unfolding open_socket
  fire none constructs c = c
  fire (some delay) constructs c = open_socket opts constructs (record c { reconnect_timer = none })

  -- An event that cannot happen leaves the client as it is.
  unfoldable pub react : Event M → Client M → Client M
  unfolding connect disconnect send relay on_open on_error on_close fire
  react (connects constructs) c = connect opts constructs c
  react disconnects c = disconnect c
  react (sends m) c = send m c
  react (relays m) c = relay m c
  react (opened i) c =
      if is_handshake (c.sockets i).ready then on_open opts (with_ready i usable c) else c
  react (fades i) c = if is_usable (c.sockets i).ready then with_ready i shutting c else c
  react (fails i) c = if is_shut (c.sockets i).ready then c else on_error c
  react (ended i) c = if is_shut (c.sockets i).ready then c else on_close opts (with_ready i shut c)
  react (reconnects constructs) c = fire c.reconnect_timer constructs c

  -- `connect` is called while there is no socket, or while the state is connecting or open: the
  -- states closing and error are left out while the socket is there.
  unfoldable pub Allowed : Event M → Client M → Type 0
  Allowed (connects constructs) c = (is_here c.ws ≡ false) ⊎ (is_settled c.state ≡ true)
  Allowed _ c = Unit

  -- The histories in which `connect` is not called over a socket that is closing or has failed.
  pub data Reachable : Client M → Type 0 where
    begins : Reachable (new_client opts)
    goes_on : {c : Client M} → Reachable c → (e : Event M) → Allowed e c → Reachable (react e c)
