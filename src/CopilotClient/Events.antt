-- ===== src/CopilotClient/Events.antt =====
-- The histories of CanWsClient (frontend/copilot/src/protocol/client.ts): the calls of the application
-- and the callbacks of the browser, in any order.
use discodb.Prelude.{ℕ, Bool, ◌&&◌, Option, none, some, if◌then◌else◌}
use discodb.Sockets.{
  Ready, usable, shutting, shut, is_usable, is_delivering, is_handshake, is_shut, put,
}
use discodb.CopilotClient.Defs.{
  ClientOptions, Client, Chance, new_client, connect, close, send, open_socket, on_open, on_message,
  on_close, on_visibility_change, on_resume, on_stall_check,
}

pub data Event (M : Type 0) : Type 0 where
  -- `connect()`, `close()` and `send(msg)`
  connects : Event M
  closes : Event M
  sends : M → Event M
  -- Socket `i` opens, delivers a message, starts to be closed by the other side, is closed.
  opened : (i : ℕ) → Event M
  delivers : (i : ℕ) → Event M
  fades : (i : ℕ) → Event M
  ended : (i : ℕ) → Event M
  -- The timer of the reconnection fires.
  reconnects : Event M
  -- The page becomes visible or hidden; it is shown or the network is back; the watchdog's second.
  visibility : (visible : Bool) → Event M
  resumes : Event M
  second : (visible : Bool) → Event M

module _ {M : Type 0} (opts : ClientOptions M) where
  abbrev pub with_ready : ℕ → Ready → Client M → Client M
  with_ready i r c = record c { sockets = put i (record (c.sockets i) { ready = r }) c.sockets }

  unfoldable pub fire : Option ℕ → Chance → Client M → Client M
  unfolding open_socket
  fire none k c = c
  fire (some delay) k c = open_socket opts k (record c { reconnect_timer = none })

  -- An event that cannot happen leaves the client as it is.
  unfoldable pub react : Event M → Chance → Client M → Client M
  unfolding connect close send on_open on_message on_close on_visibility_change on_resume
      on_stall_check open_socket fire
  react connects k c = connect opts k c
  react closes k c = close opts c
  react (sends m) k c = send m c
  react (opened i) k c =
      if is_handshake (c.sockets i).ready
      then (if (c.sockets i).has_handlers
          then on_open opts k (with_ready i usable c)
          else with_ready i usable c)
      else c
  react (delivers i) k c =
      if is_delivering (c.sockets i).ready && (c.sockets i).has_handlers
      then on_message opts k c
      else c
  react (fades i) k c = if is_usable (c.sockets i).ready then with_ready i shutting c else c
  react (ended i) k c =
      if is_shut (c.sockets i).ready
      then c
      else if (c.sockets i).has_handlers
      then on_close opts k (with_ready i shut c)
      else with_ready i shut c
  react reconnects k c = fire c.reconnect_timer k c
  react (visibility visible) k c = if c.listens then on_visibility_change opts visible k c else c
  react resumes k c = if c.listens then on_resume opts k c else c
  react (second visible) k c = if c.stall_timer then on_stall_check opts visible k c else c

  pub data Reachable : Client M → Type 0 where
    begins : Reachable (new_client opts)
    goes_on : {c : Client M} → Reachable c → (e : Event M) (k : Chance) → Reachable (react e k c)
