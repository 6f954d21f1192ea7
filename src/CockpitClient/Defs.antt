-- ===== src/CockpitClient/Defs.antt =====
-- The lifecycle of ProtocolClient in frontend/cockpit/src/protocol/client.ts. The handlers of the
-- caller are outside, and so is what they do with a message.
use discodb.Prelude.{
  ℕ, ◌+◌, ◌*◌, Bool, true, false, not, ◌&&◌, ◌||◌, List, [], ◌∷◌, Option, none, some, min,
  if◌then◌else◌,
}
use discodb.Sockets.{Socket, is_usable, is_handshake, closed_down, new_socket, no_socket, put}

pub data ConnectionState : Type 0 where
  idle : ConnectionState
  connecting : ConnectionState
  open_ : ConnectionState
  closing : ConnectionState
  closed : ConnectionState
  error : ConnectionState

abbrev pub is_open : ConnectionState → Bool
is_open open_ = true
is_open _ = false

-- `_state === 'open' || _state === 'connecting'`
abbrev pub is_settled : ConnectionState → Bool
is_settled open_ = true
is_settled connecting = true
is_settled _ = false

-- The options, the defaults filled in. A message is any JSON object.
pub record ClientOptions (M : Type 0) : Type 0 where
  pub hello : M
  pub auto_reconnect : Bool
  pub reconnect_delay_ms : ℕ
  pub max_reconnect_delay_ms : ℕ

-- The fields of the client, and the sockets it has made. A timer is there while it is pending: with
-- its delay, in ms. `refused` holds the messages that `onError` was told of, and `throws` counts the
-- sends that threw, the socket not being open yet.
pub record Client (M : Type 0) : Type 0 where
  pub ws : Option ℕ
  pub state : ConnectionState
  pub reconnect_timer : Option ℕ
  pub current_delay : ℕ
  pub intentional_close : Bool
  pub made : ℕ
  pub sockets : ℕ → Socket M
  pub refused : List M
  pub throws : ℕ

abbrev pub is_here : Option ℕ → Bool
is_here none = false
is_here (some i) = true

module _ {M : Type 0} where
  abbrev pub set_state : ConnectionState → Client M → Client M
  set_state s c = record c { state = s }

  abbrev pub clear_reconnect : Client M → Client M
  clear_reconnect c = record c { reconnect_timer = none }

  abbrev pub sent_on : M → Socket M → Socket M
  sent_on m s = if is_usable s.ready then record s { sent = m ∷ s.sent } else s

  -- `ws.send`, which throws on a socket that is not open yet.
  abbrev pub ws_send : ℕ → M → Client M → Client M
  ws_send i m c = record c {
    sockets = put i (sent_on m (c.sockets i)) c.sockets;
    throws = if is_handshake (c.sockets i).ready then c.throws + 1 else c.throws;
  }

  abbrev pub send_on : Option ℕ → M → Client M → Client M
  send_on none m c = record c { refused = m ∷ c.refused }
  send_on (some i) m c =
      if is_open c.state then ws_send i m c else record c { refused = m ∷ c.refused }

  unfoldable pub send : M → Client M → Client M
  send m c = send_on c.ws m c

  abbrev pub relay_on : Option ℕ → M → Client M → Client M
  relay_on none m c = c
  relay_on (some i) m c = if is_open c.state then ws_send i m c else c

  -- `sendWizard` and `sendLogbook`
  unfoldable pub relay : M → Client M → Client M
  relay m c = relay_on c.ws m c

  abbrev pub close_ws : Option ℕ → Client M → Client M
  close_ws none c = set_state closed c
  close_ws (some i) c =
      let s = c.sockets i in
      record (set_state closing c) {
        sockets = put i (record s { ready = closed_down s.ready }) c.sockets;
      }

  unfoldable pub disconnect : Client M → Client M
  disconnect c = close_ws c.ws (clear_reconnect (record c { intentional_close = true }))

  unfoldable pub on_error : Client M → Client M
  on_error c = set_state error c

module _ {M : Type 0} (opts : ClientOptions M) where
  unfoldable pub new_client : Client M
  new_client = record {
    ws = none;
    state = idle;
    reconnect_timer = none;
    current_delay = opts.reconnect_delay_ms;
    intentional_close = false;
    made = 0;
    sockets = λ i. no_socket;
    refused = [];
    throws = 0;
  }

  unfoldable pub schedule_reconnect : Client M → Client M
  schedule_reconnect c =
      if not opts.auto_reconnect || c.intentional_close then c else record (clear_reconnect c) {
        reconnect_timer = some c.current_delay;
        current_delay = min (c.current_delay * 2) opts.max_reconnect_delay_ms;
      }

  -- `constructs` is whether the constructor of the socket returns.
  unfoldable pub open_socket : Bool → Client M → Client M
  unfolding schedule_reconnect
  open_socket constructs c =
      if constructs
      then record (set_state connecting c) {
        ws = some c.made;
        made = c.made + 1;
        sockets = put c.made new_socket c.sockets;
      }
      else schedule_reconnect (set_state error (set_state connecting c))

  unfoldable pub connect : Bool → Client M → Client M
  unfolding open_socket
  connect constructs c =
      if is_here c.ws && is_settled c.state
      then c
      else open_socket constructs (clear_reconnect (record c { intentional_close = false }))

  unfoldable pub on_open : Client M → Client M
  unfolding send
  on_open c =
      send opts.hello (set_state open_ (record c { current_delay = opts.reconnect_delay_ms }))

  unfoldable pub on_close : Client M → Client M
  unfolding schedule_reconnect
  on_close c =
      let c' = record c { ws = none } in
      if c'.intentional_close then set_state closed c' else schedule_reconnect (set_state closed c')
