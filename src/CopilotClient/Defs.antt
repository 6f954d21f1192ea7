-- ===== src/CopilotClient/Defs.antt =====
-- The lifecycle of CanWsClient in frontend/copilot/src/protocol/client.ts. The handlers of the caller
-- are outside, and so is what they do with a message.
use discodb.Prelude.{
  ℕ, ◌+◌, ◌*◌, Bool, true, false, not, ◌∷◌, Option, none, some, ltb, min, if◌then◌else◌,
}
use discodb.Sockets.{Socket, is_usable, closed_down, new_socket, no_socket, put}

pub data ConnState : Type 0 where
  idle : ConnState
  connecting : ConnState
  open_ : ConnState
  reconnecting : ConnState
  closed : ConnState

abbrev pub is_open_state : ConnState → Bool
is_open_state open_ = true
is_open_state _ = false

-- The options, the defaults filled in. A message is any JSON object.
pub record ClientOptions (M : Type 0) : Type 0 where
  pub hello : M
  pub auto_start : Option M
  pub min_backoff_ms : ℕ
  pub max_backoff_ms : ℕ
  pub stall_timeout_ms : ℕ

-- The fields of the client, and the sockets it has made. A timer is there while it is pending: with
-- its delay, in ms.
pub record Client (M : Type 0) : Type 0 where
  pub ws : Option ℕ
  pub state : ConnState
  pub backoff : ℕ
  pub reconnect_timer : Option ℕ
  pub stall_timer : Bool
  pub listens : Bool
  pub last_msg_at : ℕ
  pub manual_close : Bool
  pub made : ℕ
  pub sockets : ℕ → Socket M

-- What a call meets: the time, whether the constructor of a socket returns, and the jitter of a delay.
pub record Chance : Type 0 where
  pub now : ℕ
  pub constructs : Bool
  pub jitter : ℕ → ℕ

module _ {M : Type 0} where
  abbrev pub set_state : ConnState → Client M → Client M
  set_state s c = record c { state = s }

  -- What teardownSocket does to the socket: no handler is left, and it is closed.
  abbrev pub torn_down : Socket M → Socket M
  torn_down s = record s { ready = closed_down s.ready; has_handlers = false }

  abbrev pub teardown_ws : Option ℕ → Client M → Client M
  teardown_ws none c = c
  teardown_ws (some i) c = record c {
    ws = none;
    sockets = put i (torn_down (c.sockets i)) c.sockets;
  }

  unfoldable pub teardown_socket : Client M → Client M
  teardown_socket c = teardown_ws c.ws c

  abbrev pub sent_on : M → Socket M → Socket M
  sent_on m s = if is_usable s.ready then record s { sent = m ∷ s.sent } else s

  abbrev pub send_on : Option ℕ → M → Client M → Client M
  send_on none m c = c
  send_on (some i) m c = record c { sockets = put i (sent_on m (c.sockets i)) c.sockets }

  -- `send`, whose result is `is_open`.
  unfoldable pub send : M → Client M → Client M
  send m c = send_on c.ws m c

  abbrev pub ready_of : Client M → Option ℕ → Bool
  ready_of c none = false
  ready_of c (some i) = is_usable (c.sockets i).ready

  unfoldable pub is_open : Client M → Bool
  is_open c = ready_of c c.ws

  abbrev pub clear_reconnect : Client M → Client M
  clear_reconnect c = record c { reconnect_timer = none }

module _ {M : Type 0} (opts : ClientOptions M) where
  unfoldable pub new_client : Client M
  new_client = record {
    ws = none;
    state = idle;
    backoff = opts.min_backoff_ms;
    reconnect_timer = none;
    stall_timer = false;
    listens = false;
    last_msg_at = 0;
    manual_close = false;
    made = 0;
    sockets = λ i. no_socket;
  }

  unfoldable pub schedule_reconnect : Chance → Client M → Client M
  unfolding teardown_socket
  schedule_reconnect k c =
      if c.manual_close
      then c
      else record (clear_reconnect (set_state reconnecting (teardown_socket c))) {
        reconnect_timer = some (k.jitter c.backoff);
        backoff = min (c.backoff * 2) opts.max_backoff_ms;
      }

  abbrev pub opening_state : Client M → ConnState
  opening_state c = if ltb opts.min_backoff_ms c.backoff then reconnecting else connecting

  unfoldable pub open_socket : Chance → Client M → Client M
  unfolding teardown_socket schedule_reconnect
  open_socket k c =
      let c' = set_state (opening_state c) (teardown_socket c) in
      if k.constructs
      then record c' {
        ws = some c'.made;
        made = c'.made + 1;
        sockets = put c'.made new_socket c'.sockets;
      }
      else schedule_reconnect k c'

  unfoldable pub force_reconnect : Chance → Client M → Client M
  unfolding open_socket
  force_reconnect k c =
      if c.manual_close
      then c
      else open_socket k (clear_reconnect (record c { backoff = opts.min_backoff_ms }))

  -- `connect`; addEventListener adds a listener once.
  unfoldable pub connect : Chance → Client M → Client M
  unfolding open_socket
  connect k c =
      open_socket k (record c { manual_close = false; listens = true; stall_timer = true })

  unfoldable pub close : Client M → Client M
  unfolding teardown_socket
  close c = set_state closed (
      teardown_socket (record (clear_reconnect (record c { manual_close = true })) {
        stall_timer = false;
        listens = false;
      }))

  unfoldable pub auto_started : Option M → Client M → Client M
  unfolding send
  auto_started none c = c
  auto_started (some m) c = send m c

  unfoldable pub on_open : Chance → Client M → Client M
  unfolding send auto_started
  on_open k c = auto_started opts.auto_start (
      send opts.hello
        (set_state open_ (record c { last_msg_at = k.now; backoff = opts.min_backoff_ms })))

  unfoldable pub on_message : Chance → Client M → Client M
  on_message k c = record c { last_msg_at = k.now }

  unfoldable pub on_close : Chance → Client M → Client M
  unfolding schedule_reconnect
  on_close k c = if c.manual_close then c else schedule_reconnect k c

  unfoldable pub on_visibility_change : Bool → Chance → Client M → Client M
  unfolding force_reconnect is_open
  on_visibility_change visible k c =
      if visible
      then (if not (is_open c)
          then force_reconnect k c
          else if ltb (c.last_msg_at + opts.stall_timeout_ms) k.now
          then force_reconnect k c
          else c)
      else c

  -- `onPageShow` and `onOnline`
  unfoldable pub on_resume : Chance → Client M → Client M
  unfolding force_reconnect is_open
  on_resume k c = if not (is_open c) then force_reconnect k c else c

  -- The callback of the stall watchdog.
  unfoldable pub on_stall_check : Bool → Chance → Client M → Client M
  unfolding force_reconnect
  on_stall_check visible k c =
      if c.manual_close
      then c
      else if not visible
      then c
      else if not (is_open_state c.state)
      then c
      else if ltb (c.last_msg_at + opts.stall_timeout_ms) k.now
      then force_reconnect k c
      else c
