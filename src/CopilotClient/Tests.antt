-- ===== src/CopilotClient/Tests.antt =====
-- Witnesses and tests for the client of the copilot (frontend/copilot/src/protocol/client.ts).
use discodb.Prelude.{ℕ, ◌≤◌, ◌≡◌, ◌⊎◌, refl, true, false, [], ◌∷◌, none, some, if◌then◌else◌, arith}
use discodb.Sockets.{is_live, is_shut, first_sent}
use discodb.CopilotClient.Defs.{
  closed, reconnecting, open_, ClientOptions, Client, Chance, new_client, connect, close,
  open_socket, schedule_reconnect, teardown_socket, send, on_open, on_close, auto_started,
}
use discodb.CopilotClient.Events.{
  Event, connects, closes, sends, opened, ended, reconnects, react, Reachable, begins, goes_on,
}
use discodb.CopilotClient.Steps.{is_some}
use discodb.CopilotClient.Reach.{one_socket, keeps_trying, stays_closed}

-- A message is a number, and the greeting is 7.
abbrev options : ClientOptions ℕ
options = record {
  hello = 7;
  auto_start = some 8;
  min_backoff_ms = 500;
  max_backoff_ms = 8000;
  stall_timeout_ms = 6000;
}

abbrev luck : Chance
luck = record { now = 1000; constructs = true; jitter = λ b. b }

abbrev step : Event ℕ → Client ℕ → Client ℕ
unfolding react
step e c = react options e luck c

abbrev connected : Client ℕ
unfolding step
connected = step (sends 9) (step (opened 0) (step connects (new_client options)))

connected-Reachable : Reachable options connected
unfolding step connected
connected-Reachable =
    goes_on (goes_on (goes_on begins connects luck) (opened 0) luck) (sends 9) luck

abbrev closed_again : Client ℕ
unfolding step connected
closed_again = step closes connected

closed_again-Reachable : Reachable options closed_again
unfolding step connected closed_again
closed_again-Reachable =
    goes_on (goes_on (goes_on (goes_on begins connects luck) (opened 0) luck) (sends 9) luck) closes
      luck

greeted : ((connected.sockets 0).sent ≡ 9 ∷ 8 ∷ 7 ∷ []) × (connected.state ≡ open_)
unfolding connected step react new_client connect open_socket teardown_socket on_open send
    auto_started
greeted = (refl, refl)

-- The socket ends: the client waits 500 ms, and the next time 1000.
lost_again :
    let c = step (ended 0) connected in
    (c.reconnect_timer ≡ some 500) × (c.backoff ≡ 1000) × (c.state ≡ reconnecting) × (c.ws ≡ none)
unfolding connected step react new_client connect open_socket teardown_socket on_open send
    auto_started on_close schedule_reconnect
lost_again = (refl, refl, refl, refl)

one_socket_example :
    (((is_live (connected.sockets 0).ready ≡ true) ⊎ ((connected.sockets 0).has_handlers ≡ true))
      → connected.ws ≡ some 0)
    × (((connected.sockets 0).sent ≡ []) ⊎ (first_sent (connected.sockets 0).sent ≡ some 7))
one_socket_example = one_socket options (omega arith) connected-Reachable 0

keeps_trying_example :
    ((500 ≤ connected.backoff) × (connected.backoff ≤ 8000))
    × (((i : ℕ) × (connected.ws ≡ some i)
          × ((connected.sockets i).has_handlers ≡ true)
          × (is_shut (connected.sockets i).ready ≡ false))
        ⊎ ((k : Chance)
            → let d = react options reconnects k connected in
              is_some (if k.constructs then d.ws else d.reconnect_timer) ≡ true))
unfolding connected step react new_client connect open_socket teardown_socket on_open send
    auto_started
keeps_trying_example = keeps_trying options (omega arith) connected-Reachable refl refl

stays_closed_example :
    (closed_again.state ≡ closed)
    × (closed_again.ws ≡ none)
    × ((j : ℕ)
        → ((closed_again.sockets j).has_handlers ≡ false)
          × (is_live (closed_again.sockets j).ready ≡ false))
    × ((e : Event ℕ) (k : Chance)
        → ¬ (e ≡ connects)
        → let d = react options e k closed_again in
          (d.manual_close ≡ true) × (d.made ≡ closed_again.made))
unfolding closed_again connected step react new_client connect open_socket teardown_socket on_open
    send auto_started close
stays_closed_example = stays_closed options (omega arith) closed_again-Reachable refl
