-- ===== src/CockpitClient/Tests.antt =====
-- Witnesses and tests for the client of the cockpit (frontend/cockpit/src/protocol/client.ts).
use discodb.Prelude.{ℕ, ◌+◌, ◌≡◌, ◌⊎◌, inl, refl, true, false, [], ◌∷◌, none, some}
use discodb.Sockets.{is_live, is_shut, first_sent}
use discodb.CockpitClient.Defs.{
  is_open, ClientOptions, Client, new_client, connect, disconnect, open_socket, send, on_open,
}
use discodb.CockpitClient.Events.{
  connects, disconnects, sends, opened, ended, reconnects, react, Allowed, Reachable, begins,
  goes_on,
}
use discodb.CockpitClient.Reach.{Sends, only_socket, connect-orphans}

-- A message is a number, and the greeting is 7.
abbrev settings : ClientOptions ℕ
settings = record {
  hello = 7;
  auto_reconnect = true;
  reconnect_delay_ms = 500;
  max_reconnect_delay_ms = 8000;
}

abbrev attached : Client ℕ
unfolding react
attached = react settings (opened 0) (react settings (connects true) (new_client settings))

attached-Reachable : Reachable settings attached
unfolding attached Allowed new_client
attached-Reachable = goes_on (goes_on begins (connects true) (inl refl)) (opened 0) tt

abbrev leaving : Client ℕ
unfolding react attached
leaving = react settings disconnects attached

leaving-Reachable : Reachable settings leaving
unfolding leaving attached Allowed new_client
leaving-Reachable =
    goes_on (goes_on (goes_on begins (connects true) (inl refl)) (opened 0) tt) disconnects tt

welcomed : ((attached.sockets 0).sent ≡ 7 ∷ []) × (is_open attached.state ≡ true)
unfolding attached react new_client connect open_socket on_open send
welcomed = (refl, refl)

only_socket_example :
    ((j : ℕ) → is_shut (attached.sockets j).ready ≡ false → attached.ws ≡ some j)
    × (attached.throws ≡ 0)
    × (is_open attached.state ≡ true
        → (m : ℕ) → Sends attached (react settings (sends m) attached) m)
    × ((j : ℕ) → ((attached.sockets j).sent ≡ []) ⊎ (first_sent (attached.sockets j).sent ≡ some 7))
only_socket_example = only_socket settings attached-Reachable

connect-orphans_example :
    let d =
      react settings
        (opened leaving.made)
        (react settings (ended 0) (react settings (connects true) leaving)) in
    let e = react settings (reconnects true) d in
    (is_open d.state ≡ true)
    × (d.ws ≡ none)
    × ((m : ℕ) → (react settings (sends m) d).refused ≡ m ∷ d.refused)
    × (is_live (e.sockets leaving.made).ready ≡ true)
    × (is_live (e.sockets (leaving.made + 1)).ready ≡ true)
unfolding leaving attached react new_client connect disconnect open_socket on_open send
connect-orphans_example = connect-orphans settings 0 leaving-Reachable refl refl refl refl
