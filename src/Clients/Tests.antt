-- ===== src/Clients/Tests.antt =====
-- Runs of the client table, and the theorems on them.
use file_transfer_cmd.Prelude.{List, [], arith, none, refl, ◌∷◌, ◌≡◌}
use file_transfer_cmd.Clients.{
  Event, add_client, closing, connected, get_client_info, get_client_num, on_event, remove_client,
  removing, run_events,
}
use file_transfer_cmd.Clients.Bound.{IsServed, reused_socket, run_events-IsServed}

abbrev events : List Event
events = connected 5 1 ∷ connected 6 2 ∷ connected 7 3 ∷ closing 5 ∷ removing 5 ∷ []

events-run : run_events 2 events [] ≡ record { fd = 6; ip = 2 } ∷ []
unfolding run_events on_event add_client remove_client get_client_num
events-run = refl

run_events-IsServed_example : IsServed 2 (run_events 2 events [])
run_events-IsServed_example =
    run_events-IsServed 2 events [] (record { unique = tt; bound = omega arith })

reused_socket_example :
    get_client_info 5 (
      run_events 4
        (connected 5 1 ∷ closing 5 ∷ connected 5 9 ∷ removing 5 ∷ [])
        (record { fd = 6; ip = 2 } ∷ []))
    ≡ none
reused_socket_example = reused_socket 4 5 1 9 (record { fd = 6; ip = 2 } ∷ []) (omega arith) refl
