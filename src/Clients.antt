-- ===== src/Clients.antt =====
-- ClientList (ClientInfo.h) and the accept loop of the server (server.cpp), with the end of each
-- connection's thread (recvData in StreamControl.cpp). The mutex makes each operation one step.
pub mod Bound
mod Tests
use file_transfer_cmd.Prelude.{
  Bool, List, Option, [], false, if◌then◌else◌, leb, length, none, some, true, ℕ, ◌==◌, ◌∷◌,
}

-- `clientInfos`: each socket with the peer's address.
pub record Client : Type 0 where
  pub fd : ℕ
  pub ip : ℕ

abbrev pub Clients : Type 0
Clients = List Client

abbrev pub find_client : ℕ → Clients → Option ℕ
find_client fd [] = none
find_client fd (c ∷ cs) = if c.fd == fd then some c.ip else find_client fd cs

-- `emplace`: a key that is there stays.
pub add_client : ℕ → ℕ → Clients → Clients
add_client fd ip cs = elim (find_client fd cs) [
  | none ↦ record { fd = fd; ip = ip } ∷ cs
  | some old ↦ cs
]

pub remove_client : ℕ → Clients → Clients
remove_client fd [] = []
remove_client fd (c ∷ cs) = if c.fd == fd then cs else c ∷ remove_client fd cs

pub get_client_num : Clients → ℕ
get_client_num cs = length cs

-- `none` is the failed assert.
pub get_client_info : ℕ → Clients → Option ℕ
get_client_info fd cs = find_client fd cs

-- What happens at the server: accept fails or gives a socket; a thread ends, first closing its
-- socket and then removing its client.
pub data Event : Type 0 where
  refused : Event
  connected : ℕ → ℕ → Event
  closing removing : ℕ → Event

-- One event: whether a thread was started, and the table.
pub on_event : ℕ → Event → Clients → Bool × Clients
on_event max_threads refused cs = (false, cs)
on_event max_threads (connected fd ip) cs =
    if leb max_threads (get_client_num cs) then (false, cs) else (true, add_client fd ip cs)
on_event max_threads (closing fd) cs = (false, cs)
on_event max_threads (removing fd) cs = (false, remove_client fd cs)

pub run_events : ℕ → List Event → Clients → Clients
run_events max_threads [] cs = cs
run_events max_threads (e ∷ es) cs = run_events max_threads es (on_event max_threads e cs).1
