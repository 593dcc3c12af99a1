-- ===== src/Clients/Bound.antt =====
-- ClientList and the server: the table holds each socket once and at most `max_threads` of them.
use file_transfer_cmd.Prelude.{
  Bool-cases, List, Option-cases, [], arith, inl, inr, leb, length, none, refl, ℕ, ◌+◌, ◌<◌, ◌==◌,
  ◌∷◌, ◌≡◌, ◌≤◌,
}
use file_transfer_cmd.Clients.{
  Clients, Event, add_client, closing, connected, find_client, get_client_info, get_client_num,
  on_event, refused, remove_client, removing, run_events,
}

abbrev pub Absent : ℕ → Clients → Type 0
Absent fd cs = find_client fd cs ≡ none

abbrev pub IsUnique : Clients → Type 0
IsUnique [] = Unit {0}
IsUnique (c ∷ cs) = Absent c.fd cs × IsUnique cs

pub record IsServed (max_threads : ℕ) (cs : Clients) : Type 0 where
  pub unique : IsUnique cs
  pub bound : length cs ≤ max_threads

remove_client-Absent : (fd k : ℕ) (cs : Clients) → Absent k cs → Absent k (remove_client fd cs)
unfolding remove_client
remove_client-Absent fd k [] h = refl
remove_client-Absent fd k (c ∷ cs) h = ground (arith, remove_client-Absent fd k cs)

remove_client-IsUnique : (fd : ℕ) (cs : Clients) → IsUnique cs → IsUnique (remove_client fd cs)
unfolding remove_client
remove_client-IsUnique fd [] u = tt
remove_client-IsUnique fd (c ∷ cs) (a, u) = elim (Bool-cases (c.fd == fd)) [
  | inl same ↦ rw same u
  | inr other ↦ rw other (remove_client-Absent fd c.fd cs a, remove_client-IsUnique fd cs u)
]

remove_client-length : (fd : ℕ) (cs : Clients) → length (remove_client fd cs) ≤ length cs
unfolding remove_client
remove_client-length fd [] = omega arith
remove_client-length fd (c ∷ cs) = ground (arith, remove_client-length fd cs)

add_client-IsServed :
    (max_threads fd ip : ℕ) (cs : Clients)
    → length cs < max_threads
    → IsServed max_threads cs
    → IsServed max_threads (add_client fd ip cs)
unfolding add_client
add_client-IsServed max_threads fd ip cs h s = elim (Option-cases (find_client fd cs)) [
  | inl new ↦
      rw (new, add_client) (record { unique = (new, s.unique); bound = omega (arith, s.bound) })
  | inr (z, present) ↦ rw (present, add_client) s
]

on_event-IsServed :
    (max_threads : ℕ) (e : Event) (cs : Clients)
    → IsServed max_threads cs
    → IsServed max_threads (on_event max_threads e cs).1
unfolding on_event get_client_num
on_event-IsServed max_threads refused cs s = s
on_event-IsServed max_threads (connected fd ip) cs s =
    elim (Bool-cases (leb max_threads (length cs))) [
      | inl full ↦ rw full s
      | inr room ↦ rw room (add_client-IsServed max_threads fd ip cs (ground arith) s)
    ]
on_event-IsServed max_threads (closing fd) cs s = s
on_event-IsServed max_threads (removing fd) cs s = record {
  unique = remove_client-IsUnique fd cs s.unique;
  bound = omega (arith, s.bound, remove_client-length fd cs);
}

-- Whatever connects and ends, in any order, the table holds each socket once and never more clients
-- than the configured number of threads.
pub run_events-IsServed :
    (max_threads : ℕ) (es : List Event) (cs : Clients)
    → IsServed max_threads cs
    → IsServed max_threads (run_events max_threads es cs)
unfolding run_events
run_events-IsServed max_threads [] cs s = s
run_events-IsServed max_threads (e ∷ es) cs s =
    run_events-IsServed max_threads es (on_event max_threads e cs).1
      (on_event-IsServed max_threads e cs s)

-- A thread closes its socket before it removes its client. If the same number is accepted in
-- between, the new client is not entered, the old entry is removed, and the new thread finds no
-- client: its assert fails.
pub reused_socket :
    (max_threads fd ip ip' : ℕ) (cs : Clients)
    → length cs + 1 < max_threads
    → Absent fd cs
    → get_client_info fd (
        run_events max_threads
          (connected fd ip ∷ closing fd ∷ connected fd ip' ∷ removing fd ∷ [])
          cs)
      ≡ none
unfolding run_events on_event add_client remove_client get_client_info get_client_num
reused_socket max_threads fd ip ip' cs h a = ground arith
