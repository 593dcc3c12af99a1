-- ===== src/Stream/Send/Tests.antt =====
-- Runs of the sender on small inputs, and the theorems on them.
use file_transfer_cmd.Prelude.{
  All, List, [], ap, arith, false, length, refl, sym, true, ℕ, ◌*◌, ◌<◌, ◌^◌, ◌∙◌, ◌∷◌, ◌≡◌,
}
use file_transfer_cmd.Stream.Send.{
  Control, Sender, WorkPoll, World, asked, begin_restran, complete, complete_all, done, end_round,
  fill_space, must_wait, next_block, post, push, reap, running, send_file, send_round, serve,
  silent, start, try_send,
}
use file_transfer_cmd.Stream.Send.Flight.{Accounts, start-Accounts}
use file_transfer_cmd.Stream.Send.Order.{first_pass}
use file_transfer_cmd.Stream.Send.Requests.{IsWhole}
use file_transfer_cmd.Stream.Send.Rounds.{Settled, send_round-Settled}
use file_transfer_cmd.Stream.Send.Sequence.{InOrder}
use file_transfer_cmd.Stream.Send.Whole.{SentInOrder, send_file-ordered}
use mathlib.Core.List.{nil≢cons}

-- A round that posts one block, with these polls.
abbrev quick : Control → List WorkPoll → World
quick c ps = record { control = c; idle_rate = false; due = true; posted = true; polls = ps }

-- Three blocks of 4 bytes in two buffers; then blocks 2 and 0 are asked for again.
abbrev blocks : List World
blocks =
    quick silent (done 0 ∷ [])
    ∷ quick silent (done 1 ∷ [])
    ∷ quick silent (done 2 ∷ [])
    ∷ quick (asked 2 (2 ∷ 0 ∷ [])) (done 1 ∷ [])
    ∷ quick silent (done 1 ∷ [])
    ∷ []

abbrev end_state : Sender
end_state = record {
  bytes_left = 0;
  ack_bytes = 20;
  outstanding = 0;
  sendcnt = 5;
  i = 5;
  bytes_payload = 4;
  uncomplete = [];
  mem = 0 ∷ 2 ∷ [];
  current = 1;
  restran_num = 2;
  restraned_num = 2;
  start_restran = false;
  first_restran = false;
  restran_space = 2 ∷ 0 ∷ [];
  sent = 0 ∷ 1 ∷ 2 ∷ 2 ∷ 0 ∷ [];
}

blocks-run : send_file true 4 2 blocks (start 4 12 (9 ∷ 9 ∷ [])) ≡ running end_state
unfolding send_file send_round serve try_send post push next_block reap complete_all complete
    must_wait end_round begin_restran fill_space start
blocks-run = refl

asked-IsWhole :
    (k : ℕ) (words : List ℕ)
    → asked 2 (2 ∷ 0 ∷ []) ≡ asked k words
    → (length words ≡ k) × (k < 2 ^ 30) × (k * 4 < 2 ^ 64)
asked-IsWhole k words e =
    let size : 2 ≡ k = cc in
    let list : 2 ∷ 0 ∷ [] ≡ words = cc in (ap length (sym list) ∙ size, omega arith, omega arith)

blocks-IsWhole : All (IsWhole 4) blocks
blocks-IsWhole = (
  (λ k words e. ground arith),
  (
    (λ k words e. ground arith),
    ((λ k words e. ground arith), (asked-IsWhole, ((λ k words e. ground arith), tt))),
  ),
)

send_file-ordered_example :
    SentInOrder 4 3 (first_pass 3) blocks (send_file true 4 2 blocks (start 4 12 (9 ∷ 9 ∷ [])))
send_file-ordered_example =
    send_file-ordered 4 2 3 (9 ∷ 9 ∷ []) blocks (omega arith) (omega arith) (omega arith)
      (omega arith) (omega arith) refl blocks-IsWhole

end-InOrder : InOrder 4 3 (0 ∷ 1 ∷ 2 ∷ 2 ∷ 0 ∷ []) end_state
end-InOrder = record {
  todo = [];
  queue = record {
    left = refl;
    fits = omega arith;
    front = λ x xs e. absurd (nil≢cons e);
    plain = λ e. refl;
    again = λ e. ground arith;
  };
  together = refl;
}

send_round-Settled_example :
    Settled 4 2
      (send_round true 4 2 (quick silent (done 0 ∷ done 0 ∷ [])) (start 4 12 (9 ∷ 9 ∷ [])))
send_round-Settled_example =
    send_round-Settled 4 2 (omega arith) (omega arith) true (quick silent (done 0 ∷ done 0 ∷ [])) 0
      (start 4 12 (9 ∷ 9 ∷ [])) (omega arith) (start-Accounts 4 2 12 (9 ∷ 9 ∷ []) refl)

-- Two blocks posted into three buffers, the second in flight.
abbrev flying_one : Sender
flying_one = record {
  bytes_left = 4;
  ack_bytes = 4;
  outstanding = 1;
  sendcnt = 2;
  i = 2;
  bytes_payload = 4;
  uncomplete = 4 ∷ [];
  mem = 0 ∷ 1 ∷ 2 ∷ [];
  current = 2;
  restran_num = 0;
  restraned_num = 0;
  start_restran = false;
  first_restran = true;
  restran_space = [];
  sent = 0 ∷ 1 ∷ [];
}

flying_one-Accounts : Accounts 4 3 1 flying_one
flying_one-Accounts = record {
  flying = refl;
  few = omega arith;
  posted = omega arith;
  buffers = refl;
  here = omega arith;
  payload = refl;
  counted = refl;
  bytes = omega arith;
  logged = refl;
}
