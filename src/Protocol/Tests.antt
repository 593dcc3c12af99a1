-- ===== src/Protocol/Tests.antt =====
-- A transfer of two blocks of which the first is lost once.
use file_transfer_cmd.Prelude.{
  List, Option, [], arith, false, refl, some, true, ℕ, ◌++◌, ◌<◌, ◌↔◌, ◌∷◌, ◌≡◌,
}
use file_transfer_cmd.Prelude.Int.{pos}
use file_transfer_cmd.Protocol.{
  Reach, Step, System, and_then, ask, at_opening, opening, send_on, take_up,
}
use file_transfer_cmd.Protocol.End.{Transfer, end_is_told, end_means_complete, receiver_goes_on}
use file_transfer_cmd.Protocol.Overlap.{begin_restran_iff}
use file_transfer_cmd.Stream.Receive.{
  Receiver, copy_missing, drain, fill, missing_from, receive, receive_all, skip_ahead, store,
}
use file_transfer_cmd.Stream.Receive.Loop.{after_poll}
use file_transfer_cmd.Stream.Receive.Round.{
  completed, finish_round, first_request, idle, next_request, request, request_words, respond,
  round, running, take_completed, with_tail, write_request,
}
use file_transfer_cmd.Stream.Send.{
  Control, SendRound, Sender, World, asked, begin_restran, complete, complete_all, done, end_round,
  fill_space, must_wait, next_block, post, push, reap, send_round, serve, silent, start, try_send,
}

abbrev quick : Control → World
quick c = record { control = c; idle_rate = false; due = true; posted = true; polls = done 1 ∷ [] }

abbrev both_free : Transfer 1 2 2 (7 ∷ 7 ∷ [])
both_free = record {
  some_block = omega arith;
  some_buf = omega arith;
  few_bufs = omega arith;
  some_blocks = omega arith;
  few_blocks = omega arith;
  fits = omega arith;
  buffers = refl;
}

abbrev one_sent : Sender
one_sent = record {
  bytes_left = 1;
  ack_bytes = 1;
  outstanding = 0;
  sendcnt = 1;
  i = 1;
  bytes_payload = 1;
  uncomplete = [];
  mem = 0 ∷ 1 ∷ [];
  current = 1;
  restran_num = 0;
  restraned_num = 0;
  start_restran = false;
  first_restran = true;
  restran_space = [];
  sent = 0 ∷ [];
}

abbrev two_sent : Sender
two_sent = record {
  bytes_left = 0;
  ack_bytes = 2;
  outstanding = 0;
  sendcnt = 2;
  i = 2;
  bytes_payload = 1;
  uncomplete = [];
  mem = 2 ∷ 1 ∷ [];
  current = 0;
  restran_num = 0;
  restraned_num = 0;
  start_restran = false;
  first_restran = true;
  restran_space = [];
  sent = 0 ∷ 1 ∷ [];
}

abbrev three_sent : Sender
three_sent = record {
  bytes_left = 0;
  ack_bytes = 3;
  outstanding = 0;
  sendcnt = 3;
  i = 3;
  bytes_payload = 1;
  uncomplete = [];
  mem = 0 ∷ 1 ∷ [];
  current = 1;
  restran_num = 1;
  restraned_num = 1;
  start_restran = false;
  first_restran = false;
  restran_space = 0 ∷ [];
  sent = 0 ∷ 1 ∷ 0 ∷ [];
}

abbrev one_missing : Receiver
one_missing = record {
  recv_num = 1;
  expect_seq = 0;
  recv_max_seq = pos 1;
  unrecv = record { seq = 0; recved = false } ∷ record { seq = 1; recved = true } ∷ [];
  start_restran = false;
  first_restran = false;
  restran_space = 1 ∷ 0 ∷ [];
  restran_size = 2;
}

abbrev none_missing : Receiver
none_missing = record {
  recv_num = 2;
  expect_seq = 2;
  recv_max_seq = pos 1;
  unrecv = [];
  start_restran = false;
  first_restran = false;
  restran_space = 0 ∷ 0 ∷ [];
  restran_size = 1;
}

abbrev at_start : System
at_start = opening 1 2 (7 ∷ 7 ∷ [])

abbrev asked_once : System
asked_once = record {
  sender = two_sent;
  receiver = one_missing;
  got = after_poll (completed (1 ∷ [])) (λ _. false);
  pending = (1 ∷ 0 ∷ []) ∷ [];
}

abbrev all_in : System
all_in = record {
  sender = three_sent;
  receiver = none_missing;
  got = after_poll (completed (0 ∷ [])) asked_once.got;
  pending = (0 ∷ []) ∷ [];
}

posted_twice : Reach 1 2 2 at_start (record at_start { sender = two_sent })
unfolding send_round serve try_send post push next_block reap complete_all complete must_wait
    end_round start
posted_twice =
    and_then (and_then at_opening (send_on at_start (quick silent) one_sent refl refl))
      (send_on (record at_start { sender = one_sent }) (quick silent) two_sent refl refl)

last_arrives : Step 1 2 2 (record at_start { sender = two_sent }) asked_once
unfolding round take_completed receive_all receive finish_round respond request first_request
    write_request store copy_missing request_words with_tail missing_from skip_ahead
last_arrives =
    ask (record at_start { sender = two_sent }) (completed (1 ∷ [])) one_missing (1 ∷ 0 ∷ [])
      (omega arith) ((1, refl), tt) refl

repeated : Step 1 2 2 asked_once (record asked_once { sender = three_sent; pending = [] })
unfolding send_round serve try_send post push next_block reap complete_all complete must_wait
    end_round begin_restran fill_space
repeated = take_up asked_once (quick (asked 1 (0 ∷ []))) three_sent 1 (0 ∷ []) [] refl refl refl

first_arrives : Step 1 2 2 (record asked_once { sender = three_sent; pending = [] }) all_in
unfolding round take_completed receive_all receive finish_round respond request next_request
    write_request store copy_missing request_words fill drain
first_arrives =
    ask (record asked_once { sender = three_sent; pending = [] }) (completed (0 ∷ [])) none_missing
      (0 ∷ []) (omega arith) ((0, refl), tt) refl

all_in-reached : Reach 1 2 2 at_start all_in
all_in-reached = and_then (and_then (and_then posted_twice last_arrives) repeated) first_arrives

receiver_goes_on_example :
    (r : Receiver) × (m : Option (List ℕ)) × (round true 2 (idle true) true asked_once.receiver
      ≡ running r m)
receiver_goes_on_example =
    receiver_goes_on 1 2 2 (7 ∷ 7 ∷ []) both_free (idle true) (and_then posted_twice last_arrives)
      (λ e. refl)

all_in-stops :
    send_round true 1 2 (quick (asked 0 [])) all_in.sender ≡ SendRound.stopped all_in.sender
unfolding send_round serve
all_in-stops = refl

end_means_complete_example :
    ((j : ℕ) → j < 2 → all_in.got j ≡ true) × (all_in.receiver.recv_num ≡ 2)
end_means_complete_example =
    end_means_complete 1 2 2 (7 ∷ 7 ∷ []) both_free 0 [] [] (quick (asked 0 [])) three_sent
      all_in-reached refl refl refl all_in-stops

end_is_told_example : (before : List (List ℕ)) × (all_in.pending ≡ before ++ (0 ∷ []) ∷ [])
end_is_told_example = end_is_told 1 2 2 (7 ∷ 7 ∷ []) both_free all_in-reached (omega arith)

begin_restran_iff_example :
    (two_sent.bytes_left ≡ 0) ↔ ((s : Sender) × (begin_restran 1 1 (0 ∷ []) two_sent ≡ some s))
begin_restran_iff_example =
    begin_restran_iff 1 2 2 (7 ∷ 7 ∷ []) both_free 0 (0 ∷ []) []
      (and_then posted_twice last_arrives) refl
