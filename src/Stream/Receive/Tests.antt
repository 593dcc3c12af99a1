-- ===== src/Stream/Receive/Tests.antt =====
-- Runs of the receiver on small inputs, and the theorems on them.
use file_transfer_cmd.Prelude.{
  Bool, List, [], arith, false, refl, some, take, true, ℕ, ◌++◌, ◌+◌, ◌<◌, ◌==◌, ◌||◌, ◌∷◌, ◌≡◌,
}
use file_transfer_cmd.Prelude.Int.{pos}
use file_transfer_cmd.Prelude.Words.{sub32}
use file_transfer_cmd.Stream.Receive.{
  Receiver, copy_missing, drain, fill, init, mark_late, missing_from, receive, receive_all,
  skip_ahead, store,
}
use file_transfer_cmd.Stream.Receive.Delivery.{receive_file-Sound, receive_file_ends}
use file_transfer_cmd.Stream.Receive.Loop.{AllTimely, Sound, arrived}
use file_transfer_cmd.Stream.Receive.LostTail.{in_order, lost_tail_untold, unfinished}
use file_transfer_cmd.Stream.Receive.Phase.{SameRequest, insert_all, receive_all-Tracks}
use file_transfer_cmd.Stream.Receive.Report.{first_request_lem, next_request_lem}
use file_transfer_cmd.Stream.Receive.Round.{
  Poll, broken, completed, fault, finish_round, finished, first_request, idle, next_request,
  receive_file, request, request_words, respond, round, take_completed, with_tail, write_request,
}
use file_transfer_cmd.Stream.Receive.SendLoop.{
  bytes_from, interrupted, send_loop, send_loop_lem, taking, through,
}
use file_transfer_cmd.Stream.Receive.Tracks.{Tracks, init-Tracks}

abbrev nothing : ℕ → Bool
nothing j = false

-- Block 1 is lost, requested after block 2, and comes again.
abbrev lossy : List (Poll × Bool)
lossy =
    (completed (0 ∷ []), true)
    ∷ (idle false, true)
    ∷ (completed (2 ∷ []), true)
    ∷ (idle true, true)
    ∷ (completed (1 ∷ []), true)
    ∷ []

lossy-run :
    receive_file true 3 lossy init []
    ≡ finished
        (record {
          recv_num = 3;
          expect_seq = 3;
          recv_max_seq = pos 2;
          unrecv = [];
          start_restran = false;
          first_restran = false;
          restran_space = 0 ∷ 1 ∷ [];
          restran_size = 1;
        })
        ((1 ∷ 1 ∷ []) ∷ (1 ∷ 1 ∷ []) ∷ (0 ∷ []) ∷ [])
unfolding receive_file round take_completed receive_all receive finish_round respond request
    first_request write_request store copy_missing request_words with_tail missing_from next_request
    fill drain mark_late skip_ahead
lossy-run = refl

lossy-timely : AllTimely 3 nothing lossy
lossy-timely = (
  refl,
  (omega arith, tt),
  (
    refl,
    (λ h. ground arith),
    (refl, (omega arith, tt), (refl, (λ h. refl), (refl, (omega arith, tt), tt))),
  ),
)

lossy-all : (j : ℕ) → j < 3 → arrived lossy nothing j ≡ true
lossy-all j h = ground arith

receive_file-Sound_example : Sound 3 (arrived lossy nothing) (receive_file true 3 lossy init [])
receive_file-Sound_example = receive_file-Sound 3 lossy (omega arith) (omega arith) lossy-timely

receive_file_ends_example :
    (r : Receiver) × (before : List (List ℕ)) × (receive_file true 3 lossy init []
      ≡ finished r (before ++ (0 ∷ []) ∷ []))
    × (r.recv_num ≡ 3)
receive_file_ends_example =
    receive_file_ends 3 lossy (omega arith) (omega arith) lossy-timely lossy-all

receive_all-Tracks_example :
    (r : Receiver) × (receive_all (2 ∷ 0 ∷ 2 ∷ []) init ≡ some r)
    × Tracks 4 (insert_all (2 ∷ 0 ∷ 2 ∷ []) nothing) r
    × SameRequest init r
receive_all-Tracks_example =
    receive_all-Tracks 4 nothing init (2 ∷ 0 ∷ 2 ∷ []) (omega arith) (init-Tracks 4)
      (omega arith, (omega arith, (omega arith, tt)))

-- Of four blocks 0 and 2 are there.
abbrev two_of_four : Receiver
two_of_four = record {
  recv_num = 2;
  expect_seq = 1;
  recv_max_seq = pos 2;
  unrecv = record { seq = 1; recved = false } ∷ record { seq = 2; recved = true } ∷ [];
  start_restran = true;
  first_restran = true;
  restran_space = [];
  restran_size = 1;
}

abbrev zero_and_two : ℕ → Bool
zero_and_two j = j == 0 || j == 2

two_of_four-Tracks : Tracks 4 zero_and_two two_of_four
two_of_four-Tracks = record {
  covers = (refl, refl, (refl, refl, tt));
  reach = refl;
  below = λ j h. ground arith;
  front = λ h. refl;
  beyond = λ j h. ground arith;
  top = λ m h. ground arith;
  within = omega arith;
  counted = refl;
}

first_request_lem_example :
    (after : List ℕ) × (first_request 4 two_of_four
      ≡ some (record two_of_four {
        unrecv = with_tail 4 two_of_four;
        first_restran = false;
        start_restran = true;
        restran_space = 2 ∷ 1 ∷ 3 ∷ after;
        restran_size = sub32 4 2 + 1;
      }))
    × (take (sub32 4 2 + 1) (2 ∷ 1 ∷ 3 ∷ after) ≡ 2 ∷ 1 ∷ 3 ∷ [])
first_request_lem_example =
    first_request_lem 4 zero_and_two two_of_four two_of_four-Tracks (omega arith) (omega arith)
      (omega arith)

-- The same with four blocks there at the top and one missing.
abbrev one_missing : Receiver
one_missing = record {
  recv_num = 2;
  expect_seq = 1;
  recv_max_seq = pos 2;
  unrecv = record { seq = 1; recved = false } ∷ record { seq = 2; recved = true } ∷ [];
  start_restran = true;
  first_restran = false;
  restran_space = 2 ∷ 1 ∷ 0 ∷ [];
  restran_size = 3;
}

one_missing-Tracks : Tracks 3 zero_and_two one_missing
one_missing-Tracks = record {
  covers = (refl, refl, (refl, refl, tt));
  reach = refl;
  below = λ j h. ground arith;
  front = λ h. refl;
  beyond = λ j h. ground arith;
  top = λ m h. ground arith;
  within = omega arith;
  counted = refl;
}

next_request_lem_example :
    (after : List ℕ) × (next_request 3 one_missing
      ≡ some (record one_missing {
        start_restran = true;
        restran_space = 1 ∷ 1 ∷ after;
        restran_size = sub32 3 2 + 1;
      }))
    × (take (sub32 3 2 + 1) (1 ∷ 1 ∷ after) ≡ 1 ∷ 1 ∷ [])
next_request_lem_example =
    next_request_lem 3 zero_and_two one_missing one_missing-Tracks (omega arith) (omega arith) refl
      (omega arith)

-- The last two blocks are lost, both are requested after a timeout, and then the first of them is
-- lost again: in the end all three blocks are there, and no request for zero blocks has been sent.
abbrev lost_tail : List (Poll × Bool)
lost_tail =
    (completed (0 ∷ []), true)
    ∷ (idle true, true)
    ∷ (completed (2 ∷ []), true)
    ∷ (idle true, true)
    ∷ (completed (1 ∷ []), true)
    ∷ []

lost_tail-run :
    receive_file true 3 lost_tail init []
    ≡ finished
        (record {
          recv_num = 3;
          expect_seq = 2;
          recv_max_seq = pos 2;
          unrecv =
              record { seq = 2; recved = false }
              ∷ record { seq = 1; recved = false }
              ∷ record { seq = 2; recved = true }
              ∷ [];
          start_restran = false;
          first_restran = false;
          restran_space = 1 ∷ 1 ∷ 2 ∷ [];
          restran_size = 2;
        })
        ((2 ∷ 1 ∷ 2 ∷ []) ∷ (1 ∷ 1 ∷ []) ∷ [])
unfolding receive_file round take_completed receive_all receive finish_round respond request
    first_request write_request store copy_missing request_words with_tail missing_from next_request
    fill drain mark_late skip_ahead
lost_tail-run = refl

lost_tail_untold_example :
    receive_file true 4
      ((idle true, true)
        ∷ (completed (3 ∷ []), true)
        ∷ (idle true, true)
        ∷ (completed (2 ∷ []), true)
        ∷ [])
      (in_order 1)
      []
    ≡ finished (unfinished 1) ((2 ∷ 2 ∷ 3 ∷ []) ∷ (1 ∷ 2 ∷ []) ∷ [])
lost_tail_untold_example = lost_tail_untold 1 (omega arith)

-- A request of two words that goes out in pieces of three, four and one bytes.
send_loop_lem_example :
    (send_loop 8 (taking (2 ∷ 3 ∷ 0 ∷ [])) 0 [] ≡ through (bytes_from 0 8))
    × (send_loop 8 (interrupted ∷ taking (2 ∷ 3 ∷ 0 ∷ [])) 0 [] ≡ through [])
send_loop_lem_example = send_loop_lem 8 (2 ∷ 3 ∷ 0 ∷ []) (omega arith) (omega arith) (omega arith)

-- A timeout comes after block 0 of four, and the other blocks are entered as missing. They are entered
-- once more when block 3 arrives, and with blocks 2 and 3 an assert fails.
abbrev early_timeout : List (Poll × Bool)
early_timeout =
    (completed (0 ∷ []), true)
    ∷ (idle true, true)
    ∷ (completed (3 ∷ []), true)
    ∷ (completed (1 ∷ []), true)
    ∷ (completed (2 ∷ 3 ∷ []), true)
    ∷ []

early_timeout-run :
    receive_file true 4 early_timeout init [] ≡ broken fault ((3 ∷ 1 ∷ 2 ∷ 3 ∷ []) ∷ [])
unfolding receive_file round take_completed receive_all receive finish_round respond request
    first_request write_request store copy_missing request_words with_tail missing_from next_request
    fill drain skip_ahead mark_late
early_timeout-run = refl
