-- ===== src/Stream/Receive/LostTail.antt =====
-- StreamControl::postRecvFile when a timeout comes before the last block has arrived: the numbers
-- above the highest are appended to the deque and `recv_max_seq` is not raised.
use file_transfer_cmd.Prelude.{
  Bool, List, [], arith, false, ltb, none, refl, replicate, some, suc, true, ℕ, ◌+◌, ◌-◌, ◌<◌, ◌^◌,
  ◌||◌, ◌∙◌, ◌∷◌, ◌≡◌,
}
use file_transfer_cmd.Prelude.Int.{beq_ℤ, pos}
use file_transfer_cmd.Prelude.Words.{sub32}
use file_transfer_cmd.Stream.Receive.{
  Receiver, RecvItem, copy_missing, drain, fill, missing_from, receive, receive_all, skip_ahead,
  store,
}
use file_transfer_cmd.Stream.Receive.Loop.{receive_file-asks, receive_file-done, receive_file-quiet}
use file_transfer_cmd.Stream.Receive.Round.{
  completed, finish_round, finished, first_request, idle, next_request, receive_file, request,
  request_words, respond, round, running, take_completed, with_tail, write_request,
}

-- All blocks up to `k` have arrived in order, of `k + 3`.
abbrev pub in_order : ℕ → Receiver
in_order k = record {
  recv_num = k + 1;
  expect_seq = k + 1;
  recv_max_seq = pos k;
  unrecv = [];
  start_restran = false;
  first_restran = true;
  restran_space = [];
  restran_size = 1;
}

abbrev entry : ℕ → Bool → RecvItem
entry i b = record { seq = i; recved = b }

abbrev after_timeout : ℕ → Receiver
after_timeout k = record (in_order k) {
  unrecv = entry (k + 1) false ∷ entry (k + 2) false ∷ [];
  first_restran = false;
  restran_space = 2 ∷ (k + 1) ∷ (k + 2) ∷ [];
  restran_size = 3;
}

abbrev after_last : ℕ → Receiver
after_last k = record (after_timeout k) {
  recv_num = k + 2;
  recv_max_seq = pos (k + 2);
  unrecv =
      entry (k + 1) false ∷ entry (k + 2) false ∷ entry (k + 1) false ∷ entry (k + 2) true ∷ [];
}

abbrev after_second : ℕ → Receiver
after_second k = record (after_last k) {
  restran_space = 1 ∷ (k + 1) ∷ (k + 2) ∷ [];
  restran_size = 2;
}

abbrev pub unfinished : ℕ → Receiver
unfinished k = record (after_second k) {
  recv_num = k + 3;
  expect_seq = k + 2;
  unrecv = entry (k + 2) false ∷ entry (k + 1) false ∷ entry (k + 2) true ∷ [];
}

module _ (k : ℕ) (small : k < 2 ^ 30) where
  with_tail-two :
      with_tail (k + 3) (record (in_order k) { start_restran = true })
      ≡ entry (k + 1) false ∷ entry (k + 2) false ∷ []
  unfolding with_tail missing_from
  with_tail-two =
      let less : ltb k (sub32 (k + 3) 1) ≡ true = ground arith in
      let two : k + 3 - suc k ≡ 2 = omega arith in rw less (rw two (ground arith))

  write_two :
      (q : List RecvItem)
      → q ≡ entry (k + 1) false ∷ entry (k + 2) false ∷ []
      → (m : ℕ) → m ≡ 2
      → write_request m q (replicate (request_words m) 0) ≡ some (2 ∷ (k + 1) ∷ (k + 2) ∷ [])
  unfolding write_request store copy_missing request_words
  write_two q e m two = rw (e, two) refl

  request-first :
      request (k + 3) (record (in_order k) { start_restran = true })
      ≡ some (record (after_timeout k) { start_restran = true })
  unfolding request first_request request_words
  request-first =
      let two : sub32 (k + 3) (k + 1) ≡ 2 = omega arith in
      let some_flag : (beq_ℤ (pos k) (pos (sub32 (k + 3) 1)) || true) ≡ true = ground arith in
      rw some_flag (
        rw
          (
            write_two (with_tail (k + 3) (record (in_order k) { start_restran = true }))
                with_tail-two (sub32 (k + 3) (k + 1)) two,
            first_request,
          )
          (rw (with_tail-two, two) refl))

  first_timeout :
      round true (k + 3) (idle true) true (in_order k)
      ≡ running (after_timeout k) (some (2 ∷ (k + 1) ∷ (k + 2) ∷ []))
  unfolding round finish_round respond
  first_timeout = rw (request-first, respond) refl

  last_arrives :
      round true (k + 3) (completed ((k + 2) ∷ [])) true (after_timeout k)
      ≡ running (after_last k) none
  unfolding round finish_round respond request take_completed receive_all receive skip_ahead
      missing_from
  last_arrives = ground arith

  write_one :
      (m : ℕ)
      → m ≡ 1
      → write_request m (after_last k).unrecv (after_last k).restran_space
        ≡ some (1 ∷ (k + 1) ∷ (k + 2) ∷ [])
  unfolding write_request store copy_missing request_words
  write_one m one = rw one refl

  request-second :
      request (k + 3) (record (after_last k) { start_restran = true })
      ≡ some (record (after_second k) { start_restran = true })
  unfolding request next_request request_words
  request-second =
      let one : sub32 (k + 3) (k + 2) ≡ 1 = omega arith in
      rw (write_one (sub32 (k + 3) (k + 2)) one, next_request) (rw one refl)

  second_timeout :
      round true (k + 3) (idle true) true (after_last k)
      ≡ running (after_second k) (some (1 ∷ (k + 1) ∷ []))
  unfolding round finish_round respond
  second_timeout = rw (request-second, respond) refl

  first_arrives :
      round true (k + 3) (completed ((k + 1) ∷ [])) true (after_second k)
      ≡ running (unfinished k) none
  unfolding round finish_round respond request take_completed receive_all receive fill drain
  first_arrives = ground arith

-- Of `k + 3` blocks all up to `k` have arrived in order when a timeout comes. Both blocks that are
-- missing are requested, the first of them is lost again, and is requested after a second timeout.
-- When it has arrived, all the blocks are there and the loop ends, but no request for zero blocks
-- has been sent, and the deque still lists blocks as missing.
pub lost_tail_untold :
    (k : ℕ)
    → k < 2 ^ 30
    → receive_file true
        (k + 3)
        ((idle true, true)
          ∷ (completed ((k + 2) ∷ []), true)
          ∷ (idle true, true)
          ∷ (completed ((k + 1) ∷ []), true)
          ∷ [])
        (in_order k)
        []
      ≡ finished (unfinished k) ((2 ∷ (k + 1) ∷ (k + 2) ∷ []) ∷ (1 ∷ (k + 1) ∷ []) ∷ [])
lost_tail_untold k small =
    receive_file-asks (k + 3) (idle true) true _ (in_order k) (after_timeout k) _ [] (ground arith)
      (first_timeout k small)
    ∙ receive_file-quiet (k + 3) (completed ((k + 2) ∷ [])) true _ (after_timeout k) (after_last k)
        _ (ground arith) (last_arrives k small)
    ∙ receive_file-asks (k + 3) (idle true) true _ (after_last k) (after_second k) _ _
        (ground arith) (second_timeout k small)
    ∙ receive_file-quiet (k + 3) (completed ((k + 1) ∷ [])) true [] (after_second k) (unfinished k)
        _ (ground arith) (first_arrives k small)
    ∙ receive_file-done (k + 3) [] (unfinished k) _ (ground arith)
