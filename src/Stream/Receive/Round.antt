-- ===== src/Stream/Receive/Round.antt =====
-- StreamControl::postRecvFile: one round of the receiving loop, and the loop over the polls.
-- What the connection does is given: the result of each poll of the completion queue, and whether
-- the loop that sends the request gets through with all of it. A `send` that a signal interrupts,
-- after which the program goes on with a request that is not whole, is only in SendLoop.
use file_transfer_cmd.Prelude.{
  Bool, List, Option, [], false, if◌then◌else◌, length, ltb, none, replicate, some, take, true, ℕ,
  ◌%◌, ◌&&◌, ◌++◌, ◌+◌, ◌-◌, ◌==◌, ◌^◌, ◌||◌, ◌∷◌,
}
use file_transfer_cmd.Prelude.Int.{beq_ℤ, ltb_ℤ, pos, suc_ℤ}
use file_transfer_cmd.Prelude.Words.{sub32}
use file_transfer_cmd.Stream.Receive.{
  Receiver, RecvItem, copy_missing, missing_from, receive_all, store,
}

-- `idle true` is a poll with no completion more than a second after the last one.
pub data Poll : Type 0 where
  failed : Poll
  idle : Bool → Poll
  completed : List ℕ → Poll

-- `fault` is a failed assert or an access out of range; `closed` and `lost` are the returns -1
-- and -2; `running` has the request that the round sent.
pub data Round : Type 0 where
  fault closed lost : Round
  running : Receiver → Option (List ℕ) → Round

-- `restran_size` in words: the uint32_t count of bytes, (unrecv_num + 1) * 4, wraps.
unfoldable pub request_words : ℕ → ℕ
request_words unrecv_num = (unrecv_num + 1) % 2 ^ 30

-- The words of a request: `unrecv_num` in front, then the unreceived numbers of the deque.
unfoldable pub write_request : ℕ → List RecvItem → List ℕ → Option (List ℕ)
write_request unrecv_num q space = elim (store space 0 unrecv_num) [
  | none ↦ none
  | some space' ↦ copy_missing q 1 (request_words unrecv_num) space'
]

-- The deque before the first request: the numbers above `recv_max_seq` are entered as missing.
unfoldable pub with_tail : ℕ → Receiver → List RecvItem
with_tail n r =
    if ltb_ℤ r.recv_max_seq (pos (sub32 n 1))
    then r.unrecv ++ missing_from (suc_ℤ r.recv_max_seq) (n - suc_ℤ r.recv_max_seq)
    else r.unrecv

-- The first request allocates the buffer. What a new word holds before it is written is not
-- specified; here it is 0.
unfoldable pub first_request : ℕ → Receiver → Option Receiver
first_request n r =
    let unrecv_num = sub32 n r.recv_num in
    let q = with_tail n r in
    elim (write_request unrecv_num q (replicate (request_words unrecv_num) 0)) [
      | none ↦ none
      | some space ↦ some (record r {
        unrecv = q;
        first_restran = false;
        start_restran = true;
        restran_space = space;
        restran_size = request_words unrecv_num;
      })
    ]

-- A later request uses the buffer again.
unfoldable pub next_request : ℕ → Receiver → Option Receiver
next_request n r =
    let unrecv_num = sub32 n r.recv_num in
    elim (write_request unrecv_num r.unrecv r.restran_space) [
      | none ↦ none
      | some space ↦ some (record r {
        start_restran = true;
        restran_space = space;
        restran_size = request_words unrecv_num;
      })
    ]

unfoldable pub request : ℕ → Receiver → Option Receiver
request n r =
    if r.first_restran && (beq_ℤ r.recv_max_seq (pos (sub32 n 1)) || r.start_restran)
    then first_request n r
    else if r.start_restran || r.expect_seq == n
    then next_request n r
    else some r

-- The request goes out when `start_restran` is set.
unfoldable pub respond : ℕ → Bool → Receiver → Round
respond n sent r = elim (request n r) [
  | none ↦ fault
  | some r' ↦
      if r'.start_restran
      then (if sent
          then running (record r' { start_restran = false })
              (some (take r'.restran_size r'.restran_space))
          else lost)
      else running r' none
]

unfoldable pub finish_round : Bool → ℕ → Bool → Receiver → Round
finish_round use_message n sent r = if use_message then respond n sent r else running r none

-- Without messages (the DCQCN mode) every completion counts.
unfoldable pub take_completed : Bool → List ℕ → Receiver → Option Receiver
take_completed use_message ids r =
    if use_message
    then receive_all ids r
    else some (record r { recv_num = r.recv_num + length ids })

unfoldable pub round : Bool → ℕ → Poll → Bool → Receiver → Round
round use_message n failed sent r = closed
round use_message n (idle late) sent r =
    finish_round use_message n sent
      (if late && use_message then record r { start_restran = true } else r)
round use_message n (completed ids) sent r = elim (take_completed use_message ids r) [
  | none ↦ fault
  | some r' ↦ finish_round use_message n sent r'
]

-- How the loop ends, with the requests sent; `waiting` when the polls given run out.
pub data Reception : Type 0 where
  broken : Round → List (List ℕ) → Reception
  waiting finished : Receiver → List (List ℕ) → Reception

-- while(recv_num < numOfBlocks)
unfoldable pub receive_file : Bool → ℕ → List (Poll × Bool) → Receiver → List (List ℕ) → Reception
receive_file use_message n [] r log = if ltb r.recv_num n then waiting r log else finished r log
receive_file use_message n ((p, sent) ∷ ps) r log =
    if ltb r.recv_num n
    then elim (round use_message n p sent r) [
      | running r' none ↦ receive_file use_message n ps r' log
      | running r' (some m) ↦ receive_file use_message n ps r' (log ++ m ∷ [])
      | other ↦ broken other log
    ]
    else finished r log
