-- ===== src/Stream/Send.antt =====
-- StreamControl::postSendFile: the sending loop. What the world does is given to each round: the
-- control socket, the pace, the work queue and the polls. A failed `assert`, an access out of range
-- and a `front()` of an empty list are `fault`. The clock and the statistics are not modelled.
pub mod Flight
pub mod Rounds
pub mod Buffers
pub mod Order
pub mod Sequence
pub mod Requests
pub mod Whole
mod Tests
use file_transfer_cmd.Prelude.{
  Bool, List, Option, [], drop, false, get_or, if◌then◌else◌, leb, length, ltb, none, not,
  replicate, set, some, suc, take, true, zero, ℕ, ◌%◌, ◌&&◌, ◌++◌, ◌+◌, ◌-◌, ◌==◌, ◌^◌, ◌||◌, ◌∷◌,
}
use file_transfer_cmd.Prelude.Words.{add64, mul64, sub32, sub64}

-- The first word of each buffer is its block number; `current` is the buffer that `sge.addr` names.
-- `remaining_recv_wqe` and the other counters are not read. `sent` lists the numbers posted.
pub record Sender : Type 0 where
  pub bytes_left : ℕ
  pub ack_bytes : ℕ
  pub outstanding : ℕ
  pub sendcnt : ℕ
  pub i : ℕ
  pub bytes_payload : ℕ
  pub uncomplete : List ℕ
  pub mem : List ℕ
  pub current : ℕ
  pub restran_num : ℕ
  pub restraned_num : ℕ
  pub start_restran : Bool
  pub first_restran : Bool
  pub restran_space : List ℕ
  pub sent : List ℕ

-- What one `recv` on the control socket gives: nothing yet, an error or the peer's close, or a
-- request with its words; `cut` is a failure within the words. A `recv` within the words that a signal
-- interrupts, after which bytes are read over others, is not modelled.
pub data Control : Type 0 where
  silent closed cut : Control
  asked : ℕ → List ℕ → Control

-- One `ibv_poll_cq`: an error, a bad completion, or a number of good completions.
pub data WorkPoll : Type 0 where
  failed bad : WorkPoll
  done : ℕ → WorkPoll

-- One round's world. `idle_rate` is getRate() == 0.0, `due` is timeToSend(), `posted` is the
-- success of ibv_post_send.
pub record World : Type 0 where
  pub control : Control
  pub idle_rate : Bool
  pub due : Bool
  pub posted : Bool
  pub polls : List WorkPoll

-- `stopped` is a `break` out of the loop, after which the function returns 0; `failing` returns
-- -1 and `lost` returns -2; `starved` is a round whose polls run out.
pub data SendRound : Type 0 where
  fault failing lost starved : SendRound
  running stopped : Sender → SendRound

-- The state at the head of the loop, the buffers' first words given.
unfoldable pub start : ℕ → ℕ → List ℕ → Sender
start block_size file_size mem = record {
  bytes_left = file_size;
  ack_bytes = 0;
  outstanding = 0;
  sendcnt = 0;
  i = 0;
  bytes_payload = block_size;
  uncomplete = [];
  mem = set mem 0 0;
  current = 0;
  restran_num = 0;
  restraned_num = 0;
  start_restran = false;
  first_restran = true;
  restran_space = [];
  sent = [];
}

-- The words of a request go to the front of the buffer, which the first request allocates. As many
-- are read as `restran_size` says, a uint32_t count of bytes, in which `num` * 4 wraps; what is not
-- read of a new buffer is not specified; here it is 0.
unfoldable pub fill_space : Bool → ℕ → List ℕ → List ℕ → Option (List ℕ)
fill_space first num words space =
    let size = num % 2 ^ 30 in
    if first
    then some (take size words ++ replicate (num - size) 0)
    else if leb size (length space)
    then some (take size words ++ drop size space)
    else none

-- A request for `num` > 0 blocks.
unfoldable pub begin_restran : ℕ → ℕ → List ℕ → Sender → Option Sender
begin_restran block_size num words s =
    if s.start_restran then none else elim (fill_space s.first_restran num words s.restran_space) [
      | none ↦ none
      | some space ↦
          if s.bytes_left == 0
          then some (record s {
            restran_num = num;
            first_restran = false;
            restran_space = space;
            start_restran = true;
            mem = set s.mem s.current (get_or space 0 0);
            bytes_left = add64 s.bytes_left (mul64 num block_size);
            restraned_num = 0;
          })
          else none
    ]

-- The number for the next buffer, and the end of a retransmission.
unfoldable pub next_block : Bool → ℕ → Sender → Sender
next_block use_message id s =
    if use_message && s.start_restran
    then (if ltb (s.restraned_num + 1) s.restran_num
        then record s {
          restraned_num = s.restraned_num + 1;
          mem = set s.mem id (get_or s.restran_space (s.restraned_num + 1) 0);
        }
        else record s { restraned_num = s.restraned_num + 1; start_restran = false })
    else record s { mem = set s.mem id (s.sendcnt % 2 ^ 32) }

-- A successful ibv_post_send of the current buffer, up to the choice of the next one.
unfoldable pub push : ℕ → ℕ → Sender → Sender
push block_size nbuf s = record s {
  uncomplete = s.uncomplete ++ s.bytes_payload ∷ [];
  sent = s.sent ++ get_or s.mem s.current 0 ∷ [];
  bytes_left = sub64 s.bytes_left s.bytes_payload;
  outstanding = s.outstanding + 1;
  sendcnt = s.sendcnt + 1;
  i = s.i + 1;
  current = (s.i + 1) % nbuf;
  bytes_payload = block_size;
}

unfoldable pub post : Bool → ℕ → ℕ → Sender → Sender
post use_message block_size nbuf s =
    next_block use_message ((s.i + 1) % nbuf) (push block_size nbuf s)

-- One good completion.
unfoldable pub complete : Sender → Option Sender
complete s = elim s.uncomplete [
  | [] ↦ none
  | b ∷ bs ↦ some (record s {
    outstanding = sub32 s.outstanding 1;
    ack_bytes = add64 s.ack_bytes b;
    uncomplete = bs;
  })
]

unfoldable pub complete_all : ℕ → Sender → Option Sender
complete_all zero s = some s
complete_all (suc n) s = elim (complete s) [ none ↦ none | some s' ↦ complete_all n s' ]

-- The condition of the inner do-while.
unfoldable pub must_wait : ℕ → Sender → Bool
must_wait nbuf s = leb nbuf s.outstanding || (s.bytes_left == 0 && ltb 0 s.outstanding)

-- The inner do-while over the polls.
unfoldable pub reap : ℕ → List WorkPoll → Sender → SendRound
reap nbuf [] s = starved
reap nbuf (failed ∷ ps) s = failing
reap nbuf (bad ∷ ps) s = failing
reap nbuf (done n ∷ ps) s = elim (complete_all n s) [
  | none ↦ fault
  | some s' ↦ elim (must_wait nbuf s') [ true ↦ reap nbuf ps s' | false ↦ running s' ]
]

-- The end of a round: without messages the loop ends when nothing is left.
unfoldable pub end_round : Bool → SendRound → SendRound
end_round use_message fault = fault
end_round use_message failing = failing
end_round use_message lost = lost
end_round use_message starved = starved
end_round use_message (stopped s) = stopped s
end_round use_message (running s) =
    if not use_message && s.bytes_left == 0 then stopped s else running s

-- The part of a round after the control socket.
unfoldable pub try_send : Bool → ℕ → ℕ → World → Sender → SendRound
try_send use_message block_size nbuf w s =
    if use_message && w.idle_rate
    then running s
    else if use_message && not w.due
    then end_round use_message (reap nbuf w.polls s)
    else if use_message && (not s.start_restran && s.bytes_left == 0)
    then running s
    else if w.posted
    then end_round use_message (reap nbuf w.polls (post use_message block_size nbuf s))
    else stopped s

-- The control socket first: a request for zero blocks ends the loop.
unfoldable pub serve : ℕ → ℕ → Control → World → Sender → SendRound
serve block_size nbuf silent w s = try_send true block_size nbuf w s
serve block_size nbuf closed w s = lost
serve block_size nbuf cut w s = lost
serve block_size nbuf (asked zero words) w s = stopped s
serve block_size nbuf (asked (suc n) words) w s = elim (begin_restran block_size (suc n) words s) [
  | none ↦ fault
  | some s' ↦ try_send true block_size nbuf w s'
]

unfoldable pub send_round : Bool → ℕ → ℕ → World → Sender → SendRound
send_round true block_size nbuf w s = serve block_size nbuf w.control w s
send_round false block_size nbuf w s = try_send false block_size nbuf w s

-- while(1); `running` when the rounds given run out.
pub send_file : Bool → ℕ → ℕ → List World → Sender → SendRound
send_file use_message block_size nbuf [] s = running s
send_file use_message block_size nbuf (w ∷ ws) s =
    elim (send_round use_message block_size nbuf w s) [
      | running s' ↦ send_file use_message block_size nbuf ws s'
      | other ↦ other
    ]
