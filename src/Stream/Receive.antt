-- ===== src/Stream/Receive.antt =====
-- StreamControl::postRecvFile: the bookkeeping of sequence numbers and the retransmission request.
-- A failed `assert`, a deque index out of range and a write past the request buffer are `none`.
-- `recv_num` is an `int` and counts blocks; the theorems keep it below 2 ^ 31.
pub mod Covers
pub mod Cases
pub mod Tracks
pub mod Step
pub mod Round
pub mod SendLoop
pub mod Request
pub mod Report
pub mod Phase
pub mod Session
pub mod Loop
pub mod Delivery
pub mod LostTail
mod Tests
use file_transfer_cmd.Prelude.{
  Bool, List, Option, [], false, get_elem?, if◌then◌else◌, length, ltb, none, set, some, suc, true,
  zero, ℕ, ◌%◌, ◌++◌, ◌+◌, ◌-◌, ◌/◌, ◌==◌, ◌^◌, ◌∷◌,
}
use file_transfer_cmd.Prelude.Int.{beq_ℤ, ltb_ℤ, negsuc, pos, suc_ℤ, ℤ}
use file_transfer_cmd.Prelude.Words.{add32, sub32}

-- `struct recv_item`
pub record RecvItem : Type 0 where
  pub seq : ℕ
  pub recved : Bool

-- The loop's variables. `restran_space` is the request buffer in 32-bit words, `[]` for nullptr,
-- and `restran_size` counts words too.
pub record Receiver : Type 0 where
  pub recv_num : ℕ
  pub expect_seq : ℕ
  pub recv_max_seq : ℤ
  pub unrecv : List RecvItem
  pub start_restran : Bool
  pub first_restran : Bool
  pub restran_space : List ℕ
  pub restran_size : ℕ

abbrev pub init : Receiver
init = record {
  recv_num = 0;
  expect_seq = 0;
  recv_max_seq = negsuc 0;
  unrecv = [];
  start_restran = false;
  first_restran = true;
  restran_space = [];
  restran_size = 1;
}

-- `numOfBlocks`, a uint32_t
unfoldable pub num_of_blocks : ℕ → ℕ → ℕ
num_of_blocks file_size block_size =
    (file_size / block_size + (if file_size % block_size == 0 then 0 else 1)) % 2 ^ 32

-- `recv_num ++`
abbrev pub count : Receiver → Receiver
count r = record r { recv_num = r.recv_num + 1 }

-- The pops from the front while it is received, each with its `expect_seq ++`.
unfoldable pub drain : List RecvItem → ℕ → List RecvItem × ℕ
drain [] e = ([], e)
drain (x ∷ xs) e = elim x.recved [ true ↦ drain xs (add32 e 1) | false ↦ (x ∷ xs, e) ]

-- The expected number, at or below `recv_max_seq`: the asserts, the mark and the pops.
unfoldable pub fill : ℕ → Receiver → List RecvItem → Option Receiver
fill id r [] = none
fill id r (x ∷ xs) =
    if beq_ℤ (pos r.expect_seq) r.recv_max_seq
    then none
    else if x.seq == id
    then (let (q, e) = drain (record x { recved = true } ∷ xs) r.expect_seq in
        some (count (record r { unrecv = q; expect_seq = e })))
    else none

-- A number between `expect_seq` and `recv_max_seq`: marked in place, once.
unfoldable pub mark_late : ℕ → Receiver → Option Receiver
mark_late id r = elim (get_elem? r.unrecv (sub32 id r.expect_seq)) [
  | none ↦ none
  | some x ↦
      if x.recved
      then some r
      else some (
          count (record r {
            unrecv = set r.unrecv (sub32 id r.expect_seq) (record x { recved = true });
          }))
]

-- `n` unreceived entries from `i` on: the two loops that append `(i, false)`.
unfoldable pub missing_from : ℕ → ℕ → List RecvItem
missing_from i zero = []
missing_from i (suc n) = record { seq = i; recved = false } ∷ missing_from (i + 1) n

-- A number above `recv_max_seq`: the numbers skipped are entered as missing.
unfoldable pub skip_ahead : ℕ → Receiver → Receiver
skip_ahead id r = count (record r {
  unrecv =
      r.unrecv
      ++ missing_from (suc_ℤ r.recv_max_seq) (id - suc_ℤ r.recv_max_seq)
      ++ record { seq = id; recved = true } ∷ [];
  recv_max_seq = pos id;
})

-- One completion, by the number that its block carries.
unfoldable pub receive : ℕ → Receiver → Option Receiver
receive id r =
    if ltb id r.expect_seq
    then some r
    else if id == r.expect_seq
    then (if ltb_ℤ r.recv_max_seq (pos r.expect_seq)
        then some (count (record r { expect_seq = add32 r.expect_seq 1; recv_max_seq = pos id }))
        else fill id r r.unrecv)
    else if ltb_ℤ (pos id) r.recv_max_seq
    then mark_late id r
    else if ltb_ℤ r.recv_max_seq (pos id)
    then some (skip_ahead id r)
    else some r

-- The completions of one poll, in order.
unfoldable pub receive_all : List ℕ → Receiver → Option Receiver
receive_all [] r = some r
receive_all (id ∷ ids) r = elim (receive id r) [ none ↦ none | some r' ↦ receive_all ids r' ]

-- `memcpy` of one word to `restran_space + loc`, with `loc` in words.
unfoldable pub store : List ℕ → ℕ → ℕ → Option (List ℕ)
store space loc v = if ltb loc (length space) then some (set space loc v) else none

-- The loop that copies the unreceived numbers; it stops when `loc` equals `restran_size`.
unfoldable pub copy_missing : List RecvItem → ℕ → ℕ → List ℕ → Option (List ℕ)
copy_missing [] loc size space = some space
copy_missing (x ∷ xs) loc size space = elim x.recved [
  | true ↦ if loc == size then some space else copy_missing xs loc size space
  | false ↦ elim (store space loc x.seq) [
    | none ↦ none
    | some space' ↦ if loc + 1 == size then some space' else copy_missing xs (loc + 1) size space'
  ]
]
