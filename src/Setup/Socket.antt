-- ===== src/Setup/Socket.antt =====
-- StreamControl::sockSyncData: the peers exchange a message of the same size. The results of `send`
-- and `read` are given.
use file_transfer_cmd.Prelude.{
  Bool, List, Option, [], ap, arith, drop, false, if◌then◌else◌, length, le→ltb, ltb, lt→ltb, none,
  refl, some, suc, sym, true, zero, ℕ, ◌++◌, ◌+◌, ◌<◌, ◌==◌, ◌∙◌, ◌∷◌, ◌≡◌, ◌≤◌,
}

-- One `send` or `read`: a number of bytes or the bytes, EINTR, or another failure; 0 is a failure.
pub data Sent : Type 0 where
  sent : ℕ → Sent
  interrupted failed : Sent

pub data Got : Type 0 where
  got : List ℕ → Got
  interrupted failed : Got

-- The loop over `send`: it ends with the first success, also of a part.
unfoldable pub send_loop : List Sent → Bool
send_loop [] = false
send_loop (interrupted ∷ rs) = send_loop rs
send_loop (failed ∷ rs) = false
send_loop (sent n ∷ rs) = if n == 0 then false else true

-- A `read` to the start of the buffer.
pub overlay : List ℕ → List ℕ → List ℕ
overlay bytes buffer = bytes ++ drop (length bytes) buffer

-- The loop over `read`: the buffer and the reads that are left; `none` is the return of -1 or
-- a peer that says no more.
pub read_loop : ℕ → ℕ → List Got → List ℕ → Option (List ℕ × List Got)
read_loop size total [] buffer = if ltb total size then none else some (buffer, [])
read_loop size total (r ∷ rs) buffer =
    if ltb total size
    then elim r [
      | got bytes ↦
          if length bytes == 0
          then none
          else read_loop size (total + length bytes) rs (overlay bytes buffer)
      | interrupted ↦ read_loop size total rs buffer
      | failed ↦ none
    ]
    else some (buffer, r ∷ rs)

pub sock_sync_data : ℕ → List Sent → List Got → List ℕ → Option (List ℕ × List Got)
sock_sync_data size sends reads remote_data =
    if send_loop sends then read_loop size 0 reads remote_data else none

abbrev pub interruptions : ℕ → List Got → List Got
interruptions zero rs = rs
interruptions (suc k) rs = interrupted ∷ interruptions k rs

overlay_whole :
    (bytes buffer : List ℕ) → length bytes ≡ length buffer → overlay bytes buffer ≡ bytes
unfolding overlay
overlay_whole [] [] h = refl
overlay_whole [] (y ∷ ys) h = ground arith
overlay_whole (x ∷ xs) [] h = ground arith
overlay_whole (x ∷ xs) (y ∷ ys) h = ap (◌∷◌ x) (overlay_whole xs ys (omega arith))

read_loop-interrupted :
    (size total k : ℕ) (rs : List Got) (buffer : List ℕ)
    → total < size
    → read_loop size total (interruptions k rs) buffer ≡ read_loop size total rs buffer
unfolding read_loop
read_loop-interrupted size total zero rs buffer h = refl
read_loop-interrupted size total (suc k) rs buffer h =
    rw (lt→ltb total size h) (read_loop-interrupted size total k rs buffer h)

read_loop-full :
    (size total : ℕ) (rs : List Got) (buffer : List ℕ)
    → size ≤ total
    → read_loop size total rs buffer ≡ some (buffer, rs)
unfolding read_loop
read_loop-full size total [] buffer h = rw (le→ltb total size h) refl
read_loop-full size total (r ∷ rs) buffer h = rw (le→ltb total size h) refl

read_loop-got :
    (size total : ℕ) (bytes : List ℕ) (rs : List Got) (buffer : List ℕ)
    → total < size
    → 0 < length bytes
    → read_loop size total (got bytes ∷ rs) buffer
      ≡ read_loop size (total + length bytes) rs (overlay bytes buffer)
unfolding read_loop
read_loop-got size total bytes rs buffer h some_bytes =
    let filled : (length bytes == 0) ≡ false = ground arith in
    rw (lt→ltb total size h, read_loop) (rw filled refl)

-- A message that comes in one piece, after any number of interruptions, is what the function
-- stores, and the reads after it are left alone.
pub sock_sync_data_whole :
    (sends : List Sent) (k : ℕ) (message : List ℕ) (rest : List Got) (buffer : List ℕ)
    → send_loop sends ≡ true
    → 0 < length message
    → length buffer ≡ length message
    → sock_sync_data (length message) sends (interruptions k (got message ∷ rest)) buffer
      ≡ some (message, rest)
unfolding sock_sync_data
sock_sync_data_whole sends k message rest buffer ok some_bytes h = rw ok (
    read_loop-interrupted (length message) 0 k (got message ∷ rest) buffer some_bytes
    ∙ read_loop-got (length message) 0 message rest buffer some_bytes some_bytes
    ∙ read_loop-full (length message) (0 + length message) rest (overlay message buffer)
        (omega arith)
    ∙ ap (λ b. some (b, rest)) (overlay_whole message buffer (sym h)))

-- A message that comes in two pieces, neither of them empty, is stored wrongly: the second piece lies
-- over the start of the first, and the function still succeeds.
pub sock_sync_data_split :
    (sends : List Sent) (p q : List ℕ) (rest : List Got) (buffer : List ℕ)
    → send_loop sends ≡ true
    → 0 < length p
    → 0 < length q
    → sock_sync_data (length p + length q) sends (got p ∷ got q ∷ rest) buffer
      ≡ some (q ++ drop (length q) (p ++ drop (length p) buffer), rest)
unfolding sock_sync_data overlay
sock_sync_data_split sends p q rest buffer ok some_p some_q =
    let size : ℕ = length p + length q in
    rw ok (
      read_loop-got size 0 p (got q ∷ rest) buffer (omega arith) some_p
      ∙ read_loop-got size (0 + length p) q rest (overlay p buffer) (omega arith) some_q
      ∙ read_loop-full size (0 + length p + length q) rest (overlay q (overlay p buffer))
          (omega arith))
