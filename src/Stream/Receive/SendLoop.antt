-- ===== src/Stream/Receive/SendLoop.antt =====
-- StreamControl::postRecvFile: the loop that sends a request over the control socket.
use file_transfer_cmd.Prelude.{
  List, [], ap, arith, false, if◌then◌else◌, ltb, lt→ltb, refl, suc, sym, true, zero, ℕ, ◌++◌, ◌+◌,
  ◌-◌, ◌<◌, ◌^◌, ◌∙◌, ◌∷◌, ◌≡◌, ◌≤◌,
}
use file_transfer_cmd.Prelude.Words.{add32, sub32}
use mathlib.Core.List.{append-nil, append_assoc}

-- What one `send` gives: a number of bytes taken, an interruption by a signal (EINTR), or another
-- failure. No byte at all counts as a failure.
pub data SendResult : Type 0 where
  took : ℕ → SendResult
  interrupted refused : SendResult

-- The places in the buffer of the bytes that have gone out: `through` after the loop, `given_up` for
-- the return of -2, and `waiting` when the results given run out.
pub data Transmission : Type 0 where
  through given_up waiting : List ℕ → Transmission

unfoldable pub bytes_from : ℕ → ℕ → List ℕ
bytes_from i zero = []
bytes_from i (suc n) = i ∷ bytes_from (i + 1) n

-- while(loc < restran_size): an interruption adds its result, -1, to `loc`, a uint32_t.
unfoldable pub send_loop : ℕ → List SendResult → ℕ → List ℕ → Transmission
send_loop size [] loc log = if ltb loc size then waiting log else through log
send_loop size (r ∷ rs) loc log = elim (ltb loc size) [
  | false ↦ through log
  | true ↦ elim r [
    | refused ↦ given_up log
    | interrupted ↦ send_loop size rs (sub32 loc 1) log
    | took k ↦ elim k [
      | zero ↦ given_up log
      | suc j ↦ send_loop size rs (add32 loc (suc j)) (log ++ bytes_from loc (suc j))
    ]
  ]
]

-- Some bytes are taken each time.
abbrev pub taking : List ℕ → List SendResult
taking [] = []
taking (k ∷ ks) = took (suc k) ∷ taking ks

abbrev pub total_taken : List ℕ → ℕ
total_taken [] = 0
total_taken (k ∷ ks) = suc k + total_taken ks

bytes_from-append : (i m n : ℕ) → bytes_from i m ++ bytes_from (i + m) n ≡ bytes_from i (m + n)
unfolding bytes_from
bytes_from-append i zero n =
    let same : i + 0 ≡ i = omega arith in
    let none_first : n ≡ 0 + n = omega arith in
    ap (λ j. bytes_from j n) same ∙ ap (bytes_from i) none_first
bytes_from-append i (suc m) n =
    let place : i + suc m ≡ i + 1 + m = omega arith in
    let count : suc (m + n) ≡ suc m + n = omega arith in
    ap (λ j. i ∷ (bytes_from (i + 1) m ++ bytes_from j n)) place
    ∙ ap (◌∷◌ i) (bytes_from-append (i + 1) m n)
    ∙ ap (bytes_from i) count

-- The loop at its end, whatever results would still come.
send_loop-end :
    (size loc : ℕ) (rs : List SendResult) (log : List ℕ)
    → size ≤ loc
    → send_loop size rs loc log ≡ through log
unfolding send_loop
send_loop-end size loc [] log h = ground arith
send_loop-end size loc (r ∷ rs) log h = ground arith

-- One result that takes bytes, and an interruption.
send_loop-took :
    (size loc k : ℕ) (rs : List SendResult) (log : List ℕ)
    → size < 2 ^ 32
    → loc + suc k ≤ size
    → send_loop size (took (suc k) ∷ rs) loc log
      ≡ send_loop size rs (loc + suc k) (log ++ bytes_from loc (suc k))
unfolding send_loop
send_loop-took size loc k rs log small h =
    rw (lt→ltb loc size (omega arith), send_loop)
      (let place : add32 loc (suc k) ≡ loc + suc k = omega arith in
        ap (λ j. send_loop size rs j (log ++ bytes_from loc (suc k))) place)

send_loop-interrupted :
    (size : ℕ) (rs : List SendResult) (log : List ℕ)
    → 0 < size
    → send_loop size (interrupted ∷ rs) 0 log ≡ send_loop size rs (2 ^ 32 - 1) log
unfolding send_loop
send_loop-interrupted size rs log h = rw (lt→ltb 0 size h, send_loop) refl

send_loop-taking :
    (size loc : ℕ) (ks log : List ℕ)
    → size < 2 ^ 32
    → loc + total_taken ks ≡ size
    → send_loop size (taking ks) loc log ≡ through (log ++ bytes_from loc (total_taken ks))
unfolding bytes_from
send_loop-taking size loc [] log small h =
    send_loop-end size loc [] log (omega (arith, h)) ∙ ap through (sym (append-nil log))
send_loop-taking size loc (k ∷ ks) log small h =
    send_loop-took size loc k (taking ks) log small (omega (arith, h))
    ∙ send_loop-taking size (loc + suc k) ks (log ++ bytes_from loc (suc k)) small
        (omega (arith, h))
    ∙ ap through (
        append_assoc log (bytes_from loc (suc k)) (bytes_from (loc + suc k) (total_taken ks))
        ∙ ap (λ l. log ++ l) (bytes_from-append loc (suc k) (total_taken ks)))

-- A request of `size` bytes, 0 < size < 2 ^ 32, whose bytes the socket takes in pieces of any sizes:
-- the loop ends, and every byte has gone out once and in order. If the first `send` is interrupted by
-- a signal instead, the loop ends in the same way, and no byte has gone out.
pub send_loop_lem :
    (size : ℕ) (ks : List ℕ)
    → 0 < size
    → size < 2 ^ 32
    → total_taken ks ≡ size
    → (send_loop size (taking ks) 0 [] ≡ through (bytes_from 0 size))
      × (send_loop size (interrupted ∷ taking ks) 0 [] ≡ through [])
send_loop_lem size ks some_byte small h = (
  send_loop-taking size 0 ks [] small (omega (arith, h)) ∙ ap (λ n. through (bytes_from 0 n)) h,
  send_loop-interrupted size (taking ks) [] some_byte
      ∙ send_loop-end size (2 ^ 32 - 1) (taking ks) [] (omega (arith, small)),
)
