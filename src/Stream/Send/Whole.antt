-- ===== src/Stream/Send/Whole.antt =====
-- StreamControl::postSendFile in the LUCP mode, from the first block to the last request.
use file_transfer_cmd.Prelude.{
  All, List, [], ap, arith, get_or-set_self, length, refl, subst, sym, true, ℕ, ◌*◌, ◌++◌, ◌<◌, ◌^◌,
  ◌∙◌, ◌∷◌, ◌≡◌, ◌≤◌,
}
use file_transfer_cmd.Stream.Send.{
  SendRound, Sender, World, failing, fault, lost, running, send_file, send_round, start, starved,
  stopped,
}
use file_transfer_cmd.Stream.Send.Flight.{Accounts, start-Accounts}
use file_transfer_cmd.Stream.Send.Order.{first_pass, length-run_from, run_from, run_from-cons}
use file_transfer_cmd.Stream.Send.Requests.{
  IsWhole, nothing_left, requested, requests, serve-InOrder,
}
use file_transfer_cmd.Stream.Send.Rounds.{Accounts-widen, Settled, send_round-Settled}
use file_transfer_cmd.Stream.Send.Sequence.{InOrder, KeepsOrder}
use mathlib.Core.List.{append-nil, append_assoc}

-- What is sent and what is still to be sent, at the end of some rounds.
abbrev pub SentInOrder : ℕ → ℕ → List ℕ → List World → SendRound → Type 0
SentInOrder block_size n all ws (running s) = InOrder block_size n (all ++ requests ws) s
SentInOrder block_size n all ws (stopped s) =
    (seen : List World) × (rest : List World) × (ws ≡ seen ++ rest)
    × InOrder block_size n (all ++ requests seen) s
SentInOrder block_size n all ws out = Unit {0}

Sent-shift :
    (block_size n : ℕ) (all : List ℕ) (w : World) (ws : List World) (out : SendRound)
    → SentInOrder block_size n (all ++ requested w.control) ws out
    → SentInOrder block_size n all (w ∷ ws) out
Sent-shift block_size n all w ws fault h = tt
Sent-shift block_size n all w ws failing h = tt
Sent-shift block_size n all w ws lost h = tt
Sent-shift block_size n all w ws starved h = tt
Sent-shift block_size n all w ws (running s) h =
    subst (λ l. InOrder block_size n l s) (append_assoc all (requested w.control) (requests ws)) h
Sent-shift block_size n all w ws (stopped s) (seen, rest, e, h) = (
  w ∷ seen,
  rest,
  ap (◌∷◌ w) e,
  subst (λ l. InOrder block_size n l s) (append_assoc all (requested w.control) (requests seen)) h,
)

module _ (block_size nbuf n : ℕ) (some_block : 0 < block_size) (some_buf : 0 < nbuf)
    (small : nbuf < 2 ^ 32) (few : n ≤ 2 ^ 32) where
  after_round :
      (w : World) (ws : List World) (all : List ℕ) (s : Sender)
      → ((limit : ℕ) (s' : Sender)
          → limit < nbuf
          → Accounts block_size nbuf limit s'
          → InOrder block_size n (all ++ requested w.control) s'
          → SentInOrder block_size n
              (all ++ requested w.control)
              ws
              (send_file true block_size nbuf ws s'))
      → (out : SendRound) → send_round true block_size nbuf w s ≡ out
      → Settled block_size nbuf out
      → KeepsOrder block_size n (all ++ requested w.control) out
      → SentInOrder block_size n all (w ∷ ws) (send_file true block_size nbuf (w ∷ ws) s)
  unfolding send_file
  after_round w ws all s next fault e t k = rw (e, send_file) tt
  after_round w ws all s next failing e t k = rw (e, send_file) tt
  after_round w ws all s next lost e t k = rw (e, send_file) tt
  after_round w ws all s next starved e t k = rw (e, send_file) tt
  after_round w ws all s next (stopped s') e t k =
      rw (e, send_file) (w ∷ [], ws, refl, rw (append-nil (requested w.control)) k)
  after_round w ws all s next (running s') e (limit', a', lt') k =
      rw (e, send_file)
        (Sent-shift block_size n all w ws (send_file true block_size nbuf ws s')
          (next limit' s' lt' a' k))

  -- Over any rounds, from a state with `all` sent or still to be sent.
  pub send_file-InOrder :
      (ws : List World) (all : List ℕ) (limit : ℕ) (s : Sender)
      → All (IsWhole block_size) ws
      → limit < nbuf
      → Accounts block_size nbuf limit s
      → InOrder block_size n all s
      → SentInOrder block_size n all ws (send_file true block_size nbuf ws s)
  unfolding send_file send_round
  send_file-InOrder [] all limit s h lt a o = rw (append-nil all) o
  send_file-InOrder (w ∷ ws) all limit s (h, hs) lt a o =
      let wide : Accounts block_size nbuf nbuf s =
        Accounts-widen block_size nbuf small some_buf limit nbuf s (omega arith) a in
      after_round w ws all s
        (λ limit' s' lt' a' o'.
          send_file-InOrder ws (all ++ requested w.control) limit' s' hs lt' a' o')
        (send_round true block_size nbuf w s) refl
        (send_round-Settled block_size nbuf small some_buf true w limit s lt a)
        (serve-InOrder block_size nbuf n some_block some_buf small few all w s h wide o w.control
          refl)

  pub start-InOrder :
      (mem : List ℕ)
      → n * block_size < 2 ^ 64
      → length mem ≡ nbuf
      → InOrder block_size n (first_pass n) (start block_size (n * block_size) mem)
  unfolding start
  start-InOrder mem fits h = record {
    todo = first_pass n;
    queue = record {
      left = ap (λ j. j * block_size) (sym (length-run_from (λ j. j) 0 n));
      fits = omega (arith, fits, ap (λ j. j * block_size) (length-run_from (λ j. j) 0 n));
      front = λ x xs q.
          let (m, size, top, rest) = run_from-cons (λ j. j) 0 n x xs (sym q) in
          get_or-set_self mem 0 0 0 (omega arith) ∙ sym top;
      plain = λ q. ap (run_from (λ j. j) 0) (omega arith);
      again = λ q. ground arith;
    };
    together = refl;
  }

-- For a file of `n` whole blocks (n ≤ 2 ^ 32, the bytes below 2 ^ 64), blocks of at least one
-- byte, 0 < nbuf < 2 ^ 32 buffers, and requests of as many words as they say, fewer than 2 ^ 30,
-- for blocks of fewer than 2 ^ 64 bytes: at every point that the loop comes to, and where it
-- stops, the numbers sent, followed by those still to be sent, are 0, 1, …, n - 1 and then the
-- words of the requests taken up, in order. The number of those still to be sent times
-- `block_size` is `bytes_left`.
pub send_file-ordered :
    (block_size nbuf n : ℕ) (mem : List ℕ) (ws : List World)
    → 0 < block_size
    → 0 < nbuf
    → nbuf < 2 ^ 32
    → n ≤ 2 ^ 32
    → n * block_size < 2 ^ 64
    → length mem ≡ nbuf
    → All (IsWhole block_size) ws
    → SentInOrder block_size n
        (first_pass n)
        ws
        (send_file true block_size nbuf ws (start block_size (n * block_size) mem))
send_file-ordered block_size nbuf n mem ws some_block some_buf small few fits h whole =
    send_file-InOrder block_size nbuf n some_block some_buf small few ws (first_pass n) 0
      (start block_size (n * block_size) mem) whole some_buf
      (start-Accounts block_size nbuf (n * block_size) mem h)
      (start-InOrder block_size nbuf n some_block some_buf small few mem fits h)

-- When `bytes_left` is 0, for blocks of at least one byte, the numbers sent are exactly those of the
-- first pass and of the requests taken up.
pub all_sent :
    (block_size n : ℕ) (all : List ℕ) (s : Sender)
    → 0 < block_size
    → InOrder block_size n all s
    → s.bytes_left ≡ 0
    → s.sent ≡ all
all_sent block_size n all s some_block o h =
    sym (append-nil s.sent)
    ∙ sym (ap (λ l. s.sent ++ l) (nothing_left block_size n o.todo s some_block o.queue h))
    ∙ o.together
