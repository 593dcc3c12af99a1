-- ===== src/Protocol/End.antt =====
-- StreamControl: how a transfer in the LUCP mode ends.
use file_transfer_cmd.Prelude.{
  Bool, Bool-cases, List, Option, Option-cases, [], ap, arith, inl, inr, length, none, not, refl,
  some, subst, suc, sym, true, zero, ℕ, ◌&&◌, ◌*◌, ◌++◌, ◌<◌, ◌==◌, ◌^◌, ◌∙◌, ◌∷◌, ◌≡◌, ◌≤◌,
}
use file_transfer_cmd.Protocol.{CanPoll, Reach, System, and_then, at_opening, opening}
use file_transfer_cmd.Protocol.Kept.{Inv, run_from-below}
use file_transfer_cmd.Protocol.Receiving.{good_round}
use file_transfer_cmd.Protocol.Safe.{Step-Inv, oldest}
use file_transfer_cmd.Stream.Receive.{Receiver, count}
use file_transfer_cmd.Stream.Receive.Delivery.{Tracks-of}
use file_transfer_cmd.Stream.Receive.Loop.{after_poll, fresh}
use file_transfer_cmd.Stream.Receive.Phase.{count_below_all}
use file_transfer_cmd.Stream.Receive.Round.{Poll, Round, round}
use file_transfer_cmd.Stream.Receive.Session.{RoundGood, asks, quiet_asked, quiet_fresh}
use file_transfer_cmd.Stream.Receive.Tracks.{init-Tracks}
use file_transfer_cmd.Stream.Send.{
  SendRound, Sender, WorkPoll, World, asked, bad, begin_restran, complete_all, done, end_round,
  failed, must_wait, post, reap, send_round, serve, stopped, try_send,
}
use file_transfer_cmd.Stream.Send.Flight.{start-Accounts}
use file_transfer_cmd.Stream.Send.Order.{first_pass}
use file_transfer_cmd.Stream.Send.Whole.{start-InOrder}

-- The sender's loop does not end here.
abbrev Unstopped : SendRound → Type 0
Unstopped (stopped s) = ⊥
Unstopped out = Unit {0}

reap-Unstopped :
    (nbuf : ℕ) (ps : List WorkPoll) (s : Sender) → Unstopped (end_round true (reap nbuf ps s))
unfolding reap end_round
reap-Unstopped nbuf [] s = tt
reap-Unstopped nbuf (failed ∷ ps) s = tt
reap-Unstopped nbuf (bad ∷ ps) s = tt
reap-Unstopped nbuf (done k ∷ ps) s = elim (Option-cases (complete_all k s)) [
  | inl gone ↦ rw (gone, reap) tt
  | inr (s', e) ↦
      rw (e, reap)
        (elim (Bool-cases (must_wait nbuf s')) [
          | inl wait ↦ rw wait (reap-Unstopped nbuf ps s')
          | inr go ↦ rw go tt
        ])
]

-- Without a failed post only a request ends the loop.
try_send-Unstopped :
    (block_size nbuf : ℕ) (w : World) (s : Sender)
    → w.posted ≡ true
    → Unstopped (try_send true block_size nbuf w s)
unfolding try_send
try_send-Unstopped block_size nbuf w s ok = elim (Bool-cases w.idle_rate) [
  | inl calm ↦ rw calm tt
  | inr busy ↦ rw busy (elim (Bool-cases w.due) [
    | inr early ↦ rw early (reap-Unstopped nbuf w.polls s)
    | inl due ↦ rw due (elim (Bool-cases (not s.start_restran && s.bytes_left == 0)) [
      | inl none_left ↦ rw none_left tt
      | inr more ↦ rw (more, ok) (reap-Unstopped nbuf w.polls (post true block_size nbuf s))
    ])
  ])
]

pub serve-begins :
    (block_size nbuf k : ℕ) (words : List ℕ) (w : World) (s s' : Sender)
    → begin_restran block_size (suc k) words s ≡ some s'
    → serve block_size nbuf (asked (suc k) words) w s ≡ try_send true block_size nbuf w s'
unfolding serve
serve-begins block_size nbuf k words w s s' e = rw (e, serve) refl

serve-stops :
    (block_size nbuf k : ℕ) (words : List ℕ) (w : World) (s s' : Sender)
    → w.posted ≡ true
    → serve block_size nbuf (asked k words) w s ≡ stopped s'
    → k ≡ 0
unfolding serve
serve-stops block_size nbuf zero words w s s' ok e = refl
serve-stops block_size nbuf (suc k) words w s s' ok e =
    elim (Option-cases (begin_restran block_size (suc k) words s)) [
      | inl gone ↦ ground arith
      | inr (s₁, e₁) ↦ absurd (
          subst Unstopped (sym (serve-begins block_size nbuf k words w s s₁ e₁) ∙ e)
            (try_send-Unstopped block_size nbuf w s₁ ok))
    ]

-- What one transfer is: a file of `n` whole blocks and the first words of the sender's buffers.
pub record Transfer (block_size nbuf n : ℕ) (mem : List ℕ) : Type 0 where
  pub some_block : 0 < block_size
  pub some_buf : 0 < nbuf
  pub few_bufs : nbuf < 2 ^ 32
  pub some_blocks : 0 < n
  pub few_blocks : n < 2 ^ 30
  pub fits : n * block_size < 2 ^ 64
  pub buffers : length mem ≡ nbuf

module _ (block_size nbuf n : ℕ) (mem : List ℕ) (tr : Transfer block_size nbuf n mem) where
  open tr use {some_block, some_buf, few_bufs, some_blocks, few_blocks, fits, buffers}

  opening-Inv : Inv block_size nbuf n (opening block_size n mem)
  opening-Inv = record {
    limit = 0;
    lt = some_buf;
    accounts = start-Accounts block_size nbuf (n * block_size) mem buffers;
    all = first_pass n;
    order =
        start-InOrder block_size nbuf n some_block some_buf few_bufs (omega arith) mem fits buffers;
    below = run_from-below 0 n n (omega arith);
    phase = fresh (record { tracks = init-Tracks n; first = refl; start = refl; last_out = refl });
    requests = tt;
    told = λ h. absurd (omega arith);
  }

  pub Reach-Inv :
      {t : System} → Reach block_size nbuf n (opening block_size n mem) t → Inv block_size nbuf n t
  Reach-Inv at_opening = opening-Inv
  Reach-Inv (and_then r st) =
      Step-Inv block_size nbuf n some_block some_buf few_bufs some_blocks few_blocks fits st
        (Reach-Inv r)

  runs :
      (got : ℕ → Bool) (out : Round)
      → RoundGood n got out
      → (r : Receiver) × (m : Option (List ℕ)) × (out ≡ Round.running r m)
  runs got out (quiet_fresh r e f) = (r, none, e)
  runs got out (quiet_asked r e a q lt) = (r, none, e)
  runs got out (asks r e a q) = (r, some _, e)

  -- At every point of a transfer in which no timeout of the receiver comes before the last block has
  -- arrived and every request can be sent, whatever blocks are lost, repeated or overtaken: the
  -- receiver's next round, on a poll that does not fail and is no earlier timeout either, passes every
  -- assert and stays within its deque and its buffer.
  pub receiver_goes_on :
      {t : System} (p : Poll)
      → Reach block_size nbuf n (opening block_size n mem) t
      → CanPoll n t p
      → (r : Receiver) × (m : Option (List ℕ)) × (round true n p true t.receiver
          ≡ Round.running r m)
  receiver_goes_on {t} p reach c = runs (after_poll p t.got) (round true n p true t.receiver) (
      good_round block_size nbuf n some_block some_buf few_bufs some_blocks few_blocks fits t p
        (Reach-Inv reach) c)

  -- In a transfer in which no timeout of the receiver comes before the last block has arrived and
  -- every request can be sent: if the sender takes up the oldest request and ends, and its post did not fail, then every block
  -- has arrived and the receiver has counted them all.
  pub end_means_complete :
      {t : System} (k : ℕ) (words : List ℕ) (rest : List (List ℕ)) (w : World) (s : Sender)
      → Reach block_size nbuf n (opening block_size n mem) t
      → t.pending ≡ (k ∷ words) ∷ rest
      → w.control ≡ asked k words
      → w.posted ≡ true
      → send_round true block_size nbuf w t.sender ≡ stopped s
      → ((j : ℕ) → j < n → t.got j ≡ true) × (t.receiver.recv_num ≡ n)
  unfolding send_round
  end_means_complete {t} k words rest w s reach p c ok e =
      let v = Reach-Inv reach in
      let (count, small_list, below, zero_all, qs) =
        oldest block_size nbuf n some_block some_buf few_bufs some_blocks few_blocks fits t k words
          rest v p in
      let z : k ≡ 0 =
        serve-stops block_size nbuf k words w t.sender s ok
          (sym (ap (λ c. serve block_size nbuf c w t.sender) c) ∙ e) in
      (zero_all z, (Tracks-of v.phase).counted ∙ count_below_all t.got n (zero_all z))

  -- In a transfer in which no timeout of the receiver comes before the last block has arrived and
  -- every request can be sent: when the receiver's loop has ended, the last request that the sender has still to read is the
  -- one for zero blocks, which ends it; the sender has not passed it by.
  pub end_is_told :
      {t : System}
      → Reach block_size nbuf n (opening block_size n mem) t
      → n ≤ t.receiver.recv_num
      → (before : List (List ℕ)) × (t.pending ≡ before ++ (0 ∷ []) ∷ [])
  end_is_told reach h = (Reach-Inv reach).told h
