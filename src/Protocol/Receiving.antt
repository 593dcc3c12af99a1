-- ===== src/Protocol/Receiving.antt =====
-- A transfer in the LUCP mode: a round of the receiver, and the requests that come of it.
use file_transfer_cmd.Prelude.{
  All, All-left, All-map, Bool, List, ap, arith, false, length, none, refl, some, subst, sym, true,
  ℕ, ◌*◌, ◌<◌, ◌^◌, ◌∙◌, ◌∷◌, ◌≡◌,
}
use file_transfer_cmd.Protocol.{CanPoll, System}
use file_transfer_cmd.Protocol.Kept.{All-get_elem?, Inv, IsRequest, after_poll-keeps, missing-below}
use file_transfer_cmd.Stream.Receive.{Receiver}
use file_transfer_cmd.Stream.Receive.Delivery.{last_not_done, one_round}
use file_transfer_cmd.Stream.Receive.Loop.{IsTimely, Phase, after_poll, fresh}
use file_transfer_cmd.Stream.Receive.Phase.{Asked, all_of_count}
use file_transfer_cmd.Stream.Receive.Request.{length-missing, length-missing-add-count, missing}
use file_transfer_cmd.Stream.Receive.Round.{Poll, Round, completed, failed, idle, round}
use file_transfer_cmd.Stream.Receive.Session.{RoundGood, asks, quiet_asked, quiet_fresh}

module _ (block_size nbuf n : ℕ) (some_block : 0 < block_size) (some_buf : 0 < nbuf)
    (small : nbuf < 2 ^ 32) (pos_n : 0 < n) (few : n < 2 ^ 30)
    (fits : n * block_size < 2 ^ 64) where
  pub IsRequest-later :
      (got have : ℕ → Bool)
      → ((j : ℕ) → got j ≡ true → have j ≡ true)
      → (m : List ℕ) → IsRequest n got m
      → IsRequest n have m
  IsRequest-later got have more m q = record {
    words = q.words;
    shape = q.shape;
    below = q.below;
    few = q.few;
    zero_all = λ z j lt. more j (q.zero_all z j lt);
  }

  -- The receiver's request for what is missing.
  pub IsRequest-missing :
      (got : ℕ → Bool) → IsRequest n got (length (missing got 0 n) ∷ missing got 0 n)
  IsRequest-missing got = record {
    words = missing got 0 n;
    shape = refl;
    below = missing-below got 0 n n (omega arith);
    few = length-missing got 0 n;
    zero_all = λ z j lt. all_of_count got n j (omega (arith, z, length-missing-add-count got n)) lt;
  }

  pub timely :
      (t : System) (p : Poll) → All (λ i. i < n) t.sender.sent → CanPoll n t p → IsTimely n t.got p
  timely t failed h c = c
  timely t (idle late) h c = c
  timely t (completed ids) h c =
      All-map ids (λ i (k, e). All-get_elem? (λ j. j < n) t.sender.sent k h e) c

  pub sent-below : (t : System) → Inv block_size nbuf n t → All (λ i. i < n) t.sender.sent
  sent-below t v =
      All-left (λ i. i < n) t.sender.sent v.order.todo
        (subst (All (λ i. i < n)) (sym v.order.together) v.below)

  pub quiet_Phase :
      (got : ℕ → Bool) (r : Receiver) (out : Round)
      → out ≡ Round.running r none
      → RoundGood n got out
      → Phase n got r × (r.recv_num < n)
  quiet_Phase got r out h (quiet_fresh r' e f) =
      subst (λ k. Phase n got k × (k.recv_num < n)) (cc (h, e))
        (fresh f, last_not_done n pos_n few got r' f.tracks f.last_out)
  quiet_Phase got r out h (quiet_asked r' e a q lt) =
      subst (λ k. Phase n got k × (k.recv_num < n)) (cc (h, e)) (Phase.asked a q, lt)
  quiet_Phase got r out h (asks r' e a q) = cc

  pub ask-Phase :
      (got : ℕ → Bool) (r : Receiver) (m : List ℕ) (out : Round)
      → out ≡ Round.running r (some m)
      → RoundGood n got out
      → Asked n got r × (r.start_restran ≡ false) × (m ≡ length (missing got 0 n) ∷ missing got 0 n)
  ask-Phase got r m out h (quiet_fresh r' e f) = cc
  ask-Phase got r m out h (quiet_asked r' e a q lt) = cc
  ask-Phase got r m out h (asks r' e a q) =
      let same : r' ≡ r = cc (h, e) in
      (subst (Asked n got) same a, ap (λ k. k.start_restran) (sym same) ∙ q, cc)

  pub good_round :
      (t : System) (p : Poll)
      → Inv block_size nbuf n t
      → CanPoll n t p
      → RoundGood n (after_poll p t.got) (round true n p true t.receiver)
  good_round t p v c =
      one_round n pos_n few t.got t.receiver p (timely t p (sent-below t v) c) v.phase

  pub later :
      (t : System) (p : Poll)
      → Inv block_size nbuf n t
      → All (IsRequest n (after_poll p t.got)) t.pending
  later t p v =
      All-map t.pending (IsRequest-later t.got (after_poll p t.got) (after_poll-keeps p t.got))
        v.requests
