-- ===== src/Stream/Receive/Delivery.antt =====
-- StreamControl::postRecvFile in the LUCP mode, where no timeout comes before the last block: the
-- loop is safe, complete, and tells the sender.
use file_transfer_cmd.Prelude.{
  Bool, Bool-cases, List, [], ap, arith, eq-nil_of_length, false, inl, inr, length, ltb, ltb→lt,
  refl, sym, true, ℕ, ◌++◌, ◌-◌, ◌<◌, ◌^◌, ◌∙◌, ◌∷◌, ◌≡◌, ◌≤◌,
}
use file_transfer_cmd.Stream.Receive.{Receiver, init}
use file_transfer_cmd.Stream.Receive.Loop.{
  AllTimely, IsTimely, Phase, Sound, after_poll, arrived, arrived-keeps, asked, fresh,
  receive_file-asks, receive_file-done, receive_file-nil, receive_file-quiet,
}
use file_transfer_cmd.Stream.Receive.Phase.{
  Asked, SameRequest, all_of_count, count_below-le, count_below_all, insert_all, insert_all-keeps,
  length-missing_mono, receive_all-Tracks,
}
use file_transfer_cmd.Stream.Receive.Request.{length-missing-add-count, missing}
use file_transfer_cmd.Stream.Receive.Round.{
  Poll, Reception, broken, completed, failed, finish_round, finished, idle, receive_file, respond,
  round, take_completed, waiting,
}
use file_transfer_cmd.Stream.Receive.Session.{
  Asked-round, Fresh-round, RoundGood, asks, first_round, quiet_asked, quiet_fresh,
}
use file_transfer_cmd.Stream.Receive.Tracks.{Tracks, Tracks-start, init-Tracks}

ends_of_Sound :
    (n : ℕ) (got : ℕ → Bool)
    → ((j : ℕ) → j < n → got j ≡ true)
    → (out : Reception) → Sound n got out
    → (r : Receiver) × (before : List (List ℕ)) × (out ≡ finished r (before ++ (0 ∷ []) ∷ []))
      × (r.recv_num ≡ n)
ends_of_Sound n got all (broken out log) s = elim s [ ]
ends_of_Sound n got all (waiting r log) s =
    absurd (omega (arith, s.0.counted, count_below_all got n all))
ends_of_Sound n got all (finished r log) (c, a, (before, e)) = (r, before, ap (finished r) e, c)

pub Tracks-of : {n : ℕ} {got : ℕ → Bool} {r : Receiver} → Phase n got r → Tracks n got r
Tracks-of (fresh f) = f.tracks
Tracks-of (asked a q) = a.tracks

module _ (n : ℕ) (pos_n : 0 < n) (small : n < 2 ^ 30) where
  completed_round :
      (got : ℕ → Bool) (r r' : Receiver) (ids : List ℕ)
      → Phase n got r
      → Tracks n (insert_all ids got) r'
      → SameRequest r r'
      → RoundGood n (insert_all ids got) (respond n true r')
  completed_round got r r' ids (fresh f) t s =
      let now : ℕ → Bool = insert_all ids got in
      elim (Bool-cases (now (n - 1))) [
        | inl last ↦ first_round n now r' pos_n small t (s.first ∙ f.first) last
        | inr wait ↦ Fresh-round n now r' pos_n small (record {
          tracks = t;
          first = s.first ∙ f.first;
          start = s.start ∙ f.start;
          last_out = wait;
        })
      ]
  completed_round got r r' ids (asked a q) t s =
      Asked-round n (insert_all ids got) r' pos_n small (record {
        tracks = t;
        first = s.first ∙ a.first;
        last_in = insert_all-keeps ids got (n - 1) a.last_in;
        room = omega (
          arith,
          a.room,
          ap length s.space,
          length-missing_mono got (insert_all ids got) n (insert_all-keeps ids got),
        );
      })

  late_round :
      (got : ℕ → Bool) (r : Receiver)
      → Phase n got r
      → got (n - 1) ≡ true
      → RoundGood n got (respond n true (record r { start_restran = true }))
  late_round got r (fresh f) last = cc (last, f.last_out)
  late_round got r (asked a q) last =
      Asked-round n got (record r { start_restran = true }) pos_n small
        (record {
          tracks = Tracks-start n got r true a.tracks;
          first = a.first;
          last_in = a.last_in;
          room = a.room;
        })

  calm_round : (got : ℕ → Bool) (r : Receiver) → Phase n got r → RoundGood n got (respond n true r)
  calm_round got r (fresh f) = Fresh-round n got r pos_n small f
  calm_round got r (asked a q) = Asked-round n got r pos_n small a

  pub one_round :
      (got : ℕ → Bool) (r : Receiver) (p : Poll)
      → IsTimely n got p
      → Phase n got r
      → RoundGood n (after_poll p got) (round true n p true r)
  unfolding round finish_round take_completed
  one_round got r failed h ph = elim h [ ]
  one_round got r (idle true) h ph = late_round got r ph (h refl)
  one_round got r (idle false) h ph = calm_round got r ph
  one_round got r (completed ids) h ph =
      let (r', e, t, s) = receive_all-Tracks n got r ids (omega arith) (Tracks-of ph) h in
      rw (e, round) (completed_round got r r' ids ph t s)

  -- What is known between rounds: once every block is in, the sender has been told.
  record Between (got : ℕ → Bool) (r : Receiver) (log : List (List ℕ)) : Type 0 where
    phase : Phase n got r
    told : n ≤ r.recv_num → (before : List (List ℕ)) × (log ≡ before ++ (0 ∷ []) ∷ [])

  finished-Sound :
      (got have : ℕ → Bool) (r : Receiver) (log : List (List ℕ))
      → ((j : ℕ) → got j ≡ true → have j ≡ true)
      → Between got r log
      → ltb r.recv_num n ≡ false
      → Sound n have (finished r log)
  finished-Sound got have r log more b h =
      let c : r.recv_num ≡ n = ground (arith, (Tracks-of b.phase).counted, count_below-le got n) in
      (
        c,
        λ j lt. more j (all_of_count got n j (sym (Tracks-of b.phase).counted ∙ c) lt),
        b.told (omega (arith, c)),
      )

  Between-asks :
      (got : ℕ → Bool) (r : Receiver) (log : List (List ℕ))
      → Asked n got r
      → r.start_restran ≡ false
      → Between got r (log ++ (length (missing got 0 n) ∷ missing got 0 n) ∷ [])
  Between-asks got r log a q = record {
    phase = asked a q;
    told = λ h.
        let z : length (missing got 0 n) ≡ 0 =
          omega (arith, a.tracks.counted, length-missing-add-count got n) in
        (
          log,
          ap (λ (m : List ℕ). log ++ (length m ∷ m) ∷ []) (eq-nil_of_length (missing got 0 n) z),
        );
  }

  pub last_not_done :
      (got : ℕ → Bool) (r : Receiver) → Tracks n got r → got (n - 1) ≡ false → r.recv_num < n
  last_not_done got r t h = elim (Bool-cases (ltb r.recv_num n)) [
    | inl less ↦ ltb→lt r.recv_num n less
    | inr full ↦
        let c : r.recv_num ≡ n = ground (arith, t.counted, count_below-le got n) in
        cc (h, all_of_count got n (n - 1) (sym t.counted ∙ c) (omega arith))
  ]

  receive_file_from :
      (ps : List (Poll × Bool)) (got : ℕ → Bool) (r : Receiver) (log : List (List ℕ))
      → AllTimely n got ps
      → Between got r log
      → Sound n (arrived ps got) (receive_file true n ps r log)
  receive_file_from [] got r log h b = elim (Bool-cases (ltb r.recv_num n)) [
    | inl less ↦ rw (receive_file-nil n r log less) (Tracks-of b.phase, ltb→lt r.recv_num n less)
    | inr full ↦
        rw (receive_file-done n [] r log full) (finished-Sound got got r log (λ j e. e) b full)
  ]
  receive_file_from ((p, sent) ∷ ps) got r log (s, h, hs) b = elim (Bool-cases (ltb r.recv_num n)) [
    | inr full ↦ rw (receive_file-done n ((p, sent) ∷ ps) r log full) (
        finished-Sound got (arrived ((p, sent) ∷ ps) got) r log (arrived-keeps ((p, sent) ∷ ps) got)
          b full)
    | inl less ↦ elim (one_round got r p h b.phase) [
      | quiet_fresh r' e f ↦
          rw (receive_file-quiet n p sent ps r r' log less (ap (λ k. round true n p k r) s ∙ e)) (
            receive_file_from ps (after_poll p got) r' log hs (record {
              phase = fresh f;
              told = λ k.
                  absurd (omega (arith, last_not_done (after_poll p got) r' f.tracks f.last_out));
            }))
      | quiet_asked r' e a q lt ↦
          rw (receive_file-quiet n p sent ps r r' log less (ap (λ k. round true n p k r) s ∙ e)) (
            receive_file_from ps (after_poll p got) r' log hs
              (record { phase = asked a q; told = λ k. absurd (omega arith) }))
      | asks r' e a q ↦
          rw (receive_file-asks n p sent ps r r' _ log less (ap (λ k. round true n p k r) s ∙ e)) (
            receive_file_from ps (after_poll p got) r' _ hs
              (Between-asks (after_poll p got) r' log a q))
    ]
  ]

  init-Between : Between (λ _. false) init []
  init-Between = record {
    phase = fresh (record { tracks = init-Tracks n; first = refl; start = refl; last_out = refl });
    told = λ h. absurd (omega arith);
  }

-- With `n` blocks (0 < n < 2 ^ 30), polls that bring only numbers below `n`, requests that can be
-- sent, and no timeout before block `n - 1`: no assert fails and no access is out of range. If the
-- loop ends, all `n` blocks have arrived, `recv_num` is `n`, and the last request sent is the one
-- for zero blocks. If the polls run out first, fewer than `n` blocks have arrived, and the
-- bookkeeping is true to them.
pub receive_file-Sound :
    (n : ℕ) (ps : List (Poll × Bool))
    → 0 < n
    → n < 2 ^ 30
    → AllTimely n (λ _. false) ps
    → Sound n (arrived ps (λ _. false)) (receive_file true n ps init [])
receive_file-Sound n ps pos_n small h =
    receive_file_from n pos_n small ps (λ _. false) init [] h (init-Between n pos_n small)

-- Under the same conditions the loop ends once all `n` blocks have arrived: `recv_num` is `n`, and the
-- last request sent is the one for zero blocks, which ends the sender.
pub receive_file_ends :
    (n : ℕ) (ps : List (Poll × Bool))
    → 0 < n
    → n < 2 ^ 30
    → AllTimely n (λ _. false) ps
    → ((j : ℕ) → j < n → arrived ps (λ _. false) j ≡ true)
    → (r : Receiver) × (before : List (List ℕ)) × (receive_file true n ps init []
        ≡ finished r (before ++ (0 ∷ []) ∷ []))
      × (r.recv_num ≡ n)
receive_file_ends n ps pos_n small h all =
    ends_of_Sound n (arrived ps (λ _. false)) all _ (receive_file-Sound n ps pos_n small h)
