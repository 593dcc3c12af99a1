-- ===== src/Stream/Send/Rounds.antt =====
-- StreamControl::postSendFile: the accounts over a whole round.
use file_transfer_cmd.Prelude.{
  Bool, Bool-cases, List, Option-cases, [], arith, false, get_or, inl, inr, length-set, not, set,
  some, subst, suc, sym, true, zero, ℕ, ◌%◌, ◌&&◌, ◌+◌, ◌<◌, ◌==◌, ◌^◌, ◌∙◌, ◌∷◌, ◌≡◌, ◌≤◌,
}
use file_transfer_cmd.Prelude.Words.{add64, mul64}
use file_transfer_cmd.Stream.Send.{
  Control, SendRound, Sender, WorkPoll, World, asked, bad, begin_restran, closed, complete_all, cut,
  done, end_round, failed, failing, fault, fill_space, lost, must_wait, post, push, reap, running,
  send_round, serve, silent, starved, stopped, try_send,
}
use file_transfer_cmd.Stream.Send.Flight.{
  Accounts, complete_all-Accounts, next_block-Accounts, push-Accounts,
}

must_wait-few : (nbuf : ℕ) (s : Sender) → must_wait nbuf s ≡ false → s.outstanding < nbuf
unfolding must_wait
must_wait-few nbuf s h = ground arith

pub begin_restran-cases :
    (block_size num : ℕ) (words : List ℕ) (s : Sender) {s' : Sender}
    → begin_restran block_size num words s ≡ some s'
    → (space : List ℕ) × (s' ≡ record s {
      restran_num = num;
      first_restran = false;
      restran_space = space;
      start_restran = true;
      mem = set s.mem s.current (get_or space 0 0);
      bytes_left = add64 s.bytes_left (mul64 num block_size);
      restraned_num = 0;
    })
      × (s.start_restran ≡ false)
      × (fill_space s.first_restran num words s.restran_space ≡ some space)
      × (s.bytes_left ≡ 0)
unfolding begin_restran
begin_restran-cases block_size num words s e =
    elim (Option-cases (fill_space s.first_restran num words s.restran_space)) [
      | inl gone ↦ ground arith
      | inr (space, z) ↦ (space, ground arith, ground arith, z, ground arith)
    ]

-- A round that goes on has fewer blocks in flight than there are buffers.
abbrev pub Settled : ℕ → ℕ → SendRound → Type 0
Settled block_size nbuf (running s) =
    (limit : ℕ) × Accounts block_size nbuf limit s × (limit < nbuf)
Settled block_size nbuf out = Unit {0}

module _ (block_size nbuf : ℕ) (small : nbuf < 2 ^ 32) (some_buf : 0 < nbuf) where
  Accounts-tighten :
      (limit : ℕ) (s : Sender)
      → Accounts block_size nbuf nbuf s
      → s.outstanding ≤ limit
      → Accounts block_size nbuf limit s
  Accounts-tighten limit s a h = record {
    flying = a.flying;
    few = h;
    posted = a.posted;
    buffers = a.buffers;
    here = a.here;
    payload = a.payload;
    counted = a.counted;
    bytes = a.bytes;
    logged = a.logged;
  }

  reap-Settled :
      (ps : List WorkPoll) (s : Sender)
      → Accounts block_size nbuf nbuf s
      → Settled block_size nbuf (reap nbuf ps s)
  unfolding reap
  reap-Settled [] s a = tt
  reap-Settled (failed ∷ ps) s a = tt
  reap-Settled (bad ∷ ps) s a = tt
  reap-Settled (done n ∷ ps) s a = elim (Option-cases (complete_all n s)) [
    | inl gone ↦ rw (gone, reap) tt
    | inr (s', e) ↦
        let a' = complete_all-Accounts small n s s' a e in
        rw (e, reap)
          (elim (Bool-cases (must_wait nbuf s')) [
            | inl wait ↦ rw wait (reap-Settled ps s' a')
            | inr go ↦ rw go (
              s'.outstanding,
              Accounts-tighten s'.outstanding s' a' (omega arith),
              must_wait-few nbuf s' go,
            )
          ])
  ]

  end_round-Settled :
      (use_message : Bool) (out : SendRound)
      → Settled block_size nbuf out
      → Settled block_size nbuf (end_round use_message out)
  unfolding end_round
  end_round-Settled use_message fault h = tt
  end_round-Settled use_message failing h = tt
  end_round-Settled use_message lost h = tt
  end_round-Settled use_message starved h = tt
  end_round-Settled use_message (stopped s) h = tt
  end_round-Settled use_message (running s) h =
      elim (Bool-cases (not use_message && s.bytes_left == 0)) [
        | inl last ↦ rw last tt
        | inr more ↦ rw more h
      ]

  pub Accounts-widen :
      (limit bound : ℕ) (s : Sender)
      → limit ≤ bound
      → Accounts block_size nbuf limit s
      → Accounts block_size nbuf bound s
  Accounts-widen limit bound s h a = record {
    flying = a.flying;
    few = omega (arith, a.few);
    posted = a.posted;
    buffers = a.buffers;
    here = a.here;
    payload = a.payload;
    counted = a.counted;
    bytes = a.bytes;
    logged = a.logged;
  }

  reaped :
      (use_message : Bool) (ps : List WorkPoll) (limit : ℕ) (s : Sender)
      → limit ≤ nbuf
      → Accounts block_size nbuf limit s
      → Settled block_size nbuf (end_round use_message (reap nbuf ps s))
  reaped use_message ps limit s h a =
      end_round-Settled use_message (reap nbuf ps s)
        (reap-Settled ps s (Accounts-widen limit nbuf s h a))

  try_send-Settled :
      (use_message : Bool) (w : World) (limit : ℕ) (s : Sender)
      → limit < nbuf
      → Accounts block_size nbuf limit s
      → Settled block_size nbuf (try_send use_message block_size nbuf w s)
  unfolding try_send post
  try_send-Settled use_message w limit s h a = elim (Bool-cases (use_message && w.idle_rate)) [
    | inl calm ↦ rw calm (limit, a, h)
    | inr busy ↦ rw busy (elim (Bool-cases (use_message && not w.due)) [
      | inl early ↦ rw early (reaped use_message w.polls limit s (omega arith) a)
      | inr due ↦
          rw due (elim (Bool-cases (use_message && (not s.start_restran && s.bytes_left == 0))) [
            | inl none_left ↦ rw none_left (limit, a, h)
            | inr more ↦ rw more (elim (Bool-cases w.posted) [
              | inl ok ↦ rw ok (
                  reaped use_message w.polls (limit + 1) (post use_message block_size nbuf s)
                    (omega arith)
                    (next_block-Accounts (push block_size nbuf s) (push-Accounts s a) use_message
                      ((s.i + 1) % nbuf)))
              | inr unposted ↦ rw unposted tt
            ])
          ])
    ])
  ]

  pub begin_restran-Accounts :
      (num : ℕ) (words : List ℕ) (limit : ℕ) (s s' : Sender)
      → Accounts block_size nbuf limit s
      → begin_restran block_size num words s ≡ some s'
      → Accounts block_size nbuf limit s'
  begin_restran-Accounts num words limit s s' a e =
      let (space, z, still, filled, spent) = begin_restran-cases block_size num words s e in
      subst (Accounts block_size nbuf limit) (sym z) (record {
        flying = a.flying;
        few = a.few;
        posted = a.posted;
        buffers = length-set s.mem s.current (get_or space 0 0) ∙ a.buffers;
        here = a.here;
        payload = a.payload;
        counted = a.counted;
        bytes = a.bytes;
        logged = a.logged;
      })

  serve-Settled :
      (c : Control) (w : World) (limit : ℕ) (s : Sender)
      → limit < nbuf
      → Accounts block_size nbuf limit s
      → Settled block_size nbuf (serve block_size nbuf c w s)
  unfolding serve
  serve-Settled silent w limit s h a = try_send-Settled true w limit s h a
  serve-Settled closed w limit s h a = tt
  serve-Settled cut w limit s h a = tt
  serve-Settled (asked zero words) w limit s h a = tt
  serve-Settled (asked (suc n) words) w limit s h a =
      elim (Option-cases (begin_restran block_size (suc n) words s)) [
        | inl gone ↦ rw (gone, serve) tt
        | inr (s', e) ↦
            rw (e, serve)
              (try_send-Settled true w limit s' h
                (begin_restran-Accounts (suc n) words limit s s' a e))
      ]

  -- Every round keeps the accounts, in either mode and whatever the world does: if the round goes
  -- on, the number in flight is the number of bytes entries waiting and is less than the number of
  -- buffers, the current buffer is `i % nbuf`, and the bytes acknowledged and in flight make up the
  -- bytes of the blocks posted, modulo 2 ^ 64.
  pub send_round-Settled :
      (use_message : Bool) (w : World) (limit : ℕ) (s : Sender)
      → limit < nbuf
      → Accounts block_size nbuf limit s
      → Settled block_size nbuf (send_round use_message block_size nbuf w s)
  unfolding send_round
  send_round-Settled true w limit s h a = serve-Settled w.control w limit s h a
  send_round-Settled false w limit s h a = try_send-Settled false w limit s h a
