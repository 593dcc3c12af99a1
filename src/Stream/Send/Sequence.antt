-- ===== src/Stream/Send/Sequence.antt =====
-- StreamControl::postSendFile in the LUCP mode: over all its rounds it sends the numbers of the
-- first pass and then those of each request, in order.
use file_transfer_cmd.Prelude.{
  Bool-cases, List, Option-cases, [], ap, arith, false, inl, inr, length, not, refl, some, subst,
  suc, sym, true, zero, ℕ, ◌&&◌, ◌++◌, ◌-◌, ◌<◌, ◌==◌, ◌^◌, ◌∙◌, ◌∷◌, ◌≡◌, ◌≤◌,
}
use file_transfer_cmd.Stream.Send.{
  SendRound, Sender, WorkPoll, World, bad, complete, complete_all, done, end_round, failed,
  must_wait, next_block, post, push, reap, running, stopped, try_send,
}
use file_transfer_cmd.Stream.Send.Flight.{Accounts, complete-cases}
use file_transfer_cmd.Stream.Send.Order.{Queue, length-run_from, post-again, post-plain, word}
use mathlib.Core.List.{append_assoc}
use mathlib.Core.Option.{some-injective}

-- What is sent and what is still to be sent make up `all`.
pub record InOrder (block_size n : ℕ) (all : List ℕ) (s : Sender) : Type 0 where
  pub todo : List ℕ
  pub queue : Queue block_size n todo s
  pub together : s.sent ++ todo ≡ all

abbrev pub KeepsOrder : ℕ → ℕ → List ℕ → SendRound → Type 0
KeepsOrder block_size n all (running s) = InOrder block_size n all s
KeepsOrder block_size n all (stopped s) = InOrder block_size n all s
KeepsOrder block_size n all out = Unit {0}

post-sent :
    (block_size nbuf : ℕ) (s : Sender)
    → (post true block_size nbuf s).sent ≡ s.sent ++ word s.mem s.current ∷ []
unfolding post push next_block
post-sent block_size nbuf s = ground arith

module _ (block_size nbuf n : ℕ) (some_block : 0 < block_size) (some_buf : 0 < nbuf)
    (few : n ≤ 2 ^ 32) (all : List ℕ) where
  post-InOrder :
      (limit x : ℕ) (xs : List ℕ) (s : Sender)
      → Accounts block_size nbuf limit s
      → Queue block_size n (x ∷ xs) s
      → s.sent ++ x ∷ xs ≡ all
      → InOrder block_size n all (post true block_size nbuf s)
  post-InOrder limit x xs s a q e = record {
    todo = xs;
    queue = elim (Bool-cases s.start_restran) [
      | inl again ↦ post-again block_size nbuf n limit some_buf few x xs s a q again
      | inr plain ↦ post-plain block_size nbuf n limit some_buf few x xs s a q plain
    ];
    together =
        ap (λ l. l ++ xs)
          (post-sent block_size nbuf s ∙ ap (λ y. s.sent ++ y ∷ []) (q.front x xs refl))
        ∙ append_assoc s.sent (x ∷ []) xs
        ∙ e;
  }

  -- Nothing is posted when the queue is empty.
  todo-cons :
      (todo : List ℕ) (s : Sender)
      → Queue block_size n todo s
      → (not s.start_restran && s.bytes_left == 0) ≡ false
      → (x : ℕ) × (xs : List ℕ) × (todo ≡ x ∷ xs)
  todo-cons [] s q h = elim (Bool-cases s.start_restran) [
    | inr plain ↦ ground (arith, q.left)
    | inl again ↦
        let (below, past, list) = q.again again in
        absurd (
          omega (
            arith,
            ap length list
                ∙ length-run_from (word s.restran_space) s.restraned_num
                    (s.restran_num - s.restraned_num),
          ))
  ]
  todo-cons (x ∷ xs) s q h = (x, xs, refl)

  complete_all-InOrder :
      (k : ℕ) (s s' : Sender)
      → InOrder block_size n all s
      → complete_all k s ≡ some s'
      → InOrder block_size n all s'
  unfolding complete_all
  complete_all-InOrder zero s s' o e = subst (InOrder block_size n all) (some-injective _ _ e) o
  complete_all-InOrder (suc k) s s' o e = elim (Option-cases (complete s)) [
    | inl gone ↦ ground arith
    | inr (s₁, e₁) ↦
        let (b, bs, q, z) = complete-cases s s.uncomplete refl e₁ in
        complete_all-InOrder k s₁ s'
          (subst (InOrder block_size n all) (sym z) (record {
            todo = o.todo;
            queue = record {
              left = o.queue.left;
              fits = o.queue.fits;
              front = o.queue.front;
              plain = o.queue.plain;
              again = o.queue.again;
            };
            together = o.together;
          }))
          (ground arith)
  ]

  reap-InOrder :
      (ps : List WorkPoll) (s : Sender)
      → InOrder block_size n all s
      → KeepsOrder block_size n all (end_round true (reap nbuf ps s))
  unfolding reap end_round
  reap-InOrder [] s o = tt
  reap-InOrder (failed ∷ ps) s o = tt
  reap-InOrder (bad ∷ ps) s o = tt
  reap-InOrder (done k ∷ ps) s o = elim (Option-cases (complete_all k s)) [
    | inl gone ↦ rw (gone, reap) tt
    | inr (s', e) ↦
        let o' = complete_all-InOrder k s s' o e in
        rw (e, reap)
          (elim (Bool-cases (must_wait nbuf s')) [
            | inl wait ↦ rw wait (reap-InOrder ps s' o')
            | inr go ↦ rw go o'
          ])
  ]

  pub try_send-InOrder :
      (w : World) (limit : ℕ) (s : Sender)
      → Accounts block_size nbuf limit s
      → InOrder block_size n all s
      → KeepsOrder block_size n all (try_send true block_size nbuf w s)
  unfolding try_send
  try_send-InOrder w limit s a o = elim (Bool-cases w.idle_rate) [
    | inl calm ↦ rw calm o
    | inr busy ↦ rw busy (elim (Bool-cases w.due) [
      | inr early ↦ rw early (reap-InOrder w.polls s o)
      | inl due ↦ rw due (elim (Bool-cases (not s.start_restran && s.bytes_left == 0)) [
        | inl none_left ↦ rw none_left o
        | inr more ↦ rw more (elim (Bool-cases w.posted) [
          | inl ok ↦
              let (x, xs, z) = todo-cons o.todo s o.queue more in
              rw ok (
                reap-InOrder w.polls (post true block_size nbuf s) (
                  post-InOrder limit x xs s a (subst (λ l. Queue block_size n l s) z o.queue)
                    (ap (λ l. s.sent ++ l) (sym z) ∙ o.together)))
          | inr unposted ↦ rw unposted o
        ])
      ])
    ])
  ]
