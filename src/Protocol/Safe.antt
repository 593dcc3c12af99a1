-- ===== src/Protocol/Safe.antt =====
-- A transfer in the LUCP mode: every step keeps the invariant.
use file_transfer_cmd.Prelude.{
  All, All-append, Bool, List, [], ap, arith, eq-nil_of_length, length, refl, subst, suc, sym, true,
  zero, ℕ, ◌*◌, ◌++◌, ◌+◌, ◌-◌, ◌<◌, ◌^◌, ◌∙◌, ◌∷◌, ◌≡◌, ◌≢◌, ◌≤◌,
}
use file_transfer_cmd.Protocol.{Step, System, ask, receive_on, send_on, take_up}
use file_transfer_cmd.Protocol.Kept.{Inv, IsRequest, Told, count_of, words_of}
use file_transfer_cmd.Protocol.Receiving.{
  IsRequest-missing, ask-Phase, good_round, later, quiet_Phase,
}
use file_transfer_cmd.Stream.Receive.{Receiver, count}
use file_transfer_cmd.Stream.Receive.Loop.{Phase, after_poll}
use file_transfer_cmd.Stream.Receive.Request.{length-missing-add-count, missing}
use file_transfer_cmd.Stream.Receive.Tracks.{Tracks}
use file_transfer_cmd.Stream.Send.{SendRound, Sender, World, asked, send_round, serve, silent}
use file_transfer_cmd.Stream.Send.Flight.{Accounts}
use file_transfer_cmd.Stream.Send.Requests.{IsWhole, requested, serve-InOrder}
use file_transfer_cmd.Stream.Send.Rounds.{Accounts-widen, Settled, send_round-Settled}
use file_transfer_cmd.Stream.Send.Sequence.{InOrder, KeepsOrder}
use native.Mathlib.Nat.{add-mul}
use mathlib.Core.List.{head-eq_of_cons-eq, tail-eq_of_cons-eq}

module _ (block_size nbuf n : ℕ) (some_block : 0 < block_size) (some_buf : 0 < nbuf)
    (small : nbuf < 2 ^ 32) (pos_n : 0 < n) (few : n < 2 ^ 30)
    (fits : n * block_size < 2 ^ 64) where
  -- What a round of the sender takes up.
  whole :
      (w : World) (ws : List ℕ)
      → w.control ≡ asked (length ws) ws
      → length ws ≤ n
      → IsWhole block_size w
  whole w ws e h k words e' =
      let same : asked (length ws) ws ≡ asked k words = sym e ∙ e' in
      let count : length ws ≡ k = ap count_of same in
      let text : ws ≡ words = ap words_of same in
      (
        ap length (sym text) ∙ count,
        omega (arith, count, h),
        omega (
          arith,
          fits,
          add-mul k (n - k) block_size,
          ap (λ j. j * block_size) (the_sum k count h),
        ),
      )
    where
      the_sum : (k : ℕ) → length ws ≡ k → length ws ≤ n → k + (n - k) ≡ n
      the_sum k c h = omega arith

  send_step :
      (w : World) (all : List ℕ) (limit : ℕ) (s s' : Sender)
      → IsWhole block_size w
      → limit < nbuf
      → Accounts block_size nbuf limit s
      → InOrder block_size n all s
      → send_round true block_size nbuf w s ≡ SendRound.running s'
      → Settled block_size nbuf (SendRound.running s')
        × InOrder block_size n (all ++ requested w.control) s'
  unfolding send_round
  send_step w all limit s s' iw lt a o e = (
    subst (Settled block_size nbuf) e
        (send_round-Settled block_size nbuf small some_buf true w limit s lt a),
    subst (KeepsOrder block_size n (all ++ requested w.control)) e (
        serve-InOrder block_size nbuf n some_block some_buf small (omega arith) all w s iw
          (Accounts-widen block_size nbuf small some_buf limit nbuf s (omega arith) a) o w.control
          refl),
  )

  -- A round of the sender that goes on, with the requests that stay.
  sent_on :
      (t : System) (w : World) (s : Sender) (rest : List (List ℕ))
      → Inv block_size nbuf n t
      → IsWhole block_size w
      → All (λ i. i < n) (requested w.control)
      → All (IsRequest n t.got) rest
      → (n ≤ t.receiver.recv_num → Told rest)
      → send_round true block_size nbuf w t.sender ≡ SendRound.running s
      → Inv block_size nbuf n (record t { sender = s; pending = rest })
  sent_on t w s rest v iw below qs told e =
      let ((limit', a', lt'), o') =
        send_step w v.all v.limit t.sender s iw v.lt v.accounts v.order e in
      record {
        limit = limit';
        lt = lt';
        accounts = a';
        all = v.all ++ requested w.control;
        order = o';
        below = All-append (λ i. i < n) v.all (requested w.control) v.below below;
        phase = v.phase;
        requests = qs;
        told = told;
      }

  -- The oldest request, as the sender reads it.
  pub oldest :
      (t : System) (k : ℕ) (words : List ℕ) (rest : List (List ℕ))
      → Inv block_size nbuf n t
      → t.pending ≡ (k ∷ words) ∷ rest
      → (length words ≡ k)
        × (length words ≤ n)
        × All (λ i. i < n) words
        × (k ≡ 0 → (j : ℕ) → j < n → t.got j ≡ true)
        × All (IsRequest n t.got) rest
  oldest t k words rest v e =
      let (q, qs) = subst (All (IsRequest n t.got)) e v.requests in
      let count : k ≡ length q.words = head-eq_of_cons-eq q.shape in
      let text : words ≡ q.words = tail-eq_of_cons-eq q.shape in
      (
        ap length text ∙ sym count,
        omega (arith, q.few, ap length text),
        subst (All (λ i. i < n)) (sym text) q.below,
        λ z. q.zero_all (sym count ∙ z),
        qs,
      )

  requested-below :
      (k : ℕ) (words : List ℕ)
      → All (λ i. i < n) words
      → All (λ i. i < n) (requested (asked k words))
  requested-below zero words h = tt
  requested-below (suc k) words h = h

  silent-IsWhole : (w : World) → w.control ≡ silent → IsWhole block_size w
  silent-IsWhole w e k words e' = cc

  -- The request for zero blocks is not passed by.
  pub zero_stops :
      (w : World) (s s' : Sender) (words : List ℕ)
      → w.control ≡ asked 0 words
      → ¬ (send_round true block_size nbuf w s ≡ SendRound.running s')
  unfolding send_round serve
  zero_stops w s s' words e = λ h.
      let h' : SendRound.stopped s ≡ SendRound.running s' =
        sym (ap (λ c. serve block_size nbuf c w s) e) ∙ h in
      cc

  Told-rest :
      (k : ℕ) (words : List ℕ) (rest pending : List (List ℕ))
      → k ≢ 0
      → pending ≡ (k ∷ words) ∷ rest
      → Told pending
      → Told rest
  Told-rest k words rest pending nonzero e ([], q) =
      absurd (nonzero (head-eq_of_cons-eq (head-eq_of_cons-eq (sym e ∙ q))))
  Told-rest k words rest pending nonzero e (b ∷ bs, q) = (bs, tail-eq_of_cons-eq (sym e ∙ q))

  Told-missing :
      (got : ℕ → Bool) (r : Receiver) (pending : List (List ℕ))
      → Tracks n got r
      → n ≤ r.recv_num
      → Told (pending ++ (length (missing got 0 n) ∷ missing got 0 n) ∷ [])
  Told-missing got r pending t h =
      let z : length (missing got 0 n) ≡ 0 =
        omega (arith, t.counted, length-missing-add-count got n) in
      (
        pending,
        ap (λ (m : List ℕ). pending ++ (length m ∷ m) ∷ []) (eq-nil_of_length (missing got 0 n) z),
      )

  pub Step-Inv :
      {t u : System}
      → Step block_size nbuf n t u
      → Inv block_size nbuf n t
      → Inv block_size nbuf n u
  Step-Inv (send_on t w s e run) v =
      sent_on t w s t.pending v (silent-IsWhole w e)
        (subst (λ c. All (λ i. i < n) (requested c)) (sym e) tt) v.requests v.told run
  Step-Inv (take_up t w s k words rest p e run) v =
      let (count, small_list, below, zero_all, qs) = oldest t k words rest v p in
      sent_on t w s rest v (whole w words (e ∙ ap (λ j. asked j words) (sym count)) small_list)
        (subst (λ c. All (λ i. i < n) (requested c)) (sym e) (requested-below k words below)) qs
        (λ h.
          Told-rest k words rest t.pending
            (λ z. zero_stops w t.sender s words (e ∙ ap (λ j. asked j words) z) run) p (v.told h))
        run
  Step-Inv (receive_on t p r lt c run) v =
      let (ph, less) =
        quiet_Phase block_size nbuf n some_block some_buf small pos_n few fits (after_poll p t.got)
          r _ run (good_round block_size nbuf n some_block some_buf small pos_n few fits t p v c) in
      record {
        limit = v.limit;
        lt = v.lt;
        accounts = v.accounts;
        all = v.all;
        order = v.order;
        below = v.below;
        phase = ph;
        requests = later block_size nbuf n some_block some_buf small pos_n few fits t p v;
        told = λ h. absurd (omega arith);
      }
  Step-Inv (ask t p r m lt c run) v =
      let got' : ℕ → Bool = after_poll p t.got in
      let (a, q, e) =
        ask-Phase block_size nbuf n some_block some_buf small pos_n few fits got' r m _ run
          (good_round block_size nbuf n some_block some_buf small pos_n few fits t p v c) in
      record {
        limit = v.limit;
        lt = v.lt;
        accounts = v.accounts;
        all = v.all;
        order = v.order;
        below = v.below;
        phase = Phase.asked a q;
        requests =
            All-append (IsRequest n got') t.pending (m ∷ [])
              (later block_size nbuf n some_block some_buf small pos_n few fits t p v)
              (
                subst (IsRequest n got') (sym e) (
                    IsRequest-missing block_size nbuf n some_block some_buf small pos_n few fits
                      got'),
                tt,
              );
        told = λ h.
            subst (λ k. Told (t.pending ++ k ∷ [])) (sym e)
              (Told-missing got' r t.pending a.tracks h);
      }
