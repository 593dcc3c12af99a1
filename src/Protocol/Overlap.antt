-- ===== src/Protocol/Overlap.antt =====
-- StreamControl: when the asserts of the sender hold on a request of the receiver.
use file_transfer_cmd.Prelude.{
  Bool-cases, List, Option-cases, [], ap, arith, false, inl, inr, leb, length, some, subst, suc,
  sym, true, ℕ, ◌-◌, ◌<◌, ◌↔◌, ◌∙◌, ◌∷◌, ◌≡◌, ◌≤◌,
}
use file_transfer_cmd.Protocol.{Reach, System, and_then, at_opening, opening}
use file_transfer_cmd.Protocol.End.{Reach-Inv, Transfer}
use file_transfer_cmd.Protocol.Room.{Falling, IsRoomy, Step-IsRoomy, room}
use file_transfer_cmd.Protocol.Safe.{oldest}
use file_transfer_cmd.Stream.Receive.{count}
use file_transfer_cmd.Stream.Receive.Request.{length-missing, missing}
use file_transfer_cmd.Stream.Send.{Sender, begin_restran, fill_space, start}
use file_transfer_cmd.Stream.Send.Order.{Queue, length-run_from, word}
use file_transfer_cmd.Stream.Send.Requests.{nothing_left}
use file_transfer_cmd.Stream.Send.Rounds.{begin_restran-cases}

-- A sender with nothing left to send is not in a retransmission.
idle_sender :
    (block_size n : ℕ) (todo : List ℕ) (s : Sender)
    → 0 < block_size
    → Queue block_size n todo s
    → s.bytes_left ≡ 0
    → s.start_restran ≡ false
idle_sender block_size n todo s some_block q h = elim (Bool-cases s.start_restran) [
  | inr calm ↦ calm
  | inl busy ↦
      let (below, past, list) = q.again busy in
      let none_left : todo ≡ [] = nothing_left block_size n todo s some_block q h in
      absurd (
        omega (
          arith,
          ap length (sym list ∙ none_left),
          length-run_from (word s.restran_space) s.restraned_num (s.restran_num - s.restraned_num),
        ))
]

begin_restran-some :
    (n block_size k : ℕ) (words : List ℕ) (s : Sender)
    → suc k ≤ room n s
    → s.start_restran ≡ false
    → s.bytes_left ≡ 0
    → (s' : Sender) × (begin_restran block_size (suc k) words s ≡ some s')
unfolding begin_restran fill_space
begin_restran-some n block_size k words s h calm spent =
    elim (Option-cases (begin_restran block_size (suc k) words s)) [
      | inr taken ↦ taken
      | inl gone ↦ elim (Bool-cases s.first_restran) [
        | inl first ↦ ground (arith, calm, spent, first, gone)
        | inr again ↦
            let fits : leb (suc k) (length s.restran_space) ≡ true = ground (arith, h, again) in
            ground (arith, calm, spent, again, fits, gone)
      ]
    ]

module _ (block_size nbuf n : ℕ) (mem : List ℕ) (tr : Transfer block_size nbuf n mem) where
  open tr use {some_block, some_buf, few_bufs, some_blocks, few_blocks, fits, buffers}

  Reach-IsRoomy : {t : System} → Reach block_size nbuf n (opening block_size n mem) t → IsRoomy n t
  unfolding start
  Reach-IsRoomy at_opening = length-missing (λ _. false) 0 n
  Reach-IsRoomy (and_then r st) =
      Step-IsRoomy block_size nbuf n some_block some_buf few_bufs some_blocks few_blocks fits st
        (Reach-Inv block_size nbuf n mem tr r) (Reach-IsRoomy r)

  -- At every point of a transfer in which no timeout of the receiver comes before the last block has
  -- arrived and every request can be sent, the asserts of the sender on the oldest request, one for some
  -- blocks, hold, and its words fit in the buffer, exactly when the sender has nothing left to send.
  pub begin_restran_iff :
      {t : System} (k : ℕ) (words : List ℕ) (rest : List (List ℕ))
      → Reach block_size nbuf n (opening block_size n mem) t
      → t.pending ≡ (suc k ∷ words) ∷ rest
      → (t.sender.bytes_left ≡ 0)
        ↔ ((s : Sender) × (begin_restran block_size (suc k) words t.sender ≡ some s))
  begin_restran_iff {t} k words rest reach p =
      let v = Reach-Inv block_size nbuf n mem tr reach in
      let (count, small_list, below, zero_all, qs) =
        oldest block_size nbuf n some_block some_buf few_bufs some_blocks few_blocks fits t (suc k)
          words rest v p in
      let (short, some_word, f) =
        subst (Falling (room n t.sender) (length (missing t.got 0 n))) p (Reach-IsRoomy reach) in
      (
        λ spent.
            begin_restran-some n block_size k words t.sender (omega (arith, count, short))
              (idle_sender block_size n v.order.todo t.sender some_block v.order.queue spent) spent,
        λ (s, e).
            let (space, z, still, filled, spent) =
              begin_restran-cases block_size (suc k) words t.sender e in
            spent,
      )
