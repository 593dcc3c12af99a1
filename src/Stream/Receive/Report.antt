-- ===== src/Stream/Receive/Report.antt =====
-- The first request and the later ones, from the state that the receiver is in.
use file_transfer_cmd.Prelude.{
  Bool, Bool-cases, List, [], ap, arith, drop, false, inl, inr, length, length-append,
  length-replicate, length-take_of_le, ltb, ltb→lt, lt→ltb, refl, replicate, some, suc, sym, take,
  take-append-drop, take-length-append, true, zero, ℕ, ◌++◌, ◌+◌, ◌-◌, ◌<◌, ◌^◌, ◌∙◌, ◌∷◌, ◌≡◌, ◌≤◌,
}
use file_transfer_cmd.Prelude.Int.{negsuc, pos, suc_ℤ, ℤ}
use file_transfer_cmd.Prelude.Words.{sub32}
use file_transfer_cmd.Stream.Receive.{Receiver, RecvItem, copy_missing, missing_from, store}
use file_transfer_cmd.Stream.Receive.Cases.{ltb_ℤ-pos, ltb_ℤ-pos_not}
use file_transfer_cmd.Stream.Receive.Covers.{
  Covers, Covers-append, count_below, length-missing_from, missing_from-Covers,
}
use file_transfer_cmd.Stream.Receive.Request.{
  copy_missing_lem, length-missing-add-count, missing, missing_skip,
}
use file_transfer_cmd.Stream.Receive.Round.{
  first_request, next_request, request_words, with_tail, write_request,
}
use file_transfer_cmd.Stream.Receive.Tracks.{Tracks}

pub request_words_lem : (u : ℕ) → u + 1 < 2 ^ 30 → request_words u ≡ u + 1
unfolding request_words
request_words_lem u h = omega arith

write_request-store :
    (u w : ℕ) (q : List RecvItem) (ws : List ℕ)
    → write_request u q (w ∷ ws) ≡ copy_missing q 1 (request_words u) (u ∷ ws)
unfolding write_request store
write_request-store u w q ws = ground (arith, lt→ltb 0 (suc (length ws)))

write_request-cons :
    (u w : ℕ) (q : List RecvItem) (ws : List ℕ)
    → u + 1 < 2 ^ 30
    → write_request u q (w ∷ ws) ≡ copy_missing q 1 (u + 1) (u ∷ ws)
write_request-cons u w q ws h =
    write_request-store u w q ws ∙ ap (λ k. copy_missing q 1 k (u ∷ ws)) (request_words_lem u h)

-- A buffer with room for the numbers: the request fills its first words.
write_request_lem :
    (got : ℕ → Bool) (e : ℕ) (q : List RecvItem) (space : List ℕ)
    → Covers got e q
    → suc (length (missing got e (length q))) ≤ length space
    → length (missing got e (length q)) + 1 < 2 ^ 30
    → let m = missing got e (length q) in
      (after : List ℕ) × (write_request (length m) q space ≡ some (length m ∷ (m ++ after)))
write_request_lem got e q [] c h few = absurd (omega arith)
write_request_lem got e q (w ∷ ws) c h few =
    let m : List ℕ = missing got e (length q) in
    let k : ℕ = length m in
    (
      drop k ws,
      write_request-cons k w q ws few
          ∙ copy_missing_lem got e q (k ∷ []) (take k ws) (drop k ws) (k ∷ ws) 1 (k + 1) c
              (length-take_of_le k ws (omega arith)) (ap (◌∷◌ k) (sym (take-append-drop k ws))) refl
              (omega (arith, length-take_of_le k ws (omega arith))),
    )

take-request : (u w : ℕ) (m after : List ℕ) → u ≡ length m → take (u + 1) (w ∷ (m ++ after)) ≡ w ∷ m
take-request u w m after h =
    let z : u + 1 ≡ suc (length m) = omega arith in rw (z, take-length-append m after)

last_number : (m : ℤ) (n : ℕ) → 0 < n → suc_ℤ m ≡ n → m ≡ pos (n - 1)
last_number (pos k) n h e = ap pos (omega arith)
last_number (negsuc k) n h e = absurd (omega arith)

count_below-last : (got : ℕ → Bool) (n : ℕ) → 0 < n → got (n - 1) ≡ true → 0 < count_below got n
count_below-last got zero h last = absurd (omega arith)
count_below-last got (suc n) h last = ground (arith, last)

module _ (n : ℕ) (got : ℕ → Bool) (r : Receiver) (t : Tracks n got r) (pos_n : 0 < n)
    (small : n < 2 ^ 30) where
  open r use {recv_num, expect_seq, recv_max_seq, unrecv}

  -- What is missing from the front of the deque on is all that is missing.
  missing_from_front : missing got 0 n ≡ missing got expect_seq (n - expect_seq)
  missing_from_front =
      let z : n ≡ expect_seq + (n - expect_seq) = omega (arith, t.reach, t.within) in
      let y : 0 + expect_seq ≡ expect_seq = omega arith in
      ap (missing got 0) z
      ∙ missing_skip got 0 expect_seq (n - expect_seq) (λ j a b. t.below j (omega arith))
      ∙ ap (λ e. missing got e (n - expect_seq)) y

  unrecv_num_lem : sub32 n recv_num ≡ length (missing got 0 n)
  unrecv_num_lem = omega (arith, t.counted, length-missing-add-count got n)

  with_tail-open :
      suc_ℤ recv_max_seq < n
      → with_tail n r ≡ unrecv ++ missing_from (suc_ℤ recv_max_seq) (n - suc_ℤ recv_max_seq)
  unfolding with_tail
  with_tail-open h = rw (ltb_ℤ-pos recv_max_seq (sub32 n 1) (omega arith)) refl

  pub with_tail-closed : suc_ℤ recv_max_seq ≡ n → with_tail n r ≡ unrecv
  unfolding with_tail
  with_tail-closed h = rw (ltb_ℤ-pos_not recv_max_seq (sub32 n 1) (omega arith)) refl

  -- The deque of the first request covers every block that is not yet done with.
  with_tail-Covers :
      Covers got expect_seq (with_tail n r) × (length (with_tail n r) ≡ n - expect_seq)
  with_tail-Covers = elim (Bool-cases (ltb (suc_ℤ recv_max_seq) n)) [
    | inl open_end ↦
        let m : ℕ = suc_ℤ recv_max_seq in
        rw (with_tail-open (ltb→lt m n open_end)) (
          Covers-append got expect_seq unrecv (missing_from m (n - m)) t.covers (
              missing_from-Covers got _ m (n - m) t.reach
                (λ j a b. t.beyond j (omega (arith, t.reach)))),
          omega (
            arith,
            t.reach,
            length-append unrecv (missing_from m (n - m)),
            length-missing_from m (n - m),
            ltb→lt m n open_end,
          ),
        )
    | inr closed_end ↦
        let e : suc_ℤ recv_max_seq ≡ n = ground (arith, t.within) in
        rw (with_tail-closed e) (t.covers, omega (arith, t.reach, e))
  ]

  first_request-eq :
      (space : List ℕ)
      → sub32 n recv_num + 1 < 2 ^ 30
      → write_request (sub32 n recv_num) (with_tail n r) (replicate (sub32 n recv_num + 1) 0)
        ≡ some space
      → first_request n r
        ≡ some (record r {
          unrecv = with_tail n r;
          first_restran = false;
          start_restran = true;
          restran_space = space;
          restran_size = sub32 n recv_num + 1;
        })
  unfolding first_request
  first_request-eq space few h =
      let size = request_words_lem (sub32 n recv_num) few in
      rw
        (
          ap (λ k. write_request (sub32 n recv_num) (with_tail n r) (replicate k 0)) size ∙ h,
          first_request,
        )
        (ap
          (λ k. some (record r {
            unrecv = with_tail n r;
            first_restran = false;
            start_restran = true;
            restran_space = space;
            restran_size = k;
          }))
          size)

  -- If the bookkeeping is true to a set of blocks below `n` (0 < n < 2 ^ 30), and fewer than
  -- 2 ^ 30 - 1 of them are missing, so that the size of the request in bytes does not wrap, the first
  -- request consists of the count of the missing blocks and then their numbers, each once and in order, also
  -- those above the highest that has arrived, and no write leaves the buffer.
  pub first_request_lem :
      length (missing got 0 n) + 1 < 2 ^ 30
      → let m = missing got 0 n in
        (after : List ℕ) × (first_request n r
          ≡ some (record r {
            unrecv = with_tail n r;
            first_restran = false;
            start_restran = true;
            restran_space = length m ∷ (m ++ after);
            restran_size = sub32 n recv_num + 1;
          }))
        × (take (sub32 n recv_num + 1) (length m ∷ (m ++ after)) ≡ length m ∷ m)
  first_request_lem few =
      let q : List RecvItem = with_tail n r in
      let m : List ℕ = missing got 0 n in
      let (c, l) = with_tail-Covers in
      let same : missing got expect_seq (length q) ≡ m =
        ap (missing got expect_seq) l ∙ sym missing_from_front in
      let blank : List ℕ = replicate (sub32 n recv_num + 1) 0 in
      let (after, e) =
        write_request_lem got expect_seq q blank c
          (omega (
            arith,
            unrecv_num_lem,
            ap length same,
            length-replicate {A = ℕ} (sub32 n recv_num + 1) 0,
          ))
          (omega (arith, ap length same, few)) in
      (
        after,
        first_request-eq (length m ∷ (m ++ after)) (omega (arith, unrecv_num_lem, few)) (
            ap (λ k. write_request k q blank) (unrecv_num_lem ∙ ap length (sym same))
            ∙ e
            ∙ ap (λ (z : List ℕ). some (length z ∷ (z ++ after))) same),
        take-request (sub32 n recv_num) (length m) m after unrecv_num_lem,
      )

  next_request-eq :
      (space : List ℕ)
      → sub32 n recv_num + 1 < 2 ^ 30
      → write_request (sub32 n recv_num) unrecv r.restran_space ≡ some space
      → next_request n r
        ≡ some (record r {
          start_restran = true;
          restran_space = space;
          restran_size = sub32 n recv_num + 1;
        })
  unfolding next_request
  next_request-eq space few h =
      rw (h, next_request)
        (ap (λ k. some (record r { start_restran = true; restran_space = space; restran_size = k }))
          (request_words_lem (sub32 n recv_num) few))

  -- The last block has arrived, so not all are missing.
  pub not_all_missing : suc_ℤ recv_max_seq ≡ n → length (missing got 0 n) + 1 < 2 ^ 30
  not_all_missing full =
      let last : got (n - 1) ≡ true = t.top (n - 1) (last_number recv_max_seq n pos_n full) in
      omega (arith, length-missing-add-count got n, count_below-last got n pos_n last)

  -- If the bookkeeping is true to a set of blocks below `n` (0 < n < 2 ^ 30), the deque goes up to the
  -- last block and the buffer of the first request has room, a later request consists of the count and
  -- the numbers of what is still missing, and no write leaves the buffer.
  pub next_request_lem :
      suc_ℤ recv_max_seq ≡ n
      → length (missing got 0 n) < length r.restran_space
      → let m = missing got 0 n in
        (after : List ℕ) × (next_request n r
          ≡ some (record r {
            start_restran = true;
            restran_space = length m ∷ (m ++ after);
            restran_size = sub32 n recv_num + 1;
          }))
        × (take (sub32 n recv_num + 1) (length m ∷ (m ++ after)) ≡ length m ∷ m)
  next_request_lem full room =
      let m : List ℕ = missing got 0 n in
      let l : length unrecv ≡ n - expect_seq = omega (arith, t.reach, full) in
      let same : missing got expect_seq (length unrecv) ≡ m =
        ap (missing got expect_seq) l ∙ sym missing_from_front in
      let (after, e) =
        write_request_lem got expect_seq unrecv r.restran_space t.covers
          (omega (arith, ap length same, room))
          (omega (arith, ap length same, not_all_missing full)) in
      (
        after,
        next_request-eq (length m ∷ (m ++ after))
            (omega (arith, unrecv_num_lem, not_all_missing full))
            (ap (λ k. write_request k unrecv r.restran_space)
                (unrecv_num_lem ∙ ap length (sym same))
              ∙ e
              ∙ ap (λ (z : List ℕ). some (length z ∷ (z ++ after))) same),
        take-request (sub32 n recv_num) (length m) m after unrecv_num_lem,
      )
