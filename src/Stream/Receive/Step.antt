-- ===== src/Stream/Receive/Step.antt =====
-- One completion keeps the receiver's bookkeeping true to the set of numbers that have arrived.
use file_transfer_cmd.Prelude.{
  Bool, Bool-cases, List, [], ap, arith, false, get_elem?, inl, inr, length, length-append,
  length-set, ltb, refl, set, some, subst, suc, sym, true, ℕ, ◌++◌, ◌+◌, ◌-◌, ◌<◌, ◌==◌, ◌^◌, ◌∙◌,
  ◌∷◌, ◌≡◌, ◌≢◌, ◌≤◌,
}
use file_transfer_cmd.Prelude.Int.{beq_ℤ, pos, suc_ℤ}
use file_transfer_cmd.Prelude.Words.{add32, sub32}
use file_transfer_cmd.Stream.Receive.{
  Receiver, RecvItem, count, drain, fill, mark_late, missing_from, receive, skip_ahead,
}
use file_transfer_cmd.Stream.Receive.Cases.{
  fill_lem, is_ahead, is_front, is_late, is_next, is_old, is_top, mark_late_new, mark_late_old,
  receive-cases, top_of_beq,
}
use file_transfer_cmd.Stream.Receive.Covers.{
  Covers, Covers-append, Covers-congr, Covers-get, Covers-set, Drained, count_below, drain-Drained,
  get-total, insert, length-missing_from, missing_from-Covers,
}
use file_transfer_cmd.Stream.Receive.Tracks.{Tracks, Tracks-congr, count_below-insert, insert_old}

Covers-empty : (got : ℕ → Bool) (e : ℕ) (q : List RecvItem) → length q ≡ 0 → Covers got e q
Covers-empty got e [] h = tt
Covers-empty got e (x ∷ xs) h = absurd (omega arith)

module _ (n : ℕ) (got : ℕ → Bool) (r : Receiver) (t : Tracks n got r) (id : ℕ) (lt : id < n)
    (small : n < 2 ^ 31) where
  open r use {recv_num, expect_seq, recv_max_seq, unrecv}

  insert_other : (j : ℕ) → j ≢ id → insert id got j ≡ got j
  insert_other j h = ground arith

  insert_here : (j : ℕ) → j ≡ id → insert id got j ≡ true
  insert_here j h = ground arith

  insert_kept : (j : ℕ) → got j ≡ true → insert id got j ≡ true
  insert_kept j h = ground arith

  counted_new : got id ≡ false → recv_num + 1 ≡ count_below (insert id got) n
  counted_new new = omega (arith, t.counted, count_below-insert got id n lt new)

  Tracks-old : got id ≡ true → Tracks n (insert id got) r
  Tracks-old old = Tracks-congr n got (insert id got) r (λ j. insert_old got id j old) t

  Tracks-next :
      id ≡ expect_seq
      → suc_ℤ recv_max_seq ≤ expect_seq
      → Tracks n
          (insert id got)
          (count (record r { expect_seq = add32 expect_seq 1; recv_max_seq = pos id }))
  Tracks-next e h = record {
    covers = Covers-empty _ _ unrecv (omega (arith, t.reach));
    reach = omega (arith, t.reach, t.within);
    below = λ j b. elim (Bool-cases (j == id)) [
      | inl here ↦ insert_here j (ground arith)
      | inr other ↦ insert_kept j (t.below j (ground arith))
    ];
    front = λ b. absurd (omega (arith, t.reach, t.within));
    beyond = λ j b. insert_other j (omega arith) ∙ t.beyond j (omega arith);
    top = λ m b. insert_here m (ground arith);
    within = omega arith;
    counted = counted_new (t.beyond id (omega arith));
  }

  abbrev gap_entries : List RecvItem
  gap_entries = missing_from (suc_ℤ recv_max_seq) (id - suc_ℤ recv_max_seq)

  new_front : id ≡ expect_seq → expect_seq < suc_ℤ recv_max_seq → got id ≡ false
  new_front e h = ap got e ∙ t.front h

  not_top :
      id ≡ expect_seq
      → expect_seq < suc_ℤ recv_max_seq
      → beq_ℤ (pos expect_seq) recv_max_seq ≡ false
  not_top e h = elim (Bool-cases (beq_ℤ (pos expect_seq) recv_max_seq)) [
    | inl top ↦ cc (t.front h, t.top expect_seq (top_of_beq expect_seq recv_max_seq top))
    | inr below ↦ below
  ]

  Tracks-fill_cons :
      (x : RecvItem) (xs : List RecvItem)
      → unrecv ≡ x ∷ xs
      → id ≡ expect_seq
      → expect_seq < suc_ℤ recv_max_seq
      → (r' : Receiver) × (fill id r (x ∷ xs) ≡ some r') × Tracks n (insert id got) r'
  Tracks-fill_cons x xs q e h =
      let out : List RecvItem × ℕ = drain (record x { recved = true } ∷ xs) expect_seq in
      let (s, m, c) = subst (Covers got expect_seq) q t.covers in
      let size : length unrecv ≡ suc (length xs) = ap length q in
      let d : Drained (insert id got) expect_seq (record x { recved = true } ∷ xs) out =
        drain-Drained (insert id got) expect_seq (record x { recved = true } ∷ xs)
          (omega (arith, t.reach, t.within))
          (
            s,
            ground arith,
            Covers-congr got (insert id got) (suc expect_seq) xs
                (λ j a b. sym (insert_other j (omega arith))) c,
          ) in
      (
        count (record r { unrecv = out.0; expect_seq = out.1 }),
        fill_lem id r x xs (not_top e h) (s ∙ sym e),
        record {
          covers = d.rest;
          reach = omega (arith, d.reach, t.reach);
          below = λ j b. elim (Bool-cases (ltb j expect_seq)) [
            | inl old ↦ insert_kept j (t.below j (ground arith))
            | inr new ↦ d.passed j (ground arith) b
          ];
          front = λ b. d.next_missing (omega (arith, t.reach));
          beyond = λ j b. insert_other j (omega arith) ∙ t.beyond j b;
          top = λ k b. insert_kept k (t.top k b);
          within = t.within;
          counted = counted_new (new_front e h);
        },
      )

  Tracks-fill :
      (q : List RecvItem)
      → unrecv ≡ q
      → id ≡ expect_seq
      → expect_seq < suc_ℤ recv_max_seq
      → (r' : Receiver) × (fill id r q ≡ some r') × Tracks n (insert id got) r'
  Tracks-fill [] q e h = absurd (omega (arith, t.reach, ap length q))
  Tracks-fill (x ∷ xs) q e h = Tracks-fill_cons x xs q e h

  Tracks-mark :
      (k : ℕ) (x : RecvItem)
      → expect_seq + k ≡ id
      → expect_seq < id
      → id < suc_ℤ recv_max_seq
      → get_elem? unrecv k ≡ some x
      → x.recved ≡ false
      → Tracks n
          (insert id got)
          (count (record r { unrecv = set unrecv k (record x { recved = true }) }))
  Tracks-mark k x e lo hi g new = record {
    covers =
        subst (λ i. Covers (insert i got) expect_seq (set unrecv k (record x { recved = true }))) e
          (Covers-set got expect_seq k unrecv x t.covers g);
    reach = omega (arith, t.reach, length-set unrecv k (record x { recved = true }));
    below = λ j b. insert_kept j (t.below j b);
    front = λ b. insert_other expect_seq (omega arith) ∙ t.front b;
    beyond = λ j b. insert_other j (omega arith) ∙ t.beyond j b;
    top = λ m b. insert_kept m (t.top m b);
    within = t.within;
    counted =
        counted_new
          (ap got (sym e) ∙ sym (Covers-get got expect_seq k unrecv x t.covers g).1 ∙ new);
  }

  Tracks-late :
      expect_seq < id
      → id < suc_ℤ recv_max_seq
      → (r' : Receiver) × (mark_late id r ≡ some r') × Tracks n (insert id got) r'
  Tracks-late lo hi =
      let k : ℕ = sub32 id expect_seq in
      let at : expect_seq + k ≡ id = omega arith in
      let (x, g) = get-total unrecv k (omega (arith, t.reach)) in
      let (s, m) = Covers-get got expect_seq k unrecv x t.covers g in
      elim (Bool-cases x.recved) [
        | inl old ↦ (r, mark_late_old id r x g old, Tracks-old (ap got (sym at) ∙ sym m ∙ old))
        | inr new ↦ (_, mark_late_new id r x g new, Tracks-mark k x at lo hi g new)
      ]

  gap_size : suc_ℤ recv_max_seq ≤ id → expect_seq + length (unrecv ++ gap_entries) ≡ id
  gap_size hi = omega (
    arith,
    t.reach,
    length-append unrecv gap_entries,
    length-missing_from (suc_ℤ recv_max_seq) (id - suc_ℤ recv_max_seq),
  )

  gap-Covers : suc_ℤ recv_max_seq ≤ id → Covers (insert id got) expect_seq (unrecv ++ gap_entries)
  gap-Covers hi =
      Covers-append (insert id got) expect_seq unrecv gap_entries
        (Covers-congr got (insert id got) expect_seq unrecv
          (λ j a b. sym (insert_other j (omega (arith, t.reach)))) t.covers)
        (missing_from-Covers (insert id got) _ (suc_ℤ recv_max_seq) (id - suc_ℤ recv_max_seq)
          t.reach
          (λ j a b. insert_other j (omega (arith, t.reach)) ∙ t.beyond j (omega (arith, t.reach))))

  expect_missing : got id ≡ false → suc_ℤ recv_max_seq ≤ id → got expect_seq ≡ false
  expect_missing new hi = elim (Bool-cases (ltb expect_seq (suc_ℤ recv_max_seq))) [
    | inl inside ↦ t.front (ground arith)
    | inr outside ↦ t.beyond expect_seq (ground arith)
  ]

  Tracks-ahead :
      expect_seq < id → suc_ℤ recv_max_seq ≤ id → Tracks n (insert id got) (skip_ahead id r)
  unfolding skip_ahead
  Tracks-ahead lo hi = record {
    covers =
        Covers-append (insert id got) expect_seq (unrecv ++ gap_entries)
          (record { seq = id; recved = true } ∷ []) (gap-Covers hi)
          (sym (gap_size hi), sym (insert_here _ (gap_size hi)), tt);
    reach = omega (
      arith,
      gap_size hi,
      length-append (unrecv ++ gap_entries) (record { seq = id; recved = true } ∷ []),
    );
    below = λ j b. insert_kept j (t.below j b);
    front = λ b. insert_other expect_seq (omega arith) ∙ expect_missing (t.beyond id hi) hi;
    beyond = λ j b. insert_other j (omega arith) ∙ t.beyond j (omega arith);
    top = λ m b. insert_here m (ground arith);
    within = omega arith;
    counted = counted_new (t.beyond id hi);
  }

  -- One completion for a block in range passes every assert and index, and adds its number to the
  -- set: duplicates change nothing, new numbers are counted once.
  pub receive-Tracks : (r' : Receiver) × (receive id r ≡ some r') × Tracks n (insert id got) r'
  receive-Tracks = elim (receive-cases id r) [
    | is_old h e ↦ (r, e, Tracks-old (t.below id h))
    | is_next h g e ↦ (_, e, Tracks-next h g)
    | is_front h g e ↦ let (r', f, k) = Tracks-fill unrecv refl h g in (r', e ∙ f, k)
    | is_late h g e ↦ let (r', f, k) = Tracks-late h g in (r', e ∙ f, k)
    | is_ahead h g e ↦ (_, e, Tracks-ahead h g)
    | is_top h e ↦ (r, e, Tracks-old (t.top id h))
  ]
