-- ===== src/Stream/Receive/Session.antt =====
-- A whole reception in the LUCP mode, where no timeout comes before the last block.
use file_transfer_cmd.Prelude.{
  ==_iff, Bool, Bool-cases, List, ap, arith, false, inl, inr, length, length-append, ltb, ltb→lt,
  none, refl, some, take, true, ℕ, ◌&&◌, ◌++◌, ◌+◌, ◌-◌, ◌<◌, ◌==◌, ◌^◌, ◌||◌, ◌∙◌, ◌∷◌, ◌≡◌,
}
use file_transfer_cmd.Prelude.Int.{beq_ℤ, negsuc, pos, suc_ℤ, ℤ}
use file_transfer_cmd.Prelude.Words.{sub32}
use file_transfer_cmd.Stream.Receive.{Receiver}
use file_transfer_cmd.Stream.Receive.Phase.{
  Asked, Fresh, count_below-le, expect_of_count, full_of_last,
}
use file_transfer_cmd.Stream.Receive.Report.{
  first_request_lem, next_request_lem, not_all_missing, with_tail-closed,
}
use file_transfer_cmd.Stream.Receive.Request.{missing}
use file_transfer_cmd.Stream.Receive.Round.{
  Round, first_request, next_request, request, respond, running, with_tail,
}
use file_transfer_cmd.Stream.Receive.Tracks.{Tracks}

-- How a round can end: with the bookkeeping true to `got`, and, once every block is in, with the
-- request for zero blocks that tells the sender.
pub data RoundGood (n : ℕ) (got : ℕ → Bool) (out : Round) : Type 0 where
  quiet_fresh : (r : Receiver) → out ≡ running r none → Fresh n got r → RoundGood n got out
  quiet_asked :
      (r : Receiver)
      → out ≡ running r none
      → Asked n got r
      → r.start_restran ≡ false
      → r.recv_num < n
      → RoundGood n got out
  asks :
      (r : Receiver)
      → out ≡ running r (some (length (missing got 0 n) ∷ missing got 0 n))
      → Asked n got r
      → r.start_restran ≡ false
      → RoundGood n got out

beq_ℤ-last : (m : ℤ) (n : ℕ) → 0 < n → n < 2 ^ 30 → suc_ℤ m ≡ n → beq_ℤ m (pos (sub32 n 1)) ≡ true
beq_ℤ-last (pos k) n h b e = (==_iff k (sub32 n 1)).1 (omega arith)
beq_ℤ-last (negsuc k) n h b e = absurd (omega arith)

last_of_beq :
    (m : ℤ) (n : ℕ) → 0 < n → n < 2 ^ 30 → beq_ℤ m (pos (sub32 n 1)) ≡ true → m ≡ pos (n - 1)
last_of_beq (pos k) n h b e =
    let d : k ≡ sub32 n 1 = (==_iff k (sub32 n 1)).0 e in ap pos (omega arith)
last_of_beq (negsuc k) n h b e = cc

module _ (n : ℕ) (got : ℕ → Bool) (r : Receiver) (pos_n : 0 < n) (small : n < 2 ^ 30) where
  open r use {recv_num, expect_seq, recv_max_seq, unrecv}

  respond-asks :
      (r' : Receiver) (space : List ℕ) (size : ℕ) {m : List ℕ}
      → request n r
        ≡ some (record r' { start_restran = true; restran_space = space; restran_size = size })
      → take size space ≡ m
      → respond n true r
        ≡ running
            (record r' { start_restran = false; restran_space = space; restran_size = size })
            (some m)
  unfolding respond
  respond-asks r' space size e h =
      rw (e, respond)
        (ap
          (λ k.
            running
              (record r' { start_restran = false; restran_space = space; restran_size = size })
              (some k))
          h)

  respond-quiet : request n r ≡ some r → r.start_restran ≡ false → respond n true r ≡ running r none
  unfolding respond
  respond-quiet e h = rw (e, respond) (ground arith)

  not_last : ¬ (recv_max_seq ≡ pos (n - 1)) → beq_ℤ recv_max_seq (pos (sub32 n 1)) ≡ false
  not_last h = elim (Bool-cases (beq_ℤ recv_max_seq (pos (sub32 n 1)))) [
    | inl e ↦ absurd (h (last_of_beq recv_max_seq n pos_n small e))
    | inr e ↦ e
  ]

  not_end : Tracks n got r → got (n - 1) ≡ false → (expect_seq == n) ≡ false
  not_end t h = elim (Bool-cases (expect_seq == n)) [
    | inl e ↦ cc (h, t.below (n - 1) (ground arith))
    | inr e ↦ e
  ]

  not_done : Tracks n got r → (expect_seq == n) ≡ false → recv_num < n
  not_done t h = elim (Bool-cases (ltb recv_num n)) [
    | inl less ↦ ltb→lt recv_num n less
    | inr no_less ↦ ground (arith, expect_of_count n got r pos_n t, t.counted, count_below-le got n)
  ]

  Tracks-same :
      (space : List ℕ) (size : ℕ)
      → Tracks n got r
      → Tracks n got
          (record r { start_restran = false; restran_space = space; restran_size = size })
  Tracks-same space size t = record {
    covers = t.covers;
    reach = t.reach;
    below = t.below;
    front = t.front;
    beyond = t.beyond;
    top = t.top;
    within = t.within;
    counted = t.counted;
  }

  request-first :
      r.first_restran ≡ true
      → beq_ℤ recv_max_seq (pos (sub32 n 1)) ≡ true
      → request n r ≡ first_request n r
  unfolding request
  request-first h b = ground arith

  request-next :
      r.first_restran ≡ false
      → (r.start_restran || expect_seq == n) ≡ true
      → request n r ≡ next_request n r
  unfolding request
  request-next h b = ground arith

  request-none :
      (r.first_restran && (beq_ℤ recv_max_seq (pos (sub32 n 1)) || r.start_restran)) ≡ false
      → (r.start_restran || expect_seq == n) ≡ false
      → request n r ≡ some r
  unfolding request
  request-none h b = rw (h, request) (rw b refl)

  Tracks-ask :
      (space : List ℕ) (size : ℕ)
      → Tracks n got r
      → suc_ℤ recv_max_seq ≡ n
      → Tracks n got (record r {
        unrecv = with_tail n r;
        first_restran = false;
        start_restran = false;
        restran_space = space;
        restran_size = size;
      })
  Tracks-ask space size t full =
      let e : with_tail n r ≡ unrecv = with_tail-closed n got r t pos_n small full in
      record {
        covers = rw e t.covers;
        reach = rw e t.reach;
        below = t.below;
        front = t.front;
        beyond = t.beyond;
        top = t.top;
        within = t.within;
        counted = t.counted;
      }

  pub first_round :
      Tracks n got r
      → r.first_restran ≡ true
      → got (n - 1) ≡ true
      → RoundGood n got (respond n true r)
  first_round t first last =
      let full : suc_ℤ recv_max_seq ≡ n = full_of_last n got r pos_n t last in
      let (after, e, m) =
        first_request_lem n got r t pos_n small (not_all_missing n got r t pos_n small full) in
      let space : List ℕ = length (missing got 0 n) ∷ (missing got 0 n ++ after) in
      let size : ℕ = sub32 n recv_num + 1 in
      let r' : Receiver = record r { unrecv = with_tail n r; first_restran = false } in
      asks (record r' { start_restran = false; restran_space = space; restran_size = size })
        (respond-asks r' space size
          (request-first first (beq_ℤ-last recv_max_seq n pos_n small full) ∙ e) m)
        (record {
          tracks = Tracks-ask space size t full;
          first = refl;
          last_in = last;
          room = omega (arith, length-append (missing got 0 n) after);
        })
        refl

  pub Fresh-round : Fresh n got r → RoundGood n got (respond n true r)
  Fresh-round f =
      let no_top : beq_ℤ recv_max_seq (pos (sub32 n 1)) ≡ false =
        not_last (λ e. cc (f.last_out, f.tracks.top (n - 1) e)) in
      let no_end : (expect_seq == n) ≡ false = not_end f.tracks f.last_out in
      quiet_fresh r
        (respond-quiet
          (request-none (rw (f.first, no_top, f.start) refl) (rw (f.start, no_end) refl)) f.start)
        f

  pub Asked-round : Asked n got r → RoundGood n got (respond n true r)
  Asked-round a = elim (Bool-cases (r.start_restran || expect_seq == n)) [
    | inl go ↦
        let full : suc_ℤ recv_max_seq ≡ n = full_of_last n got r pos_n a.tracks a.last_in in
        let (after, e, m) = next_request_lem n got r a.tracks pos_n small full a.room in
        let space : List ℕ = length (missing got 0 n) ∷ (missing got 0 n ++ after) in
        let size : ℕ = sub32 n recv_num + 1 in
        asks (record r { start_restran = false; restran_space = space; restran_size = size })
          (respond-asks r space size (request-next a.first go ∙ e) m)
          (record {
            tracks = Tracks-same space size a.tracks;
            first = a.first;
            last_in = a.last_in;
            room = omega (arith, length-append (missing got 0 n) after);
          })
          refl
    | inr stay ↦
        quiet_asked r (respond-quiet (request-none (rw a.first refl) stay) (ground arith)) a
          (ground arith) (not_done a.tracks (ground arith))
  ]
