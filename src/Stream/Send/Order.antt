-- ===== src/Stream/Send/Order.antt =====
-- StreamControl::postSendFile in the LUCP mode as a queue of block numbers: the numbers of the
-- first pass, then those of each request, are sent in order.
use file_transfer_cmd.Prelude.{
  Bool-cases, List, [], ap, arith, false, get_or, get_or-set_self, inl, inr, length, ltb, ltb→lt,
  refl, suc, sym, true, zero, ℕ, ◌%◌, ◌*◌, ◌++◌, ◌+◌, ◌-◌, ◌<◌, ◌^◌, ◌∙◌, ◌∷◌, ◌≡◌, ◌≤◌,
}
use file_transfer_cmd.Prelude.Words.{sub64}
use file_transfer_cmd.Stream.Send.{Sender, next_block, post, push}
use file_transfer_cmd.Stream.Send.Flight.{Accounts}
use mathlib.Core.List.{head-eq_of_cons-eq, nil≢cons, tail-eq_of_cons-eq}
use native.Mathlib.Nat.{add-mul, mod-eq_of_lt, mod-lt}

-- `n` values of `f` from `k` on.
abbrev pub run_from : (ℕ → ℕ) → ℕ → ℕ → List ℕ
run_from f k zero = []
run_from f k (suc n) = f k ∷ run_from f (suc k) n

abbrev pub first_pass : ℕ → List ℕ
first_pass n = run_from (λ k. k) 0 n

abbrev pub word : List ℕ → ℕ → ℕ
word space k = get_or space k 0

-- The loop has still to send the numbers `todo`, for a file of `n` blocks.
pub record Queue (block_size n : ℕ) (todo : List ℕ) (s : Sender) : Type 0 where
  pub left : s.bytes_left ≡ length todo * block_size
  pub fits : length todo * block_size < 2 ^ 64
  pub front : (x : ℕ) (xs : List ℕ) → todo ≡ x ∷ xs → word s.mem s.current ≡ x
  pub plain : s.start_restran ≡ false → todo ≡ run_from (λ k. k) s.sendcnt (n - s.sendcnt)
  pub again :
      s.start_restran ≡ true
      → (s.restraned_num < s.restran_num)
        × (n ≤ s.sendcnt)
        × (todo ≡ run_from (word s.restran_space) s.restraned_num (s.restran_num - s.restraned_num))

pub length-run_from : (f : ℕ → ℕ) (k n : ℕ) → length (run_from f k n) ≡ n
length-run_from f k zero = refl
length-run_from f k (suc n) = ap suc (length-run_from f (suc k) n)

pub run_from-cons :
    (f : ℕ → ℕ) (k n x : ℕ) (xs : List ℕ)
    → x ∷ xs ≡ run_from f k n
    → (m : ℕ) × (n ≡ m + 1) × (x ≡ f k) × (xs ≡ run_from f (k + 1) m)
run_from-cons f k zero x xs h = absurd (nil≢cons (sym h))
run_from-cons f k (suc n) x xs h = (
  n,
  omega arith,
  head-eq_of_cons-eq h,
  tail-eq_of_cons-eq h ∙ ap (λ j. run_from f j n) (omega arith),
)

run_from-shift :
    (f g : ℕ → ℕ) (k n : ℕ) → ((j : ℕ) → g (suc j) ≡ f j) → run_from g (suc k) n ≡ run_from f k n
run_from-shift f g k zero h = refl
run_from-shift f g k (suc n) h = rw (h k) (ap (◌∷◌ (f k)) (run_from-shift f g (suc k) n h))

pub run_from-word : (ws rest : List ℕ) → run_from (word (ws ++ rest)) 0 (length ws) ≡ ws
run_from-word [] rest = refl
run_from-word (w ∷ ws) rest = ap (◌∷◌ w) (
    run_from-shift (word (ws ++ rest)) (word (w ∷ ws ++ rest)) 0 (length ws) (λ j. refl)
    ∙ run_from-word ws rest)

module _ (block_size nbuf n limit : ℕ) (some_buf : 0 < nbuf) (few : n ≤ 2 ^ 32) where
  next_in : {s : Sender} → Accounts block_size nbuf limit s → (s.i + 1) % nbuf < length s.mem
  next_in {s} a = omega (arith, a.buffers, mod-lt (s.i + 1) {m = nbuf} some_buf)

  pub post-plain :
      (x : ℕ) (xs : List ℕ) (s : Sender)
      → Accounts block_size nbuf limit s
      → Queue block_size n (x ∷ xs) s
      → s.start_restran ≡ false
      → Queue block_size n xs (post true block_size nbuf s)
  unfolding post push next_block
  post-plain x xs s a q e =
      let (m, size, here, rest) =
        run_from-cons (λ k. k) s.sendcnt (n - s.sendcnt) x xs (q.plain e) in
      rw e (record {
        left = omega (arith, q.left, q.fits, a.payload, add-mul 1 (length xs) block_size);
        fits = omega (arith, q.fits, add-mul 1 (length xs) block_size);
        front = λ y ys h.
            let (m', size', here', rest') =
              run_from-cons (λ k. k) (s.sendcnt + 1) m y ys (sym h ∙ rest) in
            get_or-set_self s.mem ((s.i + 1) % nbuf) ((s.sendcnt + 1) % 2 ^ 32) 0 (next_in a)
            ∙ mod-eq_of_lt (omega arith)
            ∙ sym here';
        plain = λ h. rest ∙ ap (run_from (λ k. k) (s.sendcnt + 1)) (omega arith);
        again = λ h. ground arith;
      })

  -- A retransmission with more to come, and its last block.
  pub post-again :
      (x : ℕ) (xs : List ℕ) (s : Sender)
      → Accounts block_size nbuf limit s
      → Queue block_size n (x ∷ xs) s
      → s.start_restran ≡ true
      → Queue block_size n xs (post true block_size nbuf s)
  unfolding post push next_block
  post-again x xs s a q e =
      let (below, past, list) = q.again e in
      let (m, size, here, rest) =
        run_from-cons (word s.restran_space) s.restraned_num (s.restran_num - s.restraned_num) x xs
          list in
      let left' : sub64 s.bytes_left s.bytes_payload ≡ length xs * block_size =
        omega (arith, q.left, q.fits, a.payload, add-mul 1 (length xs) block_size) in
      let fits' : length xs * block_size < 2 ^ 64 =
        omega (arith, q.fits, add-mul 1 (length xs) block_size) in
      rw e (elim (Bool-cases (ltb (s.restraned_num + 1) s.restran_num)) [
        | inl more ↦ rw more (record {
          left = left';
          fits = fits';
          front = λ y ys h.
              let (m', size', here', rest') =
                run_from-cons (word s.restran_space) (s.restraned_num + 1) m y ys (sym h ∙ rest) in
              get_or-set_self s.mem ((s.i + 1) % nbuf) (word s.restran_space (s.restraned_num + 1))
                0 (next_in a)
              ∙ sym here';
          plain = λ h. ground (arith, e, h);
          again = λ h. (
            ltb→lt _ _ more,
            omega arith,
            rest ∙ ap (run_from (word s.restran_space) (s.restraned_num + 1)) (omega arith),
          );
        })
        | inr last ↦
            let none_left : m ≡ 0 = ground arith in
            let used : n - (s.sendcnt + 1) ≡ 0 = omega arith in
            let empty : xs ≡ [] =
              rest ∙ ap (run_from (word s.restran_space) (s.restraned_num + 1)) none_left in
            rw last (record {
              left = left';
              fits = fits';
              front = λ y ys h. absurd (nil≢cons (sym empty ∙ h));
              plain = λ h. empty ∙ sym (ap (run_from (λ k. k) (s.sendcnt + 1)) used);
              again = λ h. ground arith;
            })
      ])
