-- ===== src/Stream/Send/Requests.antt =====
-- StreamControl::postSendFile in the LUCP mode: a request is taken up when nothing is left, and
-- puts its words into the queue.
use file_transfer_cmd.Prelude.{
  Bool, Bool-cases, List, Option-cases, [], ap, arith, drop, false, get_or-set_self, inl, inr, leb,
  length, refl, replicate, some, subst, suc, sym, take, take-length-append, true, zero, ℕ, ◌%◌, ◌*◌,
  ◌++◌, ◌-◌, ◌<◌, ◌^◌, ◌∙◌, ◌∷◌, ◌≡◌, ◌≤◌,
}
use file_transfer_cmd.Stream.Send.{
  Control, Sender, World, asked, begin_restran, closed, cut, fill_space, serve, silent,
}
use file_transfer_cmd.Stream.Send.Flight.{Accounts}
use file_transfer_cmd.Stream.Send.Order.{
  Queue, length-run_from, run_from, run_from-cons, run_from-word, word,
}
use file_transfer_cmd.Stream.Send.Rounds.{begin_restran-Accounts, begin_restran-cases}
use file_transfer_cmd.Stream.Send.Sequence.{InOrder, KeepsOrder, try_send-InOrder}
use mathlib.Core.List.{append-nil}
use mathlib.Core.Option.{some-injective}
use native.Mathlib.Nat.{add-mul, mod-lt}

-- The numbers that a round's request adds, and those of all rounds.
abbrev pub requested : Control → List ℕ
requested (asked (suc k) words) = words
requested (asked zero words) = []
requested silent = []
requested closed = []
requested cut = []

abbrev pub requests : List World → List ℕ
requests [] = []
requests (w ∷ ws) = requested w.control ++ requests ws

-- A request has as many words as it says, fewer than 2 ^ 30, and the bytes of the blocks do not wrap.
abbrev pub IsWhole : ℕ → World → Type 0
IsWhole block_size w =
    (k : ℕ) (words : List ℕ)
    → w.control ≡ asked k words
    → (length words ≡ k) × (k < 2 ^ 30) × (k * block_size < 2 ^ 64)

pub nothing_left :
    (block_size n : ℕ) (todo : List ℕ) (s : Sender)
    → 0 < block_size
    → Queue block_size n todo s
    → s.bytes_left ≡ 0
    → todo ≡ []
nothing_left block_size n [] s some_block q h = refl
nothing_left block_size n (x ∷ xs) s some_block q h =
    absurd (omega (arith, q.left, add-mul 1 (length xs) block_size))

-- Every word of such a request is read.
pub read_all :
    (k : ℕ) (words : List ℕ) → length words ≡ k → k < 2 ^ 30 → take (k % 2 ^ 30) words ≡ words
read_all k words h b =
    ap (λ j. take j words) (omega (arith, h))
    ∙ ap (take (length words)) (sym (append-nil words))
    ∙ take-length-append words []

pub fill_space-shape :
    (k : ℕ) (words space : List ℕ) (first : Bool) {out : List ℕ}
    → length words ≡ k
    → k < 2 ^ 30
    → fill_space first k words space ≡ some out
    → (rest : List ℕ) × (out ≡ words ++ rest)
unfolding fill_space
fill_space-shape k words space true h b e = (
  replicate (k - k % 2 ^ 30) 0,
  sym (some-injective _ _ e) ∙ ap (λ l. l ++ replicate (k - k % 2 ^ 30) 0) (read_all k words h b),
)
fill_space-shape k words space false h b e = elim (Bool-cases (leb (k % 2 ^ 30) (length space))) [
  | inr small ↦ ground arith
  | inl fits ↦ (
    drop (k % 2 ^ 30) space,
    sym (some-injective _ _ (rw fits at e))
        ∙ ap (λ l. l ++ drop (k % 2 ^ 30) space) (read_all k words h b),
  )
]

module _ (block_size nbuf n : ℕ) (some_block : 0 < block_size) (some_buf : 0 < nbuf)
    (small : nbuf < 2 ^ 32) (few : n ≤ 2 ^ 32) where
  fill_space-words :
      (k : ℕ) (words space : List ℕ) (first : Bool) {out : List ℕ}
      → length words ≡ k
      → k < 2 ^ 30
      → fill_space first k words space ≡ some out
      → run_from (word out) 0 k ≡ words
  fill_space-words k words space first {out} h b e =
      let (rest, z) = fill_space-shape k words space first h b e in
      ap (λ l. run_from (word l) 0 k) z
      ∙ ap (run_from (word (words ++ rest)) 0) (sym h)
      ∙ run_from-word words rest

  begin_restran-InOrder :
      (k : ℕ) (words all : List ℕ) (s s' : Sender)
      → length words ≡ suc k
      → suc k < 2 ^ 30
      → suc k * block_size < 2 ^ 64
      → Accounts block_size nbuf nbuf s
      → InOrder block_size n all s
      → begin_restran block_size (suc k) words s ≡ some s'
      → InOrder block_size n (all ++ words) s'
  begin_restran-InOrder k words all s s' h few_words fits a o e =
      let (space, z, still, filled, spent) = begin_restran-cases block_size (suc k) words s e in
      let none_left : o.todo ≡ [] = nothing_left block_size n o.todo s some_block o.queue spent in
      let list : run_from (word space) 0 (suc k) ≡ words =
        fill_space-words (suc k) words s.restran_space s.first_restran h few_words filled in
      let past : n - s.sendcnt ≡ 0 =
        sym (length-run_from (λ j. j) s.sendcnt (n - s.sendcnt))
        ∙ sym (ap length (o.queue.plain still))
        ∙ ap length none_left in
      let same : suc k ≡ suc k - 0 = omega arith in
      let full : length words * block_size ≡ suc k * block_size = ap (λ j. j * block_size) h in
      subst (InOrder block_size n (all ++ words)) (sym z) (record {
        todo = words;
        queue = record {
          left = omega (arith, spent, full, fits);
          fits = omega (arith, full, fits);
          front = λ x xs q.
              let (m, size, here, rest) =
                run_from-cons (word space) 0 (suc k) x xs (sym q ∙ sym list) in
              get_or-set_self s.mem s.current (word space 0) 0
                (omega (arith, a.here, a.buffers, mod-lt s.i {m = nbuf} some_buf))
              ∙ sym here;
          plain = λ q. ground arith;
          again = λ q. (omega arith, omega arith, sym list ∙ ap (run_from (word space) 0) same);
        };
        together =
            ap (λ l. l ++ words)
              (sym (append-nil s.sent) ∙ sym (ap (λ l. s.sent ++ l) none_left) ∙ o.together);
      })

  pub serve-InOrder :
      (all : List ℕ) (w : World) (s : Sender)
      → IsWhole block_size w
      → Accounts block_size nbuf nbuf s
      → InOrder block_size n all s
      → (c : Control) → w.control ≡ c
      → KeepsOrder block_size n (all ++ requested c) (serve block_size nbuf c w s)
  unfolding serve
  serve-InOrder all w s whole a o silent e =
      rw (append-nil all)
        (try_send-InOrder block_size nbuf n some_block some_buf few all w nbuf s a o)
  serve-InOrder all w s whole a o closed e = tt
  serve-InOrder all w s whole a o cut e = tt
  serve-InOrder all w s whole a o (asked zero words) e = rw (append-nil all) o
  serve-InOrder all w s whole a o (asked (suc k) words) e =
      elim (Option-cases (begin_restran block_size (suc k) words s)) [
        | inl gone ↦ rw (gone, serve) tt
        | inr (s', z) ↦
            let (h, few_words, fits) = whole (suc k) words e in
            rw (z, serve)
              (try_send-InOrder block_size nbuf n some_block some_buf few (all ++ words) w nbuf s'
                (begin_restran-Accounts block_size nbuf small some_buf (suc k) words nbuf s s' a z)
                (begin_restran-InOrder k words all s s' h few_words fits a o z))
      ]
