-- ===== src/Stream/Receive/Request.antt =====
-- The retransmission request lists exactly the blocks that have not arrived.
use file_transfer_cmd.Prelude.{
  Bool, Bool-cases, List, [], ap, arith, false, if◌then◌else◌, inl, inr, length, length-append,
  refl, set, some, suc, true, zero, ℕ, ◌++◌, ◌+◌, ◌<◌, ◌==◌, ◌∙◌, ◌∷◌, ◌≡◌, ◌≤◌,
}
use file_transfer_cmd.Stream.Receive.{RecvItem, copy_missing, store}
use file_transfer_cmd.Stream.Receive.Covers.{Covers, count_below}
use mathlib.Core.List.{append_assoc}

-- The numbers of `k` from `e` on that are not in the set, in order.
abbrev pub missing : (ℕ → Bool) → ℕ → ℕ → List ℕ
missing got e zero = []
missing got e (suc k) = if got e then missing got (suc e) k else e ∷ missing got (suc e) k

pub length-missing : (got : ℕ → Bool) (e k : ℕ) → length (missing got e k) ≤ k
length-missing got e zero = omega arith
length-missing got e (suc k) = ground (arith, length-missing got (suc e) k)

-- A prefix that has arrived adds nothing.
pub missing_skip :
    (got : ℕ → Bool) (e k m : ℕ)
    → ((j : ℕ) → e ≤ j → j < e + k → got j ≡ true)
    → missing got e (k + m) ≡ missing got (e + k) m
missing_skip got e zero m h =
    let z : 0 + m ≡ m = omega arith in let y : e + 0 ≡ e = omega arith in rw (z, y)
missing_skip got e (suc k) m h =
    let z : suc k + m ≡ suc (k + m) = omega arith in
    let y : e + suc k ≡ suc e + k = omega arith in
    rw (z, y, h e (omega arith) (omega arith))
      (missing_skip got (suc e) k m (λ j a b. h j (omega arith) (omega arith)))

count_below-shift :
    (got : ℕ → Bool) (n : ℕ)
    → count_below got (suc n) ≡ (if got 0 then 1 else 0) + count_below (λ j. got (suc j)) n
count_below-shift got zero = ground arith
count_below-shift got (suc n) = ground (arith, count_below-shift got n)

missing-shift :
    (got : ℕ → Bool) (e k : ℕ)
    → length (missing (λ j. got (suc j)) e k) ≡ length (missing got (suc e) k)
missing-shift got e zero = refl
missing-shift got e (suc k) = ground (arith, missing-shift got (suc e) k)

-- What is missing and what has arrived make up the whole.
pub length-missing-add-count :
    (got : ℕ → Bool) (n : ℕ) → length (missing got 0 n) + count_below got n ≡ n
length-missing-add-count got zero = refl
length-missing-add-count got (suc n) = ground (
  arith,
  count_below-shift got n,
  missing-shift got 0 n,
  length-missing-add-count (λ j. got (suc j)) n,
)

set-append :
    (pre : List ℕ) (y v : ℕ) (rest : List ℕ)
    → set (pre ++ y ∷ rest) (length pre) v ≡ (pre ++ v ∷ []) ++ rest
set-append [] y v rest = refl
set-append (x ∷ pre) y v rest = ap (◌∷◌ x) (set-append pre y v rest)

copy_stop :
    (miss rest pre after space : List ℕ)
    → length rest ≡ length miss
    → length rest ≡ 0
    → space ≡ pre ++ (rest ++ after)
    → space ≡ pre ++ (miss ++ after)
copy_stop [] [] pre after space h z s = s
copy_stop (x ∷ miss) [] pre after space h z s = absurd (omega arith)
copy_stop miss (y ∷ rest) pre after space h z s = absurd (omega arith)

copy_missing-recved :
    (x : RecvItem) (xs : List RecvItem) (loc size : ℕ) (space : List ℕ)
    → x.recved ≡ true
    → copy_missing (x ∷ xs) loc size space
      ≡ (if loc == size then some space else copy_missing xs loc size space)
unfolding copy_missing
copy_missing-recved x xs loc size space h = rw (h, copy_missing) refl

copy_missing-unrecved :
    (x : RecvItem) (xs : List RecvItem) (loc size : ℕ) (space space' : List ℕ)
    → x.recved ≡ false
    → store space loc x.seq ≡ some space'
    → copy_missing (x ∷ xs) loc size space
      ≡ (if loc + 1 == size then some space' else copy_missing xs (loc + 1) size space')
unfolding copy_missing
copy_missing-unrecved x xs loc size space space' h st = rw (h, copy_missing) (rw st refl)

store-append :
    (pre rest space : List ℕ) (y v loc : ℕ)
    → space ≡ pre ++ (y ∷ rest)
    → loc ≡ length pre
    → store space loc v ≡ some ((pre ++ v ∷ []) ++ rest)
unfolding store
store-append pre rest space y v loc s a =
    rw (s, a) (ground (arith, length-append pre (y ∷ rest), set-append pre y v rest))

copy_recved :
    (got : ℕ → Bool) (e : ℕ) (x : RecvItem) (xs : List RecvItem) (pre rest after space : List ℕ)
    (loc size : ℕ)
    → x.recved ≡ true
    → length rest ≡ length (missing got (suc e) (length xs))
    → space ≡ pre ++ (rest ++ after)
    → size ≡ loc + length rest
    → copy_missing xs loc size space ≡ some (pre ++ (missing got (suc e) (length xs) ++ after))
    → copy_missing (x ∷ xs) loc size space
      ≡ some (pre ++ (missing got (suc e) (length xs) ++ after))
copy_recved got e x xs pre rest after space loc size h l s b rest_ok =
    copy_missing-recved x xs loc size space h ∙ elim (Bool-cases (loc == size)) [
      | inl stop ↦ rw stop (
          ap some
            (copy_stop (missing got (suc e) (length xs)) rest pre after space l (ground arith) s))
      | inr more ↦ rw more rest_ok
    ]

copy_unrecved :
    (got : ℕ → Bool) (e : ℕ) (x : RecvItem) (xs : List RecvItem) (pre after space : List ℕ)
    (rest : List ℕ) (y loc size : ℕ)
    → x.seq ≡ e
    → x.recved ≡ false
    → length rest ≡ length (missing got (suc e) (length xs))
    → space ≡ pre ++ (y ∷ (rest ++ after))
    → loc ≡ length pre
    → size ≡ loc + suc (length rest)
    → copy_missing xs (loc + 1) size ((pre ++ e ∷ []) ++ (rest ++ after))
      ≡ some ((pre ++ e ∷ []) ++ (missing got (suc e) (length xs) ++ after))
    → copy_missing (x ∷ xs) loc size space
      ≡ some (pre ++ (e ∷ (missing got (suc e) (length xs) ++ after)))
copy_unrecved got e x xs pre after space rest y loc size q h l s a b rest_ok =
    copy_missing-unrecved x xs loc size space ((pre ++ e ∷ []) ++ (rest ++ after)) h
      (rw q (store-append pre (rest ++ after) space y e loc s a))
    ∙ elim (Bool-cases (loc + 1 == size)) [
      | inl stop ↦ rw stop (
          ap some (
            copy_stop (missing got (suc e) (length xs)) rest (pre ++ e ∷ []) after
              ((pre ++ e ∷ []) ++ (rest ++ after)) l (ground arith) refl
            ∙ append_assoc pre _ _))
      | inr more ↦ rw more (rest_ok ∙ ap some (append_assoc pre _ _))
    ]

copy_missing-nil : (loc size : ℕ) (space : List ℕ) → copy_missing [] loc size space ≡ some space
unfolding copy_missing
copy_missing-nil loc size space = refl

missing-there :
    (got : ℕ → Bool) (e k : ℕ) → got e ≡ true → missing got e (suc k) ≡ missing got (suc e) k
missing-there got e k h = rw h

missing-gone :
    (got : ℕ → Bool) (e k : ℕ) → got e ≡ false → missing got e (suc k) ≡ e ∷ missing got (suc e) k
missing-gone got e k h = rw h

-- The copying loop fills the words between `pre` and `after` with the missing numbers.
pub copy_missing_lem :
    (got : ℕ → Bool) (e : ℕ) (q : List RecvItem) (pre rest after space : List ℕ) (loc size : ℕ)
    → Covers got e q
    → length rest ≡ length (missing got e (length q))
    → space ≡ pre ++ (rest ++ after)
    → loc ≡ length pre
    → size ≡ loc + length rest
    → copy_missing q loc size space ≡ some (pre ++ (missing got e (length q) ++ after))
copy_missing_lem got e [] pre rest after space loc size c l s a b =
    copy_missing-nil loc size space ∙ ap some (copy_stop [] rest pre after space l l s)
copy_missing_lem got e (x ∷ xs) pre [] after space loc size (q, m, c) l s a b =
    elim (Bool-cases (got e)) [
      | inl there ↦ rw (missing-there got e (length xs) there) (
          copy_recved got e x xs pre [] after space loc size (m ∙ there)
            (l ∙ ap length (missing-there got e (length xs) there)) s b
            (copy_missing_lem got (suc e) xs pre [] after space loc size c
              (l ∙ ap length (missing-there got e (length xs) there)) s a b))
      | inr gone ↦ absurd (omega (arith, l, ap length (missing-gone got e (length xs) gone)))
    ]
copy_missing_lem got e (x ∷ xs) pre (y ∷ rest) after space loc size (q, m, c) l s a b =
    elim (Bool-cases (got e)) [
      | inl there ↦ rw (missing-there got e (length xs) there) (
          copy_recved got e x xs pre (y ∷ rest) after space loc size (m ∙ there)
            (l ∙ ap length (missing-there got e (length xs) there)) s b
            (copy_missing_lem got (suc e) xs pre (y ∷ rest) after space loc size c
              (l ∙ ap length (missing-there got e (length xs) there)) s a b))
      | inr gone ↦
          let n : length rest ≡ length (missing got (suc e) (length xs)) =
            omega (arith, l, ap length (missing-gone got e (length xs) gone)) in
          rw (missing-gone got e (length xs) gone) (
            copy_unrecved got e x xs pre after space rest y loc size q (m ∙ gone) n s a b (
              copy_missing_lem got (suc e) xs (pre ++ e ∷ []) rest after _ (loc + 1) size c n refl
                (omega (arith, a, length-append pre (e ∷ []))) (omega (arith, b))))
    ]
