-- ===== src/Stream/Receive/Covers.antt =====
-- What the deque of `recv_item`s says of a set of block numbers, and how the loops keep it.
use file_transfer_cmd.Prelude.{
  ℕ, zero, suc, ◌+◌, ◌%◌, ◌^◌, ◌≤◌, ◌<◌, ◌≡◌, refl, sym, ◌∙◌, Bool, true, false, List, [], ◌∷◌,
  ◌++◌, some, arith, ◌==◌, if◌then◌else◌, get_elem?, set, length, Bool-cases, inl, inr, ap, subst,
}
use file_transfer_cmd.Stream.Receive.{RecvItem, drain, missing_from}

-- A set of block numbers, with one more.
abbrev pub insert : ℕ → (ℕ → Bool) → ℕ → Bool
insert id got j = if j == id then true else got j

-- How many numbers below `n` are in the set.
abbrev pub count_below : (ℕ → Bool) → ℕ → ℕ
count_below got zero = 0
count_below got (suc n) = count_below got n + (if got n then 1 else 0)

-- The entries stand for consecutive numbers from `e` on, each marked as the set has it.
abbrev pub Covers : (ℕ → Bool) → ℕ → List RecvItem → Type 0
Covers got e [] = Unit {0}
Covers got e (x ∷ xs) = (x.seq ≡ e) × (x.recved ≡ got e) × Covers got (suc e) xs

pub Covers-congr :
    (got have : ℕ → Bool) (e : ℕ) (q : List RecvItem)
    → ((j : ℕ) → e ≤ j → j < e + length q → got j ≡ have j)
    → Covers got e q
    → Covers have e q
Covers-congr got have e [] same c = tt
Covers-congr got have e (x ∷ xs) same (s, m, c) = (
  s,
  m ∙ same e (omega arith) (omega arith),
  Covers-congr got have (suc e) xs (λ j h k. same j (omega arith) (omega arith)) c,
)

pub Covers-append :
    (got : ℕ → Bool) (e : ℕ) (p q : List RecvItem)
    → Covers got e p
    → Covers got (e + length p) q
    → Covers got e (p ++ q)
Covers-append got e [] q c d = let z : e + 0 ≡ e = omega arith in subst (λ k. Covers got k q) z d
Covers-append got e (x ∷ xs) q (s, m, c) d =
    let z : e + suc (length xs) ≡ suc e + length xs = omega arith in
    (s, m, Covers-append got (suc e) xs q c (subst (λ k. Covers got k q) z d))

pub length-missing_from : (i n : ℕ) → length (missing_from i n) ≡ n
unfolding missing_from
length-missing_from i zero = refl
length-missing_from i (suc n) = ap suc (length-missing_from (i + 1) n)

pub missing_from-Covers :
    (got : ℕ → Bool) (e i n : ℕ)
    → e ≡ i
    → ((j : ℕ) → e ≤ j → j < e + n → got j ≡ false)
    → Covers got e (missing_from i n)
unfolding missing_from
missing_from-Covers got e i zero h out = tt
missing_from-Covers got e i (suc n) h out = (
  sym h,
  sym (out e (omega arith) (omega arith)),
  missing_from-Covers got (suc e) (i + 1) n (omega arith)
      (λ j a b. out j (omega arith) (omega arith)),
)

-- Reading the deque at an index gives the number and the mark of that place.
pub Covers-get :
    (got : ℕ → Bool) (e k : ℕ) (q : List RecvItem) (x : RecvItem)
    → Covers got e q
    → get_elem? q k ≡ some x
    → (x.seq ≡ e + k) × (x.recved ≡ got (e + k))
Covers-get got e k [] x c h = cc
Covers-get got e zero (y ∷ ys) x (s, m, c) h =
    let z : e + 0 ≡ e = omega arith in rw z (ground (arith, h, s, m))
Covers-get got e (suc k) (y ∷ ys) x (s, m, c) h =
    let z : e + suc k ≡ suc e + k = omega arith in rw z (Covers-get got (suc e) k ys x c h)

pub get-total :
    (q : List RecvItem) (k : ℕ) → k < length q → (x : RecvItem) × (get_elem? q k ≡ some x)
get-total [] k h = absurd (omega arith)
get-total (x ∷ xs) zero h = (x, refl)
get-total (x ∷ xs) (suc k) h = get-total xs k (omega arith)

-- Marking one place adds that number to the set.
pub Covers-set :
    (got : ℕ → Bool) (e k : ℕ) (q : List RecvItem) (x : RecvItem)
    → Covers got e q
    → get_elem? q k ≡ some x
    → Covers (insert (e + k) got) e (set q k (record x { recved = true }))
Covers-set got e k [] x c h = tt
Covers-set got e zero (y ∷ ys) x (s, m, c) h = (
  (Covers-get got e zero (y ∷ ys) x (s, m, c) h).0 ∙ omega arith,
  ground arith,
  Covers-congr got (insert (e + 0) got) (suc e) ys (λ j a b. ground arith) c,
)
Covers-set got e (suc k) (y ∷ ys) x (s, m, c) h =
    let z : e + suc k ≡ suc e + k = omega arith in
    (
      s,
      m ∙ ground arith,
      subst (λ i. Covers (insert i got) (suc e) (set ys k (record x { recved = true }))) (sym z)
          (Covers-set got (suc e) k ys x c h),
    )

-- What the pops leave: the received numbers are gone from the front, and the next one is missing.
pub record Drained (got : ℕ → Bool) (e : ℕ) (q : List RecvItem) (out : List RecvItem × ℕ)
    : Type 0 where
  pub rest : Covers got out.1 out.0
  pub reach : out.1 + length out.0 ≡ e + length q
  pub later : e ≤ out.1
  pub passed : (j : ℕ) → e ≤ j → j < out.1 → got j ≡ true
  pub next_missing : out.1 < e + length q → got out.1 ≡ false

drain-recved :
    (x : RecvItem) (xs : List RecvItem) (e : ℕ)
    → suc e < 2 ^ 32
    → x.recved ≡ true
    → drain (x ∷ xs) e ≡ drain xs (suc e)
unfolding drain
drain-recved x xs e h old =
    let z : (e + 1) % 2 ^ 32 ≡ suc e = omega arith in rw (old, drain) (ap (drain xs) z)

drain-unrecved :
    (x : RecvItem) (xs : List RecvItem) (e : ℕ) → x.recved ≡ false → drain (x ∷ xs) e ≡ (x ∷ xs, e)
unfolding drain
drain-unrecved x xs e new = ground arith

Drained-cons :
    (got : ℕ → Bool) (e : ℕ) (x : RecvItem) (xs : List RecvItem) {out : List RecvItem × ℕ}
    → got e ≡ true
    → Drained got (suc e) xs out
    → Drained got e (x ∷ xs) out
Drained-cons got e x xs here d = record {
  rest = d.rest;
  reach = omega (arith, d.reach);
  later = omega (arith, d.later);
  passed = λ j a b. ground (arith, d.passed j, here, ap got {x = j} {y = e});
  next_missing = λ b. d.next_missing (omega arith);
}

pub drain-Drained :
    (got : ℕ → Bool) (e : ℕ) (q : List RecvItem)
    → e + length q < 2 ^ 32
    → Covers got e q
    → Drained got e q (drain q e)
unfolding drain
drain-Drained got e [] h c = record {
  rest = tt;
  reach = refl;
  later = omega arith;
  passed = λ j a b. absurd (omega arith);
  next_missing = λ b. absurd (omega arith);
}
drain-Drained got e (x ∷ xs) h (z, m, c) = elim (Bool-cases x.recved) [
  | inl old ↦
      subst (Drained got e (x ∷ xs)) (sym (drain-recved x xs e (omega arith) old))
        (Drained-cons got e x xs (sym m ∙ old) (drain-Drained got (suc e) xs (omega arith) c))
  | inr new ↦ subst (Drained got e (x ∷ xs)) (sym (drain-unrecved x xs e new)) (record {
    rest = (z, m, c);
    reach = refl;
    later = omega arith;
    passed = λ j a b. absurd (omega arith);
    next_missing = λ b. sym m ∙ new;
  })
]
