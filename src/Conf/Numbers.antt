-- ===== src/Conf/Numbers.antt =====
-- LocalConf: a number that saveConf writes is the one that loadConf reads.
use file_transfer_cmd.Prelude.{
  All, Bool, Bool-cases, List, [], ap, arith, false, inl, inr, ltb, lt→ltb, refl, some, suc, true,
  zero, ℕ, ◌%◌, ◌*◌, ◌++◌, ◌+◌, ◌-◌, ◌/◌, ◌<◌, ◌^◌, ◌∙◌, ◌∷◌, ◌≡◌,
}
use file_transfer_cmd.Conf.{
  decimal, in_int, is_digit, is_space, parse_digits, show_int, skip_space, stoi, stoi_digits,
  stoi_signed,
}
use file_transfer_cmd.Prelude.Int.{negsuc, pos, ℤ}
use mathlib.Core.List.{nil≢cons}

abbrev pub AreDigits : List ℕ → Type 0
AreDigits cs = All (λ c. is_digit c ≡ true) cs

abbrev pub value_from : ℕ → List ℕ → ℕ
value_from acc [] = acc
value_from acc (c ∷ cs) = value_from (acc * 10 + (c - b'0')) cs

digit : (n : ℕ) → n < 10 → is_digit (b'0' + n) ≡ true
unfolding is_digit
digit n h = ground arith

AreDigits-append :
    (xs : List ℕ) (y : ℕ) → AreDigits xs → is_digit y ≡ true → AreDigits (xs ++ y ∷ [])
AreDigits-append [] y a h = (h, tt)
AreDigits-append (x ∷ xs) y (d, a) h = (d, AreDigits-append xs y a h)

value_from-append :
    (acc : ℕ) (xs : List ℕ) (y : ℕ)
    → value_from acc (xs ++ y ∷ []) ≡ value_from acc xs * 10 + (y - b'0')
value_from-append acc [] y = refl
value_from-append acc (x ∷ xs) y = value_from-append (acc * 10 + (x - b'0')) xs y

pub parse_digits-value :
    (acc : ℕ) (cs : List ℕ) → AreDigits cs → parse_digits acc cs ≡ value_from acc cs
unfolding parse_digits
parse_digits-value acc [] a = refl
parse_digits-value acc (c ∷ cs) (d, a) = rw d (parse_digits-value (acc * 10 + (c - b'0')) cs a)

pub decimal-AreDigits : (fuel n : ℕ) → n < fuel → AreDigits (decimal fuel n)
unfolding decimal
decimal-AreDigits zero n h = tt
decimal-AreDigits (suc fuel) n h = elim (Bool-cases (ltb n 10)) [
  | inl small ↦ rw small (digit n (ground arith), tt)
  | inr large ↦ rw large (
      AreDigits-append (decimal fuel (n / 10)) (b'0' + n % 10)
        (decimal-AreDigits fuel (n / 10) (ground arith)) (digit (n % 10) (omega arith)))
]

pub decimal-value : (fuel n : ℕ) → n < fuel → value_from 0 (decimal fuel n) ≡ n
unfolding decimal
decimal-value zero n h = absurd (omega arith)
decimal-value (suc fuel) n h = elim (Bool-cases (ltb n 10)) [
  | inl small ↦ rw small (omega arith)
  | inr large ↦ rw large (
      value_from-append 0 (decimal fuel (n / 10)) (b'0' + n % 10)
      ∙ omega (arith, decimal-value fuel (n / 10) (ground arith)))
]

pub decimal-cons : (fuel n : ℕ) → n < fuel → (c : ℕ) × (cs : List ℕ) × (decimal fuel n ≡ c ∷ cs)
unfolding decimal
decimal-cons zero n h = absurd (omega arith)
decimal-cons (suc fuel) n h = elim (Bool-cases (ltb n 10)) [
  | inl small ↦ rw small (b'0' + n, [], refl)
  | inr large ↦
      let (c, cs, e) = decimal-cons fuel (n / 10) (ground arith) in
      rw large (c, cs ++ (b'0' + n % 10) ∷ [], ap (λ l. l ++ (b'0' + n % 10) ∷ []) e)
]

stoi_digits-decimal :
    (minus : Bool) (cs : List ℕ) (c : ℕ) (rest : List ℕ)
    → cs ≡ c ∷ rest
    → AreDigits cs
    → stoi_digits minus cs ≡ in_int minus (value_from 0 cs)
unfolding stoi_digits
stoi_digits-decimal minus [] c rest e a = absurd (nil≢cons e)
stoi_digits-decimal minus (x ∷ xs) c rest e (d, a) =
    rw d (ap (in_int minus) (parse_digits-value 0 (x ∷ xs) (d, a)))

-- A text that starts with a digit has no white space and no sign in front.
stoi-digits_first :
    (cs : List ℕ) (c : ℕ) (rest : List ℕ)
    → cs ≡ c ∷ rest
    → AreDigits cs
    → stoi cs ≡ stoi_digits false cs
unfolding stoi stoi_signed skip_space is_space is_digit
stoi-digits_first [] c rest e a = absurd (nil≢cons e)
stoi-digits_first (x ∷ xs) c rest e (d, a) = ground arith

stoi-minus : (cs : List ℕ) → stoi (b'-' ∷ cs) ≡ stoi_digits true cs
unfolding stoi stoi_signed skip_space is_space
stoi-minus cs = refl

-- The values of an int.
abbrev pub IsInt : ℤ → Type 0
IsInt (pos n) = n < 2 ^ 31
IsInt (negsuc n) = n < 2 ^ 31

-- Reading what was written gives the number back, for every int, also the least one.
pub stoi-show_int : (v : ℤ) → IsInt v → stoi (show_int v) ≡ some v
unfolding show_int in_int
stoi-show_int (pos n) h =
    let (c, cs, e) = decimal-cons (n + 1) n (omega arith) in
    let digits : AreDigits (decimal (n + 1) n) = decimal-AreDigits (n + 1) n (omega arith) in
    stoi-digits_first (decimal (n + 1) n) c cs e digits
    ∙ stoi_digits-decimal false (decimal (n + 1) n) c cs e digits
    ∙ ap (in_int false) (decimal-value (n + 1) n (omega arith))
    ∙ rw (lt→ltb n (2 ^ 31) h) refl
stoi-show_int (negsuc n) h =
    let (c, cs, e) = decimal-cons (n + 2) (n + 1) (omega arith) in
    let digits : AreDigits (decimal (n + 2) (n + 1)) =
      decimal-AreDigits (n + 2) (n + 1) (omega arith) in
    let value : value_from 0 (decimal (n + 2) (n + 1)) ≡ suc n =
      decimal-value (n + 2) (n + 1) (omega arith) ∙ omega arith in
    stoi-minus (decimal (n + 2) (n + 1))
    ∙ stoi_digits-decimal true (decimal (n + 2) (n + 1)) c cs e digits
    ∙ ap (in_int true) value
    ∙ rw (lt→ltb n (2 ^ 31) h) refl
