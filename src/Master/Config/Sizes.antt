-- ===== src/Master/Config/Sizes.antt =====
-- parse_size reads what is written: a decimal number with a unit.
use file_transfer_cmd.Prelude.{
  Bool, List, [], ap, arith, false, if◌then◌else◌, lt→ltb, refl, some, subst, sym, true, ℕ, ◌*◌,
  ◌++◌, ◌+◌, ◌<◌, ◌^◌, ◌∙◌, ◌∷◌, ◌≡◌,
}
use file_transfer_cmd.Conf.{decimal, is_digit, is_space, parse_digits, skip_space}
use file_transfer_cmd.Conf.Numbers.{
  AreDigits, decimal-AreDigits, decimal-cons, decimal-value, parse_digits-value, value_from,
}
use file_transfer_cmd.Master.Config.{
  by_unit, parse_size, scaled, stoull, stoull_digits, stoull_signed, unsnoc, wrap_sign,
}
use mathlib.Core.List.{append-nil}
use native.Mathlib.Nat.{mod-eq_of_lt}

-- The units of parse_size.
pub data SizeUnit : Type 0 where
  single kilo mega giga : SizeUnit

abbrev pub factor_of : SizeUnit → ℕ
factor_of single = 1
factor_of kilo = 2 ^ 10
factor_of mega = 2 ^ 20
factor_of giga = 2 ^ 30

-- How a unit is written, with a capital or a small letter.
abbrev pub letter : SizeUnit → Bool → List ℕ
letter single upper = []
letter kilo upper = (if upper then b'K' else b'k') ∷ []
letter mega upper = (if upper then b'M' else b'm') ∷ []
letter giga upper = (if upper then b'G' else b'g') ∷ []

unsnoc-snoc : (cs : List ℕ) (c : ℕ) → unsnoc (cs ++ c ∷ []) ≡ some (cs, c)
unfolding unsnoc
unsnoc-snoc [] c = refl
unsnoc-snoc (x ∷ cs) c = rw (unsnoc-snoc cs c, unsnoc) refl

-- A text of digits ends with a digit.
unsnoc-digit :
    (c : ℕ) (cs : List ℕ)
    → AreDigits (c ∷ cs)
    → (front : List ℕ) × (last : ℕ) × (unsnoc (c ∷ cs) ≡ some (front, last))
      × (is_digit last ≡ true)
unfolding unsnoc
unsnoc-digit c [] (d, a) = ([], c, refl, d)
unsnoc-digit c (x ∷ xs) (d, a) =
    let (front, last, e, h) = unsnoc-digit x xs a in (c ∷ front, last, rw (e, unsnoc) refl, h)

stoull-digits_first :
    (c : ℕ) (cs : List ℕ) → AreDigits (c ∷ cs) → stoull (c ∷ cs) ≡ stoull_digits false (c ∷ cs)
unfolding stoull stoull_signed skip_space is_space is_digit
stoull-digits_first c cs (d, a) = ground arith

stoull-decimal : (n : ℕ) → n < 2 ^ 64 → stoull (decimal (n + 1) n) ≡ some n
unfolding stoull_digits wrap_sign
stoull-decimal n h =
    let (c, cs, e) = decimal-cons (n + 1) n (omega arith) in
    let digits : AreDigits (c ∷ cs) =
      subst AreDigits e (decimal-AreDigits (n + 1) n (omega arith)) in
    let value : parse_digits 0 (c ∷ cs) ≡ n =
      parse_digits-value 0 (c ∷ cs) digits
      ∙ ap (value_from 0) (sym e)
      ∙ decimal-value (n + 1) n (omega arith) in
    ap stoull e ∙ stoull-digits_first c cs digits ∙ rw (digits.0, value, lt→ltb n (2 ^ 64) h) refl

scaled-decimal :
    (n unit : ℕ)
    → n < 2 ^ 64
    → n * unit < 2 ^ 64
    → scaled unit (decimal (n + 1) n) ≡ some (n * unit)
unfolding scaled
scaled-decimal n unit h fits = rw (stoull-decimal n h, scaled) (ap some (mod-eq_of_lt fits))

parse_size-split :
    (str front : List ℕ) (last : ℕ)
    → unsnoc str ≡ some (front, last)
    → parse_size str ≡ by_unit str front last
unfolding parse_size
parse_size-split str front last e = rw (e, parse_size) refl

by_unit-digit :
    (str front : List ℕ) (last : ℕ) → is_digit last ≡ true → by_unit str front last ≡ scaled 1 str
unfolding by_unit is_digit
by_unit-digit str front last h = ground arith

-- A number below 2 ^ 64, written in decimal and followed by a unit as a capital or a small letter, or
-- by none, is read as the number times the unit, if that is below 2 ^ 64 too.
pub parse_size-decimal :
    (u : SizeUnit) (upper : Bool) (n : ℕ)
    → n < 2 ^ 64
    → n * factor_of u < 2 ^ 64
    → parse_size (decimal (n + 1) n ++ letter u upper) ≡ some (n * factor_of u)
unfolding parse_size by_unit
parse_size-decimal kilo true n h fits =
    rw (unsnoc-snoc (decimal (n + 1) n) b'K', parse_size) (scaled-decimal n (2 ^ 10) h fits)
parse_size-decimal kilo false n h fits =
    rw (unsnoc-snoc (decimal (n + 1) n) b'k', parse_size) (scaled-decimal n (2 ^ 10) h fits)
parse_size-decimal mega true n h fits =
    rw (unsnoc-snoc (decimal (n + 1) n) b'M', parse_size) (scaled-decimal n (2 ^ 20) h fits)
parse_size-decimal mega false n h fits =
    rw (unsnoc-snoc (decimal (n + 1) n) b'm', parse_size) (scaled-decimal n (2 ^ 20) h fits)
parse_size-decimal giga true n h fits =
    rw (unsnoc-snoc (decimal (n + 1) n) b'G', parse_size) (scaled-decimal n (2 ^ 30) h fits)
parse_size-decimal giga false n h fits =
    rw (unsnoc-snoc (decimal (n + 1) n) b'g', parse_size) (scaled-decimal n (2 ^ 30) h fits)
parse_size-decimal single upper n h fits =
    let (c, cs, e) = decimal-cons (n + 1) n (omega arith) in
    let digits : AreDigits (c ∷ cs) =
      subst AreDigits e (decimal-AreDigits (n + 1) n (omega arith)) in
    let (front, last, split, d) = unsnoc-digit c cs digits in
    rw (append-nil (decimal (n + 1) n)) (
      parse_size-split (decimal (n + 1) n) front last (ap unsnoc e ∙ split)
      ∙ by_unit-digit (decimal (n + 1) n) front last d
      ∙ scaled-decimal n 1 h fits)
