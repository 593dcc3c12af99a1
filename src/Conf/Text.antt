-- ===== src/Conf/Text.antt =====
-- Texts on one line, as saveConf writes them and loadConf reads them.
use file_transfer_cmd.Prelude.{
  All, Bool, Bool-cases, List, [], ap, arith, false, inl, inr, length, length-append, not, refl,
  true, ℕ, ◌&&◌, ◌++◌, ◌+◌, ◌<◌, ◌==◌, ◌∙◌, ◌∷◌, ◌≡◌, ◌≤◌,
}
use file_transfer_cmd.Conf.{
  cons_line, decimal, get_lines, is_blank, is_digit, put_lines, show_int, trim_end, trim_start,
}
use file_transfer_cmd.Conf.Numbers.{AreDigits, decimal-AreDigits, decimal-cons}
use file_transfer_cmd.Prelude.Int.{negsuc, pos, ℤ}

abbrev pub one_line : List ℕ → Bool
one_line [] = true
one_line (c ∷ cs) = not (c == b'\n') && one_line cs

-- A text on one line, not empty, that trim leaves as it is.
pub record IsPlainText (v : List ℕ) : Type 0 where
  pub start : trim_start v ≡ v
  pub end : trim_end v ≡ v
  pub some_text : 1 ≤ length v
  pub line : one_line v ≡ true

get_lines-line :
    (l rest : List ℕ) → one_line l ≡ true → get_lines (l ++ b'\n' ∷ rest) ≡ l ∷ get_lines rest
unfolding get_lines cons_line
get_lines-line [] rest h = refl
get_lines-line (c ∷ cs) rest h = elim (Bool-cases (c == b'\n')) [
  | inl ends ↦ absurd (not_line c cs ends h)
  | inr text ↦ rw text (ap (cons_line c) (get_lines-line cs rest (rw text at h)))
]
  where
    not_line : (c : ℕ) (cs : List ℕ) → (c == b'\n') ≡ true → ¬ (one_line (c ∷ cs) ≡ true)
    not_line c cs e h = cc (rw e at h)

-- The lines of what is written are those that were to be written, if none has a newline in it.
pub get_lines-put_lines :
    (ls : List (List ℕ)) → All (λ l. one_line l ≡ true) ls → get_lines (put_lines ls) ≡ ls
unfolding put_lines get_lines
get_lines-put_lines [] h = refl
get_lines-put_lines (l ∷ ls) (h, hs) =
    get_lines-line l (put_lines ls) h ∙ ap (◌∷◌ l) (get_lines-put_lines ls hs)

one_line-digits : (cs : List ℕ) → AreDigits cs → one_line cs ≡ true
unfolding is_digit
one_line-digits [] a = refl
one_line-digits (c ∷ cs) (d, a) =
    let text : (c == b'\n') ≡ false = ground arith in rw text (one_line-digits cs a)

pub trim_end-append : (xs v : List ℕ) → IsPlainText v → trim_end (xs ++ v) ≡ xs ++ v
unfolding trim_end
trim_end-append [] v t = t.end
trim_end-append (x ∷ xs) v t =
    let more : (length (xs ++ v) == 0) ≡ false = ground (arith, length-append xs v, t.some_text) in
    rw (trim_end-append xs v t) (rw more refl)

trim_end-digits : (cs : List ℕ) → AreDigits cs → trim_end cs ≡ cs
unfolding trim_end is_blank is_digit
trim_end-digits [] a = refl
trim_end-digits (c ∷ cs) (d, a) =
    let text : is_blank c ≡ false = ground arith in rw (trim_end-digits cs a) (ground arith)

trim_start-digits : (cs : List ℕ) → AreDigits cs → trim_start cs ≡ cs
unfolding trim_start is_blank is_digit
trim_start-digits [] a = refl
trim_start-digits (c ∷ cs) (d, a) = let text : is_blank c ≡ false = ground arith in rw text refl

decimal-IsPlainText : (fuel n : ℕ) → n < fuel → IsPlainText (decimal fuel n)
decimal-IsPlainText fuel n h =
    let digits : AreDigits (decimal fuel n) = decimal-AreDigits fuel n h in
    let (c, cs, e) = decimal-cons fuel n h in
    record {
      start = trim_start-digits (decimal fuel n) digits;
      end = trim_end-digits (decimal fuel n) digits;
      some_text = rw e (omega arith);
      line = one_line-digits (decimal fuel n) digits;
    }

pub show_int-IsPlainText : (v : ℤ) → IsPlainText (show_int v)
unfolding show_int trim_start is_blank
show_int-IsPlainText (pos n) = decimal-IsPlainText (n + 1) n (omega arith)
show_int-IsPlainText (negsuc n) =
    let t = decimal-IsPlainText (n + 2) (n + 1) (omega arith) in
    record {
      start = refl;
      end = trim_end-append (b'-' ∷ []) (decimal (n + 2) (n + 1)) t;
      some_text = omega arith;
      line = t.line;
    }
