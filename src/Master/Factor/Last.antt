-- ===== src/Master/Factor/Last.antt =====
-- The last values of a list, and one more.
use file_transfer_cmd.Prelude.{
  List, [], ap, arith, drop, get_elem?, length, length-append, refl, some, suc, sym, zero, ℕ, ◌++◌,
  ◌-◌, ◌<◌, ◌∙◌, ◌∷◌, ◌≡◌, ◌≤◌,
}

abbrev pub lastn : {A : Type 0} → ℕ → List A → List A
lastn k xs = drop (length xs - k) xs

drop-append_of_le :
    {A : Type 0} (k : ℕ) (xs ys : List A) → k ≤ length xs → drop k (xs ++ ys) ≡ drop k xs ++ ys
drop-append_of_le zero xs ys h = refl
drop-append_of_le (suc k) [] ys h = absurd (omega arith)
drop-append_of_le (suc k) (x ∷ xs) ys h = drop-append_of_le k xs ys (omega arith)

drop-drop_one : {A : Type 0} (k : ℕ) (xs : List A) → drop 1 (drop k xs) ≡ drop (suc k) xs
drop-drop_one zero xs = refl
drop-drop_one (suc k) [] = refl
drop-drop_one (suc k) (x ∷ xs) = drop-drop_one k xs

pub get_elem?-some :
    {A : Type 0} (xs : List A) (i : ℕ) → i < length xs → (x : A) × (get_elem? xs i ≡ some x)
get_elem?-some [] i h = absurd (omega arith)
get_elem?-some (x ∷ xs) zero h = (x, refl)
get_elem?-some (x ∷ xs) (suc i) h = get_elem?-some xs i (omega arith)

-- The last `k` values, with one more.
pub lastn-snoc_few :
    {A : Type 0} (k : ℕ) (xs : List A) (x : A)
    → length xs < k
    → lastn k xs ++ x ∷ [] ≡ lastn k (xs ++ x ∷ [])
lastn-snoc_few k xs x h =
    let none_before : length xs - k ≡ 0 = omega arith in
    let none_after : length (xs ++ x ∷ []) - k ≡ 0 = omega (arith, length-append xs (x ∷ [])) in
    ap (λ j. drop j xs ++ x ∷ []) none_before ∙ sym (ap (λ j. drop j (xs ++ x ∷ [])) none_after)

pub lastn-snoc_full :
    {A : Type 0} (k : ℕ) (xs : List A) (x : A)
    → k ≤ length xs
    → drop 1 (lastn k xs ++ x ∷ []) ≡ lastn k (xs ++ x ∷ [])
lastn-snoc_full k xs x h =
    let one_more : suc (length xs - k) ≡ length (xs ++ x ∷ []) - k =
      omega (arith, length-append xs (x ∷ [])) in
    ap (drop 1) (sym (drop-append_of_le (length xs - k) xs (x ∷ []) (omega arith)))
    ∙ drop-drop_one (length xs - k) (xs ++ x ∷ [])
    ∙ ap (λ j. drop j (xs ++ x ∷ [])) one_more
