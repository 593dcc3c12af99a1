-- ===== src/Switch/Checksum.antt =====
-- switch1.cpp: the checksum that in_cksum gives is the one that a receiver accepts.
use file_transfer_cmd.Prelude.{
  All, List, [], ap, arith, length, suc, zero, ℕ, ◌%◌, ◌*◌, ◌+◌, ◌/◌, ◌<◌, ◌^◌, ◌∙◌, ◌∷◌, ◌≡◌, ◌≤◌,
}
use file_transfer_cmd.Switch.{fold_sum, in_cksum, sum_words}

abbrev pub AreBytes : List ℕ → Type 0
AreBytes bytes = All (λ x. x < 2 ^ 8) bytes

fold_sum-verify : (s : ℕ) → s + 2 ^ 16 < 2 ^ 31 → fold_sum (s + fold_sum s) ≡ 0
unfolding fold_sum
fold_sum-verify s h = omega arith

fold_sum-lt : (s : ℕ) → fold_sum s < 2 ^ 16
unfolding fold_sum
fold_sum-lt s = omega arith

sum_words-le :
    (n : ℕ) (bytes : List ℕ) → length bytes ≤ n → AreBytes bytes → sum_words bytes ≤ 2 ^ 16 * n
unfolding sum_words
sum_words-le n [] h b = omega arith
sum_words-le n (x ∷ []) h (b, u) = omega (arith, b, h)
sum_words-le zero (x ∷ y ∷ bytes) h b = absurd (omega (arith, h))
sum_words-le (suc zero) (x ∷ y ∷ bytes) h b = absurd (omega (arith, h))
sum_words-le (suc (suc n)) (x ∷ y ∷ bytes) h (b, (b', bs)) =
    omega (arith, b, b', sum_words-le n bytes (omega (arith, h)) bs)

-- The checksum field is bytes 2 and 3 of the packet. If it is filled with the checksum of the packet
-- in which it is 0, the checksum of the packet is 0, which is what a receiver checks. The packet is
-- shorter than 32000 bytes.
pub in_cksum_verifies :
    (kind code : ℕ) (rest : List ℕ)
    → kind < 2 ^ 8
    → code < 2 ^ 8
    → AreBytes rest
    → length rest < 32000
    → let k = in_cksum (kind ∷ code ∷ 0 ∷ 0 ∷ rest) in
      in_cksum (kind ∷ code ∷ (k % 2 ^ 8) ∷ (k / 2 ^ 8) ∷ rest) ≡ 0
unfolding in_cksum sum_words
in_cksum_verifies kind code rest a b bytes short =
    let s : ℕ = kind + 2 ^ 8 * code + (0 + 2 ^ 8 * 0 + sum_words rest) in
    let small : s + 2 ^ 16 < 2 ^ 31 =
      omega (arith, sum_words-le (length rest) rest (omega arith) bytes) in
    ap fold_sum (omega (arith, fold_sum-lt s)) ∙ fold_sum-verify s small
