-- ===== src/Command/Pieces.antt =====
-- client.cpp: a command may come in any pieces, and a connection that says nothing ends the client.
use file_transfer_cmd.Prelude.{
  All, List, [], ap, arith, drop, eq-nil_of_length, false, get_or, length, length-append,
  length-replicate, ltb, lt→ltb, refl, replicate, suc, sym, take-length-append, true, zero, ℕ, ◌++◌,
  ◌+◌, ◌<◌, ◌==◌, ◌∙◌, ◌∷◌, ◌≡◌, ◌≤◌,
}
use file_transfer_cmd.Command.{
  Recv, broken_off, bytes, cmd_type, end, on_connection, receive_block, serve_commands, write_at,
}
use mathlib.Core.List.{append_assoc}

abbrev pub join : List (List ℕ) → List ℕ
join [] = []
join (p ∷ ps) = p ++ join ps

abbrev pub as_recvs : List (List ℕ) → List Recv
as_recvs [] = []
as_recvs (p ∷ ps) = bytes p ∷ as_recvs ps

drop-append :
    (xs ys zs : List ℕ) (k : ℕ)
    → k ≡ length xs + length ys
    → length ys ≤ length zs
    → drop k (xs ++ zs) ≡ drop (length ys) zs
drop-append [] ys zs k e h = ap (λ j. drop j zs) (omega (arith, e))
drop-append (x ∷ xs) ys zs zero e h = absurd (omega (arith, e))
drop-append (x ∷ xs) ys zs (suc k) e h = drop-append xs ys zs k (omega (arith, e)) h

length-drop : (k : ℕ) (xs : List ℕ) → k ≤ length xs → length (drop k xs) + k ≡ length xs
length-drop zero xs h = omega arith
length-drop (suc k) [] h = absurd (omega arith)
length-drop (suc k) (x ∷ xs) h = omega (arith, length-drop k xs (omega arith))

write_at_end :
    (before piece after : List ℕ)
    → length piece ≤ length after
    → write_at (length before) piece (before ++ after)
      ≡ (before ++ piece) ++ drop (length piece) after
unfolding write_at
write_at_end before piece after h =
    ap (λ l. l ++ piece ++ drop (length before + length piece) (before ++ after))
      (take-length-append before after)
    ∙ ap (λ l. before ++ piece ++ l)
        (drop-append before piece after (length before + length piece) refl h)

receive_block-from :
    (size : ℕ) (ps : List (List ℕ)) (before after : List ℕ)
    → All (λ p. 0 < length p) ps
    → length after ≡ length (join ps)
    → length before + length after ≡ size
    → receive_block size (length before) (as_recvs ps) (before ++ after) ≡ before ++ join ps
unfolding receive_block
receive_block-from size [] before after some_bytes h whole =
    ap (λ l. before ++ l) (eq-nil_of_length after h)
receive_block-from size (p ∷ ps) before after (lo, some_bytes) h whole =
    let both : length (p ++ join ps) ≡ length p + length (join ps) = length-append p (join ps) in
    let left : length (drop (length p) after) + length p ≡ length after =
      length-drop (length p) after (omega (arith, both)) in
    let size_p : length (before ++ p) ≡ length before + length p = length-append before p in
    let filled : (length p == 0) ≡ false = ground arith in
    let more : ltb (length before) size ≡ true =
      lt→ltb (length before) size (omega (arith, both)) in
    rw more (
      rw filled (
        ap (receive_block size (length before + length p) (as_recvs ps))
          (write_at_end before p after (omega (arith, both)))
        ∙ ap (λ k. receive_block size k (as_recvs ps) ((before ++ p) ++ drop (length p) after))
            (sym size_p)
        ∙ receive_block-from size ps (before ++ p) (drop (length p) after) some_bytes
            (omega (arith, both)) (omega (arith, size_p))
        ∙ append_assoc before p (join ps)))

-- In whatever pieces the bytes of a command come, the client carries out the command that they make
-- up.
pub on_connection_pieces :
    (ps : List (List ℕ))
    → All (λ p. 0 < length p) ps
    → on_connection (length (join ps)) (as_recvs ps) ≡ cmd_type (join ps)
unfolding on_connection
on_connection_pieces ps some_bytes = ap cmd_type (
    receive_block-from (length (join ps)) ps [] (replicate (length (join ps)) 0) some_bytes
      (length-replicate {A = ℕ} (length (join ps)) 0)
      (omega (arith, length-replicate {A = ℕ} (length (join ps)) 0)))

zeroed : (size i : ℕ) → get_or (replicate size 0) i 0 ≡ zero
zeroed zero i = refl
zeroed (suc size) zero = refl
zeroed (suc size) (suc i) = zeroed size i

silent_connection : (size : ℕ) (rest : List Recv) → on_connection size (broken_off ∷ rest) ≡ end
unfolding on_connection receive_block cmd_type
silent_connection size rest = rw (zeroed size 0, zeroed size 1, zeroed size 2, zeroed size 3) refl

-- A connection that closes before it has sent a byte leaves the zeroed block, which is the command
-- to end: the client stops, whatever is still to come.
pub silent_connection_ends :
    (size : ℕ) (rest : List Recv) (more : List (List Recv))
    → serve_commands size ((broken_off ∷ rest) ∷ more) ≡ ([], true)
unfolding serve_commands
silent_connection_ends size rest more = rw (silent_connection size rest, serve_commands) refl
