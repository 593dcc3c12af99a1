-- ===== src/Switch/Forward/Frames.antt =====
-- sniff_lucp: the frames in an output and in a ring.
use file_transfer_cmd.Prelude.{
  Bool-cases, List, [], ap, arith, inl, inr, leb, length, refl, subst, sym, ℕ, ◌++◌, ◌∙◌, ◌∷◌, ◌≡◌,
  ◌≤◌,
}
use file_transfer_cmd.Switch.Forward.{Frame, Net, send_all, send_now}
use file_transfer_cmd.Switch.Ring.{Delayed}
use file_transfer_cmd.Switch.Ring.Delay.{split_due}
use mathlib.Core.List.{append_assoc, append-nil, Perm, perm_middle}
use mathlib.Core.List.Perm

abbrev pub frames : {D : Type 0} → List (List ℕ × Frame D) → List (Frame D)
frames [] = []
frames ((a, f) ∷ out) = f ∷ frames out

abbrev pub packets : {A : Type 0} → List (Delayed A) → List A
packets [] = []
packets (x ∷ q) = x.packet ∷ packets q

pub frames-append :
    {D : Type 0} (xs : List (List ℕ × Frame D)) (a : List ℕ) (f : Frame D)
    → frames (xs ++ (a, f) ∷ []) ≡ frames xs ++ f ∷ []
frames-append [] a f = refl
frames-append ((b, g) ∷ xs) a f = ap (◌∷◌ g) (frames-append xs a f)

pub packets-append :
    {A : Type 0} (q : List (Delayed A)) (x : Delayed A)
    → packets (q ++ x ∷ []) ≡ packets q ++ x.packet ∷ []
packets-append [] x = refl
packets-append (y ∷ q) x = ap (◌∷◌ y.packet) (packets-append q x)

pub split_due-packets :
    {A : Type 0} (now : ℕ) (q : List (Delayed A))
    → packets q ≡ (split_due now q).0 ++ packets (split_due now q).1
split_due-packets now [] = refl
split_due-packets now (x ∷ q) = elim (Bool-cases (leb x.send_time now)) [
  | inl due ↦ rw due (ap (◌∷◌ x.packet) (split_due-packets now q))
  | inr early ↦ rw early refl
]

pub frames-send_all :
    {D : Type 0} (fs : List (Frame D)) (s : Net D) → frames (send_all fs s).out ≡ frames s.out ++ fs
unfolding send_all send_now
frames-send_all [] s = sym (append-nil (frames s.out))
frames-send_all (f ∷ fs) s =
    frames-send_all fs (send_now f s)
    ∙ ap (λ l. l ++ fs) (frames-append s.out s.from f)
    ∙ append_assoc (frames s.out) (f ∷ []) fs

pub send_all-rest :
    {D : Type 0} (fs : List (Frame D)) (s : Net D) (o : List (List ℕ × Frame D))
    → record (send_all fs s) { out = o } ≡ record s { out = o }
unfolding send_all send_now
send_all-rest [] s o = refl
send_all-rest (f ∷ fs) s o = send_all-rest fs (send_now f s) o

pub split_due-shorter :
    {A : Type 0} (now : ℕ) (q : List (Delayed A)) → length (split_due now q).1 ≤ length q
split_due-shorter now [] = omega arith
split_due-shorter now (x ∷ q) = elim (Bool-cases (leb x.send_time now)) [
  | inl due ↦ rw due (omega (arith, split_due-shorter now q))
  | inr early ↦ rw early (omega arith)
]

snoc-Perm : {A : Type 0} (a : A) (xs : List A) → Perm (xs ++ a ∷ []) (a ∷ xs)
snoc-Perm a xs = subst (λ l. Perm (xs ++ a ∷ []) (a ∷ l)) (append-nil xs) (perm_middle xs [])

pub perm_between :
    {A : Type 0} (a : A) (xs ys zs : List A)
    → Perm xs (ys ++ zs)
    → Perm (xs ++ a ∷ []) ((ys ++ a ∷ []) ++ zs)
perm_between a xs ys zs p = Perm.trans (Perm.append_right (a ∷ []) p) (
    subst (λ l. Perm l ((ys ++ a ∷ []) ++ zs)) (sym (append_assoc ys zs (a ∷ [])))
      (subst (Perm (ys ++ (zs ++ a ∷ []))) (sym (append_assoc ys (a ∷ []) zs))
        (Perm.append_left ys (snoc-Perm a zs))))
