-- ===== src/Switch/Ring/Delay.antt =====
-- switch1.cpp: the ring is a first-in first-out queue while it is not full.
use file_transfer_cmd.Prelude.{
  ==_iff, Bool-cases, List, Option, [], ap, arith, false, get_or, get_or-set_self, if◌then◌else◌,
  inl, inr, leb, length, length-append, length-set, none, refl, set, some, subst, suc, sym, zero, ℕ,
  ◌%◌, ◌++◌, ◌+◌, ◌-◌, ◌<◌, ◌==◌, ◌∙◌, ◌∷◌, ◌≡◌, ◌≢◌, ◌≤◌,
}
use file_transfer_cmd.Prelude.Mod.{mod_apart}
use file_transfer_cmd.Switch.Ring.{Delayed, Ring, delay, put, send_due}
use native.Mathlib.Nat.{mod-add-mod, mod-eq-sub-mod, mod-eq_of_lt, mod-lt}

get_or-set_other :
    {A : Type 0} (xs : List A) (i j : ℕ) (v z : A) → i ≢ j → get_or (set xs j v) i z ≡ get_or xs i z
get_or-set_other [] i j v z h = refl
get_or-set_other (x ∷ xs) zero zero v z h = absurd (h refl)
get_or-set_other (x ∷ xs) zero (suc j) v z h = refl
get_or-set_other (x ∷ xs) (suc i) zero v z h = refl
get_or-set_other (x ∷ xs) (suc i) (suc j) v z h = get_or-set_other xs i j v z (λ e. h (ap suc e))

-- The entries of `q` lie in the slots from `i` on, around the end of the buffer.
abbrev pub Slots : {A : Type 0} → ℕ → List (Option (Delayed A)) → ℕ → List (Delayed A) → Type 0
Slots n buf i [] = Unit {0}
Slots n buf i (x ∷ q) = (get_or buf i none ≡ some x) × Slots n buf ((i + 1) % n) q

pub record IsQueue {A : Type 0} (n : ℕ) (q : List (Delayed A)) (r : Ring A) : Type 0 where
  pub size : length r.delay_buf ≡ n
  pub start : r.tail < n
  pub end : r.head ≡ (r.tail + length q) % n
  pub room : length q < n
  pub slots : Slots n r.delay_buf r.tail q

-- What is due at `now` from the front on, and the rest.
abbrev pub split_due : {A : Type 0} → ℕ → List (Delayed A) → List A × List (Delayed A)
split_due now [] = ([], [])
split_due now (x ∷ q) =
    let (gone, rest) = split_due now q in
    if leb x.send_time now then (x.packet ∷ gone, rest) else ([], x ∷ q)

slot_apart : (i k n : ℕ) → i < n → 0 < k → k < n → i ≢ (i + k) % n
slot_apart i k n h lo hi e = mod_apart i k n lo hi (mod-eq_of_lt h ∙ e)

mod-add_self : {n : ℕ} (i : ℕ) → i < n → (i + n) % n ≡ i
mod-add_self {n} i h =
    let over : n ≤ i + n = omega arith in
    let back : i + n - n ≡ i = omega arith in
    mod-eq-sub-mod over ∙ ap (λ k. k % n) back ∙ mod-eq_of_lt h

module _ {A : Type 0} (n : ℕ) where
  Slots-set :
      (buf : List (Option (Delayed A))) (i m : ℕ) (q : List (Delayed A)) (v : Option (Delayed A))
      → i < n
      → length q ≤ m
      → m < n
      → Slots n buf i q
      → Slots n (set buf ((i + m) % n) v) i q
  Slots-set buf i m [] v h lo hi s = tt
  Slots-set buf i zero (x ∷ q) v h lo hi s = absurd (omega (arith, lo))
  Slots-set buf i (suc m) (x ∷ q) v h lo hi (e, s) =
      let next : (i + 1) % n < n = mod-lt (i + 1) {m = n} (omega arith) in
      let same : ((i + 1) % n + m) % n ≡ (i + suc m) % n =
        mod-add-mod (i + 1) n m ∙ ap (λ k. k % n) (omega arith) in
      (
        get_or-set_other buf i ((i + suc m) % n) v none (slot_apart i (suc m) n h (omega arith) hi)
            ∙ e,
        subst (λ j. Slots n (set buf j v) ((i + 1) % n) q) same
            (Slots-set buf ((i + 1) % n) m q v next (omega (arith, lo)) (omega arith) s),
      )

  Slots-append :
      (buf : List (Option (Delayed A))) (i : ℕ) (q : List (Delayed A)) (x : Delayed A)
      → i < n
      → Slots n buf i q
      → get_or buf ((i + length q) % n) none ≡ some x
      → Slots n buf i (q ++ x ∷ [])
  Slots-append buf i [] x h s e =
      let here : (i + 0) % n ≡ i = ap (λ k. k % n) (omega arith) ∙ mod-eq_of_lt h in
      (ap (λ j. get_or buf j none) (sym here) ∙ e, tt)
  Slots-append buf i (y ∷ q) x h (z, s) e =
      let next : (i + 1) % n < n = mod-lt (i + 1) {m = n} (omega arith) in
      let same : ((i + 1) % n + length q) % n ≡ (i + suc (length q)) % n =
        mod-add-mod (i + 1) n (length q) ∙ ap (λ k. k % n) (omega arith) in
      (z, Slots-append buf ((i + 1) % n) q x next s (ap (λ j. get_or buf j none) same ∙ e))

  pub put-IsQueue :
      (p : A) (time : ℕ) (q : List (Delayed A)) (r : Ring A)
      → length q + 1 < n
      → IsQueue n q r
      → IsQueue n (q ++ record { packet = p; send_time = time } ∷ []) (put p time r)
  unfolding put
  put-IsQueue p time q r h w =
      let x : Delayed A = record { packet = p; send_time = time } in
      let more : length (q ++ x ∷ []) ≡ length q + 1 = length-append q (x ∷ []) in
      let inside : (r.tail + length q) % n < length r.delay_buf =
        omega (arith, w.size, mod-lt (r.tail + length q) {m = n} (omega arith)) in
      record {
        size = length-set r.delay_buf r.head (some x) ∙ w.size;
        start = w.start;
        end =
            ap (λ k. (r.head + 1) % k) w.size
            ∙ ap (λ k. (k + 1) % n) w.end
            ∙ mod-add-mod (r.tail + length q) n 1
            ∙ ap (λ k. k % n) (omega (arith, more));
        room = omega (arith, more);
        slots =
            subst (λ j. Slots n (set r.delay_buf j (some x)) r.tail (q ++ x ∷ [])) (sym w.end)
              (Slots-append (set r.delay_buf ((r.tail + length q) % n) (some x)) r.tail q x w.start
                (Slots-set r.delay_buf r.tail (length q) q (some x) w.start (omega arith) w.room
                  w.slots)
                (get_or-set_self r.delay_buf ((r.tail + length q) % n) (some x) none inside));
      }

  -- While there is room for it, a delayed packet goes to the end of the queue, to be sent a
  -- millisecond after `now`, and nothing else changes.
  pub delay-IsQueue :
      (p : A) (now : ℕ) (q : List (Delayed A)) (r : Ring A)
      → length q + 1 < n
      → IsQueue n q r
      → IsQueue n (q ++ record { packet = p; send_time = now + 1000000 } ∷ []) (delay p now r)
  unfolding delay
  delay-IsQueue p now q r h w = put-IsQueue p (now + 1000000) q r h w

  delay-meets :
      (p : A) (now : ℕ) (q : List (Delayed A)) (r : Ring A)
      → length q + 1 ≡ n
      → IsQueue n q r
      → (delay p now r).tail ≡ (delay p now r).head
  unfolding delay put
  delay-meets p now q r h w = sym (
      ap (λ k. (r.head + 1) % k) w.size
      ∙ ap (λ k. (k + 1) % n) w.end
      ∙ mod-add-mod (r.tail + length q) n 1
      ∙ ap (λ k. k % n) (omega (arith, h))
      ∙ mod-add_self r.tail w.start)

  -- A packet that fills the last slot empties the ring: its ends meet, and until the next packet comes
  -- nothing is sent any more.
  pub delay_overflow :
      (p : A) (now time fuel : ℕ) (q : List (Delayed A)) (r : Ring A)
      → length q + 1 ≡ n
      → IsQueue n q r
      → send_due fuel time (delay p now r) ≡ ([], delay p now r)
  unfolding send_due
  delay_overflow p now time zero q r h w = refl
  delay_overflow p now time (suc fuel) q r h w =
      let met : (delay p now r).tail ≡ (delay p now r).head = delay-meets p now q r h w in
      rw ((==_iff (delay p now r).tail (delay p now r).head).1 met) refl

  pop-IsQueue :
      (x : Delayed A) (q : List (Delayed A)) (r : Ring A)
      → IsQueue n (x ∷ q) r
      → IsQueue n q (record r {
        delay_buf = set r.delay_buf r.tail none;
        tail = (r.tail + 1) % length r.delay_buf;
      })
  pop-IsQueue x q r w =
      let last : ℕ = n - 1 in
      let next : (r.tail + 1) % n < n = mod-lt (r.tail + 1) {m = n} (omega (arith, w.start)) in
      let around : ((r.tail + 1) % n + last) % n ≡ r.tail =
        mod-add-mod (r.tail + 1) n last
        ∙ ap (λ k. k % n) (omega (arith, w.start))
        ∙ mod-add_self r.tail w.start in
      record {
        size = length-set r.delay_buf r.tail none ∙ w.size;
        start = subst (λ k. (r.tail + 1) % k < n) (sym w.size) next;
        end =
            w.end
            ∙ ap (λ k. k % n) (omega arith)
            ∙ sym (mod-add-mod (r.tail + 1) n (length q))
            ∙ ap (λ k. ((r.tail + 1) % k + length q) % n) (sym w.size);
        room = omega (arith, w.room);
        slots =
            subst (λ k. Slots n (set r.delay_buf r.tail none) ((r.tail + 1) % k) q) (sym w.size)
              (subst (λ j. Slots n (set r.delay_buf j none) ((r.tail + 1) % n) q) around
                (Slots-set r.delay_buf ((r.tail + 1) % n) last q none next (omega (arith, w.room))
                  (omega (arith, w.start)) w.slots.1));
      }

  -- The sending thread sends, in order, the packets at the front of the queue whose time has come,
  -- and leaves the rest as they are. As many steps as the queue has packets are enough.
  pub send_due-IsQueue :
      (fuel now : ℕ) (q : List (Delayed A)) (r : Ring A)
      → length q ≤ fuel
      → IsQueue n q r
      → ((send_due fuel now r).0 ≡ (split_due now q).0)
        × IsQueue n (split_due now q).1 (send_due fuel now r).1
  unfolding send_due
  send_due-IsQueue zero now [] r h w = (refl, w)
  send_due-IsQueue zero now (x ∷ q) r h w = absurd (omega (arith, h))
  send_due-IsQueue (suc fuel) now [] r h w =
      let met : r.tail ≡ r.head =
        sym (w.end ∙ ap (λ k. k % n) (omega arith) ∙ mod-eq_of_lt w.start) in
      rw ((==_iff r.tail r.head).1 met) (refl, w)
  send_due-IsQueue (suc fuel) now (x ∷ q) r h w =
      let apart : (r.tail == r.head) ≡ false = ground (
        arith,
        λ (e : r.tail ≡ r.head).
            slot_apart r.tail (suc (length q)) n w.start (omega arith) w.room (e ∙ w.end),
      ) in
      let popped : Ring A = record r {
        delay_buf = set r.delay_buf r.tail none;
        tail = (r.tail + 1) % length r.delay_buf;
      } in
      let (same, rest) = send_due-IsQueue fuel now q popped (omega arith) (pop-IsQueue x q r w) in
      rw apart (
        rw w.slots.0 (elim (Bool-cases (leb x.send_time now)) [
          | inl due ↦ rw due (ap (◌∷◌ x.packet) same, rest)
          | inr early ↦ rw early (refl, w)
        ]))
