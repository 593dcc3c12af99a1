-- ===== src/Stream/Receive/Cases.antt =====
-- Which branch of the receiver's body a block number takes, and what that branch returns.
use file_transfer_cmd.Prelude.{
  Bool-cases, List, arith, false, get_elem?, inl, inr, ltb, refl, set, some, true, ℕ, ◌<◌, ◌==◌,
  ◌∷◌, ◌≡◌, ◌≤◌,
}
use file_transfer_cmd.Prelude.Int.{beq_ℤ, ltb_ℤ, negsuc, pos, suc_ℤ, ℤ}
use file_transfer_cmd.Prelude.Words.{add32, sub32}
use file_transfer_cmd.Stream.Receive.{
  Receiver, RecvItem, count, drain, fill, mark_late, receive, skip_ahead,
}

pub top_of_beq : (a : ℕ) (m : ℤ) → beq_ℤ (pos a) m ≡ true → m ≡ pos a
top_of_beq a (pos b) h = ground arith
top_of_beq a (negsuc b) h = cc

-- The branches of one completion, by where its number stands.
pub data ReceiveCase (id : ℕ) (r : Receiver) : Type 0 where
  is_old : id < r.expect_seq → receive id r ≡ some r → ReceiveCase id r
  is_next :
      id ≡ r.expect_seq
      → suc_ℤ r.recv_max_seq ≤ r.expect_seq
      → receive id r
        ≡ some (count (record r { expect_seq = add32 r.expect_seq 1; recv_max_seq = pos id }))
      → ReceiveCase id r
  is_front :
      id ≡ r.expect_seq
      → r.expect_seq < suc_ℤ r.recv_max_seq
      → receive id r ≡ fill id r r.unrecv
      → ReceiveCase id r
  is_late :
      r.expect_seq < id
      → id < suc_ℤ r.recv_max_seq
      → receive id r ≡ mark_late id r
      → ReceiveCase id r
  is_ahead :
      r.expect_seq < id
      → suc_ℤ r.recv_max_seq ≤ id
      → receive id r ≡ some (skip_ahead id r)
      → ReceiveCase id r
  is_top : r.recv_max_seq ≡ pos id → receive id r ≡ some r → ReceiveCase id r

pub ltb_ℤ-pos : (m : ℤ) (k : ℕ) → suc_ℤ m ≤ k → ltb_ℤ m (pos k) ≡ true
ltb_ℤ-pos (pos m) k h = ground arith
ltb_ℤ-pos (negsuc m) k h = refl

pub ltb_ℤ-pos_not : (m : ℤ) (k : ℕ) → k < suc_ℤ m → ltb_ℤ m (pos k) ≡ false
ltb_ℤ-pos_not (pos m) k h = ground arith
ltb_ℤ-pos_not (negsuc m) k h = absurd (omega arith)

pub pos-ltb_ℤ : (m : ℤ) (k : ℕ) → ltb_ℤ (pos k) m ≡ true → k < suc_ℤ m
pos-ltb_ℤ (pos m) k h = ground arith
pos-ltb_ℤ (negsuc m) k h = cc

pub eq_of_not-ltb_ℤ : (m : ℤ) (k : ℕ) → k < suc_ℤ m → ltb_ℤ (pos k) m ≡ false → m ≡ pos k
eq_of_not-ltb_ℤ (pos m) k h g = ground arith
eq_of_not-ltb_ℤ (negsuc m) k h g = absurd (omega arith)

pub above-cases :
    (id : ℕ) (r : Receiver) → r.expect_seq < id → (id == r.expect_seq) ≡ false → ReceiveCase id r
unfolding receive
above-cases id r h ne = elim (Bool-cases (ltb id (suc_ℤ r.recv_max_seq))) [
  | inr out ↦
      is_ahead h (ground arith)
        (ground (arith, ltb_ℤ-pos r.recv_max_seq id, pos-ltb_ℤ r.recv_max_seq id))
  | inl inside ↦ elim (Bool-cases (ltb_ℤ (pos id) r.recv_max_seq)) [
    | inl less ↦ is_late h (ground arith) (ground arith)
    | inr no_less ↦
        is_top (eq_of_not-ltb_ℤ r.recv_max_seq id (ground arith) no_less)
          (ground (arith, ltb_ℤ-pos_not r.recv_max_seq id))
  ]
]

pub expected-cases : (id : ℕ) (r : Receiver) → id ≡ r.expect_seq → ReceiveCase id r
unfolding receive
expected-cases id r e = elim (Bool-cases (ltb r.expect_seq (suc_ℤ r.recv_max_seq))) [
  | inl inside ↦
      is_front e (ground arith) (ground (arith, ltb_ℤ-pos_not r.recv_max_seq r.expect_seq))
  | inr out ↦ is_next e (ground arith) (ground (arith, ltb_ℤ-pos r.recv_max_seq r.expect_seq))
]

pub receive-cases : (id : ℕ) (r : Receiver) → ReceiveCase id r
unfolding receive
receive-cases id r = elim (Bool-cases (ltb id r.expect_seq)) [
  | inl less ↦ is_old (ground arith) (rw less)
  | inr no_less ↦ elim (Bool-cases (id == r.expect_seq)) [
    | inl same ↦ expected-cases id r (ground arith)
    | inr other ↦ above-cases id r (ground arith) other
  ]
]

pub fill_lem :
    (id : ℕ) (r : Receiver) (x : RecvItem) (xs : List RecvItem)
    → beq_ℤ (pos r.expect_seq) r.recv_max_seq ≡ false
    → x.seq ≡ id
    → let out = drain (record x { recved = true } ∷ xs) r.expect_seq in
      fill id r (x ∷ xs) ≡ some (count (record r { unrecv = out.0; expect_seq = out.1 }))
unfolding fill
fill_lem id r x xs h e = ground arith

pub mark_late_old :
    (id : ℕ) (r : Receiver) (x : RecvItem)
    → get_elem? r.unrecv (sub32 id r.expect_seq) ≡ some x
    → x.recved ≡ true
    → mark_late id r ≡ some r
unfolding mark_late
mark_late_old id r x g old = rw (g, mark_late) (rw old)

pub mark_late_new :
    (id : ℕ) (r : Receiver) (x : RecvItem)
    → get_elem? r.unrecv (sub32 id r.expect_seq) ≡ some x
    → x.recved ≡ false
    → mark_late id r
      ≡ some (
          count (record r {
            unrecv = set r.unrecv (sub32 id r.expect_seq) (record x { recved = true });
          }))
unfolding mark_late
mark_late_new id r x g new = rw (g, mark_late) (ground arith)
