-- ===== src/Stream/Send/Flight.antt =====
-- The sender's accounts: what is in flight, what is acknowledged, and that no buffer is written
-- while its block is in flight.
use file_transfer_cmd.Prelude.{
  Bool, List, Option-cases, [], ap, arith, get_or, inl, inr, length, length-append, length-set,
  refl, some, subst, suc, sym, zero, ℕ, ◌%◌, ◌*◌, ◌++◌, ◌+◌, ◌<◌, ◌^◌, ◌∙◌, ◌∷◌, ◌≡◌, ◌≤◌,
}
use file_transfer_cmd.Prelude.Words.{add64, sub32}
use file_transfer_cmd.Stream.Send.{Sender, complete, complete_all, next_block, push, start}
use mathlib.Core.Option.{some-injective}
use native.Mathlib.Nat.{add-mul}

abbrev pub sum : List ℕ → ℕ
sum [] = 0
sum (x ∷ xs) = x + sum xs

sum-append : (xs ys : List ℕ) → sum (xs ++ ys) ≡ sum xs + sum ys
sum-append [] ys = omega arith
sum-append (x ∷ xs) ys = omega (arith, sum-append xs ys)

-- `limit` bounds what is in flight.
pub record Accounts (block_size nbuf limit : ℕ) (s : Sender) : Type 0 where
  pub flying : s.outstanding ≡ length s.uncomplete
  pub few : s.outstanding ≤ limit
  pub posted : s.outstanding ≤ s.i
  pub buffers : length s.mem ≡ nbuf
  pub here : s.current ≡ s.i % nbuf
  pub payload : s.bytes_payload ≡ block_size
  pub counted : s.sendcnt ≡ s.i
  pub bytes : (s.ack_bytes + sum s.uncomplete) % 2 ^ 64 ≡ (s.i * block_size) % 2 ^ 64
  pub logged : length s.sent ≡ s.i

pub start-Accounts :
    (block_size nbuf file_size : ℕ) (mem : List ℕ)
    → length mem ≡ nbuf
    → Accounts block_size nbuf 0 (start block_size file_size mem)
unfolding start
start-Accounts block_size nbuf file_size mem h = record {
  flying = refl;
  few = omega arith;
  posted = omega arith;
  buffers = length-set mem 0 0 ∙ h;
  here = omega arith;
  payload = refl;
  counted = refl;
  bytes = omega arith;
  logged = refl;
}

module _ {block_size nbuf limit : ℕ} (s : Sender) (a : Accounts block_size nbuf limit s) where
  pub next_block-Accounts :
      (use_message : Bool) (id : ℕ) → Accounts block_size nbuf limit (next_block use_message id s)
  unfolding next_block
  next_block-Accounts use_message id = ground (
    arith,
    length-set s.mem id (s.sendcnt % 2 ^ 32),
    length-set s.mem id (get_or s.restran_space (s.restraned_num + 1) 0),
  )

  pub push-Accounts : Accounts block_size nbuf (limit + 1) (push block_size nbuf s)
  unfolding push
  push-Accounts = record {
    flying = omega (arith, a.flying, length-append s.uncomplete (s.bytes_payload ∷ []));
    few = omega (arith, a.few);
    posted = omega (arith, a.posted);
    buffers = a.buffers;
    here = refl;
    payload = refl;
    counted = omega (arith, a.counted);
    bytes = omega (
      arith,
      a.bytes,
      a.payload,
      sum-append s.uncomplete (s.bytes_payload ∷ []),
      add-mul s.i 1 block_size,
    );
    logged = omega (arith, a.logged, length-append s.sent (get_or s.mem s.current 0 ∷ []));
  }

  completed-Accounts :
      (b : ℕ) (bs : List ℕ)
      → limit < 2 ^ 32
      → s.uncomplete ≡ b ∷ bs
      → Accounts block_size nbuf limit (record s {
        outstanding = sub32 s.outstanding 1;
        ack_bytes = add64 s.ack_bytes b;
        uncomplete = bs;
      })
  completed-Accounts b bs h e = record {
    flying = omega (arith, a.flying, a.few, ap length e);
    few = omega (arith, a.few, a.flying, ap length e);
    posted = omega (arith, a.posted, a.few, a.flying, ap length e);
    buffers = a.buffers;
    here = a.here;
    payload = a.payload;
    counted = a.counted;
    bytes = omega (arith, a.bytes, ap sum e);
    logged = a.logged;
  }

pub complete-cases :
    (s : Sender) {s' : Sender} (q : List ℕ)
    → s.uncomplete ≡ q
    → complete s ≡ some s'
    → (b : ℕ) × (bs : List ℕ) × (s.uncomplete ≡ b ∷ bs)
      × (s' ≡ record s {
        outstanding = sub32 s.outstanding 1;
        ack_bytes = add64 s.ack_bytes b;
        uncomplete = bs;
      })
unfolding complete
complete-cases s [] h e = ground arith
complete-cases s (b ∷ bs) h e = (b, bs, h, ground arith)

module _ {block_size nbuf limit : ℕ} (small : limit < 2 ^ 32) where
  pub complete_all-Accounts :
      (n : ℕ) (s s' : Sender)
      → Accounts block_size nbuf limit s
      → complete_all n s ≡ some s'
      → Accounts block_size nbuf limit s'
  unfolding complete_all
  complete_all-Accounts zero s s' a e =
      subst (Accounts block_size nbuf limit) (some-injective _ _ e) a
  complete_all-Accounts (suc n) s s' a e = elim (Option-cases (complete s)) [
    | inl gone ↦ ground arith
    | inr (s₁, e₁) ↦
        let (b, bs, q, z) = complete-cases s s.uncomplete refl e₁ in
        complete_all-Accounts n s₁ s'
          (subst (Accounts block_size nbuf limit) (sym z) (completed-Accounts s a b bs small q))
          (ground arith)
  ]
