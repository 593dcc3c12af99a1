-- ===== src/Master/Rows.antt =====
-- The rows of a RateCollector: which moments they are for.
use file_transfer_cmd.Prelude.{
  List, [], arith, get_elem?, length, refl, set, some, suc, zero, ℕ, ◌++◌, ◌+◌, ◌<◌, ◌∷◌, ◌≡◌,
}
use file_transfer_cmd.Master.{RateCollector, RateQueueElem}

-- Rows for the moments from `k` on, with a place for each of `n` clients.
abbrev pub Rows : {D : Type 0} → ℕ → ℕ → List (RateQueueElem D) → Type 0
Rows n k [] = Unit {0}
Rows n k (e ∷ es) = (e.seq_num ≡ k) × (length e.rates ≡ n) × Rows n (k + 1) es

-- `base` rows have been published.
pub record IsOrdered {D : Type 0} (n base : ℕ) (c : RateCollector D) : Type 0 where
  pub rows : Rows n base c.rate_queue
  pub wait : c.wait_seq_num ≡ base + length c.rate_queue
  pub clients : c.client_num ≡ n

pub Rows-append :
    {D : Type 0} (n k : ℕ) (es : List (RateQueueElem D)) (e : RateQueueElem D)
    → Rows n k es
    → e.seq_num ≡ k + length es
    → length e.rates ≡ n
    → Rows n k (es ++ e ∷ [])
Rows-append n k [] e r s l = (omega (arith, s), l, tt)
Rows-append n k (x ∷ es) e (a, b, r) s l = (a, b, Rows-append n (k + 1) es e r (omega (arith, s)) l)

pub Rows-set :
    {D : Type 0} (n k i : ℕ) (es : List (RateQueueElem D)) (e : RateQueueElem D)
    → Rows n k es
    → e.seq_num ≡ k + i
    → length e.rates ≡ n
    → Rows n k (set es i e)
Rows-set n k i [] e r s l = tt
Rows-set n k zero (x ∷ es) e (a, b, r) s l = (omega (arith, s), l, r)
Rows-set n k (suc i) (x ∷ es) e (a, b, r) s l =
    (a, b, Rows-set n (k + 1) i es e r (omega (arith, s)) l)

pub Rows-get :
    {D : Type 0} (n k i : ℕ) (es : List (RateQueueElem D))
    → Rows n k es
    → i < length es
    → (e : RateQueueElem D) × (get_elem? es i ≡ some e) × (e.seq_num ≡ k + i) × (length e.rates ≡ n)
Rows-get n k i [] r h = absurd (omega arith)
Rows-get n k zero (x ∷ es) (a, b, r) h = (x, refl, omega (arith, a), b)
Rows-get n k (suc i) (x ∷ es) (a, b, r) h =
    let (e, z, s, l) = Rows-get n (k + 1) i es r (omega arith) in (e, z, omega (arith, s), l)
