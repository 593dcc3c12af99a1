-- ===== src/Master/TestCase/Complete.antt =====
-- The collector of test-case.cpp: a report finds its row, and makes it ready only when every client
-- that is still running has reported for it.
use file_transfer_cmd.Prelude.{
  Bool, Bool-cases, List, [], ap, arith, false, get_elem?, get_or, if◌then◌else◌, inl, inr, length,
  length-set, ltb, refl, set, some, subst, true, ℕ, ◌&&◌, ◌+◌, ◌-◌, ◌<◌, ◌==◌, ◌^◌, ◌∙◌, ◌∷◌, ◌≡◌,
  ◌≤◌, ◌⊎◌,
}
use file_transfer_cmd.Master.{RateCollector, RateInfo, RateQueueElem, extend_queue}
use file_transfer_cmd.Master.Order.{extend_queue-IsOrdered}
use file_transfer_cmd.Master.Rows.{IsOrdered, Rows, Rows-get, Rows-set}
use file_transfer_cmd.Master.TestCase.{
  collect_test_rate, every_ready, fill_test_at, fill_test_row, put_test_report,
}
use file_transfer_cmd.Prelude.Words.{sub32}
use file_transfer_cmd.Stream.Receive.Request.{missing}
use file_transfer_cmd.Stream.Send.{start}

abbrev pub HasReported : {D : Type 0} → (D → Bool) → RateInfo D → Type 0
HasReported negative r = (r.seq_num == 0 && negative r.rate) ≡ false

-- From client `i` on, each has finished or reported.
abbrev pub AllIn : {D : Type 0} → (D → Bool) → ℕ → List Bool → List (RateInfo D) → Type 0
AllIn negative i ended [] = Unit {0}
AllIn negative i ended (r ∷ rs) =
    ((get_or ended i false ≡ true) ⊎ HasReported negative r) × AllIn negative (i + 1) ended rs

-- The row after a report: complete, or as ready as it was.
abbrev pub ReadyWhenIn :
    {D : Type 0} → (D → Bool) → List Bool → RateQueueElem D → RateQueueElem D → Type 0
ReadyWhenIn negative ended before after =
    AllIn negative 0 ended after.rates ⊎ (after.ready ≡ before.ready)

module _ {D : Type 0} (unset : D) (negative : D → Bool) (n : ℕ) where
  every_ready-AllIn :
      (i : ℕ) (ended : List Bool) (rs : List (RateInfo D))
      → every_ready negative i ended rs ≡ true
      → AllIn negative i ended rs
  unfolding every_ready
  every_ready-AllIn i ended [] h = tt
  every_ready-AllIn i ended (r ∷ rs) h = elim (Bool-cases (get_or ended i false)) [
    | inl over ↦ (inl over, every_ready-AllIn (i + 1) ended rs (ground (arith, h, over)))
    | inr runs ↦ elim (Bool-cases (r.seq_num == 0 && negative r.rate)) [
      | inl missing ↦ ground (arith, h, runs, missing)
      | inr there ↦ (inr there, every_ready-AllIn (i + 1) ended rs (ground (arith, h, runs, there)))
    ]
  ]

  fill_test_row-ReadyWhenIn :
      (idx : ℕ) (info : RateInfo D) (ended : List Bool) (e : RateQueueElem D)
      → ReadyWhenIn negative ended e (fill_test_row negative idx info ended e)
  unfolding fill_test_row
  fill_test_row-ReadyWhenIn idx info ended e =
      elim (Bool-cases (every_ready negative 0 ended (set e.rates idx info))) [
        | inl all ↦ inl (every_ready-AllIn 0 ended (set e.rates idx info) all)
        | inr some_out ↦ inr (rw some_out refl)
      ]

  fill_test_row-same :
      (idx : ℕ) (info : RateInfo D) (ended : List Bool) (e : RateQueueElem D)
      → ((fill_test_row negative idx info ended e).seq_num ≡ e.seq_num)
        × (length (fill_test_row negative idx info ended e).rates ≡ length e.rates)
        × ((fill_test_row negative idx info ended e).rates ≡ set e.rates idx info)
  unfolding fill_test_row
  fill_test_row-same idx info ended e = (refl, length-set e.rates idx info, refl)

  -- What a report of client `idx` leads to: the rows are in order, and only row `k` has changed, by
  -- the report; it is ready then if it was, or if it is complete.
  pub record Filled (base idx k : ℕ) (info : RateInfo D) (c c' : RateCollector D) : Type 0 where
    pub ordered : IsOrdered n base c'
    pub before : RateQueueElem D
    pub after : RateQueueElem D
    pub found : get_elem? c.rate_queue k ≡ some before
    pub queue : c'.rate_queue ≡ set c.rate_queue k after
    pub rates : after.rates ≡ set before.rates idx info
    pub ready : ReadyWhenIn negative c.finished_arr before after

  fill_test_at-Filled :
      (idx base k : ℕ) (info : RateInfo D) (c : RateCollector D)
      → IsOrdered n base c
      → k < length c.rate_queue
      → (c' : RateCollector D) × (fill_test_at negative idx info k c ≡ some c')
        × Filled base idx k info c c'
  unfolding fill_test_at
  fill_test_at-Filled idx base k info c o h =
      let (row, z, s, l) = Rows-get n base k c.rate_queue o.rows h in
      let (s', l', same) = fill_test_row-same idx info c.finished_arr row in
      let filled : RateQueueElem D = fill_test_row negative idx info c.finished_arr row in
      let ends : Bool = ltb 0 info.seq_num && negative info.rate in
      let c' : RateCollector D = record c {
        rate_queue = set c.rate_queue k filled;
        finished_count = if ends then c.finished_count + 1 else c.finished_count;
        finished_arr = if ends then set c.finished_arr idx true else c.finished_arr;
      } in
      (
        c',
        rw (z, fill_test_at) refl,
        record {
          ordered = record {
            rows = Rows-set n base k c.rate_queue filled o.rows (s' ∙ s) (l' ∙ l);
            wait = omega (arith, o.wait, length-set c.rate_queue k filled);
            clients = o.clients;
          };
          before = row;
          after = filled;
          found = z;
          queue = refl;
          rates = same;
          ready = fill_test_row-ReadyWhenIn idx info c.finished_arr row;
        },
      )

  put_test_report-Filled :
      (idx base moment : ℕ) (info : RateInfo D) (c : RateCollector D) (q : List (RateQueueElem D))
      → c.rate_queue ≡ q
      → IsOrdered n base c
      → base ≤ moment
      → moment < c.wait_seq_num
      → moment < 2 ^ 31
      → 0 < length c.rate_queue
      → (c' : RateCollector D) × (put_test_report negative idx info moment c q ≡ some c')
        × Filled base idx (moment - base) info c c'
  unfolding put_test_report
  put_test_report-Filled idx base moment info c [] e o lo reach hi some_row =
      absurd (omega (arith, some_row, ap length e))
  put_test_report-Filled idx base moment info c (first ∷ rows) e o lo reach hi some_row =
      let (s, l, rest) = subst (Rows n base) e o.rows in
      let place : sub32 moment first.seq_num ≡ moment - base = omega (arith, s) in
      rw place (fill_test_at-Filled idx base (moment - base) info c o (omega (arith, o.wait)))

-- A report for a moment that is not yet published, counted from the start of its client, finds its
-- row: no access is out of range, the rows, as many as the moment needs, stay those of consecutive
-- moments, each with a place for every client, and only the row of the moment changes, by the
-- report. It becomes ready only if every client has finished or has reported for it.
pub collect_test_rate-Filled :
    {D : Type 0} (unset : D) (negative : D → Bool) (n start idx base : ℕ) (info : RateInfo D)
    (c : RateCollector D)
    → IsOrdered n base c
    → base ≤ info.seq_num + start
    → info.seq_num + start < 2 ^ 31
    → let moment = info.seq_num + start in
      (c' : RateCollector D) × (collect_test_rate unset negative start idx info c ≡ some c')
      × Filled unset negative n base idx
          (moment - base)
          info
          (extend_queue unset (moment + 2) moment c)
          c'
unfolding collect_test_rate
collect_test_rate-Filled unset negative n start idx base info c o lo hi =
    let moment : ℕ = info.seq_num + start in
    let (o₁, reach, some_row) =
      extend_queue-IsOrdered unset negative n (moment + 2) moment base c o (omega arith)
        (omega arith) in
    put_test_report-Filled unset negative n idx base moment info
      (extend_queue unset (moment + 2) moment c)
      (extend_queue unset (moment + 2) moment c).rate_queue refl o₁ lo reach hi some_row
