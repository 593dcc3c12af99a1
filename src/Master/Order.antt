-- ===== src/Master/Order.antt =====
-- RateCollector: the rows are those of consecutive moments, and they are published in order.
use file_transfer_cmd.Prelude.{
  Bool, Bool-cases, List, [], ap, arith, if◌then◌else◌, inl, inr, leb, length, length-append,
  length-replicate, length-set, ltb, none, refl, set, some, subst, suc, sym, true, zero, ℕ, ◌&&◌,
  ◌*◌, ◌++◌, ◌+◌, ◌<◌, ◌==◌, ◌^◌, ◌||◌, ◌∙◌, ◌∷◌, ◌≡◌, ◌≤◌,
}
use file_transfer_cmd.Master.{
  RateCollector, RateInfo, RateQueueElem, Report, collect_rate, extend_queue, fill_at, fill_row,
  hang_up, leaves, new_collector, new_row, publish, publishes, put_report, rate_of, row_list,
  run_collector,
}
use file_transfer_cmd.Master.Rows.{IsOrdered, Rows, Rows-append, Rows-get, Rows-set}
use file_transfer_cmd.Prelude.Words.{sub32}

module _ {D : Type 0} (unset : D) (negative : D → Bool) (n : ℕ) where
  new_row-rates : (m seq : ℕ) → length (new_row unset m seq).rates ≡ m
  unfolding new_row
  new_row-rates m seq = length-replicate m (record { seq_num = 0; rate = unset })

  new_row-seq : (m seq : ℕ) → (new_row unset m seq).seq_num ≡ seq
  unfolding new_row
  new_row-seq m seq = refl

  -- With enough fuel the queue reaches beyond the moment and is not empty.
  pub extend_queue-IsOrdered :
      (fuel moment base : ℕ) (c : RateCollector D)
      → IsOrdered n base c
      → moment + 1 < fuel + c.wait_seq_num
      → 0 < fuel + length c.rate_queue
      → let c' = extend_queue unset fuel moment c in
        IsOrdered n base c' × (moment < c'.wait_seq_num) × (0 < length c'.rate_queue)
  unfolding extend_queue
  extend_queue-IsOrdered zero moment base c o h some_row = (o, omega arith, omega arith)
  extend_queue-IsOrdered (suc fuel) moment base c o h some_row =
      let row : RateQueueElem D = new_row unset c.client_num c.wait_seq_num in
      let c₁ : RateCollector D = record c {
        rate_queue = c.rate_queue ++ row ∷ [];
        wait_seq_num = c.wait_seq_num + 1;
      } in
      let more : length (c.rate_queue ++ row ∷ []) ≡ length c.rate_queue + 1 =
        length-append c.rate_queue (row ∷ []) in
      elim (Bool-cases (length c.rate_queue == 0 || leb c.wait_seq_num moment)) [
        | inl go ↦ rw go (
            extend_queue-IsOrdered fuel moment base c₁
              (record {
                rows =
                    Rows-append n base c.rate_queue row o.rows
                      (new_row-seq c.client_num c.wait_seq_num ∙ o.wait)
                      (new_row-rates c.client_num c.wait_seq_num ∙ o.clients);
                wait = omega (arith, o.wait, more);
                clients = o.clients;
              })
              (omega arith) (omega (arith, more)))
        | inr stop ↦ rw stop (o, ground arith, ground arith)
      ]

  fill_row-same :
      (idx : ℕ) (info : RateInfo D) (ended : List Bool) (e : RateQueueElem D)
      → ((fill_row negative idx info ended e).seq_num ≡ e.seq_num)
        × (length (fill_row negative idx info ended e).rates ≡ length e.rates)
  unfolding fill_row
  fill_row-same idx info ended e = (refl, length-set e.rates idx info)

  fill_at-IsOrdered :
      (idx base moment k : ℕ) (info : RateInfo D) (c : RateCollector D)
      → IsOrdered n base c
      → k < length c.rate_queue
      → (c' : RateCollector D) × (fill_at negative idx info moment k c ≡ some c')
        × IsOrdered n base c'
  unfolding fill_at
  fill_at-IsOrdered idx base moment k info c o h =
      let (row, z, s, l) = Rows-get n base k c.rate_queue o.rows h in
      let (s', l') = fill_row-same idx info c.finished_arr row in
      let filled : RateQueueElem D = fill_row negative idx info c.finished_arr row in
      let ends : Bool = ltb (idx * 100 + 5) moment && negative info.rate in
      let c' : RateCollector D = record c {
        rate_queue = set c.rate_queue k filled;
        finished_count = if ends then c.finished_count + 1 else c.finished_count;
        finished_arr = if ends then set c.finished_arr idx true else c.finished_arr;
      } in
      (
        c',
        rw (z, fill_at) refl,
        record {
          rows = Rows-set n base k c.rate_queue filled o.rows (s' ∙ s) (l' ∙ l);
          wait = omega (arith, o.wait, length-set c.rate_queue k filled);
          clients = o.clients;
        },
      )

  put_report-IsOrdered :
      (idx base moment : ℕ) (info : RateInfo D) (c : RateCollector D) (q : List (RateQueueElem D))
      → c.rate_queue ≡ q
      → IsOrdered n base c
      → base ≤ moment
      → moment < c.wait_seq_num
      → moment < 2 ^ 31
      → 0 < length c.rate_queue
      → (c' : RateCollector D) × (put_report negative idx info moment c q ≡ some c')
        × IsOrdered n base c'
  unfolding put_report
  put_report-IsOrdered idx base moment info c [] e o lo reach hi some_row =
      absurd (omega (arith, some_row, ap length e))
  put_report-IsOrdered idx base moment info c (first ∷ rows) e o lo reach hi some_row =
      let (s, l, rest) = subst (Rows n base) e o.rows in
      fill_at-IsOrdered idx base moment (sub32 moment first.seq_num) info c o
        (omega (arith, o.wait, s))

  -- A report for a moment that is not yet published finds its row: no access is out of range, and
  -- the rows stay those of consecutive moments, each with a place for every client.
  pub collect_rate-IsOrdered :
      (idx base : ℕ) (info : RateInfo D) (c : RateCollector D)
      → IsOrdered n base c
      → base ≤ info.seq_num + idx * 100
      → info.seq_num + idx * 100 < 2 ^ 31
      → (c' : RateCollector D) × (collect_rate unset negative idx info c ≡ some c')
        × IsOrdered n base c'
  unfolding collect_rate
  collect_rate-IsOrdered idx base info c o lo hi =
      let moment : ℕ = info.seq_num + idx * 100 in
      let c₁ : RateCollector D = extend_queue unset (moment + 2) moment c in
      let (o₁, reach, some_row) =
        extend_queue-IsOrdered (moment + 2) moment base c o (omega arith) (omega arith) in
      put_report-IsOrdered idx base moment info c₁ c₁.rate_queue refl o₁ lo reach hi some_row

  publish-IsOrdered :
      (base : ℕ) (c : RateCollector D) (q : List (RateQueueElem D))
      → c.rate_queue ≡ q
      → IsOrdered n base c
      → IsOrdered n (base + length (row_list (publish c).1)) (publish c).0
        × Rows n base (row_list (publish c).1)
  unfolding publish
  publish-IsOrdered base c [] e o =
      rw (e, publish) (subst (λ k. IsOrdered n k c) (omega arith) o, tt)
  publish-IsOrdered base c (row ∷ rows) e o =
      let (s, l, rest) = subst (Rows n base) e o.rows in
      rw (e, publish)
        (elim (Bool-cases (c.finished || row.ready)) [
          | inl go ↦ rw go (
            record { rows = rest; wait = omega (arith, o.wait, ap length e); clients = o.clients },
            (s, l, tt),
          )
          | inr stay ↦ rw stay (subst (λ k. IsOrdered n k c) (omega arith) o, tt)
        ])

  -- Every report is for a moment that has not yet been published.
  abbrev pub Timely : ℕ → List (Report D) → RateCollector D → Type 0
  Timely base [] c = Unit {0}
  Timely base (rate_of idx info ∷ es) c =
      (base ≤ info.seq_num + idx * 100)
      × (info.seq_num + idx * 100 < 2 ^ 31)
      × (elim (collect_rate unset negative idx info c) [
        | none ↦ Unit {0}
        | some c' ↦ Timely base es c'
      ])
  Timely base (leaves ∷ es) c = Timely base es (hang_up c)
  Timely base (publishes ∷ es) c = Timely (base + length (row_list (publish c).1)) es (publish c).0

  hang_up-IsOrdered :
      (base : ℕ) (c : RateCollector D) → IsOrdered n base c → IsOrdered n base (hang_up c)
  unfolding hang_up
  hang_up-IsOrdered base c o = elim (Bool-cases (c.finished_count == c.client_num)) [
    | inl all ↦ simp all (record { rows = o.rows; wait = o.wait; clients = o.clients })
    | inr some_left ↦ simp some_left o
  ]

  Rows-join :
      (k : ℕ) (p q : List (RateQueueElem D))
      → Rows n k p
      → Rows n (k + length p) q
      → Rows n k (p ++ q)
  Rows-join k [] q a b = subst (λ j. Rows n j q) (omega arith) b
  Rows-join k (x ∷ p) q (s, l, a) b =
      (s, l, Rows-join (k + 1) p q a (subst (λ j. Rows n j q) (omega arith) b))

  run_from_state :
      (es : List (Report D)) (c : RateCollector D) (log : List (RateQueueElem D))
      → IsOrdered n (length log) c
      → Rows n 0 log
      → Timely (length log) es c
      → (c' : RateCollector D) × (log' : List (RateQueueElem D)) × (run_collector unset negative es
            c log
          ≡ some (c', log'))
        × IsOrdered n (length log') c'
        × Rows n 0 log'
  unfolding run_collector
  run_from_state [] c log o r t = (c, log, refl, o, r)
  run_from_state (rate_of idx info ∷ es) c log o r (lo, hi, t) =
      let (c', e, o') = collect_rate-IsOrdered idx (length log) info c o lo hi in
      let (c'', log', z, o'', r') = run_from_state es c' log o' r (simp e at t) in
      (c'', log', rw (e, run_collector) z, o'', r')
  run_from_state (leaves ∷ es) c log o r t =
      run_from_state es (hang_up c) log (hang_up-IsOrdered (length log) c o) r t
  run_from_state (publishes ∷ es) c log o r t =
      let (o', rows) = publish-IsOrdered (length log) c c.rate_queue refl o in
      let row : List (RateQueueElem D) = row_list (publish c).1 in
      let size : length log + length row ≡ length (log ++ row) = sym (length-append log row) in
      run_from_state es (publish c).0 (log ++ row)
        (subst (λ k. IsOrdered n k (publish c).0) size o')
        (Rows-join 0 log row r (subst (λ k. Rows n k row) (omega arith) rows))
        (subst (λ k. Timely k es (publish c).0) size t)

-- In a transfer of `n` clients, however their reports, their ends and the publications follow on
-- each other, if no report is for a moment that is already published: no access is out of range, and
-- the rows published are those of the moments 0, 1, 2, …, each with a place for every client.
pub published_in_order :
    {D : Type 0} (unset : D) (negative : D → Bool) (n : ℕ) (es : List (Report D))
    → Timely unset negative n 0 es (new_collector n)
    → (c : RateCollector D) × (log : List (RateQueueElem D)) × (run_collector unset negative es
          (new_collector n)
          []
        ≡ some (c, log))
      × IsOrdered n (length log) c
      × Rows n 0 log
unfolding new_collector
published_in_order unset negative n es t =
    run_from_state unset negative n es (new_collector n) []
      (record { rows = tt; wait = refl; clients = refl }) tt t
