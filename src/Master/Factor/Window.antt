-- ===== src/Master/Factor/Window.antt =====
-- caculator_factor: each task's window holds the last hundred of its positive rates, and every
-- median that is looked up is there.
use file_transfer_cmd.Prelude.{
  All, Bool-cases, List, Option, [], ap, arith, drop, if◌then◌else◌, inl, inr, length,
  length-append, length-drop, ltb, ltb→lt, none, refl, some, subst, suc, sym, ◌++◌, ◌+◌, ◌-◌, ◌<◌,
  ◌∙◌, ◌∷◌, ◌≡◌, ◌≤◌,
}
use file_transfer_cmd.Doubles.{Doubles}
use file_transfer_cmd.Master.Factor.{
  Factors, Short, Task, add_fairness, add_window, caculator_factor, dmax, factor_line, factor_lines,
  fairness_of, insert_sorted, no_factors, no_task, oscillations, push_rate, sort, stability_of,
  sum_stability, task_rate, task_rates, w_size,
}
use file_transfer_cmd.Master.Factor.Last.{get_elem?-some, lastn, lastn-snoc_few, lastn-snoc_full}
use mathlib.Core.List.{append-nil}

-- The task has seen the positive rates `ps`: its window, and how many windows were full.
pub record Seen {D : Type 0} (ps : List D) (t : Task D) : Type 0 where
  pub window : t.rates ≡ lastn w_size ps
  pub windows : t.list_count ≡ length ps - (w_size - 1)

module _ {D : Type 0} (d : Doubles D) where
  -- The positive rate of an entry.
  abbrev pub positive : Option D → List D
  positive none = []
  positive (some r) = if d.lt (d.of_nat 0) r then r ∷ [] else []

  length-insert_sorted : (x : D) (xs : List D) → length (insert_sorted d x xs) ≡ suc (length xs)
  unfolding insert_sorted
  length-insert_sorted x [] = refl
  length-insert_sorted x (y ∷ ys) = ground (arith, length-insert_sorted x ys)

  length-sort : (xs : List D) → length (sort d xs) ≡ length xs
  unfolding sort
  length-sort [] = refl
  length-sort (x ∷ xs) = length-insert_sorted x (sort d xs) ∙ ap suc (length-sort xs)

  length-oscillations : (xs : List D) → length (oscillations d xs) ≡ length xs - 1
  unfolding oscillations
  length-oscillations [] = omega arith
  length-oscillations (x ∷ []) = omega arith
  length-oscillations (x ∷ y ∷ ys) = omega (arith, length-oscillations (y ∷ ys))

  push_rate-rates :
      (r : D) (ps : List D) (t : Task D)
      → Seen ps t
      → ((push_rate d r t).rates ≡ lastn w_size (ps ++ r ∷ []))
        × ((push_rate d r t).list_count ≡ t.list_count)
  unfolding push_rate
  push_rate-rates r ps t s =
      let size : length (t.rates ++ r ∷ []) ≡ length ps - (length ps - w_size) + 1 =
        length-append t.rates (r ∷ [])
        ∙ ap (λ j. j + 1) (ap length s.window ∙ length-drop (length ps - w_size) ps) in
      elim (Bool-cases (ltb w_size (length (t.rates ++ r ∷ [])))) [
        | inl over ↦ rw over (
          ap (λ l. drop 1 (l ++ r ∷ [])) s.window
              ∙ lastn-snoc_full w_size ps r
                  (omega (arith, size, ltb→lt w_size (length (t.rates ++ r ∷ [])) over)),
          refl,
        )
        | inr fits ↦ rw fits (
          ap (λ l. l ++ r ∷ []) s.window ∙ lastn-snoc_few w_size ps r (ground (arith, size, fits)),
          refl,
        )
      ]

  -- The median is there when the window is full.
  stability_of-some : (t : Task D) → length t.rates ≡ w_size → (x : D) × (stability_of d t ≡ some x)
  unfolding stability_of
  stability_of-some t h =
      let (median, e) =
        get_elem?-some (sort d (oscillations d t.rates)) 49
          (omega (arith, length-sort (oscillations d t.rates), length-oscillations t.rates)) in
      (
        d.div median (dmax d d.epsilon (d.div t.sum_rate (d.of_nat w_size))),
        rw (e, stability_of) refl,
      )

  add_window-Seen :
      (ps : List D) (t : Task D)
      → t.rates ≡ lastn w_size ps
      → (t.list_count ≡ length ps - w_size)
      → 0 < length ps
      → (t' : Task D) × (add_window d t ≡ some t') × Seen ps t'
  unfolding add_window
  add_window-Seen ps t w c some_rate =
      let size : length t.rates ≡ length ps - (length ps - w_size) =
        ap length w ∙ length-drop (length ps - w_size) ps in
      elim (Bool-cases (ltb (length t.rates) w_size)) [
        | inl short ↦
            let few : length ps < w_size =
              omega (arith, size, ltb→lt (length t.rates) w_size short) in
            (t, rw short refl, record { window = w; windows = c ∙ omega arith })
        | inr full ↦
            let all : length t.rates ≡ w_size = ground (arith, size, full) in
            let (x, e) = stability_of-some t all in
            (
              record t { list_sum = d.add t.list_sum x; list_count = t.list_count + 1 },
              rw (full, e) refl,
              record { window = w; windows = omega (arith, c, size, all) },
            )
      ]

  task_rate-Seen :
      (r : Option D) (ps : List D) (t : Task D) (s : Short D)
      → Seen ps t
      → (t' : Task D) × (s' : Short D) × (task_rate d r t s ≡ some (t', s'))
        × Seen (ps ++ positive r) t'
  unfolding task_rate
  task_rate-Seen none ps t s v = (t, s, refl, rw (append-nil ps) v)
  task_rate-Seen (some r) ps t s v = elim (Bool-cases (d.lt (d.of_nat 0) r)) [
    | inr passed ↦ rw (passed, append-nil ps) (t, s, refl, v)
    | inl up ↦
        let (w, c) = push_rate-rates r ps t v in
        let more : length (ps ++ r ∷ []) ≡ length ps + 1 = length-append ps (r ∷ []) in
        let (t', e, v') =
          add_window-Seen (ps ++ r ∷ []) (push_rate d r t) w (c ∙ v.windows ∙ omega (arith, more))
            (omega (arith, more)) in
        rw up (
          t',
          record {
            count = s.count + 1;
            sum = d.add s.sum r;
            pow_sum = d.add s.pow_sum (d.mul r r);
          },
          rw e refl,
          v',
        )
  ]

  -- What the tasks have seen, one list for each.
  abbrev pub AllSeen : List (List D) → List (Task D) → Type 0
  AllSeen [] [] = Unit {0}
  AllSeen [] (t ∷ ts) = ⊥
  AllSeen (ps ∷ pss) [] = ⊥
  AllSeen (ps ∷ pss) (t ∷ ts) = Seen ps t × AllSeen pss ts

  abbrev pub add_row : List (Option D) → List (List D) → List (List D)
  add_row [] pss = pss
  add_row (r ∷ rs) [] = []
  add_row (r ∷ rs) (ps ∷ pss) = (ps ++ positive r) ∷ add_row rs pss

  -- The positive rates of each task over some lines, after those that are there already.
  abbrev pub add_rows : List (List (Option D)) → List (List D) → List (List D)
  add_rows [] pss = pss
  add_rows (rs ∷ lines) pss = add_rows lines (add_row rs pss)

  task_rates-AllSeen :
      (rs : List (Option D)) (pss : List (List D)) (ts : List (Task D)) (s : Short D)
      → length rs ≤ length pss
      → AllSeen pss ts
      → (ts' : List (Task D)) × (s' : Short D) × (task_rates d rs ts s ≡ some (ts', s'))
        × AllSeen (add_row rs pss) ts'
  unfolding task_rates
  task_rates-AllSeen [] pss ts s h v = (ts, s, refl, v)
  task_rates-AllSeen (r ∷ rs) [] ts s h v = absurd (omega arith)
  task_rates-AllSeen (r ∷ rs) (ps ∷ pss) [] s h v = elim v [ ]
  task_rates-AllSeen (r ∷ rs) (ps ∷ pss) (t ∷ ts) s h (v, vs) =
      let (t', s', e, v') = task_rate-Seen r ps t s v in
      let (ts', s'', es, vs') = task_rates-AllSeen rs pss ts s' (omega arith) vs in
      (t' ∷ ts', s'', rw (e, task_rates) (rw es refl), (v', vs'))

  length-add_row :
      (rs : List (Option D)) (pss : List (List D))
      → length rs ≤ length pss
      → length (add_row rs pss) ≡ length pss
  length-add_row [] pss h = refl
  length-add_row (r ∷ rs) [] h = absurd (omega arith)
  length-add_row (r ∷ rs) (ps ∷ pss) h = ap suc (length-add_row rs pss (omega arith))

  add_fairness-tasks : (s : Short D) (f : Factors D) → (add_fairness d s f).tasks ≡ f.tasks
  unfolding add_fairness
  add_fairness-tasks s f = ground arith

  factor_lines-AllSeen :
      (lines : List (List (Option D))) (pss : List (List D)) (f : Factors D)
      → length pss ≡ 3
      → All (λ rs. length rs ≤ 3) lines
      → AllSeen pss f.tasks
      → (f' : Factors D) × (factor_lines d lines f ≡ some f')
        × AllSeen (add_rows lines pss) f'.tasks
  unfolding factor_lines factor_line
  factor_lines-AllSeen [] pss f three h v = (f, refl, v)
  factor_lines-AllSeen (rs ∷ lines) pss f three (h, hs) v =
      let zeros : Short D = record { count = 0; sum = d.of_nat 0; pow_sum = d.of_nat 0 } in
      let (ts, s, e, v') = task_rates-AllSeen rs pss f.tasks zeros (omega arith) v in
      let f₁ : Factors D = add_fairness d s (record f { tasks = ts }) in
      let (f', e', v'') =
        factor_lines-AllSeen lines (add_row rs pss) f₁ (length-add_row rs pss (omega arith) ∙ three)
          hs
          (subst (AllSeen (add_row rs pss)) (sym (add_fairness-tasks s (record f { tasks = ts })))
            v') in
      (f', rw (e, factor_lines) e', v'')

  -- On lines of at most three rates no median is looked up outside its list, and the factors are
  -- those of tasks whose windows hold their last hundred positive rates, in order, and which have
  -- counted a window for each positive rate from the hundredth on.
  pub caculator_factor-Seen :
      (decay : D → D) (lines : List (List (Option D)))
      → All (λ rs. length rs ≤ 3) lines
      → (f : Factors D) × (factor_lines d lines (no_factors d) ≡ some f)
        × (caculator_factor d decay lines
            ≡ some
                (fairness_of d f, d.div (sum_stability d decay (d.of_nat 0) f.tasks) (d.of_nat 3)))
        × AllSeen (add_rows lines ([] ∷ [] ∷ [] ∷ [])) f.tasks
  unfolding caculator_factor no_factors no_task
  caculator_factor-Seen decay lines h =
      let empty : Seen [] (no_task d) = record { window = refl; windows = refl } in
      let (f, e, v) =
        factor_lines-AllSeen lines ([] ∷ [] ∷ [] ∷ []) (no_factors d) refl h
          (empty, (empty, (empty, tt))) in
      (f, e, rw (e, caculator_factor) refl, v)
