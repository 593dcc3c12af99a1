-- ===== src/Master/Factor.antt =====
-- caculator_factor (master.cpp): the fairness and the stability of a transfer, from the rates that
-- were published. A line of rate.log is the list of the rates of the three tasks, `none` for null.
-- Doubles are an interface; std::exp is a parameter, and std::sort is an insertion sort.
pub mod Last
pub mod Window
use file_transfer_cmd.Prelude.{
  List, Option, [], drop, get_elem?, get_or, if◌then◌else◌, leb, length, ltb, none, replicate, some,
  ℕ, ◌++◌, ◌+◌, ◌-◌, ◌/◌, ◌∷◌,
}
use file_transfer_cmd.Doubles.{Doubles}

-- One task: its window, the sum of the window, and the sums over the windows.
pub record Task (D : Type 0) : Type 0 where
  pub rates : List D
  pub sum_rate : D
  pub list_sum : D
  pub list_count : ℕ

pub record Factors (D : Type 0) : Type 0 where
  pub fairness_count : ℕ
  pub fairness_sum : D
  pub tasks : List (Task D)

abbrev pub w_size : ℕ
w_size = 100

-- The sums over one line.
pub record Short (D : Type 0) : Type 0 where
  pub count : ℕ
  pub sum : D
  pub pow_sum : D

module _ {D : Type 0} (d : Doubles D) where
  pub insert_sorted : D → List D → List D
  insert_sorted x [] = x ∷ []
  insert_sorted x (y ∷ ys) =
      let rest = insert_sorted x ys in if d.lt y x then y ∷ rest else x ∷ y ∷ ys

  pub sort : List D → List D
  sort [] = []
  sort (x ∷ xs) = insert_sorted x (sort xs)

  -- The distances of neighbours.
  pub oscillations : List D → List D
  oscillations [] = []
  oscillations (x ∷ []) = []
  oscillations (x ∷ y ∷ ys) = d.fabs (d.sub y x) ∷ oscillations (y ∷ ys)

  -- A rate into the window, which gives up its oldest one when it is over-full.
  pub push_rate : D → Task D → Task D
  push_rate r t =
      let rates = t.rates ++ r ∷ [] in
      let sum = d.add t.sum_rate r in
      if ltb w_size (length rates)
      then record t { rates = drop 1 rates; sum_rate = d.sub sum (get_or rates 0 r) }
      else record t { rates = rates; sum_rate = sum }

  -- std::max
  pub dmax : D → D → D
  dmax a b = if d.lt a b then b else a

  -- `list_osci[(w_size - 1)/2]`; `none` is an access out of range.
  pub stability_of : Task D → Option D
  stability_of t = elim (get_elem? (sort (oscillations t.rates)) ((w_size - 1) / 2)) [
    | none ↦ none
    | some median ↦ some (d.div median (dmax d.epsilon (d.div t.sum_rate (d.of_nat w_size))))
  ]

  -- A full window adds to the sums.
  pub add_window : Task D → Option (Task D)
  add_window t = if ltb (length t.rates) w_size then some t else elim (stability_of t) [
    | none ↦ none
    | some short ↦
        some (record t { list_sum = d.add t.list_sum short; list_count = t.list_count + 1 })
  ]

  -- One task on one line; null and rates that are not positive are passed over.
  pub task_rate : Option D → Task D → Short D → Option (Task D × Short D)
  task_rate none t s = some (t, s)
  task_rate (some r) t s =
      if d.lt (d.of_nat 0) r
      then elim (add_window (push_rate r t)) [
        | none ↦ none
        | some t' ↦ some (
          t',
          record {
            count = s.count + 1;
            sum = d.add s.sum r;
            pow_sum = d.add s.pow_sum (d.mul r r);
          },
        )
      ]
      else some (t, s)

  pub task_rates : List (Option D) → List (Task D) → Short D → Option (List (Task D) × Short D)
  task_rates [] ts s = some (ts, s)
  task_rates (r ∷ rs) [] s = none
  task_rates (r ∷ rs) (t ∷ ts) s = elim (task_rate r t s) [
    | none ↦ none
    | some (t', s') ↦ elim (task_rates rs ts s') [
      | none ↦ none
      | some (ts', s'') ↦ some (t' ∷ ts', s'')
    ]
  ]

  -- A line with two rates or more adds to the fairness.
  pub add_fairness : Short D → Factors D → Factors D
  add_fairness s f =
      if leb 2 s.count
      then record f {
        fairness_count = f.fairness_count + 1;
        fairness_sum =
            d.add f.fairness_sum (d.div (d.mul s.sum s.sum) (d.mul s.pow_sum (d.of_nat s.count)));
      }
      else f

  pub factor_line : List (Option D) → Factors D → Option (Factors D)
  factor_line rs f =
      elim (task_rates rs f.tasks (record { count = 0; sum = d.of_nat 0; pow_sum = d.of_nat 0 })) [
        | none ↦ none
        | some (ts, s) ↦ some (add_fairness s (record f { tasks = ts }))
      ]

  pub factor_lines : List (List (Option D)) → Factors D → Option (Factors D)
  factor_lines [] f = some f
  factor_lines (rs ∷ lines) f = elim (factor_line rs f) [
    | none ↦ none
    | some f' ↦ factor_lines lines f'
  ]

  pub no_task : Task D
  no_task = record { rates = []; sum_rate = d.of_nat 0; list_sum = d.of_nat 0; list_count = 0 }

  pub no_factors : Factors D
  no_factors = record { fairness_count = 0; fairness_sum = d.of_nat 0; tasks = replicate 3 no_task }

  -- The fairness, 0 where nothing was counted: (x - 1/3) / (2/3), not below 0.
  pub fairness_of : Factors D → D
  fairness_of f =
      if ltb 0 f.fairness_count
      then dmax (d.of_nat 0) (
          d.div
            (d.sub (d.div f.fairness_sum (d.of_nat f.fairness_count))
              (d.div (d.of_nat 1) (d.of_nat 3)))
            (d.div (d.of_nat 2) (d.of_nat 3)))
      else d.of_nat 0

  -- `decay x` is std::exp(-1 * x / 0.1); the stability is the mean over the three tasks.
  pub task_stability : (D → D) → Task D → D
  task_stability decay t =
      decay (if ltb 0 t.list_count then d.div t.list_sum (d.of_nat t.list_count) else t.list_sum)

  pub sum_stability : (D → D) → D → List (Task D) → D
  sum_stability decay acc [] = acc
  sum_stability decay acc (t ∷ ts) = sum_stability decay (d.add acc (task_stability decay t)) ts

  pub caculator_factor : (D → D) → List (List (Option D)) → Option (D × D)
  caculator_factor decay lines = elim (factor_lines lines no_factors) [
    | none ↦ none
    | some f ↦ some (fairness_of f, d.div (sum_stability decay (d.of_nat 0) f.tasks) (d.of_nat 3))
  ]
