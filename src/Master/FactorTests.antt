-- ===== src/Master/FactorTests.antt =====
-- The factors and the configuration of the master at concrete inputs.
use file_transfer_cmd.Prelude.{
  List, Option, [], arith, false, none, refl, some, true, ℕ, ◌*◌, ◌++◌, ◌-◌, ◌==◌, ◌^◌, ◌∷◌, ◌≡◌,
}
use file_transfer_cmd.Conf.{
  codes, decimal, in_int, is_comment_or_empty, is_digit, is_space, parse_digits, skip_space,
  stoi_digits,
}
use file_transfer_cmd.Doubles.Naturals.{naturals}
use file_transfer_cmd.Master.{
  RateCollector, RateInfo, RateQueueElem, Report, all_ready, collect_rate, extend_queue, fill_at,
  fill_row, hang_up, leaves, new_collector, new_row, publish, publishes, put_report, rate_of,
  run_collector,
}
use file_transfer_cmd.Master.Config.{
  ClientInfo, by_unit, check_client, client_line, clients, digits_rest, fill_client, int_digits,
  int_signed, master_line, next_int, parse_delay, parse_master_config, parse_size, read_rest,
  scaled, stoull, stoull_digits, stoull_signed, take_word, unsnoc, wrap_sign,
}
use file_transfer_cmd.Master.Config.Sizes.{giga, letter, parse_size-decimal}
use file_transfer_cmd.Master.Factor.{
  Factors, caculator_factor, factor_lines, fairness_of, no_factors, sum_stability,
}
use file_transfer_cmd.Master.Factor.Window.{AllSeen, add_rows, caculator_factor-Seen}
use file_transfer_cmd.Master.Rows.{IsOrdered}
use file_transfer_cmd.Master.Short.{short_transfer_waits}
use file_transfer_cmd.Master.TestCase.{collect_test_rate, every_ready}
use file_transfer_cmd.Master.TestCase.Complete.{Filled, collect_test_rate-Filled}
use file_transfer_cmd.Prelude.Int.{pos}
use file_transfer_cmd.Switch.Config.{is_white, next_word, strip, strip_end, strip_start, word_split}

-- Two tasks send, the third has not started.
abbrev rate_lines : List (List (Option ℕ))
rate_lines =
    (some 5 ∷ none ∷ none ∷ []) ∷ (some 7 ∷ some 0 ∷ none ∷ []) ∷ (some 6 ∷ some 2 ∷ []) ∷ []

caculator_factor-Seen_example :
    (f : Factors ℕ) × (factor_lines naturals rate_lines (no_factors naturals) ≡ some f)
    × (caculator_factor naturals (λ x. x) rate_lines
        ≡ some (
          fairness_of naturals f,
          naturals.div
              (sum_stability naturals (λ x. x) (naturals.of_nat 0) f.tasks)
              (naturals.of_nat 3),
        ))
    × AllSeen naturals (add_rows naturals rate_lines ([] ∷ [] ∷ [] ∷ [])) f.tasks
caculator_factor-Seen_example =
    caculator_factor-Seen naturals (λ x. x) rate_lines
      (omega arith, (omega arith, (omega arith, tt)))

seen : add_rows naturals rate_lines ([] ∷ [] ∷ [] ∷ []) ≡ (5 ∷ 7 ∷ 6 ∷ []) ∷ (2 ∷ []) ∷ [] ∷ []
seen = refl

parse_size-decimal_example : parse_size (decimal 13 12 ++ letter giga false) ≡ some (12 * 2 ^ 30)
parse_size-decimal_example = parse_size-decimal giga false 12 (omega arith) (omega arith)

-- A product that wraps is accepted.
wrapped : parse_size (codes "17179869184G") ≡ some 0
unfolding parse_size unsnoc by_unit scaled stoull stoull_signed stoull_digits wrap_sign skip_space
    is_space is_digit parse_digits
wrapped = refl

-- A delay of one digit, with its unit cut off.
abbrev stod_digit : List ℕ → Option ℕ
stod_digit [] = none
stod_digit (c ∷ cs) = some (c - b'0')

abbrev master_lines : List (List ℕ)
master_lines = codes "# clients" ∷ codes "10.0.0.1 10.0.1.1 10.0.2.1 52025 2M 3s" ∷ []

abbrev one_client : ClientInfo ℕ
one_client = record {
  socket_ip = codes "10.0.0.1";
  local_ip = codes "10.0.1.1";
  server_ip = codes "10.0.2.1";
  port_number = pos 52025;
  file_size = 2097152;
  delay_time = 3;
}

master_lines-run :
    parse_master_config naturals stod_digit master_lines [] ≡ clients (one_client ∷ [])
unfolding parse_master_config master_line client_line read_rest take_word fill_client check_client
    parse_delay parse_size unsnoc by_unit scaled stoull stoull_signed stoull_digits wrap_sign
    skip_space is_space is_digit parse_digits next_int int_signed int_digits digits_rest stoi_digits
    in_int next_word word_split strip strip_start strip_end is_white is_comment_or_empty
master_lines-run = refl

abbrev report : RateInfo ℕ
report = record { seq_num = 2; rate = 7 }

fresh-IsOrdered : IsOrdered {D = ℕ} 2 0 (new_collector 2)
unfolding new_collector
fresh-IsOrdered = record { rows = tt; wait = refl; clients = refl }

collect_test_rate-Filled_example :
    (c' : RateCollector ℕ) × (collect_test_rate 0 (λ r. r == 0) 1 0 report (new_collector 2)
      ≡ some c')
    × Filled 0 (λ r. r == 0) 2 0 0 3 report (extend_queue 0 5 3 (new_collector 2)) c'
collect_test_rate-Filled_example =
    collect_test_rate-Filled 0 (λ r. r == 0) 2 1 0 0 report (new_collector 2) fresh-IsOrdered
      (omega arith) (omega arith)

-- Two clients: a row is complete when both have reported.
half_ready :
    every_ready {D = ℕ}
      (λ r. r == 0)
      0
      (false ∷ false ∷ [])
      (report ∷ record { seq_num = 0; rate = 0 } ∷ [])
    ≡ false
unfolding every_ready
half_ready = refl

-- One client reports its start and its end, and hangs up.
abbrev short_steps : List (Report ℕ)
short_steps =
    rate_of 0 (record { seq_num = 0; rate = 9 })
    ∷ rate_of 0 (record { seq_num = 1; rate = 0 })
    ∷ leaves
    ∷ publishes
    ∷ []

abbrev short_end : RateCollector ℕ
short_end = record {
  rate_queue =
      record { rates = record { seq_num = 1; rate = 0 } ∷ []; ready = true; seq_num = 1 } ∷ [];
  client_num = 1;
  wait_seq_num = 2;
  finished_count = 0;
  finished_arr = false ∷ [];
  finished = false;
}

abbrev first_row : RateQueueElem ℕ
first_row = record { rates = record { seq_num = 0; rate = 9 } ∷ []; ready = true; seq_num = 0 }

short_steps-run :
    run_collector 0 (λ r. r == 0) short_steps (new_collector 1) []
    ≡ some (short_end, first_row ∷ [])
unfolding run_collector collect_rate put_report fill_at fill_row all_ready extend_queue new_row
    new_collector hang_up publish
short_steps-run = refl

short_transfer_waits_example : (short_end.finished ≡ false) × (short_end.finished_count ≡ 0)
short_transfer_waits_example =
    short_transfer_waits 0 (λ r. r == 0) 1 short_steps (omega arith)
      (omega arith, (omega arith, tt)) short_steps-run
