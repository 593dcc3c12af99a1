-- ===== src/Conf/SavedTests.antt =====
-- A configuration that is saved and loaded again. The doubles are numbers, as their text has them.
use file_transfer_cmd.Prelude.{ap, arith, false, refl, some, true, ℕ, ◌≡◌}
use file_transfer_cmd.Conf.{
  LocalConf, Platform, codes, decimal, is_blank, is_digit, load_conf, new_conf, parse_digits,
  save_conf, show_int, trim_end, trim_start,
}
use file_transfer_cmd.Conf.Saved.{load_conf-save_conf}
use file_transfer_cmd.Conf.Text.{IsPlainText, show_int-IsPlainText}
use file_transfer_cmd.Conf.Valid.{IsValid}
use file_transfer_cmd.Doubles.Naturals.{naturals}
use file_transfer_cmd.Prelude.Int.{pos}

abbrev digits_only : Platform ℕ
digits_only = record {
  doubles = naturals;
  stod = λ text. some (parse_digits 0 text);
  show_double = λ x. show_int (pos x);
  dir_exists = λ path. true;
  documents_dir = codes "/home";
}

abbrev settings : LocalConf ℕ
settings = record {
  rdma_gid_index = pos 3;
  local_port = pos 4000;
  max_thread_num = pos 8;
  default_rate = 250;
  block_size = pos 64;
  block_num = pos 32;
  saved_folder_path = codes "/srv/my files";
}

settings-IsValid : IsValid digits_only settings
settings-IsValid = record {
  gid = refl;
  port = refl;
  threads = refl;
  rate = refl;
  size = refl;
  blocks = refl;
}

path-IsPlainText : IsPlainText (codes "/srv/my files")
unfolding trim_start trim_end is_blank
path-IsPlainText = record { start = refl; end = refl; some_text = omega arith; line = refl }

read_back : parse_digits 0 (show_int (pos 250)) ≡ 250
unfolding parse_digits show_int decimal is_digit
read_back = refl

load_conf-save_conf_example :
    load_conf digits_only (save_conf digits_only settings) (new_conf digits_only)
    ≡ (false, settings)
load_conf-save_conf_example =
    load_conf-save_conf digits_only settings (new_conf digits_only) settings-IsValid (omega arith)
      (show_int-IsPlainText (pos 250)) (ap some read_back) path-IsPlainText refl
