-- ===== src/Conf/Tests.antt =====
-- Runs of the configuration parser, and the theorems on them. The doubles are numbers.
use file_transfer_cmd.Prelude.{List, [], none, refl, true, ℕ, ◌∷◌, ◌≡◌}
use file_transfer_cmd.Conf.{
  Platform, codes, in_int, is_blank, is_comment_or_empty, is_digit, is_space, load_line, load_lines,
  new_conf, parse_digits, read_int, set_value, skip_space, split_eq, stoi, stoi_digits, stoi_signed,
  trim, trim_end, trim_start,
}
use file_transfer_cmd.Conf.Valid.{IsValid, load_conf-IsValid}
use file_transfer_cmd.Doubles.Naturals.{naturals}
use file_transfer_cmd.Prelude.Int.{pos}

abbrev plain : Platform ℕ
plain = record {
  doubles = naturals;
  stod = λ text. none;
  show_double = λ x. [];
  dir_exists = λ path. true;
  documents_dir = codes "/home";
}

abbrev conf_lines : List (List ℕ)
conf_lines =
    codes "# Configuration File"
    ∷ codes "  BlockNum = 64 "
    ∷ codes "ListenPort = 70000"
    ∷ codes "MaxThreadNum = -5"
    ∷ codes "no value"
    ∷ []

-- A value in its range is taken; the others fall back, and each is an error.
conf-run : (load_lines plain conf_lines (new_conf plain)).1.block_num ≡ pos 64
unfolding load_lines load_line set_value read_int trim trim_start trim_end is_blank
    is_comment_or_empty split_eq stoi stoi_signed stoi_digits skip_space is_space is_digit
    parse_digits in_int new_conf
conf-run = refl

load_conf-IsValid_example : IsValid plain (load_lines plain conf_lines (new_conf plain)).1
load_conf-IsValid_example = load_conf-IsValid plain conf_lines refl
