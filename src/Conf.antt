-- ===== src/Conf.antt =====
-- LocalConf (LocalConf.cpp): the parser of local.conf and its values. Text is a list of bytes, the
-- file one text. The parser and printer of doubles, the folder test and the documents folder are
-- parameters. The conversion of the folder's path from and to wxString changes nothing here.
pub mod Numbers
pub mod Valid
pub mod Text
pub mod Saved
mod Tests
mod SavedTests
use file_transfer_cmd.Prelude.{
  Bool, List, Option, [], false, if◌then◌else◌, leb, length, ltb, none, not, some, suc, true, zero,
  ℕ, ◌%◌, ◌&&◌, ◌*◌, ◌++◌, ◌+◌, ◌-◌, ◌/◌, ◌==◌, ◌^◌, ◌||◌, ◌∷◌,
}
use file_transfer_cmd.Doubles.{Doubles}
use file_transfer_cmd.Prelude.Int.{negsuc, pos, ℤ}
use Prim.Native.Char.{code}
use Prim.Native.String.{String}

abbrev pub codes : String → List ℕ
codes String.[] = []
codes (String.◌∷◌ c s) = code c ∷ codes s

abbrev pub eq_bytes : List ℕ → List ℕ → Bool
eq_bytes [] [] = true
eq_bytes [] (y ∷ ys) = false
eq_bytes (x ∷ xs) [] = false
eq_bytes (x ∷ xs) (y ∷ ys) = x == y && eq_bytes xs ys

pub is_blank : ℕ → Bool
is_blank c = c == b' ' || c == b'\t'

-- The two erases of trim.
pub trim_start : List ℕ → List ℕ
trim_start [] = []
trim_start (c ∷ cs) = if is_blank c then trim_start cs else c ∷ cs

pub trim_end : List ℕ → List ℕ
trim_end [] = []
trim_end (c ∷ cs) =
    let rest = trim_end cs in if length rest == 0 && is_blank c then [] else c ∷ rest

pub trim : List ℕ → List ℕ
trim str = trim_end (trim_start str)

unfoldable pub is_comment_or_empty : List ℕ → Bool
is_comment_or_empty [] = true
is_comment_or_empty (c ∷ cs) = c == b'#'

-- std::stoi: white space, a sign, digits; what follows is ignored.
unfoldable pub is_space : ℕ → Bool
is_space c = c == b' ' || (leb 9 c && leb c 13)

unfoldable pub is_digit : ℕ → Bool
is_digit c = leb b'0' c && leb c b'9'

unfoldable pub parse_digits : ℕ → List ℕ → ℕ
parse_digits acc [] = acc
parse_digits acc (c ∷ cs) =
    let more = parse_digits (acc * 10 + (c - b'0')) cs in if is_digit c then more else acc

-- The range of int; the other outcome is std::out_of_range.
unfoldable pub in_int : Bool → ℕ → Option ℤ
in_int true zero = some (pos 0)
in_int true (suc v) = if ltb v (2 ^ 31) then some (negsuc v) else none
in_int false v = if ltb v (2 ^ 31) then some (pos v) else none

unfoldable pub stoi_digits : Bool → List ℕ → Option ℤ
stoi_digits minus [] = none
stoi_digits minus (c ∷ cs) = if is_digit c then in_int minus (parse_digits 0 (c ∷ cs)) else none

pub stoi_signed : List ℕ → Option ℤ
stoi_signed [] = none
stoi_signed (c ∷ cs) =
    if c == b'-'
    then stoi_digits true cs
    else if c == b'+'
    then stoi_digits false cs
    else stoi_digits false (c ∷ cs)

unfoldable pub skip_space : List ℕ → List ℕ
skip_space [] = []
skip_space (c ∷ cs) = if is_space c then skip_space cs else c ∷ cs

pub stoi : List ℕ → Option ℤ
stoi str = stoi_signed (skip_space str)

-- The text before the first `=` and after it; `none` is npos.
pub split_eq : List ℕ → Option (List ℕ × List ℕ)
split_eq [] = none
split_eq (c ∷ cs) =
    if c == b'='
    then some ([], cs)
    else elim (split_eq cs) [ none ↦ none | some (k, v) ↦ some (c ∷ k, v) ]

pub record LocalConf (D : Type 0) : Type 0 where
  pub rdma_gid_index : ℤ
  pub local_port : ℤ
  pub max_thread_num : ℤ
  pub default_rate : D
  pub block_size : ℤ
  pub block_num : ℤ
  pub saved_folder_path : List ℕ

-- What the program takes from elsewhere: std::stod, `<<` of a double, and wxWidgets.
pub record Platform (D : Type 0) : Type 0 where
  pub doubles : Doubles D
  pub stod : List ℕ → Option D
  pub show_double : D → List ℕ
  pub dir_exists : List ℕ → Bool
  pub documents_dir : List ℕ

-- An integer that is read: whether there was an error, and the value. A number that does not parse
-- or is out of range gives the default.
pub read_int : (ℤ → Bool) → ℤ → List ℕ → Bool × ℤ
read_int in_range default value = elim (stoi value) [
  | none ↦ (true, default)
  | some v ↦ if in_range v then (false, v) else (true, default)
]

abbrev pub between : ℕ → ℕ → ℤ → Bool
between lo hi (pos v) = leb lo v && leb v hi
between lo hi (negsuc v) = false

abbrev pub not_negative : ℤ → Bool
not_negative (pos v) = true
not_negative (negsuc v) = false

-- std::getline until the end of the file; a last line needs no newline.
pub cons_line : ℕ → List (List ℕ) → List (List ℕ)
cons_line c [] = (c ∷ []) ∷ []
cons_line c (l ∷ ls) = (c ∷ l) ∷ ls

pub get_lines : List ℕ → List (List ℕ)
get_lines [] = []
get_lines (c ∷ cs) = let rest = get_lines cs in if c == b'\n' then [] ∷ rest else cons_line c rest

module _ {D : Type 0} (p : Platform D) where
  abbrev hundred : D
  hundred = p.doubles.of_nat 100

  pub read_rate : List ℕ → Bool × D
  read_rate value = elim (p.stod value) [
    | none ↦ (true, hundred)
    | some v ↦ if p.doubles.le v (p.doubles.of_nat 0) then (true, hundred) else (false, v)
  ]

  pub read_folder : List ℕ → Bool × List ℕ
  read_folder value =
      if length value == 0 || not (p.dir_exists value)
      then (true, p.documents_dir)
      else (false, value)

  -- One key with its value: whether there was an error, and the configuration.
  pub set_value : List ℕ → List ℕ → LocalConf D → Bool × LocalConf D
  set_value key value c =
      if eq_bytes key (codes "RdmaGidIndex")
      then (let (e, v) = read_int not_negative (pos 0) value in
          (e, record c { rdma_gid_index = v }))
      else if eq_bytes key (codes "ListenPort")
      then (let (e, v) = read_int (between 1 65535) (pos 52025) value in
          (e, record c { local_port = v }))
      else if eq_bytes key (codes "MaxThreadNum")
      then (let (e, v) = read_int (between 1 1024) (pos 16) value in
          (e, record c { max_thread_num = v }))
      else if eq_bytes key (codes "DefaultRate")
      then (let (e, v) = read_rate value in (e, record c { default_rate = v }))
      else if eq_bytes key (codes "BlockSize")
      then (let (e, v) = read_int (between 1 1048576) (pos 1024) value in
          (e, record c { block_size = v }))
      else if eq_bytes key (codes "BlockNum")
      then (let (e, v) = read_int (between 1 65536) (pos 256) value in
          (e, record c { block_num = v }))
      else if eq_bytes key (codes "SavedFolderPath")
      then (let (e, v) = read_folder value in (e, record c { saved_folder_path = v }))
      else (true, c)

  -- One line. Without a `=` the whole line is key and value, since npos + 1 is 0.
  pub load_line : List ℕ → LocalConf D → Bool × LocalConf D
  load_line text c =
      let line = trim text in
      if is_comment_or_empty line then (false, c) else elim (split_eq line) [
        | none ↦ (true, (set_value (trim line) (trim line) c).1)
        | some (key, value) ↦ set_value (trim key) (trim value) c
      ]

  -- The loop over the lines of a file; `true` is the return of -1.
  pub load_lines : List (List ℕ) → LocalConf D → Bool × LocalConf D
  load_lines [] c = (false, c)
  load_lines (line ∷ lines) c =
      let (e, c') = load_line line c in let (e', c'') = load_lines lines c' in (e || e', c'')

  -- loadConf on a file that is there.
  pub load_conf : List ℕ → LocalConf D → Bool × LocalConf D
  load_conf text c = load_lines (get_lines text) c

  -- The constructor, with initNewConf's difference in the first field.
  pub new_conf : LocalConf D
  new_conf = record {
    rdma_gid_index = pos 3;
    local_port = pos 52025;
    max_thread_num = pos 16;
    default_rate = hundred;
    block_size = pos 1024;
    block_num = pos 256;
    saved_folder_path = p.documents_dir;
  }

-- `<<` of an int, on fuel.
pub decimal : ℕ → ℕ → List ℕ
decimal zero n = []
decimal (suc fuel) n =
    let front = decimal fuel (n / 10) in
    if ltb n 10 then (b'0' + n) ∷ [] else front ++ (b'0' + n % 10) ∷ []

pub show_int : ℤ → List ℕ
show_int (pos n) = decimal (n + 1) n
show_int (negsuc n) = b'-' ∷ decimal (n + 2) (n + 1)

-- Lines, each with its newline.
pub put_lines : List (List ℕ) → List ℕ
put_lines [] = []
put_lines (l ∷ ls) = l ++ b'\n' ∷ put_lines ls

-- What saveConf writes, line by line.
pub saved_lines : {D : Type 0} → Platform D → LocalConf D → List (List ℕ)
saved_lines p c =
    codes "# Configuration File"
    ∷ (codes "RdmaGidIndex = " ++ show_int c.rdma_gid_index)
    ∷ (codes "ListenPort = " ++ show_int c.local_port)
    ∷ (codes "MaxThreadNum = " ++ show_int c.max_thread_num)
    ∷ (codes "DefaultRate = " ++ p.show_double c.default_rate)
    ∷ (codes "BlockSize = " ++ show_int c.block_size)
    ∷ (codes "BlockNum = " ++ show_int c.block_num)
    ∷ (codes "SavedFolderPath = " ++ c.saved_folder_path)
    ∷ codes "# End of Configuration File"
    ∷ []

pub save_conf : {D : Type 0} → Platform D → LocalConf D → List ℕ
save_conf p c = put_lines (saved_lines p c)
