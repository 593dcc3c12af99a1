-- ===== src/Switch/Config.antt =====
-- parse_switch_config and parse_mac_str (switch1.cpp): the switch's address, its ports and its
-- routes. Text is a list of bytes, the file a list of lines. inet_addr and the reading of a double
-- from a stream are parameters.
pub mod Ports
pub mod Room
use file_transfer_cmd.Prelude.{
  Bool, List, Option, [], if◌then◌else◌, leb, length, ltb, min, none, some, suc, zero, ℕ, ◌%◌, ◌&&◌,
  ◌*◌, ◌++◌, ◌+◌, ◌-◌, ◌==◌, ◌^◌, ◌||◌, ◌∷◌,
}
use file_transfer_cmd.Conf.{codes, eq_bytes, is_comment_or_empty, is_digit, is_space}
use file_transfer_cmd.Doubles.{Doubles}
use file_transfer_cmd.Switch.{Cache}

pub data Section : Type 0 where
  outside in_mac in_port in_route : Section

-- The global tables: switch_cache with WIRE_NUM entries, port_name_cache and dst_port_cache with
-- places in it.
pub record Tables (D : Type 0) : Type 0 where
  pub caches : List (Cache D)
  pub names : List (List ℕ × ℕ)
  pub routes : List (ℕ × ℕ)
  pub if_mac : List ℕ

-- `bad_mac` is exit(-1); `overrun` is a write past switch_cache.
pub data Loading (D : Type 0) : Type 0 where
  bad_mac overrun : Loading D
  loaded : Section → Tables D → Loading D

abbrev pub max_wire_num : ℕ
max_wire_num = 4

-- The set " \t\r\n" of the two erases.
unfoldable pub is_white : ℕ → Bool
is_white c = c == b' ' || c == b'\t' || c == b'\r' || c == b'\n'

unfoldable pub strip_start : List ℕ → List ℕ
strip_start [] = []
strip_start (c ∷ cs) = let rest = strip_start cs in if is_white c then rest else c ∷ cs

unfoldable pub strip_end : List ℕ → List ℕ
strip_end [] = []
strip_end (c ∷ cs) =
    let rest = strip_end cs in if length rest == 0 && is_white c then [] else c ∷ rest

unfoldable pub strip : List ℕ → List ℕ
strip line = strip_end (strip_start line)

-- `>>` of a string: the word and the rest of the stream; `none` is a failed stream.
unfoldable pub word_split : List ℕ → List ℕ × List ℕ
word_split [] = ([], [])
word_split (c ∷ cs) =
    let (w, rest) = word_split cs in if is_space c then ([], c ∷ cs) else (c ∷ w, rest)

unfoldable pub next_word : List ℕ → Option (List ℕ × List ℕ)
next_word [] = none
next_word (c ∷ cs) =
    let more = next_word cs in if is_space c then more else some (word_split (c ∷ cs))

-- isxdigit, and the value of such a digit.
unfoldable pub is_hex : ℕ → Bool
is_hex c = is_digit c || (leb b'a' c && leb c b'f') || (leb b'A' c && leb c b'F')

unfoldable pub hex_value : ℕ → ℕ
hex_value c = if is_digit c then c - b'0' else if leb b'a' c then c - b'a' + 10 else c - b'A' + 10

-- strtol in base 16 from a digit on: an optional prefix 0x, the digits, and what is left; the
-- value stops at the largest long.
unfoldable pub hex_digits : ℕ → List ℕ → ℕ × List ℕ
hex_digits acc [] = (acc, [])
hex_digits acc (c ∷ cs) =
    let more = hex_digits (acc * 16 + hex_value c) cs in if is_hex c then more else (acc, c ∷ cs)

unfoldable pub skip_prefix : List ℕ → List ℕ
skip_prefix (zero_digit ∷ x ∷ c ∷ cs) =
    if zero_digit == b'0' && (x == b'x' || x == b'X') && is_hex c
    then c ∷ cs
    else zero_digit ∷ x ∷ c ∷ cs
skip_prefix short = short

unfoldable pub strtol_hex : List ℕ → ℕ × List ℕ
strtol_hex str = let (v, rest) = hex_digits 0 (skip_prefix str) in (min v (2 ^ 63 - 1), rest)

unfoldable pub skip_to_hex : List ℕ → List ℕ
skip_to_hex [] = []
skip_to_hex (c ∷ cs) = let rest = skip_to_hex cs in if is_hex c then c ∷ cs else rest

-- `n` numbers, each taken as a byte; `none` is the return of -1.
unfoldable pub mac_bytes : ℕ → List ℕ → Option (List ℕ)
mac_bytes zero str = some []
mac_bytes (suc n) str = elim (skip_to_hex str) [
  | [] ↦ none
  | c ∷ cs ↦
      let (v, rest) = strtol_hex (c ∷ cs) in
      elim (mac_bytes n rest) [ none ↦ none | some bs ↦ some ((v % 2 ^ 8) ∷ bs) ]
]

unfoldable pub parse_mac_str : List ℕ → Option (List ℕ)
parse_mac_str str = mac_bytes 6 str

-- `port_name_cache[name] = place` and its find; the same for dst_port_cache.
unfoldable pub assign : {A : Type 0} → (A → A → Bool) → A → ℕ → List (A × ℕ) → List (A × ℕ)
assign same key place [] = (key, place) ∷ []
assign same key place ((k, v) ∷ rest) =
    if same k key then (k, place) ∷ rest else (k, v) ∷ assign same key place rest

unfoldable pub find_name : List ℕ → List (List ℕ × ℕ) → Option ℕ
find_name name [] = none
find_name name ((k, v) ∷ rest) = if eq_bytes k name then some v else find_name name rest

-- `read_double` is `>>` of a double, on what is left of the line.
module _ {D : Type 0} (d : Doubles D) (read_double : List ℕ → Option D)
    (inet_addr : List ℕ → ℕ) where
  unfoldable pub new_cache : D → Cache D
  new_cache line_rate = record {
    line_rate = line_rate;
    o_l = d.of_nat 0;
    g_l = line_rate;
    n_l = 0;
    u_l = d.of_nat 0;
    y_l = d.of_nat 0;
    n_iter = 0;
  }

  -- A name and a rate; `none` is a line that is passed over.
  unfoldable pub port_of_line : List ℕ → Option (List ℕ × D)
  port_of_line line = elim (next_word line) [
    | none ↦ none
    | some (name, rest) ↦ elim (read_double rest) [ none ↦ none | some rate ↦ some (name, rate) ]
  ]

  unfoldable pub add_port : List ℕ × D → Tables D → Loading D
  add_port (name, rate) t =
      if ltb (length t.caches) max_wire_num
      then loaded in_port (record t {
        caches = t.caches ++ new_cache rate ∷ [];
        names = assign eq_bytes name (length t.caches) t.names;
      })
      else overrun

  unfoldable pub route_of_line : List ℕ → Option (List ℕ × List ℕ)
  route_of_line line = elim (next_word line) [
    | none ↦ none
    | some (ip, rest) ↦ elim (next_word rest) [ none ↦ none | some (name, left) ↦ some (ip, name) ]
  ]

  -- A route to a port that is not known is passed over.
  unfoldable pub add_route : List ℕ × List ℕ → Tables D → Tables D
  add_route (ip, name) t = elim (find_name name t.names) [
    | none ↦ t
    | some place ↦ record t { routes = assign ◌==◌ (inet_addr ip) place t.routes }
  ]

  unfoldable pub section_line : Section → List ℕ → Tables D → Loading D
  section_line outside line t = loaded outside t
  section_line in_mac line t = elim (parse_mac_str line) [
    | none ↦ bad_mac
    | some mac ↦ loaded in_mac (record t { if_mac = mac })
  ]
  section_line in_port line t = elim (port_of_line line) [
    | none ↦ loaded in_port t
    | some entry ↦ add_port entry t
  ]
  section_line in_route line t = elim (route_of_line line) [
    | none ↦ loaded in_route t
    | some entry ↦ loaded in_route (add_route entry t)
  ]

  -- A line without its outer white space: a comment, the head of a section, or its content.
  unfoldable pub content_line : Section → List ℕ → Tables D → Loading D
  content_line section line t =
      if eq_bytes line (codes "[Mac]")
      then loaded in_mac t
      else if eq_bytes line (codes "[Port]")
      then loaded in_port t
      else if eq_bytes line (codes "[Route]")
      then loaded in_route t
      else section_line section line t

  unfoldable pub config_line : Section → List ℕ → Tables D → Loading D
  config_line section line t =
      if is_comment_or_empty (strip line)
      then loaded section t
      else content_line section (strip line) t

  unfoldable pub parse_switch_config : Section → List (List ℕ) → Tables D → Loading D
  parse_switch_config section [] t = loaded section t
  parse_switch_config section (line ∷ lines) t = elim (config_line section line t) [
    | bad_mac ↦ bad_mac
    | overrun ↦ overrun
    | loaded section' t' ↦ parse_switch_config section' lines t'
  ]

-- The tables before the file is read.
abbrev pub no_tables : {D : Type 0} → List ℕ → Tables D
no_tables if_mac = record { caches = []; names = []; routes = []; if_mac = if_mac }
