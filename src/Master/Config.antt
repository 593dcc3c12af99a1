-- ===== src/Master/Config.antt =====
-- parse_master_config (master.cpp): the clients of master.conf, their sizes and delays. Text is a
-- list of bytes, the file a list of lines; std::stod is a parameter.
pub mod Sizes
use file_transfer_cmd.Prelude.{
  Bool, List, Option, [], false, if◌then◌else◌, length, ltb, none, some, true, ℕ, ◌%◌, ◌&&◌, ◌*◌,
  ◌++◌, ◌-◌, ◌==◌, ◌^◌, ◌||◌, ◌∷◌,
}
use file_transfer_cmd.Conf.{is_comment_or_empty, is_digit, parse_digits, skip_space, stoi_digits}
use file_transfer_cmd.Doubles.{Doubles}
use file_transfer_cmd.Prelude.Int.{ℤ}
use file_transfer_cmd.Stream.Send.Order.{word}
use file_transfer_cmd.Switch.Config.{next_word, strip}
use file_transfer_cmd.Switch.Ring.{delay}

-- `ClientInfo` of the master
pub record ClientInfo (D : Type 0) : Type 0 where
  pub socket_ip : List ℕ
  pub local_ip : List ℕ
  pub server_ip : List ℕ
  pub port_number : ℤ
  pub file_size : ℕ
  pub delay_time : D

-- `refused` is the return of -1, `thrown` an exception of std::stoull or std::stod, which nothing
-- catches. `overflow` is a word that does not fit in its array: no test finds it, `>>` writes past the
-- end, and what the program does from there on is undefined, so that the model goes no further.
pub data Reading (D : Type 0) : Type 0 where
  refused thrown overflow : Reading D
  clients : List (ClientInfo D) → Reading D

-- std::stoull: white space, a sign, digits; a minus wraps.
unfoldable pub wrap_sign : Bool → ℕ → ℕ
wrap_sign true v = (2 ^ 64 - v) % 2 ^ 64
wrap_sign false v = v

unfoldable pub stoull_digits : Bool → List ℕ → Option ℕ
stoull_digits minus [] = none
stoull_digits minus (c ∷ cs) =
    if is_digit c && ltb (parse_digits 0 (c ∷ cs)) (2 ^ 64)
    then some (wrap_sign minus (parse_digits 0 (c ∷ cs)))
    else none

unfoldable pub stoull_signed : List ℕ → Option ℕ
stoull_signed [] = none
stoull_signed (c ∷ cs) =
    if c == b'-'
    then stoull_digits true cs
    else if c == b'+'
    then stoull_digits false cs
    else stoull_digits false (c ∷ cs)

unfoldable pub stoull : List ℕ → Option ℕ
stoull str = stoull_signed (skip_space str)

-- back and pop_back
unfoldable pub unsnoc : List ℕ → Option (List ℕ × ℕ)
unsnoc [] = none
unsnoc (c ∷ cs) = elim (unsnoc cs) [
  | none ↦ some ([], c)
  | some (front, last) ↦ some (c ∷ front, last)
]

unfoldable pub scaled : ℕ → List ℕ → Option ℕ
scaled unit str = elim (stoull str) [ none ↦ none | some v ↦ some (v * unit % 2 ^ 64) ]

-- The number of bytes, with a unit; a product wraps.
unfoldable pub by_unit : List ℕ → List ℕ → ℕ → Option ℕ
by_unit str front last =
    if last == b'G' || last == b'g'
    then scaled (2 ^ 30) front
    else if last == b'M' || last == b'm'
    then scaled (2 ^ 20) front
    else if last == b'K' || last == b'k'
    then scaled (2 ^ 10) front
    else scaled 1 str

unfoldable pub parse_size : List ℕ → Option ℕ
parse_size str = elim (unsnoc str) [ none ↦ none | some (front, last) ↦ by_unit str front last ]

-- `>>` of an int, with the rest of the stream.
unfoldable pub digits_rest : List ℕ → List ℕ
digits_rest [] = []
digits_rest (c ∷ cs) = let rest = digits_rest cs in if is_digit c then rest else c ∷ cs

unfoldable pub int_digits : Bool → List ℕ → Option (ℤ × List ℕ)
int_digits minus str = elim (stoi_digits minus str) [
  | none ↦ none
  | some v ↦ some (v, digits_rest str)
]

unfoldable pub int_signed : List ℕ → Option (ℤ × List ℕ)
int_signed [] = none
int_signed (c ∷ cs) =
    if c == b'-'
    then int_digits true cs
    else if c == b'+'
    then int_digits false cs
    else int_digits false (c ∷ cs)

unfoldable pub next_int : List ℕ → Option (ℤ × List ℕ)
next_int str = int_signed (skip_space str)

-- IP_ADDR_LEN, which is also the length of the arrays for the size and the delay.
abbrev pub ip_addr_len : ℕ
ip_addr_len = 16

-- `>>` of a word into an array of that length, with its final zero. The test of the length is not the
-- program's: it tells the write that stays in the array from the one that does not.
unfoldable pub take_word : {D : Type 0} → List ℕ → (List ℕ → List ℕ → Reading D) → Reading D
take_word line next = elim (next_word line) [
  | none ↦ refused
  | some (word, rest) ↦ if ltb (length word) ip_addr_len then next word rest else overflow
]

module _ {D : Type 0} (d : Doubles D) (stod : List ℕ → Option D) where
  -- A delay in seconds; without the unit it is -1, which is refused.
  unfoldable pub parse_delay : List ℕ → Option D
  parse_delay str = elim (unsnoc str) [
    | none ↦ none
    | some (front, last) ↦
        if last == b's' || last == b'S' then stod front else some (d.sub (d.of_nat 0) (d.of_nat 1))
  ]

  unfoldable pub check_client : ℕ → D → ClientInfo D → Reading D
  check_client size delay c =
      if size == 2 ^ 64 - 1
      then refused
      else if d.lt delay (d.of_nat 0)
      then refused
      else clients (record c { file_size = size; delay_time = delay } ∷ [])

  unfoldable pub fill_client : List ℕ → List ℕ → ClientInfo D → Reading D
  fill_client size_str delay_str c = elim (parse_size size_str) [
    | none ↦ thrown
    | some size ↦ elim (parse_delay delay_str) [
      | none ↦ thrown
      | some delay ↦ check_client size delay c
    ]
  ]

  -- The port, the size and the delay.
  unfoldable pub read_rest : List ℕ → List ℕ → List ℕ → List ℕ → Reading D
  read_rest socket_ip local_ip server_ip r₃ = elim (next_int r₃) [
    | none ↦ refused
    | some (number, r₄) ↦ take_word r₄ (λ size_str r₅. take_word r₅ (λ delay_str r₆.
        fill_client size_str delay_str (record {
          socket_ip = socket_ip;
          local_ip = local_ip;
          server_ip = server_ip;
          port_number = number;
          file_size = 0;
          delay_time = d.of_nat 0;
        })))
  ]

  unfoldable pub client_line : List ℕ → Reading D
  client_line line = take_word line (λ socket_ip r₁.
      take_word r₁
        (λ local_ip r₂. take_word r₂ (λ server_ip r₃. read_rest socket_ip local_ip server_ip r₃)))

  -- A comment or an empty line has no client.
  unfoldable pub master_line : List ℕ → Reading D
  master_line line = if is_comment_or_empty line then clients [] else client_line line

  unfoldable pub parse_master_config : List (List ℕ) → List (ClientInfo D) → Reading D
  parse_master_config [] cs = clients cs
  parse_master_config (line ∷ lines) cs = elim (master_line (strip line)) [
    | refused ↦ refused
    | thrown ↦ thrown
    | overflow ↦ overflow
    | clients new ↦ parse_master_config lines (cs ++ new)
  ]
