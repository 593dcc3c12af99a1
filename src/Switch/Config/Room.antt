-- ===== src/Switch/Config/Room.antt =====
-- parse_switch_config: switch_cache has room for four ports, and a file that asks for more writes
-- past it.
use file_transfer_cmd.Prelude.{
  Bool, Bool-cases, List, Option, Option-cases, [], arith, if◌then◌else◌, inl, inr, length,
  length-append, ltb, ltb→lt, none, refl, some, subst, sym, ℕ, ◌+◌, ◌<◌, ◌||◌, ◌∷◌, ◌≡◌, ◌≤◌,
}
use file_transfer_cmd.Conf.{codes, eq_bytes, is_comment_or_empty}
use file_transfer_cmd.Doubles.{Doubles}
use file_transfer_cmd.Stream.Receive.{count}
use file_transfer_cmd.Switch.{Cache}
use file_transfer_cmd.Switch.Config.{
  Loading, Section, Tables, add_port, add_route, bad_mac, config_line, content_line, find_name,
  in_mac, in_port, in_route, loaded, max_wire_num, new_cache, no_tables, outside, overrun,
  parse_mac_str, parse_switch_config, port_of_line, route_of_line, section_line, strip,
}

-- The section after a line, and whether the line is passed over or the head of a section.
abbrev pub section_after : Section → List ℕ → Section
section_after section line =
    if is_comment_or_empty line
    then section
    else if eq_bytes line (codes "[Mac]")
    then in_mac
    else if eq_bytes line (codes "[Port]")
    then in_port
    else if eq_bytes line (codes "[Route]")
    then in_route
    else section

abbrev pub is_head : List ℕ → Bool
is_head line =
    is_comment_or_empty line
    || (eq_bytes line (codes "[Mac]")
        || (eq_bytes line (codes "[Port]") || eq_bytes line (codes "[Route]")))

abbrev pub one_if_some : {A : Type 0} → Option A → ℕ
one_if_some none = 0
one_if_some (some a) = 1

-- What a file that asks for `k` ports leads to.
abbrev pub Counts : {D : Type 0} → ℕ → Loading D → Type 0
Counts k bad_mac = Unit {0}
Counts k overrun = max_wire_num < k
Counts k (loaded section t) = (length t.caches ≡ k) × (k ≤ max_wire_num)

abbrev LineCounts : {D : Type 0} → Section → ℕ → Loading D → Type 0
LineCounts after k bad_mac = Unit {0}
LineCounts after k overrun = max_wire_num < k
LineCounts after k (loaded section t) =
    (section ≡ after) × (length t.caches ≡ k) × (k ≤ max_wire_num)

module _ {D : Type 0} (d : Doubles D) (read_double : List ℕ → Option D)
    (inet_addr : List ℕ → ℕ) where
  -- The ports that a file asks for.
  abbrev pub asks_port : Section → List ℕ → ℕ
  asks_port in_port line = one_if_some (port_of_line d read_double inet_addr line)
  asks_port other line = 0

  abbrev pub ports_asked : Section → List (List ℕ) → ℕ
  ports_asked section [] = 0
  ports_asked section (line ∷ lines) =
      (if is_head (strip line) then 0 else asks_port section (strip line))
      + ports_asked (section_after section (strip line)) lines

  section_line-Counts :
      (section : Section) (line : List ℕ) (t : Tables D)
      → length t.caches ≤ max_wire_num
      → LineCounts section
          (length t.caches + asks_port section line)
          (section_line d read_double inet_addr section line t)
  unfolding section_line add_port add_route
  section_line-Counts outside line t h = (refl, omega arith, omega arith)
  section_line-Counts in_mac line t h = elim (Option-cases (parse_mac_str line)) [
    | inl gone ↦ rw (gone, section_line) tt
    | inr (mac, e) ↦ rw (e, section_line) (refl, omega arith, omega arith)
  ]
  section_line-Counts in_port line t h =
      elim (Option-cases (port_of_line d read_double inet_addr line)) [
        | inl gone ↦ rw (gone, section_line) (refl, omega arith, omega arith)
        | inr ((name, rate), e) ↦
            rw (e, section_line)
              (elim (Bool-cases (ltb (length t.caches) max_wire_num)) [
                | inr full ↦ rw full (ground arith)
                | inl some_room ↦
                    let c : Cache D = new_cache d read_double inet_addr rate in
                    rw some_room (
                      refl,
                      omega (arith, length-append t.caches (c ∷ [])),
                      omega (arith, ltb→lt (length t.caches) max_wire_num some_room),
                    )
              ])
      ]
  section_line-Counts in_route line t h =
      elim (Option-cases (route_of_line d read_double inet_addr line)) [
        | inl gone ↦ rw (gone, section_line) (refl, omega arith, omega arith)
        | inr ((ip, name), e) ↦
            rw (e, section_line)
              (elim (Option-cases (find_name name t.names)) [
                | inl stranger ↦ rw (stranger, add_route) (refl, omega arith, omega arith)
                | inr (place, found) ↦ rw (found, add_route) (refl, omega arith, omega arith)
              ])
      ]

  config_line-Counts :
      (section : Section) (line : List ℕ) (t : Tables D)
      → length t.caches ≤ max_wire_num
      → LineCounts
          (section_after section (strip line))
          (length t.caches + (if is_head (strip line) then 0 else asks_port section (strip line)))
          (config_line d read_double inet_addr section line t)
  unfolding config_line content_line
  config_line-Counts section line t h = elim (Bool-cases (is_comment_or_empty (strip line))) [
    | inl passed ↦ rw passed (refl, omega arith, omega arith)
    | inr full ↦ rw full (elim (Bool-cases (eq_bytes (strip line) (codes "[Mac]"))) [
      | inl head ↦ rw head (refl, omega arith, omega arith)
      | inr other ↦ rw other (elim (Bool-cases (eq_bytes (strip line) (codes "[Port]"))) [
        | inl second ↦ rw second (refl, omega arith, omega arith)
        | inr third ↦ rw third (elim (Bool-cases (eq_bytes (strip line) (codes "[Route]"))) [
          | inl last ↦ rw last (refl, omega arith, omega arith)
          | inr content ↦ rw content (section_line-Counts section (strip line) t h)
        ])
      ])
    ])
  ]

  after_line :
      (after : Section) (k more : ℕ) (lines : List (List ℕ)) (out : Loading D)
      → ((t : Tables D)
          → length t.caches ≤ max_wire_num
          → Counts
              (length t.caches + more)
              (parse_switch_config d read_double inet_addr after lines t))
      → LineCounts after k out
      → Counts (k + more) (elim out [
        | bad_mac ↦ bad_mac
        | overrun ↦ overrun
        | loaded section' t' ↦ parse_switch_config d read_double inet_addr section' lines t'
      ])
  after_line after k more lines bad_mac rest c = tt
  after_line after k more lines overrun rest c = omega arith
  after_line after k more lines (loaded section t) rest (same, count, room) =
      subst (λ z. Counts (k + more) (parse_switch_config d read_double inet_addr z lines t))
        (sym same)
        (subst (λ z. Counts (z + more) (parse_switch_config d read_double inet_addr after lines t))
          count (rest t (omega arith)))

  parse-Counts :
      (section : Section) (lines : List (List ℕ)) (t : Tables D)
      → length t.caches ≤ max_wire_num
      → Counts
          (length t.caches + ports_asked section lines)
          (parse_switch_config d read_double inet_addr section lines t)
  unfolding parse_switch_config
  parse-Counts section [] t h = (omega arith, omega arith)
  parse-Counts section (line ∷ lines) t h =
      let now : ℕ = if is_head (strip line) then 0 else asks_port section (strip line) in
      let more : ℕ = ports_asked (section_after section (strip line)) lines in
      let sum : length t.caches + now + more ≡ length t.caches + (now + more) = omega arith in
      subst (λ z. Counts z (parse_switch_config d read_double inet_addr section (line ∷ lines) t))
        sum
        (after_line (section_after section (strip line)) (length t.caches + now) more lines
          (config_line d read_double inet_addr section line t)
          (λ t' h'. parse-Counts (section_after section (strip line)) lines t' h')
          (config_line-Counts section line t h))

-- The file is loaded with as many ports as it asks for, if these are at most four; a file that asks
-- for more ends in a write past switch_cache, or before that in the exit for a bad address.
pub parse_switch_config-Counts :
    {D : Type 0} (d : Doubles D) (read_double : List ℕ → Option D) (inet_addr : List ℕ → ℕ)
    (lines : List (List ℕ)) (if_mac : List ℕ)
    → Counts
        (ports_asked d read_double inet_addr outside lines)
        (parse_switch_config d read_double inet_addr outside lines (no_tables if_mac))
parse_switch_config-Counts d read_double inet_addr lines if_mac =
    let asked : ℕ = ports_asked d read_double inet_addr outside lines in
    let none_yet : 0 + asked ≡ asked = omega arith in
    subst
      (λ k. Counts k (parse_switch_config d read_double inet_addr outside lines (no_tables if_mac)))
      none_yet (parse-Counts d read_double inet_addr outside lines (no_tables if_mac) (omega arith))
