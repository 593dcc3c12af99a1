-- ===== src/Switch/Config/Ports.antt =====
-- parse_switch_config: every route leads to a port, and how many ports there is room for.
use file_transfer_cmd.Prelude.{
  All, Bool, Bool-cases, List, Option, Option-cases, [], arith, inl, inr, length, length-append,
  ltb, ltb→lt, some, subst, ℕ, ◌++◌, ◌+◌, ◌<◌, ◌==◌, ◌∷◌, ◌≡◌, ◌≤◌,
}
use file_transfer_cmd.Conf.{codes, eq_bytes, is_comment_or_empty}
use file_transfer_cmd.Doubles.{Doubles}
use file_transfer_cmd.Switch.{Cache}
use file_transfer_cmd.Switch.Config.{
  Loading, Section, Tables, add_port, add_route, assign, bad_mac, config_line, content_line,
  find_name, in_mac, in_port, in_route, loaded, max_wire_num, new_cache, no_tables, outside,
  overrun, parse_mac_str, parse_switch_config, port_of_line, route_of_line, section_line, strip,
}

-- Every name and every route has a place in switch_cache, which has not overflown.
pub record IsRouted {D : Type 0} (t : Tables D) : Type 0 where
  pub names : All (λ e. e.1 < length t.caches) t.names
  pub routes : All (λ e. e.1 < length t.caches) t.routes
  pub room : length t.caches ≤ max_wire_num

assign-All :
    {A : Type 0} (same : A → A → Bool) (key : A) (place n : ℕ) (es : List (A × ℕ))
    → place < n
    → All (λ e. e.1 < n) es
    → All (λ e. e.1 < n) (assign same key place es)
unfolding assign
assign-All same key place n [] h a = (h, tt)
assign-All same key place n ((k, v) ∷ rest) h (lt, a) = elim (Bool-cases (same k key)) [
  | inl hit ↦ rw hit (h, a)
  | inr miss ↦ rw miss (lt, assign-All same key place n rest h a)
]

All-more :
    {A : Type 0} (n m : ℕ) (es : List (A × ℕ))
    → n ≤ m
    → All (λ e. e.1 < n) es
    → All (λ e. e.1 < m) es
All-more n m [] h a = tt
All-more n m ((k, v) ∷ es) h (lt, a) = (omega arith, All-more n m es h a)

find_name-place :
    (name : List ℕ) (n : ℕ) (es : List (List ℕ × ℕ)) {place : ℕ}
    → All (λ e. e.1 < n) es
    → find_name name es ≡ some place
    → place < n
unfolding find_name
find_name-place name n [] a e = cc
find_name-place name n ((k, v) ∷ es) (lt, a) e = elim (Bool-cases (eq_bytes k name)) [
  | inl hit ↦ ground arith
  | inr miss ↦ find_name-place name n es a (rw miss at e)
]

abbrev Keeps : {D : Type 0} → Loading D → Type 0
Keeps bad_mac = Unit {0}
Keeps overrun = Unit {0}
Keeps (loaded section t) = IsRouted t

module _ {D : Type 0} (d : Doubles D) (read_double : List ℕ → Option D)
    (inet_addr : List ℕ → ℕ) where
  add_port-IsRouted :
      (entry : List ℕ × D) (t : Tables D)
      → IsRouted t
      → Keeps (add_port d read_double inet_addr entry t)
  unfolding add_port
  add_port-IsRouted (name, rate) t v = elim (Bool-cases (ltb (length t.caches) max_wire_num)) [
    | inr full ↦ rw full tt
    | inl some_room ↦
        let c : Cache D = new_cache d read_double inet_addr rate in
        let more : length (t.caches ++ c ∷ []) ≡ length t.caches + 1 =
          length-append t.caches (c ∷ []) in
        rw some_room (record {
          names =
              assign-All eq_bytes name (length t.caches) (length (t.caches ++ c ∷ [])) t.names
                (omega (arith, more))
                (All-more (length t.caches) (length (t.caches ++ c ∷ [])) t.names
                  (omega (arith, more)) v.names);
          routes =
              All-more (length t.caches) (length (t.caches ++ c ∷ [])) t.routes
                (omega (arith, more)) v.routes;
          room = omega (arith, more, ltb→lt (length t.caches) max_wire_num some_room);
        })
  ]

  add_route-IsRouted :
      (entry : List ℕ × List ℕ) (t : Tables D)
      → IsRouted t
      → IsRouted (add_route d read_double inet_addr entry t)
  unfolding add_route
  add_route-IsRouted (ip, name) t v = elim (Option-cases (find_name name t.names)) [
    | inl gone ↦ rw (gone, add_route) v
    | inr (place, e) ↦
        rw (e, add_route)
          (record {
            names = v.names;
            routes =
                assign-All ◌==◌ (inet_addr ip) place (length t.caches) t.routes
                  (find_name-place name (length t.caches) t.names v.names e) v.routes;
            room = v.room;
          })
  ]

  IsRouted-mac : (t : Tables D) (mac : List ℕ) → IsRouted t → IsRouted (record t { if_mac = mac })
  IsRouted-mac t mac v = record { names = v.names; routes = v.routes; room = v.room }

  section_line-Keeps :
      (section : Section) (line : List ℕ) (t : Tables D)
      → IsRouted t
      → Keeps (section_line d read_double inet_addr section line t)
  unfolding section_line
  section_line-Keeps outside line t v = v
  section_line-Keeps in_mac line t v = elim (Option-cases (parse_mac_str line)) [
    | inl gone ↦ rw (gone, section_line) tt
    | inr (mac, e) ↦ rw (e, section_line) (IsRouted-mac t mac v)
  ]
  section_line-Keeps in_port line t v =
      elim (Option-cases (port_of_line d read_double inet_addr line)) [
        | inl gone ↦ rw (gone, section_line) v
        | inr (entry, e) ↦ rw (e, section_line) (add_port-IsRouted entry t v)
      ]
  section_line-Keeps in_route line t v =
      elim (Option-cases (route_of_line d read_double inet_addr line)) [
        | inl gone ↦ rw (gone, section_line) v
        | inr (entry, e) ↦ rw (e, section_line) (add_route-IsRouted entry t v)
      ]

  config_line-Keeps :
      (section : Section) (line : List ℕ) (t : Tables D)
      → IsRouted t
      → Keeps (config_line d read_double inet_addr section line t)
  unfolding config_line content_line
  config_line-Keeps section line t v = elim (Bool-cases (is_comment_or_empty (strip line))) [
    | inl passed ↦ rw passed v
    | inr full ↦ rw full (elim (Bool-cases (eq_bytes (strip line) (codes "[Mac]"))) [
      | inl head ↦ rw head v
      | inr other ↦ rw other (elim (Bool-cases (eq_bytes (strip line) (codes "[Port]"))) [
        | inl second ↦ rw second v
        | inr third ↦ rw third (elim (Bool-cases (eq_bytes (strip line) (codes "[Route]"))) [
          | inl last ↦ rw last v
          | inr content ↦ rw content (section_line-Keeps section (strip line) t v)
        ])
      ])
    ])
  ]

  parse-Keeps :
      (section : Section) (lines : List (List ℕ)) (t : Tables D)
      → IsRouted t
      → Keeps (parse_switch_config d read_double inet_addr section lines t)
  unfolding parse_switch_config
  parse-Keeps section [] t v = v
  parse-Keeps section (line ∷ lines) t v =
      go (config_line d read_double inet_addr section line t) (config_line-Keeps section line t v)
        (λ section' t' v'. parse-Keeps section' lines t' v')
    where
      go :
          (out : Loading D)
          → Keeps out
          → ((section' : Section) (t' : Tables D)
              → IsRouted t'
              → Keeps (parse_switch_config d read_double inet_addr section' lines t'))
          → Keeps (elim out [
            | bad_mac ↦ bad_mac
            | overrun ↦ overrun
            | loaded section' t' ↦ parse_switch_config d read_double inet_addr section' lines t'
          ])
      go bad_mac k rest = tt
      go overrun k rest = tt
      go (loaded section' t') k rest = rest section' t' k

-- Whatever lines the file has: in the tables that are loaded every port name and every route leads
-- to a port, and there are at most as many ports as switch_cache has places.
pub parse_switch_config-IsRouted :
    {D : Type 0} (d : Doubles D) (read_double : List ℕ → Option D) (inet_addr : List ℕ → ℕ)
    (lines : List (List ℕ)) (if_mac : List ℕ) {section : Section} {t : Tables D}
    → parse_switch_config d read_double inet_addr outside lines (no_tables if_mac)
      ≡ loaded section t
    → IsRouted t
parse_switch_config-IsRouted d read_double inet_addr lines if_mac e = subst Keeps e (
    parse-Keeps d read_double inet_addr outside lines (no_tables if_mac)
      (record { names = tt; routes = tt; room = omega arith }))
