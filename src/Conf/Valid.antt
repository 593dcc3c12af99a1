-- ===== src/Conf/Valid.antt =====
-- LocalConf::loadConf: whatever the file says, the values are in their ranges.
use file_transfer_cmd.Prelude.{
  Bool, Bool-cases, List, Option-cases, [], false, if◌then◌else◌, inl, inr, refl, true, ℕ, ◌∷◌, ◌≡◌,
}
use file_transfer_cmd.Conf.{
  LocalConf, Platform, between, codes, eq_bytes, is_comment_or_empty, load_line, load_lines,
  new_conf, not_negative, read_int, read_rate, set_value, split_eq, stoi, trim,
}
use file_transfer_cmd.Prelude.Int.{pos, ℤ}

pub record IsValid {D : Type 0} (p : Platform D) (c : LocalConf D) : Type 0 where
  pub gid : not_negative c.rdma_gid_index ≡ true
  pub port : between 1 65535 c.local_port ≡ true
  pub threads : between 1 1024 c.max_thread_num ≡ true
  pub rate : p.doubles.le c.default_rate (p.doubles.of_nat 0) ≡ false
  pub size : between 1 1048576 c.block_size ≡ true
  pub blocks : between 1 65536 c.block_num ≡ true

read_int-in_range :
    (in_range : ℤ → Bool) (default : ℤ) (value : List ℕ)
    → in_range default ≡ true
    → in_range (read_int in_range default value).1 ≡ true
unfolding read_int
read_int-in_range in_range default value h = elim (Option-cases (stoi value)) [
  | inl bad_text ↦ rw (bad_text, read_int) h
  | inr (v, e) ↦
      rw (e, read_int)
        (elim (Bool-cases (in_range v)) [ inl fits ↦ rw fits fits | inr too_far ↦ rw too_far h ])
]

module _ {D : Type 0} (p : Platform D)
    (hundred_positive : p.doubles.le (p.doubles.of_nat 100) (p.doubles.of_nat 0) ≡ false) where
  read_rate-positive :
      (value : List ℕ) → p.doubles.le (read_rate p value).1 (p.doubles.of_nat 0) ≡ false
  unfolding read_rate
  read_rate-positive value = elim (Option-cases (p.stod value)) [
    | inl bad_text ↦ rw (bad_text, read_rate) hundred_positive
    | inr (v, e) ↦
        rw (e, read_rate)
          (elim (Bool-cases (p.doubles.le v (p.doubles.of_nat 0))) [
            | inl low ↦ rw low hundred_positive
            | inr fits ↦ rw fits fits
          ])
  ]

  either :
      (b : Bool) (x y : Bool × LocalConf D)
      → IsValid p x.1
      → IsValid p y.1
      → IsValid p (if b then x else y).1
  either true x y h k = h
  either false x y h k = k

  set_value-IsValid :
      (key value : List ℕ) (c : LocalConf D) → IsValid p c → IsValid p (set_value p key value c).1
  unfolding set_value
  set_value-IsValid key value c v =
      let gid = read_int-in_range not_negative (pos 0) value refl in
      let port = read_int-in_range (between 1 65535) (pos 52025) value refl in
      let threads = read_int-in_range (between 1 1024) (pos 16) value refl in
      let size = read_int-in_range (between 1 1048576) (pos 1024) value refl in
      let blocks = read_int-in_range (between 1 65536) (pos 256) value refl in
      let rate = read_rate-positive value in
      either (eq_bytes key (codes "RdmaGidIndex")) _ _
        (record {
          gid = gid;
          port = v.port;
          threads = v.threads;
          rate = v.rate;
          size = v.size;
          blocks = v.blocks;
        })
        (either (eq_bytes key (codes "ListenPort")) _ _
          (record {
            gid = v.gid;
            port = port;
            threads = v.threads;
            rate = v.rate;
            size = v.size;
            blocks = v.blocks;
          })
          (either (eq_bytes key (codes "MaxThreadNum")) _ _
            (record {
              gid = v.gid;
              port = v.port;
              threads = threads;
              rate = v.rate;
              size = v.size;
              blocks = v.blocks;
            })
            (either (eq_bytes key (codes "DefaultRate")) _ _
              (record {
                gid = v.gid;
                port = v.port;
                threads = v.threads;
                rate = rate;
                size = v.size;
                blocks = v.blocks;
              })
              (either (eq_bytes key (codes "BlockSize")) _ _
                (record {
                  gid = v.gid;
                  port = v.port;
                  threads = v.threads;
                  rate = v.rate;
                  size = size;
                  blocks = v.blocks;
                })
                (either (eq_bytes key (codes "BlockNum")) _ _
                  (record {
                    gid = v.gid;
                    port = v.port;
                    threads = v.threads;
                    rate = v.rate;
                    size = v.size;
                    blocks = blocks;
                  })
                  (either (eq_bytes key (codes "SavedFolderPath")) _ _
                    (record {
                      gid = v.gid;
                      port = v.port;
                      threads = v.threads;
                      rate = v.rate;
                      size = v.size;
                      blocks = v.blocks;
                    })
                    v))))))

  load_line-IsValid :
      (text : List ℕ) (c : LocalConf D) → IsValid p c → IsValid p (load_line p text c).1
  unfolding load_line
  load_line-IsValid text c v = elim (Bool-cases (is_comment_or_empty (trim text))) [
    | inl skipped ↦ rw (skipped, load_line) v
    | inr read ↦ elim (Option-cases (split_eq (trim text))) [
      | inl whole ↦
          rw (read, load_line)
            (rw whole (set_value-IsValid (trim (trim text)) (trim (trim text)) c v))
      | inr ((key, value), e) ↦
          rw (read, load_line) (rw e (set_value-IsValid (trim key) (trim value) c v))
    ]
  ]

  load_lines-IsValid :
      (lines : List (List ℕ)) (c : LocalConf D) → IsValid p c → IsValid p (load_lines p lines c).1
  unfolding load_lines
  load_lines-IsValid [] c v = v
  load_lines-IsValid (line ∷ lines) c v =
      load_lines-IsValid lines (load_line p line c).1 (load_line-IsValid line c v)

-- Whatever lines the file has, in any order and however often, the values that loadConf leaves are
-- in their ranges, if the 100 that it falls back to is above 0: no negative index, a port from 1 to
-- 65535, 1 to 1024 threads, a rate that is not 0 or below, 1 to 1048576 kilobytes for a block, and
-- 1 to 65536 blocks.
pub load_conf-IsValid :
    {D : Type 0} (p : Platform D) (lines : List (List ℕ))
    → p.doubles.le (p.doubles.of_nat 100) (p.doubles.of_nat 0) ≡ false
    → IsValid p (load_lines p lines (new_conf p)).1
unfolding new_conf
load_conf-IsValid p lines h =
    load_lines-IsValid p h lines (new_conf p)
      (record { gid = refl; port = refl; threads = refl; rate = h; size = refl; blocks = refl })
