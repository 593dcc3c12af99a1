-- ===== src/Conf/Saved.antt =====
-- LocalConf: loadConf reads a file that saveConf wrote.
use file_transfer_cmd.Prelude.{
  All, Bool, List, [], ap, arith, false, length, refl, set, some, true, ℕ, ◌++◌, ◌<◌, ◌==◌, ◌^◌,
  ◌∙◌, ◌∷◌, ◌≡◌,
}
use file_transfer_cmd.Conf.{
  LocalConf, Platform, between, codes, is_blank, is_comment_or_empty, load_conf, load_line,
  load_lines, not_negative, read_folder, read_int, read_rate, save_conf, saved_lines, set_value,
  show_int, split_eq, trim, trim_end, trim_start,
}
use file_transfer_cmd.Conf.Numbers.{IsInt, stoi-show_int}
use file_transfer_cmd.Conf.Text.{
  IsPlainText, get_lines-put_lines, one_line, show_int-IsPlainText, trim_end-append,
}
use file_transfer_cmd.Conf.Valid.{IsValid}
use file_transfer_cmd.Prelude.Int.{negsuc, pos, ℤ}

-- What loadConf accepts is an int.
between-IsInt : (lo hi : ℕ) (v : ℤ) → hi < 2 ^ 31 → between lo hi v ≡ true → IsInt v
between-IsInt lo hi (pos n) h e = ground arith
between-IsInt lo hi (negsuc n) h e = ground arith

-- A value in its range is an int of at least 0.
read_int-show_int :
    (in_range : ℤ → Bool) (default v : ℤ)
    → IsInt v
    → in_range v ≡ true
    → read_int in_range default (show_int v) ≡ (false, v)
unfolding read_int
read_int-show_int in_range default v i h = rw (stoi-show_int v i, read_int) (rw h refl)

module _ {D : Type 0} (p : Platform D) where
  -- A line whose key and value are as `split_eq` finds them.
  load_line-setting :
      (line raw key v : List ℕ) (c : LocalConf D)
      → IsPlainText v
      → trim line ≡ line
      → is_comment_or_empty line ≡ false
      → split_eq line ≡ some (raw, b' ' ∷ v)
      → trim raw ≡ key
      → load_line p line c ≡ set_value p key v c
  unfolding load_line trim trim_start is_blank
  load_line-setting line raw key v c t whole text found stripped =
      let value : trim (b' ' ∷ v) ≡ v = ap trim_end t.start ∙ t.end in
      rw (whole, load_line) (rw (text, found, stripped, value) refl)

  -- The line that saveConf writes for a key, `front` being the key with ` = `.
  load_line-saved :
      (front raw key v : List ℕ) (c : LocalConf D)
      → IsPlainText v
      → trim_start (front ++ v) ≡ front ++ v
      → is_comment_or_empty (front ++ v) ≡ false
      → split_eq (front ++ v) ≡ some (raw, b' ' ∷ v)
      → trim raw ≡ key
      → load_line p (front ++ v) c ≡ set_value p key v c
  unfolding trim
  load_line-saved front raw key v c t first text found stripped =
      load_line-setting (front ++ v) raw key v c t (ap trim_end first ∙ trim_end-append front v t)
        text found stripped

  -- The same for an integer.
  load_line-int :
      (front raw key : List ℕ) (in_range : ℤ → Bool) (default : ℤ) (place : ℤ → LocalConf D) (v : ℤ)
      (c : LocalConf D)
      → IsInt v
      → in_range v ≡ true
      → trim_start (front ++ show_int v) ≡ front ++ show_int v
      → is_comment_or_empty (front ++ show_int v) ≡ false
      → split_eq (front ++ show_int v) ≡ some (raw, b' ' ∷ show_int v)
      → trim raw ≡ key
      → set_value p key (show_int v) c
        ≡ (let (e, x) = read_int in_range default (show_int v) in (e, place x))
      → load_line p (front ++ show_int v) c ≡ (false, place v)
  load_line-int front raw key in_range default place v c i h first text found stripped set =
      load_line-saved front raw key (show_int v) c (show_int-IsPlainText v) first text found
        stripped
      ∙ set
      ∙ ap (λ r. (r.0, place r.1)) (read_int-show_int in_range default v i h)

  load_lines-step :
      (line : List ℕ) (lines : List (List ℕ)) (c c' c'' : LocalConf D)
      → load_line p line c ≡ (false, c')
      → load_lines p lines c' ≡ (false, c'')
      → load_lines p (line ∷ lines) c ≡ (false, c'')
  unfolding load_lines
  load_lines-step line lines c c' c'' e h = rw (e, load_lines) (rw h refl)

  gid_line :
      (c : LocalConf D) (v : ℤ)
      → IsInt v
      → not_negative v ≡ true
      → load_line p (codes "RdmaGidIndex = " ++ show_int v) c
        ≡ (false, record c { rdma_gid_index = v })
  unfolding trim trim_start trim_end is_blank is_comment_or_empty split_eq set_value
  gid_line c v i h =
      load_line-int (codes "RdmaGidIndex = ") _ _ not_negative (pos 0)
        (λ x. record c { rdma_gid_index = x }) v c i h refl refl refl refl refl

  port_line :
      (c : LocalConf D) (v : ℤ)
      → between 1 65535 v ≡ true
      → load_line p (codes "ListenPort = " ++ show_int v) c ≡ (false, record c { local_port = v })
  unfolding trim trim_start trim_end is_blank is_comment_or_empty split_eq set_value
  port_line c v h =
      load_line-int (codes "ListenPort = ") _ _ (between 1 65535) (pos 52025)
        (λ x. record c { local_port = x }) v c (between-IsInt 1 65535 v (omega arith) h) h refl refl
        refl refl refl

  threads_line :
      (c : LocalConf D) (v : ℤ)
      → between 1 1024 v ≡ true
      → load_line p (codes "MaxThreadNum = " ++ show_int v) c
        ≡ (false, record c { max_thread_num = v })
  unfolding trim trim_start trim_end is_blank is_comment_or_empty split_eq set_value
  threads_line c v h =
      load_line-int (codes "MaxThreadNum = ") _ _ (between 1 1024) (pos 16)
        (λ x. record c { max_thread_num = x }) v c (between-IsInt 1 1024 v (omega arith) h) h refl
        refl refl refl refl

  size_line :
      (c : LocalConf D) (v : ℤ)
      → between 1 1048576 v ≡ true
      → load_line p (codes "BlockSize = " ++ show_int v) c ≡ (false, record c { block_size = v })
  unfolding trim trim_start trim_end is_blank is_comment_or_empty split_eq set_value
  size_line c v h =
      load_line-int (codes "BlockSize = ") _ _ (between 1 1048576) (pos 1024)
        (λ x. record c { block_size = x }) v c (between-IsInt 1 1048576 v (omega arith) h) h refl
        refl refl refl refl

  blocks_line :
      (c : LocalConf D) (v : ℤ)
      → between 1 65536 v ≡ true
      → load_line p (codes "BlockNum = " ++ show_int v) c ≡ (false, record c { block_num = v })
  unfolding trim trim_start trim_end is_blank is_comment_or_empty split_eq set_value
  blocks_line c v h =
      load_line-int (codes "BlockNum = ") _ _ (between 1 65536) (pos 256)
        (λ x. record c { block_num = x }) v c (between-IsInt 1 65536 v (omega arith) h) h refl refl
        refl refl refl

  read_rate-show_double :
      (r : D)
      → p.stod (p.show_double r) ≡ some r
      → p.doubles.le r (p.doubles.of_nat 0) ≡ false
      → read_rate p (p.show_double r) ≡ (false, r)
  unfolding read_rate
  read_rate-show_double r e h = rw (e, read_rate) (rw h refl)

  rate_line :
      (c : LocalConf D) (r : D)
      → IsPlainText (p.show_double r)
      → p.stod (p.show_double r) ≡ some r
      → p.doubles.le r (p.doubles.of_nat 0) ≡ false
      → load_line p (codes "DefaultRate = " ++ p.show_double r) c
        ≡ (false, record c { default_rate = r })
  unfolding trim trim_start trim_end is_blank is_comment_or_empty split_eq set_value
  rate_line c r t e h =
      load_line-saved (codes "DefaultRate = ") _ (codes "DefaultRate") (p.show_double r) c t refl
        refl refl refl
      ∙ ap (λ x. (x.0, record c { default_rate = x.1 })) (read_rate-show_double r e h)

  read_folder-there :
      (path : List ℕ)
      → IsPlainText path
      → p.dir_exists path ≡ true
      → read_folder p path ≡ (false, path)
  unfolding read_folder
  read_folder-there path t h =
      let text : (length path == 0) ≡ false = ground (arith, t.some_text) in
      rw (text, read_folder) (rw h refl)

  folder_line :
      (c : LocalConf D) (path : List ℕ)
      → IsPlainText path
      → p.dir_exists path ≡ true
      → load_line p (codes "SavedFolderPath = " ++ path) c
        ≡ (false, record c { saved_folder_path = path })
  unfolding trim trim_start trim_end is_blank is_comment_or_empty split_eq set_value
  folder_line c path t h =
      load_line-saved (codes "SavedFolderPath = ") _ (codes "SavedFolderPath") path c t refl refl
        refl refl
      ∙ ap (λ x. (x.0, record c { saved_folder_path = x.1 })) (read_folder-there path t h)

  first_line : (c : LocalConf D) → load_line p (codes "# Configuration File") c ≡ (false, c)
  unfolding load_line trim trim_start trim_end is_blank is_comment_or_empty
  first_line c = refl

  last_lines :
      (c : LocalConf D) → load_lines p (codes "# End of Configuration File" ∷ []) c ≡ (false, c)
  unfolding load_lines load_line trim trim_start trim_end is_blank is_comment_or_empty
  last_lines c = refl

load_lines-saved_lines :
    {D : Type 0} (p : Platform D) (c before : LocalConf D)
    → IsValid p c
    → IsInt c.rdma_gid_index
    → IsPlainText (p.show_double c.default_rate)
    → p.stod (p.show_double c.default_rate) ≡ some c.default_rate
    → IsPlainText c.saved_folder_path
    → p.dir_exists c.saved_folder_path ≡ true
    → load_lines p (saved_lines p c) before ≡ (false, c)
unfolding saved_lines
load_lines-saved_lines p c before v i t e folder there =
    let step = load_lines-step p in
    step _ _ before before c (first_line p before) (
      step _ _ _ _ _ (gid_line p before c.rdma_gid_index i v.gid) (
        step _ _ _ _ _ (port_line p _ c.local_port v.port) (
          step _ _ _ _ _ (threads_line p _ c.max_thread_num v.threads) (
            step _ _ _ _ _ (rate_line p _ c.default_rate t e v.rate) (
              step _ _ _ _ _ (size_line p _ c.block_size v.size) (
                step _ _ _ _ _ (blocks_line p _ c.block_num v.blocks) (
                  step _ _ _ _ _ (folder_line p _ c.saved_folder_path folder there)
                    (last_lines p c))))))))

saved_lines-one_line :
    {D : Type 0} (p : Platform D) (c : LocalConf D)
    → IsPlainText (p.show_double c.default_rate)
    → IsPlainText c.saved_folder_path
    → All (λ l. one_line l ≡ true) (saved_lines p c)
unfolding saved_lines
saved_lines-one_line p c t folder = (
  refl,
  (
    (show_int-IsPlainText c.rdma_gid_index).line,
    (
      (show_int-IsPlainText c.local_port).line,
      (
        (show_int-IsPlainText c.max_thread_num).line,
        (
          t.line,
          (
            (show_int-IsPlainText c.block_size).line,
            ((show_int-IsPlainText c.block_num).line, (folder.line, (refl, tt))),
          ),
        ),
      ),
    ),
  ),
)

-- A configuration whose values are in their ranges comes back whole: loadConf on the text that
-- saveConf wrote reports no error and gives every field its saved value, whatever the fields held
-- before, if the index is an int, std::stod reads the rate back from its text, the text of the rate
-- and the folder's path are not empty, have no blanks at their ends and no newline in them, and the
-- folder is there.
pub load_conf-save_conf :
    {D : Type 0} (p : Platform D) (c before : LocalConf D)
    → IsValid p c
    → IsInt c.rdma_gid_index
    → IsPlainText (p.show_double c.default_rate)
    → p.stod (p.show_double c.default_rate) ≡ some c.default_rate
    → IsPlainText c.saved_folder_path
    → p.dir_exists c.saved_folder_path ≡ true
    → load_conf p (save_conf p c) before ≡ (false, c)
unfolding save_conf load_conf
load_conf-save_conf p c before v i t e folder there =
    ap (λ ls. load_lines p ls before)
      (get_lines-put_lines (saved_lines p c) (saved_lines-one_line p c t folder))
    ∙ load_lines-saved_lines p c before v i t e folder there
