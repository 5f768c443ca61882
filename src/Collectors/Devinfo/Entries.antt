-- ===== src/Collectors/Devinfo/Entries.antt =====
-- The lines that `ibv_devinfo` prints, and that the loop of `parseIbvDevinfo` reads a key and a value from each.
use rewsr_maxfields.Base.{
  ℕ, zero, suc, ◌≡◌, ◌∙◌, refl, ap, true, false, Bool, ◌||◌, ◌==◌, arith, str, inl, inr, Bool-cases,
  if◌then◌else◌, List, [], ◌∷◌, ◌++◌, Str, nat_eq, str_eq, All,
}
use rewsr_maxfields.Text.Cut.{cut, cut-append}
use rewsr_maxfields.Text.Space.{is_space, trim_space}
use rewsr_maxfields.Text.Space.Trimmed.{trim_space-cons}
use rewsr_maxfields.Text.Split.{split, split-append, Lacks}
use rewsr_maxfields.Collectors.Devinfo.{Devinfo, devinfo_entry, devinfo_line, devinfo_lines}

-- A line with a key and a value: how far it is indented, the key, the tabs behind the colon and the value.
pub record Entry : Type 0 where
  pub indent : ℕ
  pub key : Str
  pub gap : ℕ
  pub value : Str

-- A line is an entry, or a text without a colon, an empty one for example.
pub data Line : Type 0 where
  entry : Entry → Line
  text : Str → Line

abbrev tabs : ℕ → Str → Str
tabs zero rest = rest
tabs (suc n) rest = b'\t' ∷ tabs n rest

abbrev print_entry : Entry → Str
print_entry e = tabs e.indent e.key ++ b':' ∷ tabs e.gap e.value

abbrev print_line : Line → Str
print_line (entry e) = print_entry e
print_line (text s) = s

abbrev pub print_lines : List Line → Str
print_lines [] = []
print_lines (l ∷ ls) = print_line l ++ b'\n' ∷ print_lines ls

-- A key without a colon, key and value trimmed, and both in one line.
pub record IsEntry (e : Entry) : Type 0 where
  pub key_lacks : Lacks b':' (tabs e.indent e.key)
  pub key_trimmed : trim_space (tabs e.indent e.key) ≡ e.key
  pub value_trimmed : trim_space e.value ≡ e.value
  pub one_line : Lacks b'\n' (print_entry e)

abbrev pub IsLine : Line → Type 0
IsLine (entry e) = IsEntry e
IsLine (text s) = Lacks b':' s × Lacks b'\n' s

-- The keys that the parser knows.
abbrev is_known : Str → Bool
is_known key =
    key == str "hca_id"
    || key == str "transport"
    || key == str "fw_ver"
    || key == str "port"
    || key == str "state"
    || key == str "link_layer"

-- The keys and values of the known entries, in order.
abbrev pub known_pairs : List Line → List (Str × Str)
known_pairs [] = []
known_pairs (text s ∷ ls) = known_pairs ls
known_pairs (entry e ∷ ls) =
    let rest = known_pairs ls in if is_known e.key then (e.key, e.value) ∷ rest else rest

tab_is_space : is_space b'\t' ≡ true
unfolding is_space
tab_is_space = refl

trim_space-tabs : (n : ℕ) (s : Str) → trim_space (tabs n s) ≡ trim_space s
trim_space-tabs zero s = refl
trim_space-tabs (suc n) s = trim_space-cons b'\t' (tabs n s) tab_is_space ∙ trim_space-tabs n s

devinfo_line_lem :
    (e : Entry) (d : Devinfo)
    → IsEntry e
    → devinfo_line (print_entry e) d ≡ devinfo_entry e.key e.value d
unfolding devinfo_line
devinfo_line_lem e d h =
    rw
      (
        cut-append b':' (tabs e.indent e.key) (tabs e.gap e.value) h.key_lacks,
        h.key_trimmed,
        trim_space-tabs e.gap e.value,
        h.value_trimmed,
      )
      refl

cut_lacking : (sep : ℕ) (w : Str) → Lacks sep w → cut sep w ≡ (w, [], false)
unfolding cut
cut_lacking sep [] h = refl
cut_lacking sep (c ∷ w) (hc, hw) = ground (arith, cut_lacking sep w hw)

devinfo_line_text : (s : Str) (d : Devinfo) → Lacks b':' s → devinfo_line s d ≡ d
unfolding devinfo_line
devinfo_line_text s d h = rw (cut_lacking b':' s h) refl

-- An entry with another key changes nothing.
devinfo_entry_other :
    (key value : Str) (d : Devinfo) → is_known key ≡ false → devinfo_entry key value d ≡ d
unfolding devinfo_entry
devinfo_entry_other key value d h = ground (arith, h)

unfoldable pub run_pairs : List (Str × Str) → Devinfo → Devinfo
run_pairs [] d = d
run_pairs ((key, value) ∷ ps) d = run_pairs ps (devinfo_entry key value d)

last_line : (d : Devinfo) → devinfo_lines (split b'\n' []) d ≡ d
unfolding devinfo_lines devinfo_line split cut
last_line d = refl

one_line_lem : (l : Line) → IsLine l → Lacks b'\n' (print_line l)
one_line_lem (entry e) h = h.one_line
one_line_lem (text s) (_, h) = h

known_one :
    (l : Line) (ls : List Line) (d : Devinfo)
    → IsLine l
    → run_pairs (known_pairs ls) (devinfo_line (print_line l) d)
      ≡ run_pairs (known_pairs (l ∷ ls)) d
known_one (text s) ls d (h, _) = ap (run_pairs (known_pairs ls)) (devinfo_line_text s d h)
known_one (entry e) ls d h = elim (Bool-cases (is_known e.key)) [
  | inl k ↦
      ap (run_pairs (known_pairs ls)) (devinfo_line_lem e d h) ∙ rw k (unfold run_pairs in refl)
  | inr k ↦
      ap (run_pairs (known_pairs ls))
        (devinfo_line_lem e d h ∙ devinfo_entry_other e.key e.value d k)
      ∙ rw k refl
]

pub devinfo_lines_lem :
    (ls : List Line) (d : Devinfo)
    → All IsLine ls
    → devinfo_lines (split b'\n' (print_lines ls)) d ≡ run_pairs (known_pairs ls) d
unfolding run_pairs devinfo_lines
devinfo_lines_lem [] d h = last_line d
devinfo_lines_lem (l ∷ ls) d (hl, h) =
    ap (λ lines. devinfo_lines lines d)
      (split-append b'\n' (print_line l) (print_lines ls) (one_line_lem l hl))
    ∙ devinfo_lines_lem ls (devinfo_line (print_line l) d) h
    ∙ known_one l ls d hl
