-- ===== src/Collectors/Host.antt =====
-- What the collectors read of a host. Paths are below `root()`, as in `filepath.Join(c.root(), …)`; a
-- read answers `none` for an error.
use rewsr_maxfields.Base.{
  str, ◌≡◌, Bool, true, false, ◌||◌, ◌&&◌, Option, none, some, List, [], ◌∷◌, ◌++◌, arith, Str,
  ◌==◌, contains, if◌then◌else◌, str_eq,
}
use rewsr_maxfields.Base.Int.{ℤ, pos}
use rewsr_maxfields.Text.Decimal.{atoi}
use rewsr_maxfields.Text.Space.{trim_space}
use rewsr_maxfields.Facts.Build.{Result, ok, err}
use rewsr_maxfields.Facts.Types.{ServerFacts, Time, zero_facts}

-- A directory entry.
pub record Entry : Type 0 where
  pub name : Str
  pub is_dir : Bool

-- `joined` is the path below the root as a text. `runs` is what a command with its arguments prints, if it is installed and succeeds.
pub record Host : Type 0 where
  pub root : Str
  pub joined : Str → Str
  pub now : Time
  pub read_file : Str → Option Str
  pub read_dir : Str → Option (List Entry)
  pub stat : Str → Bool
  pub runs : Str → List Str → Option Str

-- A runner of commands: the error of looking a command up, if there is one, and what a run prints.
pub record Tools : Type 0 where
  pub look_path : Str → Option Str
  pub run : Str → List Str → Result Str

-- `requireCommand`: its error, if the command is not installed.
unfoldable pub require_command : Tools → Str → Option Str
require_command t name = elim (t.look_path name) [
  | none ↦ none
  | some e ↦ some (name ++ (str " not found: " ++ e))
]

-- How a collector of one command begins: a runner, the command on the path, and what it prints.
unfoldable pub run_tool : Str → Option Tools → Str → List Str → Result Str
run_tool who none name args = err (who ++ str ": no CommandRunner configured")
run_tool who (some t) name args = elim (require_command t name) [
  | some e ↦ err (who ++ (str ": " ++ e))
  | none ↦ elim (t.run name args) [ err e ↦ err (who ++ (str ": " ++ e)) | ok out ↦ ok out ]
]

-- `readIntFile`: 0 for a file that is unreadable or no number.
unfoldable pub read_int_file : Host → Str → ℤ
read_int_file h path = elim (h.read_file path) [
  | none ↦ pos 0
  | some text ↦ elim (atoi (trim_space text)) [ none ↦ pos 0 | some n ↦ n ]
]

abbrev pub is_some {ℓ} : {A : Type ℓ} → Option A → Bool
is_some none = false
is_some (some _) = true

-- `if len(xs) > 0 { raw[…] = xs }`
abbrev pub unless_empty : {A : Type 0} → List A → Option (List A)
unless_empty [] = none
unless_empty (x ∷ xs) = some (x ∷ xs)

-- The facts that a collector starts from.
unfoldable pub observed : {V : Type 0} → Str → Host → Str → ServerFacts V
observed source h server_id = record zero_facts {
  server_id = server_id;
  source = source;
  observed_at = h.now;
  raw = some [];
}

-- `atoiOrZero`
unfoldable pub atoi_or_zero : Str → ℤ
atoi_or_zero s = elim (atoi (trim_space s)) [ none ↦ pos 0 | some n ↦ n ]

-- The loop over fields that keeps those that are numbers.
unfoldable pub numbers : List Str → List ℤ
numbers [] = []
numbers (w ∷ ws) = elim (atoi w) [ none ↦ numbers ws | some n ↦ n ∷ numbers ws ]

-- `addCap`
unfoldable pub add_cap : Str → Bool → List Str → List Str
add_cap name present caps = if present then caps ++ name ∷ [] else caps

pub contains-add_cap :
    (c name : Str) (present : Bool) (caps : List Str)
    → contains c (add_cap name present caps) ≡ (contains c caps || c == name && present)
unfolding add_cap
contains-add_cap c name true [] = ground arith
contains-add_cap c name true (x ∷ caps) = ground (arith, contains-add_cap c name true caps)
contains-add_cap c name false caps = ground arith
