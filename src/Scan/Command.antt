-- ===== src/Scan/Command.antt =====
-- Which arguments of the program lead where.
use mathlib.Core.Path.{subst}
use rewsr_maxfields.Base.{
  ◌≢◌, ◌++◌, ◌≡◌, refl, sym, Bool, true, false, List, [], ◌∷◌, arith, Str, str, ◌==◌, str_eq,
  nat_eq,
}
use rewsr_maxfields.Text.Cut.{after_prefix, has_prefix}
use rewsr_maxfields.Scan.{Action, scan, serve, show_usage, complaint, command, dispatch, main}

-- What stands in front is a flag.
abbrev pub is_flagged : List Str → Bool
is_flagged [] = true
is_flagged (a ∷ args) = has_prefix a (str "-")

flagged_help :
    (has_prefix (str "-h") (str "-") ≡ true)
    × (has_prefix (str "--help") (str "-") ≡ true)
    × (has_prefix (str "help") (str "-") ≡ false)
unfolding has_prefix after_prefix str nat_eq
flagged_help = (refl, refl, refl)

words_differ :
    ((str "help" == str "scan") ≡ false)
    × ((str "help" == str "serve") ≡ false)
    × ((str "serve" == str "scan") ≡ false)
unfolding str str_eq
words_differ = (refl, refl, refl)

-- A word in front that is no flag.
abbrev pub Word : Str → Action → List Str → Type 0
Word cmd action args =
    (cmd ≡ str "scan" → action ≡ scan args)
    × (cmd ≡ str "serve" → action ≡ serve)
    × (cmd ≡ str "help" → action ≡ show_usage [] 0)
    × (cmd ≢ str "scan"
        → cmd ≢ str "serve"
        → cmd ≢ str "help"
        → action ≡ show_usage ((str "unknown command: " ++ cmd) ∷ [] ∷ []) 1)

dispatch_word :
    (cmd : Str) (args : List Str)
    → has_prefix cmd (str "-") ≡ false
    → Word cmd (dispatch cmd args) args
unfolding dispatch complaint
dispatch_word cmd args h =
    let (short, long, _) = flagged_help in
    (
      λ e. ground (arith, e),
      λ e. ground (arith, e, words_differ),
      λ e. ground (arith, e, words_differ, short, long),
      λ a b c. ground (arith, a, b, c, short, long, h),
    )

scan_word : (args : List Str) → dispatch (str "scan") args ≡ scan args
unfolding dispatch str str_eq
scan_word args = refl

main_flagged :
    (a : Str) (args : List Str) → has_prefix a (str "-") ≡ true → main (a ∷ args) ≡ scan (a ∷ args)
unfolding main command
main_flagged a args h = ground (arith, h, scan_word (a ∷ args))

main_empty : main [] ≡ scan []
unfolding main command
main_empty = scan_word []

main_word :
    (a : Str) (args : List Str) → has_prefix a (str "-") ≡ false → main (a ∷ args) ≡ dispatch a args
unfolding main command
main_word a args h = rw h refl

-- What the arguments lead to. An empty list and a list with a flag in front, "-h" and "--help" among them,
-- is a scan of all of it. Otherwise the word in front decides: "scan" and "serve" do what they say, "help"
-- prints the usage text and ends with code 0, and every other word prints that it is unknown and then the
-- usage text, and ends with code 1.
pub main_lem :
    (args : List Str)
    → (is_flagged args ≡ true → main args ≡ scan args)
      × ((a : Str) (rest : List Str)
          → args ≡ a ∷ rest
          → has_prefix a (str "-") ≡ false
          → Word a (main args) rest)
main_lem [] = (λ _. main_empty, λ a rest e. absurd (ground arith))
main_lem (b ∷ args) = (
  main_flagged b args,
  λ a rest e h.
      subst (λ l. Word a (main l) rest) (sym e)
        (subst (λ action. Word a action rest) (sym (main_word a rest h)) (dispatch_word a rest h)),
)
