-- ===== src/Flash/Progress.antt =====
-- flash/esptool.rs: `FlashProgress::parse`, which finds the first progress line in esptool's output.
use freematics_gui.Base.{
  ℕ, suc, ◌+◌, ◌==◌, true, false, List, [], ◌∷◌, ◌++◌, Option, none, some, ◌>>=◌, if◌then◌else◌,
  is_empty, length, drop, take,
}
use freematics_gui.Text.{Text, codes, starts_with, to_ascii_lowercase, trim, trim_start}
use freematics_gui.Text.Decimal.{parse_unsigned}

pub record FlashProgress : Type 0 where
  pub percentage : ℕ
  pub stage : Text

abbrev later : Option ℕ → Option ℕ
later none = none
later (some i) = some (suc i)

-- `find`: where the pattern first begins.
unfoldable pub find : Text → Text → Option ℕ
unfolding starts_with
find [] p = if is_empty p then some 0 else none
find (c ∷ s) p = if starts_with (c ∷ s) p then some 0 else later (find s p)

abbrev strip : ℕ → ℕ → Text → Text
strip x c [] = if c == x then [] else c ∷ []
strip x c (d ∷ s) = c ∷ d ∷ s

-- `trim_end_matches(x)`
unfoldable pub trim_end_matches : ℕ → Text → Text
trim_end_matches x [] = []
trim_end_matches x (c ∷ s) = strip x c (trim_end_matches x s)

-- A line's end, `\n` or `\r\n`, is taken off.
abbrev without_cr : Text → Text
without_cr [] = []
without_cr (c ∷ []) = if c == b'\r' then [] else c ∷ []
without_cr (c ∷ d ∷ s) = c ∷ without_cr (d ∷ s)

lines_from : Text → Text → List Text
lines_from cur [] = if is_empty cur then [] else cur ∷ []
lines_from cur (c ∷ s) = elim (c == b'\n') [
  | true ↦ without_cr cur ∷ lines_from [] s
  | false ↦ lines_from (cur ++ c ∷ []) s
]

unfoldable pub lines : Text → List Text
unfolding lines_from
lines s = lines_from [] s

abbrev writing_at : Text
writing_at = codes "writing at"

-- What follows "writing at", in any case, up to the parenthesis: the text in it.
unfoldable pub parse_writing_line : Text → Option FlashProgress
unfolding find trim_end_matches
parse_writing_line line = do
  idx ← find (to_ascii_lowercase line) writing_at
  let rest = trim_start (drop (idx + length writing_at) line)
  paren ← find rest (b'(' ∷ [])
  let after = drop (paren + 1) rest
  close ← find after (b')' ∷ [])
  percentage ← parse_unsigned 255 (trim (trim_end_matches b'%' (take close after)))
  some (record { percentage = percentage; stage = codes "writing" })

first_some : List Text → Option FlashProgress
first_some [] = none
first_some (l ∷ ls) = elim (parse_writing_line (trim l)) [ some p ↦ some p | none ↦ first_some ls ]

unfoldable pub parse_progress : Text → Option FlashProgress
unfolding first_some
parse_progress output = first_some (lines output)
