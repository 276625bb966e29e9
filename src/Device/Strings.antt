-- ===== src/Device/Strings.antt =====
-- firmware/test/Arduino.h: the class `String` as the firmware uses it. A `String` is its bytes. Its
-- conversions from and to numbers are those of the C library, and are a parameter.
pub mod Trimmed
use freematics_gui.Base.{ℕ, ◌+◌, ◌-◌, ◌==◌, ◌||◌, between, Bool, if◌then◌else◌, List, [], ◌∷◌, map}
use freematics_gui.Base.Int.{ℤ}
use freematics_gui.Text.Utf8.{Bytes}

-- The characters that `trim` takes off.
abbrev pub is_blank : ℕ → Bool
is_blank b = b == b' ' || b == b'\t' || b == b'\r' || b == b'\n'

unfoldable pub trim_front : Bytes → Bytes
trim_front [] = []
trim_front (b ∷ bs) = if is_blank b then trim_front bs else b ∷ bs

-- A byte in front of what is left of the bytes behind it.
abbrev pub keep : ℕ → Bytes → Bytes
keep b [] = if is_blank b then [] else b ∷ []
keep b (c ∷ bs) = b ∷ c ∷ bs

unfoldable pub trim_back : Bytes → Bytes
trim_back [] = []
trim_back (b ∷ bs) = keep b (trim_back bs)

unfoldable pub trim : Bytes → Bytes
trim bs = trim_back (trim_front bs)

abbrev pub to_upper : ℕ → ℕ
to_upper b = if between b'a' b'z' b then b - 32 else b

abbrev pub to_lower : ℕ → ℕ
to_lower b = if between b'A' b'Z' b then b + 32 else b

unfoldable pub to_upper_case : Bytes → Bytes
to_upper_case bs = map to_upper bs

unfoldable pub to_lower_case : Bytes → Bytes
to_lower_case bs = map to_lower bs

-- `if (line.endsWith("\r")) line.remove(line.length() - 1);`
unfoldable pub drop_cr : Bytes → Bytes
drop_cr [] = []
drop_cr (b ∷ []) = if b == b'\r' then [] else b ∷ []
drop_cr (b ∷ c ∷ bs) = b ∷ drop_cr (c ∷ bs)

-- `toInt()`, `toFloat()`, `String(value, 4)`, and `snprintf` with "%.4f".
pub record Numbers (F : Type 0) : Type 0 where
  pub to_int : Bytes → ℤ
  pub to_float : Bytes → F
  pub fixed_4 : F → Bytes
  -- the literal 0.4f
  pub two_fifths : F
