-- ===== src/Text.antt =====
-- std::str as the program uses it. A text is the list of its characters, each by its code point.
pub mod Trim
pub mod Utf8
pub mod Wire
pub mod Decimal
pub mod Clean
pub mod Ascii
use freematics_gui.Base.{
  ℕ, ◌+◌, ◌≡◌, ◌≢◌, refl, Bool, true, false, ◌&&◌, ◌||◌, List, [], ◌∷◌, Option, none, some, leb,
  ◌==◌, between, if◌then◌else◌, All, arith, is_empty,
}
use Prim.Native.Char.{code}
use Prim.Native.String.{String}

abbrev pub Text : Type 0
Text = List ℕ

abbrev pub codes : String → Text
codes String.[] = []
codes (String.◌∷◌ c s) = code c ∷ codes s

-- `char::is_whitespace`: the code points with the Unicode property White_Space.
unfoldable pub is_whitespace : ℕ → Bool
is_whitespace c =
    between 0x9 0xd c
    || c == 0x20
    || c == 0x85
    || c == 0xa0
    || c == 0x1680
    || between 0x2000 0x200a c
    || between 0x2028 0x2029 c
    || c == 0x202f
    || c == 0x205f
    || c == 0x3000

-- `==` on `str`
unfoldable pub text_eq : Text → Text → Bool
text_eq [] [] = true
text_eq (a ∷ s) (b ∷ t) = a == b && text_eq s t
text_eq _ _ = false

unfoldable pub to_ascii_lower : ℕ → ℕ
to_ascii_lower c = if between b'A' b'Z' c then c + 32 else c

unfoldable pub to_ascii_lowercase : Text → Text
unfolding to_ascii_lower
to_ascii_lowercase [] = []
to_ascii_lowercase (c ∷ s) = to_ascii_lower c ∷ to_ascii_lowercase s

unfoldable pub eq_ignore_ascii_case : Text → Text → Bool
unfolding text_eq to_ascii_lowercase
eq_ignore_ascii_case s t = text_eq (to_ascii_lowercase s) (to_ascii_lowercase t)

unfoldable pub trim_start : Text → Text
trim_start [] = []
trim_start (c ∷ s) = if is_whitespace c then trim_start s else c ∷ s

-- the characters from the back, up to the last one that is no white space
abbrev keep : ℕ → Text → Text
keep c [] = if is_whitespace c then [] else c ∷ []
keep c (d ∷ s) = c ∷ d ∷ s

unfoldable pub trim_end : Text → Text
trim_end [] = []
trim_end (c ∷ s) = keep c (trim_end s)

unfoldable pub trim : Text → Text
unfolding trim_start trim_end
trim s = trim_end (trim_start s)

abbrev behind : ℕ → Option (Text × Text) → Option (Text × Text)
behind c none = none
behind c (some (a, b)) = some (c ∷ a, b)

-- `split_once(sep)`
unfoldable pub split_once : ℕ → Text → Option (Text × Text)
split_once sep [] = none
split_once sep (c ∷ s) = if c == sep then some ([], s) else behind c (split_once sep s)

unfoldable pub starts_with : Text → Text → Bool
starts_with s [] = true
starts_with [] (c ∷ p) = false
starts_with (d ∷ s) (c ∷ p) = d == c && starts_with s p

unfoldable pub contains : Text → Text → Bool
unfolding starts_with
contains [] p = is_empty p
contains (d ∷ s) p = starts_with (d ∷ s) p || contains s p

-- No character of `s` is `c`.
abbrev pub Lacks : ℕ → Text → Type 0
Lacks c s = All (λ d. d ≢ c) s

pub text_eq_refl : (s : Text) → text_eq s s ≡ true
unfolding text_eq
text_eq_refl [] = refl
text_eq_refl (a ∷ s) = ground (arith, text_eq_refl s)

pub eq_of_text_eq : (s t : Text) → text_eq s t ≡ true → s ≡ t
unfolding text_eq
eq_of_text_eq [] [] h = refl
eq_of_text_eq [] (b ∷ t) h = cc
eq_of_text_eq (a ∷ s) [] h = cc
eq_of_text_eq (a ∷ s) (b ∷ t) h = ground (arith, eq_of_text_eq s t)
