-- ===== src/Text/Decimal.antt =====
-- `str::parse` and `to_string` of the integer types.
use freematics_gui.Base.{
  ℕ, zero, suc, ◌+◌, ◌-◌, ◌*◌, ◌/◌, ◌%◌, ◌^◌, ◌≤◌, ◌<◌, ◌≡◌, ◌≢◌, refl, [], ◌∷◌, Option, none, some,
  ltb, leb, ◌==◌, between, if◌then◌else◌, All, arith,
}
use freematics_gui.Base.Int.{ℤ, pos, negsuc, neg, IsI32}
use freematics_gui.Text.{Text}

scan : ℕ → Text → Option ℕ
scan n [] = some n
scan n (c ∷ s) = if between b'0' b'9' c then scan (n * 10 + (c - b'0')) s else none

-- One digit or more, with no bound. The program's types check each step for overflow, which comes
-- to one test at the end, since a longer numeral is never smaller.
digits : Text → Option ℕ
unfolding scan
digits [] = none
digits (c ∷ s) = scan 0 (c ∷ s)

abbrev at_most : ℕ → Option ℕ → Option ℕ
at_most max none = none
at_most max (some n) = if leb n max then some n else none

-- `parse::<u8>`, `parse::<u16>`, `parse::<u64>`: a `+` may stand in front.
unfoldable pub parse_unsigned : ℕ → Text → Option ℕ
unfolding digits
parse_unsigned max [] = none
parse_unsigned max (c ∷ s) = at_most max (if c == b'+' then digits s else digits (c ∷ s))

abbrev mapped : (ℕ → ℤ) → Option ℕ → Option ℤ
mapped f none = none
mapped f (some n) = some (f n)

-- `parse::<i32>`
unfoldable pub parse_signed : Text → Option ℤ
unfolding digits
parse_signed [] = none
parse_signed (c ∷ s) =
    if c == b'-'
    then mapped neg (at_most (2 ^ 31) (digits s))
    else mapped pos (at_most (2 ^ 31 - 1) (if c == b'+' then digits s else digits (c ∷ s)))

show_from : ℕ → ℕ → Text → Text
show_from zero n out = out
show_from (suc f) n out =
    let rest = show_from f (n / 10) ((b'0' + n % 10) ∷ out) in
    if ltb n 10 then (b'0' + n) ∷ out else rest

-- `to_string` of an unsigned integer. As many rounds as the number are enough.
unfoldable pub show : ℕ → Text
unfolding show_from
show n = show_from (suc n) n []

unfoldable pub show_signed : ℤ → Text
unfolding show
show_signed (pos n) = show n
show_signed (negsuc n) = b'-' ∷ show (suc n)

abbrev pub IsDigit : ℕ → Type 0
IsDigit c = (b'0' ≤ c) × (c ≤ b'9')

scan-show_from : (f n : ℕ) (out : Text) → n < f → scan 0 (show_from f n out) ≡ scan n out
unfolding scan show_from
scan-show_from zero n out h = absurd (omega arith)
scan-show_from (suc f) n out h = ground (arith, scan-show_from f (n / 10) ((b'0' + n % 10) ∷ out))

show_from-digits : (f n : ℕ) (out : Text) → All IsDigit out → All IsDigit (show_from f n out)
unfolding show_from
show_from-digits zero n out h = h
show_from-digits (suc f) n out h =
    ground (arith, show_from-digits f (n / 10) ((b'0' + n % 10) ∷ out))

pub show-digits : (n : ℕ) → All IsDigit (show n)
unfolding show
show-digits n = show_from-digits (suc n) n [] tt

show_from-ne-nil : (f n : ℕ) (out : Text) → out ≢ [] → show_from f n out ≢ []
unfolding show_from
show_from-ne-nil zero n out h = h
show_from-ne-nil (suc f) n out h =
    ground (arith, show_from-ne-nil f (n / 10) ((b'0' + n % 10) ∷ out))

show-ne-nil : (n : ℕ) → show n ≢ []
unfolding show show_from
show-ne-nil n = ground (arith, show_from-ne-nil n (n / 10) ((b'0' + n % 10) ∷ []))

scan-show : (n : ℕ) → scan 0 (show n) ≡ some n
unfolding show
scan-show n = unfold scan in scan-show_from (suc n) n [] (omega arith)

digits_of_scan : (s : Text) (n : ℕ) → s ≢ [] → scan 0 s ≡ some n → digits s ≡ some n
unfolding digits
digits_of_scan [] n h e = absurd (h refl)
digits_of_scan (c ∷ s) n h e = e

digits-show : (n : ℕ) → digits (show n) ≡ some n
digits-show n = digits_of_scan (show n) n (show-ne-nil n) (scan-show n)

parse_unsigned-digits :
    (max n : ℕ) (s : Text)
    → All IsDigit s
    → digits s ≡ some n
    → n ≤ max
    → parse_unsigned max s ≡ some n
unfolding parse_unsigned
parse_unsigned-digits max n [] h e k = cc
parse_unsigned-digits max n (c ∷ s) h e k = ground arith

parse_signed-digits :
    (n : ℕ) (s : Text)
    → All IsDigit s
    → digits s ≡ some n
    → n < 2 ^ 31
    → parse_signed s ≡ some (pos n)
unfolding parse_signed
parse_signed-digits n [] h e k = cc
parse_signed-digits n (c ∷ s) h e k = ground arith

-- Every number in the range of the type is read back from its decimal print.
pub parse_unsigned-show : (max n : ℕ) → n ≤ max → parse_unsigned max (show n) ≡ some n
parse_unsigned-show max n = parse_unsigned-digits max n (show n) (show-digits n) (digits-show n)

pub parse_signed-show_signed : (a : ℤ) → IsI32 a → parse_signed (show_signed a) ≡ some a
parse_signed-show_signed (pos n) h =
    unfold show_signed in parse_signed-digits n (show n) (show-digits n) (digits-show n) h.0
parse_signed-show_signed (negsuc n) h =
    unfold show_signed parse_signed in ground (arith, digits-show (suc n))

pub parse_unsigned-le : (max n : ℕ) (s : Text) → parse_unsigned max s ≡ some n → n ≤ max
unfolding parse_unsigned
parse_unsigned-le max n [] h = cc
parse_unsigned-le max n (c ∷ s) h = ground arith

pub parse_signed-IsI32 : (a : ℤ) (s : Text) → parse_signed s ≡ some a → IsI32 a
unfolding parse_signed
parse_signed-IsI32 a [] h = cc
parse_signed-IsI32 a (c ∷ s) h = ground arith
