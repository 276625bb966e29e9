-- ===== src/Device/Strings/Trimmed.antt =====
-- firmware/test/Arduino.h: `trim` on lines that carry a value, and on text in UTF-8.
use freematics_gui.Base.{
  ℕ, ◌==◌, ◌≡◌, refl, ap, true, false, [], ◌∷◌, ◌++◌, Bool-cases, inl, inr, arith, append-nil,
  is_empty,
}
use freematics_gui.Text.{Text, is_whitespace, trim_end}
use freematics_gui.Text.Utf8.{Bytes, encode_char, as_bytes}
use freematics_gui.Text.Trim.{trim_end_one, trim_end_tail}
use freematics_gui.Protocol.Client.Lines.{is_empty-as_bytes}
use freematics_gui.Device.Strings.{is_blank, trim_back, keep, drop_cr}

keep_of_false : (b : ℕ) (bs : Bytes) → is_blank b ≡ false → keep b bs ≡ b ∷ bs
keep_of_false b [] h = rw h
keep_of_false b (c ∷ bs) h = refl

-- A byte that is no blank stops `trim_back`.
pub trim_back-cons :
    (b : ℕ) (bs : Bytes) → is_blank b ≡ false → trim_back bs ≡ bs → trim_back (b ∷ bs) ≡ b ∷ bs
unfolding trim_back
trim_back-cons b bs h e = rw e (keep_of_false b bs h)

pub trim_back-append :
    (xs : Bytes) (b : ℕ) (bs : Bytes)
    → trim_back (b ∷ bs) ≡ b ∷ bs
    → trim_back (xs ++ b ∷ bs) ≡ xs ++ b ∷ bs
unfolding trim_back
trim_back-append [] b bs e = e
trim_back-append (x ∷ []) b bs e = rw e refl
trim_back-append (x ∷ y ∷ xs) b bs e = rw (trim_back-append (y ∷ xs) b bs e) refl

trim_back-front :
    (xs t : Bytes) → is_empty t ≡ false → trim_back t ≡ t → trim_back (xs ++ t) ≡ xs ++ t
trim_back-front xs [] h e = cc
trim_back-front xs (b ∷ bs) h e = trim_back-append xs b bs e

-- A blank at the end goes.
pub trim_back-blank :
    (xs : Bytes) (b : ℕ) → is_blank b ≡ true → trim_back (xs ++ b ∷ []) ≡ trim_back xs
unfolding trim_back
trim_back-blank [] b h = rw h refl
trim_back-blank (x ∷ xs) b h = rw (trim_back-blank xs b h) refl

trim_back_tail : (b c : ℕ) (bs t : Bytes) → keep b t ≡ b ∷ c ∷ bs → t ≡ c ∷ bs
trim_back_tail b c bs [] e = elim (Bool-cases (is_blank b)) [
  | inl h ↦ let short : [] ≡ b ∷ c ∷ bs = rw h at e in cc
  | inr h ↦ let short : b ∷ [] ≡ b ∷ c ∷ bs = rw h at e in cc
]
trim_back_tail b c bs (x ∷ t) e = cc

pub drop_cr_of_trimmed : (bs : Bytes) → trim_back bs ≡ bs → drop_cr bs ≡ bs
unfolding drop_cr trim_back
drop_cr_of_trimmed [] e = refl
drop_cr_of_trimmed (b ∷ []) e = elim (Bool-cases (b == b'\r')) [
  | inl h ↦
      let blank : is_blank b ≡ true = ground arith in
      let none_left : [] ≡ b ∷ [] = rw blank at e in cc
  | inr h ↦ rw h refl
]
drop_cr_of_trimmed (b ∷ c ∷ bs) e =
    ap (λ t. b ∷ t) (drop_cr_of_trimmed (c ∷ bs) (trim_back_tail b c bs (trim_back (c ∷ bs)) e))

pub blank_whitespace : (c : ℕ) → is_whitespace c ≡ false → is_blank c ≡ false
unfolding is_whitespace
blank_whitespace c h = ground arith

trim_back-encode_char :
    (c : ℕ) → is_whitespace c ≡ false → trim_back (encode_char c) ≡ encode_char c
unfolding encode_char trim_back
trim_back-encode_char c h = ground (arith, blank_whitespace c h)

-- A text with no white space at its end has no blank at the end of its bytes.
pub trim_back-as_bytes : (s : Text) → trim_end s ≡ s → trim_back (as_bytes s) ≡ as_bytes s
unfolding as_bytes
trim_back-as_bytes [] e = unfold trim_back in refl
trim_back-as_bytes (c ∷ []) e =
    rw (append-nil (encode_char c)) (trim_back-encode_char c (trim_end_one c e))
trim_back-as_bytes (c ∷ d ∷ s) e =
    let tail : trim_end (d ∷ s) ≡ d ∷ s = trim_end_tail c d s e in
    trim_back-front (encode_char c) (as_bytes (d ∷ s)) (is_empty-as_bytes (d ∷ s) (λ q. cc))
      (trim_back-as_bytes (d ∷ s) tail)
