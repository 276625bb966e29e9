-- ===== src/Text/Trim.antt =====
-- Laws of `trim`, `split_once` and their use on a `key=value` line.
use freematics_gui.Base.{
  ℕ, suc, ◌≤◌, ◌≡◌, ◌≢◌, refl, sym, ap, ◌∙◌, true, false, [], ◌∷◌, ◌++◌, some, Bool-cases, inl, inr,
  arith, length,
}
use freematics_gui.Text.{Text, is_whitespace, trim_start, trim_end, trim, keep, split_once, Lacks}

length-trim_start : (s : Text) → length (trim_start s) ≤ length s
unfolding trim_start
length-trim_start [] = omega arith
length-trim_start (c ∷ s) = ground (arith, length-trim_start s)

length-keep : (c : ℕ) (s : Text) → length (keep c s) ≤ suc (length s)
length-keep c [] = ground arith
length-keep c (d ∷ s) = omega arith

length-trim_end : (s : Text) → length (trim_end s) ≤ length s
unfolding trim_end
length-trim_end [] = omega arith
length-trim_end (c ∷ s) = omega (arith, length-keep c (trim_end s), length-trim_end s)

trim_cons_ne : (c : ℕ) (s : Text) → is_whitespace c ≡ true → trim (c ∷ s) ≢ c ∷ s
unfolding trim
trim_cons_ne c s w e =
    absurd
      (omega (arith, ap length (rw w at e), length-trim_start s, length-trim_end (trim_start s)))

-- A text that `trim` leaves alone begins with no white space.
pub trimmed_head : (c : ℕ) (s : Text) → trim (c ∷ s) ≡ c ∷ s → is_whitespace c ≡ false
trimmed_head c s e = elim (Bool-cases (is_whitespace c)) [
  | inl w ↦ absurd (trim_cons_ne c s w e)
  | inr b ↦ b
]

trim_cons : (c : ℕ) (s : Text) → is_whitespace c ≡ false → trim (c ∷ s) ≡ trim_end (c ∷ s)
unfolding trim
trim_cons c s h = rw h

pub trim_end_of_trimmed : (s : Text) → trim s ≡ s → trim_end s ≡ s
trim_end_of_trimmed [] e = unfold trim_end in refl
trim_end_of_trimmed (c ∷ s) e = sym (trim_cons c s (trimmed_head c s e)) ∙ e

keep_of_false : (c : ℕ) (s : Text) → is_whitespace c ≡ false → keep c s ≡ c ∷ s
keep_of_false c [] h = rw h
keep_of_false c (d ∷ s) h = refl

keep-append : (x c : ℕ) (xs v : Text) → keep x (xs ++ c ∷ v) ≡ x ∷ (xs ++ c ∷ v)
keep-append x c [] v = refl
keep-append x c (y ∷ xs) v = refl

-- A character that is no white space stops `trim_end`.
pub trim_end-append :
    (xs : Text) (c : ℕ) (v : Text)
    → is_whitespace c ≡ false
    → trim_end (xs ++ c ∷ v) ≡ xs ++ c ∷ trim_end v
unfolding trim_end
trim_end-append [] c v h = keep_of_false c (trim_end v) h
trim_end-append (x ∷ xs) c v h = rw (trim_end-append xs c v h) (keep-append x c xs (trim_end v))

-- A text between two characters that are no white space is left alone.
pub trim_line :
    (c d : ℕ) (k v : Text)
    → is_whitespace c ≡ false
    → is_whitespace d ≡ false
    → trim v ≡ v
    → trim (c ∷ (k ++ d ∷ v)) ≡ c ∷ (k ++ d ∷ v)
trim_line c d k v hc hd hv =
    trim_cons c (k ++ d ∷ v) hc
    ∙ trim_end-append (c ∷ k) d v hd
    ∙ ap (λ w. c ∷ (k ++ d ∷ w)) (trim_end_of_trimmed v hv)

-- `split_once` cuts at the first separator.
pub split_once-append :
    (sep : ℕ) (k v : Text) → Lacks sep k → split_once sep (k ++ sep ∷ v) ≡ some (k, v)
unfolding split_once
split_once-append sep [] v h = ground arith
split_once-append sep (c ∷ k) v (hc, hk) = ground (arith, split_once-append sep k v hk)

-- A text that `trim_end` leaves alone ends with no white space, and so do its tails.
pub trim_end_one : (c : ℕ) → trim_end (c ∷ []) ≡ c ∷ [] → is_whitespace c ≡ false
unfolding trim_end
trim_end_one c e = elim (Bool-cases (is_whitespace c)) [
  | inl h ↦ let none_left : [] ≡ c ∷ [] = rw h at e in cc
  | inr h ↦ h
]

kept_tail : (c d : ℕ) (s t : Text) → keep c t ≡ c ∷ d ∷ s → t ≡ d ∷ s
kept_tail c d s [] e = elim (Bool-cases (is_whitespace c)) [
  | inl h ↦ let short : [] ≡ c ∷ d ∷ s = rw h at e in cc
  | inr h ↦ let short : c ∷ [] ≡ c ∷ d ∷ s = rw h at e in cc
]
kept_tail c d s (x ∷ t) e = cc

pub trim_end_tail :
    (c d : ℕ) (s : Text) → trim_end (c ∷ d ∷ s) ≡ c ∷ d ∷ s → trim_end (d ∷ s) ≡ d ∷ s
unfolding trim_end
trim_end_tail c d s e = kept_tail c d s (trim_end (d ∷ s)) e
