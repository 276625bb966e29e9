-- ===== src/Text/Clean.antt =====
-- Texts without white space, and `trim` on them.
use freematics_gui.Base.{ℕ, suc, ◌≤◌, ◌≡◌, refl, false, [], ◌∷◌, arith, All}
use freematics_gui.Base.Int.{ℤ, pos, negsuc}
use freematics_gui.Text.{Text, is_whitespace, trim_start, trim_end, trim}
use freematics_gui.Text.Decimal.{show, show_signed, show-digits}

abbrev pub IsSolid : Text → Type 0
IsSolid = All (λ c. is_whitespace c ≡ false)

trim_end-IsSolid : (s : Text) → IsSolid s → trim_end s ≡ s
unfolding trim_end
trim_end-IsSolid [] h = refl
trim_end-IsSolid (c ∷ []) h = rw h.0
trim_end-IsSolid (c ∷ d ∷ s) (hc, hs) = rw (trim_end-IsSolid (d ∷ s) hs) refl

trim_start-IsSolid : (s : Text) → IsSolid s → trim_start s ≡ s
unfolding trim_start
trim_start-IsSolid [] h = refl
trim_start-IsSolid (c ∷ s) h = rw h.0

pub trim-IsSolid : (s : Text) → IsSolid s → trim s ≡ s
unfolding trim
trim-IsSolid s h = rw (trim_start-IsSolid s h) (trim_end-IsSolid s h)

digit-solid : (c : ℕ) → b'0' ≤ c → c ≤ b'9' → is_whitespace c ≡ false
unfolding is_whitespace
digit-solid c h k = ground arith

digits-IsSolid : (s : Text) → All (λ c. (b'0' ≤ c) × (c ≤ b'9')) s → IsSolid s
digits-IsSolid [] h = tt
digits-IsSolid (c ∷ s) ((h, k), hs) = (digit-solid c h k, digits-IsSolid s hs)

pub trim-show : (n : ℕ) → trim (show n) ≡ show n
trim-show n = trim-IsSolid (show n) (digits-IsSolid (show n) (show-digits n))

show_signed-IsSolid : (a : ℤ) → IsSolid (show_signed a)
unfolding show_signed
show_signed-IsSolid (pos n) = digits-IsSolid (show n) (show-digits n)
show_signed-IsSolid (negsuc n) =
    (unfold is_whitespace in refl, digits-IsSolid (show (suc n)) (show-digits (suc n)))

pub trim-show_signed : (a : ℤ) → trim (show_signed a) ≡ show_signed a
trim-show_signed a = trim-IsSolid (show_signed a) (show_signed-IsSolid a)
