-- ===== src/Text/Ascii.antt =====
-- `as_bytes` on joined texts and on ASCII.
use freematics_gui.Base.{
  ℕ, ◌<◌, ◌≡◌, ◌≢◌, refl, [], ◌∷◌, ◌++◌, append_assoc, ap, ◌∙◌, sym, All, All-append, arith,
}
use freematics_gui.Text.{Text, Lacks}
use freematics_gui.Text.Utf8.{encode_char, as_bytes}

abbrev pub IsAscii : Text → Type 0
IsAscii = All (λ c. c < 0x80)

pub as_bytes-append : (s t : Text) → as_bytes (s ++ t) ≡ as_bytes s ++ as_bytes t
unfolding as_bytes
as_bytes-append [] t = refl
as_bytes-append (c ∷ s) t =
    ap (λ x. encode_char c ++ x) (as_bytes-append s t)
    ∙ sym (append_assoc (encode_char c) (as_bytes s) (as_bytes t))

encode_char_of_ascii : (c : ℕ) → c < 0x80 → encode_char c ≡ c ∷ []
unfolding encode_char
encode_char_of_ascii c h = ground arith

pub as_bytes-IsAscii : (s : Text) → IsAscii s → as_bytes s ≡ s
unfolding as_bytes
as_bytes-IsAscii [] h = refl
as_bytes-IsAscii (c ∷ s) (hc, hs) = rw (encode_char_of_ascii c hc, as_bytes-IsAscii s hs) refl

encode_char-Lacks : (b c : ℕ) → b < 0x80 → c ≢ b → Lacks b (encode_char c)
unfolding encode_char
encode_char-Lacks b c h k = ground arith

-- A byte of ASCII is in the bytes of a text only as that character.
pub as_bytes-Lacks : (b : ℕ) (s : Text) → b < 0x80 → Lacks b s → Lacks b (as_bytes s)
unfolding as_bytes
as_bytes-Lacks b [] h k = tt
as_bytes-Lacks b (c ∷ s) h (kc, ks) =
    All-append _ (encode_char c) (as_bytes s) (encode_char-Lacks b c h kc) (as_bytes-Lacks b s h ks)
