-- ===== src/Text/Utf8.antt =====
-- `str::as_bytes` and `String::from_utf8`: UTF-8, and what the decoder's error says.
use freematics_gui.Base.{
  ℕ, zero, suc, ◌+◌, ◌-◌, ◌*◌, ◌/◌, ◌%◌, ◌≤◌, ◌<◌, ◌≡◌, ◌⊎◌, refl, true, false, List, [], ◌∷◌, ◌++◌,
  Option, none, some, ltb, ◌==◌, between, if◌then◌else◌, All,
}
use freematics_gui.Text.{Text}

abbrev pub Bytes : Type 0
Bytes = List ℕ

-- The bytes of one character.
unfoldable pub encode_char : ℕ → Bytes
encode_char c =
    if ltb c 0x80
    then c ∷ []
    else if ltb c 0x800
    then (0xc0 + c / 64) ∷ (0x80 + c % 64) ∷ []
    else if ltb c 0x10000
    then (0xe0 + c / 4096) ∷ (0x80 + c / 64 % 64) ∷ (0x80 + c % 64) ∷ []
    else (0xf0 + c / 262144) ∷ (0x80 + c / 4096 % 64) ∷ (0x80 + c / 64 % 64) ∷ (0x80 + c % 64) ∷ []

unfoldable pub as_bytes : Text → Bytes
unfolding encode_char
as_bytes [] = []
as_bytes (c ∷ s) = encode_char c ++ as_bytes s

-- Between two characters, or inside one: how many bytes are still to come, the range that the next
-- one must lie in, and the value of the bytes read.
pub data Pending : Type 0 where
  between_chars : Pending
  inside : ℕ → ℕ → ℕ → ℕ → Pending

-- `Utf8Error`: the bytes before the first character that is not valid, and how many bytes of it
-- were read before it was known to be wrong (`none` where the input ends inside it).
pub record Utf8Error : Type 0 where
  pub valid_up_to : ℕ
  pub error_len : Option ℕ

pub data Decoded : Type 0 where
  text : Text → Decoded
  invalid : Utf8Error → Decoded

abbrev pub cons_char : ℕ → Decoded → Decoded
cons_char c (text s) = text (c ∷ s)
cons_char c (invalid e) = invalid e

-- What a byte begins.
pub data Lead : Type 0 where
  ascii bad : Lead
  leads : ℕ → ℕ → ℕ → ℕ → Lead

unfoldable pub lead : ℕ → Lead
lead b =
    if ltb b 0x80
    then ascii
    else if between 0xc2 0xdf b
    then leads 0 0x80 0xbf (b - 0xc0)
    else if b == 0xe0
    then leads 1 0xa0 0xbf 0
    else if b == 0xed
    then leads 1 0x80 0x9f 0xd
    else if between 0xe1 0xef b
    then leads 1 0x80 0xbf (b - 0xe0)
    else if b == 0xf0
    then leads 2 0x90 0xbf 0
    else if between 0xf1 0xf3 b
    then leads 2 0x80 0xbf (b - 0xf0)
    else if b == 0xf4
    then leads 2 0x80 0x8f 4
    else bad

-- `start` is where the current character begins, `pos` where the next byte stands. In `inside`,
-- `more` bytes follow the next one.
abbrev broken : ℕ → Option ℕ → Decoded
broken start len = invalid (record { valid_up_to = start; error_len = len })

unfoldable pub decode_from : Pending → ℕ → ℕ → Bytes → Decoded
unfolding lead
decode_from between_chars start pos [] = text []
decode_from (inside more lo hi v) start pos [] = broken start none
decode_from between_chars start pos (b ∷ bs) = elim (lead b) [
  | ascii ↦ cons_char b (decode_from between_chars (pos + 1) (pos + 1) bs)
  | bad ↦ broken pos (some 1)
  | leads more lo hi v ↦ decode_from (inside more lo hi v) pos (pos + 1) bs
]
decode_from (inside zero lo hi v) start pos (b ∷ bs) = elim (between lo hi b) [
  | true ↦ cons_char (v * 64 + (b - 0x80)) (decode_from between_chars (pos + 1) (pos + 1) bs)
  | false ↦ broken start (some (pos - start))
]
decode_from (inside (suc more) lo hi v) start pos (b ∷ bs) = elim (between lo hi b) [
  | true ↦ decode_from (inside more 0x80 0xbf (v * 64 + (b - 0x80))) start (pos + 1) bs
  | false ↦ broken start (some (pos - start))
]

unfoldable pub from_utf8 : Bytes → Decoded
unfolding decode_from
from_utf8 bs = decode_from between_chars 0 0 bs

-- A Unicode scalar value: what a `char` holds.
abbrev pub IsChar : ℕ → Type 0
IsChar c = (c < 0xd800) ⊎ ((0xe000 ≤ c) × (c < 0x110000))

abbrev pub IsText : Text → Type 0
IsText = All IsChar

euro :
    from_utf8 (as_bytes (0x20ac ∷ 0x1f600 ∷ 0xe9 ∷ 0x41 ∷ []))
    ≡ text (0x20ac ∷ 0x1f600 ∷ 0xe9 ∷ 0x41 ∷ [])
unfolding from_utf8 as_bytes
euro = refl

bad_second :
    from_utf8 (0x41 ∷ 0xe2 ∷ 0x28 ∷ []) ≡ invalid (record { valid_up_to = 1; error_len = some 1 })
unfolding from_utf8
bad_second = refl
