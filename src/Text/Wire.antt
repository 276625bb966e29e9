-- ===== src/Text/Wire.antt =====
-- The decoder of UTF-8 on encoded text.
use freematics_gui.Base.{
  ℕ, suc, ◌+◌, ◌-◌, ◌*◌, ◌/◌, ◌%◌, ◌≤◌, ◌<◌, ◌≡◌, ◌≢◌, inl, inr, refl, true, [], ◌∷◌, ◌++◌, ltb,
  ◌==◌, between, arith, Bool-cases, ap, ◌∙◌,
}
use freematics_gui.Text.{Text}
use freematics_gui.Text.Utf8.{
  Bytes, encode_char, as_bytes, between_chars, inside, text, ascii, leads, lead, decode_from,
  from_utf8, IsChar, IsText,
}

abbrev Decodes : Bytes → Text → Type 0
Decodes bs s = (n : ℕ) → decode_from between_chars n n bs ≡ text s

lead_ascii : (c : ℕ) → c < 0x80 → lead c ≡ ascii
unfolding lead
lead_ascii c h = ground arith

lead_two : (q : ℕ) → 2 ≤ q → q < 32 → lead (0xc0 + q) ≡ leads 0 0x80 0xbf q
unfolding lead
lead_two q h k = ground arith

lead_three : (q : ℕ) → 1 ≤ q → q < 16 → q ≢ 13 → lead (0xe0 + q) ≡ leads 1 0x80 0xbf q
unfolding lead
lead_three q h k l = ground arith

lead_four : (q : ℕ) → 1 ≤ q → q < 4 → lead (0xf0 + q) ≡ leads 2 0x80 0xbf q
unfolding lead
lead_four q h k = ground arith

decode_last :
    (lo hi v b start pos : ℕ) (bs : Bytes) (s : Text)
    → between lo hi b ≡ true
    → Decodes bs s
    → decode_from (inside 0 lo hi v) start pos (b ∷ bs) ≡ text ((v * 64 + (b - 0x80)) ∷ s)
unfolding decode_from
decode_last lo hi v b start pos bs s h d = rw (h, decode_from, d (pos + 1)) refl

decode_more :
    (more lo hi v b start pos : ℕ) (bs : Bytes)
    → between lo hi b ≡ true
    → decode_from (inside (suc more) lo hi v) start pos (b ∷ bs)
      ≡ decode_from (inside more 0x80 0xbf (v * 64 + (b - 0x80))) start (pos + 1) bs
unfolding decode_from
decode_more more lo hi v b start pos bs h = rw (h, decode_from)

decode_lead :
    (b more lo hi v start pos : ℕ) (bs : Bytes)
    → lead b ≡ leads more lo hi v
    → decode_from between_chars start pos (b ∷ bs)
      ≡ decode_from (inside more lo hi v) pos (pos + 1) bs
unfolding decode_from
decode_lead b more lo hi v start pos bs h = rw (h, decode_from)

-- What the proof of each width leaves: the value that the bytes spell.
module _ (c start : ℕ) (bs : Bytes) (s : Text) (d : Decodes bs s) where
  one_byte : c < 0x80 → decode_from between_chars start start (c ∷ bs) ≡ text (c ∷ s)
  unfolding decode_from
  one_byte h = rw (lead_ascii c h, decode_from, d (start + 1)) refl

  two_bytes :
      0x80 ≤ c
      → c < 0x800
      → decode_from between_chars start start ((0xc0 + c / 64) ∷ (0x80 + c % 64) ∷ bs)
        ≡ text (c ∷ s)
  two_bytes h k =
      decode_lead (0xc0 + c / 64) 0 0x80 0xbf (c / 64) start start _
        (lead_two (c / 64) (omega arith) (omega arith))
      ∙ decode_last 0x80 0xbf (c / 64) (0x80 + c % 64) start (start + 1) bs s (ground arith) d
      ∙ ap (λ e. text (e ∷ s)) (omega arith)

  three_bytes :
      (lo hi : ℕ)
      → lead (0xe0 + c / 4096) ≡ leads 1 lo hi (c / 4096)
      → between lo hi (0x80 + c / 64 % 64) ≡ true
      → decode_from between_chars start start
          ((0xe0 + c / 4096) ∷ (0x80 + c / 64 % 64) ∷ (0x80 + c % 64) ∷ bs)
        ≡ text (c ∷ s)
  three_bytes lo hi h k =
      decode_lead (0xe0 + c / 4096) 1 lo hi (c / 4096) start start _ h
      ∙ decode_more 0 lo hi (c / 4096) (0x80 + c / 64 % 64) start (start + 1) _ k
      ∙ decode_last 0x80 0xbf _ (0x80 + c % 64) start (start + 1 + 1) bs s (ground arith) d
      ∙ ap (λ e. text (e ∷ s)) (omega arith)

  four_bytes :
      (lo hi : ℕ)
      → lead (0xf0 + c / 262144) ≡ leads 2 lo hi (c / 262144)
      → between lo hi (0x80 + c / 4096 % 64) ≡ true
      → decode_from between_chars start start (
          (0xf0 + c / 262144)
          ∷ (0x80 + c / 4096 % 64)
          ∷ (0x80 + c / 64 % 64)
          ∷ (0x80 + c % 64)
          ∷ bs)
        ≡ text (c ∷ s)
  four_bytes lo hi h k =
      decode_lead (0xf0 + c / 262144) 2 lo hi (c / 262144) start start _ h
      ∙ decode_more 1 lo hi (c / 262144) (0x80 + c / 4096 % 64) start (start + 1) _ k
      ∙ decode_more 0 0x80 0xbf _ (0x80 + c / 64 % 64) start (start + 1 + 1) _ (ground arith)
      ∙ decode_last 0x80 0xbf _ (0x80 + c % 64) start (start + 1 + 1 + 1) bs s (ground arith) d
      ∙ ap (λ e. text (e ∷ s)) (omega arith)

  three_bytes_of_char :
      0x800 ≤ c
      → c < 0x10000
      → IsChar c
      → decode_from between_chars start start
          ((0xe0 + c / 4096) ∷ (0x80 + c / 64 % 64) ∷ (0x80 + c % 64) ∷ bs)
        ≡ text (c ∷ s)
  three_bytes_of_char h k valid = elim (Bool-cases (c / 4096 == 0)) [
    | inl e ↦ three_bytes 0xa0 0xbf (unfold lead in ground arith) (ground arith)
    | inr e ↦ elim (Bool-cases (c / 4096 == 13)) [
      | inl f ↦ three_bytes 0x80 0x9f (unfold lead in ground arith) (ground arith)
      | inr f ↦
          three_bytes 0x80 0xbf (lead_three (c / 4096) (ground arith) (omega arith) (ground arith))
            (ground arith)
    ]
  ]

  four_bytes_of_char :
      0x10000 ≤ c
      → IsChar c
      → decode_from between_chars start start (
          (0xf0 + c / 262144)
          ∷ (0x80 + c / 4096 % 64)
          ∷ (0x80 + c / 64 % 64)
          ∷ (0x80 + c % 64)
          ∷ bs)
        ≡ text (c ∷ s)
  four_bytes_of_char h valid = elim (Bool-cases (c / 262144 == 0)) [
    | inl e ↦ four_bytes 0x90 0xbf (unfold lead in ground arith) (ground arith)
    | inr e ↦ elim (Bool-cases (c / 262144 == 4)) [
      | inl f ↦ four_bytes 0x80 0x8f (unfold lead in ground arith) (ground arith)
      | inr f ↦
          four_bytes 0x80 0xbf (lead_four (c / 262144) (ground arith) (ground arith)) (ground arith)
    ]
  ]

  decode-encode_char :
      IsChar c → decode_from between_chars start start (encode_char c ++ bs) ≡ text (c ∷ s)
  unfolding encode_char
  decode-encode_char valid = elim (Bool-cases (ltb c 0x80)) [
    | inl e ↦ rw e (one_byte (ground arith))
    | inr e ↦ elim (Bool-cases (ltb c 0x800)) [
      | inl f ↦ rw (e, f) (two_bytes (ground arith) (ground arith))
      | inr f ↦ elim (Bool-cases (ltb c 0x10000)) [
        | inl g ↦ rw (e, f, g) (three_bytes_of_char (ground arith) (ground arith) valid)
        | inr g ↦ rw (e, f, g) (four_bytes_of_char (ground arith) valid)
      ]
    ]
  ]

as_bytes-Decodes : (s : Text) → IsText s → Decodes (as_bytes s) s
unfolding as_bytes
as_bytes-Decodes [] h n = unfold decode_from in refl
as_bytes-Decodes (c ∷ s) (hc, hs) n =
    decode-encode_char c n (as_bytes s) s (as_bytes-Decodes s hs) hc

-- `String::from_utf8` of the bytes of a text is the text.
pub from_utf8-as_bytes : (s : Text) → IsText s → from_utf8 (as_bytes s) ≡ text s
unfolding from_utf8
from_utf8-as_bytes s h = as_bytes-Decodes s h 0
