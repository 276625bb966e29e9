-- ===== src/Protocol/Client/Keeps.antt =====
-- protocol/client.rs: predicates on the port that the reading loops keep.
use freematics_gui.Base.{
  ℕ, zero, suc, ◌++◌, ◌≡◌, [], ◌∷◌, Bool, is_empty, Bool-cases, inl, inr, ◌⊎◌, refl, leb,
}
use freematics_gui.Text.{Text, trim}
use freematics_gui.Text.Utf8.{Bytes, from_utf8, Decoded, text, invalid}
use freematics_gui.Protocol.Port.{Outcome, done, failed, spinning, IoError, and_then}
use freematics_gui.Protocol.Client.{
  SerialClient, read_bytes, read_line, read_until, is_terminator, is_pause, is_eof, end_of_data,
  decoded,
}
use freematics_gui.Protocol.Client.Lines.{Read-cases}

pub Outcome-cases :
    {E A : Type 0} (r : Outcome E A)
    → (r ≡ spinning) ⊎ (((e : E) × (r ≡ failed e)) ⊎ ((a : A) × (r ≡ done a)))
Outcome-cases spinning = inl refl
Outcome-cases (failed e) = inr (inl (e, refl))
Outcome-cases (done a) = inr (inr (a, refl))

module _ {S : Type 0} (c : SerialClient S) (P : S → Type 0)
    (at_read : (s : S) → P s → P (c.port.read s).1)
    (at_now : (s : S) → P s → P (c.port.now s).1) where
  end_of_data-keeps : (out : Bytes) (s : S) → P s → P (end_of_data out s).1
  end_of_data-keeps [] s h = h
  end_of_data-keeps (b ∷ out) s h = h

  pub read_bytes-keeps : (n : ℕ) (out : Bytes) (s : S) → P s → P (read_bytes c n out s).1
  unfolding read_bytes
  read_bytes-keeps zero out s h = h
  read_bytes-keeps (suc n) out s h = elim (Read-cases (c.port.read s).0) [
    | inl e ↦ rw (e, read_bytes) (end_of_data-keeps out (c.port.read s).1 (at_read s h))
    | inr (inl (x, e)) ↦
        rw (e, read_bytes)
          (elim (Bool-cases (is_pause x.kind)) [
            | inl p ↦ rw p (end_of_data-keeps out (c.port.read s).1 (at_read s h))
            | inr p ↦ rw p (at_read s h)
          ])
    | inr (inr (b, e)) ↦
        rw (e, read_bytes)
          (elim (Bool-cases (is_terminator b)) [
            | inl t ↦ rw t (elim (Bool-cases (is_empty out)) [
              | inl o ↦ rw o (read_bytes-keeps n out (c.port.read s).1 (at_read s h))
              | inr o ↦ rw o (at_read s h)
            ])
            | inr t ↦ rw t (read_bytes-keeps n (out ++ b ∷ []) (c.port.read s).1 (at_read s h))
          ])
  ]

  decoded-keeps : (d : Decoded) (s : S) → P s → P (decoded d s).1
  decoded-keeps (text l) s h = h
  decoded-keeps (invalid e) s h = h

  decode_step-keeps :
      (r : Outcome IoError Bytes × S) → P r.1 → P (and_then r (λ out. decoded (from_utf8 out))).1
  decode_step-keeps (done out, s) h = decoded-keeps (from_utf8 out) s h
  decode_step-keeps (failed e, s) h = h
  decode_step-keeps (spinning, s) h = h

  pub read_line-keeps : (s : S) → P s → P (read_line c s).1
  unfolding read_line
  read_line-keeps s h =
      decode_step-keeps (read_bytes c c.fuel [] s) (read_bytes-keeps c.fuel [] s h)

  pub read_until-keeps :
      (is_match : Text → Bool) (deadline n : ℕ) (s : S)
      → P s
      → P (read_until c is_match deadline n s).1
  unfolding read_until
  read_until-keeps is_match deadline zero s h = h
  read_until-keeps is_match deadline (suc n) s h =
      let s' : S = (c.port.now s).1 in
      let kept : P (read_line c s').1 = read_line-keeps s' (at_now s h) in
      elim (Bool-cases (leb deadline (c.port.now s).0)) [
        | inl late ↦ rw (late, read_until) (at_now s h)
        | inr early ↦ elim (Outcome-cases (read_line c s').0) [
          | inl e ↦ rw (early, read_until, e) kept
          | inr (inl (x, e)) ↦ elim (Bool-cases (is_eof x.kind)) [
            | inl q ↦
                rw (early, read_until, e, q)
                  (read_until-keeps is_match deadline n (read_line c s').1 kept)
            | inr q ↦ rw (early, read_until, e, q) kept
          ]
          | inr (inr (line, e)) ↦ elim (Bool-cases (is_match (trim line))) [
            | inl q ↦ rw (early, read_until, e, q) kept
            | inr q ↦
                rw (early, read_until, e, q)
                  (read_until-keeps is_match deadline n (read_line c s').1 kept)
          ]
        ]
      ]
