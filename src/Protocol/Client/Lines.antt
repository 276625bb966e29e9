-- ===== src/Protocol/Client/Lines.antt =====
-- protocol/client.rs: what `read_line` returns, and when it returns.
use freematics_gui.Base.{
  ℕ, zero, suc, ◌<◌, ◌≡◌, ◌≢◌, refl, ap, ◌∙◌, true, false, [], ◌∷◌, ◌++◌, append_assoc, append-nil,
  All, length, is_empty, arith, Bool-cases, inl, inr, ◌⊎◌,
}
use freematics_gui.Text.{Text}
use freematics_gui.Text.Utf8.{
  Bytes, as_bytes, from_utf8, text, invalid, IsText, Decoded, encode_char,
}
use freematics_gui.Text.Wire.{from_utf8-as_bytes}
use freematics_gui.Protocol.Port.{
  Read, byte, silent, broken, Port, Outcome, done, failed, spinning, IoError, and_then,
}
use freematics_gui.Protocol.Client.{
  SerialClient, read_bytes, read_line, is_terminator, decoded, end_of_data, is_pause,
}

module _ {S : Type 0} (port : Port S) where
  -- The port gives these bytes, one by one, and is then in state `t`.
  abbrev pub Delivers : Bytes → S → S → Type 0
  Delivers [] s t = s ≡ t
  Delivers (b ∷ bs) s t = ((port.read s).0 ≡ byte b) × Delivers bs (port.read s).1 t

  -- The port gives a line, with a carriage return or a line feed at its end.
  abbrev pub DeliversLine : Text → S → S → Type 0
  DeliversLine l s t = (e : ℕ) × (is_terminator e ≡ true) × Delivers (as_bytes l ++ e ∷ []) s t

  -- Within `n` reads one gives no byte: the device pauses, or the port fails.
  abbrev pub Pauses : ℕ → S → Type 0
  Pauses zero s = ⊥
  Pauses (suc n) s = ((b : ℕ) → (port.read s).0 ≡ byte b → Pauses n (port.read s).1)

-- No byte ends a line.
abbrev pub IsLineBody : Bytes → Type 0
IsLineBody = All (λ b. is_terminator b ≡ false)

encode_char-ne-nil : (c : ℕ) → encode_char c ≢ []
unfolding encode_char
encode_char-ne-nil c = ground arith

append-ne-nil : (xs ys : Bytes) → xs ≢ [] → is_empty (xs ++ ys) ≡ false
append-ne-nil [] ys h = absurd (h refl)
append-ne-nil (x ∷ xs) ys h = refl

pub is_empty-as_bytes : (l : Text) → l ≢ [] → is_empty (as_bytes l) ≡ false
unfolding as_bytes
is_empty-as_bytes [] h = absurd (h refl)
is_empty-as_bytes (c ∷ l) h = append-ne-nil (encode_char c) (as_bytes l) (encode_char-ne-nil c)

pub Read-cases :
    (r : Read) → (r ≡ silent) ⊎ (((e : IoError) × (r ≡ broken e)) ⊎ ((b : ℕ) × (r ≡ byte b)))
Read-cases silent = inl refl
Read-cases (broken e) = inr (inl (e, refl))
Read-cases (byte b) = inr (inr (b, refl))

end_of_data-returns : {S : Type 0} (out : Bytes) (s : S) → (end_of_data out s).0 ≢ spinning
end_of_data-returns [] s q = cc
end_of_data-returns (b ∷ out) s q = cc

decoded-returns : {S : Type 0} (d : Decoded) (s : S) → (decoded d s).0 ≢ spinning
decoded-returns (text l) s q = cc
decoded-returns (invalid e) s q = cc

decode_step-returns :
    {S : Type 0} (r : Outcome IoError Bytes × S)
    → r.0 ≢ spinning
    → (and_then r (λ out. decoded (from_utf8 out))).0 ≢ spinning
decode_step-returns (done out, s) h q = decoded-returns (from_utf8 out) s q
decode_step-returns (failed e, s) h q = cc
decode_step-returns (spinning, s) h q = h refl

module _ {S : Type 0} (c : SerialClient S) where
  read_bytes-line :
      (n : ℕ) (body out : Bytes) (e : ℕ) (s t : S)
      → length body < n
      → IsLineBody body
      → is_terminator e ≡ true
      → is_empty (out ++ body) ≡ false
      → Delivers c.port (body ++ e ∷ []) s t
      → read_bytes c n out s ≡ (done (out ++ body), t)
  unfolding read_bytes
  read_bytes-line zero body out e s t h b k o d = absurd (omega arith)
  read_bytes-line (suc n) [] out e s t h b k o (r, d) =
      rw (r, read_bytes, k, rw append-nil at o, append-nil) (ap (λ u. (done out, u)) d)
  read_bytes-line (suc n) (x ∷ body) out e s t h (bx, b) k o (r, d) =
      rw (r, read_bytes, bx)
        (read_bytes-line n body (out ++ x ∷ []) e (c.port.read s).1 t (omega arith) b k
            (rw append_assoc o) d
          ∙ ap (λ l. (done l, t)) (append_assoc out (x ∷ []) body))

  -- The next line of a device is returned as its text, without the terminator: a line that is not
  -- empty, spelled by the device in UTF-8, and shorter than the bound of the client.
  pub read_line-text :
      (l : Text) (e : ℕ) (s t : S)
      → IsText l
      → l ≢ []
      → IsLineBody (as_bytes l)
      → is_terminator e ≡ true
      → length (as_bytes l) < c.fuel
      → Delivers c.port (as_bytes l ++ e ∷ []) s t
      → read_line c s ≡ (done l, t)
  unfolding read_line
  read_line-text l e s t valid ne body k h d = rw (
    read_bytes-line c.fuel (as_bytes l) [] e s t h body k (is_empty-as_bytes l ne) d,
    from_utf8-as_bytes l valid,
  )

  -- A text that the client reads as one line: it is not empty, holds no line end, and is shorter
  -- than the bound.
  abbrev pub IsLine : Text → Type 0
  IsLine l = IsText l × (l ≢ []) × IsLineBody (as_bytes l) × (length (as_bytes l) < c.fuel)

  pub read_line-IsLine :
      (l : Text) (s t : S) → IsLine l → DeliversLine c.port l s t → read_line c s ≡ (done l, t)
  read_line-IsLine l s t (valid, full, body, short) (e, k, d) =
      read_line-text l e s t valid full body k short d

  read_bytes-Pauses :
      (n : ℕ) (out : Bytes) (s : S) → Pauses c.port n s → (read_bytes c n out s).0 ≢ spinning
  unfolding read_bytes
  read_bytes-Pauses zero out s h = absurd h
  read_bytes-Pauses (suc n) out s h = elim (Read-cases (c.port.read s).0) [
    | inl e ↦ rw (e, read_bytes) (end_of_data-returns out (c.port.read s).1)
    | inr (inl (x, e)) ↦
        rw (e, read_bytes)
          (elim (Bool-cases (is_pause x.kind)) [
            | inl p ↦ rw p (end_of_data-returns out (c.port.read s).1)
            | inr p ↦ rw p (λ q. cc)
          ])
    | inr (inr (b, e)) ↦
        rw (e, read_bytes)
          (elim (Bool-cases (is_terminator b)) [
            | inl t ↦ rw t (elim (Bool-cases (is_empty out)) [
              | inl o ↦ rw o (read_bytes-Pauses n out (c.port.read s).1 (h b e))
              | inr o ↦ rw o (λ q. cc)
            ])
            | inr t ↦ rw t (read_bytes-Pauses n (out ++ b ∷ []) (c.port.read s).1 (h b e))
          ])
  ]

  -- `read_line` returns, with a line or an error, on a device that pauses within as many bytes as
  -- the bound of the client.
  pub read_line-returns : (s : S) → Pauses c.port c.fuel s → (read_line c s).0 ≢ spinning
  unfolding read_line
  read_line-returns s h =
      decode_step-returns (read_bytes c c.fuel [] s) (read_bytes-Pauses c.fuel [] s h)
