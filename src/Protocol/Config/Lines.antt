-- ===== src/Protocol/Config/Lines.antt =====
-- protocol/types.rs: what one line of a dump does.
use freematics_gui.Base.{
  ℕ, ◌≡◌, ◌≢◌, refl, false, List, [], ◌∷◌, ◌++◌, none, some, All, arith, is_empty,
}
use freematics_gui.Text.{Text, trim, split_once, is_whitespace, Lacks}
use freematics_gui.Text.Clean.{IsSolid, trim-IsSolid}
use freematics_gui.Text.Trim.{trim_line, split_once-append}
use freematics_gui.Protocol.Float.{Float}
use freematics_gui.Protocol.Config.{
  DeviceConfig, Field, cell_apn, keys, field_of, assign_if, apply_line,
}

-- A key is not empty, and holds neither white space nor `=`.
abbrev pub IsKeyChar : ℕ → Type 0
IsKeyChar c = (is_whitespace c ≡ false) × (c ≢ b'=')

abbrev pub IsKey : Text → Type 0
IsKey [] = ⊥
IsKey (c ∷ k) = IsKeyChar c × All IsKeyChar k

IsKey-IsSolid : (k : Text) → All IsKeyChar k → IsSolid k
IsKey-IsSolid [] h = tt
IsKey-IsSolid (c ∷ k) ((hc, _), hk) = (hc, IsKey-IsSolid k hk)

pub IsKey-Lacks : (k : Text) → All IsKeyChar k → Lacks b'=' k
IsKey-Lacks [] h = tt
IsKey-Lacks (c ∷ k) ((_, hc), hk) = (hc, IsKey-Lacks k hk)

pub IsKey-All : (k : Text) → IsKey k → All IsKeyChar k
IsKey-All (c ∷ k) h = h
IsKey-All [] h = absurd h

-- A pair as the line that `CFG_DUMP` and the tests of the program write it.
unfoldable pub line_of : Text × Text → Text
line_of (k, v) = k ++ b'=' ∷ v

trim-line_of : (k v : Text) → IsKey k → trim v ≡ v → trim (line_of (k, v)) ≡ line_of (k, v)
unfolding line_of
trim-line_of [] v h e = absurd h
trim-line_of (c ∷ k) v h e = trim_line c b'=' k v h.0.0 (unfold is_whitespace in refl) e

split_once-line_of : (k v : Text) → IsKey k → split_once b'=' (line_of (k, v)) ≡ some (k, v)
unfolding line_of
split_once-line_of k v h = split_once-append b'=' k v (IsKey-Lacks k (IsKey-All k h))

is_empty-line_of : (k v : Text) → is_empty (line_of (k, v)) ≡ false
unfolding line_of
is_empty-line_of [] v = refl
is_empty-line_of (c ∷ k) v = refl

module _ {F : Type 0} (fl : Float F) where
  -- A line `key=value`, its value trimmed, does what the arm of its key does.
  pub apply_line-line_of :
      (k v : Text) (cfg : DeviceConfig F)
      → IsKey k
      → trim v ≡ v
      → apply_line fl (line_of (k, v)) cfg ≡ assign_if fl (field_of k) v cfg
  unfolding apply_line
  apply_line-line_of k v cfg h e = rw (
    trim-line_of k v h e,
    is_empty-line_of k v,
    split_once-line_of k v h,
    trim-IsSolid k (IsKey-IsSolid k (IsKey-All k h)),
    e,
  )

  -- A line with no `=` changes nothing, whatever else it holds.
  pub apply_line-chatter :
      (l : Text) (cfg : DeviceConfig F)
      → split_once b'=' (trim l) ≡ none
      → apply_line fl l cfg ≡ cfg
  unfolding apply_line
  apply_line-chatter l cfg h = ground arith

  -- Nor does a line whose key is none of the program's.
  pub apply_line-unknown :
      (l k v : Text) (cfg : DeviceConfig F)
      → split_once b'=' (trim l) ≡ some (k, v)
      → field_of (trim k) ≡ none
      → apply_line fl l cfg ≡ cfg
  unfolding apply_line
  apply_line-unknown l k v cfg h e = ground arith

-- The keys of the program are keys, and each selects its own arm: no key stands in two arms.
keys-IsKey : (f : Field) → All IsKey (keys f)
unfolding is_whitespace
keys-IsKey cell_apn = ground arith
keys-IsKey _ = ground arith

pub field_of-keys : (f : Field) → All (λ k. field_of k ≡ some f) (keys f)
unfolding field_of
field_of-keys cell_apn = ground arith
field_of-keys _ = ground arith

-- The key that `to_set_commands` writes.
abbrev first : List Text → Text
first [] = []
first (k ∷ ks) = k

abbrev pub first_key : Field → Text
first_key f = first (keys f)

pub first_key-IsKey : (f : Field) → IsKey (first_key f)
unfolding is_whitespace
first_key-IsKey cell_apn = ground arith
first_key-IsKey _ = ground arith

pub field_of-first_key : (f : Field) → field_of (first_key f) ≡ some f
unfolding field_of
field_of-first_key cell_apn = refl
field_of-first_key _ = refl
