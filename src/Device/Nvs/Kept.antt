-- ===== src/Device/Nvs/Kept.antt =====
-- firmware/overlay/configstore.cpp: what `load` finds after `save`.
use freematics_gui.Base.{
  ℕ, ◌^◌, ◌<◌, ◌≡◌, ◌≢◌, refl, ap, ◌∙◌, false, List, [], ◌∷◌, Option, none, some, All,
  if◌then◌else◌, length, Bool-cases, inl, inr,
}
use freematics_gui.Base.Int.{ℤ}
use freematics_gui.Text.{Text, text_eq, eq_of_text_eq, text_eq_refl, Lacks}
use freematics_gui.Text.Utf8.{Bytes}
use freematics_gui.Device.Settings.Sent.{IsI16}
use freematics_gui.Device.Nvs.{Nvs}

-- What an entry of the store holds.
pub data Item : Type 0 where
  str : Bytes → Item
  u8 : ℕ → Item
  i16 : ℤ → Item
  u16 : ℕ → Item

-- A string that the store takes: no byte is 0, and it is shorter than 4000 bytes.
abbrev pub IsStorable : Bytes → Type 0
IsStorable v = Lacks 0 v × (length v < 4000)

abbrev pub Accepted : Item → Type 0
Accepted (str v) = IsStorable v
Accepted (u8 v) = v < 2 ^ 8
Accepted (i16 v) = IsI16 v
Accepted (u16 v) = v < 2 ^ 16

abbrev pub as_str : Option Item → Option Bytes
as_str (some (str v)) = some v
as_str _ = none

abbrev pub as_u8 : Option Item → Option ℕ
as_u8 (some (u8 v)) = some v
as_u8 _ = none

abbrev pub as_i16 : Option Item → Option ℤ
as_i16 (some (i16 v)) = some v
as_i16 _ = none

abbrev pub as_u16 : Option Item → Option ℕ
as_u16 (some (u16 v)) = some v
as_u16 _ = none

module _ {N : Type 0} (nvs : Nvs N) where
  abbrev pub put : Text → Item → N → N
  put k (str v) = nvs.set_str k v
  put k (u8 v) = nvs.set_u8 k v
  put k (i16 v) = nvs.set_i16 k v
  put k (u16 v) = nvs.set_u16 k v

  -- A store with room: what was put under a key is found under it, and under it only.
  pub record Stores : Type 0 where
    pub at : Text → N → Option Item
    pub get_str_lem : (k : Text) (n : N) → nvs.get_str k n ≡ as_str (at k n)
    pub get_u8_lem : (k : Text) (n : N) → nvs.get_u8 k n ≡ as_u8 (at k n)
    pub get_i16_lem : (k : Text) (n : N) → nvs.get_i16 k n ≡ as_i16 (at k n)
    pub get_u16_lem : (k : Text) (n : N) → nvs.get_u16 k n ≡ as_u16 (at k n)
    pub found : (k : Text) (v : Item) (n : N) → Accepted v → at k (put k v n) ≡ some v
    pub elsewhere : (j k : Text) (v : Item) (n : N) → j ≢ k → at j (put k v n) ≡ at j n
    pub at-commit : (j : Text) (n : N) → at j (nvs.commit n) ≡ at j n

  module _ (stores : Stores) where
    unfoldable pub put_all : List (Text × Item) → N → N
    put_all [] n = n
    put_all ((k, v) ∷ rest) n = put_all rest (put k v n)

    unfoldable pub last_put : Text → List (Text × Item) → Option Item → Option Item
    unfolding text_eq
    last_put j [] o = o
    last_put j ((k, v) ∷ rest) o = last_put j rest (if text_eq j k then some v else o)

    at-put :
        (j k : Text) (v : Item) (n : N)
        → Accepted v
        → stores.at j (put k v n) ≡ (if text_eq j k then some v else stores.at j n)
    at-put j k v n h = elim (Bool-cases (text_eq j k)) [
      | inl e ↦ rw (e, eq_of_text_eq j k e) (stores.found k v n h)
      | inr e ↦ rw e (stores.elsewhere j k v n (differ j k e))
    ]
      where
        differ : (j k : Text) → text_eq j k ≡ false → j ≢ k
        differ j k e same = let equal : text_eq k k ≡ false = rw same at e in cc (text_eq_refl k)

    pub at-put_all :
        (j : Text) (items : List (Text × Item)) (n : N)
        → All (λ (p : Text × Item). Accepted p.1) items
        → stores.at j (put_all items n) ≡ last_put j items (stores.at j n)
    unfolding put_all last_put
    at-put_all j [] n h = refl
    at-put_all j ((k, v) ∷ rest) n (hv, hs) =
        at-put_all j rest (put k v n) hs ∙ ap (last_put j rest) (at-put j k v n hv)
