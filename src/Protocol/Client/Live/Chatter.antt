-- ===== src/Protocol/Client/Live/Chatter.antt =====
-- protocol/client.rs, `is_status_noise`: which lines are the firmware's own prints.
use freematics_gui.Base.{
  ◌==◌, ==_iff, ==_refl, ◌≡◌, ◌↔◌, ◌⊎◌, inl, inr, refl, ap, ◌∙◌, Bool, true, false, ◌||◌,
  Bool-cases, is_empty, [], ◌∷◌, ◌++◌, arith,
}
use freematics_gui.Text.{Text, codes, starts_with, contains}
use freematics_gui.Protocol.Client.Live.{is_status_noise}

-- The text is somewhere in the other.
abbrev pub Holds : Text → Text → Type 0
Holds p s = (a : Text) × (b : Text) × (s ≡ a ++ (p ++ b))

-- A line that is no reading: it is empty, begins with a bracket, or holds a colon or three dots.
abbrev pub IsChatter : Text → Type 0
IsChatter s =
    (s ≡ [])
    ⊎ (((rest : Text) × (s ≡ b'[' ∷ rest))
        ⊎ (Holds (b':' ∷ []) s ⊎ Holds (b'.' ∷ b'.' ∷ b'.' ∷ []) s))

starts_with_sound : (s p : Text) → starts_with s p ≡ true → (b : Text) × (s ≡ p ++ b)
unfolding starts_with
starts_with_sound s [] h = (s, refl)
starts_with_sound [] (c ∷ p) h = cc
starts_with_sound (d ∷ s) (c ∷ p) h =
    let same : (d == c) ≡ true = ground arith in
    let (b, e) = starts_with_sound s p (ground arith) in
    let equal : d ≡ c = (==_iff d c).0 same in (b, ap (λ x. x ∷ s) equal ∙ ap (λ l. c ∷ l) e)

starts_with-append : (p b : Text) → starts_with (p ++ b) p ≡ true
unfolding starts_with
starts_with-append [] b = refl
starts_with-append (c ∷ p) b = rw (==_refl c, starts_with-append p b) refl

contains_sound : (s p : Text) → contains s p ≡ true → Holds p s
unfolding contains
contains_sound [] [] h = ([], [], refl)
contains_sound [] (c ∷ p) h = cc
contains_sound (d ∷ s) p h = elim (Bool-cases (starts_with (d ∷ s) p)) [
  | inl e ↦ let (b, same) = starts_with_sound (d ∷ s) p e in ([], b, same)
  | inr e ↦
      let later : contains s p ≡ true = ground arith in
      let (a, b, same) = contains_sound s p later in (d ∷ a, b, ap (λ l. d ∷ l) same)
]

contains-append : (a p b : Text) → contains (a ++ (p ++ b)) p ≡ true
unfolding contains starts_with
contains-append [] [] [] = refl
contains-append [] [] (c ∷ b) = refl
contains-append [] (c ∷ p) b = rw (==_refl c, starts_with-append p b) refl
contains-append (d ∷ a) p b = rw (contains-append a p b) (ground arith)

is_empty_sound : (s : Text) → is_empty s ≡ true → s ≡ []
is_empty_sound [] h = refl
is_empty_sound (c ∷ s) h = cc

or-cases : (a b : Bool) → (a || b) ≡ true → (a ≡ true) ⊎ (b ≡ true)
or-cases true b h = inl refl
or-cases false b h = inr h

noise_sound : (s : Text) → is_status_noise s ≡ true → IsChatter s
unfolding is_status_noise
noise_sound s h = elim (or-cases _ _ h) [
  | inr dots ↦ inr (inr (inr (contains_sound s (codes "...") dots)))
  | inl h' ↦ elim (or-cases _ _ h') [
    | inr colon ↦ inr (inr (inl (contains_sound s (codes ":") colon)))
    | inl h'' ↦ elim (or-cases _ _ h'') [
      | inr bracket ↦ inr (inl (starts_with_sound s (codes "[") bracket))
      | inl none ↦ inl (is_empty_sound s none)
    ]
  ]
]

noise_complete : (s : Text) → IsChatter s → is_status_noise s ≡ true
unfolding is_status_noise
noise_complete s (inl e) = rw e refl
noise_complete s (inr (inl (rest, e))) = rw e (unfold starts_with in ground arith)
noise_complete s (inr (inr (inl (a, b, e)))) =
    let found : contains s (codes ":") ≡ true = rw e (contains-append a (codes ":") b) in
    ground arith
noise_complete s (inr (inr (inr (a, b, e)))) =
    let found : contains s (codes "...") ≡ true = rw e (contains-append a (codes "...") b) in
    ground arith

-- Exactly the chatter is taken for it.
pub is_status_noise_iff : (s : Text) → (is_status_noise s ≡ true) ↔ IsChatter s
is_status_noise_iff s = (noise_sound s, noise_complete s)
