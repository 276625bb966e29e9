-- ===== src/Commands/Flashing/Events.antt =====
-- commands.rs: the progress events that the interface is shown.
use freematics_gui.Base.{
  ℕ, ◌≤◌, ◌<◌, ◌≡◌, refl, sym, ◌∙◌, ◌++◌, append_assoc, Bool, inl, inr, List, [], ◌∷◌, map, arith,
  Bool-cases, ◌==◌, ==_iff,
}
use mathlib.Core.Path.{subst}
use freematics_gui.Flash.Native.{
  Call, init, update, verifying, finish, Progress, call, calls, fresh, percent,
}
use freematics_gui.Flash.Native.Percent.{percent_le, percent_mono}
use freematics_gui.Commands.Flashing.{FlashProgressEvent, progress_events}

-- No number is below the one before it, the first not below the given one.
abbrev pub IsNonDecreasing : ℕ → List ℕ → Type 0
IsNonDecreasing low [] = Unit
IsNonDecreasing low (n ∷ ns) = (low ≤ n) × IsNonDecreasing n ns

-- Every number is above the one before it, the first above the given one.
abbrev pub IsIncreasing : ℕ → List ℕ → Type 0
IsIncreasing low [] = Unit
IsIncreasing low (n ∷ ns) = (low < n) × IsIncreasing n ns

abbrev pub percentages : List FlashProgressEvent → List ℕ
percentages = map (λ (e : FlashProgressEvent). e.percentage)

-- A flasher that never goes back is shown as strictly increasing percentages above 0: none is shown
-- twice.
pub progress_events-IsIncreasing :
    (last_pct : ℕ) (pcts : List ℕ)
    → IsNonDecreasing last_pct pcts
    → IsIncreasing last_pct (percentages (progress_events last_pct pcts))
unfolding progress_events
progress_events-IsIncreasing last_pct [] h = tt
progress_events-IsIncreasing last_pct (pct ∷ pcts) (h, hs) = elim (Bool-cases (pct == last_pct)) [
  | inl e ↦ rw e (
      subst (λ low. IsIncreasing low (percentages (progress_events pct pcts)))
        ((==_iff pct last_pct).0 e) (progress_events-IsIncreasing pct pcts hs))
  | inr n ↦ rw n (ground arith, progress_events-IsIncreasing pct pcts hs)
]

IsNonDecreasing-zero : (low : ℕ) (ns : List ℕ) → IsNonDecreasing low ns → IsNonDecreasing 0 ns
IsNonDecreasing-zero low [] h = tt
IsNonDecreasing-zero low (n ∷ ns) (h, hs) = (omega arith, hs)

-- The calls of a flasher that writes an image in order.
abbrev pub flash_calls : ℕ → ℕ → List ℕ → Bool → List Call
flash_calls addr total currents skipped =
    init addr total ∷ (map update currents ++ verifying ∷ finish skipped ∷ [])

-- After the bytes of `low`, an orderly rest reports percentages that do not decrease.
updates-IsNonDecreasing :
    (p : Progress) (low : ℕ) (currents : List ℕ) (skipped : Bool)
    → IsNonDecreasing low currents
    → (ns : List ℕ) × ((calls p (map update currents ++ verifying ∷ finish skipped ∷ [])).reported
        ≡ p.reported ++ ns)
      × IsNonDecreasing (percent p.total low) ns
unfolding calls call
updates-IsNonDecreasing p low [] skipped h = (100 ∷ [], refl, (percent_le p.total low, tt))
updates-IsNonDecreasing p low (c ∷ cs) skipped (h, hs) =
    let pct : ℕ = percent p.total c in
    let (ns, e, k) = updates-IsNonDecreasing (call p (update c)) c cs skipped hs in
    (pct ∷ ns, e ∙ append_assoc p.reported (pct ∷ []) ns, (percent_mono p.total low c h, k))

-- A flash that writes its image in order, from first to last byte, is shown as strictly increasing
-- percentages above 0, whatever the sizes of the image and of its blocks are.
pub flash-IsIncreasing :
    (addr total : ℕ) (currents : List ℕ) (skipped : Bool)
    → IsNonDecreasing 0 currents
    → IsIncreasing 0 (
        percentages
          (progress_events 0 (calls fresh (flash_calls addr total currents skipped)).reported))
unfolding calls call
flash-IsIncreasing addr total currents skipped h =
    let (ns, e, k) =
      updates-IsNonDecreasing (record { total = total; reported = 0 ∷ [] }) 0 currents skipped h in
    progress_events-IsIncreasing 0 _
      (subst (IsNonDecreasing 0) (sym e) (omega arith, IsNonDecreasing-zero (percent total 0) ns k))
