-- ===== src/Commands/Flashing/Failed.antt =====
-- commands.rs, `flash_firmware_cmd`: what is emitted when it fails.
use freematics_gui.Base.{◌≡◌, ◌⊎◌, List, [], ◌∷◌, ◌++◌}
use freematics_gui.Base.Result.{Result}
use freematics_gui.Text.{Text, codes}
use freematics_gui.Files.{Files}
use freematics_gui.Commands.Flashing.{FlashProgressEvent, Emitting}

-- The world and the events after a failure with a reason: both are as before, or the last event says
-- why, at 0 percent.
abbrev pub TellsWhy : {W : Type 0} → Text → Emitting W → Emitting W → Type 0
TellsWhy reason (w, es) (w', es') =
    ((w' ≡ w) × (es' ≡ es))
    ⊎ ((new : List FlashProgressEvent) × (es'
          ≡ es ++ (new ++ record { percentage = 0; stage = codes "error: " ++ reason } ∷ [])))
