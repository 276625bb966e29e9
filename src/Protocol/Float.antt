-- ===== src/Protocol/Float.antt =====
-- What the program uses of `f32` and `f64`. The numbers are the standard library's and are a
-- parameter: a type and the operations that the code calls.
use freematics_gui.Base.{ℕ, Bool, Option}
use freematics_gui.Text.{Text}

pub record Float (F : Type 0) : Type 0 where
  -- the literal n / 10, so 0.0 and 0.4 are `tenths 0` and `tenths 4`
  pub tenths : ℕ → F
  pub from_text : Text → Option F
  pub to_text : F → Text
  pub is_finite : F → Bool
  pub is_less : F → F → Bool
