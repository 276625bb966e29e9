-- ===== src/Startup.antt =====
-- main.rs: the environment that the program prepares on Linux before its window is opened. The
-- environment of a process is a function: `none` where `var` gives an error.
use freematics_gui.Base.{
  ◌≡◌, refl, Option, some, get_or, if◌then◌else◌, List, [], ◌∷◌, Bool-cases, inl, inr,
}
use freematics_gui.Text.{Text, codes, text_eq, eq_of_text_eq}
use freematics_gui.Protocol.Modes.{one_of}

abbrev pub Environment : Type 0
Environment = Text → Option Text

abbrev pub set_var : Text → Text → Environment → Environment
set_var key val env name = if text_eq name key then some val else env name

-- `if var(key).is_err() { set_var(key, val) }`
abbrev set_default : Text → Text → Environment → Environment
set_default key val env name = if text_eq name key then some (get_or (env key) val) else env name

-- The closure of `call_once`, which runs once, at the start.
unfoldable pub prepare_env : Environment → Environment
prepare_env env = set_default (codes "GDK_BACKEND") (codes "x11") (
    set_default (codes "LIBGL_ALWAYS_SOFTWARE") (codes "1") (
      set_var (codes "WEBKIT_DISABLE_COMPOSITING_MODE") (codes "1")
        (set_var (codes "WEBKIT_DISABLE_DMABUF_RENDERER") (codes "1") env)))

-- The variables that are set whatever their value.
abbrev pub forced : List Text
forced = codes "WEBKIT_DISABLE_DMABUF_RENDERER" ∷ codes "WEBKIT_DISABLE_COMPOSITING_MODE" ∷ []

-- Those that are set where the user has no value for them.
abbrev pub defaulted : Text → Option Text → Option Text
defaulted name o =
    if text_eq name (codes "GDK_BACKEND")
    then some (get_or o (codes "x11"))
    else if text_eq name (codes "LIBGL_ALWAYS_SOFTWARE")
    then some (get_or o (codes "1"))
    else o

-- The environment that the program runs in: software rendering without the two paths of WebKit, and
-- for the driver and the backend the user's own choice, or "1" and "x11" where there is none. Every
-- other variable is as it was.
pub prepare_env-lookup :
    (env : Environment) (name : Text)
    → prepare_env env name
      ≡ (if one_of name forced then some (codes "1") else defaulted name (env name))
unfolding prepare_env text_eq
prepare_env-lookup env name =
    elim (Bool-cases (text_eq name (codes "WEBKIT_DISABLE_DMABUF_RENDERER"))) [
      | inl e ↦ rw (eq_of_text_eq name (codes "WEBKIT_DISABLE_DMABUF_RENDERER") e) refl
      | inr a ↦ elim (Bool-cases (text_eq name (codes "WEBKIT_DISABLE_COMPOSITING_MODE"))) [
        | inl e ↦ rw (eq_of_text_eq name (codes "WEBKIT_DISABLE_COMPOSITING_MODE") e) refl
        | inr b ↦ elim (Bool-cases (text_eq name (codes "LIBGL_ALWAYS_SOFTWARE"))) [
          | inl e ↦ rw (eq_of_text_eq name (codes "LIBGL_ALWAYS_SOFTWARE") e) refl
          | inr c ↦ elim (Bool-cases (text_eq name (codes "GDK_BACKEND"))) [
            | inl e ↦ rw (eq_of_text_eq name (codes "GDK_BACKEND") e) refl
            | inr d ↦ rw (a, b, c, d) refl
          ]
        ]
      ]
    ]
