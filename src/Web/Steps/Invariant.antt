-- ===== src/Web/Steps/Invariant.antt =====
-- src/main.ts: what the page shows fits what the store says, whatever happens.
use freematics_gui.Base.{Bool-cases, inl, inr, is_empty, Option, none, some, ◌≢◌, ◌++◌, refl, arith}
use freematics_gui.Text.{Text}
use freematics_gui.Web.{
  connect, disconnect, begin_setup, set_config, open_flash_wizard, close_flash_wizard,
}
use freematics_gui.Web.Shell.{
  refresh_answered, Shell, FlashWizardView, add_view, add_wizard, start, done, refresh_config,
  on_connect,
}
use freematics_gui.Web.Steps.Consistent.{
  IsKnown, IsConsistent, change-IsConsistent, on_close-IsConsistent, disconnected-IsKnown,
}
use freematics_gui.Web.Steps.Patch.{
  set_connecting_none, set_error_none, keep_config-port, keep_config-none, IsPatch-IsConsistent,
  same_views, same_page, waiting-IsConsistent,
}
use freematics_gui.Web.Steps.{
  Step, press_connect, press_refresh, press_set_up, press_disconnect, press_flash, press_apply,
  press_import, imported, import_failed, press_cancel, press_done, connected, refused, refreshed,
  applied, refresh_failed, apply_failed, restarting, Reach, here, later,
}

some-ne-none {ℓ} : {A : Type ℓ} (a : A) → some a ≢ none
some-ne-none a e = cc

module _ {C L : Type 0} where
  on_connect-IsConsistent :
      (port : Text) (s : Shell C L) → IsConsistent s → IsConsistent (on_connect port s)
  on_connect-IsConsistent port s c =
      IsPatch-IsConsistent (same_views s _ refl (set_connecting_none _ _) refl refl) c

  refresh_config-IsKnown :
      (o : Option Text) (s : Shell C L) → IsKnown s.state → IsKnown (refresh_config o s).state
  unfolding refresh_config
  refresh_config-IsKnown none s k = k
  refresh_config-IsKnown (some p) s k = elim (Bool-cases (is_empty p)) [
    | inl e ↦ rw e k
    | inr e ↦ rw e k
  ]

  done-IsConsistent :
      (w : FlashWizardView) (s : Shell C L) → IsConsistent s → IsConsistent (done w s)
  unfolding done
  done-IsConsistent w s c = elim (Bool-cases w.skip_backup) [
    | inl e ↦ rw e (
        on_connect-IsConsistent w.port _ (
          change-IsConsistent close_flash_wizard s
            (record { view = c.known.view; port = c.known.port; config = c.known.config })))
    | inr e ↦ rw e (
        on_close-IsConsistent (refresh_config s.state.port_path s)
          (refresh_config-IsKnown s.state.port_path s c.known))
  ]

  Step-IsConsistent : {s t : Shell C L} → Step s t → IsConsistent s → IsConsistent t
  unfolding refresh_answered
  Step-IsConsistent {s} (press_connect v port e) c = on_connect-IsConsistent port s c
  Step-IsConsistent {s} (press_refresh v e) c =
      IsPatch-IsConsistent (same_views s _ refl (set_error_none _ _) refl refl) c
  Step-IsConsistent {s} (press_set_up v port message e e') c =
      change-IsConsistent (begin_setup port) s (disconnected-IsKnown _ refl refl)
  Step-IsConsistent {s} (press_disconnect e) c =
      change-IsConsistent disconnect s (disconnected-IsKnown _ refl refl)
  Step-IsConsistent {s} (press_flash v e) c =
      change-IsConsistent (open_flash_wizard none) s
        (record { view = c.known.view; port = c.known.port; config = c.known.config })
  Step-IsConsistent {s} (press_apply v x e) c = waiting-IsConsistent s _ c
  Step-IsConsistent {s} (press_import v e) c = waiting-IsConsistent s _ c
  Step-IsConsistent {s} (press_cancel w e) c = on_close-IsConsistent s c.known
  Step-IsConsistent {s} (press_done w e) c = done-IsConsistent w s c
  Step-IsConsistent {s} (connected before after port x e) c =
      change-IsConsistent (connect port (some x)) (record s { pending = before ++ after })
        (record { view = refl; port = λ q. some-ne-none port; config = λ q. some-ne-none x })
  Step-IsConsistent {s} (refused before after port message e) c =
      IsPatch-IsConsistent
        (same_views s _ refl
          (
            (λ q. (set_connecting_none _ _).0 ((set_error_none _ _).0 q)),
            (λ q. (set_error_none _ _).1 ((set_connecting_none _ _).1 q)),
          )
          refl refl)
        c
  Step-IsConsistent {s} (refreshed before after port x e) c =
      change-IsConsistent (set_config x) (record s { pending = before ++ after })
        (record { view = c.known.view; port = c.known.port; config = λ q. some-ne-none x })
  Step-IsConsistent {s} (applied before after i port x e) c =
      IsPatch-IsConsistent
        (same_page s _ (some x) s.state.device_restarting refl (λ h q. cc) refl
          (keep_config-port i x s.dashboard_view) (keep_config-none i x s.dashboard_view) refl)
        c
  Step-IsConsistent {s} (imported before after i x e) c =
      IsPatch-IsConsistent
        (same_page s _ (some x) s.state.device_restarting refl (λ h q. cc) refl
          (λ v' q. (v', q, refl)) (λ q. q) refl)
        c
  Step-IsConsistent {s} (import_failed before after i x e) c = waiting-IsConsistent s _ c
  Step-IsConsistent {s} (refresh_failed before after port e) c = waiting-IsConsistent s _ c
  Step-IsConsistent {s} (apply_failed before after i port x e) c = waiting-IsConsistent s _ c
  Step-IsConsistent {s} (restarting b) c =
      IsPatch-IsConsistent
        (same_page s _ s.state.config b refl (λ h. h) refl (λ v' q. (v', q, refl)) (λ q. q) refl) c

  start-IsConsistent : IsConsistent (start {C = C} {L = L})
  unfolding add_wizard add_view
  start-IsConsistent = ground arith

  -- Whatever the user presses and whenever the answers come, from the start of the program on: the
  -- window is on the dashboard exactly if it is connected, and then has a port and a configuration. A
  -- connect view is there exactly if it is not connected; a dashboard only if it is, for the port of
  -- the store, and always if that port is not empty. A wizard is there only if the store has it open,
  -- for the port of the store, and skips the backup exactly if the window is not connected; it is
  -- always there if the store has it open and a port that is not empty.
  pub Reach-IsConsistent : {s : Shell C L} → Reach (start {C = C} {L = L}) s → IsConsistent s
  Reach-IsConsistent here = start-IsConsistent
  Reach-IsConsistent (later r st) = Step-IsConsistent st (Reach-IsConsistent r)
