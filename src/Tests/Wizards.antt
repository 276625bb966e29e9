-- ===== src/Tests/Wizards.antt =====
-- The wizard, used by hand.
use freematics_gui.Base.{◌+◌, ◌≡◌, ◌≢◌, refl, true, false, not, ◌||◌, is_empty, [], ◌∷◌, arith}
use freematics_gui.Text.{Text, codes}
use freematics_gui.Web.Wizard.{
  restore, importing, exporting, loading_info, Wizard, start, run_backup, run_flash, next_warning,
  export_succeeded,
}
use freematics_gui.Web.Wizard.Steps.{
  acknowledge, press_next, press_flash, exported, Reach, here, later, without,
}
use freematics_gui.Web.Wizard.Ready.{flashes-once}
use freematics_gui.Web.Wizard.Late.{place_picked-late}

abbrev place : Text
place = codes "a.json"

abbrev ready : Wizard
ready = record (start place) { acknowledged = true }

-- The backup is saved.
abbrev backed_up : Wizard
backed_up = export_succeeded 1 place (without (loading_info ∷ []) (next_warning false ready))

abbrev under_way : Wizard
under_way = run_flash backed_up

Reach-backed_up : Reach false (start place) backed_up
unfolding next_warning run_backup export_succeeded
Reach-backed_up =
    later (later (later here (acknowledge true refl refl)) (press_next refl refl refl refl))
      (exported [] (loading_info ∷ []) 1 place refl)

Reach-under_way : Reach false (start place) under_way
unfolding next_warning run_backup export_succeeded
Reach-under_way = later Reach-backed_up (press_flash refl refl refl)

under_way-ne-zero : under_way.flashes ≢ 0
unfolding next_warning run_backup export_succeeded
under_way-ne-zero = ground arith

flashes-once_example :
    (under_way.flashes ≡ 1)
    × (under_way.acknowledged ≡ true)
    × ((under_way.backup_skipped || not (is_empty under_way.saved)) ≡ true)
flashes-once_example = flashes-once false place under_way Reach-under_way under_way-ne-zero

place_picked-late_example :
    (t : Wizard) × Reach false backed_up t
    × (t.step ≡ restore)
    × (t.pending
        ≡ importing (codes "b.json")
          ∷ exporting (backed_up.gen + 1) (codes "b.json")
          ∷ backed_up.pending)
    × (t.saved ≡ backed_up.saved)
unfolding next_warning run_backup export_succeeded
place_picked-late_example =
    place_picked-late false place (codes "b.json") backed_up Reach-backed_up refl refl refl refl
