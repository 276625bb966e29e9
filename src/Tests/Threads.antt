-- ===== src/Tests/Threads.antt =====
-- Threads that share the lock, at concrete sessions: each adds one to the world and gives what it
-- found; thread 2 panics after its access.
use freematics_gui.Base.{ℕ, ◌+◌, ◌==◌, if◌then◌else◌, ◌≡◌, ◌≢◌, refl, true, [], ◌∷◌, arith}
use freematics_gui.Protocol.Port.{Outcome, done, spinning}
use freematics_gui.Text.{Text}
use freematics_gui.Commands.Threads.{
  Work, finish, crash, access, returned, Process, Step, acquire, work, release, panic, Reach, here,
  later, start, in_turn, run,
}
use freematics_gui.Commands.Threads.Order.{mutual_exclusion, sessions_in_turn}
use freematics_gui.Commands.Threads.Progress.{CanEnd, threads-CanEnd, poisoned_for_good}

abbrev last_of : ℕ → ℕ → Work ℕ ℕ
last_of i w = if i == 2 then crash else finish (done w)

abbrev works : ℕ → Work ℕ ℕ
works i = access (λ w. w + 1) (last_of i)

done-ne-spinning : (n : ℕ) → ◌≢◌ {A = Outcome Text ℕ} (done n) spinning
done-ne-spinning n e = cc

-- A state with the way to it.
abbrev Reached : Type 0
Reached = (p : Process ℕ ℕ) × Reach (start works 5) p

abbrev then_step : (r : Reached) {q : Process ℕ ℕ} → Step r.0 q → Reached
then_step r s = (_, later r.1 s)

abbrev at_start : Reached
at_start = (start works 5, here)

abbrev first_in : Reached
first_in = then_step at_start (acquire 1 _ refl refl refl)

abbrev first_out : Reached
first_out = then_step (then_step first_in (work 1 _ _ refl)) (release 1 _ (done-ne-spinning _) refl)

abbrev second_out : Reached
second_out =
    then_step (then_step (then_step first_out (acquire 0 _ refl refl refl)) (work 0 _ _ refl))
      (release 0 _ (done-ne-spinning _) refl)

abbrev after_panic : Reached
after_panic =
    then_step (then_step (then_step first_out (acquire 2 _ refl refl refl)) (work 2 _ _ refl))
      (panic 2 refl)

mutual_exclusion_example : ◌≡◌ {A = ℕ} 1 1
mutual_exclusion_example =
    mutual_exclusion works 5 first_in.0 first_in.1 1 1 (works 1) (works 1) refl refl

sessions_in_turn_example :
    in_turn works (1 ∷ 0 ∷ []) 5 ≡ ((1, returned (done 5)) ∷ (0, returned (done 6)) ∷ [], 7)
sessions_in_turn_example = sessions_in_turn works 5 second_out.0 second_out.1 refl

works_end : (j v : ℕ) → (run (works j) v).0 ≢ returned spinning
unfolding run
works_end j v = ground arith

threads-CanEnd_example : CanEnd after_panic.0 3
threads-CanEnd_example = threads-CanEnd works 5 after_panic.0 works_end after_panic.1 3

poisoned_for_good_example : (after_panic.0.world ≡ 7) × (after_panic.0.poisoned ≡ true)
poisoned_for_good_example =
    poisoned_for_good works 5 after_panic.0 after_panic.0 after_panic.1 refl here
