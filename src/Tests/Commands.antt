-- ===== src/Tests/Commands.antt =====
-- The command system at concrete commands.
use mahjong_server.Common.{
  ℕ, ◌*◌, ◌^◌, ◌≡◌, ◌≢◌, ◌++◌, inl, inr, refl, true, false, List, [], ◌∷◌, some, arith,
}
use mahjong_server.Common.Int.{pos, ◌-ℤ◌}
use mahjong_server.Frame.Float.{
  Float, digits_over, rounded, minus_rounded, round, minus, at_least_one,
}
use mahjong_server.Frame.CommandSystem.{
  Command, DelayCommand, CommandSystem, notify_receiver_destroied,
}
use mahjong_server.Frame.CommandSystem.Absent.{heard, Absent, Silent}
use mahjong_server.Frame.CommandSystem.Silence.{notify_receiver_destroied_lem}
use mahjong_server.Frame.CommandSystem.Outside.{Event, happen_all}
use mahjong_server.Frame.CommandSystem.Due.{update_all, update-due, update-early}
use mahjong_server.Frame.CommandSystem.Waiting.{In, Grows, undelayed, RunsOut, Lasts, left_of}

-- 0.1f, 0.3f and 0.9f, in the least unit.
abbrev tenth : Float
tenth = pos (13421773 * 2 ^ 122)

abbrev three_tenths : Float
three_tenths = pos (10066330 * 2 ^ 124)

abbrev nine_tenths : Float
nine_tenths = pos (15099494 * 2 ^ 125)

abbrev ready : ℕ → Command
ready id = record { assign_id = id; valid = true; delay_command = true }

abbrev waiting_for : ℕ → ℕ → Float → DelayCommand
waiting_for receiver id delay = record {
  delay_time = delay;
  command = ready id;
  receiver = receiver;
}

abbrev system : CommandSystem
system = record {
  buffer_process = waiting_for 1 7 tenth ∷ waiting_for 2 8 three_tenths ∷ [];
  buffer_input = waiting_for 1 9 (pos 0) ∷ [];
  execute_list = [];
  system_destroy = false;
  received = [];
  given_back = [];
}

-- Receivers that do nothing with a command.
abbrev nothing : ℕ → Command → CommandSystem → CommandSystem
nothing receiver cmd s = s

nothing-Silent :
    (r : ℕ) (cmd : Command) (s : CommandSystem) → r ≢ 1 → Absent 1 s → Silent 1 s (nothing r cmd s)
nothing-Silent r cmd s ne a = record { absent = a; same = refl }

nothing-Grows : (r : ℕ) (cmd : Command) (s : CommandSystem) → Grows s (nothing r cmd s)
nothing-Grows r cmd s = record { process = refl; input = λ d h. h; received = λ x h. h }

abbrev events : List Event
events =
    Event.delayed (some (ready 10)) 2 tenth
    ∷ Event.updated tenth
    ∷ Event.interrupted (pos 8)
    ∷ Event.updated nine_tenths
    ∷ []

notify_receiver_destroied_example :
    heard 1 (happen_all nothing events (notify_receiver_destroied 1 system)).received
    ≡ heard 1 system.received
notify_receiver_destroied_example =
    notify_receiver_destroied_lem 1 nothing nothing-Silent events system refl tt
      ((λ e. absurd (omega arith)), (tt, (tt, (tt, tt))))

abbrev tenths : List Float
tenths = tenth ∷ tenth ∷ tenth ∷ []

-- Three times 0.1f off 0.3f leaves more than nothing, 2 ^ -26.
left_of_three : minus (minus (minus three_tenths tenth) tenth) tenth ≡ pos (2 ^ 123)
unfolding minus ◌-ℤ◌ round rounded digits_over minus_rounded
left_of_three = refl

tenth-short : at_least_one tenth ≡ false
unfolding at_least_one
tenth-short = refl

three_tenths-Lasts : Lasts three_tenths tenths
unfolding minus ◌-ℤ◌ round rounded digits_over minus_rounded
three_tenths-Lasts = (omega arith, (omega arith, (omega arith, tt)))

-- The fourth update takes the rest.
three_tenths-RunsOut : RunsOut three_tenths (tenth ∷ tenths)
unfolding minus ◌-ℤ◌ round rounded digits_over minus_rounded
three_tenths-RunsOut = inr (inr (inr (inl refl)))

update-due_example :
    In (2, undelayed (ready 8)) (update_all nothing (tenth ∷ tenths) system).received
update-due_example =
    update-due nothing nothing-Grows (λ r cmd s. refl) (tenth ∷ tenths)
      (waiting_for 2 8 three_tenths) system
      (tenth-short, (tenth-short, (tenth-short, (tenth-short, tt)))) refl (inr (inl refl))
      three_tenths-RunsOut

update-early_example : In (waiting_for 2 8 (left_of three_tenths tenths)) (
    (update_all nothing tenths system).buffer_process
    ++ (update_all nothing tenths system).buffer_input)
update-early_example =
    update-early nothing nothing-Grows (λ r cmd s. refl) tenths (waiting_for 2 8 three_tenths)
      system (tenth-short, (tenth-short, (tenth-short, tt))) refl (inr (inl refl))
      three_tenths-Lasts
