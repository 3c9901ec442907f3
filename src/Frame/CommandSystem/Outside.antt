-- ===== src/Frame/CommandSystem/Outside.antt =====
-- What is done to the command system from outside, and a receiver that is absent from it.
use mahjong_server.Common.{
  ℕ, ◌≡◌, ◌≢◌, refl, ◌∙◌, Bool, true, false, not, List, [], ◌∷◌, ◌++◌, Option, none, some,
  if◌then◌else◌, map, All, All-append, arith,
}
use mahjong_server.Common.Int.{ℤ, pos, negsuc}
use mahjong_server.Frame.Float.{Float}
use mahjong_server.Frame.CommandSystem.{
  Command, DelayCommand, Execution, CommandSystem, sync_command_buffer, push_delay_command,
  erase_id, find_id, give_back, interrupt_command, without, commands_of, forget_receiver, forget_in,
  notify_receiver_destroied, push_command, update,
}
use mahjong_server.Frame.CommandSystem.Absent.{
  erase_id-NotFor, heard, NotFor, NotAt, Absent, Silent,
}

pub Silent-refl : (receiver : ℕ) (s : CommandSystem) → Absent receiver s → Silent receiver s s
Silent-refl receiver s a = record { absent = a; same = refl }

pub Silent-after :
    (receiver : ℕ) (s t u : CommandSystem)
    → Silent receiver s t
    → (Absent receiver t → Silent receiver t u)
    → Silent receiver s u
Silent-after receiver s t u first later =
    let second_part = later first.absent in
    record { absent = second_part.absent; same = second_part.same ∙ first.same }

pub Silent-if :
    (receiver : ℕ) (b : Bool) (s t u : CommandSystem)
    → Silent receiver s t
    → Silent receiver s u
    → Silent receiver s (if b then t else u)
Silent-if receiver true s t u first second_part = first
Silent-if receiver false s t u first second_part = second_part

-- What is done to the system from outside while the receiver is gone: nothing is pushed to it.
pub data Event : Type 0 where
  pushed : Option Command → ℕ → Event
  delayed : Option Command → ℕ → Float → Event
  updated : Float → Event
  interrupted : ℤ → Event
  destroied : ℕ → Event

abbrev pub NotTo : ℕ → Event → Type 0
NotTo receiver (Event.pushed cmd r) = r ≢ receiver
NotTo receiver (Event.delayed cmd r delay) = r ≢ receiver
NotTo receiver (Event.updated elapsed_time) = Unit
NotTo receiver (Event.interrupted id) = Unit
NotTo receiver (Event.destroied r) = Unit

unfoldable pub happen :
    (ℕ → Command → CommandSystem → CommandSystem) → Event → CommandSystem → CommandSystem
unfolding push_command push_delay_command update interrupt_command notify_receiver_destroied
happen receive_command (Event.pushed cmd r) s = push_command receive_command cmd (some r) s
happen receive_command (Event.delayed cmd r delay) s = push_delay_command cmd (some r) delay s
happen receive_command (Event.updated elapsed_time) s = update receive_command elapsed_time s
happen receive_command (Event.interrupted id) s = (interrupt_command id s).1
happen receive_command (Event.destroied r) s = notify_receiver_destroied r s

abbrev pub happen_all :
    (ℕ → Command → CommandSystem → CommandSystem) → List Event → CommandSystem → CommandSystem
happen_all receive_command [] s = s
happen_all receive_command (e ∷ es) s = happen_all receive_command es (happen receive_command e s)

without_other :
    (receiver r : ℕ) (ds : List DelayCommand)
    → All (NotFor receiver) ds
    → All (NotFor receiver) (without r ds)
without_other receiver r [] a = tt
without_other receiver r (d ∷ ds) (first, others) =
    ground (arith, without_other receiver r ds others)

forget_receiver_other :
    (receiver r : ℕ) (q : Option ℕ) → q ≢ some receiver → forget_receiver r q ≢ some receiver
forget_receiver_other receiver r none ne e = ne e
forget_receiver_other receiver r (some q) ne e = ground arith

forget_other :
    (receiver r : ℕ) (l : List (Option Execution))
    → All (NotAt receiver) l
    → All (NotAt receiver) (map (forget_in r) l)
forget_other receiver r [] a = tt
forget_other receiver r (none ∷ l) (first, others) = (tt, forget_other receiver r l others)
forget_other receiver r (some x ∷ l) (first, others) =
    (if_other x.executing, forget_other receiver r l others)
  where
    if_other :
        (b : Bool)
        → (if b then x else record x { receiver = forget_receiver r x.receiver }).receiver
          ≢ some receiver
    if_other true = first
    if_other false = forget_receiver_other receiver r x.receiver first

pub notify_other :
    (receiver r : ℕ) (s : CommandSystem)
    → Absent receiver s
    → Silent receiver s (notify_receiver_destroied r s)
unfolding notify_receiver_destroied sync_command_buffer
notify_other receiver r s a =
    let all = s.buffer_process ++ s.buffer_input in
    Silent-if receiver s.system_destroy s s
      (record (sync_command_buffer s) {
        given_back = s.given_back ++ commands_of r all;
        buffer_process = without r all;
        execute_list = map (forget_in r) s.execute_list;
      })
      (Silent-refl receiver s a)
      (record {
        absent = record {
          process =
              without_other receiver r all
                (All-append (NotFor receiver) s.buffer_process s.buffer_input a.process a.input);
          input = tt;
          executions = forget_other receiver r s.execute_list a.executions;
        };
        same = refl;
      })

pub interrupt_Silent :
    (receiver : ℕ) (id : ℤ) (s : CommandSystem)
    → Absent receiver s
    → Silent receiver s (interrupt_command id s).1
unfolding interrupt_command sync_command_buffer
interrupt_Silent receiver (negsuc n) s a = Silent-refl receiver s a
interrupt_Silent receiver (pos id) s a =
    let all = s.buffer_process ++ s.buffer_input in
    let rest = record s { buffer_process = erase_id id all; buffer_input = [] } in
    let kept : Absent receiver rest = record {
      process =
          erase_id-NotFor receiver id all
            (All-append (NotFor receiver) s.buffer_process s.buffer_input a.process a.input);
      input = tt;
      executions = a.executions;
    } in
    by_cases s.system_destroy rest (find_id id all) kept refl
  where
    by_cases :
        (b : Bool) (rest : CommandSystem) (found : Option Command)
        → Absent receiver rest
        → heard receiver rest.received ≡ heard receiver s.received
        → Silent receiver s (if b then (true, s) else give_back found rest).1
    by_cases true rest found kept e = Silent-refl receiver s a
    by_cases false rest none kept e = record { absent = kept; same = e }
    by_cases false rest (some cmd) kept e = record {
      absent = record { process = kept.process; input = kept.input; executions = kept.executions };
      same = e;
    }

pub push_delay_Silent :
    (receiver : ℕ) (cmd : Option Command) (r : ℕ) (delay : Float) (s : CommandSystem)
    → r ≢ receiver
    → Absent receiver s
    → Silent receiver s (push_delay_command cmd (some r) delay s)
unfolding push_delay_command
push_delay_Silent receiver none r delay s ne a = Silent-refl receiver s a
push_delay_Silent receiver (some cmd) r delay s ne a =
    Silent-if receiver (not cmd.valid) s s _ (Silent-refl receiver s a) (
      Silent-if receiver (not cmd.delay_command) s s _ (Silent-refl receiver s a) (record {
        absent = record {
          process = a.process;
          input = All-append (NotFor receiver) s.buffer_input (_ ∷ []) a.input (ne, tt);
          executions = a.executions;
        };
        same = refl;
      }))
