-- ===== src/Frame/CommandSystem.antt =====
-- Server/Frame/CommandSystem/CommandSystem.cpp: commands for receivers, at once or after a delay.
-- Times are floats, with their rounding. Receivers are numbers, NULL is none. What a receiver does
-- with a command, which may push further commands, interrupt some or destroy receivers, is a
-- parameter. Log lines, locks and callbacks are left out.
pub mod Absent
pub mod Outside
pub mod Silence
pub mod Waiting
pub mod Due
use mahjong_server.Common.{
  ℕ, zero, suc, Bool, true, false, not, List, [], ◌∷◌, ◌++◌, Option, none, some, ◌==◌,
  if◌then◌else◌, length, get_or, set, map,
}
use mahjong_server.Common.Int.{ℤ, pos, negsuc}
use mahjong_server.Frame.Float.{Float, minus, not_positive, at_least_one}

pub record Command : Type 0 where
  pub assign_id : ℕ
  pub valid : Bool
  pub delay_command : Bool

pub record DelayCommand : Type 0 where
  pub delay_time : Float
  pub command : Command
  pub receiver : ℕ

-- A place of the list of commands to execute; `executing` is set once the command is received.
pub record Execution : Type 0 where
  pub command : Command
  pub receiver : Option ℕ
  pub executing : Bool

-- `received` are the commands in the order in which they were received, `given_back` those that
-- returned to the pool.
pub record CommandSystem : Type 0 where
  pub buffer_process : List DelayCommand
  pub buffer_input : List DelayCommand
  pub execute_list : List (Option Execution)
  pub system_destroy : Bool
  pub received : List (ℕ × Command)
  pub given_back : List Command

abbrev pub destroy_cmd : Command → CommandSystem → CommandSystem
destroy_cmd cmd s = record s { given_back = s.given_back ++ (cmd ∷ []) }

unfoldable pub sync_command_buffer : CommandSystem → CommandSystem
sync_command_buffer s = record s {
  buffer_process = s.buffer_process ++ s.buffer_input;
  buffer_input = [];
}

abbrev pub delay_of : Float → Float
delay_of (pos delay) = pos delay
delay_of (negsuc delay) = pos 0

unfoldable pub push_delay_command :
    Option Command → Option ℕ → Float → CommandSystem → CommandSystem
push_delay_command none receiver delay_execute s = s
push_delay_command (some cmd) none delay_execute s = s
push_delay_command (some cmd) (some receiver) delay_execute s =
    if not cmd.valid then s else if not cmd.delay_command then s else record s {
      buffer_input =
          s.buffer_input
          ++ (record { delay_time = delay_of delay_execute; command = cmd; receiver = receiver }
              ∷ []);
    }

-- The first loop of `update`: what is due after that time, and what is left with less to wait.
abbrev pub due : Float → List DelayCommand → List DelayCommand
due elapsed_time [] = []
due elapsed_time (d ∷ ds) =
    if not_positive (minus d.delay_time elapsed_time)
    then d ∷ due elapsed_time ds
    else due elapsed_time ds

abbrev pub still_waiting : Float → List DelayCommand → List DelayCommand
still_waiting elapsed_time [] = []
still_waiting elapsed_time (d ∷ ds) =
    if not_positive (minus d.delay_time elapsed_time)
    then still_waiting elapsed_time ds
    else record d { delay_time = minus d.delay_time elapsed_time } ∷ still_waiting elapsed_time ds

abbrev pub to_execute : List DelayCommand → List (Option Execution)
to_execute [] = []
to_execute (d ∷ ds) =
    some (record { command = d.command; receiver = some d.receiver; executing = false })
    ∷ to_execute ds

abbrev pub erase_id : ℕ → List DelayCommand → List DelayCommand
erase_id id [] = []
erase_id id (d ∷ ds) = if d.command.assign_id == id then ds else d ∷ erase_id id ds

abbrev pub find_id : ℕ → List DelayCommand → Option Command
find_id id [] = none
find_id id (d ∷ ds) = if d.command.assign_id == id then some d.command else find_id id ds

abbrev pub give_back : Option Command → CommandSystem → Bool × CommandSystem
give_back none s = (false, s)
give_back (some cmd) s = (true, destroy_cmd cmd s)

-- A negative id is refused; a command that is being executed or about to be stays.
unfoldable pub interrupt_command : ℤ → CommandSystem → Bool × CommandSystem
unfolding sync_command_buffer
interrupt_command (negsuc n) s = (s.system_destroy, s)
interrupt_command (pos assign_id) s =
    let synced = sync_command_buffer s in
    if s.system_destroy
    then (true, s)
    else give_back (find_id assign_id synced.buffer_process)
        (record synced { buffer_process = erase_id assign_id synced.buffer_process })

abbrev pub commands_of : ℕ → List DelayCommand → List Command
commands_of receiver [] = []
commands_of receiver (d ∷ ds) =
    if d.receiver == receiver then d.command ∷ commands_of receiver ds else commands_of receiver ds

abbrev pub without : ℕ → List DelayCommand → List DelayCommand
without receiver [] = []
without receiver (d ∷ ds) =
    if d.receiver == receiver then without receiver ds else d ∷ without receiver ds

abbrev pub forget_receiver : ℕ → Option ℕ → Option ℕ
forget_receiver receiver none = none
forget_receiver receiver (some r) = if r == receiver then none else some r

-- Commands executed are gone from the list, and one being executed is left as it is.
abbrev pub forget_in : ℕ → Option Execution → Option Execution
forget_in receiver none = none
forget_in receiver (some x) =
    some (if x.executing then x else record x { receiver = forget_receiver receiver x.receiver })

unfoldable pub notify_receiver_destroied : ℕ → CommandSystem → CommandSystem
unfolding sync_command_buffer
notify_receiver_destroied receiver s =
    let synced = sync_command_buffer s in
    if s.system_destroy then s else record synced {
      given_back = s.given_back ++ commands_of receiver synced.buffer_process;
      buffer_process = without receiver synced.buffer_process;
      execute_list = map (forget_in receiver) s.execute_list;
    }

abbrev pub all_commands : List DelayCommand → List Command
all_commands [] = []
all_commands (d ∷ ds) = d.command ∷ all_commands ds

unfoldable pub destroy : CommandSystem → CommandSystem
unfolding sync_command_buffer
destroy s =
    let synced = sync_command_buffer s in
    record synced {
      given_back = s.given_back ++ all_commands synced.buffer_process;
      buffer_process = [];
      system_destroy = true;
    }

module _ (receive_command : ℕ → Command → CommandSystem → CommandSystem) where
  unfoldable pub push_command : Option Command → Option ℕ → CommandSystem → CommandSystem
  push_command none receiver s = s
  push_command (some cmd) none s = s
  push_command (some cmd) (some receiver) s =
      if not cmd.valid
      then s
      else if cmd.delay_command
      then s
      else destroy_cmd cmd (
          receive_command receiver cmd
            (record s { received = s.received ++ ((receiver, cmd) ∷ []) }))

  -- The command is no delayed one any more, and it is being executed while it is received.
  abbrev pub push_execution : ℕ → Option Execution → CommandSystem → CommandSystem
  push_execution i none s = s
  push_execution i (some x) s =
      let cmd = record x.command { delay_command = false } in
      push_command (some cmd) x.receiver (record s {
        execute_list = set s.execute_list i (some (record x { command = cmd; executing = true }));
      })

  -- One round of the second loop of `update`; the place is NULL after it.
  unfoldable pub execute_at : ℕ → CommandSystem → CommandSystem
  unfolding push_command
  execute_at i s =
      let pushed = push_execution i (get_or s.execute_list i none) s in
      record pushed { execute_list = set pushed.execute_list i none }

  unfoldable pub execute_from : ℕ → ℕ → CommandSystem → CommandSystem
  unfolding execute_at
  execute_from zero i s = s
  execute_from (suc left) i s = execute_from left (suc i) (execute_at i s)

  abbrev pub execute_due : Float → CommandSystem → CommandSystem
  execute_due elapsed_time s = record s {
    buffer_process = still_waiting elapsed_time s.buffer_process;
    execute_list = to_execute (due elapsed_time s.buffer_process);
  }

  unfoldable pub update : Float → CommandSystem → CommandSystem
  unfolding sync_command_buffer execute_from
  update elapsed_time s =
      let synced = sync_command_buffer s in
      let ready = execute_due elapsed_time synced in
      let done = execute_from (length ready.execute_list) 0 ready in
      if at_least_one elapsed_time then synced else record done { execute_list = [] }
