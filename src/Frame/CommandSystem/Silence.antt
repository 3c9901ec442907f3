-- ===== src/Frame/CommandSystem/Silence.antt =====
-- After a receiver was destroyed no command reaches it any more.
use mahjong_server.Common.{
  ℕ, zero, suc, ◌≡◌, ◌≢◌, refl, ap, ◌∙◌, true, false, not, List, [], ◌∷◌, ◌++◌, Option, none, some,
  ==-false, length, get_or, set, All, All-append, arith,
}
use mahjong_server.Frame.Float.{Float, at_least_one}
use mahjong_server.Frame.CommandSystem.{
  Command, Execution, CommandSystem, sync_command_buffer, notify_receiver_destroied, push_command,
  push_execution, execute_at, execute_from, execute_due, update,
}
use mahjong_server.Frame.CommandSystem.Absent.{
  heard-append, still_waiting-NotFor, due-NotAt, set-NotAt, get_or-NotAt, notify-Absent, heard,
  NotFor, NotAt, Idle, Absent, Silent,
}
use mahjong_server.Frame.CommandSystem.Outside.{
  Silent-refl, Silent-after, Silent-if, Event, NotTo, happen, happen_all, notify_other,
  interrupt_Silent, push_delay_Silent,
}

module _ (receiver : ℕ) (receive_command : ℕ → Command → CommandSystem → CommandSystem)
    (quiet : (r : ℕ) (cmd : Command) (s : CommandSystem)
      → r ≢ receiver
      → Absent receiver s
      → Silent receiver s (receive_command r cmd s)) where
  push_command-Silent :
      (cmd : Command) (r : ℕ) (s : CommandSystem)
      → r ≢ receiver
      → Absent receiver s
      → Silent receiver s (push_command receive_command (some cmd) (some r) s)
  unfolding push_command
  push_command-Silent cmd r s ne a =
      let here = record s { received = s.received ++ ((r, cmd) ∷ []) } in
      let after =
        quiet r cmd here ne
          (record { process = a.process; input = a.input; executions = a.executions }) in
      let told : heard receiver here.received ≡ heard receiver s.received =
        heard-append receiver s.received ((r, cmd) ∷ []) ∙ ground (arith, ==-false r receiver ne) in
      Silent-if receiver (not cmd.valid) s s _ (Silent-refl receiver s a) (
        Silent-if receiver cmd.delay_command s s _ (Silent-refl receiver s a) (record {
          absent = record {
            process = after.absent.process;
            input = after.absent.input;
            executions = after.absent.executions;
          };
          same = after.same ∙ told;
        }))

  push_execution-Silent :
      (i : ℕ) (x : Option Execution) (s : CommandSystem)
      → NotAt receiver x
      → Absent receiver s
      → Silent receiver s (push_execution receive_command i x s)
  unfolding push_command
  push_execution-Silent i none s h a = Silent-refl receiver s a
  push_execution-Silent i (some x) s h a =
      let cmd = record x.command { delay_command = false } in
      let marked = record s {
        execute_list = set s.execute_list i (some (record x { command = cmd; executing = true }));
      } in
      let kept : Absent receiver marked = record {
        process = a.process;
        input = a.input;
        executions =
            set-NotAt receiver i s.execute_list
              (some (record x { command = cmd; executing = true })) a.executions h;
      } in
      by_receiver x.receiver cmd marked h kept refl
    where
      by_receiver :
          (r : Option ℕ) (cmd : Command) (marked : CommandSystem)
          → r ≢ some receiver
          → Absent receiver marked
          → heard receiver marked.received ≡ heard receiver s.received
          → Silent receiver s (push_command receive_command (some cmd) r marked)
      by_receiver none cmd marked ne kept e = record { absent = kept; same = e }
      by_receiver (some r) cmd marked ne kept e =
          let pushed = push_command-Silent cmd r marked (λ same. ne (ap some same)) kept in
          record { absent = pushed.absent; same = pushed.same ∙ e }

  execute_at-Silent :
      (i : ℕ) (s : CommandSystem)
      → Absent receiver s
      → Silent receiver s (execute_at receive_command i s)
  unfolding execute_at
  execute_at-Silent i s a =
      let x = get_or s.execute_list i none in
      let done = push_execution receive_command i x s in
      let pushed =
        push_execution-Silent i x s (get_or-NotAt receiver i s.execute_list a.executions) a in
      record {
        absent = record {
          process = pushed.absent.process;
          input = pushed.absent.input;
          executions = set-NotAt receiver i done.execute_list none pushed.absent.executions tt;
        };
        same = pushed.same;
      }

  execute_from-Silent :
      (left i : ℕ) (s : CommandSystem)
      → Absent receiver s
      → Silent receiver s (execute_from receive_command left i s)
  unfolding execute_from
  execute_from-Silent zero i s a = Silent-refl receiver s a
  execute_from-Silent (suc left) i s a =
      Silent-after receiver s (execute_at receive_command i s) _ (execute_at-Silent i s a)
        (execute_from-Silent left (suc i) (execute_at receive_command i s))

  update-Silent :
      (elapsed_time : Float) (s : CommandSystem)
      → Absent receiver s
      → Silent receiver s (update receive_command elapsed_time s)
  unfolding update sync_command_buffer
  update-Silent elapsed_time s a =
      let synced = sync_command_buffer s in
      let ready = execute_due receive_command elapsed_time synced in
      let all = s.buffer_process ++ s.buffer_input in
      let none_for : All (NotFor receiver) all =
        All-append (NotFor receiver) s.buffer_process s.buffer_input a.process a.input in
      let kept : Absent receiver ready = record {
        process = still_waiting-NotFor receiver elapsed_time all none_for;
        input = tt;
        executions = due-NotAt receiver elapsed_time all none_for;
      } in
      let run = execute_from-Silent (length ready.execute_list) 0 ready kept in
      Silent-if receiver (at_least_one elapsed_time) s synced _
        (record {
          absent = record { process = none_for; input = tt; executions = a.executions };
          same = refl;
        })
        (record {
          absent = record {
            process = run.absent.process;
            input = run.absent.input;
            executions = tt;
          };
          same = run.same;
        })

  happen-Silent :
      (e : Event) (s : CommandSystem)
      → NotTo receiver e
      → Absent receiver s
      → Silent receiver s (happen receive_command e s)
  unfolding happen push_command
  happen-Silent (Event.pushed none r) s ne a = Silent-refl receiver s a
  happen-Silent (Event.pushed (some cmd) r) s ne a = push_command-Silent cmd r s ne a
  happen-Silent (Event.delayed cmd r delay) s ne a = push_delay_Silent receiver cmd r delay s ne a
  happen-Silent (Event.updated elapsed_time) s ne a = update-Silent elapsed_time s a
  happen-Silent (Event.interrupted id) s ne a = interrupt_Silent receiver id s a
  happen-Silent (Event.destroied r) s ne a = notify_other receiver r s a

  happen_all-Silent :
      (es : List Event) (s : CommandSystem)
      → All (NotTo receiver) es
      → Absent receiver s
      → Silent receiver s (happen_all receive_command es s)
  happen_all-Silent [] s ne a = Silent-refl receiver s a
  happen_all-Silent (e ∷ es) s (first, others) a =
      Silent-after receiver s (happen receive_command e s) _ (happen-Silent e s first a)
        (happen_all-Silent es (happen receive_command e s) others)

  -- A receiver is destroyed while no command is being executed and the system is not destroyed.
  -- However commands are then pushed to others, at once or delayed, commands are interrupted, other
  -- receivers destroyed and the system updated, it receives no command any more, also none that it
  -- was to receive before. What the other receivers do on a command keeps nothing for it either.
  pub notify_receiver_destroied_lem :
      (es : List Event) (s : CommandSystem)
      → s.system_destroy ≡ false
      → All Idle s.execute_list
      → All (NotTo receiver) es
      → heard receiver
          (happen_all receive_command es (notify_receiver_destroied receiver s)).received
        ≡ heard receiver s.received
  notify_receiver_destroied_lem es s alive idle ne =
      (Silent-after receiver s (notify_receiver_destroied receiver s) _
        (notify-Absent receiver s alive idle)
        (happen_all-Silent es (notify_receiver_destroied receiver s) ne)).same
