-- ===== src/Frame/CommandSystem/Absent.antt =====
-- Command lists in which a receiver does not occur, and what keeps it so.
use mahjong_server.Common.{
  ℕ, zero, suc, ◌+◌, ◌≡◌, ◌≢◌, refl, subst, ap, sym, Bool, true, false, List, [], ◌∷◌, ◌++◌, Option,
  none, some, ◌==◌, if◌then◌else◌, get_or, set, map, All, arith,
}
use mahjong_server.Frame.Float.{Float}
use mahjong_server.Frame.CommandSystem.{
  Command, DelayCommand, Execution, CommandSystem, sync_command_buffer, due, still_waiting,
  to_execute, erase_id, without, commands_of, forget_receiver, forget_in, notify_receiver_destroied,
}

-- How many commands the receiver has received.
abbrev pub heard : ℕ → List (ℕ × Command) → ℕ
heard receiver [] = 0
heard receiver ((r, cmd) ∷ l) = (if r == receiver then 1 else 0) + heard receiver l

abbrev pub NotFor : ℕ → DelayCommand → Type 0
NotFor receiver d = d.receiver ≢ receiver

abbrev pub NotAt : ℕ → Option Execution → Type 0
NotAt receiver none = Unit
NotAt receiver (some x) = x.receiver ≢ some receiver

-- Nothing that waits or is executed is for the receiver.
pub record Absent (receiver : ℕ) (s : CommandSystem) : Type 0 where
  pub process : All (NotFor receiver) s.buffer_process
  pub input : All (NotFor receiver) s.buffer_input
  pub executions : All (NotAt receiver) s.execute_list

-- The receiver is absent still, and has heard no more.
pub record Silent (receiver : ℕ) (s t : CommandSystem) : Type 0 where
  pub absent : Absent receiver t
  pub same : heard receiver t.received ≡ heard receiver s.received

pub heard-append :
    (receiver : ℕ) (l m : List (ℕ × Command))
    → heard receiver (l ++ m) ≡ heard receiver l + heard receiver m
heard-append receiver [] m = omega arith
heard-append receiver ((r, cmd) ∷ l) m = omega (arith, heard-append receiver l m)

pub without-NotFor :
    (receiver : ℕ) (ds : List DelayCommand) → All (NotFor receiver) (without receiver ds)
without-NotFor receiver [] = tt
without-NotFor receiver (d ∷ ds) = ground (arith, without-NotFor receiver ds)

pub still_waiting-NotFor :
    (receiver : ℕ) (elapsed_time : Float) (ds : List DelayCommand)
    → All (NotFor receiver) ds
    → All (NotFor receiver) (still_waiting elapsed_time ds)
still_waiting-NotFor receiver elapsed_time [] a = tt
still_waiting-NotFor receiver elapsed_time (d ∷ ds) (first, others) =
    ground (arith, still_waiting-NotFor receiver elapsed_time ds others)

pub erase_id-NotFor :
    (receiver id : ℕ) (ds : List DelayCommand)
    → All (NotFor receiver) ds
    → All (NotFor receiver) (erase_id id ds)
erase_id-NotFor receiver id [] a = tt
erase_id-NotFor receiver id (d ∷ ds) (first, others) =
    ground (arith, erase_id-NotFor receiver id ds others)

pub due-NotAt :
    (receiver : ℕ) (elapsed_time : Float) (ds : List DelayCommand)
    → All (NotFor receiver) ds
    → All (NotAt receiver) (to_execute (due elapsed_time ds))
due-NotAt receiver elapsed_time [] a = tt
due-NotAt receiver elapsed_time (d ∷ ds) (first, others) =
    ground (arith, due-NotAt receiver elapsed_time ds others)

pub set-NotAt :
    (receiver i : ℕ) (l : List (Option Execution)) (x : Option Execution)
    → All (NotAt receiver) l
    → NotAt receiver x
    → All (NotAt receiver) (set l i x)
set-NotAt receiver i [] x a h = tt
set-NotAt receiver zero (y ∷ l) x (first, others) h = (h, others)
set-NotAt receiver (suc i) (y ∷ l) x (first, others) h = (first, set-NotAt receiver i l x others h)

pub get_or-NotAt :
    (receiver i : ℕ) (l : List (Option Execution))
    → All (NotAt receiver) l
    → NotAt receiver (get_or l i none)
get_or-NotAt receiver i [] a = tt
get_or-NotAt receiver zero (y ∷ l) (first, others) = first
get_or-NotAt receiver (suc i) (y ∷ l) (first, others) = get_or-NotAt receiver i l others

pub forget_receiver-ne : (receiver : ℕ) (r : Option ℕ) → forget_receiver receiver r ≢ some receiver
forget_receiver-ne receiver none e = ground arith
forget_receiver-ne receiver (some r) e = ground arith

pub forget_in-NotAt :
    (receiver : ℕ) (command : Command) (r : Option ℕ) (executing : Bool)
    → executing ≡ false
    → NotAt receiver (
        forget_in receiver
          (some (record { command = command; receiver = r; executing = executing })))
forget_in-NotAt receiver command r true e h = ground arith
forget_in-NotAt receiver command r false e h = forget_receiver-ne receiver r h

abbrev pub Idle : Option Execution → Type 0
Idle none = Unit
Idle (some x) = x.executing ≡ false

pub forget-NotAt :
    (receiver : ℕ) (l : List (Option Execution))
    → All Idle l
    → All (NotAt receiver) (map (forget_in receiver) l)
forget-NotAt receiver [] a = tt
forget-NotAt receiver (none ∷ l) (first, others) = (tt, forget-NotAt receiver l others)
forget-NotAt receiver (some x ∷ l) (first, others) = (
  forget_in-NotAt receiver x.command x.receiver x.executing first,
  forget-NotAt receiver l others,
)

pub notify-Absent :
    (receiver : ℕ) (s : CommandSystem)
    → s.system_destroy ≡ false
    → All Idle s.execute_list
    → Silent receiver s (notify_receiver_destroied receiver s)
unfolding notify_receiver_destroied sync_command_buffer
notify-Absent receiver s alive idle =
    let done = record (sync_command_buffer s) {
      given_back = s.given_back ++ commands_of receiver (s.buffer_process ++ s.buffer_input);
      buffer_process = without receiver (s.buffer_process ++ s.buffer_input);
      execute_list = map (forget_in receiver) s.execute_list;
    } in
    subst (Silent receiver s) (sym (ap (λ b. if b then s else done) alive)) (record {
      absent = record {
        process = without-NotFor receiver (s.buffer_process ++ s.buffer_input);
        input = tt;
        executions = forget-NotAt receiver s.execute_list idle;
      };
      same = refl;
    })
