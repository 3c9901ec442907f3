-- ===== src/Frame/CommandSystem/Due.antt =====
-- A delayed command is received once its time has passed.
use mahjong_server.Common.{
  ℕ, zero, suc, ◌+◌, ◌<◌, ◌≡◌, ◌⊎◌, inl, inr, refl, subst, ap, sym, ◌∙◌, Bool, true, false, not,
  List, [], ◌∷◌, ◌++◌, Option, none, some, Bool-cases, if◌then◌else◌, length, get_or, set, All,
  arith,
}
use mahjong_server.Frame.Float.{Float, minus, not_positive, at_least_one}
use mahjong_server.Frame.CommandSystem.{
  Command, DelayCommand, Execution, CommandSystem, sync_command_buffer, push_command,
  push_execution, execute_at, execute_from, execute_due, update,
}
use mahjong_server.Frame.CommandSystem.Waiting.{
  In, In-left, In-right, Grows, undelayed, Holds, get_or-set_other, find_due, find_waiting, RunsOut,
  Lasts, left_of, RunsOut-Lasts, not_positive-true, not_positive-false,
}

module _ (receive_command : ℕ → Command → CommandSystem → CommandSystem) where
  abbrev pub update_all : List Float → CommandSystem → CommandSystem
  update_all [] s = s
  update_all (e ∷ es) s = update_all es (update receive_command e s)

module _ (receive_command : ℕ → Command → CommandSystem → CommandSystem)
    (grows : (r : ℕ) (cmd : Command) (s : CommandSystem) → Grows s (receive_command r cmd s))
    (same_places : (r : ℕ) (cmd : Command) (s : CommandSystem)
      → (receive_command r cmd s).execute_list ≡ s.execute_list) where
  record Pushed (s t : CommandSystem) : Type 0 where
    more : Grows s t
    places : t.execute_list ≡ s.execute_list

  Pushed-refl : (s : CommandSystem) → Pushed s s
  Pushed-refl s = record {
    more = record { process = refl; input = λ d h. h; received = λ x h. h };
    places = refl;
  }

  Pushed-if :
      (b : Bool) (s t u : CommandSystem) → Pushed s t → Pushed s u → Pushed s (if b then t else u)
  Pushed-if true s t u p q = p
  Pushed-if false s t u p q = q

  -- A valid command that is no delayed one is received.
  push_command-In :
      (cmd : Command) (r : ℕ) (s : CommandSystem)
      → cmd.valid ≡ true
      → In
          (r, undelayed cmd)
          (push_command receive_command (some (undelayed cmd)) (some r) s).received
  unfolding push_command
  push_command-In cmd r s valid =
      subst
        (λ v.
          let c : Command = record {
            assign_id = cmd.assign_id;
            valid = v;
            delay_command = false;
          } in
          In (r, c) (push_command receive_command (some c) (some r) s).received)
        (sym valid)
        (let c : Command = record {
          assign_id = cmd.assign_id;
          valid = true;
          delay_command = false;
        } in
          let here = record s { received = s.received ++ ((r, c) ∷ []) } in
          (grows r c here).received (r, c) (In-right (r, c) s.received ((r, c) ∷ []) (inl refl)))

  push_command-Pushed :
      (cmd : Command) (r : Option ℕ) (s : CommandSystem)
      → Pushed s (push_command receive_command (some cmd) r s)
  unfolding push_command
  push_command-Pushed cmd none s = Pushed-refl s
  push_command-Pushed cmd (some r) s =
      let here = record s { received = s.received ++ ((r, cmd) ∷ []) } in
      let g = grows r cmd here in
      Pushed-if (not cmd.valid) s s _ (Pushed-refl s) (
        Pushed-if cmd.delay_command s s _ (Pushed-refl s) (record {
          more = record {
            process = g.process;
            input = g.input;
            received = λ x h. g.received x (In-left x s.received ((r, cmd) ∷ []) h);
          };
          places = same_places r cmd here;
        }))

  record Went (i : ℕ) (s t : CommandSystem) : Type 0 where
    more : Grows s t
    later : (j : ℕ) → i < j → get_or t.execute_list j none ≡ get_or s.execute_list j none

  push_execution-Went :
      (i : ℕ) (x : Option Execution) (s : CommandSystem)
      → Went i s (push_execution receive_command i x s)
  push_execution-Went i none s = record { more = (Pushed-refl s).more; later = λ j h. refl }
  push_execution-Went i (some x) s =
      let cmd = undelayed x.command in
      let y = some (record x { command = cmd; executing = true }) in
      let p =
        push_command-Pushed cmd x.receiver (record s { execute_list = set s.execute_list i y }) in
      record {
        more = record {
          process = p.more.process;
          input = p.more.input;
          received = p.more.received;
        };
        later = λ j h.
            ap (λ l. get_or l j none) p.places
            ∙ get_or-set_other s.execute_list i j y (λ e. absurd (omega arith));
      }

  execute_at-Went : (i : ℕ) (s : CommandSystem) → Went i s (execute_at receive_command i s)
  unfolding execute_at
  execute_at-Went i s =
      let pushed = push_execution receive_command i (get_or s.execute_list i none) s in
      let p = push_execution-Went i (get_or s.execute_list i none) s in
      record {
        more = record {
          process = p.more.process;
          input = p.more.input;
          received = p.more.received;
        };
        later = λ j h.
            get_or-set_other pushed.execute_list i j none (λ e. absurd (omega arith)) ∙ p.later j h;
      }

  execute_at-In :
      (i r : ℕ) (cmd : Command) (s : CommandSystem)
      → cmd.valid ≡ true
      → Holds s i r cmd
      → In (r, undelayed cmd) (execute_at receive_command i s).received
  unfolding execute_at
  execute_at-In i r cmd s valid holds =
      subst (λ x. In (r, undelayed cmd) (push_execution receive_command i x s).received) (sym holds)
        (push_command-In cmd r
          (record s {
            execute_list =
                set s.execute_list i
                  (some (record { command = undelayed cmd; receiver = some r; executing = true }));
          })
          valid)

  Grows-trans : (s t u : CommandSystem) → Grows s t → Grows t u → Grows s u
  Grows-trans s t u g h = record {
    process = h.process ∙ g.process;
    input = λ d a. h.input d (g.input d a);
    received = λ x a. h.received x (g.received x a);
  }

  execute_from-Grows :
      (left i : ℕ) (s : CommandSystem) → Grows s (execute_from receive_command left i s)
  unfolding execute_from
  execute_from-Grows zero i s = (Pushed-refl s).more
  execute_from-Grows (suc left) i s =
      let t = execute_at receive_command i s in
      Grows-trans s t (execute_from receive_command left (suc i) t) (execute_at-Went i s).more
        (execute_from-Grows left (suc i) t)

  -- Each place that is gone through has its command received.
  execute_from-In :
      (left i k r : ℕ) (cmd : Command) (s : CommandSystem)
      → k < left
      → cmd.valid ≡ true
      → Holds s (i + k) r cmd
      → In (r, undelayed cmd) (execute_from receive_command left i s).received
  unfolding execute_from
  execute_from-In zero i k r cmd s h valid holds = absurd (omega arith)
  execute_from-In (suc left) i zero r cmd s h valid holds =
      (execute_from-Grows left (suc i) (execute_at receive_command i s)).received (r, undelayed cmd)
        (execute_at-In i r cmd s valid (subst (λ j. Holds s j r cmd) (omega arith) holds))
  execute_from-In (suc left) i (suc k) r cmd s h valid holds =
      execute_from-In left (suc i) k r cmd (execute_at receive_command i s) (omega arith) valid (
        (execute_at-Went i s).later (suc i + k) (omega arith)
        ∙ subst (λ j. Holds s j r cmd) (omega arith) holds)

  abbrev Queued : DelayCommand → CommandSystem → Type 0
  Queued d s = In d (s.buffer_process ++ s.buffer_input)

  -- One update: what is due is received, what is not waits for less, and nothing received is lost.
  update-In :
      (elapsed_time : Float) (d : DelayCommand) (s : CommandSystem)
      → at_least_one elapsed_time ≡ false
      → d.command.valid ≡ true
      → Queued d s
      → not_positive (minus d.delay_time elapsed_time) ≡ true
      → In (d.receiver, undelayed d.command) (update receive_command elapsed_time s).received
  unfolding update sync_command_buffer
  update-In elapsed_time d s short valid queued now =
      let all = s.buffer_process ++ s.buffer_input in
      let ready = execute_due receive_command elapsed_time (sync_command_buffer s) in
      let place = find_due elapsed_time d all queued now in
      rw short (
        execute_from-In (length ready.execute_list) 0 place.0 d.receiver d.command ready place.1
          valid (subst (λ j. Holds ready j d.receiver d.command) (omega arith) place.2))

  update-Queued :
      (elapsed_time : Float) (d : DelayCommand) (s : CommandSystem)
      → at_least_one elapsed_time ≡ false
      → Queued d s
      → not_positive (minus d.delay_time elapsed_time) ≡ false
      → Queued
          (record d { delay_time = minus d.delay_time elapsed_time })
          (update receive_command elapsed_time s)
  unfolding update sync_command_buffer
  update-Queued elapsed_time d s short queued later =
      let all = s.buffer_process ++ s.buffer_input in
      let ready = execute_due receive_command elapsed_time (sync_command_buffer s) in
      let run = execute_from receive_command (length ready.execute_list) 0 ready in
      let less = record d { delay_time = minus d.delay_time elapsed_time } in
      rw short (
        In-left less run.buffer_process run.buffer_input (
          subst (In less) (sym (execute_from-Grows (length ready.execute_list) 0 ready).process)
            (find_waiting elapsed_time d all queued later)))

  update-received :
      (elapsed_time : Float) (x : ℕ × Command) (s : CommandSystem)
      → at_least_one elapsed_time ≡ false
      → In x s.received
      → In x (update receive_command elapsed_time s).received
  unfolding update sync_command_buffer
  update-received elapsed_time x s short h =
      let ready = execute_due receive_command elapsed_time (sync_command_buffer s) in
      rw short ((execute_from-Grows (length ready.execute_list) 0 ready).received x h)

  update_all-received :
      (es : List Float) (x : ℕ × Command) (s : CommandSystem)
      → All (λ t. at_least_one t ≡ false) es
      → In x s.received
      → In x (update_all receive_command es s).received
  update_all-received [] x s short h = h
  update_all-received (e ∷ es) x s (first, others) h =
      update_all-received es x (update receive_command e s) others (update-received e x s first h)

  -- After updates either the delay has run out and the command is received, or it waits on.
  update_all-cases :
      (es : List Float) (d : DelayCommand) (s : CommandSystem)
      → All (λ t. at_least_one t ≡ false) es
      → d.command.valid ≡ true
      → In d (s.buffer_process ++ s.buffer_input)
      → (RunsOut d.delay_time es
          × In (d.receiver, undelayed d.command) (update_all receive_command es s).received)
        ⊎ (Lasts d.delay_time es
            × In
                (record d { delay_time = left_of d.delay_time es })
                ((update_all receive_command es s).buffer_process
                  ++ (update_all receive_command es s).buffer_input))
  update_all-cases [] d s short valid queued = inr (tt, queued)
  update_all-cases (e ∷ es) d s (first, others) valid queued =
      elim (Bool-cases (not_positive (minus d.delay_time e))) [
        | inl now ↦ inl (
          inl (not_positive-true (minus d.delay_time e) now),
          update_all-received es (d.receiver, undelayed d.command) (update receive_command e s)
              others (update-In e d s first valid queued now),
        )
        | inr later ↦
            elim (update_all-cases es (record d { delay_time = minus d.delay_time e })
              (update receive_command e s) others valid (update-Queued e d s first queued later)) [
                | inl (out, received) ↦ inl (inr out, received)
                | inr (lasts, waits) ↦
                    inr ((not_positive-false (minus d.delay_time e) later, lasts), waits)
              ]
      ]

  -- A valid command waits for its receiver, and receivers, when they receive commands, push others
  -- but interrupt none and destroy no receiver. After updates, each shorter than a second, in the
  -- course of which its delay runs out, as the rounded subtractions of floats give it, it has been
  -- received.
  pub update-due :
      (es : List Float) (d : DelayCommand) (s : CommandSystem)
      → All (λ t. at_least_one t ≡ false) es
      → d.command.valid ≡ true
      → In d (s.buffer_process ++ s.buffer_input)
      → RunsOut d.delay_time es
      → In (d.receiver, undelayed d.command) (update_all receive_command es s).received
  update-due es d s short valid queued out = elim (update_all-cases es d s short valid queued) [
    | inl (r, received) ↦ received
    | inr (lasts, waits) ↦ absurd (RunsOut-Lasts d.delay_time es out lasts)
  ]

  -- A valid command waits for its receiver, and receivers, when they receive commands, push others
  -- but interrupt none and destroy no receiver. After updates, each shorter than a second, that leave
  -- a part of its delay, each of them, it waits still, for the part that is left in the end.
  pub update-early :
      (es : List Float) (d : DelayCommand) (s : CommandSystem)
      → All (λ t. at_least_one t ≡ false) es
      → d.command.valid ≡ true
      → In d (s.buffer_process ++ s.buffer_input)
      → Lasts d.delay_time es
      → In
          (record d { delay_time = left_of d.delay_time es })
          ((update_all receive_command es s).buffer_process
            ++ (update_all receive_command es s).buffer_input)
  update-early es d s short valid queued lasts = elim (update_all-cases es d s short valid queued) [
    | inl (out, received) ↦ absurd (RunsOut-Lasts d.delay_time es out lasts)
    | inr (l, waits) ↦ waits
  ]
