-- ===== src/Frame/CommandSystem/Waiting.antt =====
-- What is due and what waits further, and the places of the list of commands to execute.
use mahjong_server.Common.{
  ℕ, zero, suc, ◌<◌, ◌≡◌, ◌≢◌, ◌⊎◌, inl, inr, refl, ap, sym, true, false, List, [], ◌∷◌, ◌++◌,
  Option, none, some, Bool-cases, length, get_or, set, arith,
}
use mahjong_server.Common.Int.{pos, negsuc, pos_part}
use mahjong_server.Frame.Float.{Float, minus, not_positive}
use mahjong_server.Frame.CommandSystem.{
  Command, DelayCommand, Execution, CommandSystem, due, still_waiting, to_execute,
}

abbrev pub In : {A : Type 0} → A → List A → Type 0
In x [] = ⊥
In x (y ∷ l) = (x ≡ y) ⊎ In x l

pub In-left : {A : Type 0} (x : A) (l m : List A) → In x l → In x (l ++ m)
In-left x [] m h = absurd h
In-left x (y ∷ l) m (inl e) = inl e
In-left x (y ∷ l) m (inr h) = inr (In-left x l m h)

pub In-right : {A : Type 0} (x : A) (l m : List A) → In x m → In x (l ++ m)
In-right x [] m h = h
In-right x (y ∷ l) m h = inr (In-right x l m h)

-- What stays and what may come: nothing is taken back that was pushed or received.
pub record Grows (s t : CommandSystem) : Type 0 where
  pub process : t.buffer_process ≡ s.buffer_process
  pub input : (d : DelayCommand) → In d s.buffer_input → In d t.buffer_input
  pub received : (x : ℕ × Command) → In x s.received → In x t.received

-- The command as it is received: not a delayed one any more.
abbrev pub undelayed : Command → Command
undelayed cmd = record cmd { delay_command = false }

-- The place `i` of the list of commands to execute holds that command.
abbrev pub Holds : CommandSystem → ℕ → ℕ → Command → Type 0
Holds s i r cmd =
    get_or s.execute_list i none
    ≡ some (record { command = cmd; receiver = some r; executing = false })

pub get_or-set_other :
    (l : List (Option Execution)) (i j : ℕ) (x : Option Execution)
    → i ≢ j
    → get_or (set l i x) j none ≡ get_or l j none
get_or-set_other [] i j x ne = refl
get_or-set_other (y ∷ l) zero zero x ne = absurd (ne refl)
get_or-set_other (y ∷ l) zero (suc j) x ne = refl
get_or-set_other (y ∷ l) (suc i) zero x ne = refl
get_or-set_other (y ∷ l) (suc i) (suc j) x ne = get_or-set_other l i j x (λ e. ne (ap suc e))

pub find_due :
    (elapsed_time : Float) (d : DelayCommand) (ds : List DelayCommand)
    → In d ds
    → not_positive (minus d.delay_time elapsed_time) ≡ true
    → (j : ℕ) × (j < length (to_execute (due elapsed_time ds)))
      × (get_or (to_execute (due elapsed_time ds)) j none
          ≡ some (record { command = d.command; receiver = some d.receiver; executing = false }))
find_due elapsed_time d [] h now = absurd h
find_due elapsed_time d (x ∷ ds) (inl e) now = rw (sym e, now) (0, omega arith, refl)
find_due elapsed_time d (x ∷ ds) (inr h) now =
    elim (Bool-cases (not_positive (minus x.delay_time elapsed_time))) [
      | inl f ↦
          rw f (let r = find_due elapsed_time d ds h now in (suc r.0, omega (arith, r.1), r.2))
      | inr f ↦ rw f (find_due elapsed_time d ds h now)
    ]

pub find_waiting :
    (elapsed_time : Float) (d : DelayCommand) (ds : List DelayCommand)
    → In d ds
    → not_positive (minus d.delay_time elapsed_time) ≡ false
    → In (record d { delay_time = minus d.delay_time elapsed_time }) (still_waiting elapsed_time ds)
find_waiting elapsed_time d [] h later = absurd h
find_waiting elapsed_time d (x ∷ ds) (inl e) later = rw (sym e, later) (inl refl)
find_waiting elapsed_time d (x ∷ ds) (inr h) later =
    elim (Bool-cases (not_positive (minus x.delay_time elapsed_time))) [
      | inl f ↦ rw f (find_waiting elapsed_time d ds h later)
      | inr f ↦ rw f (inr (find_waiting elapsed_time d ds h later))
    ]

-- The delay runs out in the course of updates: after one of them what is left of it, each time
-- rounded, is not positive.
abbrev pub RunsOut : Float → List Float → Type 0
RunsOut delay [] = ⊥
RunsOut delay (e ∷ es) = (pos_part (minus delay e) ≡ 0) ⊎ RunsOut (minus delay e) es

-- What is left of a delay after updates, and that it was positive after each.
abbrev pub left_of : Float → List Float → Float
left_of delay [] = delay
left_of delay (e ∷ es) = left_of (minus delay e) es

abbrev pub Lasts : Float → List Float → Type 0
Lasts delay [] = Unit {0}
Lasts delay (e ∷ es) = (0 < pos_part (minus delay e)) × Lasts (minus delay e) es

pub not_positive-true : (f : Float) → not_positive f ≡ true → pos_part f ≡ 0
unfolding not_positive
not_positive-true (pos zero) h = refl
not_positive-true (pos (suc n)) h = absurd (cc)
not_positive-true (negsuc n) h = refl

pub not_positive-false : (f : Float) → not_positive f ≡ false → 0 < pos_part f
unfolding not_positive
not_positive-false (pos zero) h = absurd (cc)
not_positive-false (pos (suc n)) h = omega arith
not_positive-false (negsuc n) h = absurd (cc)

pub RunsOut-Lasts : (delay : Float) (es : List Float) → RunsOut delay es → Lasts delay es → ⊥
RunsOut-Lasts delay [] out lasts = out
RunsOut-Lasts delay (e ∷ es) (inl now) lasts = omega (arith, lasts.0)
RunsOut-Lasts delay (e ∷ es) (inr out) lasts = RunsOut-Lasts (minus delay e) es out lasts.1
