-- ===== src/Tgdb/Run.antt =====
-- lib/tgdb/tgdb-base/tgdb.c: runs of tgdb.
use cgdb.Base.{
  ℕ, suc, ◌+◌, ◌≤◌, Bool, true, false, ◌&&◌, ◌||◌, not, List, [], ◌∷◌, length, if◌then◌else◌,
  Option, none, some, Bool-cases, inl, inr, ◌≡◌, refl, ap, arith, subst,
}
use cgdb.Tgdb.{
  Command, Client, Tgdb, is_console, can_issue_command, has_command_to_run, process_client_commands,
  process_command, try_command, deliver_first, deliver_next, unqueue_and_deliver_command,
  handle_signals, process_output, process, process_shown, process_read, gdb_quit, interrupt,
  child_ended,
}
use cgdb.Tgdb.Turn.{
  Event, requested, output, interrupted, ended, Waits, InTurn, deliver_lem, process_client_lem,
  process_request_lem, still,
}

module _ {S P : Type 0} (client : Client S P) where
  -- What tgdb does, and how many commands finish by it.
  abbrev pub step : Tgdb S P → Event → Tgdb S P
  step t (requested request) = (process_command client t request).1
  step t (output died input) = (process client t died input).0
  step t interrupted = interrupt client t
  step t ended = child_ended client t

  abbrev pub shows : Option (List ℕ) → Bool
  shows none = false
  shows (some gui) = true

  abbrev pub finishes : Tgdb S P → Event → ℕ
  finishes t (output died input) =
      if shows t.last_gui_command || gdb_quit client t died input
      then 0
      else if (client.client_parse_io input t.tcc).0
      then 1
      else 0
  finishes t _ = 0

  abbrev pub run : Tgdb S P → List Event → Tgdb S P
  run t [] = t
  run t (e ∷ es) = run (step t e) es

  abbrev pub finished : Tgdb S P → List Event → ℕ
  finished t [] = 0
  finished t (e ∷ es) = finishes t e + finished (step t e) es

module _ {S P : Type 0} (client : Client S P) (waits : Waits client) where
  abbrev Turn : ℕ → Tgdb S P → Type 0
  Turn n t = InTurn client waits n n t

  try_lem :
      (n : ℕ) (command : Command P) (t : Tgdb S P)
      → Turn n t
      → length t.debugger_stdin ≤ n
      → Turn n (try_command client command t).1
        × ((try_command client command t).0 ≡ false
            → length (try_command client command t).1.debugger_stdin ≤ n)
  unfolding try_command
  try_lem n command t w h =
      elim (Bool-cases
        (client.can_tgdb_run_commands t.tcc && not (is_console command.command_choice))) [
          | inl k ↦ rw k (w, λ x. h)
          | inr k ↦ rw k (deliver_lem client waits n n (omega arith) t command w h)
        ]

  deliver_first_lem :
      (n : ℕ) (commands : List (Command P)) (t : Tgdb S P)
      → Turn n t
      → length t.debugger_stdin ≤ n
      → Turn n (deliver_first client commands t)
  unfolding deliver_first
  deliver_first_lem n [] t w h = w
  deliver_first_lem n (command ∷ rest) t w h =
      let r = try_command client command t in
      let (w1, h1) = try_lem n command t w h in
      elim (Bool-cases r.0) [
        | inl k ↦
            subst (Turn n) {x = record r.1 { gdb_input_queue = rest }}
              {y = deliver_first client (command ∷ rest) t} (rw (deliver_first, k) refl) w1
        | inr k ↦
            subst (Turn n) {x = deliver_first client rest r.1}
              {y = deliver_first client (command ∷ rest) t} (rw (deliver_first, k) refl)
              (deliver_first_lem n rest r.1 w1 (h1 k))
      ]

  deliver_next_lem :
      (n : ℕ) (commands : List (Command P)) (t : Tgdb S P)
      → Turn n t
      → length t.debugger_stdin ≤ n
      → Turn n (deliver_next client commands t)
  unfolding deliver_next
  deliver_next_lem n [] t w h = deliver_first_lem n t.gdb_input_queue t w h
  deliver_next_lem n (command ∷ rest) t w h =
      (deliver_lem client waits n n (omega arith) (record t { oob_input_queue = rest }) command w
        h).0

  -- The end of `tgdb_process`.
  deliver_if_lem :
      (n : ℕ) (t : Tgdb S P)
      → Turn n t
      → Turn n (if has_command_to_run client t then unqueue_and_deliver_command client t else t)
  unfolding has_command_to_run unqueue_and_deliver_command
  deliver_if_lem n t w = elim (Bool-cases (has_command_to_run client t)) [
    | inl k ↦ rw k (deliver_next_lem n t.oob_input_queue t w (w.2 (ground (arith, k))))
    | inr k ↦ rw k w
  ]

  signals_lem : (n : ℕ) (t : Tgdb S P) → Turn n t → Turn n (handle_signals client t)
  unfolding handle_signals
  signals_lem n t w = elim (Bool-cases t.control_c) [ inl k ↦ rw k w | inr k ↦ rw k w ]

  process_output_lem :
      (n : ℕ) (t : Tgdb S P) (input : List ℕ)
      → Turn n t
      → Turn
          ((if (client.client_parse_io input t.tcc).0 then 1 else 0) + n)
          (process_output client t input).0
  unfolding process_output
  process_output_lem n t input w =
      let p = client.client_parse_io input t.tcc in
      let t0 = record t { tcc = p.1 } in
      elim (Bool-cases p.0) [
        | inl k ↦
            let w1 =
              process_client_lem client waits n (suc n) (omega arith) t0 (w.0, w.1, λ x. w.0) in
            let t2 = record (process_client_commands client t0) { subsystem_ready = true } in
            let w2 : Turn (1 + n) t2 =
              (omega (arith, w1.0), λ x. omega (arith, w1.0), λ x. omega (arith, w1.0)) in
            rw k (deliver_if_lem (1 + n) (handle_signals client t2) (signals_lem (1 + n) t2 w2))
        | inr k ↦
            let w1 =
              process_client_lem client waits n n (omega arith) t0
                (still client waits n n (omega arith) t p.1 w (waits.parsed input t.tcc k)) in
            let same : n ≡ 0 + n = omega arith in
            let t2 = process_client_commands client t0 in
            rw k (
              subst
                (λ z. Turn z (
                  if has_command_to_run client (handle_signals client t2)
                  then unqueue_and_deliver_command client (handle_signals client t2)
                  else (handle_signals client t2)))
                same (deliver_if_lem n (handle_signals client t2) (signals_lem n t2 w1)))
      ]

  process_read_lem :
      (n : ℕ) (t : Tgdb S P) (died : Bool) (input : List ℕ)
      → Turn n t
      → Turn
          ((if gdb_quit client t died input
              then 0
              else if (client.client_parse_io input t.tcc).0
              then 1
              else 0)
            + n)
          (process_read client t died input).0
  unfolding process_read
  process_read_lem n t died input w = elim (Bool-cases (gdb_quit client t died input)) [
    | inl k ↦
        let same : n ≡ 0 + n = omega arith in
        rw k (subst (λ z. Turn z (record t { has_sigchld_recv = false; quit = true })) same w)
    | inr k ↦ rw k (process_output_lem n (record t { has_sigchld_recv = false }) input w)
  ]

  process_shown_lem :
      (n : ℕ) (gui : Option (List ℕ)) (t : Tgdb S P) (died : Bool) (input : List ℕ)
      → Turn n t
      → Turn
          ((if shows client gui || gdb_quit client t died input
              then 0
              else if (client.client_parse_io input t.tcc).0
              then 1
              else 0)
            + n)
          (process_shown client gui t died input).0
  unfolding process_shown
  process_shown_lem n none t died input w = process_read_lem n t died input w
  process_shown_lem n (some gui) t died input w =
      let same : n ≡ 0 + n = omega arith in
      subst (λ z. Turn z (record t { last_gui_command = none })) same w

  step_lem :
      (n : ℕ) (t : Tgdb S P) (e : Event)
      → Turn n t
      → Turn (finishes client t e + n) (step client t e)
  unfolding process process_command interrupt child_ended
  step_lem n t (requested request) w =
      let same : n ≡ 0 + n = omega arith in
      subst (λ z. Turn z (process_command client t request).1) same
        (elim (Bool-cases (can_issue_command client t)) [
          | inl k ↦ rw k (process_request_lem client waits n n (omega arith) t request w)
          | inr k ↦ rw k w
        ])
  step_lem n t (output died input) w = process_shown_lem n t.last_gui_command t died input w
  step_lem n t interrupted w =
      subst (λ z. Turn z (interrupt client t)) {x = n} {y = 0 + n} (omega arith) w
  step_lem n t ended w =
      subst (λ z. Turn z (child_ended client t)) {x = n} {y = 0 + n} (omega arith) w

  run_lem :
      (es : List Event) (n : ℕ) (t : Tgdb S P)
      → Turn n t
      → Turn (finished client t es + n) (run client t es)
  run_lem [] n t w = subst (λ z. Turn z t) {x = n} {y = 0 + n} (omega arith) w
  run_lem (e ∷ es) n t w =
      let next = step client t e in
      let later = run_lem es (finishes client t e + n) next (step_lem n t e w) in
      subst (λ z. Turn z (run client next es))
        {x = finished client next es + (finishes client t e + n)}
        {y = finished client t (e ∷ es) + n} (omega arith) later

  -- However requests, output of gdb and signals come, tgdb never sends gdb more commands than gdb has
  -- finished and one, from the state in which it has sent none on, with a client that is not ready while
  -- a command runs.
  pub run_bound :
      (es : List Event) (t : Tgdb S P)
      → t.debugger_stdin ≡ []
      → length (run client t es).debugger_stdin ≤ suc (finished client t es)
  run_bound es t h =
      let none_sent : length t.debugger_stdin ≡ 0 = ap (λ z. length z) h in
      let start : Turn 0 t =
        (omega (arith, none_sent), λ x. omega (arith, none_sent), λ x. omega (arith, none_sent)) in
      omega (arith, (run_lem es 0 t start).0)
