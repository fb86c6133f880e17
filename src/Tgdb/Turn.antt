-- ===== src/Tgdb/Turn.antt =====
-- lib/tgdb/tgdb-base/tgdb.c: commands for gdb are sent in turn.
use cgdb.Base.{
  ℕ, suc, ◌≤◌, Bool, true, false, List, [], ◌∷◌, ◌++◌, length, length-append, if◌then◌else◌, Option,
  none, some, Bool-cases, inl, inr, ◌≡◌, refl, arith, subst,
}
use cgdb.Tgdb.{
  Choice, front_end, console, tgdb_client, client_priority, Command, Client, Tgdb, ends_line,
  Request, console_command, info_sources, filename_pair, current_location, debugger_command,
  modify_breakpoint, complete, enqueue, can_issue_command, deliver_command, run_or_queue_command,
  run_each, process_client_commands, send, process_request, send_call,
}

-- What happens to tgdb: a request of the front end, output of gdb, ^c, the end of a child.
pub data Event : Type 0 where
  requested : Request → Event
  output : Bool → List ℕ → Event
  interrupted ended : Event

-- What the client promises: it is not ready while a command runs, and gets ready only by the output
-- that finishes it.
pub record Waits {S P : Type 0} (client : Client S P) : Type 0 where
  pub sent :
      (command : Command P) (s : S)
      → (client.prepare_for_command command s).0 ≡ true
      → client.is_client_ready (client.prepare_for_command command s).1 ≡ false
  pub refused :
      (command : Command P) (s : S)
      → client.is_client_ready (client.prepare_for_command command s).1 ≡ true
      → client.is_client_ready s ≡ true
  pub parsed :
      (input : List ℕ) (s : S)
      → (client.client_parse_io input s).0 ≡ false
      → client.is_client_ready (client.client_parse_io input s).1 ≡ true
      → client.is_client_ready s ≡ true
  pub cleared :
      (s : S)
      → client.is_client_ready (client.clear_commands s) ≡ true
      → client.is_client_ready s ≡ true
  pub ran :
      (s : S)
      → client.is_client_ready (client.tgdb_ran_command s).1 ≡ true
      → client.is_client_ready s ≡ true
  pub sources :
      (s : S)
      → client.is_client_ready (client.get_inferior_source_files s).1 ≡ true
      → client.is_client_ready s ≡ true
  pub pair :
      (file : List ℕ) (s : S)
      → client.is_client_ready (client.get_filename_pair file s).1 ≡ true
      → client.is_client_ready s ≡ true
  pub location :
      (start : Bool) (s : S)
      → client.is_client_ready (client.get_current_location start s).1 ≡ true
      → client.is_client_ready s ≡ true
  pub completed :
      (text : List ℕ) (s : S)
      → client.is_client_ready (client.completion_callback text s).1 ≡ true
      → client.is_client_ready s ≡ true

module _ {S P : Type 0} (client : Client S P) (waits : Waits client) where
  -- With `n` commands finished: at most one more was sent, none while tgdb is ready, and no more than
  -- `m` in all while the client is ready.
  abbrev pub InTurn : ℕ → ℕ → Tgdb S P → Type 0
  InTurn n m t =
      (length t.debugger_stdin ≤ suc n)
      × (t.subsystem_ready ≡ true → length t.debugger_stdin ≤ n)
      × (client.is_client_ready t.tcc ≡ true → length t.debugger_stdin ≤ m)

  pub deliver_lem :
      (n m : ℕ) (o : n ≤ m) (t : Tgdb S P) (command : Command P)
      → InTurn n m t
      → length t.debugger_stdin ≤ n
      → InTurn n m (deliver_command client t command).1
        × ((deliver_command client t command).0 ≡ false
            → length (deliver_command client t command).1.debugger_stdin ≤ n)
  unfolding deliver_command
  deliver_lem n m o t command (a, b, c) h =
      let p = client.prepare_for_command command t.tcc in
      elim (Bool-cases p.0) [
        | inl k ↦
            let busy = waits.sent command t.tcc k in
            let size = length-append t.debugger_stdin (command.tgdb_command_data ∷ []) in
            rw k (
              (omega (arith, size, h), λ x. ground (arith, x), λ x. ground (arith, x, busy)),
              λ x. ground (arith, x),
            )
        | inr k ↦ rw k ((a, λ x. ground (arith, x), λ x. omega (arith, h, o)), λ x. h)
      ]

  run_or_queue_lem :
      (n m : ℕ) (o : n ≤ m) (t : Tgdb S P) (command : Command P)
      → InTurn n m t
      → InTurn n m (run_or_queue_command client t command).1
  unfolding run_or_queue_command
  run_or_queue_lem n m o t command w = elim (Bool-cases (can_issue_command client t)) [
    | inl k ↦
        let free : length t.debugger_stdin ≤ n =
          w.1 (unfold can_issue_command in ground (arith, k)) in
        rw k (deliver_lem n m o t command w free).0
    | inr k ↦ rw k (queued command.command_choice)
  ]
    where
      queued : (choice : Choice) → InTurn n m (enqueue client choice command t).1
      queued front_end = w
      queued console = w
      queued tgdb_client = w
      queued client_priority = w

  run_each_lem :
      (n m : ℕ) (o : n ≤ m) (commands : List (Command P)) (t : Tgdb S P)
      → InTurn n m t
      → InTurn n m (run_each client commands t).1
  unfolding run_each
  run_each_lem n m o [] t w = w
  run_each_lem n m o (command ∷ rest) t w =
      let r = run_or_queue_command client t command in
      let w1 = run_or_queue_lem n m o t command w in
      elim (Bool-cases r.0) [
        | inl k ↦
            subst (λ z. InTurn n m z.1) {x = run_each client rest r.1}
              {y = run_each client (command ∷ rest) t} (rw (run_each, k) refl)
              (run_each_lem n m o rest r.1 w1)
        | inr k ↦
            subst (λ (z : Bool × Tgdb S P). InTurn n m z.1) {x = (false, r.1)}
              {y = run_each client (command ∷ rest) t} (rw (run_each, k) refl) w1
      ]

  -- The client's state changes, and does not get ready.
  pub still :
      (n m : ℕ) (o : n ≤ m) (t : Tgdb S P) (s : S)
      → InTurn n m t
      → (client.is_client_ready s ≡ true → client.is_client_ready t.tcc ≡ true)
      → InTurn n m (record t { tcc = s })
  still n m o t s (a, b, c) h = (a, b, λ x. c (h x))

  pub process_client_lem :
      (n m : ℕ) (o : n ≤ m) (t : Tgdb S P)
      → InTurn n m t
      → InTurn n m (process_client_commands client t)
  unfolding process_client_commands
  process_client_lem n m o t w =
      let r = run_each client (client.client_commands t.tcc) t in
      let w1 = run_each_lem n m o (client.client_commands t.tcc) t w in
      elim (Bool-cases r.0) [
        | inl k ↦ rw k (still n m o r.1 (client.clear_commands r.1.tcc) w1 (waits.cleared r.1.tcc))
        | inr k ↦ rw k w1
      ]

  answered_lem :
      (n m : ℕ) (o : n ≤ m) (t : Tgdb S P) (p : Bool × S)
      → InTurn n m t
      → (client.is_client_ready p.1 ≡ true → client.is_client_ready t.tcc ≡ true)
      → InTurn n m (process_client_commands client (record t { tcc = p.1 }))
  answered_lem n m o t p w h =
      process_client_lem n m o (record t { tcc = p.1 }) (still n m o t p.1 w h)

  send_lem :
      (n m : ℕ) (o : n ≤ m) (t : Tgdb S P) (text : List ℕ) (choice : Choice)
      → InTurn n m t
      → InTurn n m (send client t text choice).1
  unfolding send
  send_lem n m o t text choice w =
      let command : Command P = record {
        tgdb_command_data = if ends_line client text then text else text ++ 10 ∷ [];
        command_choice = choice;
        private_data = none;
      } in
      let r = run_or_queue_command client t command in
      let w1 = run_or_queue_lem n m o t command w in
      let w2 = still n m o r.1 (client.tgdb_ran_command r.1.tcc).1 w1 (waits.ran r.1.tcc) in
      let t2 = record r.1 { tcc = (client.tgdb_ran_command r.1.tcc).1 } in
      elim (Bool-cases r.0) [
        | inr k ↦ rw k w1
        | inl k ↦ elim (Bool-cases (client.tgdb_ran_command r.1.tcc).0) [
          | inl j ↦ rw (k, j) (process_client_lem n m o t2 w2)
          | inr j ↦ rw (k, j) w2
        ]
      ]

  send_call_lem :
      (n m : ℕ) (o : n ≤ m) (t : Tgdb S P) (text : Option (List ℕ))
      → InTurn n m t
      → InTurn n m (send_call client t text).1
  send_call_lem n m o t none w = w
  send_call_lem n m o t (some val) w = send_lem n m o t val front_end w

  pub process_request_lem :
      (n m : ℕ) (o : n ≤ m) (t : Tgdb S P) (request : Request)
      → InTurn n m t
      → InTurn n m (process_request client t request).1
  unfolding process_request
  process_request_lem n m o t (console_command text) w =
      send_lem n m o t (text ++ 10 ∷ []) console w
  process_request_lem n m o t info_sources w =
      answered_lem n m o t (client.get_inferior_source_files t.tcc) w (waits.sources t.tcc)
  process_request_lem n m o t (filename_pair file) w =
      answered_lem n m o t (client.get_filename_pair file t.tcc) w (waits.pair file t.tcc)
  process_request_lem n m o t (current_location start) w =
      answered_lem n m o t (client.get_current_location start t.tcc) w (waits.location start t.tcc)
  process_request_lem n m o t (debugger_command c) w =
      send_call_lem n m o t (client.return_command c) w
  process_request_lem n m o t (modify_breakpoint file l b) w =
      send_call_lem n m o t (client.modify_breakpoint_call file l b) w
  process_request_lem n m o t (complete text) w =
      answered_lem n m o t (client.completion_callback text t.tcc) w (waits.completed text t.tcc)
