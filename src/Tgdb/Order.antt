-- ===== src/Tgdb/Order.antt =====
-- lib/tgdb/tgdb-base/tgdb.c: which of the queued commands is sent next.
use cgdb.Base.{
  Bool, true, false, List, [], ◌∷◌, ◌++◌, ◌≡◌, refl, ◌∙◌, ap, subst, Bool-cases, inl, inr, ◌⊎◌,
  if◌then◌else◌, ◌&&◌, not,
}
use cgdb.Tgdb.{
  Command, Client, Tgdb, is_console, deliver_command, try_command, deliver_first, deliver_next,
  unqueue_and_deliver_command,
}

module _ {S P : Type 0} (client : Client S P) where
  -- The queues are as before; the command was sent if the client prepared it, and the client is in the
  -- state that this leaves.
  abbrev Delivered : Tgdb S P → Command P → Bool → Tgdb S P → Type 0
  Delivered t command ok next =
      (next.gdb_input_queue ≡ t.gdb_input_queue)
      × (next.tcc ≡ (client.prepare_for_command command t.tcc).1)
      × (next.oob_input_queue ≡ t.oob_input_queue)
      × (next.debugger_stdin
          ≡ (if ok then t.debugger_stdin ++ command.tgdb_command_data ∷ [] else t.debugger_stdin))

  delivered :
      (t : Tgdb S P) (command : Command P)
      → Delivered t command
          (client.prepare_for_command command t.tcc).0
          (deliver_command client t command).1
  unfolding deliver_command
  delivered t command = elim (Bool-cases (client.prepare_for_command command t.tcc).0) [
    | inl k ↦ rw k (refl, refl, refl, refl)
    | inr k ↦ rw k (refl, refl, refl, refl)
  ]

  -- At a misc prompt all but console commands are thrown out.
  abbrev is_thrown_out : S → Command P → Bool
  is_thrown_out s command =
      client.can_tgdb_run_commands s && not (is_console command.command_choice)

  -- With the client in the state `s` the command is not sent, and then the client is in the state `s'`:
  -- the command is thrown out, or the client does not prepare it.
  abbrev Refused : S → Command P → S → Type 0
  Refused s command s' =
      ((is_thrown_out s command ≡ true) × (s' ≡ s))
      ⊎ ((is_thrown_out s command ≡ false)
          × ((client.prepare_for_command command s).0 ≡ false)
          × (s' ≡ (client.prepare_for_command command s).1))

  -- None of the commands is sent, each in the state that the ones before it leave.
  abbrev Drops : S → List (Command P) → S → Type 0
  Drops s [] s' = s' ≡ s
  Drops s (command ∷ rest) s' = (m : S) × Refused s command m × Drops m rest s'

  -- With the client in the state `s` the command is sent, and then the client is in the state `s'`.
  abbrev Sends : S → Command P → S → Type 0
  Sends s command s' =
      (is_thrown_out s command ≡ false)
      × ((client.prepare_for_command command s).0 ≡ true)
      × (s' ≡ (client.prepare_for_command command s).1)

  -- What became of the first command of the queue.
  abbrev Tried : Tgdb S P → Command P → Bool × Tgdb S P → Type 0
  Tried t command r =
      (r.1.oob_input_queue ≡ t.oob_input_queue)
      × (((r.0 ≡ true)
            × Sends t.tcc command r.1.tcc
            × (r.1.debugger_stdin ≡ t.debugger_stdin ++ command.tgdb_command_data ∷ []))
          ⊎ ((r.0 ≡ false)
              × Refused t.tcc command r.1.tcc
              × (r.1.debugger_stdin ≡ t.debugger_stdin)))

  tried : (command : Command P) (t : Tgdb S P) → Tried t command (try_command client command t)
  unfolding try_command deliver_command
  tried command t = elim (Bool-cases (is_thrown_out t.tcc command)) [
    | inl k ↦ rw k (refl, inr (refl, inl (refl, refl), refl))
    | inr k ↦ elim (Bool-cases (client.prepare_for_command command t.tcc).0) [
      | inl j ↦ rw (k, j) (refl, inl (refl, (refl, refl, refl), refl))
      | inr j ↦ rw (k, j) (refl, inr (refl, inr (refl, refl, refl), refl))
    ]
  ]

  -- Of the commands `all` the first ones are dropped, and the next one is sent and the others stay, or
  -- none is left.
  abbrev pub SendsOne : Tgdb S P → List (Command P) → Tgdb S P → Type 0
  SendsOne t all next =
      (next.oob_input_queue ≡ t.oob_input_queue)
      × (dropped : List (Command P)) × (kept : List (Command P)) × (all ≡ dropped ++ kept)
      × (s : S) × Drops t.tcc dropped s
      × (((kept ≡ [])
            × (next.tcc ≡ s)
            × (next.gdb_input_queue ≡ [])
            × (next.debugger_stdin ≡ t.debugger_stdin))
          ⊎ ((command : Command P) × (rest : List (Command P)) × (kept ≡ command ∷ rest)
              × Sends s command next.tcc
              × (next.gdb_input_queue ≡ rest)
              × (next.debugger_stdin ≡ t.debugger_stdin ++ command.tgdb_command_data ∷ [])))

  sends_one : (all : List (Command P)) (t : Tgdb S P) → SendsOne t all (deliver_first client all t)
  unfolding deliver_first
  sends_one [] t = (refl, [], [], refl, t.tcc, refl, inl (refl, refl, refl, refl))
  sends_one (command ∷ rest) t =
      let r = try_command client command t in
      let (b, which) = tried command t in
      elim which [
        | inl (k, sent, c) ↦
            subst (SendsOne t (command ∷ rest)) {x = record r.1 { gdb_input_queue = rest }}
              {y = deliver_first client (command ∷ rest) t} (rw (deliver_first, k) refl)
              (b, [], command ∷ rest, refl, t.tcc, refl, inr (command, rest, refl, sent, refl, c))
        | inr (k, refused, c) ↦
            let (o, dropped, kept, e, s, drops, which') = sends_one rest r.1 in
            subst (SendsOne t (command ∷ rest)) {x = deliver_first client rest r.1}
              {y = deliver_first client (command ∷ rest) t} (rw (deliver_first, k) refl)
              (
                o ∙ b,
                command ∷ dropped,
                kept,
                ap (λ z. command ∷ z) e,
                s,
                (r.1.tcc, refused, drops),
                elim which' [
                  | inl (x, w, y, z) ↦ inl (x, w, y, z ∙ c)
                  | inr (d, rs, x, w, y, z) ↦
                      inr (d, rs, x, w, y, z ∙ ap (λ v. v ++ d.tgdb_command_data ∷ []) c)
                ],
              )
      ]

  -- What is sent when `oob` stands in the queue of the out of band commands.
  abbrev pub SendsNext : List (Command P) → Tgdb S P → Tgdb S P → Type 0
  SendsNext [] t next = SendsOne t t.gdb_input_queue next
  SendsNext (command ∷ rest) t next =
      (next.gdb_input_queue ≡ t.gdb_input_queue)
      × (next.tcc ≡ (client.prepare_for_command command t.tcc).1)
      × (next.oob_input_queue ≡ rest)
      × (next.debugger_stdin ≡ (
          if (client.prepare_for_command command t.tcc).0
          then t.debugger_stdin ++ command.tgdb_command_data ∷ []
          else t.debugger_stdin))

  sends_next : (oob : List (Command P)) (t : Tgdb S P) → SendsNext oob t (deliver_next client oob t)
  unfolding deliver_next deliver_first
  sends_next [] t = sends_one t.gdb_input_queue t
  sends_next (command ∷ rest) t = delivered (record t { oob_input_queue = rest }) command

  -- When an out of band command is queued, the first of them leaves the queue, is sent if the client
  -- prepares it, and the input queue stays as it is. Otherwise the commands in front of the input queue
  -- that cannot be sent are dropped: each of them, in the state that the client has then, is thrown out
  -- at a misc prompt as it is not a console command, or is not prepared by the client. The first that is
  -- neither is sent, the others staying in their order, or the queue is empty and nothing was sent. The
  -- client ends in the state that preparing these commands leaves.
  pub unqueue_and_deliver_command_lem :
      (t : Tgdb S P) → SendsNext t.oob_input_queue t (unqueue_and_deliver_command client t)
  unfolding unqueue_and_deliver_command
  unqueue_and_deliver_command_lem t = sends_next t.oob_input_queue t
