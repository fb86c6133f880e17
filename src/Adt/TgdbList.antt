-- ===== src/Adt/TgdbList.antt =====
-- lib/adt/tgdb_list.c: a doubly linked list, on a memory of nodes. A pointer is an address, 0 is NULL.
-- What reads or writes where no node is answers `none`, as does a loop that would need more rounds
-- than it is given. cgdb_malloc succeeds, and takes the address `fresh`; no node is ever given back.
pub mod Cells
pub mod Append
pub mod Clear
pub mod Run
pub mod Prepend
use cgdb.Base.{
  ℕ, zero, suc, Bool, true, false, ◌&&◌, ◌==◌, ltb, if◌then◌else◌, Option, none, some, ◌>>=◌, ℤ,
  pos, negsuc, equals,
}

-- `struct tgdb_list_node`.
pub record ListNode {ℓ} (A : Type ℓ) : Type ℓ where
  pub next : ℕ
  pub prev : ℕ
  pub item : A

-- `struct tgdb_list`.
pub record TgdbList : Type 0 where
  pub size : ℤ
  pub head : ℕ
  pub tail : ℕ

pub record Memory {ℓ} (A : Type ℓ) : Type ℓ where
  pub node_at : ℕ → Option (ListNode A)
  pub fresh : ℕ

-- One more and one less.
abbrev pub increment : ℤ → ℤ
increment (pos n) = pos (suc n)
increment (negsuc zero) = pos 0
increment (negsuc (suc n)) = negsuc n

abbrev pub decrement : ℤ → ℤ
decrement (pos zero) = negsuc 0
decrement (pos (suc n)) = pos n
decrement (negsuc n) = negsuc (suc n)

abbrev pub counted : TgdbList → TgdbList
counted l = record l { size = increment l.size }

abbrev pub uncounted : TgdbList → TgdbList
uncounted l = record l { size = decrement l.size }

-- The list from its second node on, still with the old size.
abbrev pub without_first : TgdbList → ℕ → TgdbList
without_first l next = record l { head = next; tail = if equals l.size 2 then 0 else l.tail }

-- `tgdb_list_init`.
abbrev pub tgdb_list_init : TgdbList
tgdb_list_init = record { size = pos 0; head = 0; tail = 0 }

-- `tgdb_list_get_first` and `tgdb_list_get_last`.
abbrev pub get_first : TgdbList → ℕ
get_first l = l.head

abbrev pub get_last : TgdbList → ℕ
get_last l = if equals l.size 1 then l.head else l.tail

module _ {ℓ} {A : Type ℓ} where
  abbrev pub load : Memory A → ℕ → Option (ListNode A)
  load m p = if p == 0 then none else m.node_at p

  abbrev pub write : Memory A → ℕ → ListNode A → Memory A
  write m p n = record m { node_at = λ a. if a == p then some n else m.node_at a }

  -- An assignment to fields of the node at `p`.
  unfoldable pub change : Memory A → ℕ → (ListNode A → ListNode A) → Option (Memory A)
  change m p f = do n ← load m p; some (write m p (f n))

  -- `tgdb_list_new_node`, and the assignment of the item after it.
  unfoldable pub new_node : Memory A → A → Memory A
  new_node m x =
      write (record m { fresh = suc m.fresh }) m.fresh (record { next = 0; prev = 0; item = x })

  -- `tgdb_list_insert`.
  unfoldable pub insert : Memory A → TgdbList → ℕ → ℕ → ℕ → Option (Memory A × TgdbList)
  unfolding change
  insert m l before after new =
      if (before == 0 && after == 0) && equals l.size 1
      then (do
        m1 ← change m new (λ n. record n { next = 0; prev = l.head })
        m2 ← change m1 l.head (λ n. record n { next = new })
        some (m2, counted (record l { tail = new })))
      else if before == 0 && after == 0
      then (do
        m1 ← change m new (λ n. record n { next = 0; prev = 0 })
        some (m1, counted (record l { head = new })))
      else if before == 0
      then (do
        m1 ← change m new (λ n. record n { next = l.head; prev = 0 })
        m2 ← change m1 l.head (λ n. record n { prev = new })
        some (m2, counted (record l { head = new })))
      else if after == 0
      then (do
        m1 ← change m new (λ n. record n { next = 0; prev = l.tail })
        m2 ← change m1 l.tail (λ n. record n { next = new })
        some (m2, counted (record l { tail = new })))
      else do
        b ← load m before
        a ← load m after
        m1 ← change m new (λ n. record n { next = b.next; prev = a.prev })
        m2 ← change m1 before (λ n. record n { next = new; prev = new })
        some (m2, counted l)

  abbrev pub unlinked : ListNode A → ListNode A
  unlinked n = record n { next = 0; prev = 0 }

  -- What `tgdb_list_delete` does to a list of two nodes or more, `n` standing at `node`.
  unfoldable pub delete_linked : Memory A → TgdbList → ℕ → ListNode A → Option (Memory A × TgdbList)
  unfolding change
  delete_linked m l node n =
      if n.prev == 0
      then (do
        m1 ← change m n.next (λ d. record d { prev = 0 })
        m2 ← change m1 node unlinked
        some (m2, uncounted (without_first l n.next)))
      else if n.next == 0
      then (do
        m1 ← change m n.prev (λ d. record d { next = 0 })
        m2 ← change m1 node unlinked
        some (m2, uncounted (record l { tail = n.prev })))
      else do
        m1 ← change m n.prev (λ d. record d { next = n.next })
        m2 ← change m1 n.next (λ d. record d { prev = n.prev })
        m3 ← change m2 node unlinked
        some (m3, uncounted l)

  -- `tgdb_list_delete`, of a node that is not NULL.
  unfoldable pub delete : Memory A → TgdbList → ℕ → Option (Memory A × TgdbList)
  unfolding change delete_linked
  delete m l node =
      if equals l.size 0
      then (do m1 ← change m node unlinked; some (m1, uncounted (record l { head = 0; tail = 0 })))
      else if equals l.size 1
      then (do m1 ← change m node unlinked; some (m1, uncounted (record l { head = 0; tail = 0 })))
      else do n ← load m node; delete_linked m l node n

  -- `tgdb_list_append`, `tgdb_list_prepend`, `tgdb_list_insert_after` and `tgdb_list_insert_before`.
  unfoldable pub append : Memory A → TgdbList → A → Option (Memory A × TgdbList)
  unfolding new_node insert
  append m l x = insert (new_node m x) l l.tail 0 m.fresh

  unfoldable pub prepend : Memory A → TgdbList → A → Option (Memory A × TgdbList)
  unfolding new_node insert
  prepend m l x = insert (new_node m x) l 0 l.head m.fresh

  unfoldable pub insert_after : Memory A → TgdbList → ℕ → A → Option (Memory A × TgdbList)
  unfolding new_node insert
  insert_after m l i x = do n ← load (new_node m x) i; insert (new_node m x) l i n.next m.fresh

  unfoldable pub insert_before : Memory A → TgdbList → ℕ → A → Option (Memory A × TgdbList)
  unfolding new_node insert
  insert_before m l i x = do n ← load (new_node m x) i; insert (new_node m x) l n.prev i m.fresh

  -- `tgdb_list_clear`, with at most `k` rounds.
  unfoldable pub clear : ℕ → Memory A → TgdbList → Option (Memory A × TgdbList)
  clear zero m l = none
  clear (suc k) m l =
      if get_first l == 0
      then some (m, l)
      else do (m1, l1) ← delete m l (get_first l); clear k m1 l1

module _ {ℓ κ} {A : Type ℓ} {S : Type κ} (func : A → S → Bool × S) where
  -- `tgdb_list_foreach` from an iterator on. What `func` does is on a state of its own; it answers
  -- false for -1.
  unfoldable pub foreach_from : ℕ → Memory A → ℕ → S → Option (Bool × S)
  foreach_from zero m i s = none
  foreach_from (suc k) m i s =
      if i == 0
      then some (true, s)
      else load m i >>= λ n. elim (func n.item s).0 [
        | true ↦ foreach_from k m n.next (func n.item s).1
        | false ↦ some (false, (func n.item s).1)
      ]

  unfoldable pub foreach : ℕ → Memory A → TgdbList → S → Option (Bool × S)
  unfolding foreach_from
  foreach k m l s = foreach_from k m (get_first l) s

  -- `tgdb_list_free`.
  unfoldable pub free : ℕ → Memory A → TgdbList → S → Option (Bool × S × Memory A × TgdbList)
  free zero m l s = none
  free (suc k) m l s =
      if get_first l == 0
      then some (true, s, m, l)
      else load m (get_first l) >>= λ n. elim (func n.item s).0 [
        | true ↦ delete m l (get_first l) >>= λ r. free k r.0 r.1 (func n.item s).1
        | false ↦ some (false, (func n.item s).1, m, l)
      ]
