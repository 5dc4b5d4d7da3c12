-- ===== src/Reception/Waiters.antt =====
-- `SyncRxMixin` of lib/bus/include/robobus/network/interface/interface.hpp against a list of the
-- coroutines that wait, with their opcodes, the one that has waited longest first.
use robobus.Base.{
  Distinct, Distinct-append, ℕ, ◌<◌, ◌≤◌, ◌≡◌, refl, sym, ap, subst, ◌∙◌, arith, none, some, List,
  [], ◌∷◌, ◌++◌, length, Option-cases, ◌⊎◌, inl, inr,
}
use robobus.Wire.{Address}
use robobus.Enumerate.Coroutine.{Packet}
use robobus.Reception.{
  default_packet, MessageAwaiter, await_suspend, invalidate, notify_message, without, assign_at,
  LinkedList, SyncRx, resumed, handed_on, waiting, returned, new_sync_rx, begin_receive,
  end_receive, notify, handle_rx_mixin,
}
use robobus.Reception.Nodes.{
  take_first, Hold, NotIn-without, without-NotIn, Distinct-without, assign_at-other, assign_at_self,
  Hold-agree, Hold-append, Hold-length, find_waiter-take_first,
}

module _ {L N H : Type 0} (list : LinkedList L N) where
  pub record Represents (m : SyncRx L N H) (ws : List (ℕ × H)) : Type 0 where
    pub distinct : Distinct (list.items m.wait_queue)
    pub hold : Hold m.opcode m.awaiter (list.items m.wait_queue) ws

module _ {L N H : Type 0} (list : LinkedList L N) where
  -- A list that was just cleared holds nobody.
  pub new_sync_rx-Represents : (m : SyncRx L N H) → Represents list (new_sync_rx list m) []
  unfolding new_sync_rx
  new_sync_rx-Represents m =
      let none_left = list.clear-items m.wait_queue in
      record {
        distinct = subst (λ ns. Distinct ns) (sym none_left) tt;
        hold = subst (λ ns. Hold m.opcode m.awaiter ns []) (sym none_left) tt;
      }

  enqueue-Represents :
      (op : ℕ) (h : H) (m : SyncRx L N H) (ws : List (ℕ × H))
      → Represents list m ws
      → (n : N) (l : L) → list.new_back m.wait_queue ≡ some (n, l)
      → Represents list
          (record {
            wait_queue = l;
            opcode = assign_at list.same n op m.opcode;
            awaiter = assign_at list.same n (await_suspend h (invalidate (m.awaiter n))) m.awaiter;
          })
          (ws ++ (op, h) ∷ [])
  unfolding await_suspend
  enqueue-Represents op h m ws r n l e =
      let (added, new) = list.new_back-items m.wait_queue n l e in
      let a = await_suspend h (invalidate (m.awaiter n)) in
      let opcode' = assign_at list.same n op m.opcode in
      let awaiter' = assign_at list.same n a m.awaiter in
      let others =
        Hold-agree m.opcode opcode' m.awaiter awaiter' n (assign_at-other list.same n op m.opcode)
          (assign_at-other list.same n a m.awaiter) (list.items m.wait_queue) ws new r.hold in
      record {
        distinct =
            subst (λ ns. Distinct ns) (sym added)
              (Distinct-append n (list.items m.wait_queue) r.distinct new);
        hold =
            subst (λ ns. Hold opcode' awaiter' ns (ws ++ (op, h) ∷ [])) (sym added)
              (Hold-append opcode' awaiter' (list.items m.wait_queue) ws n op h others
                (assign_at_self list.same n op m.opcode)
                (ap (λ (b : MessageAwaiter H). b.handle) (assign_at_self list.same n a m.awaiter)));
      }

  -- `ReceiveAwait` makes its coroutine wait behind those that wait already, if fewer than four do;
  -- with four it changes nothing, and returns at once with a packet that nobody sent.
  pub begin_receive-Represents :
      (op : ℕ) (h : H) (m : SyncRx L N H) (ws : List (ℕ × H))
      → Represents list m ws
      → (length ws < 4
          → ((begin_receive list op h m).1 ≡ waiting)
            × Represents list (begin_receive list op h m).0 (ws ++ (op, h) ∷ []))
        × (4 ≤ length ws → begin_receive list op h m ≡ (m, returned default_packet))
  unfolding begin_receive
  begin_receive-Represents op h m ws r = elim (Option-cases (list.new_back m.wait_queue)) [
    | inl e ↦
        let full = (list.new_back-none m.wait_queue).0 e in
        let size = Hold-length m.opcode m.awaiter (list.items m.wait_queue) ws r.hold in
        (λ few. absurd (omega arith), λ many. rw (e, begin_receive) refl)
    | inr ((n, l), e) ↦ (
      λ few. rw (e, begin_receive) (refl, enqueue-Represents op h m ws r n l e),
      λ many.
          let size = Hold-length m.opcode m.awaiter (list.items m.wait_queue) ws r.hold in
          let full = (list.new_back-none m.wait_queue).1 (omega arith) in
          absurd (let taken = sym full ∙ e in cc),
    )
  ]

  end_receive-packet :
      (n : N) (p : Packet) (m : SyncRx L N H)
      → (m.awaiter n).packet ≡ some p
      → end_receive list n m ≡ some (record m { wait_queue = list.take_out n m.wait_queue }, p)
  unfolding end_receive
  end_receive-packet n p m e = rw (e, end_receive) refl

  -- The node is taken out twice, the second time by the coroutine that it held.
  notify-Represents :
      (n : N) (h : H) (p : Packet) (m : SyncRx L N H) (ws : List (ℕ × H))
      → Distinct (list.items m.wait_queue)
      → (m.awaiter n).handle ≡ some h
      → Hold m.opcode m.awaiter (without list.same n (list.items m.wait_queue)) ws
      → (m' : SyncRx L N H) × (notify list n p m ≡ some (m', resumed h p)) × Represents list m' ws
  unfolding notify
  notify-Represents n h p m ws d its others =
      let a = (notify_message p (m.awaiter n)).0 in
      let resumes : (notify_message p (m.awaiter n)).1 ≡ some h = unfold notify_message in its in
      let given : a.packet ≡ some p = unfold notify_message in refl in
      let awaiter' = assign_at list.same n a m.awaiter in
      let l = list.take_out n (list.take_out n m.wait_queue) in
      let here = assign_at_self list.same n a m.awaiter in
      let ns = without list.same n (list.items m.wait_queue) in
      let left : list.items l ≡ ns =
        list.take_out-items n (list.take_out n m.wait_queue)
        ∙ ap (without list.same n) (list.take_out-items n m.wait_queue)
        ∙ without-NotIn list.same n ns (NotIn-without list.same n (list.items m.wait_queue)) in
      (
        record { wait_queue = l; opcode = m.opcode; awaiter = awaiter' },
        rw (resumes, notify)
            (rw
              (end_receive-packet n p
                (record m { wait_queue = list.take_out n m.wait_queue; awaiter = awaiter' })
                (ap (λ (b : MessageAwaiter H). b.packet) here ∙ given))
              refl),
        record {
          distinct =
              subst (λ xs. Distinct xs) (sym left)
                (Distinct-without list.same n (list.items m.wait_queue) d);
          hold =
              subst (λ xs. Hold m.opcode awaiter' xs ws) (sym left)
                (Hold-agree m.opcode m.opcode m.awaiter awaiter' n (λ x ne. refl)
                  (assign_at-other list.same n a m.awaiter) ns ws
                  (NotIn-without list.same n (list.items m.wait_queue)) others);
        },
      )

  -- A message goes to the coroutine that has waited longest for its opcode, which then waits no
  -- more, while the others wait on in their order; where none waits for its opcode, it goes to the
  -- other handler and nothing changes.
  pub handle_rx_mixin-Represents :
      (from : Address) (op : ℕ) (rest : List ℕ) (m : SyncRx L N H) (ws : List (ℕ × H))
      → Represents list m ws
      → ((take_first op ws ≡ none)
          × (handle_rx_mixin list from (op ∷ rest) m ≡ some (m, handed_on)))
        ⊎ ((h : H) × (ws' : List (ℕ × H)) × (m' : SyncRx L N H) × (take_first op ws ≡ some (h, ws'))
            × (handle_rx_mixin list from (op ∷ rest) m
                ≡ some (m', resumed h (record { from = from; payload = op ∷ rest })))
            × Represents list m' ws')
  unfolding handle_rx_mixin
  handle_rx_mixin-Represents from op rest m ws r =
      elim (find_waiter-take_first list.same m.opcode m.awaiter op (op ∷ rest)
        (list.items m.wait_queue) ws refl r.distinct r.hold) [
          | inl (e, f) ↦ inl (f, rw (e, handle_rx_mixin) refl)
          | inr (n, h, ws', e, f, is_op, its, others) ↦
              let p : Packet = record { from = from; payload = op ∷ rest } in
              let (m', done, r') = notify-Represents n h p m ws' r.distinct its others in
              inr (h, ws', m', f, rw (e, handle_rx_mixin) done, r')
        ]
