-- ===== src/EpollServer/Gone.antt =====
-- The key of a dispatcher that was closed is never used again (rtc_base/physical_socket_server.cc).
use tqlib.Prelude.{
  ℕ, ◌+◌, ◌^◌, ◌<◌, ◌≡◌, refl, ◌∙◌, inl, inr, Option, length, none, some, List, [], ◌∷◌, ◌==◌,
  Bool-cases, Option-cases, arith,
}
use tqlib.EpollServer.{
  Events, no_events, with_events, without_events, is_zero, emplace, next_key, EpollCalls, Server,
  requested, add_epoll, remove_epoll, add, remove, enable_events, disable_events,
  start_batched_event_updates, close,
}
use tqlib.EpollServer.KeyMaps.{
  empty-IsKeyMap, added-IsKeyMap, erased-IsKeyMap, put_same, put_other, emplace_other, next_key_lem,
}
use tqlib.EpollServer.Keys.{close-next, SameKeys, set-SameKeys, finish-SameKeys}
use tqlib.EpollServer.Sync.{IsKeyed, with_socket}
use tqlib.EpollServer.Operations.{
  new_server, run-next, Operation, added, closed, set_to, enabled, disabled, started, finished,
  operate, run, operate-next,
}

module _ {calls : EpollCalls} where
  -- A key below the next one that stands for no dispatcher.
  pub record IsGone (k : ℕ) (s : Server calls) : Type 0 where
    pub used : k < s.next_dispatcher_key
    pub absent : s.dispatcher_by_key k ≡ none

  SameKeys-IsGone : (k d : ℕ) {s t : Server calls} → SameKeys d s t → IsGone k s → IsGone k t
  SameKeys-IsGone k d same i = record {
    used = rw same.same_next i.used;
    absent = rw same.same_map i.absent;
  }

  remove-IsGone : (k d : ℕ) (s : Server calls) → IsGone k s → IsGone k (remove d s)
  unfolding remove remove_epoll
  remove-IsGone k d s i = elim (Option-cases (s.key_by_dispatcher d)) [
    | inl n ↦ rw (n, remove) i
    | inr (key, e) ↦
        rw (e, remove)
          (record {
            used = i.used;
            absent = elim (Bool-cases (k == key)) [
              | inl same ↦ rw same refl
              | inr other ↦ put_other s.dispatcher_by_key key k none other ∙ i.absent
            ];
          })
  ]

  close-IsGone : (k d : ℕ) (s : Server calls) → IsGone k s → IsGone k (close d s)
  unfolding close
  close-IsGone k d s i =
      let saved : Option Events = elim (s.sockets d).saved_enabled_events [
        | none ↦ none
        | some e ↦ some no_events
      ] in
      let s1 = with_socket d (record (s.sockets d) { saved_enabled_events = saved }) s in
      SameKeys-IsGone k d (set-SameKeys d no_events (remove d s1))
        (remove-IsGone k d s1 (record { used = i.used; absent = i.absent }))

  add-IsGone :
      (k d : ℕ) (s : Server calls)
      → s.next_dispatcher_key + 1 < 2 ^ 64
      → IsGone k s
      → IsGone k (add d s)
  unfolding add add_epoll
  add-IsGone k d s small i = elim (Option-cases (s.key_by_dispatcher d)) [
    | inr (key, e) ↦ rw (e, add) i
    | inl n ↦
        let u = i.used in
        let next = next_key_lem s.next_dispatcher_key small in
        let used : k < next_key s.next_dispatcher_key = omega (arith, next) in
        let absent : emplace s.dispatcher_by_key s.next_dispatcher_key d k ≡ none =
          emplace_other s.dispatcher_by_key s.next_dispatcher_key d k (ground (arith, u))
          ∙ i.absent in
        elim (Bool-cases (is_zero (requested d s))) [
          | inl z ↦ rw (n, add, z, add_epoll) (record { used = used; absent = absent })
          | inr z ↦ rw (n, add, z, add_epoll) (record { used = used; absent = absent })
        ]
  ]

  operate-IsGone :
      (k : ℕ) (o : Operation) (s : Server calls)
      → s.next_dispatcher_key + 1 < 2 ^ 64
      → IsGone k s
      → IsGone k (operate o s)
  unfolding enable_events disable_events start_batched_event_updates
  operate-IsGone k (added d) s small i = add-IsGone k d s small i
  operate-IsGone k (closed d) s small i = close-IsGone k d s i
  operate-IsGone k (set_to d events) s small i = SameKeys-IsGone k d (set-SameKeys d events s) i
  operate-IsGone k (enabled d events) s small i =
      SameKeys-IsGone k d (set-SameKeys d (with_events (s.sockets d).enabled_events events) s) i
  operate-IsGone k (disabled d events) s small i =
      SameKeys-IsGone k d (set-SameKeys d (without_events (s.sockets d).enabled_events events) s) i
  operate-IsGone k (started d) s small i = record { used = i.used; absent = i.absent }
  operate-IsGone k (finished d) s small i = SameKeys-IsGone k d (finish-SameKeys d s) i

  run-IsGone :
      (k : ℕ) (os : List Operation) (s : Server calls)
      → s.next_dispatcher_key + length os < 2 ^ 64
      → IsGone k s
      → IsGone k (run os s)
  run-IsGone k [] s small i = i
  run-IsGone k (o ∷ os) s small i =
      run-IsGone k os (operate o s) (omega (arith, operate-next o s))
        (operate-IsGone k o s (omega arith) i)

  SameKeys-IsKeyed : (d : ℕ) {s t : Server calls} → SameKeys d s t → IsKeyed s → IsKeyed t
  SameKeys-IsKeyed d same i = rw (same.same_next, same.same_map, same.same_keys) i

  remove-IsKeyed : (d : ℕ) (s : Server calls) → IsKeyed s → IsKeyed (remove d s)
  unfolding remove remove_epoll
  remove-IsKeyed d s i = elim (Option-cases (s.key_by_dispatcher d)) [
    | inl n ↦ rw (n, remove) i
    | inr (key, e) ↦ rw (e, remove) (erased-IsKeyMap i d key e)
  ]

  close-IsKeyed : (d : ℕ) (s : Server calls) → IsKeyed s → IsKeyed (close d s)
  unfolding close
  close-IsKeyed d s i =
      let saved : Option Events = elim (s.sockets d).saved_enabled_events [
        | none ↦ none
        | some e ↦ some no_events
      ] in
      let s1 = with_socket d (record (s.sockets d) { saved_enabled_events = saved }) s in
      SameKeys-IsKeyed d (set-SameKeys d no_events (remove d s1)) (remove-IsKeyed d s1 i)

  add-IsKeyed :
      (d : ℕ) (s : Server calls)
      → s.next_dispatcher_key + 1 < 2 ^ 64
      → IsKeyed s
      → IsKeyed (add d s)
  unfolding add add_epoll
  add-IsKeyed d s small i = elim (Option-cases (s.key_by_dispatcher d)) [
    | inr (key, e) ↦ rw (e, add) i
    | inl n ↦ elim (Bool-cases (is_zero (requested d s))) [
      | inl z ↦ rw (n, add, z, add_epoll) (added-IsKeyMap i d small n)
      | inr z ↦ rw (n, add, z, add_epoll) (added-IsKeyMap i d small n)
    ]
  ]

  operate-IsKeyed :
      (o : Operation) (s : Server calls)
      → s.next_dispatcher_key + 1 < 2 ^ 64
      → IsKeyed s
      → IsKeyed (operate o s)
  unfolding enable_events disable_events start_batched_event_updates
  operate-IsKeyed (added d) s small i = add-IsKeyed d s small i
  operate-IsKeyed (closed d) s small i = close-IsKeyed d s i
  operate-IsKeyed (set_to d events) s small i = SameKeys-IsKeyed d (set-SameKeys d events s) i
  operate-IsKeyed (enabled d events) s small i =
      SameKeys-IsKeyed d (set-SameKeys d (with_events (s.sockets d).enabled_events events) s) i
  operate-IsKeyed (disabled d events) s small i =
      SameKeys-IsKeyed d (set-SameKeys d (without_events (s.sockets d).enabled_events events) s) i
  operate-IsKeyed (started d) s small i = i
  operate-IsKeyed (finished d) s small i = SameKeys-IsKeyed d (finish-SameKeys d s) i

  run-IsKeyed :
      (os : List Operation) (s : Server calls)
      → s.next_dispatcher_key + length os < 2 ^ 64
      → IsKeyed s
      → IsKeyed (run os s)
  run-IsKeyed [] s small i = i
  run-IsKeyed (o ∷ os) s small i =
      run-IsKeyed os (operate o s) (omega (arith, operate-next o s))
        (operate-IsKeyed o s (omega arith) i)

  -- Closing a dispatcher makes its key gone.
  closed-IsGone :
      (k d : ℕ) (s : Server calls)
      → IsKeyed s
      → s.key_by_dispatcher d ≡ some k
      → IsGone k (close d s)
  unfolding close remove remove_epoll
  closed-IsGone k d s i e =
      let saved : Option Events = elim (s.sockets d).saved_enabled_events [
        | none ↦ none
        | some e ↦ some no_events
      ] in
      let s1 = with_socket d (record (s.sockets d) { saved_enabled_events = saved }) s in
      let gone : IsGone k (remove d s1) =
        rw (e, remove)
          (record { used = i.bound d k e; absent = put_same s.dispatcher_by_key k none }) in
      SameKeys-IsGone k d (set-SameKeys d no_events (remove d s1)) gone

-- The key of a dispatcher that is closed stands for no dispatcher after any further operations, also
-- if the dispatcher, or another one at its address, is added again.
pub stale_key :
    (calls : EpollCalls) (e : calls.Interests) (os later : List Operation) (d k : ℕ)
    → length os + length later < 2 ^ 64
    → (run os (new_server calls e)).key_by_dispatcher d ≡ some k
    → (run later (close d (run os (new_server calls e)))).dispatcher_by_key k ≡ none
stale_key calls e os later d k few h =
    let s = run os (new_server calls e) in
    let i = run-IsKeyed os (new_server calls e) (omega arith) empty-IsKeyMap in
    (run-IsGone k later (close d s)
      (omega (arith, close-next d s, run-next os (new_server calls e)))
      (closed-IsGone k d s i h)).absent
