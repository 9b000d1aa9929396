-- ===== src/EpollServer/Keep.antt =====
-- Every operation on the sockets keeps the system's set in agreement with them
-- (rtc_base/physical_socket_server.cc).
use tqlib.Prelude.{
  ℕ, ◌+◌, ◌<◌, ◌^◌, ◌≡◌, refl, sym, ap, ◌∙◌, subst, inl, inr, false, Option, none, some, ◌==◌,
  ==_iff, Bool-cases, Option-cases,
}
use tqlib.EpollServer.{
  Events, no_events, get_epoll_events, is_zero, same_events, EpollCalls, IsEpoll, put, emplace,
  next_key, Server, requested, add_epoll, remove_epoll, add, remove, maybe_update_dispatcher,
  set_enabled_events, start_batched_event_updates, finish_batched_event_updates, close,
}
use tqlib.EpollServer.Calls.{is_done_sound, not_refused, not_refused_other, wanted}
use tqlib.EpollServer.Sync.{
  followed, IsKeyed, Agrees, IsInSync, with_socket, others-Agree, kept_followed, then_updated,
}
use tqlib.EpollServer.KeyMaps.{put_same, put_other, added-IsKeyMap, erased-IsKeyMap}

module _ {calls : EpollCalls} where
  maybe_batched :
      (d : ℕ) (old e : Events) (s : Server calls)
      → (s.sockets d).saved_enabled_events ≡ some e
      → maybe_update_dispatcher d old s ≡ s
  unfolding maybe_update_dispatcher
  maybe_batched d old e s h =
      elim (Bool-cases (same_events (requested d s) (get_epoll_events old))) [
        | inl alike ↦ rw (alike, maybe_update_dispatcher) refl
        | inr differ ↦ rw (differ, h, maybe_update_dispatcher) refl
      ]

  abbrev without_key : ℕ → ℕ → Server calls → Server calls
  without_key d key s = record s {
    key_by_dispatcher = put s.key_by_dispatcher d none;
    dispatcher_by_key = put s.dispatcher_by_key key none;
  }

  module _ (law : IsEpoll calls) where
    pub set-IsInSync :
        (d : ℕ) (events : Events) (s : Server calls)
        → IsInSync s
        → IsInSync (set_enabled_events d events s)
    unfolding set_enabled_events
    set-IsInSync d events s i =
        let v = record (s.sockets d) { enabled_events = events } in
        elim (Option-cases (s.sockets d).saved_enabled_events) [
          | inl unsaved ↦
              then_updated law d v (s.sockets d).enabled_events s i unsaved (rw unsaved refl)
          | inr (old, saved) ↦
              subst IsInSync
                (sym (
                  maybe_batched d (s.sockets d).enabled_events old (with_socket d v s)
                    (ap (λ r. r.saved_enabled_events) (put_same s.sockets d v) ∙ saved)))
                (kept_followed law d v s i (rw saved refl))
        ]

    pub start-IsInSync :
        (d : ℕ) (s : Server calls)
        → (s.sockets d).saved_enabled_events ≡ none
        → IsInSync s
        → IsInSync (start_batched_event_updates d s)
    unfolding start_batched_event_updates
    start-IsInSync d s unsaved i =
        kept_followed law d
          (record (s.sockets d) { saved_enabled_events = some (s.sockets d).enabled_events }) s i
          (rw unsaved refl)

    pub finish-IsInSync :
        (d : ℕ) (s : Server calls) → IsInSync s → IsInSync (finish_batched_event_updates d s)
    unfolding finish_batched_event_updates
    finish-IsInSync d s i = elim (Option-cases (s.sockets d).saved_enabled_events) [
      | inl unsaved ↦ rw (unsaved, finish_batched_event_updates) i
      | inr (old, saved) ↦
          rw (saved, finish_batched_event_updates)
            (then_updated law d (record (s.sockets d) { saved_enabled_events = none }) old s i refl
              (rw saved refl))
    ]

    -- What `Remove` needs of its dispatcher: that it is not in the set if it has no key.
    remove-IsInSync :
        (d : ℕ) (s : Server calls)
        → IsKeyed s
        → ((g : ℕ) → (g == d) ≡ false → Agrees s g)
        → (s.key_by_dispatcher d ≡ none
            → s.refused d ≡ false
            → calls.registered s.interests d ≡ none)
        → IsInSync (remove d s)
    unfolding remove remove_epoll
    remove-IsInSync d s i others missing = elim (Option-cases (s.key_by_dispatcher d)) [
      | inl n ↦
          rw (n, remove)
            (record {
              keyed = i;
              agrees = λ g. elim (Bool-cases (g == d)) [
                | inl same ↦
                    subst (Agrees s) (sym ((==_iff g d).0 same)) (λ h. missing n h ∙ rw n refl)
                | inr other ↦ others g other
              ];
            })
      | inr (key, e) ↦
          rw (e, remove)
            (record {
              keyed = erased-IsKeyMap i d key e;
              agrees = λ g. elim (Bool-cases (g == d)) [
                | inl same ↦
                    subst (Agrees (remove_epoll d (without_key d key s)))
                      (sym ((==_iff g d).0 same))
                      (λ h.
                        law.del_done d s.interests (not_refused s.refused d _ h).1
                        ∙ ap (λ o. wanted o (get_epoll_events (followed (s.sockets d))))
                            (sym (put_same s.key_by_dispatcher d none)))
                | inr other ↦ λ h.
                    law.del_other d g s.interests other
                    ∙ others g other (not_refused_other s.refused d g _ other h)
                    ∙ ap (λ o. wanted o (get_epoll_events (followed (s.sockets g))))
                        (sym (put_other s.key_by_dispatcher d g none other))
              ];
            })
    ]

    pub close-IsInSync : (d : ℕ) (s : Server calls) → IsInSync s → IsInSync (close d s)
    unfolding close
    close-IsInSync d s i =
        let saved : Option Events = elim (s.sockets d).saved_enabled_events [
          | none ↦ none
          | some e ↦ some no_events
        ] in
        let v = record (s.sockets d) { saved_enabled_events = saved } in
        set-IsInSync d no_events (remove d (with_socket d v s)) (
          remove-IsInSync d (with_socket d v s) i.keyed (others-Agree law d v s i)
            (λ n h. i.agrees d h ∙ rw n refl))

    add_missing :
        (d key : ℕ) (s : Server calls)
        → (s.refused d ≡ false → calls.registered s.interests d ≡ none)
        → (add_epoll d key s).refused d ≡ false
        → calls.registered (add_epoll d key s).interests d ≡ wanted (some key) (requested d s)
    unfolding add_epoll
    add_missing d key s m h = elim (Bool-cases (is_zero (requested d s))) [
      | inl z ↦ rw (z, add_epoll) (m (rw (z, add_epoll) at h))
      | inr z ↦
          let ok = not_refused s.refused d _ (rw (z, add_epoll) at h) in
          rw (z, add_epoll) (law.add_done d (requested d s, key) s.interests (is_done_sound _ ok.1))
    ]

    add_elsewhere :
        (d g key : ℕ) (s : Server calls)
        → (g == d) ≡ false
        → (calls.registered (add_epoll d key s).interests g ≡ calls.registered s.interests g)
          × ((add_epoll d key s).refused g ≡ false → s.refused g ≡ false)
    unfolding add_epoll
    add_elsewhere d g key s n = elim (Bool-cases (is_zero (requested d s))) [
      | inl z ↦ rw (z, add_epoll) (refl, λ h. h)
      | inr z ↦
          rw (z, add_epoll)
            (
              law.add_other d g (requested d s, key) s.interests n,
              not_refused_other s.refused d g _ n,
            )
    ]

    add_kept :
        (d key : ℕ) (s : Server calls)
        → ((add_epoll d key s).key_by_dispatcher ≡ s.key_by_dispatcher)
          × ((add_epoll d key s).sockets ≡ s.sockets)
          × (IsKeyed s → IsKeyed (add_epoll d key s))
    unfolding add_epoll
    add_kept d key s = elim (Bool-cases (is_zero (requested d s))) [
      | inl z ↦ rw (z, add_epoll) (refl, refl, λ i. i)
      | inr z ↦ rw (z, add_epoll) (refl, refl, λ i. i)
    ]

    pub add-IsInSync :
        (d : ℕ) (s : Server calls)
        → s.next_dispatcher_key + 1 < 2 ^ 64
        → get_epoll_events (followed (s.sockets d)) ≡ requested d s
        → IsInSync s
        → IsInSync (add d s)
    unfolding add
    add-IsInSync d s small ready i = elim (Option-cases (s.key_by_dispatcher d)) [
      | inr (key, e) ↦ rw (e, add) i
      | inl n ↦
          let key = s.next_dispatcher_key in
          let s1 = record s {
            next_dispatcher_key = next_key key;
            dispatcher_by_key = emplace s.dispatcher_by_key key d;
            key_by_dispatcher = put s.key_by_dispatcher d (some key);
          } in
          let (keys, states, keyed) = add_kept d key s1 in
          let at_d : Agrees (add_epoll d key s1) d =
            rw (keys, states)
              (λ h.
                add_missing d key s1 (λ r. i.agrees d r ∙ rw n refl) h
                ∙ ap (wanted (some key)) (sym ready)
                ∙ ap (λ o. wanted o (get_epoll_events (followed (s.sockets d))))
                    (sym (put_same s.key_by_dispatcher d (some key)))) in
          rw (n, add)
            (record {
              keyed = keyed (added-IsKeyMap i.keyed d small n);
              agrees = λ g. elim (Bool-cases (g == d)) [
                | inl same ↦ subst (Agrees (add_epoll d key s1)) (sym ((==_iff g d).0 same)) at_d
                | inr other ↦
                    let (same, kept) = add_elsewhere d g key s1 other in
                    rw (keys, states)
                      (λ h.
                        same
                        ∙ i.agrees g (kept h)
                        ∙ ap (λ o. wanted o (get_epoll_events (followed (s.sockets g))))
                            (sym (put_other s.key_by_dispatcher d g (some key) other)))
              ];
            })
    ]
