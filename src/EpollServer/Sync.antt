-- ===== src/EpollServer/Sync.antt =====
-- The system's set agrees with the events of the sockets (rtc_base/physical_socket_server.cc).
use tqlib.Prelude.{
  ℕ, ◌≡◌, refl, sym, ap, ◌∙◌, subst, inl, inr, Bool, true, false, not, ◌&&◌, none, some, ◌==◌,
  ==_iff, Bool-cases, Option-cases, arith,
}
use tqlib.EpollServer.{
  Events, EpollEvents, get_epoll_events, is_zero, same_bit, same_events, EpollCalls, IsEpoll,
  SocketState, put, Server, requested, remove_epoll, update_epoll, update, is_saved,
  maybe_update_dispatcher,
}
use tqlib.EpollServer.KeyMaps.{put_same, put_other, IsKeyMap}
use tqlib.EpollServer.Calls.{wanted, update_same, update_other, others_kept}

-- The events that the set follows: during a batch those from before it.
abbrev pub followed : SocketState → Events
followed s = elim s.saved_enabled_events [ none ↦ s.enabled_events | some old ↦ old ]

same_bit_sound : (a b : Bool) → same_bit a b ≡ true → a ≡ b
same_bit_sound true true h = refl
same_bit_sound false false h = refl
same_bit_sound true false h = cc
same_bit_sound false true h = cc

same_events_sound : (a b : EpollEvents) → same_events a b ≡ true → a ≡ b
same_events_sound a b h =
    let p = same_bit_sound a.epollin b.epollin (ground (arith, h)) in
    let q = same_bit_sound a.epollout b.epollout (ground (arith, h)) in
    λ j. record { epollin = p j; epollout = q j }

module _ {calls : EpollCalls} where
  abbrev pub IsKeyed : Server calls → Type 0
  IsKeyed s = IsKeyMap s.next_dispatcher_key s.dispatcher_by_key s.key_by_dispatcher

  abbrev pub Agrees : Server calls → ℕ → Type 0
  Agrees s g =
      s.refused g ≡ false
      → calls.registered s.interests g
        ≡ wanted (s.key_by_dispatcher g) (get_epoll_events (followed (s.sockets g)))

  pub record IsInSync (s : Server calls) : Type 0 where
    pub keyed : IsKeyed s
    pub agrees : (g : ℕ) → Agrees s g

  -- A change of the state of one socket.
  abbrev pub with_socket : ℕ → SocketState → Server calls → Server calls
  with_socket d v s = record s { sockets = put s.sockets d v }

  module _ (law : IsEpoll calls) where
    -- `Update` makes the set agree for its dispatcher, if that is in no batch.
    update-Agrees :
        (d : ℕ) (s : Server calls) (old : EpollEvents)
        → (s.sockets d).saved_enabled_events ≡ none
        → (s.refused d ≡ false
            → calls.registered s.interests d ≡ wanted (s.key_by_dispatcher d) old)
        → ((g : ℕ) → (g == d) ≡ false → Agrees s g)
        → (g : ℕ) → Agrees (update d s) g
    unfolding update
    update-Agrees d s old unsaved before others g = elim (Bool-cases (g == d)) [
      | inr other ↦ elim (Option-cases (s.key_by_dispatcher d)) [
        | inl n ↦ rw (n, update) (others g other)
        | inr (k, e) ↦
            let (same, kept) = update_other law d g k s other in
            let (keys, states) = others_kept law d k s in
            rw (e, update, keys, states) (λ h. same ∙ others g other (kept h))
      ]
      | inl same ↦
          subst (Agrees (update d s)) (sym ((==_iff g d).0 same))
            (elim (Option-cases (s.key_by_dispatcher d)) [
              | inl n ↦ rw (n, update) (λ h. before h ∙ rw n refl)
              | inr (k, e) ↦
                  let (keys, states) = others_kept law d k s in
                  rw (e, update, keys, states) (λ h. update_same law d k s h ∙ rw (unsaved, e) refl)
            ])
    ]

    pub maybe-Agrees :
        (d : ℕ) (s : Server calls) (old : Events)
        → (s.sockets d).saved_enabled_events ≡ none
        → (s.refused d ≡ false
            → calls.registered s.interests d
              ≡ wanted (s.key_by_dispatcher d) (get_epoll_events old))
        → ((g : ℕ) → (g == d) ≡ false → Agrees s g)
        → (g : ℕ) → Agrees (maybe_update_dispatcher d old s) g
    unfolding maybe_update_dispatcher
    maybe-Agrees d s old unsaved before others g =
        elim (Bool-cases (same_events (requested d s) (get_epoll_events old))) [
          | inr differ ↦
              rw (differ, unsaved, maybe_update_dispatcher)
                (update-Agrees d s (get_epoll_events old) unsaved before others g)
          | inl alike ↦
              let e = same_events_sound (requested d s) (get_epoll_events old) alike in
              let at_d : Agrees s d = λ h. before h ∙ rw (unsaved, e) refl in
              rw (alike, maybe_update_dispatcher)
                (elim (Bool-cases (g == d)) [
                  | inl same ↦ subst (Agrees s) (sym ((==_iff g d).0 same)) at_d
                  | inr other ↦ others g other
                ])
        ]

    update-IsKeyed : (d : ℕ) (s : Server calls) → IsKeyed s → IsKeyed (update d s)
    unfolding update update_epoll remove_epoll
    update-IsKeyed d s i = elim (Option-cases (s.key_by_dispatcher d)) [
      | inl n ↦ rw (n, update) i
      | inr (k, e) ↦ elim (Bool-cases (is_zero (requested d s))) [
        | inl z ↦ rw (e, update, z, update_epoll) i
        | inr z ↦ rw (e, update, z, update_epoll) i
      ]
    ]

    pub maybe-IsKeyed :
        (d : ℕ) (old : Events) (s : Server calls)
        → IsKeyed s
        → IsKeyed (maybe_update_dispatcher d old s)
    unfolding maybe_update_dispatcher
    maybe-IsKeyed d old s i =
        elim (Bool-cases (
          not (same_events (requested d s) (get_epoll_events old))
          && not (is_saved (s.sockets d).saved_enabled_events))) [
            | inl t ↦ rw (t, maybe_update_dispatcher) (update-IsKeyed d s i)
            | inr f ↦ rw (f, maybe_update_dispatcher) i
          ]

    pub others-Agree :
        (d : ℕ) (v : SocketState) (s : Server calls)
        → IsInSync s
        → (g : ℕ) → (g == d) ≡ false
        → Agrees (with_socket d v s) g
    others-Agree d v s i g other = λ h.
        i.agrees g h
        ∙ ap (λ r. wanted (s.key_by_dispatcher g) (get_epoll_events (followed r)))
            (sym (put_other s.sockets d g v other))

    -- A change that leaves what the set follows.
    pub kept_followed :
        (d : ℕ) (v : SocketState) (s : Server calls)
        → IsInSync s
        → get_epoll_events (followed v) ≡ get_epoll_events (followed (s.sockets d))
        → IsInSync (with_socket d v s)
    kept_followed d v s i e = record {
      keyed = i.keyed;
      agrees = λ g. elim (Bool-cases (g == d)) [
        | inr other ↦ others-Agree d v s i g other
        | inl same ↦ subst (Agrees (with_socket d v s)) (sym ((==_iff g d).0 same)) (λ h.
            i.agrees d h
            ∙ ap (wanted (s.key_by_dispatcher d)) (sym e)
            ∙ ap (λ r. wanted (s.key_by_dispatcher d) (get_epoll_events (followed r)))
                (sym (put_same s.sockets d v)))
      ];
    }

    -- A change of a socket that is in no batch, with the update behind it.
    pub then_updated :
        (d : ℕ) (v : SocketState) (old : Events) (s : Server calls)
        → IsInSync s
        → v.saved_enabled_events ≡ none
        → followed (s.sockets d) ≡ old
        → IsInSync (maybe_update_dispatcher d old (with_socket d v s))
    then_updated d v old s i unsaved follows = record {
      keyed = maybe-IsKeyed d old (with_socket d v s) (i.keyed);
      agrees =
          maybe-Agrees d (with_socket d v s) old
            (ap (λ r. r.saved_enabled_events) (put_same s.sockets d v) ∙ unsaved)
            (λ h.
              i.agrees d h ∙ ap (λ e. wanted (s.key_by_dispatcher d) (get_epoll_events e)) follows)
            (others-Agree d v s i);
    }
