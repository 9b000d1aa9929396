-- ===== src/EpollServer/Calls.antt =====
-- What a call of epoll_ctl that does not fail leaves in the system's set
-- (rtc_base/physical_socket_server.cc).
use tqlib.Prelude.{
  ℕ, ◌≡◌, refl, sym, ◌∙◌, inl, inr, Bool, true, false, not, Option, none, some, ◌==◌, ◌||◌, ◌⊎◌,
  if◌then◌else◌, Bool-cases,
}
use tqlib.EpollServer.{
  EpollEvents, is_zero, EpollCalls, IsEpoll, CtlResult, done, no_entry, failed, is_done, put,
  Server, requested, remove_epoll, modify_or_add, update_epoll,
}
use tqlib.EpollServer.KeyMaps.{put_same, put_other}

-- What the system's set has to hold of a dispatcher with a key, or of one without.
abbrev pub wanted : Option ℕ → EpollEvents → Option (EpollEvents × ℕ)
wanted none e = none
wanted (some key) e = if is_zero e then none else some (e, key)

CtlResult-cases : (r : CtlResult) → (r ≡ done) ⊎ (r ≡ no_entry) ⊎ (r ≡ failed)
CtlResult-cases done = inl refl
CtlResult-cases no_entry = inr (inl refl)
CtlResult-cases failed = inr (inr refl)

pub is_done_sound : (r : CtlResult) → not (is_done r) ≡ false → r ≡ done
is_done_sound done h = refl
is_done_sound no_entry h = cc
is_done_sound failed h = cc

neither : (a b : Bool) → (a || b) ≡ false → (a ≡ false) × (b ≡ false)
neither false false h = (refl, refl)
neither false true h = cc
neither true b h = cc

-- A call that the history does not have as failed, and one for another descriptor.
pub not_refused :
    (f : ℕ → Bool) (d : ℕ) (fails : Bool)
    → put f d (f d || fails) d ≡ false
    → (f d ≡ false) × (fails ≡ false)
not_refused f d fails h = neither (f d) fails (sym (put_same f d (f d || fails)) ∙ h)

pub not_refused_other :
    (f : ℕ → Bool) (d g : ℕ) (v : Bool) → (g == d) ≡ false → put f d v g ≡ false → f g ≡ false
not_refused_other f d g v n h = sym (put_other f d g v n) ∙ h

module _ {calls : EpollCalls} where
  module _ (law : IsEpoll calls) where
    modify_same :
        (d : ℕ) (i : EpollEvents × ℕ) (e : calls.Interests)
        → (modify_or_add calls d i e).0 ≡ false
        → calls.registered (modify_or_add calls d i e).1 d ≡ some i
    unfolding modify_or_add
    modify_same d i e h = elim (CtlResult-cases (calls.ctl_mod d i e).0) [
      | inl p ↦ rw (p, modify_or_add) (law.mod_done d i e p)
      | inr (inl p) ↦
          rw (p, modify_or_add) (law.add_done d i _ (is_done_sound _ (rw (p, modify_or_add) at h)))
      | inr (inr p) ↦ let clash : true ≡ false = rw (p, modify_or_add) at h in cc
    ]

    modify_other :
        (d g : ℕ) (i : EpollEvents × ℕ) (e : calls.Interests)
        → (g == d) ≡ false
        → calls.registered (modify_or_add calls d i e).1 g ≡ calls.registered e g
    unfolding modify_or_add
    modify_other d g i e n = elim (CtlResult-cases (calls.ctl_mod d i e).0) [
      | inl p ↦ rw (p, modify_or_add) (law.mod_other d g i e n)
      | inr (inl p) ↦ rw (p, modify_or_add) (law.add_other d g i _ n ∙ law.mod_other d g i e n)
      | inr (inr p) ↦ rw (p, modify_or_add) (law.mod_other d g i e n)
    ]

    pub update_same :
        (d key : ℕ) (s : Server calls)
        → (update_epoll d key s).refused d ≡ false
        → calls.registered (update_epoll d key s).interests d ≡ wanted (some key) (requested d s)
    unfolding update_epoll remove_epoll
    update_same d key s h = elim (Bool-cases (is_zero (requested d s))) [
      | inl z ↦
          let ok = not_refused s.refused d _ (rw (z, update_epoll) at h) in
          rw (z, update_epoll) (law.del_done d s.interests ok.1)
      | inr z ↦
          let ok = not_refused s.refused d _ (rw (z, update_epoll) at h) in
          rw (z, update_epoll) (modify_same d (requested d s, key) s.interests ok.1)
    ]

    pub update_other :
        (d g key : ℕ) (s : Server calls)
        → (g == d) ≡ false
        → (calls.registered (update_epoll d key s).interests g ≡ calls.registered s.interests g)
          × ((update_epoll d key s).refused g ≡ false → s.refused g ≡ false)
    unfolding update_epoll remove_epoll
    update_other d g key s n = elim (Bool-cases (is_zero (requested d s))) [
      | inl z ↦
          rw (z, update_epoll)
            (law.del_other d g s.interests n, not_refused_other s.refused d g _ n)
      | inr z ↦
          rw (z, update_epoll)
            (
              modify_other d g (requested d s, key) s.interests n,
              not_refused_other s.refused d g _ n,
            )
    ]

    pub others_kept :
        (d key : ℕ) (s : Server calls)
        → ((update_epoll d key s).key_by_dispatcher ≡ s.key_by_dispatcher)
          × ((update_epoll d key s).sockets ≡ s.sockets)
    unfolding update_epoll remove_epoll
    others_kept d key s = elim (Bool-cases (is_zero (requested d s))) [
      | inl z ↦ rw (z, update_epoll) (refl, refl)
      | inr z ↦ rw (z, update_epoll) (refl, refl)
    ]
