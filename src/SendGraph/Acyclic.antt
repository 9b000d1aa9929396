-- ===== src/SendGraph/Acyclic.antt =====
-- The graph of blocking calls stays without cycles (rtc_base/thread.cc).
use mathlib.Core.WellFounded.{Acc}
use tqlib.Prelude.{
  ℕ, zero, suc, ◌+◌, ◌≤◌, ◌≡◌, ◌↔◌, ◌⊎◌, refl, sym, subst, inl, inr, true, false, some, List, [],
  ◌∷◌, ◌++◌, arith, Bool-cases, ◌==◌,
}
use tqlib.SendGraph.{
  Graph, c_count, collect_targets, Registration, send_loop, registered, set_insert, add_edge,
  register_send, set_erase, remove_from_send_graph,
}
use tqlib.SendGraph.Reach.{
  IsIn, Sends, IsAcyclic, Reaches, here, there, eq_of_test, counted, not_counted, IsClosed,
  collect-IsClosed, collect-Reaches,
}

add_edge_other :
    (source target a : ℕ) (g : Graph) → (a == source) ≡ false → add_edge source target g a ≡ g a
unfolding add_edge
add_edge_other source target a g e = rw e refl

-- The targets of a thread in the new graph are those in the old one and, for the source, the target.
IsIn-add_edge :
    (source target a b : ℕ) (g : Graph)
    → IsIn b (add_edge source target g a)
    → IsIn b (g a) ⊎ ((a ≡ source) × (target ≡ b))
unfolding add_edge set_insert
IsIn-add_edge source target a b g h = elim (Bool-cases (a == source)) [
  | inr e ↦ inl (rw e at h)
  | inl e ↦ elim (Bool-cases (c_count target (g a) == 0)) [
    | inr c ↦ inl (rw (e, c) at h)
    | inl c ↦ elim (rw (e, c) at h) as (λ x. IsIn b (g a) ⊎ ((a ≡ source) × (target ≡ b))) [
      | inl q ↦ inr (eq_of_test a source e, q)
      | inr q ↦ inl q
    ]
  ]
]

-- The call is there afterwards, and so are all the old ones.
add_edge-IsIn :
    (source target a b : ℕ) (g : Graph)
    → IsIn b (g a) ⊎ ((a ≡ source) × (target ≡ b))
    → IsIn b (add_edge source target g a)
unfolding add_edge set_insert
add_edge-IsIn source target a b g (inl h) = elim (Bool-cases (a == source)) [
  | inr e ↦ rw e h
  | inl e ↦ elim (Bool-cases (c_count target (g a) == 0)) [
    | inr c ↦ rw (e, c) h
    | inl c ↦ rw (e, c) (inr h)
  ]
]
add_edge-IsIn source target a b g (inr (at, q)) =
    let e : (a == source) ≡ true = ground (arith, at) in
    elim (Bool-cases (c_count target (g a) == 0)) [
      | inr c ↦ rw (e, c) (subst (λ x. IsIn x (g a)) q (counted target (g a) c))
      | inl c ↦ rw (e, c) (inl q)
    ]

module _ (source target : ℕ) (g : Graph) (all : List ℕ) where
  -- What the target reaches does not reach the source, so the new call changes nothing there.
  reached-Acc :
      IsClosed g (target ∷ []) all
      → (IsIn source all → ⊥)
      → {a : ℕ} → Acc (Sends g) a
      → IsIn a all
      → Acc (Sends (add_edge source target g)) a
  reached-Acc c free (Acc.intro a smaller) m = Acc.intro a (λ b h.
      elim (IsIn-add_edge source target a b g h) [
        | inl k ↦ reached-Acc c free (smaller b k) (c.targets a b m k)
        | inr (e, q) ↦ absurd (free (subst (λ x. IsIn x all) e m))
      ])

  added-Acc :
      IsClosed g (target ∷ []) all
      → (IsIn source all → ⊥)
      → IsAcyclic g
      → {a : ℕ} → Acc (Sends g) a
      → Acc (Sends (add_edge source target g)) a
  added-Acc c free acyclic (Acc.intro a smaller) = Acc.intro a (λ b h.
      elim (IsIn-add_edge source target a b g h) [
        | inl k ↦ added-Acc c free acyclic (smaller b k)
        | inr (e, q) ↦
            subst (Acc (Sends (add_edge source target g))) q
              (reached-Acc c free (acyclic target) (c.starts target (inl refl)))
      ])

-- How a registration ended, and what that says of the graph.
pub data Explains (source target : ℕ) (g : Graph) : Registration → Type 0 where
  loops : Reaches g target source → Explains source target g send_loop
  adds :
      (new : Graph)
      → (Reaches g target source → ⊥)
      → IsAcyclic new
      → ((a b : ℕ) → IsIn b (new a) ↔ (IsIn b (g a) ⊎ ((a ≡ source) × (target ≡ b))))
      → Explains source target g (registered new)

stays_collected :
    (g : Graph) (from all : List ℕ) {a b : ℕ}
    → IsClosed g from all
    → Reaches g a b
    → IsIn a all
    → IsIn b all
stays_collected g from all c here m = m
stays_collected g from all c (there {a} {b} k r) m =
    stays_collected g from all c r (c.targets a b m k)

explain :
    (fuel source target : ℕ) (g : Graph) (all : List ℕ)
    → IsAcyclic g
    → collect_targets fuel g (target ∷ []) ≡ some all
    → Explains source target g (register_send fuel source target g)
unfolding register_send
explain fuel source target g all acyclic h =
    let c = collect-IsClosed fuel g (target ∷ []) all h in
    elim (Bool-cases (c_count source all == 0)) [
      | inl e ↦
          let free = not_counted source all e in
          rw (h, e, register_send)
            (adds (add_edge source target g)
              (λ r. free (stays_collected g (target ∷ []) all c r (c.starts target (inl refl))))
              (λ a. added-Acc source target g all c free acyclic (acyclic a))
              (λ a b. (IsIn-add_edge source target a b g, add_edge-IsIn source target a b g)))
      | inr e ↦
          let (t, m, r) =
            collect-Reaches fuel g (target ∷ []) all h source (counted source all e) in
          rw (h, e, register_send) (loops (from_target t m r))
    ]
  where
    from_target : (t : ℕ) → IsIn t (target ∷ []) → Reaches g t source → Reaches g target source
    from_target t (inl e) r = subst (λ x. Reaches g x source) (sym e) r
    from_target t (inr n) r = absurd n

-- The rounds that the loop takes for what it has not been through yet.
pub data Weighs (g : Graph) : List ℕ → ℕ → Type 0 where
  no_more : Weighs g [] 0
  one_more :
      {t : ℕ} {ts : List ℕ} {m n : ℕ}
      → Weighs g (g t) m
      → Weighs g ts n
      → Weighs g (t ∷ ts) (suc (m + n))

weigh_all :
    (g : Graph) (us : List ℕ)
    → ((u : ℕ) → IsIn u us → (m : ℕ) × Weighs g (g u) m)
    → (n : ℕ) × Weighs g us n
weigh_all g [] h = (0, no_more)
weigh_all g (u ∷ us) h =
    let (m, w) = h u (inl refl) in
    let (n, v) = weigh_all g us (λ t k. h t (inr k)) in (suc (m + n), one_more w v)

weigh : (g : Graph) {a : ℕ} → Acc (Sends g) a → (m : ℕ) × Weighs g (g a) m
weigh g (Acc.intro a smaller) = weigh_all g (g a) (λ u h. weigh g (smaller u h))

Weighs-append :
    (g : Graph) {us vs : List ℕ} {m n : ℕ}
    → Weighs g us m
    → Weighs g vs n
    → Weighs g (us ++ vs) (m + n)
Weighs-append g {vs = vs} {n = n} no_more v = subst (Weighs g vs) (omega arith) v
Weighs-append g {vs = vs} {n = n} (one_more {t} {ts} {m = m} {n = k} w u) v =
    subst (Weighs g (t ∷ (ts ++ vs))) (shift m k n) (one_more w (Weighs-append g u v))
  where
    shift : (m k n : ℕ) → suc (m + (k + n)) ≡ suc (m + k) + n
    shift m k n = omega arith

collect_enough :
    (fuel : ℕ) (g : Graph) {from : List ℕ} {n : ℕ}
    → Weighs g from n
    → n ≤ fuel
    → (all : List ℕ) × (collect_targets fuel g from ≡ some all)
unfolding collect_targets
collect_enough zero g no_more h = ([], refl)
collect_enough (suc fuel) g no_more h = ([], refl)
collect_enough zero g (one_more w v) h = absurd (omega (arith, h))
collect_enough (suc fuel) g (one_more {t} {ts} {m} {n} w v) h =
    let (us, e) = collect_enough fuel g (Weighs-append g v w) (less fuel m n h) in
    (t ∷ us, rw (e, collect_targets) refl)
  where
    less : (fuel m n : ℕ) → suc (m + n) ≤ suc fuel → n + m ≤ fuel
    less fuel m n h = omega (arith, h)

-- In a graph without cycles the loop of RegisterSendAndCheckForCycles comes to its end. The check
-- fails where the target already reaches the source, over any number of calls; else it does not
-- reach it, the calls of the new graph are the old ones and the one from the source to the target, and
-- the new graph has no cycle.
pub register_send_correct :
    (source target : ℕ) (g : Graph)
    → IsAcyclic g
    → (enough : ℕ) × ((fuel : ℕ)
        → enough ≤ fuel
        → Explains source target g (register_send fuel source target g))
register_send_correct source target g acyclic =
    let (n, w) = weigh_all g (target ∷ []) (λ u h. weigh g (acyclic u)) in
    (
      n,
      λ fuel k.
          let (all, e) = collect_enough fuel g w k in explain fuel source target g all acyclic e,
    )

IsIn-erase : (t u : ℕ) (us : List ℕ) → IsIn u (set_erase t us) → IsIn u us × ((u == t) ≡ false)
unfolding set_erase
IsIn-erase t u [] h = absurd h
IsIn-erase t u (v ∷ us) h = elim (Bool-cases (v == t)) [
  | inl e ↦ let (k, q) = IsIn-erase t u us (rw e at h) in (inr k, q)
  | inr e ↦ elim (rw e at h) as (λ x. IsIn u (v ∷ us) × ((u == t) ≡ false)) [
    | inl q ↦ (inl q, rw q at e)
    | inr k ↦ let (l, q) = IsIn-erase t u us k in (inr l, q)
  ]
]

IsIn-remove :
    (thread a b : ℕ) (g : Graph)
    → IsIn b (remove_from_send_graph thread g a)
    → IsIn b (g a) × ((a == thread) ≡ false) × ((b == thread) ≡ false)
unfolding remove_from_send_graph
IsIn-remove thread a b g h = elim (Bool-cases (a == thread)) [
  | inl e ↦ absurd (rw e at h)
  | inr e ↦ let (k, q) = IsIn-erase thread b (g a) (rw e at h) in (k, e, q)
]

erase-IsIn : (t u : ℕ) (us : List ℕ) → IsIn u us → (u == t) ≡ false → IsIn u (set_erase t us)
unfolding set_erase
erase-IsIn t u [] h ne = h
erase-IsIn t u (v ∷ us) (inl q) ne = let e : (v == t) ≡ false = rw q ne in rw e (inl q)
erase-IsIn t u (v ∷ us) (inr k) ne = elim (Bool-cases (v == t)) [
  | inl e ↦ rw e (erase-IsIn t u us k ne)
  | inr e ↦ rw e (inr (erase-IsIn t u us k ne))
]

remove-IsIn :
    (thread a b : ℕ) (g : Graph)
    → IsIn b (g a)
    → (a == thread) ≡ false
    → (b == thread) ≡ false
    → IsIn b (remove_from_send_graph thread g a)
unfolding remove_from_send_graph
remove-IsIn thread a b g h e q = rw e (erase-IsIn thread b (g a) h q)

-- A graph with fewer calls.
fewer-Acc :
    (g k : Graph)
    → ((a b : ℕ) → IsIn b (k a) → IsIn b (g a))
    → {a : ℕ} → Acc (Sends g) a
    → Acc (Sends k) a
fewer-Acc g k sub (Acc.intro a smaller) =
    Acc.intro a (λ b h. fewer-Acc g k sub (smaller b (sub a b h)))

-- RemoveFromSendGraph leaves a graph without cycles, whose calls are those of the old one in which the
-- thread is neither the source nor the target.
pub remove_from_send_graph_correct :
    (thread : ℕ) (g : Graph)
    → IsAcyclic g
    → IsAcyclic (remove_from_send_graph thread g)
      × ((a b : ℕ)
          → IsIn b (remove_from_send_graph thread g a)
            ↔ (IsIn b (g a) × ((a == thread) ≡ false) × ((b == thread) ≡ false)))
remove_from_send_graph_correct thread g acyclic = (
  λ a. fewer-Acc g _ (λ b c h. (IsIn-remove thread b c g h).0) (acyclic a),
  λ a b. (IsIn-remove thread a b g, λ (h, e, q). remove-IsIn thread a b g h e q),
)
