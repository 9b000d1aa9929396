-- ===== src/SendGraph/Examples.antt =====
-- Calls between three threads: 1 sends to 2, and 2 to 3.
use mathlib.Core.WellFounded.{Acc}
use tqlib.Prelude.{
  ℕ, Bool-cases, ◌≤◌, ◌≡◌, ◌↔◌, inl, inr, false, [], ◌∷◌, refl, subst, ◌==◌, if◌then◌else◌,
}
use tqlib.SendGraph.{
  Graph, c_count, collect_targets, send_loop, register_send, remove_from_send_graph,
}
use tqlib.SendGraph.Reach.{IsIn, Sends, IsAcyclic}
use tqlib.SendGraph.Acyclic.{Explains, register_send_correct, remove_from_send_graph_correct}

abbrev chain : Graph
chain a = if a == 1 then 2 ∷ [] else if a == 2 then 3 ∷ [] else []

-- A thread that calls itself, and one that calls back.
self_call : register_send 5 3 3 chain ≡ send_loop
unfolding register_send collect_targets c_count
self_call = refl

call_back : register_send 5 3 1 chain ≡ send_loop
unfolding register_send collect_targets c_count
call_back = refl

silent-Acc : (a : ℕ) → chain a ≡ [] → Acc (Sends chain) a
silent-Acc a e = Acc.intro a (λ b h. absurd (subst (IsIn b) e h))

single-Acc : (a b : ℕ) → chain a ≡ b ∷ [] → Acc (Sends chain) b → Acc (Sends chain) a
single-Acc a b e acc = Acc.intro a (λ c h. elim (subst (IsIn c) e h) as (λ x. Acc (Sends chain) c) [
  | inl q ↦ subst (Acc (Sends chain)) q acc
  | inr n ↦ absurd n
])

chain-IsAcyclic : IsAcyclic chain
chain-IsAcyclic a = elim (Bool-cases (a == 1)) [
  | inl e ↦ single-Acc a 2 (rw e refl) (single-Acc 2 3 refl (silent-Acc 3 refl))
  | inr e ↦ elim (Bool-cases (a == 2)) [
    | inl f ↦ single-Acc a 3 (rw (e, f) refl) (silent-Acc 3 refl)
    | inr f ↦ silent-Acc a (rw (e, f) refl)
  ]
]

register_send_correct_example :
    (enough : ℕ) × ((fuel : ℕ) → enough ≤ fuel → Explains 1 3 chain (register_send fuel 1 3 chain))
register_send_correct_example = register_send_correct 1 3 chain chain-IsAcyclic

remove_from_send_graph_correct_example :
    IsAcyclic (remove_from_send_graph 2 chain)
    × ((a b : ℕ)
        → IsIn b (remove_from_send_graph 2 chain a)
          ↔ (IsIn b (chain a) × ((a == 2) ≡ false) × ((b == 2) ≡ false)))
remove_from_send_graph_correct_example = remove_from_send_graph_correct 2 chain chain-IsAcyclic
