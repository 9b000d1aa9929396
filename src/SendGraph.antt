-- ===== src/SendGraph.antt =====
-- The graph of blocking calls that ThreadManager keeps (rtc_base/thread.cc and thread.h). A thread is a
-- number; the graph gives the set of the threads that a thread sends to as a list, which is empty
-- where the map has no entry.
pub mod Reach
pub mod Acyclic
mod Examples
use tqlib.Prelude.{
  ℕ, zero, suc, ◌+◌, Bool, true, false, Option, none, some, List, [], ◌∷◌, ◌++◌, ◌==◌,
  if◌then◌else◌,
}

-- `send_graph_`
abbrev pub Graph : Type 0
Graph = ℕ → List ℕ

-- `c_count`
unfoldable pub c_count : ℕ → List ℕ → ℕ
c_count t [] = 0
c_count t (u ∷ us) = let rest = c_count t us in if u == t then rest + 1 else rest

-- The loop of `RegisterSendAndCheckForCycles`: the elements of `all_targets` from the index on, once
-- the loop is over. The fuel counts the rounds.
unfoldable pub collect_targets : ℕ → Graph → List ℕ → Option (List ℕ)
collect_targets fuel g [] = some []
collect_targets zero g (t ∷ ts) = none
collect_targets (suc fuel) g (t ∷ ts) =
    let rest = collect_targets fuel g (ts ++ g t) in
    elim rest [ none ↦ none | some us ↦ some (t ∷ us) ]

-- How `RegisterSendAndCheckForCycles` ends.
pub data Registration : Type 0 where
  running : Registration
  send_loop : Registration
  registered : Graph → Registration

-- `set::insert`
unfoldable pub set_insert : ℕ → List ℕ → List ℕ
unfolding c_count
set_insert t us = if c_count t us == 0 then t ∷ us else us

-- `send_graph_[source].insert(target)`
unfoldable pub add_edge : ℕ → ℕ → Graph → Graph
unfolding set_insert
add_edge source target g a = if a == source then set_insert target (g a) else g a

-- `RegisterSendAndCheckForCycles`
unfoldable pub register_send : ℕ → ℕ → ℕ → Graph → Registration
unfolding collect_targets add_edge
register_send fuel source target g = elim (collect_targets fuel g (target ∷ [])) [
  | none ↦ running
  | some all_targets ↦
      if c_count source all_targets == 0 then registered (add_edge source target g) else send_loop
]

-- `erase` of a thread from a set
unfoldable pub set_erase : ℕ → List ℕ → List ℕ
set_erase t [] = []
set_erase t (u ∷ us) = let rest = set_erase t us in if u == t then rest else u ∷ rest

-- `RemoveFromSendGraph`
unfoldable pub remove_from_send_graph : ℕ → Graph → Graph
unfolding set_erase
remove_from_send_graph thread g a = if a == thread then [] else set_erase thread (g a)
