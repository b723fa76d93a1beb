-- ===== src/Core/Graph/Kahn.antt =====
-- `AuthorizationGraph._assert_acyclic` (src/chainbreak/core/models.py): Kahn's algorithm. Python's
-- list is popped at its end, which is the head here. The model keeps the visited nodes, the latest
-- first, where the source keeps their number. The in-degrees are a dict whose keys are all known,
-- so a function; an edge that was counted is taken off once, so they never pass below 0.
use chainbreak.Common.{
  ℕ, zero, suc, ◌-◌, true, false, not, List, [], ◌∷◌, ◌==◌, if◌then◌else◌, length,
}
use chainbreak.Core.Errors.{Result, raise_if, scenario_semantic_error}
use chainbreak.Core.Models.{DelegationEdge}

-- The in-degree of `i`: `indegree[edge.target_id] += 1` for each edge.
unfoldable pub indegree : List DelegationEdge → ℕ → ℕ
indegree [] i = 0
indegree (e ∷ es) i = if e.target_id == i then suc (indegree es i) else indegree es i

unfoldable pub decrement : (ℕ → ℕ) → ℕ → ℕ → ℕ
decrement d i j = if j == i then d j - 1 else d j

-- `for neighbour in adjacency[current]`: the targets of the edges that leave it, in order.
unfoldable pub release : ℕ → List DelegationEdge → (ℕ → ℕ) → List ℕ → (ℕ → ℕ) × List ℕ
unfolding decrement
release current [] d queue = (d, queue)
release current (e ∷ es) d queue = elim (e.source_id == current) [
  | true ↦
      let d' : ℕ → ℕ = decrement d e.target_id in
      release current es d' (if d' e.target_id == 0 then e.target_id ∷ queue else queue)
  | false ↦ release current es d queue
]

-- The `while queue` loop, one round for each unit of fuel; what is visited at the end.
unfoldable pub drain : ℕ → List DelegationEdge → (ℕ → ℕ) → List ℕ → List ℕ → List ℕ
unfolding release
drain zero edges d queue visited = visited
drain (suc fuel) edges d [] visited = visited
drain (suc fuel) edges d (current ∷ queue) visited =
    let next = release current edges d queue in drain fuel edges next.0 next.1 (current ∷ visited)

-- `[i for i in ids if indegree[i] == 0]`, put in order behind what `queue` holds.
unfoldable pub sources : (ℕ → ℕ) → List ℕ → List ℕ → List ℕ
sources d [] queue = queue
sources d (i ∷ ids) queue = sources d ids (if d i == 0 then i ∷ queue else queue)

-- Every round visits another node, so that as many rounds as nodes are enough.
unfoldable pub visit_all : List ℕ → List DelegationEdge → List ℕ
unfolding drain indegree sources
visit_all ids edges = drain (length ids) edges (indegree edges) (sources (indegree edges) ids []) []

unfoldable pub assert_acyclic : List ℕ → List DelegationEdge → Result (Unit {0})
unfolding visit_all
assert_acyclic ids edges =
    raise_if (not (length (visit_all ids edges) == length ids)) scenario_semantic_error
