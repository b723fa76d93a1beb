-- ===== src/Core/Graph/Acyclic.antt =====
-- Kahn's algorithm accepts exactly the graphs that can be ranked, every edge going up.
use chainbreak.Common.{
  ℕ, zero, suc, ◌+◌, ◌≤◌, ◌<◌, ◌≡◌, ◌↔◌, sym, ap, ◌∙◌, true, false, List, [], ◌∷◌, arith, ◌==◌,
  if◌then◌else◌, length, mem, all, Bool-cases, inl, inr, ==_iff, In, all-In,
}
use chainbreak.Common.Nodup.{Nodup, mem_apart, Nodup-covers, Nodup-length-le}
use chainbreak.Core.Errors.{ok}
use chainbreak.Core.Models.{DelegationEdge}
use chainbreak.Core.Graph.Kahn.{indegree, sources, release, drain, visit_all, assert_acyclic}
use chainbreak.Core.Graph.Counting.{
  pending, indegree-pending, pending-source, source-pending, IsQueue, release-IsQueue,
  sources-IsQueue,
}

-- Every edge starts below where it ends.
abbrev pub IsRanking : List DelegationEdge → (ℕ → ℕ) → Type 0
IsRanking edges rank = (e : DelegationEdge) → In e edges → rank e.source_id < rank e.target_id

-- The loop itself, without fuel: it goes on from its in-degrees, its queue and what it has visited
-- until the queue is empty, and has then visited the last list.
pub data Drains (edges : List DelegationEdge)
    : (ℕ → ℕ) → (queue visited result : List ℕ) → Type 0 where
  ends : {d : ℕ → ℕ} {visited : List ℕ} → Drains edges d [] visited visited
  rounds :
      {d : ℕ → ℕ} {c : ℕ} {queue visited result : List ℕ}
      → Drains edges (release c edges d queue).0 (release c edges d queue).1 (c ∷ visited) result
      → Drains edges d (c ∷ queue) visited result

module _ (ids : List ℕ) (edges : List DelegationEdge) where
  abbrev IsOrdered : List ℕ → Type 0
  IsOrdered [] = Unit
  IsOrdered (v ∷ visited) = (pending visited edges v ≡ 0) × IsOrdered visited

  record IsRun (d : ℕ → ℕ) (queue visited : List ℕ) : Type 0 where
    nodup : Nodup visited
    inside : (i : ℕ) → mem i visited ≡ true → mem i ids ≡ true
    counts : (i : ℕ) → d i ≡ pending visited edges i
    ordered : IsOrdered visited
    waiting : IsQueue ids d queue visited

  -- What holds of the visited nodes when the loop has ended.
  record IsFinal (visited : List ℕ) : Type 0 where
    nodup : Nodup visited
    inside : (i : ℕ) → mem i visited ≡ true → mem i ids ≡ true
    ordered : IsOrdered visited
    full : (i : ℕ) → mem i ids ≡ true → pending visited edges i ≡ 0 → mem i visited ≡ true

  pop-IsQueue :
      (d : ℕ → ℕ) (c : ℕ) (queue visited : List ℕ)
      → IsQueue ids d (c ∷ queue) visited
      → IsQueue ids d queue (c ∷ visited)
  pop-IsQueue d c queue visited q = record {
    nodup = q.nodup.1;
    ready = λ i m. q.ready i (ground arith);
    done = λ i m. ground (arith, q.done i, q.ready i);
    apart = λ i m. ground (arith, q.apart i, q.nodup.0);
    within = λ i m. q.within i (ground arith);
    full = λ i m z. ground (arith, q.full i m z);
  }

  module _ (targets : all (λ e. mem e.target_id ids) edges ≡ true) where
    round-IsRun :
        (d : ℕ → ℕ) (c : ℕ) (queue visited : List ℕ)
        → IsRun d (c ∷ queue) visited
        → let (d', queue') = release c edges d queue in IsRun d' queue' (c ∷ visited)
    round-IsRun d c queue visited r =
        let c_head : mem c (c ∷ queue) ≡ true = ground arith in
        let fresh : mem c visited ≡ false = r.waiting.apart c c_head in
        let (counts', q') =
          release-IsQueue ids c visited edges (λ _. 0) d queue fresh targets
            (λ i. omega (arith, r.counts i)) (pop-IsQueue d c queue visited r.waiting) in
        record {
          nodup = (fresh, r.nodup);
          inside = λ i m. ground (arith, r.inside i, r.waiting.within i);
          counts = λ i. omega (arith, counts' i);
          ordered = (sym (r.counts c) ∙ r.waiting.ready c c_head, r.ordered);
          waiting = q';
        }

    drain-IsFinal :
        (fuel : ℕ) (d : ℕ → ℕ) (queue visited : List ℕ)
        → IsRun d queue visited
        → length ids ≤ fuel + length visited
        → IsFinal (drain fuel edges d queue visited)
    unfolding drain
    drain-IsFinal zero d queue visited r enough = record {
      nodup = r.nodup;
      inside = r.inside;
      ordered = r.ordered;
      full = λ i m z. Nodup-covers visited ids r.nodup r.inside (omega arith) i m;
    }
    drain-IsFinal (suc fuel) d [] visited r enough = record {
      nodup = r.nodup;
      inside = r.inside;
      ordered = r.ordered;
      full = λ i m z. r.waiting.full i m (r.counts i ∙ z);
    }
    drain-IsFinal (suc fuel) d (c ∷ queue) visited r enough =
        drain-IsFinal fuel _ _ (c ∷ visited) (round-IsRun d c queue visited r) (omega arith)

    drain-Drains :
        (fuel : ℕ) (d : ℕ → ℕ) (queue visited : List ℕ)
        → IsRun d queue visited
        → length ids ≤ fuel + length visited
        → Drains edges d queue visited (drain fuel edges d queue visited)
    unfolding drain
    drain-Drains zero d [] visited r enough = Drains.ends
    drain-Drains zero d (c ∷ queue) visited r enough =
        let c_head : mem c (c ∷ queue) ≡ true = ground arith in
        let seen =
          Nodup-covers visited ids r.nodup r.inside (omega arith) c (r.waiting.within c c_head) in
        let fresh = r.waiting.apart c c_head in cc
    drain-Drains (suc fuel) d [] visited r enough = Drains.ends
    drain-Drains (suc fuel) d (c ∷ queue) visited r enough =
        Drains.rounds
          (drain-Drains fuel _ _ (c ∷ visited) (round-IsRun d c queue visited r) (omega arith))

    start-IsRun : Nodup ids → IsRun (indegree edges) (sources (indegree edges) ids []) []
    start-IsRun nodup = record {
      nodup = tt;
      inside = λ i m. cc;
      counts = indegree-pending edges;
      ordered = tt;
      waiting = sources-IsQueue (indegree edges) ids nodup;
    }

    visit_all-IsFinal : Nodup ids → IsFinal (visit_all ids edges)
    unfolding visit_all
    visit_all-IsFinal nodup = drain-IsFinal (length ids) _ _ [] (start-IsRun nodup) (omega arith)

  -- The place of a node among the visited ones, counted from the first.
  abbrev place : List ℕ → ℕ → ℕ
  place [] i = 0
  place (v ∷ visited) i = if i == v then suc (length visited) else place visited i

  place-le : (visited : List ℕ) (i : ℕ) → place visited i ≤ length visited
  place-le [] i = omega arith
  place-le (v ∷ visited) i = ground (arith, place-le visited i)

  place-lt :
      (visited : List ℕ) (e : DelegationEdge)
      → Nodup visited
      → IsOrdered visited
      → In e edges
      → mem e.target_id visited ≡ true
      → (mem e.source_id visited ≡ true) × (place visited e.source_id < place visited e.target_id)
  place-lt [] e nodup ordered m t = cc
  place-lt (v ∷ visited) e nodup ordered m t = elim (Bool-cases (e.target_id == v)) [
    | inl last ↦
        let same : e.target_id ≡ v = (==_iff e.target_id v).0 last in
        let known : mem e.source_id visited ≡ true =
          pending-source visited edges e (rw same ordered.0) m in
        ground (arith, mem_apart v e.source_id visited nodup.0 known, place-le visited e.source_id)
    | inr earlier ↦
        let (known, below) = place-lt visited e nodup.1 ordered.1 m (ground arith) in
        ground (arith, mem_apart v e.source_id visited nodup.0 known)
  ]

  -- Accepted graphs have a ranking.
  visit_all-IsRanking :
      Nodup ids
      → all (λ e. mem e.target_id ids) edges ≡ true
      → (length (visit_all ids edges) == length ids) ≡ true
      → IsRanking edges (place (visit_all ids edges))
  visit_all-IsRanking nodup targets every e m =
      let f = visit_all-IsFinal targets nodup in
      let target : mem e.target_id ids ≡ true = all-In (λ x. mem x.target_id ids) edges targets m in
      let visited : mem e.target_id (visit_all ids edges) ≡ true =
        Nodup-covers (visit_all ids edges) ids f.nodup f.inside (ground arith) e.target_id target in
      (place-lt (visit_all ids edges) e f.nodup f.ordered m visited).1

  -- In a ranked graph the loop reaches every node, by induction on the rank.
  module _ (rank : ℕ → ℕ) (ranking : IsRanking edges rank)
      (known : all (λ e. mem e.source_id ids) edges ≡ true) where
    IsFinal-reaches :
        (visited : List ℕ) (bound i : ℕ)
        → IsFinal visited
        → rank i < bound
        → mem i ids ≡ true
        → mem i visited ≡ true
    IsFinal-reaches visited zero i f low m = absurd (omega arith)
    IsFinal-reaches visited (suc bound) i f low m = f.full i m (
        source-pending visited edges i λ e h t.
          let up : rank e.source_id < rank e.target_id = ranking e h in
          let height : rank e.target_id ≡ rank i = ap rank t in
          IsFinal-reaches visited bound e.source_id f (omega arith)
            (all-In (λ x. mem x.source_id ids) edges known h))

    visit_all_complete :
        Nodup ids
        → all (λ e. mem e.target_id ids) edges ≡ true
        → (length (visit_all ids edges) == length ids) ≡ true
    visit_all_complete nodup targets =
        let f = visit_all-IsFinal targets nodup in
        let up : length (visit_all ids edges) ≤ length ids =
          Nodup-length-le (visit_all ids edges) ids f.nodup f.inside in
        let down : length ids ≤ length (visit_all ids edges) =
          Nodup-length-le ids (visit_all ids edges) nodup
            λ i m. IsFinal-reaches (visit_all ids edges) (suc (rank i)) i f (omega arith) m in
        ground arith

pub acyclic_iff :
    (ids : List ℕ) (edges : List DelegationEdge)
    → Nodup ids
    → all (λ e. mem e.source_id ids) edges ≡ true
    → all (λ e. mem e.target_id ids) edges ≡ true
    → (assert_acyclic ids edges ≡ ok tt) ↔ ((rank : ℕ → ℕ) × IsRanking edges rank)
unfolding assert_acyclic
acyclic_iff ids edges nodup origins targets = (
  λ e. (
    place ids edges (visit_all ids edges),
    visit_all-IsRanking ids edges nodup targets (ground arith),
  ),
  λ (rank, ranking).
      ground (arith, visit_all_complete ids edges rank ranking origins nodup targets),
)

-- For a list of distinct nodes that the edges stay in, the loop of the acyclicity check ends with an
-- empty queue, having visited what the model has visited; and the check passes exactly when the
-- nodes can be ranked so that every edge goes up.
pub assert_acyclic_iff :
    (ids : List ℕ) (edges : List DelegationEdge)
    → Nodup ids
    → all (λ e. mem e.source_id ids) edges ≡ true
    → all (λ e. mem e.target_id ids) edges ≡ true
    → Drains edges (indegree edges) (sources (indegree edges) ids []) [] (visit_all ids edges)
      × ((assert_acyclic ids edges ≡ ok tt) ↔ ((rank : ℕ → ℕ) × IsRanking edges rank))
unfolding visit_all
assert_acyclic_iff ids edges nodup origins targets = (
  drain-Drains ids edges targets (length ids) (indegree edges) (sources (indegree edges) ids []) []
      (start-IsRun ids edges targets nodup) (omega arith),
  acyclic_iff ids edges nodup origins targets,
)
