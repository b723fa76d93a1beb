-- ===== src/Core/Graph/Counting.antt =====
-- What Kahn's algorithm keeps while it runs: the in-degrees count the edges from nodes that are
-- not yet visited, and the queue holds the nodes that have none left.
use chainbreak.Common.{
  ℕ, ◌+◌, ◌≤◌, ◌≡◌, refl, ap, true, false, not, ◌&&◌, ◌||◌, List, [], ◌∷◌, arith, ◌==◌,
  if◌then◌else◌, mem, all, &&-eq-true, Bool-cases, inl, inr, ==_iff, ==_refl, In, here, there,
}
use chainbreak.Common.Nodup.{Nodup, mem_apart}
use chainbreak.Core.Models.{DelegationEdge}
use chainbreak.Core.Graph.Kahn.{indegree, decrement, sources, release}

-- Whether the edge into `i` still waits for its source.
abbrev pub waits : List ℕ → DelegationEdge → ℕ → ℕ
waits visited e i = if not (mem e.source_id visited) && e.target_id == i then 1 else 0

-- The edges into `i` from nodes that are not visited.
abbrev pub pending : List ℕ → List DelegationEdge → ℕ → ℕ
pending visited [] i = 0
pending visited (e ∷ es) i = waits visited e i + pending visited es i

pub indegree-pending : (es : List DelegationEdge) (i : ℕ) → indegree es i ≡ pending [] es i
unfolding indegree
indegree-pending [] i = refl
indegree-pending (e ∷ es) i = ground (arith, indegree-pending es i)

-- Where no edge waits, every edge into the node comes from a visited one.
pub pending-source :
    (visited : List ℕ) (es : List DelegationEdge) (e : DelegationEdge)
    → pending visited es e.target_id ≡ 0
    → In e es
    → mem e.source_id visited ≡ true
pending-source visited [] e h m = elim m [ ]
pending-source visited (x ∷ es) e h (here same) =
    let source : e.source_id ≡ x.source_id = ap (λ (y : DelegationEdge). y.source_id) same in
    let target : e.target_id ≡ x.target_id = ap (λ (y : DelegationEdge). y.target_id) same in
    rw source (ground (arith, target))
pending-source visited (x ∷ es) e h (there m) = pending-source visited es e (omega arith) m

-- Where every edge into a node comes from a visited one, no edge waits.
pub source-pending :
    (visited : List ℕ) (es : List DelegationEdge) (i : ℕ)
    → ((e : DelegationEdge) → In e es → e.target_id ≡ i → mem e.source_id visited ≡ true)
    → pending visited es i ≡ 0
source-pending visited [] i h = refl
source-pending visited (x ∷ es) i h =
    ground (arith, h x (here refl), source-pending visited es i (λ e m. h e (there m)))

module _ (current : ℕ) (e : DelegationEdge) (es : List DelegationEdge) (d : ℕ → ℕ) where
  release_own :
      (queue : List ℕ)
      → (e.source_id == current) ≡ true
      → let d' = decrement d e.target_id in
        release current (e ∷ es) d queue
        ≡ release current es d' (if d' e.target_id == 0 then e.target_id ∷ queue else queue)
  unfolding release
  release_own queue mine = rw (mine, release)

  release_other :
      (queue : List ℕ)
      → (e.source_id == current) ≡ false
      → release current (e ∷ es) d queue ≡ release current es d queue
  unfolding release
  release_other queue other = rw (other, release)

module _ (ids : List ℕ) where
  pub record IsQueue (d : ℕ → ℕ) (queue visited : List ℕ) : Type 0 where
    pub nodup : Nodup queue
    pub ready : (i : ℕ) → mem i queue ≡ true → d i ≡ 0
    pub done : (i : ℕ) → mem i visited ≡ true → d i ≡ 0
    pub apart : (i : ℕ) → mem i queue ≡ true → mem i visited ≡ false
    pub within : (i : ℕ) → mem i queue ≡ true → mem i ids ≡ true
    pub full : (i : ℕ) → mem i ids ≡ true → d i ≡ 0 → (mem i queue || mem i visited) ≡ true

  abbrev enqueue : (ℕ → ℕ) → ℕ → List ℕ → List ℕ
  enqueue d t queue = if d t == 0 then t ∷ queue else queue

  not_queued :
      {d : ℕ → ℕ} {queue visited : List ℕ} (t : ℕ)
      → IsQueue d queue visited
      → 1 ≤ d t
      → (mem t queue ≡ false) × (mem t visited ≡ false)
  not_queued {d} {queue} {visited} t q pos = (
    elim (Bool-cases (mem t queue)) [ inl m ↦ absurd (omega (arith, q.ready t m)) | inr e ↦ e ],
    elim (Bool-cases (mem t visited)) [ inl m ↦ absurd (omega (arith, q.done t m)) | inr e ↦ e ],
  )

  decrement-IsQueue :
      (d : ℕ → ℕ) (queue visited : List ℕ) (t : ℕ)
      → IsQueue d queue visited
      → 1 ≤ d t
      → mem t ids ≡ true
      → IsQueue (decrement d t) (enqueue (decrement d t) t queue) visited
  unfolding decrement
  decrement-IsQueue d queue visited t q pos known =
      let (outside, unvisited) = not_queued t q pos in
      record {
        nodup = ground (arith, q.nodup);
        ready = λ i m. ground (arith, q.ready i);
        done = λ i m. ground (arith, q.done i m);
        apart = λ i m. ground (arith, q.apart i);
        within = λ i m. ground (arith, q.within i);
        full = λ i m z. ground (arith, q.full i m);
      }

  -- One node's edges released.
  pub release-IsQueue :
      (current : ℕ) (before : List ℕ) (es : List DelegationEdge) (k d : ℕ → ℕ) (queue : List ℕ)
      → mem current before ≡ false
      → all (λ e. mem e.target_id ids) es ≡ true
      → ((i : ℕ) → d i ≡ k i + pending before es i)
      → IsQueue d queue (current ∷ before)
      → let (d', queue') = release current es d queue in
        ((i : ℕ) → d' i ≡ k i + pending (current ∷ before) es i)
        × IsQueue d' queue' (current ∷ before)
  release-IsQueue current before [] k d queue fresh known counts q = unfold release in (counts, q)
  release-IsQueue current before (e ∷ es) k d queue fresh known counts q =
      let (target_known, rest_known) =
        &&-eq-true (mem e.target_id ids) (all (λ x. mem x.target_id ids) es) known in
      elim (Bool-cases (e.source_id == current)) [
        | inl mine ↦
            let same : e.source_id ≡ current = (==_iff e.source_id current).0 mine in
            let unvisited : mem e.source_id before ≡ false = rw same fresh in
            let (counts', q') =
              release-IsQueue current before es k (decrement d e.target_id)
                (enqueue (decrement d e.target_id) e.target_id queue) fresh rest_known
                (λ i. unfold decrement in ground (arith, counts i))
                (decrement-IsQueue d queue (current ∷ before) e.target_id q
                  (ground (arith, counts e.target_id, ==_refl e.target_id)) target_known) in
            rw (release_own current e es d queue mine) (λ i. ground (arith, counts' i), q')
        | inr other ↦
            let (counts', q') =
              release-IsQueue current before es (λ i. k i + waits before e i) d queue fresh
                rest_known (λ i. omega (arith, counts i)) q in
            rw (release_other current e es d queue other) (λ i. ground (arith, counts' i), q')
      ]

module _ (d : ℕ → ℕ) where
  mem-sources :
      (i : ℕ) (ids queue : List ℕ)
      → mem i (sources d ids queue) ≡ (mem i queue || (mem i ids && d i == 0))
  unfolding sources
  mem-sources i [] queue = ground arith
  mem-sources i (j ∷ ids) queue = elim (Bool-cases (i == j)) [
    | inl e ↦
        let same : d i ≡ d j = ap d ((==_iff i j).0 e) in
        ground (arith, mem-sources i ids (if d j == 0 then j ∷ queue else queue))
    | inr e ↦ ground (arith, mem-sources i ids (if d j == 0 then j ∷ queue else queue))
  ]

  Nodup-sources :
      (ids queue : List ℕ)
      → Nodup ids
      → Nodup queue
      → ((i : ℕ) → mem i ids ≡ true → mem i queue ≡ false)
      → Nodup (sources d ids queue)
  unfolding sources
  Nodup-sources [] queue hi hq apart = hq
  Nodup-sources (j ∷ ids) queue hi hq apart = elim (Bool-cases (d j == 0)) [
    | inl z ↦ rw z (
        Nodup-sources ids (j ∷ queue) hi.1 (ground (arith, apart j), hq)
          λ i m. ground (arith, apart i, mem_apart j i ids hi.0 m))
    | inr z ↦ rw z (Nodup-sources ids queue hi.1 hq λ i m. ground (arith, apart i))
  ]

  pub sources-IsQueue : (ids : List ℕ) → Nodup ids → IsQueue ids d (sources d ids []) []
  sources-IsQueue ids nodup = record {
    nodup = Nodup-sources ids [] nodup tt (λ i m. refl);
    ready = λ i m. ground (arith, mem-sources i ids []);
    done = λ i m. cc;
    apart = λ i m. refl;
    within = λ i m. ground (arith, mem-sources i ids []);
    full = λ i m z. ground (arith, mem-sources i ids []);
  }
