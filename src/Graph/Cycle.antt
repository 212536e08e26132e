-- ===== src/Graph/Cycle.antt =====
-- The cycle search of the allow-list finds a cycle exactly if there is one.
pub mod Paths
pub mod Clear
pub mod Found
pub mod Fuel
use assistant_platform.Base.{
  ok, if◌then◌else◌, Bool-cases, Result, err, All, length, ℕ, suc, ◌≤◌, String, ◌≡◌, refl, ap, ◌↔◌,
  inl, inr, true, false, Option, none, some, List, [], ◌∷◌, ◌++◌, arith, ◌∙◌,
}
use assistant_platform.Graph.Routing.{
  is_allowed, A2aAcl, nodes_of, visiting, Marks, get_mark, visit, search_from, first_cycle_node,
  RoutingError, acl_denied, cyclic_acl, authorize_a2a,
}
use assistant_platform.Graph.Cycle.Paths.{
  Ends, PathOf, no_cycle-Ends, listed, start-listed, target-node,
}
use assistant_platform.Graph.Cycle.Clear.{mark_cases, DoneEnd, All-listed, visit-Clear}
use assistant_platform.Graph.Cycle.Found.{LeadsToCycle, All-of_listed, visit-Found}
use assistant_platform.Graph.Cycle.Fuel.{unmarked, unmarked-length, visit-EndsWithin, Closed}

-- What the answer of a search over `nodes` means: a node that leads to a cycle, with none before it
-- that does, or no node that does.
abbrev pub Verdict : A2aAcl → List String → Option String → Type 0
Verdict acl nodes none = All (Ends acl) nodes
Verdict acl nodes (some n) =
    (before after : List String) × (nodes ≡ before ++ n ∷ after)
    × All (Ends acl) before
    × LeadsToCycle acl n

-- Between two visits, nothing is being visited.
abbrev Idle : Marks → Type 0
Idle ms = (x : String) → ¬ (get_mark ms x ≡ some visiting)

add_ended :
    (acl : A2aAcl) (n : String) (nodes : List String) (r : Option String)
    → Ends acl n
    → Verdict acl nodes r
    → Verdict acl (n ∷ nodes) r
add_ended acl n nodes none e v = (e, v)
add_ended acl n nodes (some m) e (before, after, split, early, cycle) =
    (n ∷ before, after, ap (λ t. n ∷ t) split, (e, early), cycle)

pub search_from-Verdict :
    (acl : A2aAcl) (every : List String)
    → Closed acl every
    → (k : ℕ) (nodes : List String) (ms : Marks) → All (λ y. listed y every ≡ true) nodes
    → DoneEnd acl ms
    → Idle ms
    → unmarked ms every ≤ k
    → (r : Option String) × (search_from acl k nodes ms ≡ some r) × Verdict acl nodes r
unfolding search_from
search_from-Verdict acl every c k [] ms a d i u = (none, refl, tt)
search_from-Verdict acl every c k (n ∷ nodes) ms a d i u = elim (mark_cases (get_mark ms n)) [
  | inr (inl m) ↦ absurd (i n m)
  | inr (inr m) ↦
      let (r, e, v) = search_from-Verdict acl every c k nodes ms a.1 d i u in
      (r, ground (arith, e), add_ended acl n nodes r (d n m) v)
  | inl m ↦
      let ((b, ms1), e, less) = visit-EndsWithin acl every c k n ms a.0 m u in
      elim (Bool-cases b) [
        | inl t ↦
            let hit : visit acl k n ms ≡ some (true, ms1) = e ∙ ap (λ x. some (x, ms1)) t in
            (
              some n,
              ground arith,
              ([], nodes, refl, tt, visit-Found acl k n ms ms1 d (λ x h. absurd (i x h)) m hit),
            )
        | inr f ↦
            let miss : visit acl k n ms ≡ some (false, ms1) = e ∙ ap (λ x. some (x, ms1)) f in
            let (end, clear) = visit-Clear acl k n ms ms1 d m miss in
            let (r, e1, v) =
              search_from-Verdict acl every c k nodes ms1 a.1 clear.done_end
                (λ x h. i x (clear.no_new x h)) (omega (arith, less, u)) in
            (r, ground (arith, e1), add_ended acl n nodes r end v)
      ]
]

-- The search ends with one of two answers: no node, and then every path of edges from every node ends;
-- or the first node, in the order of the search, from which a cycle can be reached, and then every path
-- from an earlier node ends.
pub first_cycle_node_exact :
    (acl : A2aAcl)
    → (r : Option String) × (first_cycle_node acl ≡ some r) × Verdict acl (nodes_of acl) r
unfolding first_cycle_node
first_cycle_node_exact acl =
    search_from-Verdict acl (nodes_of acl) (λ a b h. (target-node acl a b h).1)
      (suc (length (nodes_of acl))) (nodes_of acl) [] (All-of_listed _ (nodes_of acl) (λ y h. h))
      (λ x h. absurd (ground arith)) (λ x h. ground arith)
      (omega (arith, unmarked-length (nodes_of acl)))

-- If the paths of every node end, no agent has a path back to itself.
no_cycle_anywhere : (acl : A2aAcl) → All (Ends acl) (nodes_of acl) → (n : String) → ¬ PathOf acl n n
no_cycle_anywhere acl a n p =
    no_cycle-Ends acl n (All-listed (Ends acl) (nodes_of acl) n a (start-listed acl n n p)) p

-- The gate always answers, and lets a handoff through exactly if its edge is on the allow-list and no
-- agent has a path of edges back to itself.
pub authorize_a2a_exact :
    (acl : A2aAcl) (from to : String)
    → (r : Result RoutingError (Unit {0})) × (authorize_a2a acl from to ≡ some r)
      × ((r ≡ ok tt) ↔ ((is_allowed acl from to ≡ true) × ((n : String) → ¬ PathOf acl n n)))
unfolding authorize_a2a
authorize_a2a_exact acl from to = go (first_cycle_node_exact acl)
  where
    go :
        (r : Option String) × (first_cycle_node acl ≡ some r) × Verdict acl (nodes_of acl) r
        → (r : Result RoutingError (Unit {0})) × (authorize_a2a acl from to ≡ some r)
          × ((r ≡ ok tt) ↔ ((is_allowed acl from to ≡ true) × ((n : String) → ¬ PathOf acl n n)))
    go (some n, e, (before, after, split, early, (m, r, p))) =
        (err (cyclic_acl n), ground arith, (λ h. absurd (cc h), λ h. absurd (h.1 m p)))
    go (none, e, v) = (
      if is_allowed acl from to then ok tt else err (acl_denied from to),
      ground arith,
      (λ h. (ground arith, no_cycle_anywhere acl v), λ h. rw (h.0) refl),
    )
