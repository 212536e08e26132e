-- ===== src/Graph/Cycle/Fuel.antt =====
-- The search ends: each nested visit marks one more node, so the fuel is enough.
use assistant_platform.Graph.Cycle.Found.{All-of_listed}
use assistant_platform.Base.{
  Bool-cases, is_some, All, length, count_where, ℕ, zero, suc, ◌≤◌, ◌<◌, String, ◌≡◌, refl, ap, inl,
  inr, Bool, true, false, not, none, some, List, [], ◌∷◌, arith, str_eq, eq_iff, eq_refl,
  if◌then◌else◌, ◌∙◌,
}
use assistant_platform.Graph.Routing.{
  A2aAcl, neighbours, Mark, visiting, done, Marks, get_mark, Visit, visit_all, finish, visit,
  is_allowed,
}
use assistant_platform.Graph.Cycle.Paths.{listed-neighbours, listed}
use assistant_platform.Graph.Cycle.Clear.{mark_cases}

-- The nodes that have no mark.
abbrev pub unmarked : Marks → List String → ℕ
unmarked ms nodes = count_where (λ x. not (is_some (get_mark ms x))) nodes

pub unmarked-push :
    (n : String) (m : Mark) (ms : Marks) (nodes : List String)
    → unmarked ((n, m) ∷ ms) nodes ≤ unmarked ms nodes
unmarked-push n m ms [] = omega arith
unmarked-push n m ms (x ∷ nodes) = ground (arith, unmarked-push n m ms nodes)

pub unmarked-push_new :
    (n : String) (m : Mark) (ms : Marks) (nodes : List String)
    → listed n nodes ≡ true
    → get_mark ms n ≡ none
    → unmarked ((n, m) ∷ ms) nodes < unmarked ms nodes
unmarked-push_new n m ms [] l h = cc
unmarked-push_new n m ms (x ∷ nodes) l h = elim (Bool-cases (str_eq x n)) [
  | inl e ↦
      let same : x ≡ n = (eq_iff x n).0 e in
      ground (arith, unmarked-push n m ms nodes, ap (get_mark ms) same, eq_refl n, eq_iff n x)
  | inr f ↦ ground (arith, unmarked-push_new n m ms nodes, eq_iff n x, eq_iff x n)
]

pub unmarked-length : (nodes : List String) → unmarked [] nodes ≤ length nodes
unmarked-length [] = omega arith
unmarked-length (x ∷ nodes) = omega (arith, unmarked-length nodes)

-- A visit of an unmarked node, when `k` nodes at most are unmarked, ends, and leaves no more unmarked.
abbrev pub EndsWithin : List String → ℕ → (String → Marks → Visit) → Type 0
EndsWithin nodes k v =
    (n : String) (ms : Marks)
    → listed n nodes ≡ true
    → get_mark ms n ≡ none
    → unmarked ms nodes ≤ k
    → (r : Bool × Marks) × (v n ms ≡ some r) × (unmarked r.1 nodes ≤ unmarked ms nodes)

enter_unmarked :
    (v : String → Marks → Visit) (y : String) (ys : List String) (ms ms1 : Marks) (b : Bool)
    → get_mark ms y ≡ none
    → v y ms ≡ some (b, ms1)
    → visit_all v (y ∷ ys) ms ≡ (if b then some (true, ms1) else visit_all v ys ms1)
enter_unmarked v y ys ms ms1 true m e = ground arith
enter_unmarked v y ys ms ms1 false m e = ground arith

visit_all-ends :
    (nodes : List String) (k : ℕ) (v : String → Marks → Visit) (ys : List String) (ms : Marks)
    → EndsWithin nodes k v
    → All (λ y. listed y nodes ≡ true) ys
    → unmarked ms nodes ≤ k
    → (r : Bool × Marks) × (visit_all v ys ms ≡ some r) × (unmarked r.1 nodes ≤ unmarked ms nodes)
visit_all-ends nodes k v [] ms ih a h = ((false, ms), refl, omega arith)
visit_all-ends nodes k v (y ∷ ys) ms ih a h = elim (mark_cases (get_mark ms y)) [
  | inr (inl m) ↦ ((true, ms), ground arith, omega arith)
  | inr (inr m) ↦
      let (r, e, u) = visit_all-ends nodes k v ys ms ih a.1 h in (r, ground (arith, e), u)
  | inl m ↦
      let ((b, ms1), e, u) = ih y ms a.0 m h in
      elim (Bool-cases b) [
        | inl t ↦ ((true, ms1), enter_unmarked v y ys ms ms1 b m e ∙ ground arith, u)
        | inr f ↦
            let (r, e1, u1) = visit_all-ends nodes k v ys ms1 ih a.1 (omega arith) in
            (r, enter_unmarked v y ys ms ms1 b m e ∙ ground (arith, e1), omega arith)
      ]
]

finish-ends :
    (nodes : List String) (n : String) (k : ℕ) (v : Visit) (r : Bool × Marks)
    → v ≡ some r
    → unmarked r.1 nodes ≤ k
    → (r' : Bool × Marks) × (finish n v ≡ some r') × (unmarked r'.1 nodes ≤ k)
finish-ends nodes n k v (true, ms) e h = ((true, ms), rw e refl, h)
finish-ends nodes n k v (false, ms) e h =
    ((false, (n, done) ∷ ms), rw e refl, omega (arith, unmarked-push n done ms nodes))

-- The ends of the edges are among the nodes.
abbrev pub Closed : A2aAcl → List String → Type 0
Closed acl nodes = (a b : String) → is_allowed acl a b ≡ true → listed b nodes ≡ true

pub visit-EndsWithin :
    (acl : A2aAcl) (nodes : List String)
    → Closed acl nodes
    → (fuel : ℕ) → EndsWithin nodes fuel (visit acl fuel)
unfolding visit
visit-EndsWithin acl nodes c zero n ms l m h =
    absurd (omega (arith, unmarked-push_new n done ms nodes l m))
visit-EndsWithin acl nodes c (suc fuel) n ms l m h =
    let less = unmarked-push_new n visiting ms nodes l m in
    let (r, e, u) =
      visit_all-ends nodes fuel (visit acl fuel) (neighbours acl n) ((n, visiting) ∷ ms)
        (visit-EndsWithin acl nodes c fuel)
        (All-of_listed _ (neighbours acl n) (λ y k. c n y (rw (listed-neighbours acl n y) at k)))
        (omega (arith, less)) in
    finish-ends nodes n (unmarked ms nodes) _ r e (omega (arith, less, u))
