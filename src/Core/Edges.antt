-- ===== src/Core/Edges.antt =====
-- The cycle search of crates/assistant-core/src/validate.rs over the map of edges.
use assistant_platform.Graph.Cycle.{Verdict, search_from-Verdict}
use assistant_platform.Graph.Cycle.Fuel.{unmarked-length}
use assistant_platform.Graph.Cycle.Found.{All-of_listed}
use assistant_platform.Graph.Cycle.Clear.{All-listed}
use assistant_platform.Core.Validate.{Node, names_of, keys_of, edges_of, first_cycle_node}
use assistant_platform.Graph.Routing.{is_allowed, A2aAcl, is_edge}
use assistant_platform.Graph.Cycle.Paths.{
  edge, onward, Ends, PathOf, listed, no_cycle-Ends, listed-insert_node,
}
use assistant_platform.Base.{
  Bool-cases, select, any-append, String, ◌≡◌, refl, ap, inl, inr, Bool, true, ◌&&◌, ◌||◌, List, [],
  ◌∷◌, ◌++◌, map, arith, str_eq, eq_iff, if◌then◌else◌, length, suc, ◌∙◌, ◌↔◌, Option, none, some,
  false,
}

listed-keys_of :
    (x : String) (nodes : List Node) → listed x (keys_of nodes) ≡ listed x (names_of nodes)
listed-keys_of x [] = refl
listed-keys_of x ((id, deps) ∷ nodes) =
    ground (arith, listed-insert_node x id (keys_of nodes), listed-keys_of x nodes)

listed-select :
    (p : String → Bool) (x : String) (xs : List String) → listed x (select p xs) ≡ true → p x ≡ true
listed-select p x [] h = absurd (cc)
listed-select p x (y ∷ ys) h = elim (Bool-cases (str_eq y x)) [
  | inl e ↦ let same = (eq_iff y x).0 e in ground (arith, listed-select p x ys, ap p same)
  | inr e ↦ ground (arith, listed-select p x ys)
]

allowed-pairs :
    (id : String) (ds : List String) (a b : String)
    → is_allowed (map (λ d. (id, d)) ds) a b ≡ (str_eq id a && listed b ds)
unfolding is_allowed
allowed-pairs id [] a b = ground arith
allowed-pairs id (d ∷ ds) a b = ground (arith, allowed-pairs id ds a b)

allowed-append :
    (xs ys : A2aAcl) (a b : String)
    → is_allowed (xs ++ ys) a b ≡ (is_allowed xs a b || is_allowed ys a b)
unfolding is_allowed
allowed-append xs ys a b = any-append (is_edge a b) xs ys

ends_step :
    (known : List String) (id : String) (deps : List String) (names : List String) (rest : A2aAcl)
    → (a b : String) (again : Bool)
    → (is_allowed rest a b ≡ true → (listed a names ≡ true) × (listed b known ≡ true))
    → is_allowed
        (if again then rest else map (λ d. (id, d)) (select (λ d. listed d known) deps) ++ rest)
        a
        b
      ≡ true
    → (listed a (id ∷ names) ≡ true) × (listed b known ≡ true)
ends_step known id deps names rest a b true ih h = let (x, y) = ih h in (ground arith, y)
ends_step known id deps names rest a b false ih h = elim (Bool-cases (is_allowed rest a b)) [
  | inl e ↦ let (x, y) = ih e in (ground arith, y)
  | inr e ↦
      let pairs = map (λ d. (id, d)) (select (λ d. listed d known) deps) in
      let first = allowed-pairs id (select (λ d. listed d known) deps) a b in
      let both = allowed-append pairs rest a b in
      (
        ground (arith, first, both),
        listed-select (λ d. listed d known) b deps (ground (arith, first, both)),
      )
]

-- An edge of the map starts at a node and ends at a known name.
pub edges_of-ends :
    (known : List String) (nodes : List Node) (a b : String)
    → is_allowed (edges_of known nodes) a b ≡ true
    → (listed a (names_of nodes) ≡ true) × (listed b known ≡ true)
edges_of-ends known [] a b h = absurd (unfold is_allowed in cc)
edges_of-ends known ((id, deps) ∷ nodes) a b h =
    ends_step known id deps (names_of nodes) (edges_of known nodes) a b (listed id (names_of nodes))
      (edges_of-ends known nodes a b) h

pub first_cycle_node_lem :
    (known : List String) (nodes : List Node)
    → ((d : String) → listed d known ≡ true → listed d (names_of nodes) ≡ true)
    → (r : Option String) × (first_cycle_node known nodes ≡ some r)
      × Verdict (edges_of known nodes) (keys_of nodes) r
unfolding first_cycle_node
first_cycle_node_lem known nodes k =
    search_from-Verdict (edges_of known nodes) (keys_of nodes)
      (λ a b h. listed-keys_of b nodes ∙ k b (edges_of-ends known nodes a b h).1)
      (suc (length (keys_of nodes))) (keys_of nodes) [] (All-of_listed _ (keys_of nodes) (λ y h. h))
      (λ x h. absurd (ground arith)) (λ x h. ground arith)
      (omega (arith, unmarked-length (keys_of nodes)))

PathOf-mono :
    (acl other : A2aAcl)
    → ((a b : String) → is_allowed acl a b ≡ true → is_allowed other a b ≡ true)
    → (a b : String) → PathOf acl a b
    → PathOf other a b
PathOf-mono acl other k a b (edge _ _ h) = edge a b (k a b h)
PathOf-mono acl other k a b (onward _ m _ h p) =
    onward a m b (k a m h) (PathOf-mono acl other k m b p)

start-name :
    (known : List String) (nodes : List Node) (a b : String)
    → PathOf (edges_of known nodes) a b
    → listed a (names_of nodes) ≡ true
start-name known nodes a b (edge _ _ h) = (edges_of-ends known nodes a b h).0
start-name known nodes a b (onward _ m _ h p) = (edges_of-ends known nodes a m h).0

-- The search finds no node exactly if no node has a path back to itself.
pub Verdict-acyclic :
    (known : List String) (nodes : List Node) (r : Option String)
    → Verdict (edges_of known nodes) (keys_of nodes) r
    → (r ≡ none) ↔ ((n : String) → ¬ PathOf (edges_of known nodes) n n)
Verdict-acyclic known nodes none v = (
  λ _ n p.
      no_cycle-Ends (edges_of known nodes) n
        (All-listed (Ends (edges_of known nodes)) (keys_of nodes) n v
          (listed-keys_of n nodes ∙ start-name known nodes n n p))
        p,
  λ _. refl,
)
Verdict-acyclic known nodes (some n) (before, after, split, early, (m, reach, p)) =
    (λ h. absurd (cc), λ h. absurd (h m p))
