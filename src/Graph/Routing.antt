-- ===== src/Graph/Routing.antt =====
-- crates/assistant-agent-graph/src/routing.rs: the agent-to-agent allow-list and its two gates.
use mathlib.Core.Option
use Prim.Native.String.{compare}
use Prim.Native.Nat.{Ordering}
use assistant_platform.Base.{
  ℕ, if◌then◌else◌, is_some, Result, ok, err, length, any, zero, suc, String, Bool, true, false,
  not, ◌&&◌, Option, none, some, List, [], ◌∷◌, str_eq,
}
use assistant_platform.Graph.Registry.{RegisteredProfile}

-- `HashSet<(String, String)>`: the edges in the order in which the set is iterated.
abbrev pub A2aAcl : Type 0
A2aAcl = List (String × String)

abbrev pub is_edge : String → String → String × String → Bool
is_edge from to e = str_eq e.0 from && str_eq e.1 to

unfoldable pub allow : A2aAcl → String → String → A2aAcl
allow acl from to = if any (is_edge from to) acl then acl else (from, to) ∷ acl

unfoldable pub is_allowed : A2aAcl → String → String → Bool
is_allowed acl from to = any (is_edge from to) acl

-- `adjacency.get(node)`: the successors in the order of the edges.
abbrev pub neighbours : A2aAcl → String → List String
neighbours [] node = []
neighbours ((from, to) ∷ acl) node =
    let rest = neighbours acl node in if str_eq from node then to ∷ rest else rest

abbrev place : Ordering → String → String → List String → List String → List String
place Ordering.lt x y rest later = x ∷ y ∷ rest
place Ordering.eq x y rest later = y ∷ rest
place Ordering.gt x y rest later = y ∷ later

-- `BTreeSet::insert`
abbrev pub insert_node : String → List String → List String
insert_node x [] = x ∷ []
insert_node x (y ∷ rest) = place (compare x y) x y rest (insert_node x rest)

abbrev pub nodes_of : A2aAcl → List String
nodes_of [] = []
nodes_of ((from, to) ∷ acl) = insert_node to (insert_node from (nodes_of acl))

pub data Mark : Type 0 where
  visiting done : Mark

-- `BTreeMap<&str, Mark>`, the latest entry of a key first.
abbrev pub Marks : Type 0
Marks = List (String × Mark)

abbrev pub get_mark : Marks → String → Option Mark
get_mark [] node = none
get_mark ((k, m) ∷ marks) node =
    let rest = get_mark marks node in if str_eq k node then some m else rest

-- A visit ends with whether it met a cycle and the marks that it leaves, or runs out of fuel.
abbrev pub Visit : Type 0
Visit = Option (Bool × Marks)

-- The `for` loop over the neighbours, given the nested `visit`.
abbrev pub visit_all : (String → Marks → Visit) → List String → Marks → Visit
visit_all visit [] marks = some (false, marks)
visit_all visit (next ∷ rest) marks =
    let go_on = visit_all visit rest in
    elim (get_mark marks next) [
      | some visiting ↦ some (true, marks)
      | some done ↦ go_on marks
      | none ↦ elim (visit next marks) [
        | none ↦ none
        | some (true, marks') ↦ some (true, marks')
        | some (false, marks') ↦ go_on marks'
      ]
    ]

abbrev pub finish : String → Visit → Visit
finish node (some (false, marks)) = some (false, (node, done) ∷ marks)
finish node v = v

unfoldable pub visit : A2aAcl → ℕ → String → Marks → Visit
visit acl zero node marks = none
visit acl (suc fuel) node marks =
    finish node (visit_all (visit acl fuel) (neighbours acl node) ((node, visiting) ∷ marks))

-- The loop over the nodes: the first node whose visit meets a cycle.
unfoldable pub search_from : A2aAcl → ℕ → List String → Marks → Option (Option String)
search_from acl fuel [] marks = some none
search_from acl fuel (node ∷ rest) marks =
    let go_on = search_from acl fuel rest in
    elim (get_mark marks node) [
      | some _ ↦ go_on marks
      | none ↦ elim (visit acl fuel node marks) [
        | none ↦ none
        | some (true, _) ↦ some (some node)
        | some (false, marks') ↦ go_on marks'
      ]
    ]

-- A nested visit marks one more node, so one round of fuel for each node is enough.
unfoldable pub first_cycle_node : A2aAcl → Option (Option String)
first_cycle_node acl = search_from acl (suc (length (nodes_of acl))) (nodes_of acl) []

unfoldable pub is_acyclic : A2aAcl → Option Bool
is_acyclic acl = Option.map (λ n. not (is_some n)) (first_cycle_node acl)

pub data RoutingError : Type 0 where
  acl_denied : String → String → RoutingError
  cyclic_acl : String → RoutingError
  external_destination_forbidden : String → RoutingError

unfoldable pub authorize_a2a : A2aAcl → String → String → Option (Result RoutingError (Unit {0}))
authorize_a2a acl from to = elim (first_cycle_node acl) [
  | none ↦ none
  | some (some node) ↦ some (err (cyclic_acl node))
  | some none ↦ some (if is_allowed acl from to then ok tt else err (acl_denied from to))
]

unfoldable pub authorize_external_destination : RegisteredProfile → Result RoutingError (Unit {0})
authorize_external_destination profile =
    if profile.allows_external_destinations
    then ok tt
    else err (external_destination_forbidden profile.profile_id)
