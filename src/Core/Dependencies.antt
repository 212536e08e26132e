-- ===== src/Core/Dependencies.antt =====
-- The dependencies as they are declared, and the map of edges that
-- crates/assistant-core/src/validate.rs builds of them.
use mathlib.Core.Path.{subst}
use assistant_platform.Base.{
  All, select, ℕ, ◌<◌, String, ◌≡◌, refl, true, List, [], ◌∷◌, ◌++◌, map, arith, Bool-cases,
  All-append, inl, inr, eq_iff,
}
use assistant_platform.Core.Validate.{Node, names_of, edges_of}
use assistant_platform.Core.Empty.{Distinct}
use assistant_platform.Graph.Routing.{A2aAcl, is_edge, is_allowed}
use assistant_platform.Graph.Cycle.Paths.{edge, onward, PathOf, listed}

-- Every declared pair of a node and a dependency.
abbrev pub declared : List Node → A2aAcl
declared [] = []
declared ((id, deps) ∷ nodes) = map (λ d. (id, d)) deps ++ declared nodes

abbrev pub AllKnown : List String → List Node → Type 0
AllKnown known nodes = All (λ n. All (λ d. listed d known ≡ true) n.1) nodes

select_all :
    (known deps : List String)
    → All (λ d. listed d known ≡ true) deps
    → select (λ d. listed d known) deps ≡ deps
select_all known [] h = refl
select_all known (d ∷ deps) h = ground (arith, h.0, select_all known deps h.1)

-- Where the ids are distinct and the dependencies known, nothing is dropped.
pub edges_of-declared :
    (known : List String) (nodes : List Node)
    → Distinct (names_of nodes)
    → AllKnown known nodes
    → edges_of known nodes ≡ declared nodes
edges_of-declared known [] d k = refl
edges_of-declared known ((id, deps) ∷ nodes) d k =
    rw (d.0, select_all known deps k.0, edges_of-declared known nodes d.1 k.1) refl

pairs-All :
    (P : String → String → Type 0) (id : String) (ds : List String)
    → All (P id) ds
    → All (λ (e : String × String). P e.0 e.1) (map (λ d. (id, d)) ds)
pairs-All P id [] h = tt
pairs-All P id (d ∷ ds) h = (h.0, pairs-All P id ds h.1)

declared-All :
    (P : String → String → Type 0) (nodes : List Node)
    → All (λ n. All (P n.0) n.1) nodes
    → All (λ (e : String × String). P e.0 e.1) (declared nodes)
declared-All P [] h = tt
declared-All P ((id, deps) ∷ nodes) h =
    All-append (λ (e : String × String). P e.0 e.1) (map (λ d. (id, d)) deps) (declared nodes)
      (pairs-All P id deps h.0) (declared-All P nodes h.1)

allowed-All :
    (P : String → String → Type 0) (acl : A2aAcl) (a b : String)
    → All (λ (e : String × String). P e.0 e.1) acl
    → is_allowed acl a b ≡ true
    → P a b
unfolding is_allowed
allowed-All P [] a b h e = absurd (cc)
allowed-All P ((x, y) ∷ acl) a b h e = elim (Bool-cases (is_edge a b (x, y))) [
  | inl q ↦
      let same : (x ≡ a) × (y ≡ b) = ground (arith, eq_iff x a, eq_iff y b) in
      subst (λ u. P u b) same.0 (subst (P x) same.1 h.0)
  | inr q ↦ allowed-All P acl a b h.1 (ground arith)
]

-- What holds of each node and its dependencies holds of the edges.
pub declared-at :
    (P : String → String → Type 0) (nodes : List Node)
    → All (λ n. All (P n.0) n.1) nodes
    → (a b : String) → is_allowed (declared nodes) a b ≡ true
    → P a b
declared-at P nodes h a b = allowed-All P (declared nodes) a b (declared-All P nodes h)

-- Along a path on which a number falls with each step, it falls.
pub falls :
    (acl : A2aAcl) (rank : String → ℕ)
    → ((a b : String) → is_allowed acl a b ≡ true → rank b < rank a)
    → (a b : String) → PathOf acl a b
    → rank b < rank a
falls acl rank k a b (edge _ _ h) = k a b h
falls acl rank k a b (onward _ m _ h p) =
    let x = k a m h in let y = falls acl rank k m b p in omega arith
