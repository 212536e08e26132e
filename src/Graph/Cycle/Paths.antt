-- ===== src/Graph/Cycle/Paths.antt =====
-- Paths of the agent-to-agent allow-list, and the edges as the cycle search sees them.
use assistant_platform.Base.{
  any, String, ◌≡◌, refl, ◌⊎◌, inl, inr, Bool, true, ◌||◌, List, [], ◌∷◌, arith, str_eq, eq_iff,
}
use assistant_platform.Graph.Routing.{is_allowed, A2aAcl, neighbours, insert_node, nodes_of}

-- A path of one edge or more.
pub data PathOf (acl : A2aAcl) : String → String → Type 0 where
  edge : (a b : String) → is_allowed acl a b ≡ true → PathOf acl a b
  onward : (a m b : String) → is_allowed acl a m ≡ true → PathOf acl m b → PathOf acl a b

pub snoc :
    (acl : A2aAcl) (a m b : String) → PathOf acl a m → is_allowed acl m b ≡ true → PathOf acl a b
snoc acl a m b (edge _ _ e) h = onward a m b e (edge m b h)
snoc acl a m b (onward _ k _ e p) h = onward a k b e (snoc acl k m b p h)

-- An agent and what its edges lead to.
abbrev pub Reaches : A2aAcl → String → String → Type 0
Reaches acl a b = (a ≡ b) ⊎ PathOf acl a b

pub then_edge :
    (acl : A2aAcl) (a m b : String) → Reaches acl a m → is_allowed acl m b ≡ true → PathOf acl a b
then_edge acl a m b (inl e) h = edge a b (rw e h)
then_edge acl a m b (inr p) h = snoc acl a m b p h

-- Every path from here ends.
pub data Ends (acl : A2aAcl) : String → Type 0 where
  ends : (a : String) → ((b : String) → is_allowed acl a b ≡ true → Ends acl b) → Ends acl a

-- No path leads from an agent whose paths end back to it.
pub no_cycle-Ends : (acl : A2aAcl) (a : String) → Ends acl a → ¬ PathOf acl a a
no_cycle-Ends acl a (ends _ k) (edge _ _ h) = no_cycle-Ends acl a (k a h) (edge a a h)
no_cycle-Ends acl a (ends _ k) (onward _ m _ h p) = no_cycle-Ends acl m (k m h) (snoc acl m a m p h)

abbrev pub listed : String → List String → Bool
listed x xs = any (λ y. str_eq y x) xs

-- The neighbours are the ends of the edges.
pub listed-neighbours :
    (acl : A2aAcl) (a b : String) → listed b (neighbours acl a) ≡ is_allowed acl a b
unfolding is_allowed
listed-neighbours [] a b = refl
listed-neighbours (e ∷ acl) a b = ground (arith, listed-neighbours acl a b)

pub listed-insert_node :
    (x n : String) (xs : List String) → listed x (insert_node n xs) ≡ (str_eq n x || listed x xs)
listed-insert_node x n [] = refl
listed-insert_node x n (y ∷ ys) = ground (arith, listed-insert_node x n ys, eq_iff n y)

pub target-node :
    (acl : A2aAcl) (a b : String)
    → is_allowed acl a b ≡ true
    → (listed a (nodes_of acl) ≡ true) × (listed b (nodes_of acl) ≡ true)
unfolding is_allowed
target-node [] a b h = cc
target-node (e ∷ acl) a b h = (
  rw
      (
        listed-insert_node a e.1 (insert_node e.0 (nodes_of acl)),
        listed-insert_node a e.0 (nodes_of acl),
      )
      (ground (arith, target-node acl a b)),
  rw
      (
        listed-insert_node b e.1 (insert_node e.0 (nodes_of acl)),
        listed-insert_node b e.0 (nodes_of acl),
      )
      (ground (arith, target-node acl a b)),
)

pub start-listed : (acl : A2aAcl) (a b : String) → PathOf acl a b → listed a (nodes_of acl) ≡ true
start-listed acl a b (edge _ _ h) = (target-node acl a b h).0
start-listed acl a b (onward _ m _ h p) = (target-node acl a m h).0
