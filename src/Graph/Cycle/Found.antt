-- ===== src/Graph/Cycle/Found.antt =====
-- A visit that meets a cycle: the cycle is there, and its node leads to it.
use assistant_platform.Base.{
  Bool-cases, All, ℕ, zero, suc, String, ◌≡◌, refl, sym, inl, inr, true, none, some, List, [], ◌∷◌,
  arith, str_eq, eq_iff, eq_refl,
}
use assistant_platform.Graph.Routing.{
  is_allowed, A2aAcl, neighbours, visiting, Marks, get_mark, Visit, visit_all, visit,
}
use assistant_platform.Graph.Cycle.Paths.{
  listed-neighbours, listed, PathOf, edge, onward, Reaches, then_edge,
}
use assistant_platform.Graph.Cycle.Clear.{mark_cases, visit_cases, DoneEnd, ClearsNode, visit-Clear}

-- The node leads to a cycle, or lies on one.
abbrev pub LeadsToCycle : A2aAcl → String → Type 0
LeadsToCycle acl n = (m : String) × Reaches acl n m × PathOf acl m m

-- What is being visited leads to the node.
abbrev pub OnStack : A2aAcl → String → Marks → Type 0
OnStack acl n ms = (x : String) → get_mark ms x ≡ some visiting → Reaches acl x n

-- What a visit is known to do, given as the argument of the loop.
abbrev pub FindsCycle : A2aAcl → (String → Marks → Visit) → Type 0
FindsCycle acl v =
    (n : String) (ms ms' : Marks)
    → DoneEnd acl ms
    → OnStack acl n ms
    → get_mark ms n ≡ none
    → v n ms ≡ some (true, ms')
    → LeadsToCycle acl n

before_cycle :
    (acl : A2aAcl) (a b : String)
    → is_allowed acl a b ≡ true
    → LeadsToCycle acl b
    → LeadsToCycle acl a
before_cycle acl a b h (m, inl e, c) = (m, inr (edge a m (rw (← e) h)), c)
before_cycle acl a b h (m, inr p, c) = (m, inr (onward a b m h p), c)

back_edge :
    (acl : A2aAcl) (a b : String) → is_allowed acl a b ≡ true → Reaches acl b a → LeadsToCycle acl a
back_edge acl a b h r = (b, inr (edge a b h), then_edge acl b a b r h)

-- The neighbours of `n`, or the last of them, while `n` and what leads to it are being visited.
visit_all-Found :
    (acl : A2aAcl) (v : String → Marks → Visit) (n : String) (ys : List String) (ms ms' : Marks)
    → ClearsNode acl v
    → FindsCycle acl v
    → All (λ y. is_allowed acl n y ≡ true) ys
    → DoneEnd acl ms
    → OnStack acl n ms
    → visit_all v ys ms ≡ some (true, ms')
    → LeadsToCycle acl n
visit_all-Found acl v n [] ms ms' cl ih a d s h = absurd (ground arith)
visit_all-Found acl v n (y ∷ ys) ms ms' cl ih a d s h = elim (mark_cases (get_mark ms y)) [
  | inr (inl m) ↦ back_edge acl n y a.0 (s y m)
  | inr (inr m) ↦ visit_all-Found acl v n ys ms ms' cl ih a.1 d s (ground arith)
  | inl m ↦ elim (visit_cases (v y ms)) [
    | inl e ↦ absurd (ground arith)
    | inr (inl (ms1, e)) ↦
        before_cycle acl n y a.0 (ih y ms ms1 d (λ x k. inr (then_edge acl x n y (s x k) a.0)) m e)
    | inr (inr (ms1, e)) ↦
        let (end, c) = cl y ms ms1 d m e in
        visit_all-Found acl v n ys ms1 ms' cl ih a.1 c.done_end (λ x k. s x (c.no_new x k))
          (ground arith)
  ]
]

pub All-of_listed :
    (P : String → Type 0) (xs : List String) → ((x : String) → listed x xs ≡ true → P x) → All P xs
All-of_listed P [] k = tt
All-of_listed P (x ∷ xs) k =
    (k x (rw (eq_refl x) refl), All-of_listed P xs (λ y h. k y (ground arith)))

pub visit-Found : (acl : A2aAcl) (fuel : ℕ) → FindsCycle acl (visit acl fuel)
unfolding visit
visit-Found acl zero n ms ms' d s m h = cc
visit-Found acl (suc fuel) n ms ms' d s m h =
    elim (visit_cases (visit_all (visit acl fuel) (neighbours acl n) ((n, visiting) ∷ ms))) [
      | inl e ↦ absurd (ground arith)
      | inr (inr (ms1, e)) ↦ absurd (ground arith)
      | inr (inl (ms1, e)) ↦
          visit_all-Found acl (visit acl fuel) n (neighbours acl n) ((n, visiting) ∷ ms) ms1
            (visit-Clear acl fuel) (visit-Found acl fuel)
            (All-of_listed _ (neighbours acl n) (λ y k. rw (listed-neighbours acl n y) at k))
            (λ x k. d x (ground arith))
            (λ x k. elim (Bool-cases (str_eq n x)) [
              | inl t ↦ inl (sym ((eq_iff n x).0 t))
              | inr f ↦ s x (ground arith)
            ])
            e
    ]
