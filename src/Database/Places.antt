-- ===== src/Database/Places.antt =====
-- The order of the modules of crates/assistant-db/src/migrate.rs, read off the list of modules.
use assistant_platform.Base.{
  ℕ, List, [], ◌∷◌, String, ltb, Bool-cases, Option-cases, is_some, All, suc, ◌≤◌, ◌<◌, ◌≡◌, refl,
  ◌⊎◌, inl, inr, Bool, true, false, not, ◌&&◌, ◌||◌, some, arith, str_eq, eq_iff,
}
use assistant_platform.Graph.Cycle.Paths.{listed}
use assistant_platform.Database.Migrate.{Migration, rank_from, comes_first, rank}
use assistant_platform.Database.Keys.{Sorted}

-- Somewhere in the list stands `a`, with `b` after it and no other `a`.
abbrev pub precedes : List String → String → String → Bool
precedes [] a b = false
precedes (m ∷ ms) a b = str_eq m a && not (listed a ms) && listed b ms || precedes ms a b

abbrev pub InOrder : List String → Migration → Migration → Type 0
InOrder order m n =
    ((m.module_id ≡ n.module_id) × (m.version ≤ n.version))
    ⊎ (precedes order m.module_id n.module_id ≡ true)

abbrev pub Ordered : List String → List Migration → Type 0
Ordered order [] = Unit
Ordered order (m ∷ ms) = All (InOrder order m) ms × Ordered order ms

listed-rank_from :
    (i : ℕ) (ms : List String) (a : String) → is_some (rank_from i ms a) ≡ listed a ms
unfolding rank_from
listed-rank_from i [] a = refl
listed-rank_from i (m ∷ ms) a = ground (arith, listed-rank_from (suc i) ms a)

pub listed-rank : (order : List String) (a : String) → is_some (rank order a) ≡ listed a order
unfolding rank
listed-rank order a = listed-rank_from 0 order a

from-le-rank_from :
    (i : ℕ) (ms : List String) (a : String) (k : ℕ) → rank_from i ms a ≡ some k → i ≤ k
unfolding rank_from
from-le-rank_from i [] a k h = cc
from-le-rank_from i (m ∷ ms) a k h = elim (Option-cases (rank_from (suc i) ms a)) [
  | inl e ↦ ground (arith, h, e)
  | inr (l, e) ↦ let r = from-le-rank_from (suc i) ms a l e in ground (arith, h, e, r)
]

-- Two places compare as the list says.
places :
    (i : ℕ) (ms : List String) (a b : String) (k l : ℕ)
    → rank_from i ms a ≡ some k
    → rank_from i ms b ≡ some l
    → (k < l → precedes ms a b ≡ true) × (k ≡ l → a ≡ b)
unfolding rank_from
places i [] a b k l h g = cc
places i (m ∷ ms) a b k l h g =
    let la = listed-rank_from (suc i) ms a in
    let lb = listed-rank_from (suc i) ms b in
    elim (Option-cases (rank_from (suc i) ms a)) [
      | inl e ↦ elim (Option-cases (rank_from (suc i) ms b)) [
        | inl f ↦ (
          λ lt. ground (arith, h, g, e, f),
          λ eq.
              let s : m ≡ a = (eq_iff m a).0 (ground (arith, h, e)) in
              let t : m ≡ b = (eq_iff m b).0 (ground (arith, g, f)) in cc,
        )
        | inr (y, f) ↦
            let r = from-le-rank_from (suc i) ms b y f in
            (λ lt. ground (arith, h, g, e, f, la, lb), λ eq. absurd (ground (arith, h, g, e, f, r)))
      ]
      | inr (x, e) ↦
          let q = from-le-rank_from (suc i) ms a x e in
          elim (Option-cases (rank_from (suc i) ms b)) [
            | inl f ↦ (
              λ lt. absurd (ground (arith, h, g, e, f, q)),
              λ eq. absurd (ground (arith, h, g, e, f, q)),
            )
            | inr (y, f) ↦
                let rest = places (suc i) ms a b x y e f in
                let same_k : x ≡ k = ground (arith, h, e) in
                let same_l : y ≡ l = ground (arith, g, f) in
                (
                  λ lt. let p = rest.0 (omega arith) in ground (arith, p),
                  λ eq. rest.1 (omega arith),
                )
          ]
    ]

comes_first-InOrder :
    (order : List String) (m n : Migration)
    → listed m.module_id order ≡ true
    → listed n.module_id order ≡ true
    → comes_first order m n ≡ true
    → InOrder order m n
comes_first-InOrder order m n u v h =
    let lm = listed-rank order m.module_id in
    let ln = listed-rank order n.module_id in
    elim (Option-cases (rank order m.module_id)) [
      | inl e ↦ absurd (ground (arith, u, lm, e))
      | inr (k, e) ↦ elim (Option-cases (rank order n.module_id)) [
        | inl f ↦ absurd (ground (arith, v, ln, f))
        | inr (l, f) ↦
            let p =
              places 0 order m.module_id n.module_id k l (unfold rank in e) (unfold rank in f) in
            elim (Bool-cases (ltb k l)) [
              | inl t ↦ inr (p.0 (ground arith))
              | inr t ↦ inl (p.1 (ground (arith, h, e, f, t)), ground (arith, h, e, f, t))
            ]
      ]
    ]

pub Sorted-Ordered :
    (order : List String) (ms : List Migration)
    → All (λ m. listed m.module_id order ≡ true) ms
    → Sorted order ms
    → Ordered order ms
Sorted-Ordered order [] k s = tt
Sorted-Ordered order (m ∷ ms) k s = (after ms k.1 s.0, Sorted-Ordered order ms k.1 s.1)
  where
    after :
        (ns : List Migration)
        → All (λ n. listed n.module_id order ≡ true) ns
        → All (λ n. comes_first order m n ≡ true) ns
        → All (InOrder order m) ns
    after [] u h = tt
    after (n ∷ ns) u h = (comes_first-InOrder order m n k.0 u.0 h.0, after ns u.1 h.1)
