-- ===== src/Graph/Cycle/Clear.antt =====
-- A visit that meets no cycle: every path from its node ends.
use assistant_platform.Base.{
  Bool-cases, All, ℕ, zero, suc, String, ◌≡◌, refl, ◌⊎◌, inl, inr, true, false, Option, none, some,
  List, [], ◌∷◌, arith, str_eq, eq_iff,
}
use assistant_platform.Graph.Routing.{
  A2aAcl, neighbours, Mark, visiting, done, Marks, get_mark, Visit, visit_all, visit,
}
use assistant_platform.Graph.Cycle.Paths.{Ends, listed-neighbours, listed}

pub mark_cases : (o : Option Mark) → (o ≡ none) ⊎ (o ≡ some visiting) ⊎ (o ≡ some done)
mark_cases none = inl refl
mark_cases (some visiting) = inr (inl refl)
mark_cases (some done) = inr (inr refl)

pub visit_cases :
    (v : Visit)
    → (v ≡ none) ⊎ ((ms : Marks) × (v ≡ some (true, ms))) ⊎ ((ms : Marks) × (v ≡ some (false, ms)))
visit_cases none = inl refl
visit_cases (some (true, ms)) = inr (inl (ms, refl))
visit_cases (some (false, ms)) = inr (inr (ms, refl))

-- Every path from a node that is done ends.
abbrev pub DoneEnd : A2aAcl → Marks → Type 0
DoneEnd acl ms = (x : String) → get_mark ms x ≡ some done → Ends acl x

-- What is being visited later was being visited before.
abbrev pub NoNewVisit : Marks → Marks → Type 0
NoNewVisit ms ms' = (x : String) → get_mark ms' x ≡ some visiting → get_mark ms x ≡ some visiting

pub record Clear (acl : A2aAcl) (ms ms' : Marks) : Type 0 where
  pub done_end : DoneEnd acl ms'
  pub no_new : NoNewVisit ms ms'

-- What a visit is known to do, given as the argument of the loop.
abbrev pub ClearsNode : A2aAcl → (String → Marks → Visit) → Type 0
ClearsNode acl v =
    (n : String) (ms ms' : Marks)
    → DoneEnd acl ms
    → get_mark ms n ≡ none
    → v n ms ≡ some (false, ms')
    → Ends acl n × Clear acl ms ms'

pub visit_all-Clear :
    (acl : A2aAcl) (v : String → Marks → Visit) (ys : List String) (ms ms' : Marks)
    → ClearsNode acl v
    → DoneEnd acl ms
    → visit_all v ys ms ≡ some (false, ms')
    → All (Ends acl) ys × Clear acl ms ms'
visit_all-Clear acl v [] ms ms' ih d h =
    let e : ms ≡ ms' = cc in (tt, rw (← e) (record { done_end = d; no_new = λ x k. k }))
visit_all-Clear acl v (y ∷ ys) ms ms' ih d h = elim (mark_cases (get_mark ms y)) [
  | inr (inl m) ↦ absurd (ground arith)
  | inr (inr m) ↦
      let (es, c) = visit_all-Clear acl v ys ms ms' ih d (ground arith) in ((d y m, es), c)
  | inl m ↦ elim (visit_cases (v y ms)) [
    | inl e ↦ absurd (ground arith)
    | inr (inl (ms1, e)) ↦ absurd (ground arith)
    | inr (inr (ms1, e)) ↦
        let (ey, c1) = ih y ms ms1 d m e in
        let (es, c) = visit_all-Clear acl v ys ms1 ms' ih c1.done_end (ground arith) in
        ((ey, es), record { done_end = c.done_end; no_new = λ x k. c1.no_new x (c.no_new x k) })
  ]
]

-- An end for every edge, from an end for every neighbour.
pub All-listed :
    (P : String → Type 0) (xs : List String) (x : String) → All P xs → listed x xs ≡ true → P x
All-listed P [] x h l = cc
All-listed P (y ∷ ys) x h l = elim (Bool-cases (str_eq y x)) [
  | inl e ↦ let same : y ≡ x = (eq_iff y x).0 e in rw (← same) (h.0)
  | inr n ↦ All-listed P ys x h.1 (ground arith)
]

-- A node whose paths end is done.
done-Clear :
    (acl : A2aAcl) (n : String) (ms ms1 : Marks)
    → Ends acl n
    → Clear acl ((n, visiting) ∷ ms) ms1
    → Clear acl ms ((n, done) ∷ ms1)
done-Clear acl n ms ms1 end c = record {
  done_end = λ x k. elim (Bool-cases (str_eq n x)) [
    | inl e ↦ let same : n ≡ x = (eq_iff n x).0 e in rw (← same) end
    | inr e ↦ c.done_end x (ground arith)
  ];
  no_new = λ x k. elim (Bool-cases (str_eq n x)) [
    | inl e ↦ absurd (ground arith)
    | inr e ↦ ground (arith, c.no_new x)
  ];
}

pub visit-Clear : (acl : A2aAcl) (fuel : ℕ) → ClearsNode acl (visit acl fuel)
unfolding visit
visit-Clear acl zero n ms ms' d m h = cc
visit-Clear acl (suc fuel) n ms ms' d m h =
    elim (visit_cases (visit_all (visit acl fuel) (neighbours acl n) ((n, visiting) ∷ ms))) [
      | inl e ↦ absurd (ground arith)
      | inr (inl (ms1, e)) ↦ absurd (ground arith)
      | inr (inr (ms1, e)) ↦
          let d0 : DoneEnd acl ((n, visiting) ∷ ms) = λ x k. d x (ground arith) in
          let (es, c) =
            visit_all-Clear acl (visit acl fuel) (neighbours acl n) ((n, visiting) ∷ ms) ms1
              (visit-Clear acl fuel) d0 e in
          let end : Ends acl n = Ends.ends n (λ b k.
            All-listed (Ends acl) (neighbours acl n) b es (rw (listed-neighbours acl n b) k)) in
          let last : ms' ≡ (n, done) ∷ ms1 = ground arith in
          (end, rw last (done-Clear acl n ms ms1 end c))
    ]
