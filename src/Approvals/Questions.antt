-- ===== src/Approvals/Questions.antt =====
-- A question is answered once, and an answer reaches no other question.
use mathlib.Core.Option
use assistant_platform.Base.{
  ℕ, if◌then◌else◌, Option-cases, ok, err, find, update, find-update, find-holds, ◌≡◌, refl, ◌≢◌,
  inl, inr, true, false, some, arith, str_eq,
}
use assistant_platform.Approvals.Model.{
  Conn, answered, question_parse, is_open, Question, not_decidable, QuestionRow,
}
use assistant_platform.Approvals.Store.{
  respond, question_has_id, read_question, get_question, is_open_row, set_answered,
}

read-answered :
    (row : QuestionRow) (q : Question)
    → read_question (some row) ≡ ok (some q)
    → (str_eq row.status "open" ≡ is_open q.status)
      × (read_question (some (set_answered row)) ≡ ok (some (record q { status = answered })))
unfolding question_parse
read-answered row q h = (ground arith, ground arith)

find-respond :
    (c : Conn) (id j : ℕ)
    → find (question_has_id j) (update (is_open_row id) set_answered c.pending_questions)
      ≡ Option.map
          (λ x. if is_open_row id x then set_answered x else x)
          (find (question_has_id j) c.pending_questions)
find-respond c id j =
    find-update (question_has_id j) (is_open_row id) set_answered c.pending_questions (λ x. refl)

-- The rows after an answer that is taken.
respond-ok :
    (c : Conn) (id : ℕ)
    → (respond c id).0 ≡ ok tt
    → ((q : Question) × (get_question c id ≡ ok (some q)) × (is_open q.status ≡ true))
      × ((respond c id).1.pending_questions
          ≡ update (is_open_row id) set_answered c.pending_questions)
unfolding respond
respond-ok c id h = ground arith

respond_other :
    (c : Conn) (id j : ℕ)
    → j ≢ id
    → find (question_has_id j) (update (is_open_row id) set_answered c.pending_questions)
      ≡ find (question_has_id j) c.pending_questions
respond_other c id j ne = elim (Option-cases (find (question_has_id j) c.pending_questions)) [
  | inl e ↦ rw (find-respond c id j, e) refl
  | inr (row, e) ↦
      let other : is_open_row id row ≡ false =
        ground (arith, find-holds (question_has_id j) c.pending_questions row e) in
      rw (find-respond c id j, e, other) refl
]

respond_self :
    (c : Conn) (id : ℕ) (q : Question)
    → get_question c id ≡ ok (some q)
    → is_open q.status ≡ true
    → read_question
        (find (question_has_id id) (update (is_open_row id) set_answered c.pending_questions))
      ≡ ok (some (record q { status = answered }))
respond_self c id q g o = elim (Option-cases (find (question_has_id id) c.pending_questions)) [
  | inl e ↦ unfold get_question in ground arith
  | inr (row, e) ↦
      let read : read_question (some row) ≡ ok (some q) = unfold get_question in ground arith in
      let (text, after) = read-answered row q read in
      let matched : is_open_row id row ≡ true =
        ground (arith, find-holds (question_has_id id) c.pending_questions row e) in
      rw (find-respond c id id, e, matched) after
]

-- An answer is taken only for a question that is open; the question then reads as answered, every
-- other question as before, and a second answer is refused and changes nothing.
pub respond_once :
    (c : Conn) (id : ℕ)
    → (respond c id).0 ≡ ok tt
    → let c' = (respond c id).1 in
      ((q : Question) × (get_question c id ≡ ok (some q))
        × (is_open q.status ≡ true)
        × (get_question c' id ≡ ok (some (record q { status = answered }))))
      × ((j : ℕ) → j ≢ id → get_question c' j ≡ get_question c j)
      × (respond c' id ≡ (err (not_decidable id), c'))
respond_once c id h =
    let ((q, g, o), rows) = respond-ok c id h in
    let now : get_question (respond c id).1 id ≡ ok (some (record q { status = answered })) =
      unfold get_question in rw rows (respond_self c id q g o) in
    (
      (q, g, o, now),
      λ j ne. unfold get_question in rw (rows, respond_other c id j ne) refl,
      unfold respond in rw (now, respond) refl,
    )
