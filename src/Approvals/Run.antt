-- ===== src/Approvals/Run.antt =====
-- Every function of the crate that writes, as one type of calls, and a run of calls in any order.
use assistant_platform.Base.{ℕ, RowIds, String, Option, List, [], ◌∷◌}
use assistant_platform.Approvals.Model.{Conn, EpochSecs, ApprovalKind, TextCast}
use assistant_platform.Approvals.Store.{ask, request_approval, grant, deny, sweep_expired, respond}

pub data Call : Type 0 where
  requests : ApprovalKind → String → Option ℕ → Option EpochSecs → Call
  grants denies : ℕ → ℕ → EpochSecs → Call
  sweeps : EpochSecs → Call
  asks : Option String → String → Call
  responds : ℕ → Call

-- The tables after a call, whether it succeeds or fails.
unfoldable pub after : RowIds → TextCast → Conn → Call → Conn
after ids t c (requests kind subject by expires) =
    (request_approval ids c kind subject by expires).1
after ids t c (grants approver id now) = (grant c approver id now).1
after ids t c (denies approver id now) = (deny c approver id now).1
after ids t c (sweeps now) = (sweep_expired t c now).1
after ids t c (asks session prompt) = (ask ids c session prompt).1
after ids t c (responds id) = (respond c id).1

unfoldable pub run : RowIds → TextCast → Conn → List Call → Conn
run ids t c [] = c
run ids t c (call ∷ calls) = run ids t (after ids t c call) calls

pub run_induction {ℓ} :
    (P : Conn → Type ℓ) (ids : RowIds) (t : TextCast)
    → ((c : Conn) (call : Call) → P c → P (after ids t c call))
    → (c : Conn) (calls : List Call) → P c
    → P (run ids t c calls)
unfolding run
run_induction P ids t step c [] h = h
run_induction P ids t step c (call ∷ calls) h =
    run_induction P ids t step (after ids t c call) calls (step c call h)
