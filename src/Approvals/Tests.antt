-- ===== src/Approvals/Tests.antt =====
-- The crate at work on small databases, and instances of the theorems.
use assistant_platform.Samples.{cast_text}
use assistant_platform.Approvals.RoundTrip.{get-request_approval, requested}
use assistant_platform.Base.{
  ok, err, pos, ℕ, ◌≡◌, refl, ◌≢◌, ◌⊎◌, true, false, none, some, List, [], ◌∷◌,
}
use assistant_platform.Permissions.Access.{require_admin}
use assistant_platform.Approvals.Sweep.{IsWritten, get-sweep_expired, swept}
use assistant_platform.Approvals.Decision.{decide_honoured, decide_failed}
use assistant_platform.Approvals.Settled.{settled_forever}
use assistant_platform.Approvals.Model.{
  kind_as_str, kind_parse, status_as_str, status_parse, is_pending, Approval, question_parse,
  is_open, Question, not_decidable, has_expired, Conn, generic, credential, pending, granted,
  denied, expired, answered,
}
use assistant_platform.Approvals.Run.{Call, requests, grants, denies, sweeps, after, run}
use assistant_platform.Approvals.Store.{
  read_approval, request_approval, get_approval, is_past, sweep_expired, get_question, settle,
  decide, grant, respond,
}
use assistant_platform.Approvals.Questions.{respond_once}
use assistant_platform.Permissions.Access.{require_admin}
use assistant_platform.Samples.{row_ids, text_cast}
use assistant_platform.Decimal.{to_string, parse}
use assistant_platform.Permissions.Store.{is_administrative}

-- An owner (1) and a member (2); approval 1 waits and lapses at 100, approval 2 is denied; a question.
abbrev desk : Conn
desk = record {
  permissions = record {
    users =
        record { id = 1; handle = "owner"; display_name = none }
        ∷ record { id = 2; handle = "bob"; display_name = none }
        ∷ [];
    user_roles =
        record { user_id = 1; role = "owner" } ∷ record { user_id = 2; role = "member" } ∷ [];
    user_dms = [];
    standing_instructions = [];
  };
  pending_approvals =
      record {
        id = 1;
        kind = "generic";
        subject = "deploy";
        status = "pending";
        requested_by = some 2;
        expires_at = some "100";
      }
      ∷ record {
        id = 2;
        kind = "credential";
        subject = "token";
        status = "denied";
        requested_by = none;
        expires_at = none;
      }
      ∷ [];
  pending_questions =
      record { id = 1; session_id = none; prompt = "Which region?"; status = "open" } ∷ [];
}

abbrev waiting : Approval
waiting = record {
  id = 1;
  kind = generic;
  subject = "deploy";
  status = pending;
  requested_by = some 2;
  expires_at = some (pos 100);
}

abbrev refused_token : Approval
refused_token = record {
  id = 2;
  kind = credential;
  subject = "token";
  status = denied;
  requested_by = none;
  expires_at = none;
}

reads_waiting : get_approval desk 1 ≡ ok (some waiting)
unfolding get_approval read_approval kind_parse status_parse parse
reads_waiting = refl

reads_refused : get_approval desk 2 ≡ ok (some refused_token)
unfolding get_approval read_approval kind_parse status_parse
reads_refused = refl

granting : (decide desk 1 1 (pos 99) granted).0 ≡ ok tt
unfolding decide settle require_admin is_administrative get_approval read_approval kind_parse
    status_parse parse
granting = refl

decide_honoured_example :
    (is_administrative desk.permissions 1 ≡ true)
    × ((a : Approval) × (get_approval desk 1 ≡ ok (some a))
        × (is_pending a.status ≡ true)
        × (is_past a.expires_at (pos 99) ≡ false)
        × (get_approval (decide desk 1 1 (pos 99) granted).1 1
            ≡ ok (some (record a { status = granted }))))
    × ((j : ℕ) → j ≢ 1 → get_approval (decide desk 1 1 (pos 99) granted).1 j ≡ get_approval desk j)
decide_honoured_example = decide_honoured desk 1 1 (pos 99) granted granting

too_late : (decide desk 1 1 (pos 100) granted).0 ≡ err (has_expired 1)
unfolding decide settle require_admin is_administrative get_approval read_approval kind_parse
    status_parse parse
too_late = refl

decide_failed_example :
    ((decide desk 1 1 (pos 100) granted).1 ≡ desk)
    ⊎ ((a : Approval) × (has_expired 1 ≡ has_expired 1)
        × (get_approval desk 1 ≡ ok (some a))
        × (is_past a.expires_at (pos 100) ≡ true)
        × (get_approval (decide desk 1 1 (pos 100) granted).1 1
            ≡ ok (some (record a { status = expired })))
        × ((j : ℕ)
            → j ≢ 1
            → get_approval (decide desk 1 1 (pos 100) granted).1 j ≡ get_approval desk j))
decide_failed_example = decide_failed desk 1 1 (pos 100) granted (has_expired 1) too_late

abbrev second_thoughts : List Call
second_thoughts =
    grants 1 2 (pos 5)
    ∷ sweeps (pos 1000)
    ∷ requests generic "again" none none
    ∷ denies 2 2 (pos 6)
    ∷ []

settled_forever_example :
    get_approval (run row_ids text_cast desk second_thoughts) 2 ≡ ok (some refused_token)
settled_forever_example =
    settled_forever row_ids text_cast desk second_thoughts 2 refused_token reads_refused refl

hundred : to_string (pos 100) ≡ "100"
unfolding to_string
hundred = refl

desk-IsWritten : IsWritten desk
desk-IsWritten = ((pos 100, refl, rw hundred), (tt, tt))

get-sweep_expired_example :
    get_approval (sweep_expired text_cast desk (pos 100)).1 1 ≡ ok (some (swept (pos 100) waiting))
get-sweep_expired_example =
    get-sweep_expired text_cast desk (pos 100) 1 waiting desk-IsWritten reads_waiting

-- The sweep at 100 reaches the approval that lapses at 100.
swept-waiting : swept (pos 100) waiting ≡ record waiting { status = expired }
swept-waiting = refl

answering : (respond desk 1).0 ≡ ok tt
unfolding respond get_question question_parse
answering = refl

respond_once_example :
    let c' = (respond desk 1).1 in
    ((q : Question) × (get_question desk 1 ≡ ok (some q))
      × (is_open q.status ≡ true)
      × (get_question c' 1 ≡ ok (some (record q { status = answered }))))
    × ((j : ℕ) → j ≢ 1 → get_question c' j ≡ get_question desk j)
    × (respond c' 1 ≡ (err (not_decidable 1), c'))
respond_once_example = respond_once desk 1 answering

abbrev morning : List Call
morning =
    requests generic "restart" (some 2) (some (pos 50)) ∷ grants 1 3 (pos 10) ∷ sweeps (pos 60) ∷ []

-- The approval that the morning asks for is granted, so the sweep passes it by.
granted_in_time :
    get_approval (run row_ids text_cast desk morning) 3
    ≡ ok (
        some (record {
          id = 3;
          kind = generic;
          subject = "restart";
          status = granted;
          requested_by = some 2;
          expires_at = some (pos 50);
        }))
unfolding cast_text run after request_approval grant decide settle require_admin is_administrative
    get_approval read_approval kind_parse kind_as_str status_parse status_as_str parse to_string
    sweep_expired
granted_in_time = refl

get-request_approval_example :
    let c' = (request_approval row_ids desk generic "restart" (some 2) (some (pos 50))).1 in
    (id : ℕ) × ((request_approval row_ids desk generic "restart" (some 2) (some (pos 50))).0
      ≡ ok id)
    × (get_approval desk id ≡ ok none)
    × (get_approval c' id ≡ ok (some (requested id generic "restart" (some 2) (some (pos 50)))))
    × ((j : ℕ) → j ≢ id → get_approval c' j ≡ get_approval desk j)
get-request_approval_example =
    get-request_approval row_ids desk generic "restart" (some 2) (some (pos 50)) refl
