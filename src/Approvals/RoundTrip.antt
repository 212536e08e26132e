-- ===== src/Approvals/RoundTrip.antt =====
-- An approval that is requested is read back as it was asked for.
use assistant_platform.Approvals.Model.{
  EpochSecs, ApprovalKind, status_parse, Approval, ApprovalRow, Conn, kind_parse-kind_as_str,
  pending,
}
use assistant_platform.Approvals.Store.{
  read_expiry, read_approval, new_approval, request_approval, has_id, get_approval,
}
use mathlib.Core.Option
use assistant_platform.Base.{
  ok, All, find, RowIds, ℕ, ◌<◌, String, ◌≡◌, refl, ◌≢◌, false, Option, none, some, List, [], ◌∷◌,
  ◌++◌, map, arith,
}
use assistant_platform.Decimal.{to_string}
use assistant_platform.Decimal.RoundTrip.{parse-to_string}
use assistant_platform.Approvals.Sweep.{InRange}

read-written :
    (expires : Option EpochSecs)
    → InRange expires
    → read_expiry (Option.map to_string expires) ≡ ok expires
read-written none h = refl
read-written (some v) h = rw (parse-to_string v h) refl

-- The approval that a request describes.
abbrev pub requested : ℕ → ApprovalKind → String → Option ℕ → Option EpochSecs → Approval
requested id kind subject by expires = record {
  id = id;
  kind = kind;
  subject = subject;
  status = pending;
  requested_by = by;
  expires_at = expires;
}

read-new_approval :
    (id : ℕ) (kind : ApprovalKind) (subject : String) (by : Option ℕ) (expires : Option EpochSecs)
    → InRange expires
    → read_approval (new_approval id kind subject by expires)
      ≡ ok (requested id kind subject by expires)
unfolding read_approval status_parse
read-new_approval id kind subject by expires h =
    rw (kind_parse-kind_as_str kind, read-written expires h) refl

find_fresh :
    (n : ℕ) (rows : List ApprovalRow)
    → All (λ i. i < n) (map (λ a. a.id) rows)
    → find (has_id n) rows ≡ none
find_fresh n [] h = refl
find_fresh n (r ∷ rows) h = ground (arith, h.0, find_fresh n rows h.1)

find_last_other :
    (j : ℕ) (x : ApprovalRow) (rows : List ApprovalRow)
    → has_id j x ≡ false
    → find (has_id j) (rows ++ x ∷ []) ≡ find (has_id j) rows
find_last_other j x [] h = rw h
find_last_other j x (r ∷ rows) h = ground (arith, find_last_other j x rows h)

find_last :
    (x : ApprovalRow) (rows : List ApprovalRow)
    → find (has_id x.id) rows ≡ none
    → find (has_id x.id) (rows ++ x ∷ []) ≡ some x
find_last x [] h = ground arith
find_last x (r ∷ rows) h = ground (arith, find_last x rows)

-- A request whose expiry is an `i64` is given an id that no approval has; the id then reads as the
-- approval asked for, pending, and every other approval reads as before.
pub get-request_approval :
    (ids : RowIds) (c : Conn) (kind : ApprovalKind) (subject : String) (by : Option ℕ)
    (expires : Option EpochSecs)
    → InRange expires
    → let c' = (request_approval ids c kind subject by expires).1 in
      (id : ℕ) × ((request_approval ids c kind subject by expires).0 ≡ ok id)
      × (get_approval c id ≡ ok none)
      × (get_approval c' id ≡ ok (some (requested id kind subject by expires)))
      × ((j : ℕ) → j ≢ id → get_approval c' j ≡ get_approval c j)
unfolding request_approval get_approval
get-request_approval ids c kind subject by expires h =
    let rows = c.pending_approvals in
    let id = ids.next (map (λ a. a.id) rows) in
    let fresh : find (has_id id) rows ≡ none =
      find_fresh id rows (ids.above (map (λ a. a.id) rows)) in
    (
      id,
      refl,
      rw fresh refl,
      rw
          (
            find_last (new_approval id kind subject by expires) rows fresh,
            read-new_approval id kind subject by expires h,
          )
          refl,
      λ j ne.
          rw (find_last_other j (new_approval id kind subject by expires) rows (ground arith)) refl,
    )
