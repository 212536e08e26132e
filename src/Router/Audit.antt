-- ===== src/Router/Audit.antt =====
-- What is read of the audit of crates/assistant-router/src/store.rs.
use assistant_platform.Base.{
  ok, RowIds, String, ◌≡◌, refl, Option, List, if◌then◌else◌, ◌>>=◌, count_where-append, All-of_map,
  order_desc-push, ℕ, suc, ◌+◌, ◌<◌, [], ◌∷◌, map, arith, str_eq,
}
use assistant_platform.Router.Model.{
  DropReason, unknown_sender, unknown_channel, not_authorized, malformed, no_route, duplicate,
  not_engaged, drop_as_str, drop_parse, DropRow, DroppedMessage,
}
use assistant_platform.Router.Drops.{record_drop, list_drops, count_drops_by_reason}

drop_parse-as_str : (r : DropReason) → drop_parse (drop_as_str r) ≡ ok r
unfolding drop_parse
drop_parse-as_str unknown_sender = refl
drop_parse-as_str unknown_channel = refl
drop_parse-as_str not_authorized = refl
drop_parse-as_str malformed = refl
drop_parse-as_str no_route = refl
drop_parse-as_str duplicate = refl
drop_parse-as_str not_engaged = refl

-- The message that a row of the given reason is read as.
abbrev pub message :
    ℕ → String → String → Option String → DropReason → Option String → DroppedMessage
message id now channel sender reason payload = record {
  id = id;
  channel = channel;
  sender = sender;
  reason = reason;
  payload = payload;
  created_at = now;
}

-- Right after a drop is recorded it is listed first, under the id that was given and with all its
-- fields, followed by what a list of one fewer showed before; where that could not be read, neither
-- can the list now. It is counted for its reason, and the counts of the other reasons stay.
pub list-record_drop :
    (ids : RowIds) (now : String) (rows : List DropRow) (channel : String) (sender : Option String)
    → (reason : DropReason) (payload : Option String) (limit : ℕ)
    → let (id, rows') = record_drop ids now rows channel sender reason payload in
      (list_drops rows' (suc limit)
        ≡ (list_drops rows limit >>= λ ds. ok (message id now channel sender reason payload ∷ ds)))
      × ((r : DropReason)
          → count_drops_by_reason rows' r
            ≡ count_drops_by_reason rows r
              + (if str_eq (drop_as_str reason) (drop_as_str r) then 1 else 0))
unfolding record_drop list_drops count_drops_by_reason
list-record_drop ids now rows channel sender reason payload limit =
    let id = ids.next (map (λ r. r.id) rows) in
    let row : DropRow = record {
      id = id;
      channel = channel;
      sender = sender;
      reason = drop_as_str reason;
      payload = payload;
      created_at = now;
    } in
    let below = All-of_map (λ r. r.id) (λ i. i < id) rows (ids.above (map (λ r. r.id) rows)) in
    (
      rw (order_desc-push (λ r. r.id) row rows below, drop_parse-as_str reason) refl,
      λ r. ground (
        arith,
        count_where-append (λ (x : DropRow). str_eq x.reason (drop_as_str r)) rows (row ∷ []),
      ),
    )
