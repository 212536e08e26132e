-- ===== src/Router/Drops.antt =====
-- crates/assistant-router/src/store.rs over the table dropped_messages.
use assistant_platform.Base.{
  length, map, Result, ok, ◌>>=◌, count_where, order_desc, RowIds, ℕ, zero, String, Option, List,
  [], ◌∷◌, ◌++◌, str_eq,
}
use Prim.Native.Nat.{suc}
use assistant_platform.Router.Model.{
  DropReason, RouterError, drop_as_str, drop_parse, DroppedMessage, DropRow,
}

-- `now` is the default of created_at.
unfoldable pub record_drop :
    RowIds
    → String
    → List DropRow
    → String
    → Option String
    → DropReason
    → Option String
    → ℕ × List DropRow
record_drop ids now rows channel sender reason payload =
    let id = ids.next (map (λ r. r.id) rows) in
    (
      id,
      rows
          ++ record {
            id = id;
            channel = channel;
            sender = sender;
            reason = drop_as_str reason;
            payload = payload;
            created_at = now;
          }
            ∷ [],
    )

abbrev pub read_drop : DropRow → Result RouterError DroppedMessage
read_drop r = do
  reason ← drop_parse r.reason
  ok (record {
    id = r.id;
    channel = r.channel;
    sender = r.sender;
    reason = reason;
    payload = r.payload;
    created_at = r.created_at;
  })

abbrev pub read_drops : List DropRow → Result RouterError (List DroppedMessage)
read_drops [] = ok []
read_drops (r ∷ rows) = do d ← read_drop r; ds ← read_drops rows; ok (d ∷ ds)

-- LIMIT n
abbrev pub limit_rows {ℓ} : {A : Type ℓ} → ℕ → List A → List A
limit_rows zero xs = []
limit_rows (suc n) [] = []
limit_rows (suc n) (x ∷ xs) = x ∷ limit_rows n xs

unfoldable pub list_drops : List DropRow → ℕ → Result RouterError (List DroppedMessage)
list_drops rows limit = read_drops (limit_rows limit (order_desc (λ r. r.id) rows))

unfoldable pub count_drops : List DropRow → ℕ
count_drops rows = length rows

unfoldable pub count_drops_by_reason : List DropRow → DropReason → ℕ
count_drops_by_reason rows reason = count_where (λ r. str_eq r.reason (drop_as_str reason)) rows
