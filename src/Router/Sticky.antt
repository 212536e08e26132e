-- ===== src/Router/Sticky.antt =====
-- crates/assistant-router/src/sticky.rs. The column `active` holds 1 or 0, as a Boolean; the
-- timestamps of the rows, which nothing reads, are left out.
use assistant_platform.Base.{
  if◌then◌else◌, ltb, ◌==◌, is_some, find, count_where, any, update, ℤ, ltb_ℤ, leb_ℤ, ℕ, String,
  Bool, true, false, ◌&&◌, Option, none, some, List, [], ◌∷◌, ◌++◌, str_eq,
}

abbrev pub EpochSecs : Type 0
EpochSecs = ℤ

pub record StickyEngagement : Type 0 where
  pub agent_group_id : ℕ
  pub engagement_key : String
  pub root_message_id : Option String
  pub scope : Option String
  pub expires_at : Option EpochSecs
  pub active : Bool
  pub reset_reason : Option String

abbrev pub StickyTable : Type 0
StickyTable = List StickyEngagement

abbrev pub is_key : ℕ → String → StickyEngagement → Bool
is_key group key row = row.agent_group_id == group && str_eq row.engagement_key key

abbrev pub opened : ℕ → String → Option String → Option String → Option EpochSecs → StickyEngagement
opened group key root scope expires_at = record {
  agent_group_id = group;
  engagement_key = key;
  root_message_id = root;
  scope = scope;
  expires_at = expires_at;
  active = true;
  reset_reason = none;
}

-- INSERT … ON CONFLICT(agent_group_id, engagement_key) DO UPDATE, which sets every other column.
unfoldable pub open_sticky :
    StickyTable → ℕ → String → Option String → Option String → Option EpochSecs → StickyTable
open_sticky rows group key root scope expires_at =
    if any (is_key group key) rows
    then update (is_key group key) (λ _. opened group key root scope expires_at) rows
    else rows ++ opened group key root scope expires_at ∷ []

-- expires_at IS NULL OR expires_at > now
abbrev pub is_unexpired : EpochSecs → Option EpochSecs → Bool
is_unexpired now none = true
is_unexpired now (some t) = ltb_ℤ now t

abbrev pub is_live : ℕ → String → EpochSecs → StickyEngagement → Bool
is_live group key now row = is_key group key row && row.active && is_unexpired now row.expires_at

unfoldable pub lookup_active_sticky : StickyTable → ℕ → String → EpochSecs → Option StickyEngagement
lookup_active_sticky rows group key now = find (is_live group key now) rows

unfoldable pub has_active_sticky : StickyTable → ℕ → String → EpochSecs → Bool
has_active_sticky rows group key now = is_some (lookup_active_sticky rows group key now)

abbrev pub closed : String → StickyEngagement → StickyEngagement
closed reason row = record {
  agent_group_id = row.agent_group_id;
  engagement_key = row.engagement_key;
  root_message_id = row.root_message_id;
  scope = row.scope;
  expires_at = row.expires_at;
  active = false;
  reset_reason = some reason;
}

-- active = 1 AND expires_at IS NOT NULL AND expires_at <= now
abbrev pub has_run_out : EpochSecs → StickyEngagement → Bool
has_run_out now row = row.active && elim row.expires_at [ none ↦ false | some t ↦ leb_ℤ t now ]

unfoldable pub expire_sticky : StickyTable → EpochSecs → ℕ × StickyTable
expire_sticky rows now =
    (count_where (has_run_out now) rows, update (has_run_out now) (closed "expired") rows)

abbrev pub is_open_of : ℕ → String → StickyEngagement → Bool
is_open_of group key row = is_key group key row && row.active

unfoldable pub reset_sticky : StickyTable → ℕ → String → String → Bool × StickyTable
reset_sticky rows group key reason = (
  ltb 0 (count_where (is_open_of group key) rows),
  update (is_open_of group key) (closed reason) rows,
)
