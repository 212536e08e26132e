-- ===== src/Router/Engagement.antt =====
-- crates/assistant-router/src/engagement.rs. The Unicode tables of `str::to_lowercase` are the
-- parameter `lowercase`.
use assistant_platform.Base.{
  if◌then◌else◌, is_some, String, Bool, true, false, not, ◌&&◌, ◌||◌, str_eq,
}
use text.Mathlib.Text.{find?}
use assistant_platform.Router.Model.{DropReason, not_authorized, not_engaged}
use assistant_platform.Router.Channel.{RoutingEvent}

pub data EngagementMode : Type 0 where
  pattern_mode : String → EngagementMode
  mention_mode mention_sticky : EngagementMode

pub data SenderScope : Type 0 where
  all_senders known_senders : SenderScope

pub data IgnoredMessagePolicy : Type 0 where
  drop_ignored accumulate_ignored : IgnoredMessagePolicy

pub data EngagementDecision : Type 0 where
  engage accumulate ignore : EngagementDecision
  drop_for : DropReason → EngagementDecision

pub record EngagementContext : Type 0 where
  pub sender_is_member : Bool
  pub has_active_sticky : Bool

abbrev pub is_known_only : SenderScope → Bool
is_known_only all_senders = false
is_known_only known_senders = true

module _ (lowercase : String → String) where
  abbrev pub text_matches : String → String → Bool
  text_matches text trigger = is_some (find? (lowercase text) (lowercase trigger))

  abbrev pub is_engaged : RoutingEvent → EngagementMode → Bool → Bool
  is_engaged event (pattern_mode trigger) sticky =
      str_eq trigger "." || text_matches event.text trigger
  is_engaged event mention_mode sticky = event.is_mention || event.is_direct
  is_engaged event mention_sticky sticky = event.is_mention || event.is_direct || sticky

  abbrev pub not_engaged_decision : IgnoredMessagePolicy → EngagementDecision
  not_engaged_decision accumulate_ignored = accumulate
  not_engaged_decision drop_ignored = drop_for not_engaged

  unfoldable pub evaluate_engagement :
      RoutingEvent
      → EngagementMode
      → SenderScope
      → IgnoredMessagePolicy
      → EngagementContext
      → EngagementDecision
  evaluate_engagement event mode scope policy ctx =
      if event.is_self_author
      then ignore
      else if is_engaged event mode ctx.has_active_sticky
      then if is_known_only scope && not ctx.sender_is_member
        then drop_for not_authorized
        else engage
      else not_engaged_decision policy
