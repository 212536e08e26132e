-- ===== src/Router/Tests.antt =====
-- A conversation that an agent sticks to for a while.
use assistant_platform.Router.Engaged.{sticky_refines}
use assistant_platform.Router.Decision.{Calls, LetsIn, engage_exact}
use assistant_platform.Base.{
  if◌then◌else◌, ok, ◌>>=◌, pos, ◌+◌, String, ◌≡◌, refl, ◌↔◌, true, false, none, some, List, [],
  ◌∷◌, str_eq,
}
use assistant_platform.Samples.{row_ids}
use assistant_platform.Router.Model.{DropReason, no_route, not_engaged, drop_as_str, DropRow}
use assistant_platform.Router.Channel.{RoutingEvent, new_message, engagement_key_of}
use assistant_platform.Router.Engagement.{
  mention_sticky, known_senders, drop_ignored, EngagementDecision, engage, ignore,
  EngagementContext, evaluate_engagement,
}
use assistant_platform.Router.Sticky.{
  open_sticky, lookup_active_sticky, has_active_sticky, expire_sticky, reset_sticky,
}
use assistant_platform.Router.Drops.{record_drop, list_drops, count_drops_by_reason}
use assistant_platform.Router.Sessions.{StickyCall, opens, expires, resets, run, sees_all, is_alive}
use assistant_platform.Router.Audit.{message, list-record_drop}

abbrev key : String
key = "slack:C1"

abbrev calls : List StickyCall
calls =
    opens 1 key none none (some (pos 100))
    ∷ opens 2 key none none none
    ∷ expires (pos 50)
    ∷ resets 2 key "stop"
    ∷ []

still_open : has_active_sticky (run [] calls) 1 key (pos 60) ≡ true
unfolding has_active_sticky lookup_active_sticky open_sticky expire_sticky reset_sticky
still_open = refl

sticky_refines_example :
    has_active_sticky (run [] calls) 1 key (pos 60) ≡ is_alive (pos 60) (sees_all 1 key none calls)
sticky_refines_example = sticky_refines calls 1 key (pos 60)

abbrev follow_up : RoutingEvent
follow_up = record {
  channel_kind = "slack";
  chat_id = "C1";
  sender_id = "U1";
  sender_label = none;
  platform_message_id = "m2";
  thread_root_id = none;
  reply_target_id = none;
  engagement_key = key;
  permalink = none;
  state = new_message;
  is_mention = false;
  is_direct = false;
  is_self_author = false;
  dedupe_key = "slack:C1:m2";
  text = "and then?";
  raw_ref = none;
}

key-engagement_key_of : engagement_key_of "slack" "C1" none ≡ key
unfolding engagement_key_of
key-engagement_key_of = refl

abbrev context : EngagementContext
context = record {
  sender_is_member = true;
  has_active_sticky = has_active_sticky (run [] calls) 1 key (pos 60);
}

abbrev decided_follow_up : EngagementDecision
decided_follow_up =
    evaluate_engagement (λ s. s) follow_up mention_sticky known_senders drop_ignored context

engage_exact_example :
    ((decided_follow_up ≡ engage) ↔ (
      (follow_up.is_self_author ≡ false)
      × Calls (λ s. s) follow_up (sees_all 1 key none calls) (pos 60) mention_sticky
      × LetsIn known_senders true))
    × ((decided_follow_up ≡ ignore) ↔ (follow_up.is_self_author ≡ true))
engage_exact_example =
    engage_exact (λ s. s) follow_up mention_sticky known_senders drop_ignored true calls 1 (pos 60)

abbrev dropped : List DropRow
dropped = (record_drop row_ids "10:00" [] "slack" (some "U1") not_engaged none).1

list-record_drop_example :
    let (id, rows) = record_drop row_ids "10:05" dropped "cli" none no_route none in
    (list_drops rows 2
      ≡ (list_drops dropped 1 >>= λ ds. ok (message id "10:05" "cli" none no_route none ∷ ds)))
    × ((r : DropReason)
        → count_drops_by_reason rows r
          ≡ count_drops_by_reason dropped r
            + (if str_eq (drop_as_str no_route) (drop_as_str r) then 1 else 0))
list-record_drop_example = list-record_drop row_ids "10:05" dropped "cli" none no_route none 1
