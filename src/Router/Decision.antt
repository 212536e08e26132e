-- ===== src/Router/Decision.antt =====
-- When crates/assistant-router/src engages an agent, given the sticky sessions so far.
use assistant_platform.Router.Engaged.{sticky_refines}
use assistant_platform.Router.Model.{not_authorized, not_engaged}
use text.Mathlib.Text.{find?}
use assistant_platform.Base.{
  is_some, String, ◌≡◌, refl, ◌↔◌, ◌⊎◌, inl, inr, Bool, true, false, ◌||◌, str_eq, eq_iff,
  if◌then◌else◌, ℕ, not, ◌&&◌, none, List, [], arith,
}
use assistant_platform.Router.Channel.{RoutingEvent}
use assistant_platform.Router.Engagement.{
  EngagementMode, pattern_mode, mention_mode, mention_sticky, SenderScope, all_senders,
  text_matches, is_engaged, known_senders, IgnoredMessagePolicy, drop_ignored, accumulate_ignored,
  EngagementDecision, engage, accumulate, ignore, drop_for, EngagementContext, is_known_only,
  evaluate_engagement,
}
use assistant_platform.Router.Sticky.{EpochSecs, has_active_sticky}
use assistant_platform.Router.Sessions.{Session, is_alive, StickyCall, run, sees_all}

-- What calls an agent of a mode, where `sticky` is what its conversation sees of the table.
abbrev pub Calls : (String → String) → RoutingEvent → Session → EpochSecs → EngagementMode → Type 0
Calls lowercase event sticky now (pattern_mode trigger) =
    (trigger ≡ ".") ⊎ (is_some (find? (lowercase event.text) (lowercase trigger)) ≡ true)
Calls lowercase event sticky now mention_mode = (event.is_mention ≡ true) ⊎ (event.is_direct ≡ true)
Calls lowercase event sticky now mention_sticky =
    (event.is_mention ≡ true) ⊎ (event.is_direct ≡ true) ⊎ (is_alive now sticky ≡ true)

or_true : (a b : Bool) → ((a || b) ≡ true) ↔ ((a ≡ true) ⊎ (b ≡ true))
or_true true b = (λ _. inl refl, λ _. refl)
or_true false b = (λ h. inr h, λ h. elim h [ inl e ↦ absurd (cc) | inr e ↦ e ])

is_engaged-Calls :
    (lowercase : String → String) (event : RoutingEvent) (sticky : Session) (now : EpochSecs)
    → (mode : EngagementMode)
    → (is_engaged lowercase event mode (is_alive now sticky) ≡ true)
      ↔ Calls lowercase event sticky now mode
is_engaged-Calls lowercase event sticky now (pattern_mode trigger) =
    let o = or_true (str_eq trigger ".") (text_matches lowercase event.text trigger) in
    let e = eq_iff trigger "." in
    (
      λ h. elim (o.0 h) [ inl a ↦ inl (e.0 a) | inr b ↦ inr b ],
      λ h. o.1 (elim h [ inl a ↦ inl (e.1 a) | inr b ↦ inr b ]),
    )
is_engaged-Calls lowercase event sticky now mention_mode = or_true event.is_mention event.is_direct
is_engaged-Calls lowercase event sticky now mention_sticky = (λ h. ground arith, λ h. ground arith)

-- Given the agent's scope, the sender is let in.
abbrev pub LetsIn : SenderScope → Bool → Type 0
LetsIn scope member = (scope ≡ all_senders) ⊎ (member ≡ true)

abbrev decision : Bool → Bool → SenderScope → Bool → IgnoredMessagePolicy → EngagementDecision
decision self called scope member policy =
    if self
    then ignore
    else if called
    then if is_known_only scope && not member then drop_for not_authorized else engage
    else elim policy [ accumulate_ignored ↦ accumulate | drop_ignored ↦ drop_for not_engaged ]

decided :
    (self called : Bool) (scope : SenderScope) (member : Bool) (policy : IgnoredMessagePolicy)
    → (C : Type 0) → (called ≡ true) ↔ C
    → ((decision self called scope member policy ≡ engage)
        ↔ ((self ≡ false) × C × LetsIn scope member))
      × ((decision self called scope member policy ≡ ignore) ↔ (self ≡ true))
decided true called scope member policy C c =
    ((λ h. absurd (cc), λ h. absurd (let e = h.0 in cc)), (λ _. refl, λ _. refl))
decided false false scope member accumulate_ignored C c =
    ((λ h. absurd (cc), λ h. absurd (let e = c.1 h.1 in cc)), (λ h. absurd (cc), λ h. absurd (cc)))
decided false false scope member drop_ignored C c =
    ((λ h. absurd (cc), λ h. absurd (let e = c.1 h.1 in cc)), (λ h. absurd (cc), λ h. absurd (cc)))
decided false true all_senders member policy C c =
    ((λ h. (refl, c.0 refl, inl refl), λ _. refl), (λ h. absurd (cc), λ h. absurd (cc)))
decided false true known_senders true policy C c =
    ((λ h. (refl, c.0 refl, inr refl), λ _. refl), (λ h. absurd (cc), λ h. absurd (cc)))
decided false true known_senders false policy C c = (
  (λ h. absurd (cc), λ h. elim h.2 [ inl e ↦ absurd (cc) | inr e ↦ absurd (cc) ]),
  (λ h. absurd (cc), λ h. absurd (cc)),
)

-- An agent is engaged by an event exactly if the event is not the bot's own, calls the agent as its
-- mode says, and comes from a sender in its scope: a pattern is called by its trigger, a mention or a
-- sticky agent by a mention or a direct message, and a sticky agent also while its conversation has a
-- session, among the openings, sweeps and resets so far from an empty table, that is open at the time.
-- The bot's own events, echoes of the host included, and no others, are ignored.
pub engage_exact :
    (lowercase : String → String) (event : RoutingEvent) (mode : EngagementMode)
    (scope : SenderScope)
    → (policy : IgnoredMessagePolicy) (member : Bool) (calls : List StickyCall) (group : ℕ)
    → (now : EpochSecs)
    → let ctx : EngagementContext = record {
      sender_is_member = member;
      has_active_sticky = has_active_sticky (run [] calls) group event.engagement_key now;
    } in
      let d = evaluate_engagement lowercase event mode scope policy ctx in
      ((d ≡ engage) ↔ (
        (event.is_self_author ≡ false)
        × Calls lowercase event (sees_all group event.engagement_key none calls) now mode
        × LetsIn scope member))
      × ((d ≡ ignore) ↔ (event.is_self_author ≡ true))
unfolding evaluate_engagement
engage_exact lowercase event mode scope policy member calls group now =
    let sticky = sees_all group event.engagement_key none calls in
    rw (sticky_refines calls group event.engagement_key now) (
      decided event.is_self_author (is_engaged lowercase event mode (is_alive now sticky)) scope
        member policy (Calls lowercase event sticky now mode)
        (is_engaged-Calls lowercase event sticky now mode))
