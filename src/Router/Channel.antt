-- ===== src/Router/Channel.antt =====
-- crates/assistant-router/src/channel.rs and registry.rs. A channel is its kind and its health; what
-- an adapter delivers is the platform's.
use Prim.Native.String.{◌++◌ as ◌<>◌}
use assistant_platform.Base.{
  err, if◌then◌else◌, Result, ok, find, any, String, Bool, true, false, ◌&&◌, Option, none, some,
  List, [], ◌∷◌, ◌++◌, map, str_eq,
}

pub data MessageState : Type 0 where
  new_message edited deleted : MessageState
  reaction : String → MessageState

pub record RoutingEvent : Type 0 where
  pub channel_kind : String
  pub chat_id : String
  pub sender_id : String
  pub sender_label : Option String
  pub platform_message_id : String
  pub thread_root_id : Option String
  pub reply_target_id : Option String
  pub engagement_key : String
  pub permalink : Option String
  pub state : MessageState
  pub is_mention : Bool
  pub is_direct : Bool
  pub is_self_author : Bool
  pub dedupe_key : String
  pub text : String
  pub raw_ref : Option String

unfoldable pub dedupe_key_of : String → String → String → String
dedupe_key_of channel_kind chat_id platform_message_id =
    channel_kind <> ":" <> chat_id <> ":" <> platform_message_id

unfoldable pub engagement_key_of : String → String → Option String → String
engagement_key_of channel_kind chat_id thread_root_id = elim thread_root_id [
  | none ↦ channel_kind <> ":" <> chat_id
  | some root ↦ channel_kind <> ":" <> chat_id <> ":" <> root
]

pub data OutboundContent : Type 0 where
  text_content : String → OutboundContent
  card : String → String → String → OutboundContent
  question : String → List String → String → OutboundContent

abbrev pub fallback_text : OutboundContent → String
fallback_text (text_content body) = body
fallback_text (card title body fallback) = fallback
fallback_text (question prompt options fallback) = fallback

pub data ChannelHealth : Type 0 where
  connected : ChannelHealth
  degraded disconnected : String → ChannelHealth

abbrev pub is_connected : ChannelHealth → Bool
is_connected connected = true
is_connected (degraded detail) = false
is_connected (disconnected detail) = false

pub record ChannelAdapter : Type 0 where
  pub channel_kind : String
  pub health : ChannelHealth

pub data RegistryError : Type 0 where
  duplicate_channel : String → RegistryError

abbrev pub ChannelRegistry : Type 0
ChannelRegistry = List ChannelAdapter

unfoldable pub register_channel :
    ChannelRegistry → ChannelAdapter → Result RegistryError ChannelRegistry
register_channel channels channel =
    if any (λ c. str_eq c.channel_kind channel.channel_kind) channels
    then err (duplicate_channel channel.channel_kind)
    else ok (channels ++ channel ∷ [])

abbrev pub kinds : ChannelRegistry → List String
kinds channels = map (λ c. c.channel_kind) channels

unfoldable pub get_channel : ChannelRegistry → String → Option ChannelAdapter
get_channel channels kind = find (λ c. str_eq c.channel_kind kind) channels

abbrev pub health_report : ChannelRegistry → List (String × ChannelHealth)
health_report channels = map (λ c. (c.channel_kind, c.health)) channels

unfoldable pub all_connected : ChannelRegistry → Bool
all_connected [] = true
all_connected (c ∷ channels) = is_connected c.health && all_connected channels
