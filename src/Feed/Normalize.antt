-- ===== src/Feed/Normalize.antt =====
-- frontend/src/features/broadcast/hooks/use-broadcast.ts, the reading of a message. The schema's
-- `safeParse` is the zod library's: it is a parameter, `none` where it does not succeed.
use webmeow.Prelude.{String, ◌≡◌, Bool, true, false, ◌==◌, Option, none, some, if◌then◌else◌}
use webmeow.Prelude.Json.{Json, Fields, str, arr, obj, cons, end, field, get_field, text_of}
use webmeow.Feed.Channels.{
  ChannelId, airport, hotel, beach, parrot, broadcast, resort_wide, BroadcastEvent,
}
use webmeow.Feed.Store.{EventsState, ingest_event}

-- `BroadcastEventSchema.safeParse`: the schema's `event_type` is no optional field.
pub record Schema : Type 0 where
  pub safe_parse : Json → Option BroadcastEvent
  pub safe_parse-no_type : (raw : Json) → get_field "event_type" raw ≡ none → safe_parse raw ≡ none

-- An object or an array is itself, anything else an object without fields.
unfoldable pub as_record : Option Json → Json
as_record (some (obj fs)) = obj fs
as_record (some (arr xs)) = arr xs
as_record _ = obj end

-- `Object.keys(value).length > 0`
unfoldable pub has_keys : Json → Bool
has_keys (obj (field k v fs)) = true
has_keys (arr (cons x xs)) = true
has_keys _ = false

unfoldable pub channel_from_source : Option Json → ChannelId
channel_from_source (some (str s)) =
    if s == "airport"
    then airport
    else if s == "hotel"
    then hotel
    else if s == "beach"
    then beach
    else if s == "parrot"
    then parrot
    else if s == "broadcast"
    then broadcast
    else resort_wide
channel_from_source _ = resort_wide

-- `typeof a === "string" ? a : b`
abbrev pub text_or : Option Json → String → String
text_or (some (str s)) d = s
text_or _ d = d

-- `typeof a === "string" ? a : b`, where `b` may be undefined.
abbrev pub text_else : Option Json → Option String → Option String
text_else (some (str s)) d = some s
text_else _ d = d

abbrev with_field : String → Option Json → Fields → Fields
with_field k none fs = fs
with_field k (some v) fs = field k v fs

-- The event of a message that has an identifier and a type.
unfoldable pub island_event : Json → String → String → BroadcastEvent
unfolding as_record has_keys channel_from_source
island_event event id event_type =
    let payload = as_record (get_field "payload" event) in
    let body = as_record (get_field "body" payload) in
    let nested_payload = as_record (get_field "payload" body) in
    let direct_payload =
      if has_keys nested_payload then nested_payload else as_record (get_field "data" body) in
    record {
      id = id;
      channel = channel_from_source (get_field "source" event);
      event_type = event_type;
      message =
          text_or (get_field "message" nested_payload)
            (text_or (get_field "message" body) (text_or (get_field "message" payload) event_type));
      sender =
          text_or (get_field "sender" payload) (text_or (get_field "source" event) "broadcast");
      guest_id =
          text_else (get_field "guest_id" nested_payload)
            (text_else (get_field "guest_id" direct_payload) none);
      guest_name = none;
      data_fields =
          some (with_field "timestamp" (get_field "timestamp" event) (field "payload" payload end));
    }

-- The identifier and the type of a message, where both are texts.
unfoldable pub named_event : Json → Option String → Option String → Option BroadcastEvent
named_event event (some id) (some event_type) = some (island_event event id event_type)
named_event event _ _ = none

unfoldable pub normalize_island_event : Schema → Json → Option BroadcastEvent
unfolding named_event as_record
normalize_island_event z raw = elim (z.safe_parse raw) [
  | some parsed ↦ some parsed
  | none ↦
      let event = as_record (some raw) in
      named_event event (text_of (get_field "id" event)) (text_of (get_field "type" event))
]

-- `handleMessage`: the text of a message, parsed, `none` where it is no JSON.
unfoldable pub handle_message :
    Schema → (ChannelId → String) → Option Json → EventsState → EventsState
unfolding normalize_island_event
handle_message z fresh none s = s
handle_message z fresh (some raw) s = elim (normalize_island_event z raw) [
  | none ↦ s
  | some event ↦ ingest_event fresh event true s
]
