-- ===== src/Feed/Tests.antt =====
-- The feed (frontend/src/features/broadcast) at concrete inputs, with a reading of the schema that
-- looks at the type only.
pub mod Examples
use webmeow.Prelude.{String, ◌≡◌, ap, Option, none, some}
use webmeow.Prelude.Json.{Json, str, get_field}
use webmeow.Feed.Channels.{ChannelId, airport, hotel, channel_name, BroadcastEvent}
use webmeow.Feed.Normalize.{Schema}

abbrev pub parse_type : Option Json → Option BroadcastEvent
parse_type (some (str t)) = some record {
  id = "e0";
  channel = airport;
  event_type = t;
  message = "";
  sender = "";
  guest_id = none;
  guest_name = none;
  data_fields = none;
}
parse_type _ = none

abbrev pub schema : Schema
schema = record {
  safe_parse = λ raw. parse_type (get_field "event_type" raw);
  safe_parse-no_type = λ raw h. ap parse_type h;
}

abbrev pub fresh : ChannelId → String
fresh c = channel_name c
