-- ===== src/Feed/Store.antt =====
-- frontend/src/stores/events-store.ts: the last events of each channel, and a tick for each that
-- came. `fresh` gives the identifiers that `crypto.randomUUID()` makes for the copies, by channel.
pub mod Delivery
pub mod Ingest
pub mod History
use webmeow.Prelude.{
  ℕ, suc, String, Bool, true, false, ◌==◌, ◌&&◌, not, Option, List, [], ◌∷◌, length, take, ltb,
  if◌then◌else◌,
}
use webmeow.Feed.Channels.{ChannelId, same, resort_wide, channels, BroadcastEvent}

abbrev pub max_events : ℕ
max_events = 100

pub record EventsState : Type 0 where
  pub events : ChannelId → List BroadcastEvent
  pub activity_tick : ChannelId → ℕ

abbrev pub empty_events : EventsState
empty_events = record { events = λ c. []; activity_tick = λ c. 0 }

-- `{ ...record, [channel]: value }`
abbrev pub with_channel {ℓ} : {A : Type ℓ} → ChannelId → A → (ChannelId → A) → ChannelId → A
with_channel c x f d = if same c d then x else f d

unfoldable pub prepend_event : List BroadcastEvent → BroadcastEvent → List BroadcastEvent
prepend_event events event =
    let next = event ∷ events in if ltb max_events (length next) then take max_events next else next

-- An event is put under a channel: the lists read are those of `old`.
unfoldable pub file_event : EventsState → ChannelId → BroadcastEvent → EventsState → EventsState
unfolding prepend_event same
file_event old c event next = record {
  events = with_channel c (prepend_event (old.events c) event) next.events;
  activity_tick = with_channel c (suc (old.activity_tick c)) next.activity_tick;
}

-- The copy of an announcement for a channel.
unfoldable pub copy_event : (ChannelId → String) → BroadcastEvent → ChannelId → BroadcastEvent
unfolding same
copy_event fresh event c = record event {
  id = if same c event.channel then event.id else fresh c;
  channel = c;
}

-- `Object.values(ChannelId).forEach(...)`
unfoldable pub file_copies :
    (ChannelId → String) → BroadcastEvent → EventsState → List ChannelId → EventsState → EventsState
unfolding file_event copy_event
file_copies fresh event old [] next = next
file_copies fresh event old (c ∷ cs) next =
    file_copies fresh event old cs (file_event old c (copy_event fresh event c) next)

unfoldable pub ingest_event :
    (ChannelId → String) → BroadcastEvent → Bool → EventsState → EventsState
unfolding file_copies file_event same
ingest_event fresh event mirror state =
    if event.event_type == "resort.announcement"
    then file_copies fresh event state channels state
    else let next = file_event state event.channel event state in
      if mirror && not (same event.channel resort_wide)
      then file_event state resort_wide
          record event { id = fresh resort_wide; channel = resort_wide } next
      else next

unfoldable pub clear_events : ChannelId → EventsState → EventsState
unfolding same
clear_events c state = record state { events = with_channel c [] state.events }
