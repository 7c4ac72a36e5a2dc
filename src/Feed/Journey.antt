-- ===== src/Feed/Journey.antt =====
-- An event's way from the broadcast service's bus (services/broadcast/src) into the feed
-- (frontend/src/features/broadcast/hooks/use-broadcast.ts and stores/events-store.ts).
use webmeow.Prelude.{
  suc, ◌≤◌, String, ◌≡◌, ◌≢◌, refl, sym, ap, ◌∙◌, subst, true, false, ◌==◌, Option, none, some, ◌∷◌,
  ◌++◌, map, length, take, take_of_length-le, Bool-cases, inl, inr, arith,
}
use webmeow.Prelude.Json.{Json}
use webmeow.Hub.Bus.{
  EventType, airport_arrival, hotel_confirm, hotel_cancel, beach_full, beach_available, type_name,
  event_json, message, Bus, broadcast,
}
use webmeow.Hub.Routes.{
  Reply, body_event, post_airport_arrival, post_hotel_confirm, post_hotel_cancel, post_beach_full,
  post_beach_available,
}
use webmeow.Feed.Channels.{
  ChannelId, airport, hotel, beach, resort_wide, same, same-eq, same_refl, BroadcastEvent,
}
use webmeow.Feed.Normalize.{
  Schema, as_record, channel_from_source, island_event, named_event, normalize_island_event,
  handle_message,
}
use webmeow.Feed.Store.{EventsState, ingest_event}
use webmeow.Feed.Store.Delivery.{delivery, add, ticked}
use webmeow.Feed.Store.Ingest.{ingest-delivery, ingest-ticks}

-- What the feed makes of a service's event.
unfoldable pub shown : String → String → EventType → String → Json → BroadcastEvent
shown id now t source body =
    island_event (event_json (body_event id now t source body)) id (type_name t)

normalize-event_json :
    (z : Schema) (id now source : String) (t : EventType) (body : Json)
    → normalize_island_event z (event_json (body_event id now t source body))
      ≡ some (shown id now t source body)
unfolding normalize_island_event event_json body_event shown named_event as_record
normalize-event_json z id now source t body =
    let raw = event_json (body_event id now t source body) in
    ap (λ o. elim o [ some parsed ↦ some parsed | none ↦ some (shown id now t source body) ])
      (z.safe_parse-no_type raw refl)

pub handle_message-shown :
    (z : Schema) (fresh : ChannelId → String) (id now source : String) (t : EventType) (body : Json)
    (s : EventsState)
    → handle_message z fresh (some (event_json (body_event id now t source body))) s
      ≡ ingest_event fresh (shown id now t source body) true s
unfolding handle_message
handle_message-shown z fresh id now source t body s =
    ap {B = EventsState} (λ o. elim o [ none ↦ s | some event ↦ ingest_event fresh event true s ])
      (normalize-event_json z id now source t body)

-- What the three services post.
pub data Post : Type 0 where
  airport_arrives hotel_confirms hotel_cancels beach_fills beach_frees : Post

-- The handler of a post.
abbrev pub serve : Post → String → String → Json → Bus → Reply × Bus
serve airport_arrives = post_airport_arrival
serve hotel_confirms = post_hotel_confirm
serve hotel_cancels = post_hotel_cancel
serve beach_fills = post_beach_full
serve beach_frees = post_beach_available

-- The name of the event, the service that posts it and the channel of that service.
abbrev pub name_of : Post → String
name_of airport_arrives = "airport.arrival"
name_of hotel_confirms = "hotel.reservation_confirmed"
name_of hotel_cancels = "hotel.reservation_cancelled"
name_of beach_fills = "beach.activity_full"
name_of beach_frees = "beach.activity_available"

abbrev pub poster : Post → String
poster airport_arrives = "airport"
poster hotel_confirms = "hotel"
poster hotel_cancels = "hotel"
poster beach_fills = "beach"
poster beach_frees = "beach"

abbrev pub home : Post → ChannelId
home airport_arrives = airport
home hotel_confirms = hotel
home hotel_cancels = hotel
home beach_fills = beach
home beach_frees = beach

abbrev type_of : Post → EventType
type_of airport_arrives = airport_arrival
type_of hotel_confirms = hotel_confirm
type_of hotel_cancels = hotel_cancel
type_of beach_fills = beach_full
type_of beach_frees = beach_available

-- The feed once it has read an event: it stands first in its channel, a copy of it in the
-- resort-wide one, and the other channels are as they were.
abbrev pub IsFiled : (ChannelId → String) → BroadcastEvent → EventsState → EventsState → Type 0
IsFiled fresh e s s' =
    (s'.events e.channel ≡ take 100 (e ∷ s.events e.channel))
    × (s'.events resort_wide
        ≡ take 100
            (record e { id = fresh resort_wide; channel = resort_wide } ∷ s.events resort_wide))
    × (s'.activity_tick e.channel ≡ suc (s.activity_tick e.channel))
    × (s'.activity_tick resort_wide ≡ suc (s.activity_tick resort_wide))
    × ((c : ChannelId)
        → c ≢ e.channel
        → c ≢ resort_wide
        → (s'.events c ≡ s.events c) × (s'.activity_tick c ≡ s.activity_tick c))

not_same : (a c : ChannelId) → c ≢ a → same a c ≡ false
not_same a c n = elim (Bool-cases (same a c)) [
  | inl e ↦ absurd (n (sym (same-eq a c e)))
  | inr e ↦ e
]

module _ (fresh : ChannelId → String) (e : BroadcastEvent) (s : EventsState)
    (short : (c : ChannelId) → length (s.events c) ≤ 100) where
  got :
      (c : ChannelId) {o : Option BroadcastEvent}
      → delivery fresh e true c ≡ o
      → (ingest_event fresh e true s).events c ≡ take 100 (add o (s.events c))
  got c h =
      ingest-delivery fresh e true s c (s.events c)
        (sym (take_of_length-le 100 (s.events c) (short c)))
      ∙ ap (λ o. take 100 (add o (s.events c))) h

  counted :
      (c : ChannelId) {o : Option BroadcastEvent}
      → delivery fresh e true c ≡ o
      → (ingest_event fresh e true s).activity_tick c ≡ ticked o (s.activity_tick c)
  counted c h = ingest-ticks fresh e true s c ∙ ap (λ o. ticked o (s.activity_tick c)) h

  own : delivery fresh e true e.channel ≡ some e
  unfolding delivery
  own = rw (same_refl e.channel) refl

  copied :
      (e.event_type == "resort.announcement") ≡ false
      → e.channel ≢ resort_wide
      → delivery fresh e true resort_wide
        ≡ some record e { id = fresh resort_wide; channel = resort_wide }
  unfolding delivery
  copied ordinary n =
      rw (not_same e.channel resort_wide (λ p. n (sym p)), ordinary, same_refl resort_wide) refl

  none_there :
      (c : ChannelId)
      → (e.event_type == "resort.announcement") ≡ false
      → c ≢ e.channel
      → c ≢ resort_wide
      → delivery fresh e true c ≡ none
  unfolding delivery
  none_there c ordinary m k = rw (not_same e.channel c m, ordinary, not_same resort_wide c k) refl

  ingest-IsFiled :
      (e.event_type == "resort.announcement") ≡ false
      → e.channel ≢ resort_wide
      → IsFiled fresh e s (ingest_event fresh e true s)
  ingest-IsFiled ordinary n = (
    got e.channel own,
    got resort_wide (copied ordinary n),
    counted e.channel own,
    counted resort_wide (copied ordinary n),
    λ c m k.
        let nothing = none_there c ordinary m k in
        (got c nothing ∙ take_of_length-le 100 (s.events c) (short c), counted c nothing),
  )

-- What is written to the clients, and what a client makes of it.
abbrev pub IsPosted :
    Post → String → String → Json → Bus → Schema → (ChannelId → String) → EventsState → Type 0
IsPosted p id now body bus z fresh s =
    (raw : Json) × (e : BroadcastEvent) × ((serve p id now body bus).1.written
      ≡ bus.written ++ map (λ c. (c, message (name_of p) raw)) bus.clients)
    × (e.id ≡ id)
    × (e.channel ≡ home p)
    × (e.event_type ≡ name_of p)
    × (e.sender ≡ poster p)
    × IsFiled fresh e s (handle_message z fresh (some raw) s)

shown-IsPosted :
    (p : Post) (id now : String) (body : Json) (bus : Bus) (z : Schema) (fresh : ChannelId → String)
    (s : EventsState)
    → ((c : ChannelId) → length (s.events c) ≤ 100)
    → ((serve p id now body bus).1.written
        ≡ bus.written
          ++ map
              (λ c. (
                c,
                message (name_of p) (event_json (body_event id now (type_of p) (poster p) body)),
              ))
              bus.clients)
    → ((shown id now (type_of p) (poster p) body).id ≡ id)
    → ((shown id now (type_of p) (poster p) body).channel ≡ home p)
    → ((shown id now (type_of p) (poster p) body).event_type ≡ name_of p)
    → ((shown id now (type_of p) (poster p) body).sender ≡ poster p)
    → (name_of p == "resort.announcement") ≡ false
    → home p ≢ resort_wide
    → IsPosted p id now body bus z fresh s
shown-IsPosted p id now body bus z fresh s short written same_id there named from ordinary n =
    let e = shown id now (type_of p) (poster p) body in
    (
      event_json (body_event id now (type_of p) (poster p) body),
      e,
      written,
      same_id,
      there,
      named,
      from,
      subst (IsFiled fresh e s)
          (sym (handle_message-shown z fresh id now (poster p) (type_of p) body s))
          (ingest-IsFiled fresh e s short (ap (λ t. t == "resort.announcement") named ∙ ordinary)
            (λ q. n (sym there ∙ q))),
    )

not_wide : (c : ChannelId) → same c resort_wide ≡ false → c ≢ resort_wide
unfolding same
not_wide c h e = ground (arith, ap (λ d. same d resort_wide) e)

-- What a service posts is written to every connected client under the event's name; and a client whose
-- channels have at most a hundred events, when it reads that, puts the event first in the channel of
-- the service that posted it (an arrival in the airport's, a confirmed or cancelled reservation in the
-- hotel's, an activity that is full or has places again in the beach's), with the identifier and the
-- name of the event and the service as its sender, and a copy first in the resort-wide channel. Both
-- count it and show the newest hundred; the other channels are as they were.
pub handle_message-event_json :
    (p : Post) (id now : String) (body : Json) (bus : Bus) (z : Schema) (fresh : ChannelId → String)
    (s : EventsState)
    → ((c : ChannelId) → length (s.events c) ≤ 100)
    → IsPosted p id now body bus z fresh s
unfolding post_airport_arrival post_hotel_confirm post_hotel_cancel post_beach_full
    post_beach_available broadcast type_name shown island_event event_json body_event as_record
    channel_from_source same
handle_message-event_json airport_arrives id now body bus z fresh s h =
    shown-IsPosted airport_arrives id now body bus z fresh s h refl refl refl refl refl refl
      (not_wide airport refl)
handle_message-event_json hotel_confirms id now body bus z fresh s h =
    shown-IsPosted hotel_confirms id now body bus z fresh s h refl refl refl refl refl refl
      (not_wide hotel refl)
handle_message-event_json hotel_cancels id now body bus z fresh s h =
    shown-IsPosted hotel_cancels id now body bus z fresh s h refl refl refl refl refl refl
      (not_wide hotel refl)
handle_message-event_json beach_fills id now body bus z fresh s h =
    shown-IsPosted beach_fills id now body bus z fresh s h refl refl refl refl refl refl
      (not_wide beach refl)
handle_message-event_json beach_frees id now body bus z fresh s h =
    shown-IsPosted beach_frees id now body bus z fresh s h refl refl refl refl refl refl
      (not_wide beach refl)
