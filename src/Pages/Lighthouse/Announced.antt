-- ===== src/Pages/Lighthouse/Announced.antt =====
-- An announcement's way from the administrator's panel
-- (frontend/src/features/broadcast/components/broadcast-panel.tsx) through the broadcast service
-- (services/broadcast/src/routes/admin.ts) to what the guests see in the lighthouse.
use webmeow.Prelude.{
  ℕ, ◌≤◌, String, ◌≡◌, refl, inl, inr, ap, sym, ◌∙◌, Bool, true, false, Option, none, some, List,
  ◌∷◌, length, take, keep, take_of_length-le, if_of_true, is_empty, trim, starts_with, arith,
  if◌then◌else◌,
}
use webmeow.Prelude.Json.{Json}
use webmeow.Island.Session.{AppSession}
use webmeow.Hub.Bus.{Bus, broadcast, event_json, type_name, resort_announcement}
use webmeow.Hub.Admin.{Env, announcement, trimmed_field}
use webmeow.Hub.Publishing.{
  Panel, request_body, sender_of, handle_publish, is_authorized, Published,
  handle_publish-Published, Sent, Way, answers, stays_away, unheard,
}
use webmeow.Feed.Channels.{ChannelId, resort_wide, BroadcastEvent, same}
use webmeow.Feed.Normalize.{
  Schema, island_event, named_event, normalize_island_event, handle_message, as_record,
  channel_from_source, has_keys,
}
use webmeow.Feed.Store.{EventsState, ingest_event}
use webmeow.Feed.Store.Delivery.{delivery, add}
use webmeow.Feed.Store.Ingest.{ingest-delivery}
use webmeow.Pages.Lighthouse.{is_public, visible}

-- What the feed makes of an announcement.
abbrev pub heard : String → String → Json → BroadcastEvent
heard id now body =
    island_event (event_json (announcement id now body)) id (type_name resort_announcement)

normalize-announcement :
    (z : Schema) (id now : String) (body : Json)
    → normalize_island_event z (event_json (announcement id now body)) ≡ some (heard id now body)
unfolding normalize_island_event event_json announcement named_event as_record
normalize-announcement z id now body =
    let raw = event_json (announcement id now body) in
    ap (λ o. elim o [ some parsed ↦ some parsed | none ↦ some (heard id now body) ])
      (z.safe_parse-no_type raw refl)

handle_message-heard :
    (z : Schema) (fresh : ChannelId → String) (id now : String) (body : Json) (s : EventsState)
    → handle_message z fresh (some (event_json (announcement id now body))) s
      ≡ ingest_event fresh (heard id now body) true s
unfolding handle_message
handle_message-heard z fresh id now body s =
    ap {B = EventsState} (λ o. elim o [ none ↦ s | some event ↦ ingest_event fresh event true s ])
      (normalize-announcement z id now body)

-- The copy of it that is put under the lighthouse's channel.
abbrev pub note : (ChannelId → String) → String → String → String → String → BroadcastEvent
note fresh id now message sender = record (heard id now (request_body message sender)) {
  id = fresh resort_wide;
  channel = resort_wide;
}

note_parts :
    (fresh : ChannelId → String) (id now message sender : String)
    → ((note fresh id now message sender).message ≡ trim message)
      × ((note fresh id now message sender).sender
          ≡ (if is_empty (trim sender) then "Admin" else trim sender))
      × (is_public (note fresh id now message sender) ≡ true)
unfolding island_event event_json announcement trimmed_field as_record has_keys is_public type_name
    starts_with
note_parts fresh id now message sender = (refl, refl, refl)

delivered :
    (fresh : ChannelId → String) (id now message sender : String)
    → delivery fresh (heard id now (request_body message sender)) true resort_wide
      ≡ some (note fresh id now message sender)
unfolding island_event event_json announcement as_record delivery same channel_from_source type_name
delivered fresh id now message sender = refl

keep-all :
    (is_admin : Bool) (e : BroadcastEvent) (es : List BroadcastEvent)
    → is_public e ≡ true
    → (if is_admin then e ∷ es else keep is_public (e ∷ es))
      ≡ e ∷ (if is_admin then es else keep is_public es)
keep-all true e es h = refl
keep-all false e es h = rw h refl

-- What is seen of a list.
abbrev pub seen : Bool → List BroadcastEvent → List BroadcastEvent
seen is_admin events = if is_admin then events else keep is_public events

visible-heard :
    (z : Schema) (fresh : ChannelId → String) (id now message sender : String) (s : EventsState)
    → (is_admin : Bool) → length (s.events resort_wide) ≤ 100
    → visible is_admin (
        handle_message z fresh
          (some (event_json (announcement id now (request_body message sender))))
          s)
      ≡ note fresh id now message sender ∷ seen is_admin (take 99 (s.events resort_wide))
unfolding visible
visible-heard z fresh id now message sender s is_admin h =
    let body = request_body message sender in
    ap (λ st. seen is_admin (st.events resort_wide)) (handle_message-heard z fresh id now body s)
    ∙ ap (seen is_admin) (
        ingest-delivery fresh (heard id now body) true s resort_wide (s.events resort_wide)
          (sym (take_of_length-le 100 (s.events resort_wide) h)))
    ∙ ap (λ o. seen is_admin (take 100 (add o (s.events resort_wide))))
        (delivered fresh id now message sender)
    ∙ keep-all is_admin (note fresh id now message sender) (take 99 (s.events resort_wide))
        (note_parts fresh id now message sender).2

-- The request gets to the service, whether or not its answer comes back.
abbrev pub gets_there : Way → Bool
gets_there answers = true
gets_there (stays_away text) = false
gets_there (unheard text) = true

-- The announcement is sent and seen: with what each client's feed makes of it.
module _ (status_message : ℕ → String) (invalid_answer : String) (hub : Env) where
  abbrev pub IsAnnounced :
      Way
      → Option AppSession
      → String
      → String
      → String
      → Panel
      → Bus
      → Schema
      → (ChannelId → String)
      → EventsState
      → Bool
      → Type 0
  IsAnnounced way session passcode id now p bus z fresh s is_admin =
      let message = trim p.message in
      let event = announcement id now (request_body message (sender_of session)) in
      let shown = note fresh id now message (sender_of session) in
      ((handle_publish status_message invalid_answer hub way true session passcode id now p bus).1
        ≡ broadcast event bus)
      × (visible is_admin (handle_message z fresh (some (event_json event)) s)
          ≡ shown ∷ seen is_admin (take 99 (s.events resort_wide)))
      × (shown.message ≡ trim message)
      × (shown.sender
          ≡ (if is_empty (trim (sender_of session)) then "Admin" else trim (sender_of session)))

  served :
      (way : Way) (session : Option AppSession) (passcode id now : String) (p : Panel) (bus : Bus)
      (result : Panel × Bus)
      → gets_there way ≡ true
      → is_authorized status_message invalid_answer hub passcode ≡ true
      → Sent status_message invalid_answer hub way session passcode id now p bus result
      → result.1
        ≡ broadcast (announcement id now (request_body (trim p.message) (sender_of session))) bus
  served answers session passcode id now p bus result there ours (inl (same, e)) =
      ap (λ (q : Panel × Bus). q.1) e
  served answers session passcode id now p bus result there ours (inr (other, e)) =
      absurd (ground (arith, other))
  served (stays_away text) session passcode id now p bus result there ours e =
      absurd (ground (arith, there))
  served (unheard text) session passcode id now p bus result there ours e =
      ap (λ (q : Panel × Bus). q.1) e
      ∙ if_of_true (is_authorized status_message invalid_answer hub passcode) _ _ ours

  sent :
      (way : Way) (session : Option AppSession) (passcode id now : String) (p : Panel) (bus : Bus)
      (result : Panel × Bus)
      → gets_there way ≡ true
      → is_authorized status_message invalid_answer hub passcode ≡ true
      → is_empty (trim p.message) ≡ false
      → p.is_publishing ≡ false
      → Published status_message invalid_answer hub way true session passcode id now p bus result
      → result.1
        ≡ broadcast (announcement id now (request_body (trim p.message) (sender_of session))) bus
  sent way session passcode id now p bus result there ours full idle (inl (blank, same)) =
      absurd (ground (arith, blank))
  sent way session passcode id now p bus result there ours full idle (inr (some_text, what)) =
      served way session passcode id now p bus result there ours what

  -- Where the request gets through to the broadcast service, the administrator's panel has the
  -- service's passcode, a message that is not blank, and no other under way, the button has the
  -- announcement sent to every client that is connected, whether or not the answer comes back; and
  -- whoever reads it, guest or administrator, sees it first in the lighthouse, with the trimmed message
  -- and the sender's name, before the newest 99 of what was there. The lighthouse had no more than a
  -- hundred events.
  pub visible-handle_publish :
      (way : Way) (session : Option AppSession) (passcode id now : String) (p : Panel) (bus : Bus)
      (z : Schema) (fresh : ChannelId → String) (s : EventsState) (is_admin : Bool)
      → gets_there way ≡ true
      → is_authorized status_message invalid_answer hub passcode ≡ true
      → is_empty (trim p.message) ≡ false
      → p.is_publishing ≡ false
      → length (s.events resort_wide) ≤ 100
      → IsAnnounced way session passcode id now p bus z fresh s is_admin
  visible-handle_publish way session passcode id now p bus z fresh s is_admin there ours full idle
        h =
      let message = trim p.message in
      let sender = sender_of session in
      let parts = note_parts fresh id now message sender in
      (
        sent way session passcode id now p bus
            (handle_publish status_message invalid_answer hub way true session passcode id now p
              bus)
            there ours full idle
            (handle_publish-Published status_message invalid_answer hub way true session passcode id
              now p bus),
        visible-heard z fresh id now message sender s is_admin h,
        parts.0,
        parts.1,
      )
