-- ===== src/Pages/Tests/Lighthouse.antt =====
-- An announcement of the administrator, from the panel to the lighthouse, at a concrete input.
use webmeow.Prelude.{ℕ, String, arith, ◌≡◌, refl, true, false, none, some, ◌∷◌, []}
use webmeow.Prelude.{trim, is_space, starts_with}
use webmeow.Island.Session.{admin_session}
use webmeow.Island.Zones.{alien}
use webmeow.Hub.Bus.{Bus}
use webmeow.Hub.Admin.{Env, configured_admin_passcode}
use webmeow.Hub.Publishing.{Panel, answers}
use webmeow.Feed.Channels.{BroadcastEvent, ChannelId}
use webmeow.Feed.Store.{EventsState, empty_events}
use webmeow.Feed.Tests.{schema, fresh}
use webmeow.Pages.Lighthouse.{is_public, visible, broadcast_panel}
use webmeow.Pages.Lighthouse.Announced.{IsAnnounced, visible-handle_publish}

abbrev env : Env
env = record { admin_passcode = some "meow"; vite_admin_passcode = none }

abbrev one_client : Bus
one_client = record { clients = 1 ∷ []; written = [] }

abbrev panel : Panel
panel = record { message = " Fire drill "; is_publishing = false; toasts = [] }

abbrev status_message : ℕ → String
status_message status = "Request failed"

visible-handle_publish_example :
    IsAnnounced status_message "Invalid" env answers
      (some (admin_session "Cat"))
      "meow"
      "e3"
      "t3"
      panel
      one_client
      schema
      fresh
      empty_events
      false
unfolding configured_admin_passcode trim is_space
visible-handle_publish_example =
    visible-handle_publish status_message "Invalid" env answers (some (admin_session "Cat")) "meow"
      "e3" "t3" panel one_client schema fresh empty_events false refl refl refl refl (omega arith)

-- A guest sees what is public, an administrator everything; the form is the administrator's.
abbrev event_of : String → BroadcastEvent
event_of event_type = record {
  id = "e1";
  channel = ChannelId.resort_wide;
  event_type = event_type;
  message = "";
  sender = "";
  guest_id = none;
  guest_name = none;
  data_fields = none;
}

abbrev some_events : EventsState
some_events = record {
  events = λ c. event_of "hotel.reservation_confirmed" ∷ event_of "public.announcement" ∷ [];
  activity_tick = λ c. 0;
}

guests_see_one :
    ((broadcast_panel false "meow" alien panel some_events).log
      ≡ event_of "public.announcement" ∷ [])
    × ((broadcast_panel false "meow" alien panel some_events).form ≡ none)
    × ((broadcast_panel true "" alien panel some_events).form
        ≡ some record { can_write = false; can_send = false })
unfolding broadcast_panel visible is_public trim is_space starts_with
guests_see_one = (refl, refl, refl)
