-- ===== src/Pages/Lighthouse.antt =====
-- frontend/src/features/broadcast/components/broadcast-panel.tsx: what the lighthouse shows. The sending
-- of an announcement is in Hub/Publishing.
pub mod Announced
use webmeow.Prelude.{
  String, Bool, true, false, ◌==◌, ◌||◌, not, Option, none, some, List, keep, if◌then◌else◌,
  is_empty, trim, starts_with,
}
use webmeow.Feed.Channels.{BroadcastEvent}
use webmeow.Feed.Store.{EventsState}
use webmeow.Hub.Publishing.{Panel}
use webmeow.Island.Zones.{broadcast, get_zone, IslandId, purrlington, alien}

-- Of an event, whether guests see it.
unfoldable pub is_public : BroadcastEvent → Bool
is_public e = starts_with e.event_type "public." || (e.event_type == "resort.announcement")

-- `visible`
unfoldable pub visible : Bool → EventsState → List BroadcastEvent
unfolding is_public
visible is_admin s =
    let events = s.events (get_zone broadcast).channel in
    if is_admin then events else keep is_public events

-- The form of the administrator: whether the text can be written and sent.
pub record FormView : Type 0 where
  pub can_write : Bool
  pub can_send : Bool

-- The panel: where its button travels, and what the button reads.
pub record PanelView : Type 0 where
  pub travel_to : IslandId
  pub travel_label : String
  pub form : Option FormView
  pub log : List BroadcastEvent

abbrev pub target_island : IslandId → IslandId
target_island alien = purrlington
target_island purrlington = alien

abbrev pub travel_text : IslandId → String
travel_text alien = "Return to Purrlington"
travel_text purrlington = "Go to Alien Island"

unfoldable pub broadcast_panel : Bool → String → IslandId → Panel → EventsState → PanelView
unfolding visible
broadcast_panel is_admin admin_passcode current p s =
    let can_write = not (p.is_publishing || is_empty admin_passcode) in
    record {
      travel_to = target_island current;
      travel_label = travel_text current;
      form =
          if is_admin
          then some record {
            can_write = can_write;
            can_send =
                not (is_empty (trim p.message) || (p.is_publishing || is_empty admin_passcode));
          }
          else none;
      log = visible is_admin s;
    }
