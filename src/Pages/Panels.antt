-- ===== src/Pages/Panels.antt =====
-- frontend/src/features/map/components/zone-panel.tsx with the panels of the airport
-- (airport/components/airport-panel.tsx, arrival-status.tsx), the hotel
-- (hotel/components/hotel-panel.tsx), the beach (beach/components/beach-panel.tsx) and the parrot
-- (parrot/components/parrot-panel.tsx), the hooks airport/hooks/use-airport.ts and
-- beach/hooks/use-checked-in.ts, and the lock of map/components/zone-indicator.tsx. The times of an
-- arrival are left out.
pub mod Gates
use webmeow.Prelude.{
  ℕ, String, Bool, true, false, ◌&&◌, ◌||◌, not, Option, none, some, List, if◌then◌else◌, eqb,
}
use webmeow.Prelude.Int.{ℤ}
use webmeow.Feed.Channels.{BroadcastEvent}
use webmeow.Island.Session.{GuestProfile, SessionState, has_admin_role}
use webmeow.Island.Zones.{ZoneId, airport, hotel, beach, parrot, broadcast}
use webmeow.Island.Quests.{place}
use webmeow.Parrot.Chat.{ParrotThreadItem}
use webmeow.Stay.{Reservation}

pub data ArrivalStatusValue : Type 0 where
  not_started queued processing processed : ArrivalStatusValue

pub record ArrivalStatus : Type 0 where
  pub guest_id : String
  pub status : ArrivalStatusValue
  pub gate : String
  pub position : Option ℤ

-- `data?.status === "processed"`
abbrev pub is_processed : ArrivalStatusValue → Bool
is_processed processed = true
is_processed _ = false

-- `useLanded`, of what the query has.
unfoldable pub use_landed : Option ArrivalStatus → Bool
use_landed none = false
use_landed (some a) = is_processed a.status

abbrev pub poll_interval_ms : ℕ
poll_interval_ms = 3000

-- `arrivalRefetchInterval`; `none` is the `false` that stops the polling.
unfoldable pub arrival_refetch_interval : Option ArrivalStatus → Option ℕ
arrival_refetch_interval none = some poll_interval_ms
arrival_refetch_interval (some a) = if is_processed a.status then none else some poll_interval_ms

abbrev pub is_there {ℓ} : {A : Type ℓ} → Option A → Bool
is_there none = false
is_there (some a) = true

-- What the hooks answer for the guest of the session.
pub record Answers : Type 0 where
  pub arrival : Option ArrivalStatus
  pub is_boarding : Bool
  pub boarded : Bool
  pub reservation : Option Reservation
  pub is_loading_reservation : Bool
  pub is_cancelling : Bool
  pub is_submitting : Bool
  pub confirmed : Option Reservation
  pub thread_items : List ParrotThreadItem
  pub history_error : Option String
  pub is_loading_history : Bool
  pub is_history_ready : Bool
  pub is_sending : Bool
  pub events : ZoneId → List BroadcastEvent

-- `useCheckedIn`
unfoldable pub use_checked_in : Answers → Bool
use_checked_in a = if a.is_loading_reservation then false else is_there a.reservation

-- The card of an arrival: cleared at a gate, or waiting there at a position, if one is known.
pub data StatusCard : Type 0 where
  cleared : String → StatusCard
  waiting : String → String → Option ℤ → StatusCard

unfoldable pub arrival_status_card : ArrivalStatus → StatusCard
arrival_status_card a = elim a.status [
  | processed ↦ cleared a.gate
  | processing ↦ waiting "Processing" a.gate a.position
  | _ ↦ waiting "Queued" a.gate a.position
]

-- What a panel shows. A form or a composer comes with whether its button is disabled.
pub data PanelView : Type 0 where
  admin_view : ZoneId → List BroadcastEvent → PanelView
  parrot_admin_panel announcements nothing : PanelView
  not_landed_gate not_checked_in_gate spinner activities_list : PanelView
  arrived : Option GuestProfile → StatusCard → PanelView
  boarding_form : Option GuestProfile → Bool → Bool → PanelView
  active_reservation : Reservation → Bool → PanelView
  reservation_form : Bool → Option Reservation → PanelView
  chat_loading chat_error : Bool → PanelView
  chat_thread : List ParrotThreadItem → Bool → PanelView

-- `arrivalStatus.status !== "not_started"`
abbrev pub has_started : ArrivalStatusValue → Bool
has_started not_started = false
has_started _ = true

abbrev pub boarding_view : Option GuestProfile → Option ArrivalStatus → Bool → Bool → PanelView
boarding_view guest none is_boarding boarded = boarding_form guest is_boarding boarded
boarding_view guest (some a) is_boarding boarded =
    if has_started a.status
    then arrived guest (arrival_status_card a)
    else boarding_form guest is_boarding boarded

unfoldable pub airport_panel : SessionState → Answers → PanelView
unfolding arrival_status_card has_admin_role
airport_panel s a =
    if has_admin_role s.session
    then admin_view airport (a.events airport)
    else boarding_view s.guest a.arrival a.is_boarding a.boarded

abbrev pub stay_view : Option Reservation → Answers → PanelView
stay_view none a = reservation_form a.is_submitting a.confirmed
stay_view (some r) a = active_reservation r a.is_cancelling

unfoldable pub hotel_panel : SessionState → Answers → PanelView
unfolding use_landed has_admin_role
hotel_panel s a =
    if has_admin_role s.session
    then admin_view hotel (a.events hotel)
    else if not (is_there s.guest)
    then nothing
    else if not (use_landed a.arrival)
    then not_landed_gate
    else if a.is_loading_reservation
    then spinner
    else stay_view a.reservation a

unfoldable pub beach_panel : SessionState → Answers → PanelView
unfolding use_landed use_checked_in has_admin_role
beach_panel s a =
    if has_admin_role s.session
    then admin_view beach (a.events beach)
    else if not (use_landed a.arrival)
    then not_landed_gate
    else if not (use_checked_in a)
    then not_checked_in_gate
    else activities_list

-- `composerDisabled`
abbrev pub composer_disabled : Bool → Bool → Bool → Bool
composer_disabled is_loading_history is_history_ready is_sending =
    is_loading_history || not is_history_ready || is_sending

unfoldable pub parrot_panel : SessionState → Answers → PanelView
unfolding use_landed has_admin_role
parrot_panel s a =
    let disabled = composer_disabled a.is_loading_history a.is_history_ready a.is_sending in
    if has_admin_role s.session
    then parrot_admin_panel
    else if is_there s.guest && not (use_landed a.arrival)
    then not_landed_gate
    else if a.is_loading_history
    then chat_loading disabled
    else if is_there a.history_error
    then chat_error disabled
    else chat_thread a.thread_items disabled

-- `ZonePanelContent`; the panel of the announcements is open to all.
unfoldable pub zone_panel_content : ZoneId → SessionState → Answers → PanelView
unfolding airport_panel hotel_panel beach_panel parrot_panel
zone_panel_content airport s a = airport_panel s a
zone_panel_content hotel s a = hotel_panel s a
zone_panel_content beach s a = beach_panel s a
zone_panel_content parrot s a = parrot_panel s a
zone_panel_content broadcast s a = announcements

-- `locked` of a zone's marker.
unfoldable pub is_locked : ZoneId → SessionState → Answers → Bool
unfolding use_landed use_checked_in has_admin_role
is_locked id s a =
    let needs_landing = not (eqb (place id) (place airport)) in
    let needs_checkin = eqb (place id) (place beach) in
    let is_locked_for_guest =
      (needs_landing && not (use_landed a.arrival)) || (needs_checkin && not (use_checked_in a)) in
    not (has_admin_role s.session) && is_locked_for_guest
