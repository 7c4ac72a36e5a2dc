-- ===== src/Pages/Visit.antt =====
-- A visit of the web app: the routes of frontend/src/app/router.tsx with
-- features/map/components/require-session.tsx; the start page, guest-selection-page.tsx with
-- admin-login-card.tsx; the map, map-page.tsx with guest-hud.tsx; guest-pass-page.tsx and quit-page.tsx.
-- A page's own state is lost when the visitor leaves it.
pub mod Routes
pub mod Entrance
pub mod Quest
use webmeow.Prelude.{
  String, Bool, true, false, ◌==◌, ◌||◌, not, Option, none, some, List, [], ◌∷◌, if◌then◌else◌,
  is_empty, trim,
}
use webmeow.Island.Session.{
  GuestProfile, SessionState, empty_session_state, guest_session_state, admin_session_state,
}
use webmeow.Island.Zones.{ZoneId, IslandId, purrlington, alien}
use webmeow.Pages.Panels.{is_there}
use webmeow.Island.Quests.{QuestStore, mark_zone_visited, set_completion_dismissed}

-- The state that a page has of its own: the side that the start page shows and the error of its form;
-- the map's open panel and island.
pub data Place : Type 0 where
  start_page : Bool → Option String → Place
  map_page : Option ZoneId → IslandId → Place
  pass_page quit_page : Place

pub record App : Type 0 where
  pub place : Place
  pub session : SessionState
  pub quests : QuestStore

-- The paths of the router.
pub data Route : Type 0 where
  home map_route pass_route quit_route : Route

-- `RequireSession`: without a session the visitor is led to the start page.
abbrev pub require_session : Place → App → App
require_session place app =
    if is_there app.session.session
    then record app { place = place }
    else record app { place = start_page false none }

-- A route's page opens; the last page clears the session.
unfoldable pub navigate : Route → App → App
navigate home app = record app { place = start_page false none }
navigate map_route app = require_session (map_page none purrlington) app
navigate pass_route app = require_session pass_page app
navigate quit_route app = record app { place = quit_page; session = empty_session_state }

-- `handleSelectGuest`
unfoldable pub handle_select_guest : GuestProfile → App → App
unfolding guest_session_state navigate
handle_select_guest guest app =
    navigate map_route (record app { session = guest_session_state guest })

-- `handleAdminLogin`
unfoldable pub handle_admin_login : App → App
unfolding admin_session_state navigate
handle_admin_login app =
    navigate map_route (record app { session = admin_session_state "Admin Observer" })

-- `handleSubmit` of the form, past its schema; `none` is the login.
unfoldable pub handle_submit : String → String → Option String
handle_submit admin_passcode passcode =
    if is_empty admin_passcode
    then some "Admin login is not configured for this environment."
    else if not (passcode == admin_passcode)
    then some "That admin passcode does not look right."
    else none

-- `AdminLoginSchema` trims what is entered and refuses an empty passcode.
unfoldable pub check_login : String → String → Option String
unfolding handle_submit
check_login admin_passcode entered =
    let passcode = trim entered in
    if is_empty passcode
    then some "Enter the admin passcode."
    else handle_submit admin_passcode passcode

-- `openZone`: a guest's zone is marked as visited.
abbrev pub mark_for : Option GuestProfile → ZoneId → QuestStore → QuestStore
mark_for none zone quests = quests
mark_for (some guest) zone quests = mark_zone_visited guest.id zone quests

unfoldable pub open_zone : ZoneId → IslandId → App → App
open_zone zone island app = record app {
  place = map_page (some zone) island;
  quests = mark_for app.session.guest zone app.quests;
}

-- `dismissComplete`
abbrev pub dismiss_for : Option GuestProfile → QuestStore → QuestStore
dismiss_for none quests = quests
dismiss_for (some guest) quests = set_completion_dismissed guest.id true quests

unfoldable pub dismiss_complete : App → App
dismiss_complete app = record app { quests = dismiss_for app.session.guest app.quests }

-- What the visitor does. A zone is opened on the map or from the quest guide; `goes_to` is a way that no
-- button of the page leads, such as the browser's back.
pub data Event : Type 0 where
  flips flips_back : Event
  selects_guest : GuestProfile → Event
  enters_passcode : String → Event
  edits_passcode : Event
  opens_zone : ZoneId → Event
  closes_panel dismisses_guide : Event
  travels : IslandId → Event
  opens_pass returns_to_map switches_session quits : Event
  goes_to : Route → Event

-- The form shows why it refuses, or the administrator is let in.
abbrev pub answer_login : Option String → Bool → App → App
answer_login none flipped app = handle_admin_login app
answer_login (some refusal) flipped app = record app { place = start_page flipped (some refusal) }

abbrev pub on_start_page : String → Bool → Option String → Event → App → App
on_start_page admin_passcode flipped error flips app = record app { place = start_page true error }
on_start_page admin_passcode flipped error flips_back app = record app {
  place = start_page false error;
}
on_start_page admin_passcode flipped error (selects_guest guest) app = handle_select_guest guest app
on_start_page admin_passcode flipped error (enters_passcode entered) app =
    answer_login (check_login admin_passcode entered) flipped app
on_start_page admin_passcode flipped error edits_passcode app = record app {
  place = start_page flipped none;
}
on_start_page admin_passcode flipped error _ app = app

abbrev pub on_map_page : Option ZoneId → IslandId → Event → App → App
on_map_page active island (opens_zone zone) app = open_zone zone island app
on_map_page active island closes_panel app = record app { place = map_page none island }
on_map_page active island dismisses_guide app = dismiss_complete app
on_map_page active island (travels to) app = record app { place = map_page none to }
on_map_page active island opens_pass app = navigate pass_route app
on_map_page active island switches_session app =
    navigate home (record app { session = empty_session_state })
on_map_page active island quits app = navigate quit_route app
on_map_page active island _ app = app

-- The handlers of the page that is open.
abbrev pub on_page : String → Place → Event → App → App
on_page admin_passcode (start_page flipped error) e app =
    on_start_page admin_passcode flipped error e app
on_page admin_passcode (map_page active island) e app = on_map_page active island e app
on_page admin_passcode pass_page returns_to_map app = navigate map_route app
on_page admin_passcode _ e app = app

unfoldable pub happen : String → Event → App → App
unfolding navigate open_zone dismiss_complete handle_select_guest handle_admin_login check_login
happen admin_passcode (goes_to route) app = navigate route app
happen admin_passcode e app = on_page admin_passcode app.place e app

unfoldable pub happen_all : String → List Event → App → App
unfolding happen
happen_all admin_passcode [] app = app
happen_all admin_passcode (e ∷ rest) app =
    happen_all admin_passcode rest (happen admin_passcode e app)
