-- ===== src/Pages/Visit/Routes.antt =====
-- frontend/src/app/router.tsx and the session: who can be where.
use webmeow.Prelude.{
  String, ◌≡◌, refl, Bool, true, false, Option, none, some, List, [], ◌∷◌, if_cases, subst,
}
use webmeow.Island.Session.{
  IsConsistent, has_admin_role, derive_guest, empty_session_state, guest_session_state,
  admin_session_state,
}
use webmeow.Island.Zones.{ZoneId, IslandId}
use webmeow.Pages.Panels.{is_there}
use webmeow.Pages.Visit.{
  App, Place, start_page, map_page, pass_page, quit_page, Route, home, map_route, pass_route,
  quit_route, navigate, require_session, check_login, answer_login, handle_select_guest,
  handle_admin_login, on_start_page, on_map_page, open_zone, dismiss_complete, Event, flips,
  flips_back, selects_guest, enters_passcode, edits_passcode, opens_zone, closes_panel,
  dismisses_guide, travels, opens_pass, returns_to_map, switches_session, quits, goes_to, on_page,
  happen, happen_all,
}

-- The pages behind `RequireSession` have a session, and the last page has none.
abbrev pub IsAdmitted : Place → Bool → Type 0
IsAdmitted (start_page flipped error) there = Unit
IsAdmitted (map_page active island) there = there ≡ true
IsAdmitted pass_page there = there ≡ true
IsAdmitted quit_page there = there ≡ false

abbrev pub IsGuarded : App → Type 0
IsGuarded app = IsConsistent app.session × IsAdmitted app.place (is_there app.session.session)

require-IsGuarded :
    (place : Place) (app : App)
    → (is_there app.session.session ≡ true → IsAdmitted place (is_there app.session.session))
    → IsConsistent app.session
    → IsGuarded (require_session place app)
require-IsGuarded place app k h =
    if_cases IsGuarded (is_there app.session.session) _ _ (λ e. (h, k e)) (λ e. (h, tt))

navigate-IsGuarded :
    (route : Route) (app : App) → IsConsistent app.session → IsGuarded (navigate route app)
unfolding navigate derive_guest has_admin_role
navigate-IsGuarded home app h = (h, tt)
navigate-IsGuarded map_route app h = require-IsGuarded _ app (λ e. e) h
navigate-IsGuarded pass_route app h = require-IsGuarded _ app (λ e. e) h
navigate-IsGuarded quit_route app h = ((refl, refl), refl)

IsConsistent-empty : IsConsistent empty_session_state
unfolding derive_guest has_admin_role
IsConsistent-empty = (refl, refl)

login-IsGuarded :
    (answer : Option String) (flipped : Bool) (app : App)
    → IsConsistent app.session
    → IsGuarded (answer_login answer flipped app)
unfolding handle_admin_login admin_session_state derive_guest has_admin_role
login-IsGuarded none flipped app h =
    navigate-IsGuarded map_route (record app { session = admin_session_state "Admin Observer" })
      (refl, refl)
login-IsGuarded (some refusal) flipped app h = (h, tt)

start-IsGuarded :
    (admin_passcode : String) (flipped : Bool) (error : Option String) (e : Event) (app : App)
    → app.place ≡ start_page flipped error
    → IsGuarded app
    → IsGuarded (on_start_page admin_passcode flipped error e app)
unfolding handle_select_guest guest_session_state derive_guest has_admin_role
start-IsGuarded admin_passcode flipped error flips app p h = (h.0, tt)
start-IsGuarded admin_passcode flipped error flips_back app p h = (h.0, tt)
start-IsGuarded admin_passcode flipped error edits_passcode app p h = (h.0, tt)
start-IsGuarded admin_passcode flipped error (selects_guest guest) app p h =
    navigate-IsGuarded map_route (record app { session = guest_session_state guest }) (refl, refl)
start-IsGuarded admin_passcode flipped error (enters_passcode entered) app p h =
    login-IsGuarded (check_login admin_passcode entered) flipped app h.0
start-IsGuarded admin_passcode flipped error _ app p h = h

map-IsGuarded :
    (active : Option ZoneId) (island : IslandId) (e : Event) (app : App)
    → app.place ≡ map_page active island
    → IsGuarded app
    → IsGuarded (on_map_page active island e app)
unfolding open_zone dismiss_complete
map-IsGuarded active island e app p h =
    let there = subst (λ x. IsAdmitted x (is_there app.session.session)) p h.1 in
    elim e as (λ x. IsGuarded (on_map_page active island x app)) [
      | opens_zone zone ↦ (h.0, there)
      | closes_panel ↦ (h.0, there)
      | dismisses_guide ↦ h
      | travels to ↦ (h.0, there)
      | opens_pass ↦ navigate-IsGuarded pass_route app h.0
      | switches_session ↦
          navigate-IsGuarded home (record app { session = empty_session_state }) IsConsistent-empty
      | quits ↦ navigate-IsGuarded quit_route app h.0
      | _ ↦ h
    ]

page-IsGuarded :
    (admin_passcode : String) (place : Place) (e : Event) (app : App)
    → app.place ≡ place
    → IsGuarded app
    → IsGuarded (on_page admin_passcode place e app)
page-IsGuarded admin_passcode (start_page flipped error) e app p h =
    start-IsGuarded admin_passcode flipped error e app p h
page-IsGuarded admin_passcode (map_page active island) e app p h =
    map-IsGuarded active island e app p h
page-IsGuarded admin_passcode pass_page returns_to_map app p h =
    navigate-IsGuarded map_route app h.0
page-IsGuarded admin_passcode pass_page _ app p h = h
page-IsGuarded admin_passcode quit_page e app p h = h

happen-IsGuarded :
    (admin_passcode : String) (e : Event) (app : App)
    → IsGuarded app
    → IsGuarded (happen admin_passcode e app)
unfolding happen
happen-IsGuarded admin_passcode (goes_to route) app h = navigate-IsGuarded route app h.0
happen-IsGuarded admin_passcode _ app h = page-IsGuarded admin_passcode app.place _ app refl h

-- One event after another.
pub IsGuarded-all :
    (admin_passcode : String) (events : List Event) (app : App)
    → IsGuarded app
    → IsGuarded (happen_all admin_passcode events app)
unfolding happen_all
IsGuarded-all admin_passcode [] app h = h
IsGuarded-all admin_passcode (e ∷ rest) app h =
    IsGuarded-all admin_passcode rest (happen admin_passcode e app)
      (happen-IsGuarded admin_passcode e app h)
