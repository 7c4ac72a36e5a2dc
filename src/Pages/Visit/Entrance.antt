-- ===== src/Pages/Visit/Entrance.antt =====
-- frontend/src/app/router.tsx and the session: who can be where, and who becomes an administrator.
use webmeow.Prelude.{
  String, ◌≡◌, refl, Bool, true, false, ◌==◌, ◌&&◌, not, ◌⊎◌, inl, inr, Option, none, some, List,
  [], ◌∷◌, any, is_empty, trim, arith, Bool-cases,
}
use webmeow.Island.Session.{has_admin_role, empty_session_state, guest_session_state}
use webmeow.Island.Zones.{ZoneId, IslandId}
use webmeow.Pages.Visit.Routes.{IsGuarded, IsGuarded-all}
use webmeow.Pages.Visit.{
  App, Place, start_page, map_page, pass_page, quit_page, Route, home, map_route, pass_route,
  quit_route, navigate, check_login, handle_submit, answer_login, handle_select_guest,
  on_start_page, on_map_page, open_zone, dismiss_complete, Event, selects_guest, enters_passcode,
  opens_pass, returns_to_map, switches_session, quits, goes_to, on_page, happen, happen_all,
}

abbrev pub is_admin : App → Bool
is_admin app = has_admin_role app.session.session

-- The event enters the passcode of the environment, which has one.
abbrev pub grants : String → Event → Bool
grants admin_passcode (enters_passcode entered) =
    not (is_empty admin_passcode) && (trim entered == admin_passcode)
grants admin_passcode _ = false

navigate-is_admin :
    (route : Route) (app : App) → is_admin (navigate route app) ≡ true → is_admin app ≡ true
unfolding navigate has_admin_role
navigate-is_admin home app h = h
navigate-is_admin map_route app h = ground arith
navigate-is_admin pass_route app h = ground arith
navigate-is_admin quit_route app h = absurd (ground arith)

check_login-grants :
    (admin_passcode entered : String)
    → check_login admin_passcode entered ≡ none
    → grants admin_passcode (enters_passcode entered) ≡ true
unfolding check_login handle_submit
check_login-grants admin_passcode entered h = ground arith

login-is_admin :
    (answer : Option String) (flipped : Bool) (app : App)
    → is_admin (answer_login answer flipped app) ≡ true
    → (is_admin app ≡ true) ⊎ (answer ≡ none)
login-is_admin none flipped app h = inr refl
login-is_admin (some refusal) flipped app h = inl h

start-is_admin :
    (admin_passcode : String) (flipped : Bool) (error : Option String) (e : Event) (app : App)
    → is_admin (on_start_page admin_passcode flipped error e app) ≡ true
    → (is_admin app ≡ true) ⊎ (grants admin_passcode e ≡ true)
unfolding handle_select_guest guest_session_state has_admin_role
start-is_admin admin_passcode flipped error (selects_guest guest) app h = absurd (
    ground
      (arith, navigate-is_admin map_route (record app { session = guest_session_state guest }) h))
start-is_admin admin_passcode flipped error (enters_passcode entered) app h =
    elim (login-is_admin (check_login admin_passcode entered) flipped app h) [
      | inl e ↦ inl e
      | inr e ↦ inr (check_login-grants admin_passcode entered e)
    ]
start-is_admin admin_passcode flipped error _ app h = inl h

map-is_admin :
    (active : Option ZoneId) (island : IslandId) (e : Event) (app : App)
    → is_admin (on_map_page active island e app) ≡ true
    → is_admin app ≡ true
unfolding open_zone dismiss_complete has_admin_role
map-is_admin active island opens_pass app h = navigate-is_admin pass_route app h
map-is_admin active island switches_session app h =
    absurd (ground (arith, navigate-is_admin home (record app { session = empty_session_state }) h))
map-is_admin active island quits app h = navigate-is_admin quit_route app h
map-is_admin active island _ app h = h

page-is_admin :
    (admin_passcode : String) (place : Place) (e : Event) (app : App)
    → is_admin (on_page admin_passcode place e app) ≡ true
    → (is_admin app ≡ true) ⊎ (grants admin_passcode e ≡ true)
page-is_admin admin_passcode (start_page flipped error) e app h =
    start-is_admin admin_passcode flipped error e app h
page-is_admin admin_passcode (map_page active island) e app h =
    inl (map-is_admin active island e app h)
page-is_admin admin_passcode pass_page returns_to_map app h =
    inl (navigate-is_admin map_route app h)
page-is_admin admin_passcode pass_page _ app h = inl h
page-is_admin admin_passcode quit_page e app h = inl h

happen-is_admin :
    (admin_passcode : String) (e : Event) (app : App)
    → is_admin (happen admin_passcode e app) ≡ true
    → (is_admin app ≡ true) ⊎ (grants admin_passcode e ≡ true)
unfolding happen
happen-is_admin admin_passcode (goes_to route) app h = inl (navigate-is_admin route app h)
happen-is_admin admin_passcode _ app h = page-is_admin admin_passcode app.place _ app h

-- Nobody is an administrator, or somebody was, or the passcode has been entered.
abbrev pub IsEarned : String → List Event → App → App → Type 0
IsEarned admin_passcode events before after =
    (is_admin after ≡ false)
    ⊎ (is_admin before ≡ true)
    ⊎ (any (grants admin_passcode) events ≡ true)

happen-IsEarned :
    (admin_passcode : String) (e : Event) (app : App)
    → IsEarned admin_passcode (e ∷ []) app (happen admin_passcode e app)
happen-IsEarned admin_passcode e app = elim (Bool-cases (is_admin (happen admin_passcode e app))) [
  | inr off ↦ inl off
  | inl on ↦ elim (happen-is_admin admin_passcode e app on) [
    | inl was ↦ inr (inl was)
    | inr given ↦ inr (inr (ground (arith, given)))
  ]
]

IsEarned-all :
    (admin_passcode : String) (events : List Event) (app : App)
    → IsEarned admin_passcode events app (happen_all admin_passcode events app)
unfolding happen_all
IsEarned-all admin_passcode [] app = ground (arith, Bool-cases (is_admin app))
IsEarned-all admin_passcode (e ∷ rest) app = ground (
  arith,
  happen-IsEarned admin_passcode e app,
  IsEarned-all admin_passcode rest (happen admin_passcode e app),
)

-- Wherever the visitor goes, by the pages' buttons or not: the map and the pass are open only with a
-- session, the last page only without one, the guest and the administrator's flag stay what the
-- session says, and a visitor who was no administrator is one only after entering the passcode of the
-- environment, which has one.
pub happen_all-IsGuarded :
    (admin_passcode : String) (events : List Event) (app : App)
    → IsGuarded app
    → IsGuarded (happen_all admin_passcode events app)
      × IsEarned admin_passcode events app (happen_all admin_passcode events app)
happen_all-IsGuarded admin_passcode events app h =
    (IsGuarded-all admin_passcode events app h, IsEarned-all admin_passcode events app)
