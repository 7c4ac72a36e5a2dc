-- ===== src/Pages/Visit/Quest.antt =====
-- frontend/src/features/map/pages/map-page.tsx: the zones that the quests know as visited, against what
-- the visitor has opened.
use webmeow.Prelude.{
  String, ◌≡◌, refl, ap, sym, ◌∙◌, subst, Bool, false, ◌==◌, ◌&&◌, ◌||◌, Option, none, some, List,
  [], ◌∷◌, is_empty, arith, Bool-cases, inl, inr, eqb, eq_iff,
}
use webmeow.Island.Session.{
  GuestProfile, empty_session_state, guest_session_state, admin_session_state,
}
use webmeow.Island.Zones.{ZoneId, IslandId}
use webmeow.Island.Quests.{
  QuestStore, place, visited_zones, mark_zone_visited, set_completion_dismissed,
  visited_zones-mark_zone_visited,
}
use webmeow.Pages.Visit.{
  App, Place, start_page, map_page, pass_page, quit_page, Route, home, map_route, pass_route,
  quit_route, navigate, mark_for, dismiss_for, answer_login, check_login, handle_select_guest,
  handle_admin_login, on_start_page, on_map_page, open_zone, dismiss_complete, Event, selects_guest,
  enters_passcode, opens_zone, dismisses_guide, opens_pass, returns_to_map, switches_session, quits,
  goes_to, on_page, happen, happen_all,
}

abbrev is_guest : Option GuestProfile → String → Bool
is_guest none id = false
is_guest (some guest) id = guest.id == id

-- The event opens the zone on the map while the guest of the id is signed in.
abbrev pub opens_for_on : Place → Option GuestProfile → String → ZoneId → Event → Bool
opens_for_on (map_page active island) guest id z (opens_zone zone) =
    eqb (place zone) (place z) && is_guest guest id
opens_for_on _ guest id z e = false

-- One of the events does, where each happens to what those before it have made of the app.
pub opened : String → List Event → App → String → ZoneId → Bool
opened admin_passcode [] app id z = false
opened admin_passcode (e ∷ rest) app id z =
    opened admin_passcode rest (happen admin_passcode e app) id z
    || opens_for_on app.place app.session.guest id z e

abbrev visited : String → ZoneId → QuestStore → Bool
visited id z quests = visited_zones (some id) quests z

other_marked :
    (guest id : String) (zone z : ZoneId) (quests : QuestStore)
    → is_empty id ≡ false
    → (guest == id) ≡ false
    → visited id z (mark_zone_visited guest zone quests) ≡ visited id z quests
unfolding visited_zones mark_zone_visited
other_marked guest id zone z quests n other = rw (n, other) refl

marked :
    (guest : Option GuestProfile) (id : String) (zone z : ZoneId) (quests : QuestStore)
    → is_empty id ≡ false
    → visited id z (mark_for guest zone quests)
      ≡ ((eqb (place zone) (place z) && is_guest guest id) || visited id z quests)
marked none id zone z quests n = ground arith
marked (some guest) id zone z quests n = elim (Bool-cases (guest.id == id)) [
  | inl same ↦
      let path = (eq_iff guest.id id).0 same in
      let own =
        (visited_zones-mark_zone_visited guest.id guest.id zone z quests
          (subst (λ i. is_empty i ≡ false) (sym path) n)).0 in
      let moved =
        subst
          (λ i.
            visited i z (mark_zone_visited guest.id zone quests)
            ≡ (eqb (place zone) (place z) || visited i z quests))
          path own in
      ground (arith, moved, same)
  | inr other ↦ other_marked guest.id id zone z quests n other ∙ ground (arith, other)
]

dismissed :
    (guest : Option GuestProfile) (id : String) (z : ZoneId) (quests : QuestStore)
    → visited id z (dismiss_for guest quests) ≡ visited id z quests
unfolding visited_zones set_completion_dismissed
dismissed none id z quests = refl
dismissed (some guest) id z quests = refl

navigate-quests : (route : Route) (app : App) → (navigate route app).quests ≡ app.quests
unfolding navigate
navigate-quests home app = refl
navigate-quests map_route app = ground arith
navigate-quests pass_route app = ground arith
navigate-quests quit_route app = refl

-- The zones known as visited are those of before, with the zone that the event opens.
abbrev IsMarked : String → ZoneId → App → Bool → App → Type 0
IsMarked id z app opens after = visited id z after.quests ≡ (opens || visited id z app.quests)

navigated :
    (route : Route) (id : String) (z : ZoneId) (app : App)
    → IsMarked id z app false (navigate route app)
navigated route id z app = ap (visited id z) (navigate-quests route app)

login-quests :
    (answer : Option String) (flipped : Bool) (app : App)
    → (answer_login answer flipped app).quests ≡ app.quests
unfolding handle_admin_login
login-quests none flipped app =
    navigate-quests map_route (record app { session = admin_session_state "Admin Observer" })
login-quests (some refusal) flipped app = refl

start-IsMarked :
    (admin_passcode : String) (flipped : Bool) (error : Option String) (e : Event)
    → (id : String) (z : ZoneId) (app : App)
    → IsMarked id z app false (on_start_page admin_passcode flipped error e app)
unfolding handle_select_guest
start-IsMarked admin_passcode flipped error (selects_guest guest) id z app =
    navigated map_route id z (record app { session = guest_session_state guest })
start-IsMarked admin_passcode flipped error (enters_passcode entered) id z app =
    ap (visited id z) (login-quests (check_login admin_passcode entered) flipped app)
start-IsMarked admin_passcode flipped error _ id z app = refl

map-IsMarked :
    (active : Option ZoneId) (island : IslandId) (e : Event) (id : String) (z : ZoneId) (app : App)
    → is_empty id ≡ false
    → IsMarked id z app
        (opens_for_on (map_page active island) app.session.guest id z e)
        (on_map_page active island e app)
unfolding open_zone dismiss_complete
map-IsMarked active island (opens_zone zone) id z app n =
    marked app.session.guest id zone z app.quests n
map-IsMarked active island dismisses_guide id z app n = dismissed app.session.guest id z app.quests
map-IsMarked active island opens_pass id z app n = navigated pass_route id z app
map-IsMarked active island switches_session id z app n =
    navigated home id z (record app { session = empty_session_state })
map-IsMarked active island quits id z app n = navigated quit_route id z app
map-IsMarked active island _ id z app n = refl

page-IsMarked :
    (admin_passcode : String) (place : Place) (e : Event) (id : String) (z : ZoneId) (app : App)
    → is_empty id ≡ false
    → IsMarked id z app
        (opens_for_on place app.session.guest id z e)
        (on_page admin_passcode place e app)
page-IsMarked admin_passcode (start_page flipped error) e id z app n =
    start-IsMarked admin_passcode flipped error e id z app
page-IsMarked admin_passcode (map_page active island) e id z app n =
    map-IsMarked active island e id z app n
page-IsMarked admin_passcode pass_page returns_to_map id z app n = navigated map_route id z app
page-IsMarked admin_passcode pass_page _ id z app n = refl
page-IsMarked admin_passcode quit_page e id z app n = refl

nowhere :
    (place : Place) (guest : Option GuestProfile) (id : String) (z : ZoneId) (route : Route)
    → opens_for_on place guest id z (goes_to route) ≡ false
nowhere (map_page active island) guest id z route = refl
nowhere _ guest id z route = refl

happen-IsMarked :
    (admin_passcode : String) (e : Event) (id : String) (z : ZoneId) (app : App)
    → is_empty id ≡ false
    → IsMarked id z app
        (opens_for_on app.place app.session.guest id z e)
        (happen admin_passcode e app)
unfolding happen
happen-IsMarked admin_passcode (goes_to route) id z app n =
    rw (nowhere app.place app.session.guest id z route) (navigated route id z app)
happen-IsMarked admin_passcode _ id z app n = page-IsMarked admin_passcode app.place _ id z app n

-- A zone counts as visited by a guest exactly where it did before, or the guest has opened it on the
-- map, from the quest guide or from its marker: nothing else marks a zone, whatever the visitors do
-- and whoever else is signed in. The guest's identifier is not empty.
pub visited_zones-happen_all :
    (admin_passcode : String) (events : List Event) (app : App) (id : String) (z : ZoneId)
    → is_empty id ≡ false
    → visited_zones (some id) (happen_all admin_passcode events app).quests z
      ≡ (opened admin_passcode events app id z || visited_zones (some id) app.quests z)
unfolding happen_all opened
visited_zones-happen_all admin_passcode [] app id z n = refl
visited_zones-happen_all admin_passcode (e ∷ rest) app id z n =
    visited_zones-happen_all admin_passcode rest (happen admin_passcode e app) id z n
    ∙ ground (arith, happen-IsMarked admin_passcode e id z app n)
