-- ===== src/Pages/Panels/Gates.antt =====
-- frontend/src/features/map/components/zone-indicator.tsx and zone-panel.tsx with
-- features/quests/hooks/use-quest-progress.ts: the locks of the markers against the panels and
-- against the quest.
use webmeow.Prelude.{
  ℕ, String, ◌≡◌, refl, Bool, true, false, ◌&&◌, ◌||◌, not, ◌⊎◌, inl, inr, Option, none, some, List,
  any, subst, arith, eqb, if_cases,
}
use webmeow.Island.Session.{GuestProfile, guest_session_state}
use webmeow.Island.Zones.{ZoneId, airport, hotel, beach, parrot, broadcast}
use webmeow.Island.Quests.{
  place, Facts, VisitedZones, QuestStepDefinition, use_quest_progress, completed_by_id,
}
use webmeow.Parrot.Chat.{ChatHistoryMessage, Role, user, assistant}
use webmeow.Stay.{Reservation}
use webmeow.Pages.Panels.{
  Answers, PanelView, not_landed_gate, not_checked_in_gate, use_landed, use_checked_in, is_there,
  zone_panel_content, is_locked, airport_panel, hotel_panel, beach_panel, parrot_panel,
  boarding_view, has_started, stay_view, ArrivalStatus, arrival_status_card,
}

-- The view is a gate, which says what to do first.
abbrev pub is_gate : PanelView → Bool
is_gate not_landed_gate = true
is_gate not_checked_in_gate = true
is_gate _ = false

boarding_open :
    (guest : Option GuestProfile) (o : Option ArrivalStatus) (b c : Bool)
    → is_gate (boarding_view guest o b c) ≡ false
boarding_open guest none b c = refl
boarding_open guest (some a) b c =
    if_cases (λ v. is_gate v ≡ false) (has_started a.status) _ _ (λ e. refl) (λ e. refl)

stay_open : (o : Option Reservation) (a : Answers) → is_gate (stay_view o a) ≡ false
stay_open none a = refl
stay_open (some r) a = refl

-- A guest's marker is locked exactly where the panel that it opens is a gate, except that the
-- lighthouse's marker is locked before the guest has landed though its panel is open.
pub zone_panel_content-is_locked :
    (zone : ZoneId) (guest : GuestProfile) (a : Answers)
    → (is_gate (zone_panel_content zone (guest_session_state guest) a) ≡ (
        not (eqb (place zone) (place broadcast)) && is_locked zone (guest_session_state guest) a))
      × (is_locked broadcast (guest_session_state guest) a ≡ not (use_landed a.arrival))
unfolding zone_panel_content is_locked guest_session_state airport_panel hotel_panel beach_panel
    parrot_panel arrival_status_card use_landed use_checked_in
zone_panel_content-is_locked airport guest a =
    (boarding_open (some guest) a.arrival a.is_boarding a.boarded, ground arith)
zone_panel_content-is_locked hotel guest a =
    (ground (arith, stay_open a.reservation a), ground arith)
zone_panel_content-is_locked beach guest a = (ground arith, ground arith)
zone_panel_content-is_locked parrot guest a = (ground arith, ground arith)
zone_panel_content-is_locked broadcast guest a = (refl, ground arith)

abbrev is_user : Role → Bool
is_user user = true
is_user assistant = false

-- What the quest reads of the answers: with the activity booked at the beach, and whether the chat has
-- a message of the guest.
abbrev pub facts_of : Answers → Option String → List ChatHistoryMessage → Facts
facts_of a booked_activity_id messages = record {
  arrival_processed = use_landed a.arrival;
  has_reservation = is_there a.reservation;
  has_booked_activity = is_there booked_activity_id;
  asked_parrot = any (λ (m : ChatHistoryMessage). is_user m.role) messages;
}

-- A query that is loading has no data.
abbrev pub IsSettled : Answers → Type 0
IsSettled a = (a.is_loading_reservation && is_there a.reservation) ≡ false

-- Of a step: it leads to the airport or the guest has landed, and to the beach only with a room.
abbrev IsOpen : Bool → Bool → Option QuestStepDefinition → Type 0
IsOpen landed reserved none = Unit
IsOpen landed reserved (some step) =
    ((place step.zone_id ≡ 0) ⊎ (landed ≡ true)) × (place step.zone_id ≡ 2 → reserved ≡ true)

active_step-IsOpen :
    (landed reserved booked asked : Bool) (zones : VisitedZones)
    → IsOpen landed reserved
        (use_quest_progress
          record {
            arrival_processed = landed;
            has_reservation = reserved;
            has_booked_activity = booked;
            asked_parrot = asked;
          }
          zones).active_step
unfolding use_quest_progress completed_by_id
active_step-IsOpen false reserved booked asked zones = (inl refl, (λ e. absurd (omega arith)))
active_step-IsOpen true false booked asked zones = (inr refl, (λ e. absurd (omega arith)))
active_step-IsOpen true true false asked zones = (inr refl, (λ e. refl))
active_step-IsOpen true true true false zones = (inr refl, (λ e. refl))
active_step-IsOpen true true true true zones =
    if_cases (IsOpen true true) (not (zones broadcast)) _ none (λ e. (inr refl, (λ d. refl)))
      (λ e. tt)

lock_free :
    (n : ℕ) (landed checked_in : Bool)
    → (n ≡ 0) ⊎ (landed ≡ true)
    → (n ≡ 2 → checked_in ≡ true)
    → ((not (eqb n 0) && not landed) || (eqb n 2 && not checked_in)) ≡ false
lock_free n landed checked_in h k = ground arith

checked_in : (a : Answers) → IsSettled a → is_there a.reservation ≡ true → use_checked_in a ≡ true
unfolding use_checked_in
checked_in a settled h = ground arith

-- The zone of the active step is never locked for the guest: the quest leads to the airport, or else
-- to a zone that the guest's answers open, and to the beach only once there is a reservation. A query
-- that is loading has no data.
pub is_locked-active_step :
    (guest : GuestProfile) (a : Answers) (booked : Option String)
    → (messages : List ChatHistoryMessage) (zones : VisitedZones) (step : QuestStepDefinition)
    → IsSettled a
    → (use_quest_progress (facts_of a booked messages) zones).active_step ≡ some step
    → is_locked step.zone_id (guest_session_state guest) a ≡ false
unfolding is_locked guest_session_state
is_locked-active_step guest a booked messages zones step settled h =
    let facts = facts_of a booked messages in
    let open_step = subst (IsOpen facts.arrival_processed facts.has_reservation) h (
      active_step-IsOpen facts.arrival_processed facts.has_reservation facts.has_booked_activity
        facts.asked_parrot zones) in
    lock_free (place step.zone_id) facts.arrival_processed (use_checked_in a) open_step.0
      (λ e. checked_in a settled (open_step.1 e))
