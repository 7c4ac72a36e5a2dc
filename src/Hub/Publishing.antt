-- ===== src/Hub/Publishing.antt =====
-- The administrator's announcements from the frontend: `handlePublish` of
-- frontend/src/features/broadcast/components/broadcast-panel.tsx over api/broadcast-client.ts, with the
-- broadcast service at the other end of the request. What becomes of the request on its way, where the
-- browser asks the gateway for leave first, is given. Nothing else happens to the panel while it
-- publishes. The texts of axios's own errors and of the schema's refusal are parameters.
use webmeow.Prelude.{
  ℕ, String, ◌≡◌, ◌⊎◌, inl, inr, refl, ap, sym, subst, ◌∙◌, Bool, true, false, not, ◌==◌, ◌||◌,
  ◌&&◌, Option, none, some, List, ◌∷◌, if◌then◌else◌, if_cases, if_of_true, if_of_false, eqb,
  is_empty, trim, is_empty-trim-trim, eq_of_is_empty, Bool-cases, arith,
}
use webmeow.Prelude.Json.{Json, bool, str, obj, end, field, get_field}
use webmeow.Island.Session.{AppSession, guest_session, admin_session}
use webmeow.Client.Errors.{text_of_value}
use webmeow.Hub.Bus.{Bus, broadcast, event_json}
use webmeow.Hub.Routes.{Reply}
use webmeow.Hub.Admin.{
  Env, configured_admin_passcode, trimmed_field, announcement, or_text, refusal, post_announcement,
}

pub data Toast : Type 0 where
  announced : Toast
  failed_with : String → Toast

pub record Panel : Type 0 where
  pub message : String
  pub is_publishing : Bool
  pub toasts : List Toast

-- `session?.role === "admin" ? session.displayName : "Admin"`
abbrev pub sender_of : Option AppSession → String
sender_of (some (admin_session display_name)) = display_name
sender_of (some (guest_session guest)) = "Admin"
sender_of none = "Admin"

abbrev pub request_body : String → String → Json
request_body message sender = obj (field "message" (str message) (field "sender" (str sender) end))

abbrev pub error_or : Option Json → String → String
error_or none message = message
error_or (some error) message = text_of_value error

-- `errorMessage` of an axios error, with the data of its response, if there was one, and its message.
unfoldable pub error_message : Option Json → String → String
error_message none message = message
error_message (some body) message = error_or (get_field "error" body) message

-- What becomes of the request: the service answers it; it does not get there, as where the browser or
-- the gateway lets it not through; or the service serves it and its answer does not come back. Without
-- an answer axios has its own message.
pub data Way : Type 0 where
  answers : Way
  stays_away unheard : String → Way

abbrev pub is_true : Option Json → Bool
is_true (some (bool true)) = true
is_true _ = false

module _ (status_message : ℕ → String) (invalid_answer : String) (hub : Env) where
  -- The error that is thrown for the answer, if one is.
  unfoldable pub read_answer : Reply → Option String
  unfolding error_message
  read_answer reply =
      if eqb reply.status 200
      then if is_true (get_field "success" reply.answer) then none else some invalid_answer
      else some (error_message (some reply.answer) (status_message reply.status))

  abbrev pub come_back : Way → Reply × Bus → Bus → Option String × Bus
  come_back answers (reply, bus') bus = (read_answer reply, bus')
  come_back (stays_away text) (reply, bus') bus = (some (error_message none text), bus)
  come_back (unheard text) (reply, bus') bus = (some (error_message none text), bus')

  unfoldable pub publish_admin_announcement :
      Way → String → String → String → String → String → Bus → Option String × Bus
  unfolding read_answer error_message
  publish_admin_announcement way passcode message sender id now bus =
      come_back way (post_announcement hub (some passcode) id now (request_body message sender) bus)
        bus

  abbrev pub report : Option String → Panel → Panel
  report none p = record p { message = ""; toasts = announced ∷ p.toasts }
  report (some error) p = record p { toasts = failed_with error ∷ p.toasts }

  unfoldable pub handle_publish :
      Way → Bool → Option AppSession → String → String → String → Panel → Bus → Panel × Bus
  unfolding publish_admin_announcement
  handle_publish way is_admin session passcode id now p bus =
      let trimmed = trim p.message in
      if not is_admin || (is_empty trimmed || p.is_publishing)
      then (p, bus)
      else let (error, bus') =
          publish_admin_announcement way passcode trimmed (sender_of session) id now bus in
        (report error p, bus')

  -- The panel's passcode is the one that the broadcast service is configured with.
  abbrev pub is_authorized : String → Bool
  is_authorized passcode =
      not (is_empty (configured_admin_passcode hub)) && (passcode == configured_admin_passcode hub)

  provided : (passcode : String) → or_text (some passcode) "" ≡ passcode
  provided passcode =
      if_cases (λ t. t ≡ passcode) (is_empty passcode) _ _ (λ e. sym (eq_of_is_empty passcode e))
        (λ e. refl)

  posted :
      (passcode id now : String) (body : Json) (bus : Bus)
      → is_empty (trimmed_field "message" body) ≡ false
      → post_announcement hub (some passcode) id now body bus ≡ (
          if is_authorized passcode
          then (
            record {
              status = 200;
              answer = obj (
                  field "success"
                    (bool true)
                    (field "event" (event_json (announcement id now body)) end));
            },
            broadcast (announcement id now body) bus,
          )
          else (record { status = 403; answer = refusal "Admin authorization required" }, bus))
  unfolding post_announcement
  posted passcode id now body bus h = rw (provided passcode, h) (ground arith)

  -- What the request and its answer come to.
  abbrev answered : Way → String → String → String → String → String → Bus → Option String × Bus
  answered answers passcode message sender id now bus =
      if is_authorized passcode
      then (none, broadcast (announcement id now (request_body message sender)) bus)
      else (some "Admin authorization required", bus)
  answered (stays_away text) passcode message sender id now bus = (some text, bus)
  answered (unheard text) passcode message sender id now bus = (
    some text,
    if is_authorized passcode
        then broadcast (announcement id now (request_body message sender)) bus
        else bus,
  )

  answer_of :
      (way : Way) (passcode message sender id now : String) (bus : Bus)
      → is_empty (trim message) ≡ false
      → publish_admin_announcement way passcode message sender id now bus
        ≡ answered way passcode message sender id now bus
  unfolding publish_admin_announcement trimmed_field read_answer error_message text_of_value
  answer_of answers passcode message sender id now bus h =
      let post = posted passcode id now (request_body message sender) bus h in
      elim (Bool-cases (is_authorized passcode)) [
        | inl e ↦
            ap (λ (q : Reply × Bus). (read_answer q.0, q.1))
              (post ∙ if_of_true (is_authorized passcode) _ _ e)
            ∙ sym (if_of_true (is_authorized passcode) _ _ e)
        | inr e ↦
            ap (λ (q : Reply × Bus). (read_answer q.0, q.1))
              (post ∙ if_of_false (is_authorized passcode) _ _ e)
            ∙ sym (if_of_false (is_authorized passcode) _ _ e)
      ]
  answer_of (stays_away text) passcode message sender id now bus h = refl
  answer_of (unheard text) passcode message sender id now bus h =
      let post = posted passcode id now (request_body message sender) bus h in
      ap (λ (q : Reply × Bus). (some text, q.1)) post
      ∙ elim (Bool-cases (is_authorized passcode)) [ inl e ↦ rw e refl | inr e ↦ rw e refl ]

  -- What is left of a press of the button that is no idle one.
  abbrev pub Sent :
      Way → Option AppSession → String → String → String → Panel → Bus → Panel × Bus → Type 0
  Sent answers session passcode id now p bus result =
      ((is_authorized passcode ≡ true)
        × (result ≡ (
          record p { message = ""; toasts = announced ∷ p.toasts },
          broadcast (announcement id now (request_body (trim p.message) (sender_of session))) bus,
        )))
      ⊎ ((is_authorized passcode ≡ false)
          × (result
              ≡ (record p { toasts = failed_with "Admin authorization required" ∷ p.toasts }, bus)))
  Sent (stays_away text) session passcode id now p bus result =
      result ≡ (record p { toasts = failed_with text ∷ p.toasts }, bus)
  Sent (unheard text) session passcode id now p bus result = result ≡ (
    record p { toasts = failed_with text ∷ p.toasts },
    if is_authorized passcode
        then broadcast (announcement id now (request_body (trim p.message) (sender_of session))) bus
        else bus,
  )

  abbrev pub Published :
      Way → Bool → Option AppSession → String → String → String → Panel → Bus → Panel × Bus → Type 0
  Published way is_admin session passcode id now p bus result =
      (((not is_admin || (is_empty (trim p.message) || p.is_publishing)) ≡ true)
        × (result ≡ (p, bus)))
      ⊎ ((is_empty (trim p.message) ≡ false) × Sent way session passcode id now p bus result)

  sent :
      (way : Way) (session : Option AppSession) (passcode id now : String) (p : Panel) (bus : Bus)
      → is_empty (trim (trim p.message)) ≡ false
      → (let (error, bus') =
            publish_admin_announcement way passcode
              (trim p.message)
              (sender_of session)
              id
              now
              bus in
          Sent way session passcode id now p bus (report error p, bus'))
  sent way session passcode id now p bus full =
      subst (λ q. Sent way session passcode id now p bus (report q.0 p, q.1))
        (sym (answer_of way passcode (trim p.message) (sender_of session) id now bus full))
        (by_way way)
    where
      by_way :
          (w : Way)
          → (let q = answered w passcode (trim p.message) (sender_of session) id now bus in
              Sent w session passcode id now p bus (report q.0 p, q.1))
      by_way answers = elim (Bool-cases (is_authorized passcode)) [
        | inl same ↦ rw same (inl (refl, refl))
        | inr other ↦ rw other (inr (refl, refl))
      ]
      by_way (stays_away text) = refl
      by_way (unheard text) = refl

  pub handle_publish-Published :
      (way : Way) (is_admin : Bool) (session : Option AppSession) (passcode id now : String)
      (p : Panel) (bus : Bus)
      → Published way is_admin session passcode id now p bus
          (handle_publish way is_admin session passcode id now p bus)
  unfolding handle_publish
  handle_publish-Published way is_admin session passcode id now p bus =
      if_cases (Published way is_admin session passcode id now p bus)
        (not is_admin || (is_empty (trim p.message) || p.is_publishing)) _ _ (λ e. inl (e, refl))
        (λ e.
          let full : is_empty (trim p.message) ≡ false = ground (arith, e) in
          inr (full, sent way session passcode id now p bus (is_empty-trim-trim p.message ∙ full)))
