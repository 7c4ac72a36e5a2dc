-- ===== src/Hub/Admin.antt =====
-- services/broadcast/src/routes/admin.ts: the resort's announcements. The settings are
-- `process.env`; a missing header or variable is `none`.
use webmeow.Prelude.{
  String, ◌≡◌, inl, inr, sym, eq_refl, ap, subst, ◌↔◌, or_default, true, false, ◌||◌, not, ◌==◌,
  Option, none, some, if◌then◌else◌, arith, eq_iff, is_empty, trim, Bool-cases, eqb,
}
use webmeow.Prelude.Json.{Json, bool, str, obj, end, field, get_field, text_of}
use webmeow.Hub.Bus.{resort_announcement, event_json, IslandEvent, Bus, broadcast}
use webmeow.Hub.Routes.{Reply}

pub record Env : Type 0 where
  pub admin_passcode : Option String
  pub vite_admin_passcode : Option String

-- `a || b`
abbrev pub or_text : Option String → String → String
or_text none d = d
or_text (some s) d = if is_empty s then d else s

unfoldable pub configured_admin_passcode : Env → String
configured_admin_passcode env = or_text env.admin_passcode (or_text env.vite_admin_passcode "")

-- The trimmed text of a field of the body; `""` where it is no text.
unfoldable pub trimmed_field : String → Json → String
trimmed_field k body = trim (or_default (text_of (get_field k body)) "")

unfoldable pub announcement : String → String → Json → IslandEvent
unfolding trimmed_field
announcement id now body =
    let given = trimmed_field "sender" body in
    let sender = if is_empty given then "Admin" else given in
    record {
      id = id;
      event_type = resort_announcement;
      timestamp = now;
      source = some (str "broadcast");
      payload = obj (
          field "message" (str (trimmed_field "message" body))
            (field "sender" (str sender) (field "channel" (str "resort-wide") end)));
    }

abbrev pub refusal : String → Json
refusal text = obj (field "error" (str text) end)

unfoldable pub post_announcement : Env → Option String → String → String → Json → Bus → Reply × Bus
unfolding configured_admin_passcode trimmed_field announcement
post_announcement env header id now body bus =
    let expected = configured_admin_passcode env in
    let provided = or_text header "" in
    if is_empty expected || not (provided == expected)
    then (record { status = 403; answer = refusal "Admin authorization required" }, bus)
    else if is_empty (trimmed_field "message" body)
    then (record { status = 400; answer = refusal "Announcement message is required" }, bus)
    else let event = announcement id now body in
      (
        record {
          status = 200;
          answer = obj (field "success" (bool true) (field "event" (event_json event) end));
        },
        broadcast event bus,
      )

provided-eq :
    (header : Option String) (code : String)
    → is_empty code ≡ false
    → (or_text header "" == code) ≡ true
    → header ≡ some code
provided-eq none code h e =
    absurd (
      let same : ◌≡◌ {A = String} "" code = (eq_iff "" code).0 e in
      ground (arith, ap is_empty same))
provided-eq (some s) code h e = elim (Bool-cases (is_empty s)) [
  | inl empty ↦ absurd (
      let same : ◌≡◌ {A = String} "" code = (eq_iff "" code).0 (ground arith) in
      ground (arith, ap is_empty same))
  | inr full ↦ ap some ((eq_iff s code).0 (ground arith))
]

eq-provided :
    (header : Option String) (code : String)
    → is_empty code ≡ false
    → header ≡ some code
    → (or_text header "" == code) ≡ true
eq-provided header code h e =
    subst (λ x. (or_text x "" == code) ≡ true) (sym e) (ground (arith, eq_refl code))

-- An announcement is accepted exactly where a passcode is configured, the request's header is that
-- passcode and the body's message, trimmed, is not empty. The event is sent in that case only; a
-- refused request leaves the bus as it was.
pub post_announcement_iff :
    (env : Env) (header : Option String) (id now : String) (body : Json) (bus : Bus)
    → ((post_announcement env header id now body bus).0.status ≡ 200
        ↔ (is_empty (configured_admin_passcode env) ≡ false)
          × (header ≡ some (configured_admin_passcode env))
          × (is_empty (trimmed_field "message" body) ≡ false))
      × ((post_announcement env header id now body bus).1 ≡ (
          if eqb (post_announcement env header id now body bus).0.status 200
          then broadcast (announcement id now body) bus
          else bus))
unfolding post_announcement
post_announcement_iff env header id now body bus =
    let code = configured_admin_passcode env in
    let sound = provided-eq header code in let complete = eq-provided header code in ground arith
