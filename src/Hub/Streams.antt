-- ===== src/Hub/Streams.antt =====
-- services/broadcast/src/server.ts over a sequence of requests: clients that come and go, and the
-- posts of the services, of the public form and of the administrator.
pub mod Frames
use webmeow.Prelude.{
  ℕ, String, ◌≡◌, ap, sym, ◌∙◌, Bool, true, false, Option, none, some, List, [], ◌∷◌, ◌++◌, eqb,
  if◌then◌else◌, ◌==◌, ◌&&◌, not, is_empty, eq_iff, arith, Bool-cases, inl, inr, subst,
}
use mathlib.Core.List.{append-nil, append_assoc}
use webmeow.Prelude.Json.{Json}
use webmeow.Hub.Bus.{
  IslandEvent, type_name, event_json, airport_arrival, hotel_confirm, hotel_cancel, beach_full,
  beach_available, Frame, connected, message, Bus, add_client, remove_first, remove_client,
  broadcast,
}
use webmeow.Hub.Bus.Delivery.{
  frames, has, IsOnce, frames-append, frames-broadcast, IsOnce-remove, IsOnce-append,
  has-append_self, has-append_other, has-remove_self, has-remove_other, remove-absent,
}
use webmeow.Hub.Admin.{
  Env, configured_admin_passcode, trimmed_field, announcement, post_announcement,
}
use webmeow.Hub.Routes.{
  body_event, post_airport_arrival, post_hotel_confirm, post_hotel_cancel, post_beach_full,
  post_beach_available, public_event, post_public, get_events, close_events,
}

pub data Request : Type 0 where
  opens closes : ℕ → Request
  airport_arrives hotel_confirms hotel_cancels : String → String → Json → Request
  beach_fills beach_frees public_posts : String → String → Json → Request
  admin_posts : Env → Option String → String → String → Json → Request

unfoldable pub serve : Request → Bus → Bus
serve (opens c) bus = get_events c bus
serve (closes c) bus = close_events c bus
serve (airport_arrives id now body) bus = (post_airport_arrival id now body bus).1
serve (hotel_confirms id now body) bus = (post_hotel_confirm id now body bus).1
serve (hotel_cancels id now body) bus = (post_hotel_cancel id now body bus).1
serve (beach_fills id now body) bus = (post_beach_full id now body bus).1
serve (beach_frees id now body) bus = (post_beach_available id now body bus).1
serve (public_posts id now body) bus = (post_public id now body bus).1
serve (admin_posts env header id now body) bus = (post_announcement env header id now body bus).1

unfoldable pub serve_all : List Request → Bus → Bus
unfolding serve
serve_all [] bus = bus
serve_all (r ∷ rs) bus = serve_all rs (serve r bus)

-- The frame that a post makes of its event.
unfoldable pub frame_of : IslandEvent → Frame
frame_of e = message (type_name e.event_type) (event_json e)

-- The announcements that are let through: the header is the configured passcode, and there is a
-- message.
unfoldable pub admits : Env → Option String → Json → Bool
admits env none body = false
admits env (some h) body =
    not (is_empty h)
    && (h == configured_admin_passcode env)
    && not (is_empty (trimmed_field "message" body))

-- What one client is to be sent by a sequence of requests, by whether it is connected: the greeting
-- when it opens the stream, and every event that is posted before it closes.
unfoldable pub expected : ℕ → Bool → List Request → List Frame
unfolding frame_of
expected c on [] = []
expected c on (opens d ∷ rs) = if eqb d c then connected ∷ expected c true rs else expected c on rs
expected c on (closes d ∷ rs) = if eqb d c then expected c false rs else expected c on rs
expected c on (airport_arrives id now body ∷ rs) =
    (if on then frame_of (body_event id now airport_arrival "airport" body) ∷ [] else [])
    ++ expected c on rs
expected c on (hotel_confirms id now body ∷ rs) =
    (if on then frame_of (body_event id now hotel_confirm "hotel" body) ∷ [] else [])
    ++ expected c on rs
expected c on (hotel_cancels id now body ∷ rs) =
    (if on then frame_of (body_event id now hotel_cancel "hotel" body) ∷ [] else [])
    ++ expected c on rs
expected c on (beach_fills id now body ∷ rs) =
    (if on then frame_of (body_event id now beach_full "beach" body) ∷ [] else [])
    ++ expected c on rs
expected c on (beach_frees id now body ∷ rs) =
    (if on then frame_of (body_event id now beach_available "beach" body) ∷ [] else [])
    ++ expected c on rs
expected c on (public_posts id now body ∷ rs) =
    (if on then frame_of (public_event id now body) ∷ [] else []) ++ expected c on rs
expected c on (admin_posts env header id now body ∷ rs) =
    (if admits env header body && on then frame_of (announcement id now body) ∷ [] else [])
    ++ expected c on rs

-- A stream is opened by a client that has none: a response object belongs to one request.
abbrev pub IsFresh : List Request → Bus → Type 0
unfolding serve
IsFresh [] bus = Unit
IsFresh (opens c ∷ rs) bus = (has c bus.clients ≡ false) × IsFresh rs (serve (opens c) bus)
IsFresh (r ∷ rs) bus = IsFresh rs (serve r bus)
