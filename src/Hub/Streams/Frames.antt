-- ===== src/Hub/Streams/Frames.antt =====
-- What each client of the event stream is sent, by services/broadcast/src/eventBus.ts, over any
-- sequence of requests.
use webmeow.Prelude.{
  is_empty_of_eq, ℕ, String, ◌≡◌, ap, sym, ◌∙◌, Bool, true, false, Option, none, some, List, [],
  ◌∷◌, ◌++◌, eqb, if◌then◌else◌, ◌&&◌, arith, Bool-cases, inl, inr, subst,
}
use mathlib.Core.List.{append-nil, append_assoc}
use webmeow.Prelude.Json.{Json}
use webmeow.Hub.Bus.{
  IslandEvent, airport_arrival, hotel_confirm, hotel_cancel, beach_full, beach_available, Frame,
  connected, Bus, add_client, remove_first, remove_client, broadcast,
}
use webmeow.Hub.Bus.Delivery.{
  frames, has, IsOnce, frames-append, frames-broadcast, IsOnce-remove, IsOnce-append,
  has-append_self, has-append_other, has-remove_self, has-remove_other, remove-absent,
}
use webmeow.Hub.Admin.{Env, configured_admin_passcode, announcement, post_announcement}
use webmeow.Hub.Routes.{
  body_event, post_airport_arrival, post_hotel_confirm, post_hotel_cancel, post_beach_full,
  post_beach_available, public_event, post_public, get_events, close_events,
}
use webmeow.Hub.Streams.{
  Request, serve, serve_all, frame_of, admits, expected, IsFresh, opens, closes, airport_arrives,
  hotel_confirms, hotel_cancels, beach_fills, beach_frees, public_posts, admin_posts,
}

post_announcement-admits :
    (env : Env) (header : Option String) (id now : String) (body : Json) (bus : Bus)
    → (post_announcement env header id now body bus).1
      ≡ (if admits env header body then broadcast (announcement id now body) bus else bus)
unfolding post_announcement admits
post_announcement-admits env none id now body bus =
    let code = configured_admin_passcode env in ground (arith, is_empty_of_eq "" code)
post_announcement-admits env (some h) id now body bus =
    let code = configured_admin_passcode env in
    ground (arith, is_empty_of_eq "" code, is_empty_of_eq h code)

-- The frames after one post, from those after the posts that follow it.
posted :
    (e : IslandEvent) (c : ℕ) (bus : Bus) (end : List Frame) (rest : List Frame)
    → IsOnce bus.clients
    → end ≡ frames c (broadcast e bus).written ++ rest
    → end ≡ frames c bus.written ++ ((if has c bus.clients then frame_of e ∷ [] else []) ++ rest)
unfolding frame_of
posted e c bus end rest once h =
    h
    ∙ ap (λ fs. fs ++ rest) (frames-broadcast e bus c once).0
    ∙ append_assoc (frames c bus.written) (if has c bus.clients then frame_of e ∷ [] else []) rest

-- The frames after an announcement that is let through or not, likewise.
announced :
    (a : Bool) (e : IslandEvent) (c : ℕ) (bus next : Bus) (rs : List Request) (end : List Frame)
    → IsOnce bus.clients
    → next ≡ (if a then broadcast e bus else bus)
    → end ≡ frames c next.written ++ expected c (has c next.clients) rs
    → end
      ≡ frames c bus.written
        ++ ((if a && has c bus.clients then frame_of e ∷ [] else [])
            ++ expected c (has c bus.clients) rs)
unfolding broadcast
announced true e c bus next rs end once step h =
    posted e c bus end _ once
      (subst (λ b. end ≡ frames c b.written ++ expected c (has c b.clients) rs) step h)
announced false e c bus next rs end once step h =
    subst (λ b. end ≡ frames c b.written ++ expected c (has c b.clients) rs) step h

IsOnce-announced :
    (a : Bool) (e : IslandEvent) (bus next : Bus)
    → IsOnce bus.clients
    → next ≡ (if a then broadcast e bus else bus)
    → IsOnce next.clients
unfolding broadcast
IsOnce-announced true e bus next once step = subst (λ b. IsOnce b.clients) (sym step) once
IsOnce-announced false e bus next once step = subst (λ b. IsOnce b.clients) (sym step) once

opened :
    (c d : ℕ) (bus : Bus) (rs : List Request) (end : List Frame)
    → end ≡ frames c (add_client d bus).written ++ expected c (has c (add_client d bus).clients) rs
    → end ≡ frames c bus.written ++ expected c (has c bus.clients) (opens d ∷ rs)
unfolding add_client expected frames
opened c d bus rs end h =
    let split = frames-append c bus.written ((d, connected) ∷ []) in
    elim (Bool-cases (eqb d c)) [
      | inl same ↦
          let path : d ≡ c = ground arith in
          let seen =
            subst (λ x. has x (bus.clients ++ d ∷ []) ≡ true) path
              (has-append_self d bus.clients) in
          ground (
            arith,
            ap (λ b. expected c b rs) seen,
            append_assoc (frames c bus.written) (connected ∷ []) (expected c true rs),
          )
      | inr other ↦ ground (
        arith,
        ap (λ b. expected c b rs) (has-append_other d c bus.clients other),
        append-nil (frames c bus.written),
      )
    ]

closed :
    (c d : ℕ) (bus : Bus) (rs : List Request) (end : List Frame)
    → IsOnce bus.clients
    → end
      ≡ frames c bus.written ++ expected c (has c (remove_first d (remove_first d bus.clients))) rs
    → end ≡ frames c bus.written ++ expected c (has c bus.clients) (closes d ∷ rs)
unfolding expected
closed c d bus rs end once h =
    let gone = has-remove_self d bus.clients once in
    let again = remove-absent d (remove_first d bus.clients) gone in
    elim (Bool-cases (eqb d c)) [
      | inl same ↦
          let path : d ≡ c = ground arith in
          let unseen = subst (λ x. has x (remove_first d bus.clients) ≡ false) path gone in
          ground
            (arith, ap (λ ds. expected c (has c ds) rs) again, ap (λ b. expected c b rs) unseen)
      | inr other ↦ ground (
        arith,
        ap (λ ds. expected c (has c ds) rs) again,
        ap (λ b. expected c b rs) (has-remove_other d c bus.clients other),
      )
    ]

IsOnce-opened :
    (d : ℕ) (bus : Bus)
    → IsOnce bus.clients
    → has d bus.clients ≡ false
    → IsOnce (add_client d bus).clients
unfolding add_client
IsOnce-opened d bus once new = IsOnce-append d bus.clients once new

IsOnce-closed :
    (d : ℕ) (bus : Bus)
    → IsOnce bus.clients
    → IsOnce (remove_client d (remove_client d bus)).clients
unfolding remove_client
IsOnce-closed d bus once =
    IsOnce-remove d (remove_first d bus.clients) (IsOnce-remove d bus.clients once)

-- Whatever sequence of requests is served, each client is sent exactly what it is to be sent, in
-- that order: the greeting, and each event that is posted while its stream is open, with the event's
-- name and data, and nothing after it closes. No client is registered twice before, and a stream is
-- opened only by a client that has none.
pub frames-serve_all :
    (rs : List Request) (bus : Bus) (c : ℕ)
    → IsOnce bus.clients
    → IsFresh rs bus
    → frames c (serve_all rs bus).written
      ≡ frames c bus.written ++ expected c (has c bus.clients) rs
unfolding serve_all serve expected get_events close_events post_airport_arrival post_hotel_confirm
    post_hotel_cancel post_beach_full post_beach_available post_public broadcast remove_client
frames-serve_all [] bus c once fresh = sym (append-nil (frames c bus.written))
frames-serve_all (opens d ∷ rs) bus c once fresh =
    opened c d bus rs _
      (frames-serve_all rs (add_client d bus) c (IsOnce-opened d bus once fresh.0) fresh.1)
frames-serve_all (closes d ∷ rs) bus c once fresh =
    closed c d bus rs _ once (
      frames-serve_all rs (remove_client d (remove_client d bus)) c (IsOnce-closed d bus once)
        fresh)
frames-serve_all (airport_arrives id now body ∷ rs) bus c once fresh =
    let e = body_event id now airport_arrival "airport" body in
    posted e c bus _ _ once (frames-serve_all rs (broadcast e bus) c once fresh)
frames-serve_all (hotel_confirms id now body ∷ rs) bus c once fresh =
    let e = body_event id now hotel_confirm "hotel" body in
    posted e c bus _ _ once (frames-serve_all rs (broadcast e bus) c once fresh)
frames-serve_all (hotel_cancels id now body ∷ rs) bus c once fresh =
    let e = body_event id now hotel_cancel "hotel" body in
    posted e c bus _ _ once (frames-serve_all rs (broadcast e bus) c once fresh)
frames-serve_all (beach_fills id now body ∷ rs) bus c once fresh =
    let e = body_event id now beach_full "beach" body in
    posted e c bus _ _ once (frames-serve_all rs (broadcast e bus) c once fresh)
frames-serve_all (beach_frees id now body ∷ rs) bus c once fresh =
    let e = body_event id now beach_available "beach" body in
    posted e c bus _ _ once (frames-serve_all rs (broadcast e bus) c once fresh)
frames-serve_all (public_posts id now body ∷ rs) bus c once fresh =
    let e = public_event id now body in
    posted e c bus _ _ once (frames-serve_all rs (broadcast e bus) c once fresh)
frames-serve_all (admin_posts env header id now body ∷ rs) bus c once fresh =
    let a = admits env header body in
    let e = announcement id now body in
    let next = (post_announcement env header id now body bus).1 in
    let step = post_announcement-admits env header id now body bus in
    announced a e c bus next rs _ once step
      (frames-serve_all rs next c (IsOnce-announced a e bus next once step) fresh)
