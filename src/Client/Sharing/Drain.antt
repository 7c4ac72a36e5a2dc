-- ===== src/Client/Sharing/Drain.antt =====
-- frontend/src/lib/api-client.ts: nothing is kept of the requests that have ended.
use webmeow.Prelude.{
  ℕ, suc, ◌<◌, String, ◌≡◌, refl, ap, sym, ◌∙◌, subst, ◌&&◌, Option, none, some, List, [], ◌∷◌,
  if_cases, ltb, All, All_map, eq_refl, arith,
}
use webmeow.Prelude.Json.{Json}
use webmeow.Client.Sharing.{
  Outcome, Reply, Running, is_running, drop_at, is_settled, JsonApi, create_json_api,
  join_or_request, finish, get, receive, Event, gets, receives, finishes, happen, happen_all,
}
use webmeow.Client.Sharing.InFlight.{holder, happen_all-IsShared, happen_all_from}

drop-All :
    (next promise : ℕ) (key : String) (rs : List Running)
    → All (λ r. r.promise < next) rs
    → All (λ r. r.promise < next) (drop_at promise key rs)
drop-All next promise key [] h = tt
drop-All next promise key (r ∷ rest) h = ground (arith, drop-All next promise key rest h.1)

module _ {A : Type 0} where
  -- The promises of the running `get`s have been made.
  abbrev IsIssued : JsonApi A → Type 0
  IsIssued api = All (λ r. r.promise < api.next_promise) api.running

  join-IsIssued :
      (o : Option ℕ) (key : String) (api : JsonApi A)
      → IsIssued api
      → IsIssued (join_or_request o key api).1
  join-IsIssued (some p) key api h = h
  join-IsIssued none key api h = (
    omega arith,
    All_map (λ r. r.promise < api.next_promise) (λ r. r.promise < suc api.next_promise) api.running
        (λ r e. omega (arith, e)) h,
  )

  finish-IsIssued :
      (promise : ℕ) (key : String) (api : JsonApi A)
      → IsIssued api
      → IsIssued (finish promise key api)
  unfolding finish
  finish-IsIssued promise key api h =
      if_cases IsIssued (is_running promise key api.running && is_settled (api.outcomes promise)) _
        _ (λ e. drop-All api.next_promise promise key api.running h) (λ e. h)

module _ {A : Type 0} (get_uri : String → String) (parse : Json → Outcome A) where
  happen-IsIssued :
      (e : Event get_uri parse) (api : JsonApi A)
      → IsIssued api
      → IsIssued (happen get_uri parse e api)
  unfolding happen
  happen-IsIssued (gets url) api h =
      unfold get in join-IsIssued (api.in_flight_gets (get_uri url)) (get_uri url) api h
  happen-IsIssued (receives promise reply) api h =
      unfold receive in if_cases IsIssued (ltb promise api.next_promise) _ _ (λ e. h) (λ e. h)
  happen-IsIssued (finishes promise key) api h = finish-IsIssued promise key api h

  happen_all-IsIssued :
      (es : List (Event get_uri parse)) (api : JsonApi A)
      → IsIssued api
      → IsIssued (happen_all get_uri parse es api)
  unfolding happen_all
  happen_all-IsIssued [] api h = h
  happen_all-IsIssued (e ∷ rest) api h =
      happen_all-IsIssued rest (happen get_uri parse e api) (happen-IsIssued e api h)

  -- Each running request has its reply, and its `get` is resumed.
  abbrev pub closing : (String → Reply) → List Running → List (Event get_uri parse)
  closing replies [] = []
  closing replies (r ∷ rest) =
      receives r.promise (replies r.key) ∷ finishes r.promise r.key ∷ closing replies rest

  close_first :
      (r : Running) (rest : List Running) (reply : Reply) (api : JsonApi A)
      → api.running ≡ r ∷ rest
      → r.promise < api.next_promise
      → ((finish r.promise r.key (receive get_uri parse r.promise reply api)).running ≡ rest)
        × ((finish r.promise r.key (receive get_uri parse r.promise reply api)).next_promise
            ≡ api.next_promise)
  unfolding finish receive
  close_first r rest reply api h k = ground (arith, eq_refl r.key)

  close_all :
      (rs : List Running) (replies : String → Reply) (api : JsonApi A)
      → api.running ≡ rs
      → All (λ r. r.promise < api.next_promise) rs
      → (happen_all get_uri parse (closing replies rs) api).running ≡ []
  unfolding happen_all happen
  close_all [] replies api h k = h
  close_all (r ∷ rest) replies api h k =
      let (left, same) = close_first r rest (replies r.key) api h k.0 in
      close_all rest replies
        (finish r.promise r.key (receive get_uri parse r.promise (replies r.key) api)) left
        (subst (λ n. All (λ q. q.promise < n) rest) (sym same) k.1)

  -- After whatever was read, answered and cleaned up since a client was made: once the requests that
  -- still run have their replies, whatever these are, and their `get`s are resumed, no request runs and
  -- nothing is kept for any address.
  pub closing-in_flight_gets :
      (es : List (Event get_uri parse)) (replies : String → Reply) (key : String)
      → ((happen_all get_uri parse
            (closing replies (happen_all get_uri parse es create_json_api).running)
            (happen_all get_uri parse es create_json_api)).running
          ≡ [])
        × ((happen_all get_uri parse
                (closing replies (happen_all get_uri parse es create_json_api).running)
                (happen_all get_uri parse es create_json_api)).in_flight_gets
              key
            ≡ none)
  closing-in_flight_gets es replies key =
      let api = happen_all get_uri parse es create_json_api in
      let ended =
        close_all api.running replies api refl (happen_all-IsIssued es create_json_api tt) in
      let (kept, one) =
        happen_all_from get_uri parse (closing replies api.running) api
          (happen_all-IsShared get_uri parse es) key in
      (ended, kept ∙ ap (holder key) ended)
