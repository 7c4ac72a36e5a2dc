-- ===== src/Client/Sharing.antt =====
-- frontend/src/lib/api-client.ts: the requests of one client. A `get` for an address that is being
-- read joins the request that is in flight. Each `get` that made a request runs until its promise is
-- settled and its `finally` has been reached; a settled promise waits for that as long as the
-- scheduler takes. `get_uri` is axios's, and `parse` the schema's.
pub mod InFlight
pub mod Drain
use webmeow.Prelude.{
  ℕ, suc, ◌+◌, String, Bool, true, false, not, ◌==◌, ◌&&◌, ◌||◌, Option, none, some, List, [], ◌∷◌,
  if◌then◌else◌, eqb, ltb, Dict, empty, put, remove,
}
use webmeow.Prelude.Json.{Json}
use webmeow.Client.Errors.{get_error_message}

pub data Outcome (A : Type 0) : Type 0 where
  resolved : A → Outcome A
  rejected : String → Outcome A

-- What axios gives: the data of an answer; an error of its own, with the data of an answer if there is
-- one and a message; or another error.
pub data Reply : Type 0 where
  answer : Json → Reply
  axios_error : Option Json → String → Reply
  other_error : String → Reply

-- A `get` that made a request and has not come to its end.
pub record Running : Type 0 where
  pub promise : ℕ
  pub key : String

abbrev pub is_at : ℕ → String → Running → Bool
is_at promise key r = eqb r.promise promise && (r.key == key)

abbrev pub is_running : ℕ → String → List Running → Bool
is_running promise key [] = false
is_running promise key (r ∷ rest) = is_at promise key r || is_running promise key rest

abbrev pub drop_at : ℕ → String → List Running → List Running
drop_at promise key [] = []
drop_at promise key (r ∷ rest) = if is_at promise key r then rest else r ∷ drop_at promise key rest

abbrev pub is_promise : Option ℕ → ℕ → Bool
is_promise none promise = false
is_promise (some held) promise = eqb held promise

module _ {A : Type 0} where
  abbrev pub is_settled : Option A → Bool
  is_settled none = false
  is_settled (some outcome) = true

module _ {A : Type 0} (parse : Json → Outcome A) where
  -- `request`, once axios has given its reply.
  unfoldable pub request : Reply → Outcome A
  request (answer body) = parse body
  request (axios_error body message) = rejected (get_error_message body message)
  request (other_error message) = rejected message

pub record JsonApi (A : Type 0) : Type 0 where
  pub in_flight_gets : Dict ℕ
  pub running : List Running
  pub outcomes : ℕ → Option (Outcome A)
  pub next_promise : ℕ

module _ {A : Type 0} where
  -- `createJsonApi`
  abbrev pub create_json_api : JsonApi A
  create_json_api = record {
    in_flight_gets = empty;
    running = [];
    outcomes = λ promise. none;
    next_promise = 0;
  }

  -- The promise that a `get` answers with.
  abbrev pub join_or_request : Option ℕ → String → JsonApi A → ℕ × JsonApi A
  join_or_request (some pending) key api = (pending, api)
  join_or_request none key api = (
    api.next_promise,
    record api {
      in_flight_gets = put api.in_flight_gets key api.next_promise;
      running = record { promise = api.next_promise; key = key } ∷ api.running;
      next_promise = suc api.next_promise;
    },
  )

  -- The `finally` of the `get` that made the request.
  abbrev pub clean_up : ℕ → String → JsonApi A → JsonApi A
  clean_up promise key api = record api {
    running = drop_at promise key api.running;
    in_flight_gets =
        if is_promise (api.in_flight_gets key) promise
        then remove api.in_flight_gets key
        else api.in_flight_gets;
  }

  -- A `get` is resumed once its promise is settled.
  unfoldable pub finish : ℕ → String → JsonApi A → JsonApi A
  finish promise key api =
      if is_running promise key api.running && is_settled (api.outcomes promise)
      then clean_up promise key api
      else api

  -- A promise is settled once.
  abbrev pub settle_at : ℕ → Outcome A → (ℕ → Option (Outcome A)) → ℕ → Option (Outcome A)
  settle_at promise outcome outcomes other =
      if eqb promise other && not (is_settled (outcomes other))
      then some outcome
      else outcomes other

module _ {A : Type 0} (get_uri : String → String) (parse : Json → Outcome A) where
  unfoldable pub get : String → JsonApi A → ℕ × JsonApi A
  get url api = join_or_request (api.in_flight_gets (get_uri url)) (get_uri url) api

  -- axios gives its reply to a request that was made.
  unfoldable pub receive : ℕ → Reply → JsonApi A → JsonApi A
  receive promise reply api =
      if ltb promise api.next_promise
      then record api { outcomes = settle_at promise (request parse reply) api.outcomes }
      else api

  pub data Event : Type 0 where
    gets : String → Event
    receives : ℕ → Reply → Event
    finishes : ℕ → String → Event

  unfoldable pub happen : Event → JsonApi A → JsonApi A
  unfolding get receive finish
  happen (gets url) api = (get url api).1
  happen (receives promise reply) api = receive promise reply api
  happen (finishes promise key) api = finish promise key api

  unfoldable pub happen_all : List Event → JsonApi A → JsonApi A
  unfolding happen
  happen_all [] api = api
  happen_all (e ∷ rest) api = happen_all rest (happen e api)
