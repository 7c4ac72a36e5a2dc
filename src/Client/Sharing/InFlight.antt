-- ===== src/Client/Sharing/InFlight.antt =====
-- frontend/src/lib/api-client.ts: the requests in flight are those of the running `get`s.
use webmeow.Prelude.{
  ℕ, suc, ◌≤◌, String, ◌≡◌, inl, inr, refl, sym, subst, ◌∙◌, true, false, ◌==◌, ◌&&◌, Option, none,
  some, List, [], ◌∷◌, if◌then◌else◌, if_cases, ltb, Bool-cases, eq_iff, eq_refl, arith,
}
use webmeow.Prelude.Json.{Json}
use webmeow.Client.Sharing.{
  Outcome, Reply, Running, is_running, drop_at, is_promise, is_settled, JsonApi, create_json_api,
  join_or_request, clean_up, finish, get, receive, Event, gets, receives, finishes, happen,
  happen_all,
}

-- The promise of the `get` that runs for an address, the last one first.
abbrev pub holder : String → List Running → Option ℕ
holder key [] = none
holder key (r ∷ rest) = if r.key == key then some r.promise else holder key rest

-- How many requests run for an address.
abbrev pub copies : String → List Running → ℕ
copies key [] = 0
copies key (r ∷ rest) = let more = copies key rest in if r.key == key then suc more else more

not_held : (key : String) (rs : List Running) → holder key rs ≡ none → copies key rs ≡ 0
not_held key [] h = refl
not_held key (r ∷ rest) h = ground (arith, not_held key rest)

none_held : (key : String) (rs : List Running) → copies key rs ≡ 0 → holder key rs ≡ none
none_held key [] h = refl
none_held key (r ∷ rest) h = ground (arith, none_held key rest)

running_copies :
    (promise : ℕ) (key : String) (rs : List Running)
    → is_running promise key rs ≡ true
    → 1 ≤ copies key rs
running_copies promise key [] h = absurd (ground arith)
running_copies promise key (r ∷ rest) h = ground (arith, running_copies promise key rest)

running_held :
    (promise : ℕ) (key : String) (rs : List Running)
    → is_running promise key rs ≡ true
    → copies key rs ≤ 1
    → (holder key rs ≡ some promise) × (copies key (drop_at promise key rs) ≡ 0)
running_held promise key [] h k = absurd (ground arith)
running_held promise key (r ∷ rest) h k =
    ground (arith, running_held promise key rest, running_copies promise key rest)

drop_other :
    (promise : ℕ) (key other : String) (rs : List Running)
    → (key == other) ≡ false
    → (holder other (drop_at promise key rs) ≡ holder other rs)
      × (copies other (drop_at promise key rs) ≡ copies other rs)
drop_other promise key other [] h = (refl, refl)
drop_other promise key other (r ∷ rest) h =
    ground (arith, drop_other promise key other rest h, eq_iff r.key key)

module _ {A : Type 0} where
  -- What is kept for an address is the promise of the one `get` that runs for it, if there is one.
  abbrev pub IsShared : String → JsonApi A → Type 0
  IsShared key api =
      (api.in_flight_gets key ≡ holder key api.running) × (copies key api.running ≤ 1)

  join-IsShared :
      (o : Option ℕ) (key other : String) (api : JsonApi A)
      → o ≡ api.in_flight_gets key
      → ((k : String) → IsShared k api)
      → IsShared other (join_or_request o key api).1
  join-IsShared (some p) key other api e h = h other
  join-IsShared none key other api e h =
      let (kept, one) = h key in
      let free = not_held key api.running (sym kept ∙ sym e) in
      elim (Bool-cases (key == other)) [
        | inl same ↦ ground (arith, h other, eq_iff key other, free)
        | inr distinct ↦ ground (arith, h other)
      ]

  clean_up-IsShared :
      (promise : ℕ) (key other : String) (api : JsonApi A)
      → is_running promise key api.running ≡ true
      → ((k : String) → IsShared k api)
      → IsShared other (clean_up promise key api)
  clean_up-IsShared promise key other api runs h =
      let (kept, one) = h key in
      let (held, gone) = running_held promise key api.running runs one in
      let own : is_promise (api.in_flight_gets key) promise ≡ true = ground (arith, kept, held) in
      elim (Bool-cases (key == other)) [
        | inl same ↦
            subst (λ k. IsShared k (clean_up promise key api)) ((eq_iff key other).0 same)
              (ground
                (arith, eq_refl key, own, gone, none_held key (drop_at promise key api.running)))
        | inr distinct ↦
            ground (arith, own, h other, drop_other promise key other api.running distinct)
      ]

  finish-IsShared :
      (promise : ℕ) (key : String) (api : JsonApi A)
      → ((k : String) → IsShared k api)
      → (k : String) → IsShared k (finish promise key api)
  unfolding finish
  finish-IsShared promise key api h k =
      if_cases (IsShared k)
        (is_running promise key api.running && is_settled (api.outcomes promise)) _ _
        (λ e. clean_up-IsShared promise key k api (ground (arith, e)) h) (λ e. h k)

module _ {A : Type 0} (get_uri : String → String) (parse : Json → Outcome A) where
  receive-IsShared :
      (promise : ℕ) (reply : Reply) (api : JsonApi A)
      → ((k : String) → IsShared k api)
      → (k : String) → IsShared k (receive get_uri parse promise reply api)
  unfolding receive
  receive-IsShared promise reply api h k =
      if_cases (IsShared k) (ltb promise api.next_promise) _ _ (λ e. h k) (λ e. h k)

  happen-IsShared :
      (e : Event get_uri parse) (api : JsonApi A)
      → ((k : String) → IsShared k api)
      → (k : String) → IsShared k (happen get_uri parse e api)
  unfolding happen
  happen-IsShared (gets url) api h k =
      unfold get in join-IsShared (api.in_flight_gets (get_uri url)) (get_uri url) k api refl h
  happen-IsShared (receives promise reply) api h k = receive-IsShared promise reply api h k
  happen-IsShared (finishes promise key) api h k = finish-IsShared promise key api h k

  pub happen_all_from :
      (es : List (Event get_uri parse)) (api : JsonApi A)
      → ((k : String) → IsShared k api)
      → (k : String) → IsShared k (happen_all get_uri parse es api)
  unfolding happen_all
  happen_all_from [] api h = h
  happen_all_from (e ∷ rest) api h =
      happen_all_from rest (happen get_uri parse e api) (happen-IsShared e api h)

  -- Whatever is read, answered and cleaned up since a client was made, and in whatever order, at most
  -- one request runs for an address, and what the client keeps for the address is that request's
  -- promise, or nothing where none runs.
  pub happen_all-IsShared :
      (es : List (Event get_uri parse)) (key : String)
      → IsShared key (happen_all get_uri parse es create_json_api)
  happen_all-IsShared es key = happen_all_from es create_json_api (λ k. (refl, omega arith)) key
