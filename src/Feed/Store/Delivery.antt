-- ===== src/Feed/Store/Delivery.antt =====
-- frontend/src/stores/events-store.ts: what one event puts under one channel.
use webmeow.Prelude.{
  ℕ, zero, suc, String, ◌≡◌, refl, ap, sym, ◌∙◌, Bool, true, false, ◌==◌, ◌&&◌, Option, none, some,
  List, [], ◌∷◌, length, take, take_of_length-le, ltb, Bool-cases, inl, inr, subst, ◌||◌,
  if◌then◌else◌, arith,
}
use webmeow.Feed.Channels.{
  ChannelId, airport, hotel, beach, parrot, broadcast, resort_wide, same, same-eq, same_refl,
  same-sym, channels, BroadcastEvent,
}
use webmeow.Feed.Store.{EventsState, prepend_event, file_event, copy_event, file_copies}

-- What one event puts under a channel: itself under its own, a copy of an announcement under every
-- other one, and a mirrored copy of another event under the resort-wide channel.
unfoldable pub delivery :
    (ChannelId → String) → BroadcastEvent → Bool → ChannelId → Option BroadcastEvent
delivery fresh event mirror c =
    if same event.channel c
    then some event
    else if event.event_type == "resort.announcement" || (mirror && same resort_wide c)
    then some record event { id = fresh c; channel = c }
    else none

abbrev pub add : Option BroadcastEvent → List BroadcastEvent → List BroadcastEvent
add none es = es
add (some e) es = e ∷ es

abbrev pub ticked : Option BroadcastEvent → ℕ → ℕ
ticked none n = n
ticked (some e) n = suc n

take-take : (n : ℕ) (xs : List BroadcastEvent) → take n (take (suc n) xs) ≡ take n xs
take-take zero xs = refl
take-take (suc n) [] = refl
take-take (suc n) (x ∷ xs) = ap (◌∷◌ x) (take-take n xs)

capped {ℓ} :
    {A : Type ℓ} (n : ℕ) (xs : List A) → (if ltb n (length xs) then take n xs else xs) ≡ take n xs
capped n xs = elim (Bool-cases (ltb n (length xs))) [
  | inl long ↦ ground arith
  | inr short ↦ ground (arith, take_of_length-le n xs (ground arith))
]

prepend-take :
    (e : BroadcastEvent) (es : List BroadcastEvent) → prepend_event es e ≡ take 100 (e ∷ es)
unfolding prepend_event
prepend-take e es = capped 100 (e ∷ es)

pub file_copies-events :
    (fresh : ChannelId → String) (e : BroadcastEvent) (s : EventsState) (c : ChannelId)
    → (file_copies fresh e s channels s).events c
      ≡ prepend_event (s.events c) (copy_event fresh e c)
unfolding file_copies file_event same
file_copies-events fresh e s airport = refl
file_copies-events fresh e s hotel = refl
file_copies-events fresh e s beach = refl
file_copies-events fresh e s parrot = refl
file_copies-events fresh e s broadcast = refl
file_copies-events fresh e s resort_wide = refl

pub file_copies-ticks :
    (fresh : ChannelId → String) (e : BroadcastEvent) (s : EventsState) (c : ChannelId)
    → (file_copies fresh e s channels s).activity_tick c ≡ suc (s.activity_tick c)
unfolding file_copies file_event same
file_copies-ticks fresh e s airport = refl
file_copies-ticks fresh e s hotel = refl
file_copies-ticks fresh e s beach = refl
file_copies-ticks fresh e s parrot = refl
file_copies-ticks fresh e s broadcast = refl
file_copies-ticks fresh e s resort_wide = refl

pub copy_own :
    (fresh : ChannelId → String) (e : BroadcastEvent) (c : ChannelId)
    → same e.channel c ≡ true
    → copy_event fresh e c ≡ e
unfolding copy_event
copy_own fresh e c h =
    subst (λ d. copy_event fresh e d ≡ e) (same-eq e.channel c h)
      (ap (λ b. record e { id = if b then e.id else fresh e.channel; channel = e.channel })
        (same_refl e.channel))

pub copy_other :
    (fresh : ChannelId → String) (e : BroadcastEvent) (c : ChannelId)
    → same e.channel c ≡ false
    → copy_event fresh e c ≡ record e { id = fresh c; channel = c }
unfolding copy_event
copy_other fresh e c h =
    ap (λ b. record e { id = if b then e.id else fresh c; channel = c }) (same-sym c e.channel ∙ h)

join {ℓ} :
    {A : Type ℓ} {x y z : A} (own other : Bool)
    → (own ≡ true → x ≡ z)
    → (own ≡ false → y ≡ z)
    → (if own then some x else if other then some y else none)
      ≡ (if own || other then some z else none)
join true other h k = ap some (h refl)
join false true h k = ap some (k refl)
join false false h k = refl

-- What is put under a channel is the copy for it.
pub delivery_lem :
    (fresh : ChannelId → String) (e : BroadcastEvent) (m : Bool) (c : ChannelId)
    → delivery fresh e m c ≡ (
        if same e.channel c
          || ((e.event_type == "resort.announcement") || (m && same resort_wide c))
        then some (copy_event fresh e c)
        else none)
unfolding delivery
delivery_lem fresh e m c =
    join (same e.channel c) ((e.event_type == "resort.announcement") || (m && same resort_wide c))
      (λ h. sym (copy_own fresh e c h)) (λ h. sym (copy_other fresh e c h))

pub mirrored-events :
    (b : Bool) (s next : EventsState) (e : BroadcastEvent) (c : ChannelId)
    → (if b then file_event s resort_wide e next else next).events c
      ≡ (if b && same resort_wide c then prepend_event (s.events resort_wide) e else next.events c)
unfolding file_event
mirrored-events true s next e c = refl
mirrored-events false s next e c = refl

pub mirrored-ticks :
    (b : Bool) (s next : EventsState) (e : BroadcastEvent) (c : ChannelId)
    → (if b then file_event s resort_wide e next else next).activity_tick c ≡ (
        if b && same resort_wide c then suc (s.activity_tick resort_wide) else next.activity_tick c)
unfolding file_event
mirrored-ticks true s next e c = refl
mirrored-ticks false s next e c = refl

pub grow :
    (b : Bool) (e : BroadcastEvent) (es log : List BroadcastEvent)
    → es ≡ take 100 log
    → (if b then prepend_event es e else es) ≡ take 100 (add (if b then some e else none) log)
grow true e es log h = prepend-take e es ∙ ap (λ xs. e ∷ xs) (ap (take 99) h ∙ take-take 99 log)
grow false e es log h = h

pub count :
    (b : Bool) (e : BroadcastEvent) (n : ℕ)
    → (if b then suc n else n) ≡ ticked (if b then some e else none) n
count true e n = refl
count false e n = refl
