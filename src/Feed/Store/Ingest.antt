-- ===== src/Feed/Store/Ingest.antt =====
-- frontend/src/stores/events-store.ts: a channel after one event.
use webmeow.Prelude.{
  suc, String, ◌≡◌, refl, ap, sym, ◌∙◌, Bool, true, false, ◌==◌, ◌&&◌, not, List, take, ◌||◌,
  if◌then◌else◌, arith,
}
use webmeow.Feed.Channels.{
  ChannelId, resort_wide, same, same_refl, same-ap, same-near, channels, BroadcastEvent,
}
use webmeow.Feed.Store.{
  EventsState, prepend_event, file_event, copy_event, file_copies, ingest_event,
}
use webmeow.Feed.Store.Delivery.{
  delivery, add, ticked, copy_own, copy_other, delivery_lem, mirrored-events, mirrored-ticks, grow,
  count, file_copies-events, file_copies-ticks,
}

-- An event that is no announcement, and its mirrored copy.
module _ (fresh : ChannelId → String) (e : BroadcastEvent) (m : Bool) (s : EventsState)
    (c : ChannelId) where
  choose {ℓ} :
      {A : Type ℓ} (f : ChannelId → A) (x y old : A)
      → (same e.channel resort_wide ≡ false → x ≡ f resort_wide)
      → y ≡ f e.channel
      → (if (m && not (same e.channel resort_wide)) && same resort_wide c
          then x
          else if same e.channel c
          then y
          else old)
        ≡ (if same e.channel c || (m && same resort_wide c) then f c else old)
  choose f x y old h k =
      ground
        (arith, same-ap f resort_wide c, same-ap f e.channel c, same-near e.channel resort_wide c)

  filed-events :
      (file_event s e.channel e s).events c
      ≡ (if same e.channel c then prepend_event (s.events e.channel) e else s.events c)
  unfolding file_event
  filed-events = refl

  filed-ticks :
      (file_event s e.channel e s).activity_tick c
      ≡ (if same e.channel c then suc (s.activity_tick e.channel) else s.activity_tick c)
  unfolding file_event
  filed-ticks = refl

  copied : ChannelId → List BroadcastEvent
  copied d = prepend_event (s.events d) (copy_event fresh e d)

  ordinary-events :
      (e.event_type == "resort.announcement") ≡ false
      → (ingest_event fresh e m s).events c
        ≡ (if same e.channel c || (m && same resort_wide c) then copied c else s.events c)
  unfolding ingest_event copied
  ordinary-events one =
      let mirror = record e { id = fresh resort_wide; channel = resort_wide } in
      let next = file_event s e.channel e s in
      let b = m && not (same e.channel resort_wide) in
      ap
        (λ a.
          (if a
              then file_copies fresh e s channels s
              else if b
              then file_event s resort_wide mirror next
              else next).events
            c)
        one
      ∙ mirrored-events b s next mirror c
      ∙ ap
          (λ es.
            if b && same resort_wide c then prepend_event (s.events resort_wide) mirror else es)
          filed-events
      ∙ choose copied (prepend_event (s.events resort_wide) mirror)
          (prepend_event (s.events e.channel) e) (s.events c)
          (λ h. ap (prepend_event (s.events resort_wide)) (sym (copy_other fresh e resort_wide h)))
          (ap (prepend_event (s.events e.channel))
            (sym (copy_own fresh e e.channel (same_refl e.channel))))

  ordinary-ticks :
      (e.event_type == "resort.announcement") ≡ false
      → (ingest_event fresh e m s).activity_tick c ≡ (
          if same e.channel c || (m && same resort_wide c)
          then suc (s.activity_tick c)
          else s.activity_tick c)
  unfolding ingest_event
  ordinary-ticks one =
      let mirror = record e { id = fresh resort_wide; channel = resort_wide } in
      let next = file_event s e.channel e s in
      let b = m && not (same e.channel resort_wide) in
      ap
        (λ a.
          (if a
              then file_copies fresh e s channels s
              else if b
              then file_event s resort_wide mirror next
              else next).activity_tick
            c)
        one
      ∙ mirrored-ticks b s next mirror c
      ∙ ap (λ n. if b && same resort_wide c then suc (s.activity_tick resort_wide) else n)
          filed-ticks
      ∙ choose (λ d. suc (s.activity_tick d)) (suc (s.activity_tick resort_wide))
          (suc (s.activity_tick e.channel)) (s.activity_tick c) (λ h. refl) refl

  all_or_one {ℓ} :
      {A : Type ℓ} (x y z : A)
      → ((e.event_type == "resort.announcement") ≡ true → z ≡ x)
      → ((e.event_type == "resort.announcement") ≡ false
          → z ≡ (if same e.channel c || (m && same resort_wide c) then x else y))
      → z ≡ (
          if same e.channel c
            || ((e.event_type == "resort.announcement") || (m && same resort_wide c))
          then x
          else y)
  all_or_one x y z h k = ground arith

  all-events :
      (e.event_type == "resort.announcement") ≡ true
      → (ingest_event fresh e m s).events c ≡ copied c
  unfolding ingest_event copied
  all-events all =
      let mirror = record e { id = fresh resort_wide; channel = resort_wide } in
      let next = file_event s e.channel e s in
      let b = m && not (same e.channel resort_wide) in
      ap
        (λ a.
          (if a
              then file_copies fresh e s channels s
              else if b
              then file_event s resort_wide mirror next
              else next).events
            c)
        all
      ∙ file_copies-events fresh e s c

  all-ticks :
      (e.event_type == "resort.announcement") ≡ true
      → (ingest_event fresh e m s).activity_tick c ≡ suc (s.activity_tick c)
  unfolding ingest_event
  all-ticks all =
      let mirror = record e { id = fresh resort_wide; channel = resort_wide } in
      let next = file_event s e.channel e s in
      let b = m && not (same e.channel resort_wide) in
      ap
        (λ a.
          (if a
              then file_copies fresh e s channels s
              else if b
              then file_event s resort_wide mirror next
              else next).activity_tick
            c)
        all
      ∙ file_copies-ticks fresh e s c

  -- An event is put under a channel where the history has a delivery to it.
  pub ingest-delivery :
      (log : List BroadcastEvent)
      → s.events c ≡ take 100 log
      → (ingest_event fresh e m s).events c ≡ take 100 (add (delivery fresh e m c) log)
  unfolding copied
  ingest-delivery log h =
      all_or_one (copied c) (s.events c) _ all-events ordinary-events
      ∙ grow
          (same e.channel c
            || ((e.event_type == "resort.announcement") || (m && same resort_wide c)))
          (copy_event fresh e c) (s.events c) log h
      ∙ ap (λ o. take 100 (add o log)) (sym (delivery_lem fresh e m c))

  pub ingest-ticks :
      (ingest_event fresh e m s).activity_tick c ≡ ticked (delivery fresh e m c) (s.activity_tick c)
  ingest-ticks =
      all_or_one (suc (s.activity_tick c)) (s.activity_tick c) _ all-ticks ordinary-ticks
      ∙ count
          (same e.channel c
            || ((e.event_type == "resort.announcement") || (m && same resort_wide c)))
          (copy_event fresh e c) (s.activity_tick c)
      ∙ ap (λ o. ticked o (s.activity_tick c)) (sym (delivery_lem fresh e m c))
