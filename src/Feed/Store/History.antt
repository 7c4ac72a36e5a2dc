-- ===== src/Feed/Store/History.antt =====
-- frontend/src/stores/events-store.ts against the whole history of a channel.
use webmeow.Prelude.{
  ℕ, ◌+◌, ◌≤◌, String, ◌≡◌, refl, ap, sym, ◌∙◌, Bool, true, false, Option, none, some, List, [],
  ◌∷◌, length, take, take_of_length-le, if◌then◌else◌, arith,
}
use webmeow.Feed.Channels.{ChannelId, same, BroadcastEvent}
use webmeow.Feed.Store.{EventsState, ingest_event, clear_events}
use webmeow.Feed.Store.Delivery.{delivery, add, ticked}
use webmeow.Feed.Store.Ingest.{ingest-delivery, ingest-ticks}

-- What the client asks of the store.
pub data Call : Type 0 where
  ingests : (ChannelId → String) → BroadcastEvent → Bool → Call
  clears : ChannelId → Call

unfoldable pub apply : Call → EventsState → EventsState
apply (ingests fresh event mirror) s = ingest_event fresh event mirror s
apply (clears c) s = clear_events c s

-- The calls, the last one first.
unfoldable pub run : List Call → EventsState → EventsState
unfolding apply
run [] s = s
run (k ∷ ks) s = apply k (run ks s)

-- Everything that was put under a channel since it was last cleared, the newest first, unbounded.
unfoldable pub log : List Call → ChannelId → List BroadcastEvent → List BroadcastEvent
unfolding delivery
log [] c old = old
log (ingests fresh event mirror ∷ ks) c old = add (delivery fresh event mirror c) (log ks c old)
log (clears d ∷ ks) c old = if same d c then [] else log ks c old

-- How many events were put under a channel.
unfoldable pub arrivals : List Call → ChannelId → ℕ
unfolding delivery
arrivals [] c = 0
arrivals (ingests fresh event mirror ∷ ks) c =
    ticked (delivery fresh event mirror c) (arrivals ks c)
arrivals (clears d ∷ ks) c = arrivals ks c

ticked-add : (o : Option BroadcastEvent) (a b : ℕ) → ticked o (a + b) ≡ a + ticked o b
ticked-add none a b = refl
ticked-add (some e) a b = omega arith

cleared :
    (b : Bool) (es log : List BroadcastEvent)
    → es ≡ take 100 log
    → (if b then [] else es) ≡ take 100 (if b then [] else log)
cleared true es log h = refl
cleared false es log h = h

-- After any calls, from a state with at most a hundred events under a channel, the store shows the
-- newest hundred of all the events that were put under that channel since it was last cleared, in
-- order, and its tick has gone up by one for each event that was put there, cleared or not.
pub run-log :
    (ks : List Call) (s : EventsState) (c : ChannelId)
    → length (s.events c) ≤ 100
    → ((run ks s).events c ≡ take 100 (log ks c (s.events c)))
      × ((run ks s).activity_tick c ≡ s.activity_tick c + arrivals ks c)
unfolding run log arrivals clear_events
run-log [] s c h = (sym (take_of_length-le 100 (s.events c) h), omega arith)
run-log (ingests fresh e m ∷ ks) s c h =
    let ih = run-log ks s c h in
    (
      ingest-delivery fresh e m (run ks s) c (log ks c (s.events c)) ih.0,
      ingest-ticks fresh e m (run ks s) c
          ∙ ap (ticked (delivery fresh e m c)) ih.1
          ∙ ticked-add (delivery fresh e m c) (s.activity_tick c) (arrivals ks c),
    )
run-log (clears d ∷ ks) s c h = let ih = run-log ks s c h in (cleared (same d c) _ _ ih.0, ih.1)
