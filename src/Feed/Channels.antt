-- ===== src/Feed/Channels.antt =====
-- frontend/src/types/broadcast.ts: the channels and the events that the feed shows.
use webmeow.Prelude.{
  ℕ, String, ◌≡◌, refl, sym, ap, ◌∙◌, Bool, true, Option, List, [], ◌∷◌, eqb, if◌then◌else◌, arith,
}
use webmeow.Prelude.Json.{Fields}

pub data ChannelId : Type 0 where
  airport hotel beach parrot broadcast resort_wide : ChannelId

unfoldable pub channel_name : ChannelId → String
channel_name airport = "airport"
channel_name hotel = "hotel"
channel_name beach = "beach"
channel_name parrot = "parrot"
channel_name broadcast = "broadcast"
channel_name resort_wide = "resort-wide"

-- The order of the declaration, by which channels are told apart.
abbrev pub place : ChannelId → ℕ
place airport = 0
place hotel = 1
place beach = 2
place parrot = 3
place broadcast = 4
place resort_wide = 5

-- `a === b`
unfoldable pub same : ChannelId → ChannelId → Bool
same a b = eqb (place a) (place b)

-- `Object.values(ChannelId)`
abbrev pub channels : List ChannelId
channels = airport ∷ hotel ∷ beach ∷ parrot ∷ broadcast ∷ resort_wide ∷ []

abbrev at_place : ℕ → ChannelId
at_place n =
    if eqb n 0
    then airport
    else if eqb n 1
    then hotel
    else if eqb n 2
    then beach
    else if eqb n 3
    then parrot
    else if eqb n 4
    then broadcast
    else resort_wide

pub record BroadcastEvent : Type 0 where
  pub id : String
  pub channel : ChannelId
  pub event_type : String
  pub message : String
  pub sender : String
  pub guest_id : Option String
  pub guest_name : Option String
  pub data_fields : Option Fields

at-place : (c : ChannelId) → at_place (place c) ≡ c
at-place airport = refl
at-place hotel = refl
at-place beach = refl
at-place parrot = refl
at-place broadcast = refl
at-place resort_wide = refl

pub same-eq : (a b : ChannelId) → same a b ≡ true → a ≡ b
unfolding same
same-eq a b h =
    let places : place a ≡ place b = ground arith in
    sym (at-place a) ∙ ap at_place places ∙ at-place b

pub same_refl : (a : ChannelId) → same a a ≡ true
unfolding same
same_refl a = ground arith

pub same-sym : (a b : ChannelId) → same a b ≡ same b a
unfolding same
same-sym a b = ground arith

pub same-ap {ℓ} : {A : Type ℓ} (f : ChannelId → A) (a b : ChannelId) → same a b ≡ true → f a ≡ f b
same-ap f a b h = ap f (same-eq a b h)

pub same-near : (a b c : ChannelId) → same b c ≡ true → same a c ≡ same a b
unfolding same
same-near a b c h = ground arith
