-- ===== src/Pages/MapView/Extent.antt =====
-- frontend/src/features/map/hooks/use-map-dimensions.ts and components/zone-layer.tsx: how large the map
-- is, and that its markers are on it.
use webmeow.Prelude.{
  ℕ, ◌+◌, ◌*◌, ◌/◌, ◌≤◌, ◌<◌, ◌≡◌, refl, ap, sym, subst, Option, All, arith, leb, ◌&&◌, if_of_true,
  if_of_false, leb→le, Bool-cases, inl, inr, Bool, true, false,
}
use native.Mathlib.Nat.{mul-le-mul_right}
use webmeow.Prelude.Int.{pos, ◌+ℤ◌, ◌-ℤ◌, ◌≤ℤ◌, int_laws}
use webmeow.Island.Session.{SessionState}
use webmeow.Island.Zones.{
  ZoneId, airport, hotel, beach, parrot, broadcast, IslandId, purrlington, alien, get_island_zone,
}
use webmeow.Pages.Panels.{Answers}
use webmeow.Pages.MapView.{MapDimensions, compute, max, min, Marker, marker_of, zone_layer}

abbrev sized : ℕ → ℕ → ℕ → MapDimensions
sized w h vp = record { w = w; h = h; min_scale = record { over = vp * 100; under = vp * 280 } }

gt-leb : (a b : ℕ) → b < a → leb a b ≡ false
gt-leb a b h = ground arith

le-leb : (a b : ℕ) → a ≤ b → leb a b ≡ true
le-leb a b h = ground arith

wide :
    (vp_w vp_h : ℕ)
    → 0 < vp_w
    → vp_h * 448 < vp_w * 280
    → compute vp_w vp_h ≡ sized (vp_w * 280) (vp_w * 175) vp_w
unfolding compute
wide vp_w vp_h some_w h =
    let across : max (vp_w * 280) (vp_h * 448) ≡ vp_w * 280 = ground (arith, h) in
    let down : vp_w * 280 * 5 / 8 ≡ vp_w * 175 = omega arith in
    rw (across, down)
      (ap (λ r. record { w = vp_w * 280; h = vp_w * 175; min_scale = r })
        (if_of_false (leb (vp_w * 100 * (vp_w * 175)) (vp_h * 100 * (vp_w * 280))) _ _
          (gt-leb _ _ (omega (arith, mul-le-mul_right vp_w h, some_w)))))

high :
    (vp_w vp_h : ℕ)
    → vp_w * 280 ≤ vp_h * 448
    → compute vp_w vp_h ≡ sized (vp_h * 448) (vp_h * 280) vp_h
unfolding compute
high vp_w vp_h h =
    let across : max (vp_w * 280) (vp_h * 448) ≡ vp_h * 448 = ground (arith, h) in
    let down : vp_h * 448 * 5 / 8 ≡ vp_h * 280 = omega arith in
    rw (across, down)
      (ap (λ r. record { w = vp_h * 448; h = vp_h * 280; min_scale = r })
        (if_of_true (leb (vp_w * 100 * (vp_h * 280)) (vp_h * 100 * (vp_h * 448))) _ _
          (le-leb _ _ (omega (arith, mul-le-mul_right vp_h h)))))

-- The map has the aspect of the picture, is at least 2.8 times as wide and as high as the viewport, and
-- the smallest scale is 1 / 2.8.
abbrev pub IsCovering : ℕ → ℕ → MapDimensions → Type 0
IsCovering vp_w vp_h d =
    (d.w * 5 ≡ d.h * 8)
    × (vp_w * 280 ≤ d.w)
    × (vp_h * 280 ≤ d.h)
    × (d.min_scale.over * 280 ≡ d.min_scale.under * 100)

compute-IsCovering :
    (vp_w vp_h : ℕ) → 0 < vp_w → 0 < vp_h → IsCovering vp_w vp_h (compute vp_w vp_h)
compute-IsCovering vp_w vp_h some_w some_h = elim (Bool-cases (leb (vp_w * 280) (vp_h * 448))) [
  | inl e ↦
      let le : vp_w * 280 ≤ vp_h * 448 = leb→le (vp_w * 280) (vp_h * 448) e in
      subst (IsCovering vp_w vp_h) (sym (high vp_w vp_h le))
        (omega arith, le, omega arith, omega arith)
  | inr e ↦
      let gt : vp_h * 448 < vp_w * 280 = ground (arith, e) in
      subst (IsCovering vp_w vp_h) (sym (wide vp_w vp_h some_w gt))
        (omega arith, omega arith, omega arith, omega arith)
]

-- The square of the marker lies on the map, whose width is `w` hundredths of a pixel.
abbrev pub IsOnMap : MapDimensions → Marker → Type 0
IsOnMap d m =
    (pos 0 ≤ℤ m.left)
    × (pos 0 ≤ℤ m.top)
    × (m.left +ℤ pos m.width ≤ℤ pos (d.w * 16000))
    × (m.top +ℤ pos m.width ≤ℤ pos (d.h * 16000))

-- The square around the zone lies on the picture.
abbrev fitting : IslandId → ZoneId → Bool
fitting island id =
    let at = (get_island_zone id island).position in
    leb 160 at.x && leb (at.x + 160) 3200 && leb 160 at.y && leb (at.y + 160) 2000

fits : (island : IslandId) (id : ZoneId) → fitting island id ≡ true
fits purrlington airport = refl
fits purrlington hotel = refl
fits purrlington beach = refl
fits purrlington parrot = refl
fits purrlington broadcast = refl
fits alien airport = refl
fits alien hotel = refl
fits alien beach = refl
fits alien parrot = refl
fits alien broadcast = refl

side :
    (x u n : ℕ)
    → 160 ≤ x
    → x + 160 ≤ n
    → (pos 0 ≤ℤ pos (x * u) -ℤ pos (160 * u))
      × (pos (x * u) -ℤ pos (160 * u) +ℤ pos (160 * u * 2) ≤ℤ pos (n * u))
side x u n h k = (
  omega (int_laws, mul-le-mul_right u h),
  omega (int_laws, mul-le-mul_right u h, mul-le-mul_right u k),
)

min_same : (u : ℕ) → min u u ≡ u
min_same u = ground arith

on_map :
    (island : IslandId) (d : MapDimensions) (target : Option ZoneId)
    → (s : SessionState) (a : Answers) (id : ZoneId) → d.w * 5 ≡ d.h * 8
    → IsOnMap d (marker_of island d target s a id)
unfolding marker_of
on_map island d target s a id h =
    let at = (get_island_zone id island).position in
    let inside : (160 ≤ at.x) × (at.x + 160 ≤ 3200) × (160 ≤ at.y) × (at.y + 160 ≤ 2000) =
      ground (arith, fits island id) in
    let u = d.w * 5 in
    let (left, right) = side at.x u 3200 inside.0 inside.1 in
    let (top, bottom) = side at.y u 2000 inside.2 inside.3 in
    rw (sym h, min_same u) (left, top, omega (int_laws, right), omega (int_laws, bottom, h))

-- For a viewport that is not empty, the map has the aspect of the picture, is at least 2.8 times as
-- wide and as high as the viewport, and the hook's smallest scale is 1 / 2.8; and on either island the square of
-- every marker lies on the map.
pub zone_layer-IsOnMap :
    (vp_w vp_h : ℕ) (island : IslandId) (target : Option ZoneId) (s : SessionState) (a : Answers)
    → 0 < vp_w
    → 0 < vp_h
    → (let d = compute vp_w vp_h in
        IsCovering vp_w vp_h d × All (IsOnMap d) (zone_layer island d target s a))
unfolding zone_layer
zone_layer-IsOnMap vp_w vp_h island target s a some_w some_h =
    let covers = compute-IsCovering vp_w vp_h some_w some_h in
    let on = λ (id : ZoneId). on_map island (compute vp_w vp_h) target s a id covers.0 in
    (covers, (on airport, (on hotel, (on beach, (on parrot, (on broadcast, tt))))))
