-- ===== src/Pages/MapView.antt =====
-- frontend/src/features/map/hooks/use-map-dimensions.ts, and components/zone-layer.tsx with
-- zone-indicator.tsx: the size of the map, and where its markers are. The source's floating-point
-- numbers are exact here: lengths are in hundredths of a pixel, and places on the map in 16000ths of
-- those.
pub mod Extent
use webmeow.Prelude.{
  ℕ, ◌+◌, ◌*◌, ◌/◌, String, Bool, true, false, Option, none, some, List, [], ◌∷◌, map, eqb, leb,
  ltb, if◌then◌else◌,
}
use webmeow.Prelude.Int.{ℤ, pos, ◌-ℤ◌}
use webmeow.Island.Session.{SessionState}
use webmeow.Island.Zones.{
  ZoneId, airport, hotel, beach, parrot, broadcast, IslandId, get_zone, get_island_zone, map_w,
  map_h,
}
use webmeow.Island.Quests.{place}
use webmeow.Pages.Panels.{Answers, is_locked}

pub record Ratio : Type 0 where
  pub over : ℕ
  pub under : ℕ

pub record MapDimensions : Type 0 where
  pub w : ℕ
  pub h : ℕ
  pub min_scale : Ratio

abbrev pub max : ℕ → ℕ → ℕ
max a b = if leb a b then b else a

abbrev pub min : ℕ → ℕ → ℕ
min a b = if leb a b then a else b

-- `Math.max` of two fractions whose denominators are positive.
abbrev pub max_ratio : Ratio → Ratio → Ratio
max_ratio a b = if leb (a.over * b.under) (b.over * a.under) then b else a

-- `compute`: the zoom budget is 2.8 and the aspect 1.6.
unfoldable pub compute : ℕ → ℕ → MapDimensions
compute vp_w vp_h =
    let w = max (vp_w * 280) (vp_h * 448) in
    let h = w * 5 / 8 in
    record {
      w = w;
      h = h;
      min_scale =
          max_ratio (record { over = vp_w * 100; under = w })
            (record { over = vp_h * 100; under = h });
    }

-- A marker: the square around its zone, what it is called, and how it is drawn.
pub record Marker : Type 0 where
  pub id : ZoneId
  pub label : String
  pub left : ℤ
  pub top : ℤ
  pub width : ℕ
  pub locked : Bool
  pub is_quest_target : Bool

-- `ZONE_HIT_RADIUS`
abbrev pub zone_hit_radius : ℕ
zone_hit_radius = 160

-- `questTargetId === id`
abbrev pub is_target : Option ZoneId → ZoneId → Bool
is_target none id = false
is_target (some target) id = eqb (place target) (place id)

-- `ZoneIndicator`, as `ZoneLayer` places it: `scale_x` and `scale_y` are 16000 times the source's.
unfoldable pub marker_of :
    IslandId → MapDimensions → Option ZoneId → SessionState → Answers → ZoneId → Marker
marker_of island d target s a id =
    let scale_x = d.w * (16000 / map_w) in
    let scale_y = d.h * (16000 / map_h) in
    let zone = get_island_zone id island in
    let radius = zone_hit_radius * min scale_x scale_y in
    record {
      id = id;
      label = zone.label;
      left = pos (zone.position.x * scale_x) -ℤ pos radius;
      top = pos (zone.position.y * scale_y) -ℤ pos radius;
      width = radius * 2;
      locked = is_locked id s a;
      is_quest_target = is_target target id;
    }

-- `Object.values(ZoneId)`
abbrev pub zone_ids : List ZoneId
zone_ids = airport ∷ hotel ∷ beach ∷ parrot ∷ broadcast ∷ []

unfoldable pub zone_layer :
    IslandId → MapDimensions → Option ZoneId → SessionState → Answers → List Marker
unfolding marker_of
zone_layer island d target s a = map (marker_of island d target s a) zone_ids
