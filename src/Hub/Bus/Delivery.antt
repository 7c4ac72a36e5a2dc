-- ===== src/Hub/Bus/Delivery.antt =====
-- services/broadcast/src/eventBus.ts: who receives what a broadcast sends.
use webmeow.Prelude.{
  ℕ, ◌≡◌, ◌≢◌, refl, ap, ◌∙◌, Bool, true, false, ◌||◌, List, [], ◌∷◌, ◌++◌, map, eqb, if◌then◌else◌,
  arith,
}
use webmeow.Hub.Bus.{
  IslandEvent, type_name, event_json, Frame, message, Bus, remove_first, broadcast,
}

-- The frames that a client has been sent, in order.
unfoldable pub frames : ℕ → List (ℕ × Frame) → List Frame
frames c [] = []
frames c ((d, f) ∷ ws) = if eqb d c then f ∷ frames c ws else frames c ws

unfoldable pub has : ℕ → List ℕ → Bool
has c [] = false
has c (d ∷ ds) = eqb d c || has c ds

-- No client is registered twice.
abbrev pub IsOnce : List ℕ → Type 0
IsOnce [] = Unit
IsOnce (d ∷ ds) = (has d ds ≡ false) × IsOnce ds

pub frames-append :
    (c : ℕ) (xs ys : List (ℕ × Frame)) → frames c (xs ++ ys) ≡ frames c xs ++ frames c ys
unfolding frames
frames-append c [] ys = refl
frames-append c ((d, f) ∷ xs) ys = ground (arith, frames-append c xs ys)

frames_none :
    (c : ℕ) (f : Frame) (ds : List ℕ) → has c ds ≡ false → frames c (map (λ d. (d, f)) ds) ≡ []
unfolding frames has
frames_none c f [] h = refl
frames_none c f (d ∷ ds) h = ground (arith, frames_none c f ds)

has_eq : (c d : ℕ) (ds : List ℕ) → eqb d c ≡ true → has d ds ≡ has c ds
has_eq c d ds h = let e : d ≡ c = ground arith in ap (λ x. has x ds) e

frames_each :
    (c : ℕ) (f : Frame) (ds : List ℕ)
    → IsOnce ds
    → frames c (map (λ d. (d, f)) ds) ≡ (if has c ds then f ∷ [] else [])
unfolding frames has
frames_each c f [] h = refl
frames_each c f (d ∷ ds) h =
    ground (arith, frames_each c f ds h.1, frames_none c f ds, has_eq c d ds)

-- If no client is registered twice, a broadcast sends the event, with its name and its data, once
-- to every registered client, after what that client was sent before, and nothing to anybody else;
-- it registers and removes nobody.
pub frames-broadcast :
    (e : IslandEvent) (bus : Bus) (c : ℕ)
    → IsOnce bus.clients
    → (frames c (broadcast e bus).written
        ≡ frames c bus.written
          ++ (if has c bus.clients
              then message (type_name e.event_type) (event_json e) ∷ []
              else []))
      × ((broadcast e bus).clients ≡ bus.clients)
unfolding broadcast
frames-broadcast e bus c h = (
  frames-append c bus.written _
      ∙ ap (λ fs. frames c bus.written ++ fs) (frames_each c _ bus.clients h),
  refl,
)

pub remove-absent : (c : ℕ) (ds : List ℕ) → has c ds ≡ false → remove_first c ds ≡ ds
unfolding remove_first has
remove-absent c [] h = refl
remove-absent c (d ∷ ds) h = ground (arith, remove-absent c ds)

has-remove : (c d : ℕ) (ds : List ℕ) → has d ds ≡ false → has d (remove_first c ds) ≡ false
unfolding remove_first has
has-remove c d [] h = refl
has-remove c d (x ∷ ds) h = ground (arith, has-remove c d ds)

pub IsOnce-remove : (c : ℕ) (ds : List ℕ) → IsOnce ds → IsOnce (remove_first c ds)
unfolding remove_first
IsOnce-remove c [] h = tt
IsOnce-remove c (d ∷ ds) h = ground (arith, IsOnce-remove c ds h.1, has-remove c d ds h.0)

has-append : (c d : ℕ) (ds : List ℕ) → has d ds ≡ false → c ≢ d → has d (ds ++ c ∷ []) ≡ false
unfolding has
has-append c d [] h n = ground arith
has-append c d (x ∷ ds) h n = ground (arith, has-append c d ds)

pub IsOnce-append : (c : ℕ) (ds : List ℕ) → IsOnce ds → has c ds ≡ false → IsOnce (ds ++ c ∷ [])
unfolding has
IsOnce-append c [] h n = (refl, tt)
IsOnce-append c (d ∷ ds) h n =
    (has-append c d ds h.0 (ground arith), IsOnce-append c ds h.1 (ground arith))

pub has-append_self : (c : ℕ) (ds : List ℕ) → has c (ds ++ c ∷ []) ≡ true
unfolding has
has-append_self c [] = ground arith
has-append_self c (d ∷ ds) = ground (arith, has-append_self c ds)

pub has-append_other : (c d : ℕ) (ds : List ℕ) → eqb c d ≡ false → has d (ds ++ c ∷ []) ≡ has d ds
unfolding has
has-append_other c d [] h = ground arith
has-append_other c d (x ∷ ds) h = ground (arith, has-append_other c d ds h)

pub has-remove_self : (c : ℕ) (ds : List ℕ) → IsOnce ds → has c (remove_first c ds) ≡ false
unfolding remove_first has
has-remove_self c [] h = refl
has-remove_self c (d ∷ ds) h = ground (arith, has-remove_self c ds h.1, has_eq c d ds)

pub has-remove_other :
    (c d : ℕ) (ds : List ℕ) → eqb c d ≡ false → has d (remove_first c ds) ≡ has d ds
unfolding remove_first has
has-remove_other c d [] h = refl
has-remove_other c d (x ∷ ds) h = ground (arith, has-remove_other c d ds h)
