-- ===== src/Stay/Visitors.antt =====
-- frontend/src/features/hotel: which guests the beach service is asked to check in and out. The calls
-- are those that were made; whether they succeed, and in which order they are served, is not known here.
use webmeow.Prelude.{ℕ, zero, suc, String, Bool, false, not, ◌==◌, ◌&&◌, ◌||◌, some, List, [], ◌∷◌}
use webmeow.Stay.{Reservation, VisitorCall, check_in, check_out, Desk, load}

-- Whether the last call made for a guest, where the last one stands first, is to check in.
abbrev pub is_asked_in : String → List VisitorCall → Bool
is_asked_in guest [] = false
is_asked_in guest (check_in g ∷ calls) = (g == guest) || is_asked_in guest calls
is_asked_in guest (check_out g ∷ calls) = not (g == guest) && is_asked_in guest calls

-- The reservation is read, and then read anew a number of times.
unfoldable pub load_again : ℕ → Reservation → Desk → Desk
load_again zero r d = load r.guest_id (some r) d
load_again (suc n) r d = load_again n r (load r.guest_id (some r) d)

abbrev pub is_expected : String → Desk → Bool
is_expected guest d = is_asked_in guest d.visitor_calls
