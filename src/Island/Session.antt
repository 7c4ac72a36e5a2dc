-- ===== src/Island/Session.antt =====
-- frontend/src/stores/session-store.ts, session-selectors.ts and types/guest.ts: who uses the
-- frontend, and what of it survives a reload. An optional field that is missing or null is `none`.
use webmeow.Prelude.{
  ℕ, String, ◌≡◌, refl, ap, sym, ◌∙◌, Bool, true, false, Option, none, some, List, [], ◌∷◌,
}
use webmeow.Prelude.{or_default}

pub data GuestPriority : Type 0 where
  standard fast : GuestPriority

pub data GuestPassport : Type 0 where
  eu non_eu : GuestPassport

pub record GuestProfile : Type 0 where
  pub id : String
  pub name : String
  pub surname : String
  pub age : ℕ
  pub passport : GuestPassport
  pub priority : GuestPriority
  pub disability : Bool
  pub avatar : String
  pub personality : String

pub data AppSession : Type 0 where
  guest_session : GuestProfile → AppSession
  admin_session : String → AppSession

pub record SessionState : Type 0 where
  pub session : Option AppSession
  pub guest : Option GuestProfile
  pub is_admin : Bool

-- What storage holds: now the session, in older versions the guest.
pub record PersistedSessionState : Type 0 where
  pub session : Option AppSession
  pub guest : Option GuestProfile

abbrev pub empty_session_state : SessionState
empty_session_state = record { session = none; guest = none; is_admin = false }

unfoldable pub guest_session_state : GuestProfile → SessionState
guest_session_state guest = record {
  session = some (guest_session guest);
  guest = some guest;
  is_admin = false;
}

unfoldable pub admin_session_state : String → SessionState
admin_session_state display_name = record {
  session = some (admin_session display_name);
  guest = none;
  is_admin = true;
}

unfoldable pub derive_guest : Option AppSession → Option GuestProfile
derive_guest (some (guest_session guest)) = some guest
derive_guest _ = none

-- `session?.role === "admin"`
unfoldable pub has_admin_role : Option AppSession → Bool
has_admin_role (some (admin_session display_name)) = true
has_admin_role _ = false

-- The state of a session, if there is one, else of a guest, if there is one.
unfoldable pub restore : Option AppSession → Option GuestProfile → SessionState
unfolding derive_guest has_admin_role guest_session_state
restore (some session) old = record {
  session = some session;
  guest = derive_guest (some session);
  is_admin = has_admin_role (some session);
}
restore none (some guest) = guest_session_state guest
restore none none = empty_session_state

unfoldable pub migrate_session_state : Option PersistedSessionState → SessionState
unfolding restore
migrate_session_state none = empty_session_state
migrate_session_state (some state) = restore state.session state.guest

-- `partialize`
unfoldable pub partialize : SessionState → PersistedSessionState
partialize state = record { session = state.session; guest = none }

-- `merge`: what is restored has every field of the state.
unfoldable pub merge : Option PersistedSessionState → SessionState → SessionState
unfolding migrate_session_state
merge persisted current = migrate_session_state persisted

-- What the frontend does to the session. `reloads` starts from the empty state with what was kept;
-- `upgrades` starts with what an older version kept.
pub data Action : Type 0 where
  selects_guest : GuestProfile → Action
  logs_admin_in : Option String → Action
  clears_session clears_guest reloads : Action
  upgrades : Option PersistedSessionState → Action

unfoldable pub act : Action → SessionState → SessionState
unfolding guest_session_state admin_session_state merge partialize
act (selects_guest guest) s = guest_session_state guest
act (logs_admin_in display_name) s = admin_session_state (or_default display_name "Admin")
act clears_session s = empty_session_state
act clears_guest s = empty_session_state
act reloads s = merge (some (partialize s)) empty_session_state
act (upgrades persisted) s = merge persisted empty_session_state

unfoldable pub run : List Action → SessionState → SessionState
unfolding act
run [] s = s
run (a ∷ rest) s = run rest (act a s)

-- The guest and the administrator's flag are what the session says.
abbrev pub IsConsistent : SessionState → Type 0
IsConsistent s = (s.guest ≡ derive_guest s.session) × (s.is_admin ≡ has_admin_role s.session)

restore-IsConsistent :
    (session : Option AppSession) (guest : Option GuestProfile)
    → IsConsistent (restore session guest)
unfolding restore derive_guest has_admin_role guest_session_state
restore-IsConsistent (some session) guest = (refl, refl)
restore-IsConsistent none (some guest) = (refl, refl)
restore-IsConsistent none none = (refl, refl)

act-IsConsistent : (a : Action) (s : SessionState) → IsConsistent (act a s)
unfolding act derive_guest has_admin_role guest_session_state admin_session_state merge
    migrate_session_state partialize
act-IsConsistent (selects_guest guest) s = (refl, refl)
act-IsConsistent (logs_admin_in display_name) s = (refl, refl)
act-IsConsistent clears_session s = (refl, refl)
act-IsConsistent clears_guest s = (refl, refl)
act-IsConsistent reloads s = restore-IsConsistent s.session none
act-IsConsistent (upgrades none) s = (refl, refl)
act-IsConsistent (upgrades (some p)) s = restore-IsConsistent p.session p.guest

-- Whatever the user does, and whatever an older version kept in storage, the guest and the
-- administrator's flag stay what the session says: nobody is an administrator with a guest selected,
-- or without an administrator's session.
pub run-IsConsistent :
    (rest : List Action) (s : SessionState) → IsConsistent s → IsConsistent (run rest s)
unfolding run
run-IsConsistent [] s h = h
run-IsConsistent (a ∷ rest) s h = run-IsConsistent rest (act a s) (act-IsConsistent a s)

same-state :
    (session : Option AppSession) (g h : Option GuestProfile) (a b : Bool)
    → g ≡ h
    → a ≡ b
    → ◌≡◌ {A = SessionState}
        record { session = session; guest = g; is_admin = a }
        record { session = session; guest = h; is_admin = b }
same-state session g h a b p q =
    ap (λ x. record { session = session; guest = x; is_admin = a }) p
    ∙ ap (λ x. record { session = session; guest = h; is_admin = x }) q

restore-derive :
    (session : Option AppSession)
    → restore session none ≡ record {
      session = session;
      guest = derive_guest session;
      is_admin = has_admin_role session;
    }
unfolding restore derive_guest has_admin_role
restore-derive none = refl
restore-derive (some session) = refl

-- A reload keeps a consistent state as it was, though only the session is stored, whatever state it
-- is merged into.
pub merge-partialize :
    (s current : SessionState) → IsConsistent s → merge (some (partialize s)) current ≡ s
unfolding merge migrate_session_state partialize
merge-partialize s current h =
    restore-derive s.session ∙ same-state s.session _ _ _ _ (sym h.0) (sym h.1)
