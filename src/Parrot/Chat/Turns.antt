-- ===== src/Parrot/Chat/Turns.antt =====
-- frontend/src/features/parrot/hooks/use-parrot-chat.ts: the pending and the failed turn.
use webmeow.Prelude.{
  String, ◌≡◌, ◌≢◌, refl, ap, sym, ◌∙◌, subst, eq_refl, ne→==-false, false, ◌||◌, Option, none,
  some, List, [], ◌∷◌, ◌++◌, if_cases, is_empty, trim, arith,
}
use webmeow.Parrot.Chat.{
  PendingTurn, FailedTurn, Chat, is_pending, start, send_message, retry, retry_failed_message,
  succeed, fail, messages_of, user, assistant, Event, sends, retries, succeeds, fails, reads,
  signs_in, happen, happen_all,
}

-- The pending turn is the request in flight, it has a text, and no turn has failed meanwhile.
abbrev pub IsPending : Option PendingTurn → Option FailedTurn → Type 0
IsPending none failed = Unit
IsPending (some turn) failed = (is_empty turn.message ≡ false) × (failed ≡ none)

-- The failed turn has a text too: it can be sent again.
abbrev pub IsFailed : Option FailedTurn → Type 0
IsFailed none = Unit
IsFailed (some failed) = is_empty failed.turn.message ≡ false

abbrev pub IsOneTurn : Chat → Type 0
IsOneTurn c =
    (c.in_flight ≡ c.pending_turn) × IsPending c.pending_turn c.failed_turn × IsFailed c.failed_turn

send-IsOneTurn :
    (local_id message : String) (c : Chat)
    → IsOneTurn c
    → IsOneTurn (send_message local_id message c)
unfolding send_message
send-IsOneTurn local_id message c h = ground arith

retry_one :
    (guest : Option String) (failed : Option FailedTurn) (c : Chat)
    → IsFailed failed
    → IsOneTurn c
    → IsOneTurn (retry guest failed c)
retry_one none failed c f h = h
retry_one (some guest) none c f h = h
retry_one (some guest) (some failed) c f h =
    if_cases IsOneTurn (is_empty guest || is_pending c.in_flight) _ _ (λ e. h)
      (λ e. (refl, (f, refl), tt))

retry-IsOneTurn : (c : Chat) → IsOneTurn c → IsOneTurn (retry_failed_message c)
unfolding retry_failed_message
retry-IsOneTurn c h = retry_one c.guest c.failed_turn c h.2 h

succeed-IsOneTurn : (reply : String) (c : Chat) → IsOneTurn c → IsOneTurn (succeed reply c)
unfolding succeed
succeed-IsOneTurn reply c h = ground arith

fail-IsOneTurn : (error : String) (c : Chat) → IsOneTurn c → IsOneTurn (fail error c)
unfolding fail
fail-IsOneTurn error c h = ground arith

happen-IsOneTurn : (e : Event) (c : Chat) → IsOneTurn c → IsOneTurn (happen e c)
unfolding happen
happen-IsOneTurn (sends local_id message) c h = send-IsOneTurn local_id message c h
happen-IsOneTurn retries c h = retry-IsOneTurn c h
happen-IsOneTurn (succeeds reply) c h = succeed-IsOneTurn reply c h
happen-IsOneTurn (fails error) c h = fail-IsOneTurn error c h
happen-IsOneTurn (reads guest history) c h = h
happen-IsOneTurn (signs_in guest) c h = h

-- Whatever happens to a chat in which it holds, as when the page opens, the pending turn is always the
-- request that is in flight; while there is one no turn has failed; and a turn, pending or failed, has
-- a text.
pub happen_all-IsOneTurn :
    (events : List Event) (c : Chat) → IsOneTurn c → IsOneTurn (happen_all events c)
unfolding happen_all
happen_all-IsOneTurn [] c h = h
happen_all-IsOneTurn (e ∷ rest) c h =
    happen_all-IsOneTurn rest (happen e c) (happen-IsOneTurn e c h)

-- The request fails with each of the errors in turn, and is sent again each time.
unfoldable pub fail_and_retry : List String → Chat → Chat
fail_and_retry [] c = c
fail_and_retry (error ∷ rest) c = fail_and_retry rest (retry_failed_message (fail error c))

-- A turn of the guest that is in flight.
abbrev pub IsSent : String → Chat → Type 0
IsSent guest c =
    (turn : PendingTurn) × (turn.guest_id ≡ guest)
    × (c.guest ≡ some guest)
    × (c.in_flight ≡ some turn)
    × (c.pending_turn ≡ some turn)
    × (c.failed_turn ≡ none)

retry-fail :
    (guest error : String) (c : Chat)
    → is_empty guest ≡ false
    → IsSent guest c
    → retry_failed_message (fail error c) ≡ c
unfolding retry_failed_message fail
retry-fail guest error c n h = ground arith

retry_all :
    (guest : String) (errors : List String) (c : Chat)
    → is_empty guest ≡ false
    → IsSent guest c
    → fail_and_retry errors c ≡ c
unfolding fail_and_retry
retry_all guest [] c n h = refl
retry_all guest (error ∷ rest) c n h =
    ap (fail_and_retry rest) (retry-fail guest error c n h) ∙ retry_all guest rest c n h

abbrev pub turn_of : String → String → String → PendingTurn
turn_of guest local_id message = record {
  guest_id = guest;
  message = trim message;
  local_id = local_id;
}

-- A guest's chat with the message and the reply at its end, and nothing under way.
abbrev pub IsAnswered : String → String → String → Chat → Chat → Type 0
IsAnswered guest message reply before after =
    (messages_of (after.histories guest)
      ≡ messages_of (before.histories guest)
        ++ (record { content = some (trim message); role = user }
            ∷ record { content = some reply; role = assistant }
            ∷ []))
    × ((other : String) → guest ≢ other → after.histories other ≡ before.histories other)
    × (after.pending_turn ≡ none)
    × (after.failed_turn ≡ none)
    × (after.in_flight ≡ none)
    × (after.guest ≡ before.guest)

pub send_starts :
    (guest local_id message : String) (c : Chat)
    → c.guest ≡ some guest
    → (is_empty guest || is_empty (trim message)) ≡ false
    → c.in_flight ≡ none
    → send_message local_id message c ≡ start (turn_of guest local_id message) c
unfolding send_message
send_starts guest local_id message c g n free = ground arith

succeed-IsAnswered :
    (guest local_id message reply : String) (c : Chat)
    → IsAnswered guest message reply c (succeed reply (start (turn_of guest local_id message) c))
unfolding succeed
succeed-IsAnswered guest local_id message reply c = (
  ground (arith, eq_refl guest),
  λ other n. ground (arith, ne→==-false guest other n),
  refl,
  refl,
  refl,
  refl,
)

-- A guest with an id sends a message that is not blank while no request is in flight. Where the request
-- fails any number of times and is sent again each time, the chat is then as it was after the message
-- was first sent; the answer leaves the message, trimmed, and the reply once at the end of the guest's
-- history, nothing pending, failed or in flight, and the other histories as they were.
pub send-fail_and_retry :
    (guest local_id message : String) (errors : List String) (reply : String) (c : Chat)
    → c.guest ≡ some guest
    → (is_empty guest || is_empty (trim message)) ≡ false
    → c.in_flight ≡ none
    → (fail_and_retry errors (send_message local_id message c) ≡ send_message local_id message c)
      × IsAnswered guest message reply c
          (succeed reply (fail_and_retry errors (send_message local_id message c)))
send-fail_and_retry guest local_id message errors reply c g n free =
    let turn = turn_of guest local_id message in
    let sent = send_starts guest local_id message c g n free in
    let back : fail_and_retry errors (send_message local_id message c) ≡ start turn c =
      ap (fail_and_retry errors) sent
      ∙ retry_all guest errors (start turn c) (ground arith) (turn, refl, g, refl, refl, refl) in
    (
      back ∙ sym sent,
      subst (λ d. IsAnswered guest message reply c (succeed reply d)) (sym back)
          (succeed-IsAnswered guest local_id message reply c),
    )
