-- ===== src/Parrot/Chat.antt =====
-- frontend/src/features/parrot/hooks/use-parrot-chat.ts and use-parrot-history.ts: a guest's chat with
-- the parrot. The state is that of the hook with what it reads: the session's guest, the histories in
-- the query cache by the guest's id, and the variables of the mutation while it is pending. What the
-- hook's functions read is the state of its last rendering. The keys that the page's list needs are
-- data with the parts of the source's texts.
pub mod Turns
pub mod Display
use webmeow.Prelude.{
  ℕ, zero, suc, ◌+◌, String, Bool, true, false, ◌==◌, ◌||◌, Option, none, some, List, [], ◌∷◌, ◌++◌,
  if◌then◌else◌, Dict, empty, put, is_empty, trim,
}

pub data Role : Type 0 where
  user assistant : Role

pub record ChatHistoryMessage : Type 0 where
  pub content : Option String
  pub role : Role

pub record ChatHistoryResponse : Type 0 where
  pub guest_id : String
  pub messages : List ChatHistoryMessage

pub record PendingTurn : Type 0 where
  pub guest_id : String
  pub message : String
  pub local_id : String

pub record FailedTurn : Type 0 where
  pub turn : PendingTurn
  pub error : String

pub data Key : Type 0 where
  of_message : Role → Option String → ℕ → Key
  of_pending of_thinking of_failed of_error : String → Key

pub data ParrotThreadItem : Type 0 where
  message_item : Key → ChatHistoryMessage → ParrotThreadItem
  thinking_item : Key → ParrotThreadItem
  error_item : Key → String → String → ParrotThreadItem

pub record Chat : Type 0 where
  pub guest : Option String
  pub histories : Dict ChatHistoryResponse
  pub pending_turn : Option PendingTurn
  pub failed_turn : Option FailedTurn
  pub in_flight : Option PendingTurn

-- The chat when the page opens.
abbrev pub opened : Option String → Dict ChatHistoryResponse → Chat
opened guest histories = record {
  guest = guest;
  histories = histories;
  pending_turn = none;
  failed_turn = none;
  in_flight = none;
}

abbrev pub from_user : String → ChatHistoryMessage
from_user text = record { content = some text; role = user }

abbrev pub from_assistant : String → ChatHistoryMessage
from_assistant text = record { content = some text; role = assistant }

-- `history.messages`: none before the history is there.
abbrev pub messages_of : Option ChatHistoryResponse → List ChatHistoryMessage
messages_of none = []
messages_of (some h) = h.messages

abbrev pub owner : Option ChatHistoryResponse → String → String
owner none guest = guest
owner (some h) guest = h.guest_id

abbrev pub append_messages_to_history :
    Option ChatHistoryResponse → PendingTurn → String → ChatHistoryResponse
append_messages_to_history previous turn reply = record {
  guest_id = owner previous turn.guest_id;
  messages = messages_of previous ++ (from_user turn.message ∷ from_assistant reply ∷ []);
}

abbrev pub get_message_key : ChatHistoryMessage → ℕ → Key
get_message_key m index = of_message m.role m.content index

abbrev pub is_pending : Option PendingTurn → Bool
is_pending none = false
is_pending (some v) = true

-- `sendMessage`, past its guards.
abbrev pub start : PendingTurn → Chat → Chat
start turn c = record c { pending_turn = some turn; failed_turn = none; in_flight = some turn }

-- `sendMessage`; `local_id` is the random identifier.
unfoldable pub send_message : String → String → Chat → Chat
send_message local_id message c = elim c.guest [
  | none ↦ c
  | some guest ↦
      let trimmed = trim message in
      if is_empty guest || is_empty trimmed || is_pending c.in_flight
      then c
      else start (record { guest_id = guest; message = trimmed; local_id = local_id }) c
]

-- `retryFailedMessage` by the guest and the failed turn.
abbrev pub retry : Option String → Option FailedTurn → Chat → Chat
retry none failed c = c
retry (some guest) none c = c
retry (some guest) (some failed) c =
    if is_empty guest || is_pending c.in_flight
    then c
    else start
        (record {
          guest_id = guest;
          message = failed.turn.message;
          local_id = failed.turn.local_id;
        })
        c

unfoldable pub retry_failed_message : Chat → Chat
retry_failed_message c = retry c.guest c.failed_turn c

-- `onSuccess`
abbrev pub on_success : String → PendingTurn → Chat → Chat
on_success reply variables c = record c {
  histories =
      put c.histories variables.guest_id
        (append_messages_to_history (c.histories variables.guest_id) variables reply);
  pending_turn = none;
  failed_turn = none;
}

-- `onError`
abbrev pub on_error : String → PendingTurn → Chat → Chat
on_error error variables c = record c {
  pending_turn = none;
  failed_turn = some (record { turn = variables; error = error });
}

-- The request that is in flight ends.
abbrev pub settle : (PendingTurn → Chat → Chat) → Chat → Chat
settle handler c = elim c.in_flight [
  | none ↦ c
  | some variables ↦ record (handler variables c) { in_flight = none }
]

unfoldable pub succeed : String → Chat → Chat
succeed reply c = settle (on_success reply) c

unfoldable pub fail : String → Chat → Chat
fail error c = settle (on_error error) c

abbrev pub history_items : ℕ → List ChatHistoryMessage → List ParrotThreadItem
history_items index [] = []
history_items index (m ∷ rest) =
    message_item (get_message_key m index) m ∷ history_items (suc index) rest

-- `turn.guestId === participantId`
abbrev pub is_of : Option String → PendingTurn → Bool
is_of none turn = false
is_of (some participant) turn = turn.guest_id == participant

abbrev pub pending_items : Option String → Option PendingTurn → List ParrotThreadItem
pending_items guest none = []
pending_items guest (some p) =
    if is_of guest p
    then message_item (of_pending p.local_id) (from_user p.message)
      ∷ thinking_item (of_thinking p.local_id)
      ∷ []
    else []

abbrev pub failed_items : Option String → Option FailedTurn → List ParrotThreadItem
failed_items guest none = []
failed_items guest (some f) =
    if is_of guest f.turn
    then message_item (of_failed f.turn.local_id) (from_user f.turn.message)
      ∷ error_item (of_error f.turn.local_id) f.turn.message f.error
      ∷ []
    else []

-- `useParrotHistory(participantId).messages`: nothing is asked for without a guest.
abbrev pub use_parrot_history : Option String → Dict ChatHistoryResponse → List ChatHistoryMessage
use_parrot_history none histories = []
use_parrot_history (some guest) histories = messages_of (histories guest)

unfoldable pub thread_items : Chat → List ParrotThreadItem
thread_items c =
    history_items 0 (use_parrot_history c.guest c.histories)
    ++ (pending_items c.guest c.pending_turn ++ failed_items c.guest c.failed_turn)

-- What happens to the chat: the guest sends a message or sends a failed one again, the request succeeds
-- or fails, the history is read anew, or another guest takes the session.
pub data Event : Type 0 where
  sends : String → String → Event
  retries : Event
  succeeds fails : String → Event
  reads : String → ChatHistoryResponse → Event
  signs_in : Option String → Event

unfoldable pub happen : Event → Chat → Chat
unfolding send_message retry_failed_message succeed fail
happen (sends local_id message) c = send_message local_id message c
happen retries c = retry_failed_message c
happen (succeeds reply) c = succeed reply c
happen (fails error) c = fail error c
happen (reads guest history) c = record c { histories = put c.histories guest history }
happen (signs_in guest) c = record c { guest = guest }

unfoldable pub happen_all : List Event → Chat → Chat
unfolding happen
happen_all [] c = c
happen_all (e ∷ rest) c = happen_all rest (happen e c)
