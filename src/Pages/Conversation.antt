-- ===== src/Pages/Conversation.antt =====
-- frontend/src/features/parrot/components: chat-composer.tsx, where the guest writes, as
-- parrot-panel.tsx joins it with the chat of hooks/use-parrot-chat.ts; and chat-thread.tsx with
-- chat-message.tsx, which show the chat.
pub mod Submitting
use webmeow.Prelude.{
  String, Bool, true, false, ◌&&◌, ◌||◌, not, Option, none, some, List, [], ◌∷◌, map, if◌then◌else◌,
  is_empty, trim,
}
use webmeow.Island.Session.{GuestProfile}
use webmeow.Parrot.Chat.{
  Role, user, assistant, ChatHistoryMessage, ParrotThreadItem, message_item, thinking_item,
  error_item, Chat, send_message, is_pending, thread_items, succeed, fail,
}
use webmeow.Pages.Panels.{composer_disabled, is_there}

-- Under a message: who wrote it. The guest's initials stand for the guest.
pub data Caption : Type 0 where
  by_parrot by_assistant no_caption : Caption
  by_guest : GuestProfile → Caption

pub data Entry : Type 0 where
  message_entry : Bool → Option String → Caption → Entry
  thinking_entry : Caption → Entry
  error_entry : String → Bool → Entry

abbrev pub initials_of : Option GuestProfile → Caption
initials_of none = no_caption
initials_of (some guest) = by_guest guest

-- `ChatMessage`, by the role.
abbrev pub chat_message : Option GuestProfile → Role → Option String → Entry
chat_message guest assistant content = message_entry true content by_parrot
chat_message guest user content = message_entry false content (initials_of guest)

abbrev pub chat_entry : Option GuestProfile → Bool → ParrotThreadItem → Entry
chat_entry guest is_sending (message_item key message) =
    chat_message guest message.role message.content
chat_entry guest is_sending (thinking_item key) =
    thinking_entry (if is_there guest then by_parrot else by_assistant)
chat_entry guest is_sending (error_item key prompt message) = error_entry message is_sending

unfoldable pub chat_thread : Option GuestProfile → List ParrotThreadItem → Bool → List Entry
chat_thread guest items is_sending = map (chat_entry guest is_sending) items

-- The text in the composer, the chat, and whether the history is being loaded.
pub record Desk : Type 0 where
  pub value : String
  pub chat : Chat
  pub is_loading_history : Bool

-- `!!history.data` of the guest's history.
abbrev pub is_history_ready : Chat → Bool
is_history_ready c = elim c.guest [ none ↦ false | some guest ↦ is_there (c.histories guest) ]

unfoldable pub is_disabled : Desk → Bool
is_disabled d =
    composer_disabled d.is_loading_history (is_history_ready d.chat) (is_pending d.chat.in_flight)

-- `submit`; `local_id` is the random identifier of the turn.
unfoldable pub submit : String → Desk → Desk
unfolding is_disabled
submit local_id d =
    let trimmed = trim d.value in
    if is_empty trimmed || is_disabled d
    then d
    else record d { value = ""; chat = send_message local_id trimmed d.chat }

-- What the guest does: writes, presses a key, with shift or not, or the button.
pub data Input : Type 0 where
  types : String → Input
  enters : Bool → String → Input
  other_key : Input
  clicks_send : String → Input

-- The text area and the button do nothing while they are disabled.
unfoldable pub handle : Input → Desk → Desk
unfolding submit is_disabled
handle (types text) d = if is_disabled d then d else record d { value = text }
handle (enters shift local_id) d = if is_disabled d || shift then d else submit local_id d
handle other_key d = d
handle (clicks_send local_id) d =
    if is_disabled d || is_empty (trim d.value) then d else submit local_id d
