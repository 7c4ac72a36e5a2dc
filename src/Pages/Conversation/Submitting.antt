-- ===== src/Pages/Conversation/Submitting.antt =====
-- frontend/src/features/parrot/components/chat-composer.tsx: what becomes of a text that is submitted.
use webmeow.Prelude.{
  map-append, Option-cases, ap, ◌∙◌, sym, eq_refl, inl, inr, String, ◌≡◌, refl, true, false, none,
  some, is_empty, trim, List, [], ◌∷◌, ◌++◌, arith, is_empty-trim-trim,
}
use webmeow.Island.Session.{GuestProfile}
use webmeow.Parrot.Chat.{
  message_item, thinking_item, of_pending, of_thinking, from_user, Chat, is_pending, start,
  thread_items, history_items, ChatHistoryResponse,
}
use webmeow.Parrot.Chat.Turns.{turn_of, send_starts}
use webmeow.Pages.Conversation.{
  Desk, Entry, message_entry, thinking_entry, by_guest, by_parrot, is_disabled, submit, handle,
  enters, clicks_send, chat_thread, chat_entry,
}

-- The entries of a history.
abbrev pub past : GuestProfile → ChatHistoryResponse → List Entry
past guest history = chat_thread (some guest) (history_items 0 history.messages) true

free_none : (d : Desk) → is_disabled d ≡ false → d.chat.in_flight ≡ none
unfolding is_disabled
free_none d h = elim (Option-cases d.chat.in_flight) [
  | inl e ↦ e
  | inr (turn, e) ↦ absurd (ground (arith, e))
]

-- What the desk is once the guest's text is submitted.
abbrev asked : GuestProfile → String → Desk → Desk
asked guest local_id d = record d {
  value = "";
  chat = start (turn_of guest.id local_id (trim d.value)) d.chat;
}

clicks_send-asked :
    (guest : GuestProfile) (local_id : String) (d : Desk)
    → is_empty guest.id ≡ false
    → d.chat.guest ≡ some guest.id
    → is_disabled d ≡ false
    → is_empty (trim d.value) ≡ false
    → handle (clicks_send local_id) d ≡ asked guest local_id d
unfolding handle submit
clicks_send-asked guest local_id d named signed free text =
    let starts =
      send_starts guest.id local_id (trim d.value) d.chat signed
        (ground (arith, is_empty-trim-trim d.value)) (free_none d free) in
    ground (arith, starts)

enters-asked :
    (guest : GuestProfile) (local_id : String) (d : Desk)
    → is_empty guest.id ≡ false
    → d.chat.guest ≡ some guest.id
    → is_disabled d ≡ false
    → is_empty (trim d.value) ≡ false
    → handle (enters false local_id) d ≡ asked guest local_id d
unfolding handle submit
enters-asked guest local_id d named signed free text =
    rw (sym (clicks_send-asked guest local_id d named signed free text)) (ground arith)

start-thread :
    (guest local_id text : String) (history : ChatHistoryResponse) (c : Chat)
    → c.guest ≡ some guest
    → c.histories guest ≡ some history
    → thread_items (start (turn_of guest local_id text) c)
      ≡ history_items 0 history.messages
        ++ (message_item (of_pending local_id) (from_user (trim text))
            ∷ thinking_item (of_thinking local_id)
            ∷ [])
unfolding thread_items
start-thread guest local_id text history c signed loaded =
    rw (signed, eq_refl guest) (rw loaded refl)

asked-thread :
    (guest : GuestProfile) (history : ChatHistoryResponse) (local_id : String) (d : Desk)
    → d.chat.guest ≡ some guest.id
    → d.chat.histories guest.id ≡ some history
    → chat_thread (some guest) (thread_items (asked guest local_id d).chat) true
      ≡ past guest history
        ++ (message_entry false (some (trim (trim d.value))) (by_guest guest)
            ∷ thinking_entry by_parrot
            ∷ [])
unfolding chat_thread thread_items
asked-thread guest history local_id d signed loaded =
    ap (λ items. chat_thread (some guest) items true)
      (start-thread guest.id local_id (trim d.value) history d.chat signed loaded)
    ∙ map-append (chat_entry (some guest) true) (history_items 0 history.messages) _

-- What the page shows once the text is submitted.
abbrev pub IsAsking : GuestProfile → ChatHistoryResponse → String → Desk → Type 0
IsAsking guest history local_id d =
    let after = handle (clicks_send local_id) d in
    (handle (enters false local_id) d ≡ after)
    × (after.value ≡ "")
    × (is_disabled after ≡ true)
    × (chat_thread (some guest) (thread_items after.chat) (is_pending after.chat.in_flight)
        ≡ past guest history
          ++ (message_entry false (some (trim (trim d.value))) (by_guest guest)
              ∷ thinking_entry by_parrot
              ∷ []))

-- Where the guest of the page is signed in, the history is there, nothing is being sent and the text is
-- not blank, the button empties the composer and disables it, and shows the history, the trimmed text
-- as the guest's message, and that the parrot is thinking; the key without shift does the same.
pub clicks_send-IsAsking :
    (guest : GuestProfile) (history : ChatHistoryResponse) (local_id : String) (d : Desk)
    → is_empty guest.id ≡ false
    → d.chat.guest ≡ some guest.id
    → d.chat.histories guest.id ≡ some history
    → is_disabled d ≡ false
    → is_empty (trim d.value) ≡ false
    → IsAsking guest history local_id d
unfolding handle submit is_disabled chat_thread thread_items
clicks_send-IsAsking guest history local_id d named signed loaded free text =
    rw (clicks_send-asked guest local_id d named signed free text) (
      enters-asked guest local_id d named signed free text,
      refl,
      ground arith,
      asked-thread guest history local_id d signed loaded,
    )
