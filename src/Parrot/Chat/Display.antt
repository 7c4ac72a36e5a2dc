-- ===== src/Parrot/Chat/Display.antt =====
-- frontend/src/features/parrot/hooks/use-parrot-chat.ts: what the page shows of the chat.
use webmeow.Prelude.{
  ℕ, suc, String, ◌≡◌, refl, ap, sym, ◌∙◌, put, none, some, List, [], ◌∷◌, ◌++◌, eq_refl, arith,
}
use mathlib.Core.List.{append-nil, append_assoc}
use webmeow.Parrot.Chat.{
  ChatHistoryMessage, PendingTurn, ParrotThreadItem, message_item, thinking_item, error_item, Chat,
  append_messages_to_history, from_user, from_assistant, messages_of, history_items, pending_items,
  failed_items, thread_items, succeed, fail, use_parrot_history,
}
use webmeow.Parrot.Chat.Turns.{IsOneTurn}

-- What the chat is once a turn has been answered.
abbrev answered : PendingTurn → String → Chat → Chat
answered turn reply c = record c {
  histories =
      put c.histories turn.guest_id
        (append_messages_to_history (c.histories turn.guest_id) turn reply);
  pending_turn = none;
  failed_turn = none;
  in_flight = none;
}

succeed_answered :
    (turn : PendingTurn) (reply : String) (c : Chat)
    → c.in_flight ≡ some turn
    → succeed reply c ≡ answered turn reply c
unfolding succeed
succeed_answered turn reply c h = ground arith

-- The messages among the items.
abbrev pub shown : List ParrotThreadItem → List ChatHistoryMessage
shown [] = []
shown (message_item key m ∷ rest) = m ∷ shown rest
shown (thinking_item key ∷ rest) = shown rest
shown (error_item key prompt error ∷ rest) = shown rest

shown_history :
    (index : ℕ) (ms : List ChatHistoryMessage) (rest : List ParrotThreadItem)
    → shown (history_items index ms ++ rest) ≡ ms ++ shown rest
shown_history index [] rest = refl
shown_history index (m ∷ ms) rest = ap (λ xs. m ∷ xs) (shown_history (suc index) ms rest)

shown_thread :
    (c : Chat)
    → shown (thread_items c)
      ≡ use_parrot_history c.guest c.histories
        ++ shown (pending_items c.guest c.pending_turn ++ failed_items c.guest c.failed_turn)
unfolding thread_items
shown_thread c =
    shown_history 0 (use_parrot_history c.guest c.histories)
      (pending_items c.guest c.pending_turn ++ failed_items c.guest c.failed_turn)

shown_waiting :
    (turn : PendingTurn) (c : Chat)
    → c.guest ≡ some turn.guest_id
    → c.pending_turn ≡ some turn
    → c.failed_turn ≡ none
    → shown (thread_items c)
      ≡ messages_of (c.histories turn.guest_id) ++ (from_user turn.message ∷ [])
shown_waiting turn c g sent free = ground (arith, shown_thread c, eq_refl turn.guest_id)

shown_failed :
    (turn : PendingTurn) (error : String) (c : Chat)
    → c.guest ≡ some turn.guest_id
    → c.in_flight ≡ some turn
    → shown (thread_items (fail error c))
      ≡ messages_of (c.histories turn.guest_id) ++ (from_user turn.message ∷ [])
unfolding fail
shown_failed turn error c g sent =
    ground (arith, shown_thread (fail error c), eq_refl turn.guest_id)

shown_answered :
    (turn : PendingTurn) (reply : String) (c : Chat)
    → c.guest ≡ some turn.guest_id
    → shown (thread_items (answered turn reply c))
      ≡ messages_of (c.histories turn.guest_id)
        ++ (from_user turn.message ∷ from_assistant reply ∷ [])
shown_answered turn reply c g =
    let own : use_parrot_history c.guest (answered turn reply c).histories
        ≡ messages_of (c.histories turn.guest_id)
          ++ (from_user turn.message ∷ from_assistant reply ∷ []) =
      ground (arith, eq_refl turn.guest_id) in
    shown_thread (answered turn reply c) ∙ append-nil _ ∙ own

-- Where the turn of the session's guest is in flight, in a chat with one turn at a time, the page shows
-- the same messages after the request failed, and the same messages and the reply after it succeeded.
pub shown-settle :
    (turn : PendingTurn) (reply error : String) (c : Chat)
    → IsOneTurn c
    → c.in_flight ≡ some turn
    → c.guest ≡ some turn.guest_id
    → (shown (thread_items (fail error c)) ≡ shown (thread_items c))
      × (shown (thread_items (succeed reply c))
          ≡ shown (thread_items c) ++ (from_assistant reply ∷ []))
shown-settle turn reply error c h sent g =
    let before = shown_waiting turn c g (sym h.0 ∙ sent) (ground arith) in
    (
      shown_failed turn error c g sent ∙ sym before,
      ap (λ d. shown (thread_items d)) (succeed_answered turn reply c sent)
          ∙ shown_answered turn reply c g
          ∙ sym (
              append_assoc (messages_of (c.histories turn.guest_id)) (from_user turn.message ∷ [])
                (from_assistant reply ∷ []))
          ∙ ap (λ ms. ms ++ (from_assistant reply ∷ [])) (sym before),
    )
