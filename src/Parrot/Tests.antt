-- ===== src/Parrot/Tests.antt =====
-- The parrot's chat (frontend/src/features/parrot/hooks/use-parrot-chat.ts) at concrete inputs.
use webmeow.Parrot.Admin.{
  ToolCount, tool_breakdown, tool_bars, transcript_item, call_row, result_row, chat_message,
  quality_row, QualityItem,
}
use webmeow.Parrot.Admin.Breakdown.{IsBreakdown, tool_breakdown-IsBreakdown}
use webmeow.Prelude.{
  ◌≡◌, refl, arith, none, map, true, false, some, List, [], ◌∷◌, empty, is_space, trim,
}
use webmeow.Parrot.Chat.{
  user, assistant, Chat, opened, from_user, send_message, succeed, thread_items, Event, sends,
  retries, succeeds, fails, signs_in, happen_all,
}
use webmeow.Parrot.Chat.Turns.{
  IsOneTurn, happen_all-IsOneTurn, IsAnswered, fail_and_retry, send-fail_and_retry,
}
use webmeow.Parrot.Chat.Display.{shown}

abbrev ann_opens : Chat
ann_opens = opened (some "ann") empty

abbrev talk : List Event
talk =
    sends "m1" " hello "
    ∷ sends "m2" "again"
    ∷ fails "timeout"
    ∷ signs_in (some "bob")
    ∷ retries
    ∷ succeeds "squawk"
    ∷ sends "m3" "  "
    ∷ []

happen_all-IsOneTurn_example : IsOneTurn (happen_all talk ann_opens)
happen_all-IsOneTurn_example = happen_all-IsOneTurn talk ann_opens (refl, tt, tt)

send-fail_and_retry_example :
    (fail_and_retry ("timeout" ∷ "down" ∷ []) (send_message "m1" " hello " ann_opens)
      ≡ send_message "m1" " hello " ann_opens)
    × IsAnswered "ann" " hello " "squawk" ann_opens (
        succeed "squawk"
          (fail_and_retry ("timeout" ∷ "down" ∷ []) (send_message "m1" " hello " ann_opens)))
unfolding trim is_space
send-fail_and_retry_example =
    send-fail_and_retry "ann" "m1" " hello " ("timeout" ∷ "down" ∷ []) "squawk" ann_opens refl refl
      refl

abbrev waiting : Chat
unfolding send_message trim is_space
waiting = send_message "m1" " hello " ann_opens

trimmed_message_is_shown : shown (thread_items waiting) ≡ from_user "hello" ∷ []
unfolding waiting send_message trim is_space thread_items
trimmed_message_is_shown = refl

abbrev counted : List ToolCount
counted =
    record { name = "weather"; count = 2 }
    ∷ record { name = "rooms"; count = 5 }
    ∷ record { name = "gates"; count = 2 }
    ∷ []

breakdown_runs :
    tool_breakdown counted
    ≡ tool_bars (
        record {
          tool = record { name = "rooms"; count = 5 };
          width = record { top = 500; bottom = 5 };
        }
        ∷ record {
          tool = record { name = "weather"; count = 2 };
          width = record { top = 200; bottom = 5 };
        }
        ∷ record {
          tool = record { name = "gates"; count = 2 };
          width = record { top = 200; bottom = 5 };
        }
        ∷ [])
unfolding tool_breakdown
breakdown_runs = refl

tool_breakdown-IsBreakdown_example : IsBreakdown counted (tool_breakdown counted)
tool_breakdown-IsBreakdown_example =
    tool_breakdown-IsBreakdown counted (omega arith, (omega arith, (omega arith, tt)))

-- Calls are shown before what is said with them, and an empty text is then left out.
calls_are_shown :
    transcript_item (record {
      role = some assistant;
      content = some "";
      tool_calls = record { name = none; arguments = some "{}" } ∷ [];
      name = none;
    })
    ≡ call_row "unknown" "{}" ∷ []
unfolding transcript_item
calls_are_shown = refl

result_is_shown :
    transcript_item (record { role = none; content = none; tool_calls = []; name = none })
    ≡ result_row "tool" "" ∷ []
unfolding transcript_item
result_is_shown = refl

empty_text_is_shown :
    transcript_item (record { role = some user; content = some ""; tool_calls = []; name = none })
    ≡ chat_message user "" ∷ []
unfolding transcript_item
empty_text_is_shown = refl

quality_is_flagged :
    map
      (λ (i : QualityItem). i.flagged)
      (quality_row (record {
        tool_errors_total = 0;
        conversations_with_tool_error = 0;
        fallback_total = 3;
        conversations_with_fallback = 1;
        censored_messages_total = 0;
        conversations_with_censored = 0;
      }))
    ≡ false ∷ true ∷ false ∷ []
unfolding quality_row
quality_is_flagged = refl
