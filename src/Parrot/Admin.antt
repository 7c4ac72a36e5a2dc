-- ===== src/Parrot/Admin.antt =====
-- frontend/src/features/parrot/components: what the administrator is shown of the parrot, in
-- parrot-tool-breakdown.tsx, parrot-quality-row.tsx and parrot-conversation-transcript.tsx. The numbers
-- of the metrics are counts. A tool row keeps its payload as it came: its printing is JSON's. Array's
-- `sort` is stable, so it is the insertion sort that is.
pub mod Breakdown
use webmeow.Prelude.{
  ℕ, ◌*◌, String, Bool, true, false, Option, none, some, List, [], ◌∷◌, ◌++◌, map, ltb, leb,
  or_default, is_empty, if◌then◌else◌,
}
use webmeow.Parrot.Chat.{Role, user, assistant}
use webmeow.Pages.RoomSummary.{Fraction}

-- An entry of `tool_calls_by_name`, in the order of `Object.entries`.
pub record ToolCount : Type 0 where
  pub name : String
  pub count : ℕ

-- `.sort((a, b) => b[1] - a[1])`
unfoldable pub insert : ToolCount → List ToolCount → List ToolCount
insert x [] = x ∷ []
insert x (y ∷ ys) = if leb y.count x.count then x ∷ y ∷ ys else y ∷ insert x ys

unfoldable pub sort : List ToolCount → List ToolCount
unfolding insert
sort [] = []
sort (x ∷ xs) = insert x (sort xs)

-- `Math.max(...)` of the counts, which are not negative.
unfoldable pub max_count : List ToolCount → ℕ
max_count [] = 0
max_count (x ∷ xs) = let most = max_count xs in if leb most x.count then x.count else most

pub record ToolBar : Type 0 where
  pub tool : ToolCount
  pub width : Fraction

-- `(count / max) * 100`, which is no number where `max` is 0: the fraction then has the bottom 0.
abbrev pub tool_bar : ℕ → ToolCount → ToolBar
tool_bar most x = record { tool = x; width = record { top = x.count * 100; bottom = most } }

pub data BreakdownView : Type 0 where
  no_tool_calls : BreakdownView
  tool_bars : List ToolBar → BreakdownView

abbrev pub bars_of : List ToolCount → BreakdownView
bars_of [] = no_tool_calls
bars_of (x ∷ xs) = tool_bars (map (tool_bar (max_count (x ∷ xs))) (x ∷ xs))

unfoldable pub tool_breakdown : List ToolCount → BreakdownView
unfolding sort max_count
tool_breakdown by_name = bars_of (sort by_name)

-- The numbers that the row shows.
pub record AdminMetricsResponse : Type 0 where
  pub tool_errors_total : ℕ
  pub conversations_with_tool_error : ℕ
  pub fallback_total : ℕ
  pub conversations_with_fallback : ℕ
  pub censored_messages_total : ℕ
  pub conversations_with_censored : ℕ

pub record QualityItem : Type 0 where
  pub label : String
  pub total : ℕ
  pub conversations : ℕ
  pub flagged : Bool

abbrev pub quality_item : String → ℕ → ℕ → QualityItem
quality_item label total conversations = record {
  label = label;
  total = total;
  conversations = conversations;
  flagged = ltb 0 total;
}

unfoldable pub quality_row : AdminMetricsResponse → List QualityItem
quality_row m =
    quality_item "Tool errors" m.tool_errors_total m.conversations_with_tool_error
    ∷ quality_item "Fallbacks" m.fallback_total m.conversations_with_fallback
    ∷ quality_item "Censored" m.censored_messages_total m.conversations_with_censored
    ∷ []

-- The fields of a call and of an entry that are shown.
pub record TranscriptToolCall : Type 0 where
  pub name : Option String
  pub arguments : Option String

-- `none` is the role `tool`.
pub record TranscriptEntry : Type 0 where
  pub role : Option Role
  pub content : Option String
  pub tool_calls : List TranscriptToolCall
  pub name : Option String

-- What an entry of the transcript is shown as.
pub data Shown : Type 0 where
  result_row call_row : String → String → Shown
  chat_message : Role → String → Shown

abbrev pub call_shown : TranscriptToolCall → Shown
call_shown call = call_row (or_default call.name "unknown") (or_default call.arguments "")

-- `entry.content && ...`
abbrev pub said : Option String → List Shown
said none = []
said (some text) = if is_empty text then [] else chat_message assistant text ∷ []

abbrev pub message_shown : Role → Option String → List Shown
message_shown role none = []
message_shown role (some text) = chat_message role text ∷ []

abbrev pub turn_shown : Role → Option String → List TranscriptToolCall → List Shown
turn_shown role content [] = message_shown role content
turn_shown role content (call ∷ calls) = map call_shown (call ∷ calls) ++ said content

abbrev pub entry_shown : Option Role → TranscriptEntry → List Shown
entry_shown none entry =
    result_row (or_default entry.name "tool") (or_default entry.content "") ∷ []
entry_shown (some role) entry = turn_shown role entry.content entry.tool_calls

unfoldable pub transcript_item : TranscriptEntry → List Shown
transcript_item entry = entry_shown entry.role entry
