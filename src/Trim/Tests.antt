-- ===== src/Trim/Tests.antt =====
-- server/models/trimmer.go on short histories under a small budget.
use unblink.Base.{
  ◌≡◌, ◌≤◌, ◌+◌, ◌*◌, ◌/◌, ◌++◌, refl, some, List, [], ◌∷◌, String, arith, keep_if, string_eq,
}
use unblink.Trim.Tokens.{
  Content, Message, user, system, assistant, tool, ToolCall, is_system, estimate_tokens,
  estimate_content_tokens, estimate_tool_call_tokens, sum_tool_calls, estimate_message_tokens,
  estimate_conversation_tokens,
}
use unblink.Trim.Truncate.{codes}
use unblink.Trim.{Trimmer, find_caller, cost_between, budget_for, trim_to_fit}
use unblink.Trim.Budget.{trim_to_fit-cost}
use unblink.Trim.Plain.{IsLongestEnd, trim_to_fit-plain}
use unblink.Trim.Order.{trim_to_fit-reverses_pair}

abbrev trimmer : Trimmer
trimmer = record { max_tokens = 8000; safety_margin = 10 }

abbrev text : String → Content
text s = record { of_string = some (codes s); parts = 0 }

abbrev search_call : ToolCall
search_call = record {
  function = some (record { id = "call_1"; name = codes "search"; arguments = codes "{}" });
}

abbrev result : Content
result = text "no person was seen"

abbrev plain_history : List Message
plain_history = system (text "You watch cameras.") ∷ user (text "Who was there?") ∷ []

abbrev history : List Message
history =
    system (text "You watch cameras.")
    ∷ user (text "Who was there?")
    ∷ assistant (text "") (search_call ∷ [])
    ∷ tool result "call_1"
    ∷ []

trim_to_fit-cost_example :
    estimate_conversation_tokens (trim_to_fit trimmer history) + 8000 * 10 / 100 + 2000 ≤ 8000 + 16
unfolding estimate_conversation_tokens estimate_message_tokens estimate_content_tokens
    estimate_tokens
trim_to_fit-cost_example = trim_to_fit-cost trimmer history (omega arith)

trim_to_fit-plain_example :
    (kept : List Message) × (trim_to_fit trimmer plain_history
      ≡ keep_if is_system plain_history ++ kept)
    × IsLongestEnd (budget_for trimmer (keep_if is_system plain_history)) plain_history kept
trim_to_fit-plain_example = trim_to_fit-plain trimmer plain_history (refl, (refl, tt))

trim_to_fit-reverses_pair_example :
    (front between : List Message) × (trim_to_fit trimmer history
      ≡ front ++ tool result "call_1" ∷ (between ++ assistant (text "") (search_call ∷ []) ∷ []))
unfolding find_caller budget_for cost_between string_eq estimate_conversation_tokens
    estimate_message_tokens estimate_content_tokens estimate_tokens estimate_tool_call_tokens
    sum_tool_calls
trim_to_fit-reverses_pair_example =
    trim_to_fit-reverses_pair trimmer history 3 2 result "call_1" refl refl refl (omega arith)
