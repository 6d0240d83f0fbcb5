-- ===== src/Trim/Tokens.antt =====
-- server/models/tokens.go: the messages of the chat API as the trimmer reads them, and the token
-- estimate of each. A struct of pointers of which one is set is a data type with a constructor for
-- each; `unknown` has none set.
use unblink.Base.{ℕ, ◌+◌, ◌/◌, Bool, true, false, Option, none, some, List, [], ◌∷◌, String, length}

-- A content union: a text, or an array of parts of which only the number counts.
pub record Content : Type 0 where
  pub of_string : Option (List ℕ)
  pub parts : ℕ

pub record FunctionCall : Type 0 where
  pub id : String
  pub name : List ℕ
  pub arguments : List ℕ

pub record ToolCall : Type 0 where
  pub function : Option FunctionCall

pub data Message : Type 0 where
  user system developer : Content → Message
  assistant : Content → List ToolCall → Message
  tool : Content → String → Message
  unknown : Message

abbrev pub is_system : Message → Bool
is_system (system c) = true
is_system _ = false

-- `extractToolContent`
abbrev pub text_of : Content → List ℕ
text_of c = elim c.of_string [ none ↦ [] | some t ↦ t ]

-- `EstimateTokens`: three bytes to a token.
unfoldable pub estimate_tokens : List ℕ → ℕ
estimate_tokens [] = 0
estimate_tokens (c ∷ cs) = length (c ∷ cs) / 3

abbrev pub estimate_parts : ℕ → ℕ
estimate_parts n = elim n [ Prim.Native.Nat.zero ↦ 0 | Prim.Native.Nat.suc k ↦ 500 ]

-- `estimateUserContentTokens` and its four copies for the other roles.
unfoldable pub estimate_content_tokens : Content → ℕ
unfolding estimate_tokens
estimate_content_tokens c = elim c.of_string [
  | none ↦ estimate_parts c.parts
  | some t ↦ estimate_tokens t
]

-- `estimateToolCallTokens`
unfoldable pub estimate_tool_call_tokens : ToolCall → ℕ
unfolding estimate_tokens
estimate_tool_call_tokens call = elim call.function [
  | none ↦ 10
  | some f ↦ 10 + estimate_tokens f.name + estimate_tokens f.arguments
]

unfoldable pub sum_tool_calls : List ToolCall → ℕ
unfolding estimate_tool_call_tokens
sum_tool_calls [] = 0
sum_tool_calls (c ∷ cs) = estimate_tool_call_tokens c + sum_tool_calls cs

-- `EstimateMessageTokens`
unfoldable pub estimate_message_tokens : Message → ℕ
unfolding estimate_content_tokens sum_tool_calls
estimate_message_tokens (user c) = 4 + estimate_content_tokens c
estimate_message_tokens (system c) = 4 + estimate_content_tokens c
estimate_message_tokens (assistant c calls) = 4 + estimate_content_tokens c + sum_tool_calls calls
estimate_message_tokens (tool c id) = 4 + estimate_content_tokens c
estimate_message_tokens (developer c) = 4 + estimate_content_tokens c
estimate_message_tokens unknown = 4

-- `EstimateConversationTokens`
unfoldable pub estimate_conversation_tokens : List Message → ℕ
estimate_conversation_tokens [] = 0
estimate_conversation_tokens (m ∷ ms) = estimate_message_tokens m + estimate_conversation_tokens ms
