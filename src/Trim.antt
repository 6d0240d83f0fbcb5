-- ===== src/Trim.antt =====
-- server/models/trimmer.go: chat histories cut to a token budget, from the newest message back. Text
-- is a list of bytes. Token counts are Go ints on 64 bits, far from their bounds.
pub mod Tokens
pub mod Truncate
pub mod TruncateLaws
mod Tests
pub mod Budget
pub mod Plain
pub mod Order
use unblink.Base.{
  ℕ, zero, suc, ◌+◌, ◌-◌, ◌*◌, ◌/◌, Bool, true, false, Option, none, some, List, [], ◌∷◌, ◌++◌,
  String, get_elem?, length, ltb, leb, eqb, if◌then◌else◌, ◌==◌, string_eq, keep_if,
}
use unblink.Base.Int.{ℤ, pos, negsuc, sub_ℕ}
use Tokens.{
  Message, user, system, assistant, tool, developer, unknown, Content, text_of, ToolCall,
  estimate_message_tokens, estimate_conversation_tokens, is_system,
}
use Truncate.{truncate_tool_content_max_tokens}

-- `Trimmer`; the margin is a percentage.
pub record Trimmer : Type 0 where
  pub max_tokens : ℕ
  pub safety_margin : ℕ

abbrev pub is_in : ℕ → List ℕ → Bool
is_in i [] = false
is_in i (j ∷ js) = if eqb i j then true else is_in i js

-- The variables of the loop of `TrimToFit`. `added` holds the indices whose flag is set, and
-- `finished` says that the loop was left by `break`.
pub record Trim : Type 0 where
  pub conversation : List Message
  pub added : List ℕ
  pub budget : ℕ
  pub finished : Bool

abbrev pub calls_tool : String → List ToolCall → Bool
calls_tool id [] = false
calls_tool id (c ∷ cs) = elim c.function [
  | none ↦ calls_tool id cs
  | some f ↦ if f.id == id then true else calls_tool id cs
]

abbrev pub is_caller : String → Option Message → Bool
is_caller id (some (assistant c calls)) = calls_tool id calls
is_caller id _ = false

-- `findCallerWithToolCallID`: the index of the nearest caller below i, if there is one.
unfoldable pub find_caller : List Message → ℕ → String → Option ℕ
find_caller ms zero id = none
find_caller ms (suc i) id =
    let rest = find_caller ms i id in if is_caller id (get_elem? ms i) then some i else rest

abbrev pub message_at : List Message → ℕ → Message
message_at ms i = elim (get_elem? ms i) [ none ↦ unknown | some m ↦ m ]

abbrev pub prepend : Message → ℕ → Trim → Trim
prepend m i st = record st { conversation = m ∷ st.conversation; added = i ∷ st.added }

abbrev pub mark : ℕ → Trim → Trim
mark i st = record st { added = i ∷ st.added }

-- The cost of the messages from lo on, n of them, that are not in the conversation yet.
unfoldable pub cost_between : List Message → List ℕ → ℕ → ℕ → ℕ
cost_between ms added lo zero = 0
cost_between ms added lo (suc n) =
    cost_between ms added lo n
    + (if is_in (lo + n) added then 0 else estimate_message_tokens (message_at ms (lo + n)))

-- They are prepended from the last to the first.
unfoldable pub prepend_between : List Message → ℕ → ℕ → Trim → Trim
prepend_between ms lo zero st = st
prepend_between ms lo (suc n) st =
    prepend_between ms lo n
      (if is_in (lo + n) st.added then st else prepend (message_at ms (lo + n)) (lo + n) st)

abbrev pub stop : Trim → Trim
stop st = record st { finished = true }

-- The pair does not fit: the tool's text is cut to what is left after the caller.
unfoldable pub trim_pair : List Message → ℕ → ℕ → Content → String → Trim → Trim
trim_pair ms caller i content id st =
    let caller_message = message_at ms caller in
    let cost = estimate_message_tokens caller_message in
    if ltb st.budget (cost + 500)
    then stop st
    else elim (truncate_tool_content_max_tokens (text_of content) (st.budget - cost)) [
      | [] ↦ stop st
      | c ∷ cs ↦ record {
        conversation =
            caller_message
            ∷ tool (record { of_string = some (c ∷ cs); parts = 0 }) id
            ∷ st.conversation;
        added = i ∷ caller ∷ st.added;
        budget = 0;
        finished = true;
      }
    ]

-- The pair fits, with what stands between: the caller is prepended first and the tool last.
unfoldable pub add_pair : List Message → ℕ → ℕ → Message → ℕ → Trim → Trim
add_pair ms caller i message cost st =
    let with_caller = prepend (message_at ms caller) caller st in
    let with_between = prepend_between ms (suc caller) (i - suc caller) with_caller in
    record (prepend message i with_between) { budget = st.budget - cost }

-- A tool message at i whose caller stands at the index found.
unfoldable pub step_pair : List Message → ℕ → ℕ → Content → String → Trim → Trim
step_pair ms caller i content id st =
    let message = tool content id in
    let cost =
      estimate_message_tokens (message_at ms caller)
      + cost_between ms st.added (suc caller) (i - suc caller)
      + estimate_message_tokens message in
    if leb cost st.budget
    then add_pair ms caller i message cost st
    else trim_pair ms caller i content id st

-- A message that stands for itself.
unfoldable pub step_plain : Message → ℕ → Trim → Trim
step_plain m i st =
    let cost = estimate_message_tokens m in
    if leb cost st.budget then record (prepend m i st) { budget = st.budget - cost } else stop st

unfoldable pub step_message : List Message → ℕ → Option Message → Trim → Trim
step_message ms i none st = st
step_message ms i (some (system c)) st = mark i st
step_message ms i (some (tool c id)) st = elim (find_caller ms i id) [
  | none ↦ mark i st
  | some caller ↦ step_pair ms caller i c id st
]
step_message ms i (some (user c)) st = step_plain (user c) i st
step_message ms i (some (assistant c calls)) st = step_plain (assistant c calls) i st
step_message ms i (some (developer c)) st = step_plain (developer c) i st
step_message ms i (some unknown) st = step_plain unknown i st

-- The body of the loop at index i.
unfoldable pub step : List Message → ℕ → Trim → Trim
step ms i st = if is_in i st.added then st else step_message ms i (get_elem? ms i) st

-- The loop over the indices below i, downwards.
unfoldable pub trim_loop : List Message → ℕ → Trim → Trim
trim_loop ms zero st = st
trim_loop ms (suc i) st =
    let next = step ms i st in
    let rest = trim_loop ms i next in if next.finished then next else rest

-- `maxTokens - maxTokens*safetyMargin/100 - 2000`, less the system messages, and 0 if negative.
unfoldable pub budget_for : Trimmer → List Message → ℕ
budget_for t system_messages =
    t.max_tokens
    - (t.max_tokens * t.safety_margin / 100 + 2000 + estimate_conversation_tokens system_messages)

-- `TrimToFit`; the error that it returns is always nil.
unfoldable pub trim_to_fit : Trimmer → List Message → List Message
unfolding budget_for
trim_to_fit t ms =
    let system_messages = keep_if is_system ms in
    system_messages
    ++ (trim_loop ms (length ms) (record {
      conversation = [];
      added = [];
      budget = budget_for t system_messages;
      finished = false;
    })).conversation
