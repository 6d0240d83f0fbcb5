-- ===== src/Trim/Budget.antt =====
-- server/models/trimmer.go: what the trimmed history costs.
use unblink.Base.{
  ℕ, zero, suc, ◌≡◌, refl, ◌+◌, ◌-◌, ◌*◌, ◌/◌, ◌≤◌, ◌<◌, false, Option, none, some, List, [], ◌∷◌,
  ◌++◌, String, length, arith, leb, if_ind, keep_if, get_elem?, Bool-cases, inl, inr,
}
use unblink.Trim.Tokens.{
  Message, user, system, assistant, tool, developer, unknown, Content, text_of, is_system,
  estimate_content_tokens, estimate_message_tokens, estimate_conversation_tokens,
}
use unblink.Trim.Truncate.{truncate_tool_content_max_tokens}
use unblink.Trim.TruncateLaws.{length-truncate_tool_content_max_tokens, estimate_tokens-length}
use unblink.Trim.{
  Trimmer, Trim, is_in, find_caller, message_at, prepend, mark, cost_between, prepend_between,
  trim_pair, add_pair, step_pair, step_plain, step_message, step, trim_loop, budget_for,
  trim_to_fit,
}

-- A flag outside the range does not change the cost of the range.
cost_between-outside :
    (ms : List Message) (added : List ℕ) (k lo n : ℕ)
    → lo + n ≤ k
    → cost_between ms (k ∷ added) lo n ≡ cost_between ms added lo n
unfolding cost_between
cost_between-outside ms added k lo zero h = refl
cost_between-outside ms added k lo (suc n) h = ground (arith, cost_between-outside ms added k lo n)

cost_between-below :
    (ms : List Message) (added : List ℕ) (k lo n : ℕ)
    → k < lo
    → cost_between ms (k ∷ added) lo n ≡ cost_between ms added lo n
unfolding cost_between
cost_between-below ms added k lo zero h = refl
cost_between-below ms added k lo (suc n) h = ground (arith, cost_between-below ms added k lo n)

-- What is prepended costs what was counted.
prepend_between-cost :
    (ms : List Message) (lo n : ℕ) (st : Trim)
    → estimate_conversation_tokens (prepend_between ms lo n st).conversation
      ≡ estimate_conversation_tokens st.conversation + cost_between ms st.added lo n
unfolding prepend_between cost_between estimate_conversation_tokens
prepend_between-cost ms lo zero st = omega arith
prepend_between-cost ms lo (suc n) st =
    let m = message_at ms (lo + n) in
    ground (
      arith,
      prepend_between-cost ms lo n st,
      prepend_between-cost ms lo n (prepend m (lo + n) st),
      cost_between-outside ms st.added (lo + n) lo n,
    )

-- Within the budget B: what has been spent, and what is left. The one message that `break` follows
-- may pass it by 16 tokens.
pub record Within (b : ℕ) (st : Trim) : Type 0 where
  pub spent : estimate_conversation_tokens st.conversation + st.budget ≤ b + 16
  pub exact : st.finished ≡ false → estimate_conversation_tokens st.conversation + st.budget ≤ b

step_plain-Within :
    (b : ℕ) (m : Message) (i : ℕ) (st : Trim)
    → st.finished ≡ false
    → Within b st
    → Within b (step_plain m i st)
unfolding step_plain estimate_conversation_tokens
step_plain-Within b m i st f w = ground (arith, w.exact f)

add_pair-Within :
    (b : ℕ) (ms : List Message) (caller i cost : ℕ) (m : Message) (st : Trim)
    → st.finished ≡ false
    → cost
      ≡ estimate_message_tokens (message_at ms caller)
        + cost_between ms st.added (suc caller) (i - suc caller)
        + estimate_message_tokens m
    → cost ≤ st.budget
    → Within b st
    → Within b (add_pair ms caller i m cost st)
unfolding add_pair estimate_conversation_tokens
add_pair-Within b ms caller i cost m st f e h w =
    let with_caller = prepend (message_at ms caller) caller st in
    ground (
      arith,
      w.exact f,
      prepend_between-cost ms (suc caller) (i - suc caller) with_caller,
      cost_between-below ms st.added caller (suc caller) (i - suc caller),
    )

tool_text-cost :
    (text : List ℕ) (id : String)
    → estimate_message_tokens (tool (record { of_string = some text; parts = 0 }) id)
      ≡ 4 + length text / 3
unfolding estimate_message_tokens estimate_content_tokens
tool_text-cost text id = ground (arith, estimate_tokens-length text)

trim_pair-Within :
    (b : ℕ) (ms : List Message) (caller i : ℕ) (c : Content) (id : String) (st : Trim)
    → st.finished ≡ false
    → Within b st
    → Within b (trim_pair ms caller i c id st)
unfolding trim_pair estimate_conversation_tokens
trim_pair-Within b ms caller i c id st f w =
    let left = st.budget - estimate_message_tokens (message_at ms caller) in
    let text = truncate_tool_content_max_tokens (text_of c) left in
    ground (
      arith,
      w.exact f,
      w.spent,
      length-truncate_tool_content_max_tokens (text_of c) left,
      tool_text-cost text id,
    )

step_pair-Within :
    (b : ℕ) (ms : List Message) (caller i : ℕ) (c : Content) (id : String) (st : Trim)
    → st.finished ≡ false
    → Within b st
    → Within b (step_pair ms caller i c id st)
unfolding step_pair
step_pair-Within b ms caller i c id st f w =
    let cost =
      estimate_message_tokens (message_at ms caller)
      + cost_between ms st.added (suc caller) (i - suc caller)
      + estimate_message_tokens (tool c id) in
    if_ind (Within b) (leb cost st.budget) (add_pair ms caller i (tool c id) cost st)
      (trim_pair ms caller i c id st)
      (λ fits. add_pair-Within b ms caller i cost (tool c id) st f refl (ground (arith, fits)) w)
      (λ over. trim_pair-Within b ms caller i c id st f w)

step_message-Within :
    (b : ℕ) (ms : List Message) (i : ℕ) (m : Option Message) (st : Trim)
    → st.finished ≡ false
    → Within b st
    → Within b (step_message ms i m st)
unfolding step_message
step_message-Within b ms i none st f w = w
step_message-Within b ms i (some (system c)) st f w = record { spent = w.spent; exact = w.exact }
step_message-Within b ms i (some (tool c id)) st f w =
    elim (find_caller ms i id)
      as (λ o.
        Within b (elim o [ none ↦ mark i st | some caller ↦ step_pair ms caller i c id st ])) [
          | none ↦ record { spent = w.spent; exact = w.exact }
          | some caller ↦ step_pair-Within b ms caller i c id st f w
        ]
step_message-Within b ms i (some (user c)) st f w = step_plain-Within b (user c) i st f w
step_message-Within b ms i (some (assistant c calls)) st f w =
    step_plain-Within b (assistant c calls) i st f w
step_message-Within b ms i (some (developer c)) st f w = step_plain-Within b (developer c) i st f w
step_message-Within b ms i (some unknown) st f w = step_plain-Within b unknown i st f w

trim_loop-Within :
    (b : ℕ) (ms : List Message) (i : ℕ) (st : Trim)
    → st.finished ≡ false
    → Within b st
    → Within b (trim_loop ms i st)
unfolding trim_loop step
trim_loop-Within b ms zero st f w = w
trim_loop-Within b ms (suc i) st f w =
    let next = step ms i st in
    let w' =
      if_ind (Within b) (is_in i st.added) st (step_message ms i (get_elem? ms i) st) (λ _. w)
        (λ _. step_message-Within b ms i (get_elem? ms i) st f w) in
    elim (Bool-cases next.finished) [
      | inl done ↦ rw done w'
      | inr more ↦ rw more (trim_loop-Within b ms i next more w')
    ]

cost-append :
    (xs ys : List Message)
    → estimate_conversation_tokens (xs ++ ys)
      ≡ estimate_conversation_tokens xs + estimate_conversation_tokens ys
unfolding estimate_conversation_tokens
cost-append [] ys = omega arith
cost-append (x ∷ xs) ys = omega (arith, cost-append xs ys)

-- The trimmed history is within the limit: together with the 2000 tokens for the answer and the
-- margin it stays under `max_tokens`, but for 16 tokens of a cut tool message that the budget does
-- not count. The limit must leave room for the system messages, which are always kept.
pub trim_to_fit-cost :
    (t : Trimmer) (ms : List Message)
    → t.max_tokens * t.safety_margin / 100
        + 2000
        + estimate_conversation_tokens (keep_if is_system ms)
      ≤ t.max_tokens
    → estimate_conversation_tokens (trim_to_fit t ms) + t.max_tokens * t.safety_margin / 100 + 2000
      ≤ t.max_tokens + 16
unfolding trim_to_fit
trim_to_fit-cost t ms h =
    let kept = keep_if is_system ms in
    let b = budget_for t kept in
    let st : Trim = record { conversation = []; added = []; budget = b; finished = false } in
    let w : Within b st = unfold estimate_conversation_tokens in omega arith in
    let loop = trim_loop-Within b ms (length ms) st refl w in
    omega (arith, h, loop.spent, cost-append kept (trim_loop ms (length ms) st).conversation)
