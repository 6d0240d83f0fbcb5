-- ===== src/Trim/Order.antt =====
-- server/models/trimmer.go: the order of the messages in the trimmed history.
use unblink.Base.{
  ℕ, zero, suc, ◌≡◌, refl, sym, ap, ◌+◌, ◌-◌, ◌≤◌, true, false, Option, none, some, List, [], ◌∷◌,
  ◌++◌, String, length, arith, leb, keep_if, get_elem?, Bool-cases, inl, inr, ◌∙◌,
}
use unblink.Base.{if_ind, ltb}
use unblink.Trim.Tokens.{text_of}
use unblink.Trim.Truncate.{truncate_tool_content_max_tokens}
use mathlib.Core.List.{append_assoc}
use unblink.Trim.Tokens.{
  Message, user, system, assistant, tool, developer, unknown, Content, is_system,
  estimate_message_tokens,
}
use unblink.Trim.{
  Trimmer, Trim, is_in, find_caller, message_at, prepend, mark, cost_between, prepend_between, stop,
  trim_pair, add_pair, step_pair, step_plain, step_message, step, trim_loop, budget_for,
  trim_to_fit,
}

-- The loop only puts messages in front.
abbrev Fronts : Trim → Trim → Type 0
Fronts st st' = (front : List Message) × (st'.conversation ≡ front ++ st.conversation)

Fronts-trans : (a b c : Trim) → Fronts a b → Fronts b c → Fronts a c
Fronts-trans a b c (f, p) (g, q) =
    (g ++ f, q ∙ ap (λ l. g ++ l) p ∙ sym (append_assoc g f a.conversation))

prepend_between-Fronts :
    (ms : List Message) (lo n : ℕ) (st : Trim) → Fronts st (prepend_between ms lo n st)
unfolding prepend_between
prepend_between-Fronts ms lo zero st = ([], refl)
prepend_between-Fronts ms lo (suc n) st = elim (Bool-cases (is_in (lo + n) st.added)) [
  | inl old ↦ rw (old, prepend_between) (prepend_between-Fronts ms lo n st)
  | inr new ↦
      let m = message_at ms (lo + n) in
      let next = prepend m (lo + n) st in
      rw (new, prepend_between)
        (Fronts-trans st next (prepend_between ms lo n next) (m ∷ [], refl)
          (prepend_between-Fronts ms lo n next))
]

-- A pair that fits is prepended with the tool message in front of the assistant message that it answers.
add_pair-reversed :
    (ms : List Message) (caller i cost : ℕ) (m : Message) (st : Trim)
    → (between : List Message) × ((add_pair ms caller i m cost st).conversation
        ≡ m ∷ (between ++ message_at ms caller ∷ st.conversation))
unfolding add_pair
add_pair-reversed ms caller i cost m st =
    let (between, e) =
      prepend_between-Fronts ms (suc caller) (i - suc caller)
        (prepend (message_at ms caller) caller st) in
    (between, ap (λ l. m ∷ l) e)

step_plain-Fronts : (m : Message) (i : ℕ) (st : Trim) → Fronts st (step_plain m i st)
unfolding step_plain
step_plain-Fronts m i st =
    if_ind (Fronts st) (leb (estimate_message_tokens m) st.budget) _ (stop st) (λ _. (m ∷ [], refl))
      (λ _. ([], refl))

trim_pair-Fronts :
    (ms : List Message) (caller i : ℕ) (c : Content) (id : String) (st : Trim)
    → Fronts st (trim_pair ms caller i c id st)
unfolding trim_pair
trim_pair-Fronts ms caller i c id st =
    let caller_message = message_at ms caller in
    let cost = estimate_message_tokens caller_message in
    let cut : List ℕ → Trim = λ text. elim text [
      | [] ↦ stop st
      | b ∷ bs ↦ record {
        conversation =
            caller_message
            ∷ tool (record { of_string = some (b ∷ bs); parts = 0 }) id
            ∷ st.conversation;
        added = i ∷ caller ∷ st.added;
        budget = 0;
        finished = true;
      }
    ] in
    let each : (text : List ℕ) → Fronts st (cut text) = elim [
      | [] ↦ ([], refl)
      | b ∷ bs ↦
          (caller_message ∷ tool (record { of_string = some (b ∷ bs); parts = 0 }) id ∷ [], refl)
    ] in
    let text = truncate_tool_content_max_tokens (text_of c) (st.budget - cost) in
    if_ind (Fronts st) (ltb st.budget (cost + 500)) (stop st) (cut text) (λ _. ([], refl))
      (λ _. each text)

step_pair-Fronts :
    (ms : List Message) (caller i : ℕ) (c : Content) (id : String) (st : Trim)
    → Fronts st (step_pair ms caller i c id st)
unfolding step_pair
step_pair-Fronts ms caller i c id st =
    let cost =
      estimate_message_tokens (message_at ms caller)
      + cost_between ms st.added (suc caller) (i - suc caller)
      + estimate_message_tokens (tool c id) in
    if_ind (Fronts st) (leb cost st.budget) (add_pair ms caller i (tool c id) cost st)
      (trim_pair ms caller i c id st)
      (λ _.
        let (between, e) = add_pair-reversed ms caller i cost (tool c id) st in
        (
          tool c id ∷ (between ++ message_at ms caller ∷ []),
          e
              ∙ ap (λ l. tool c id ∷ l)
                  (sym (append_assoc between (message_at ms caller ∷ []) st.conversation)),
        ))
      (λ _. trim_pair-Fronts ms caller i c id st)

step_message-Fronts :
    (ms : List Message) (i : ℕ) (m : Option Message) (st : Trim)
    → Fronts st (step_message ms i m st)
unfolding step_message
step_message-Fronts ms i none st = ([], refl)
step_message-Fronts ms i (some (system c)) st = ([], refl)
step_message-Fronts ms i (some (tool c id)) st =
    elim (find_caller ms i id)
      as (λ o.
        Fronts st (elim o [ none ↦ mark i st | some caller ↦ step_pair ms caller i c id st ])) [
          | none ↦ ([], refl)
          | some caller ↦ step_pair-Fronts ms caller i c id st
        ]
step_message-Fronts ms i (some (user c)) st = step_plain-Fronts (user c) i st
step_message-Fronts ms i (some (assistant c calls)) st = step_plain-Fronts (assistant c calls) i st
step_message-Fronts ms i (some (developer c)) st = step_plain-Fronts (developer c) i st
step_message-Fronts ms i (some unknown) st = step_plain-Fronts unknown i st

trim_loop-Fronts : (ms : List Message) (i : ℕ) (st : Trim) → Fronts st (trim_loop ms i st)
unfolding trim_loop step
trim_loop-Fronts ms zero st = ([], refl)
trim_loop-Fronts ms (suc i) st =
    let next = step ms i st in
    let now =
      if_ind (Fronts st) (is_in i st.added) st (step_message ms i (get_elem? ms i) st)
        (λ _. ([], refl)) (λ _. step_message-Fronts ms i (get_elem? ms i) st) in
    if_ind (Fronts st) next.finished next (trim_loop ms i next) (λ _. now)
      (λ _. Fronts-trans st next (trim_loop ms i next) now (trim_loop-Fronts ms i next))

trim_loop-after_step :
    (ms : List Message) (i : ℕ) (st : Trim) → Fronts (step ms i st) (trim_loop ms (suc i) st)
unfolding trim_loop
trim_loop-after_step ms i st =
    let next = step ms i st in
    if_ind (Fronts next) next.finished next (trim_loop ms i next) (λ _. ([], refl))
      (λ _. trim_loop-Fronts ms i next)

step-adds_pair :
    (ms : List Message) (n caller : ℕ) (c : Content) (id : String) (st : Trim)
    → is_in n st.added ≡ false
    → get_elem? ms n ≡ some (tool c id)
    → find_caller ms n id ≡ some caller
    → let cost =
        estimate_message_tokens (message_at ms caller)
        + cost_between ms st.added (suc caller) (n - suc caller)
        + estimate_message_tokens (tool c id) in
      leb cost st.budget ≡ true → step ms n st ≡ add_pair ms caller n (tool c id) cost st
unfolding step step_message step_pair
step-adds_pair ms n caller c id st new last called fits = ground (arith, new, last, called, fits)

-- Where a history ends with a tool message, and that message, the assistant message that called the
-- tool, and all the messages between the two fit the budget together, the trimmed history has the two
-- in reverse: it ends with the assistant message, and the tool message stands in front of it.
pub trim_to_fit-reverses_pair :
    (t : Trimmer) (ms : List Message) (n caller : ℕ) (c : Content) (id : String)
    → length ms ≡ suc n
    → get_elem? ms n ≡ some (tool c id)
    → find_caller ms n id ≡ some caller
    → estimate_message_tokens (message_at ms caller)
        + cost_between ms [] (suc caller) (n - suc caller)
        + estimate_message_tokens (tool c id)
      ≤ budget_for t (keep_if is_system ms)
    → (front between : List Message) × (trim_to_fit t ms
        ≡ front ++ tool c id ∷ (between ++ message_at ms caller ∷ []))
unfolding trim_to_fit
trim_to_fit-reverses_pair t ms n caller c id len last called fits =
    let kept = keep_if is_system ms in
    let st : Trim = record {
      conversation = [];
      added = [];
      budget = budget_for t kept;
      finished = false;
    } in
    let cost =
      estimate_message_tokens (message_at ms caller)
      + cost_between ms [] (suc caller) (n - suc caller)
      + estimate_message_tokens (tool c id) in
    let paired = step-adds_pair ms n caller c id st refl last called (ground (arith, fits)) in
    let (between, pair) = add_pair-reversed ms caller n cost (tool c id) st in
    let (front, all) = trim_loop-after_step ms n st in
    (
      kept ++ front,
      between,
      rw len (
          ap (λ l. kept ++ l)
            (all ∙ ap (λ (x : Trim). front ++ x.conversation) paired ∙ ap (λ l. front ++ l) pair)
          ∙ sym (append_assoc kept front (tool c id ∷ (between ++ message_at ms caller ∷ [])))),
    )
