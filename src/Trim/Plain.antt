-- ===== src/Trim/Plain.antt =====
-- server/models/trimmer.go on a history without tool messages.
use unblink.Base.{
  ℕ, zero, suc, ◌≡◌, refl, ap, ◌+◌, ◌-◌, ◌≤◌, ◌<◌, Bool, true, false, not, some, List, [], ◌∷◌,
  ◌++◌, length, drop, All, arith, leb, keep_if, get_elem?, inl, inr, ◌⊎◌,
}
use unblink.Base.{if_ind}
use unblink.Trim.Tokens.{
  Message, user, system, assistant, tool, developer, unknown, is_system, estimate_message_tokens,
  estimate_conversation_tokens,
}
use unblink.Trim.{
  Trimmer, Trim, is_in, prepend, stop, step_plain, step_message, step, trim_loop, budget_for,
  trim_to_fit,
}

abbrev pub is_tool : Message → Bool
is_tool (tool c id) = true
is_tool _ = false

abbrev pub HasNoTool : List Message → Type 0
HasNoTool = All (λ m. is_tool m ≡ false)

abbrev pub chat : List Message → List Message
chat = keep_if (λ m. not (is_system m))

drop-get_elem? :
    (i : ℕ) (ms : List Message)
    → i < length ms
    → HasNoTool ms
    → (m : Message) × (get_elem? ms i ≡ some m)
      × (drop i ms ≡ m ∷ drop (suc i) ms)
      × (is_tool m ≡ false)
drop-get_elem? i [] h p = absurd (omega arith)
drop-get_elem? zero (m ∷ ms) h p = (m, refl, refl, p.0)
drop-get_elem? (suc i) (m ∷ ms) h p = drop-get_elem? i ms (omega arith) p.1

drop-all : (ms : List Message) → drop (length ms) ms ≡ []
drop-all [] = refl
drop-all (m ∷ ms) = drop-all ms

is_in-above : (i : ℕ) (added : List ℕ) → All (λ j. i < j) added → is_in i added ≡ false
is_in-above i [] a = refl
is_in-above i (j ∷ js) (h, a) = ground (arith, is_in-above i js a)

-- The loop with all indices from i on behind it.
record Behind (b i : ℕ) (ms : List Message) (st : Trim) : Type 0 where
  kept : st.conversation ≡ chat (drop i ms)
  left : estimate_conversation_tokens st.conversation + st.budget ≡ b
  above : All (λ j. i ≤ j) st.added
  running : st.finished ≡ false

-- What is kept: the chat messages from index i on. They fit, and one more message would not.
pub record IsLongestEnd (b : ℕ) (ms kept : List Message) : Type 0 where
  pub from : ℕ
  pub is_end : kept ≡ chat (drop from ms)
  pub fits : estimate_conversation_tokens kept ≤ b
  pub longest :
      (from ≡ 0)
      ⊎ ((k : ℕ) × (from ≡ suc k) × (b < estimate_conversation_tokens (chat (drop k ms))))

weaken : (i : ℕ) (added : List ℕ) → All (λ j. suc i ≤ j) added → All (λ j. i ≤ j) added
weaken i [] a = tt
weaken i (j ∷ js) (h, a) = (omega arith, weaken i js a)

abbrev Round : ℕ → ℕ → List Message → Trim → Type 0
Round b i ms next =
    Behind b i ms next ⊎ ((next.finished ≡ true) × IsLongestEnd b ms next.conversation)

step_plain-Round :
    (b i : ℕ) (ms : List Message) (m : Message) (st : Trim)
    → chat (drop i ms) ≡ m ∷ chat (drop (suc i) ms)
    → Behind b (suc i) ms st
    → Round b i ms (step_plain m i st)
unfolding step_plain estimate_conversation_tokens
step_plain-Round b i ms m st here h =
    if_ind (Round b i ms) (leb (estimate_message_tokens m) st.budget)
      (record (prepend m i st) { budget = st.budget - estimate_message_tokens m }) (stop st)
      (λ fits. inl (record {
        kept = ground (arith, here, h.kept);
        left = ground (arith, fits, h.left);
        above = (omega arith, weaken i st.added h.above);
        running = h.running;
      }))
      (λ over. inr (
        refl,
        record {
          from = suc i;
          is_end = h.kept;
          fits = omega (arith, h.left);
          longest = inr (
            i,
            refl,
            ground (
              arith,
              over,
              h.left,
              ap estimate_conversation_tokens here,
              ap estimate_conversation_tokens h.kept,
            ),
          );
        },
      ))

-- One round at a message that is no tool message.
step_message-Round :
    (b i : ℕ) (ms : List Message) (m : Message) (st : Trim)
    → drop i ms ≡ m ∷ drop (suc i) ms
    → is_tool m ≡ false
    → Behind b (suc i) ms st
    → Round b i ms (step_message ms i (some m) st)
unfolding step_message
step_message-Round b i ms (user c) st here plain h = step_plain-Round b i ms (user c) st (rw here) h
step_message-Round b i ms (system c) st here plain h = inl (record {
  kept = rw here h.kept;
  left = h.left;
  above = (omega arith, weaken i st.added h.above);
  running = h.running;
})
step_message-Round b i ms (assistant c calls) st here plain h =
    step_plain-Round b i ms (assistant c calls) st (rw here) h
step_message-Round b i ms (developer c) st here plain h =
    step_plain-Round b i ms (developer c) st (rw here) h
step_message-Round b i ms (tool c id) st here plain h = cc
step_message-Round b i ms unknown st here plain h = step_plain-Round b i ms unknown st (rw here) h

trim_loop-IsLongestEnd :
    (b i : ℕ) (ms : List Message) (st : Trim)
    → HasNoTool ms
    → i ≤ length ms
    → Behind b i ms st
    → IsLongestEnd b ms (trim_loop ms i st).conversation
unfolding trim_loop
trim_loop-IsLongestEnd b zero ms st p le h = record {
  from = 0;
  is_end = h.kept;
  fits = omega (arith, h.left);
  longest = inl refl;
}
trim_loop-IsLongestEnd b (suc i) ms st p le h =
    let (m, at, here, plain) = drop-get_elem? i ms le p in
    let next = step ms i st in
    let round : Round b i ms next =
      unfold step in
      rw (is_in-above i st.added h.above, at) (step_message-Round b i ms m st here plain h) in
    elim round [
      | inl more ↦ simp more.running (trim_loop-IsLongestEnd b i ms next p (omega arith) more)
      | inr (done, longest) ↦ simp done longest
    ]

-- Of a history without tool messages the trimmer keeps the system messages, in order, and of the
-- rest the longest end that fits the budget: all that is kept fits, and with one message more it
-- would not, unless everything is kept.
pub trim_to_fit-plain :
    (t : Trimmer) (ms : List Message)
    → HasNoTool ms
    → (kept : List Message) × (trim_to_fit t ms ≡ keep_if is_system ms ++ kept)
      × IsLongestEnd (budget_for t (keep_if is_system ms)) ms kept
unfolding trim_to_fit
trim_to_fit-plain t ms p =
    let b = budget_for t (keep_if is_system ms) in
    let st : Trim = record { conversation = []; added = []; budget = b; finished = false } in
    let start : Behind b (length ms) ms st = record {
      kept = rw (drop-all ms);
      left = unfold estimate_conversation_tokens in omega arith;
      above = tt;
      running = refl;
    } in
    (
      (trim_loop ms (length ms) st).conversation,
      refl,
      trim_loop-IsLongestEnd b (length ms) ms st p (omega arith) start,
    )
