-- ===== src/Trim/Truncate.antt =====
-- server/models/trimmer.go: the text of a tool message cut to a number of bytes.
use Prim.Native.String.{String}
use Prim.Native.Char.{code}
use unblink.Base.{
  ℕ, zero, suc, ◌+◌, ◌-◌, ◌*◌, Bool, true, false, ◌&&◌, ◌||◌, List, [], ◌∷◌, ◌++◌, length, take,
  ltb, leb, eqb, if◌then◌else◌,
}

-- The bytes of an ASCII text.
abbrev pub codes : String → List ℕ
codes String.[] = []
codes (String.◌∷◌ c s) = code c ∷ codes s

abbrev pub starts_with : List ℕ → List ℕ → Bool
starts_with [] text = true
starts_with (p ∷ ps) [] = false
starts_with (p ∷ ps) (c ∷ cs) = eqb p c && starts_with ps cs

-- `strings.Contains`
unfoldable pub contains_text : List ℕ → List ℕ → Bool
contains_text part [] = starts_with part []
contains_text part (c ∷ cs) = starts_with part (c ∷ cs) || contains_text part cs

-- `strings.Split` at a separator that is not empty: `skip` bytes of a separator are still to pass,
-- and `piece` is the piece so far.
unfoldable pub split_from : List ℕ → ℕ → List ℕ → List ℕ → List (List ℕ)
split_from sep skip piece [] = piece ∷ []
split_from sep (suc skip) piece (c ∷ cs) = split_from sep skip piece cs
split_from sep zero piece (c ∷ cs) = elim (starts_with sep (c ∷ cs)) [
  | true ↦ piece ∷ split_from sep (length sep - 1) [] cs
  | false ↦ split_from sep zero (piece ++ c ∷ []) cs
]

abbrev pub article_separator : List ℕ
article_separator = 10 ∷ 10 ∷ 45 ∷ 45 ∷ 45 ∷ 10 ∷ 10 ∷ []

abbrev pub article_notice : List ℕ
article_notice = 10 ∷ 10 ∷ codes "[Article content truncated...]"

abbrev pub content_notice : List ℕ
content_notice = 10 ∷ 10 ∷ codes "[Content truncated due to length...]"

abbrev pub separator_for : Bool → List ℕ
separator_for true = []
separator_for false = article_separator

-- The end of the loop of `truncateNewsContent`, at an article that does not fit.
abbrev pub cut_article : ℕ → List ℕ → List ℕ → List ℕ
cut_article max_chars article out =
    let remaining = max_chars - length out in
    if ltb 100 remaining then out ++ (take remaining article ++ article_notice) else out

-- The loop of `truncateNewsContent`. `currentLen` is the length of what has been written; `first`
-- holds in the first round, which writes no separator.
unfoldable pub news_loop : ℕ → Bool → List (List ℕ) → List ℕ → List ℕ
news_loop max_chars first [] out = out
news_loop max_chars first (article ∷ rest) out =
    let separated = out ++ separator_for first in
    let more = news_loop max_chars false rest (separated ++ article) in
    if ltb max_chars (length separated)
    then out
    else if ltb max_chars (length separated + length article)
    then cut_article max_chars article separated
    else more

-- `truncateNewsContent`
unfoldable pub truncate_news_content : List ℕ → ℕ → List ℕ
unfolding news_loop split_from
truncate_news_content content max_chars =
    news_loop max_chars true (split_from article_separator 0 [] content) []

-- `truncateToolContentMaxTokens`. The unused `truncateToolContent` differs by its first test only.
unfoldable pub truncate_tool_content_max_tokens : List ℕ → ℕ → List ℕ
unfolding truncate_news_content contains_text
truncate_tool_content_max_tokens content max_tokens =
    let max_chars = max_tokens * 3 in
    if ltb max_chars 300
    then []
    else if leb (length content) max_chars
    then content
    else if contains_text (codes "## ") content && contains_text (codes "**Source:**") content
    then truncate_news_content content max_chars
    else take max_chars content ++ content_notice
