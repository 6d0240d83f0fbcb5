-- ===== src/Trim/TruncateLaws.antt =====
-- server/models/trimmer.go: how long a truncated text can be.
use unblink.Base.{
  ℕ, ◌≡◌, ◌+◌, ◌-◌, ◌*◌, ◌/◌, ◌≤◌, Bool, true, false, List, [], ◌∷◌, ◌++◌, length, length-append,
  length-take, take, arith,
}
use unblink.Trim.Tokens.{estimate_tokens}
use unblink.Trim.Truncate.{
  article_separator, article_notice, content_notice, separator_for, cut_article, news_loop,
  truncate_news_content, split_from, truncate_tool_content_max_tokens,
}

length-cut_article :
    (max_chars : ℕ) (article out : List ℕ)
    → length out ≤ max_chars
    → length (cut_article max_chars article out) ≤ max_chars + 32
length-cut_article max_chars article out h = ground (
  arith,
  length-append out (take (max_chars - length out) article ++ article_notice),
  length-append (take (max_chars - length out) article) article_notice,
  length-take (max_chars - length out) article,
)

length-news_loop :
    (max_chars : ℕ) (first : Bool) (articles : List (List ℕ)) (out : List ℕ)
    → length out ≤ max_chars
    → length (news_loop max_chars first articles out) ≤ max_chars + 32
unfolding news_loop
length-news_loop max_chars first [] out h = omega arith
length-news_loop max_chars first (article ∷ rest) out h =
    let separated = out ++ separator_for first in
    ground (
      arith,
      length-append separated article,
      length-cut_article max_chars article separated,
      length-news_loop max_chars false rest (separated ++ article),
    )

-- A truncated text is at most 38 bytes longer than the budget of three bytes to a token: the notice
-- at its end is not counted.
pub length-truncate_tool_content_max_tokens :
    (content : List ℕ) (max_tokens : ℕ)
    → length (truncate_tool_content_max_tokens content max_tokens) ≤ max_tokens * 3 + 38
unfolding truncate_tool_content_max_tokens truncate_news_content
length-truncate_tool_content_max_tokens content max_tokens = ground (
  arith,
  length-news_loop (max_tokens * 3) true (split_from article_separator 0 [] content) [],
  length-append (take (max_tokens * 3) content) content_notice,
  length-take (max_tokens * 3) content,
)

pub estimate_tokens-length : (text : List ℕ) → estimate_tokens text ≡ length text / 3
unfolding estimate_tokens
estimate_tokens-length [] = omega arith
estimate_tokens-length (c ∷ cs) = omega arith
