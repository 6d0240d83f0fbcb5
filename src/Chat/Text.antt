-- ===== src/Chat/Text.antt =====
-- server/chat/service.go and message_send.go: what is saved of a text, and the title made of it.
use unblink.Base.{
  ℕ, Bool, List, [], ◌∷◌, ◌++◌, ◌||◌, ◌&&◌, not, eqb, ltb, leb, if◌then◌else◌, length, take,
  keep_if,
}

-- The code points that `sanitizeForPostgres` leaves.
abbrev pub is_kept : ℕ → Bool
is_kept r =
    not (eqb r 0)
    && not (ltb r 32 && not (eqb r 10 || (eqb r 9 || eqb r 13)))
    && not (leb 55296 r && leb r 57343)

unfoldable pub sanitize_for_postgres : List ℕ → List ℕ
sanitize_for_postgres text = keep_if is_kept text

-- `unicode.IsSpace`
abbrev pub is_space : ℕ → Bool
is_space r =
    (leb 9 r && leb r 13)
    || (eqb r 32
        || (eqb r 133
            || (eqb r 160
                || (eqb r 5760
                    || ((leb 8192 r && leb r 8202)
                        || (eqb r 8232
                            || (eqb r 8233 || (eqb r 8239 || (eqb r 8287 || eqb r 12288)))))))))

abbrev pub trim_left : List ℕ → List ℕ
trim_left [] = []
trim_left (r ∷ text) = let rest = trim_left text in if is_space r then rest else r ∷ text

abbrev pub reversed : List ℕ → List ℕ
reversed [] = []
reversed (r ∷ text) = reversed text ++ r ∷ []

-- `strings.TrimSpace`
unfoldable pub trim_space : List ℕ → List ℕ
trim_space text = reversed (trim_left (reversed (trim_left text)))

-- The title of `maybeGenerateTitle` before a model gives one: at most 60 code points and "…".
unfoldable pub temp_title : List ℕ → List ℕ
temp_title content =
    let title = trim_space content in
    if ltb 60 (length title) then take 60 title ++ 8230 ∷ [] else title
