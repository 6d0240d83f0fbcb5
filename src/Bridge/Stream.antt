-- ===== src/Bridge/Stream.antt =====
-- server/bridge_conn.go: `Read` as a stream of bytes over the chunks.
use unblink.Base.{
  ℕ, zero, suc, ◌≡◌, refl, sym, ap, ◌∙◌, ◌≤◌, ◌<◌, false, List, [], ◌∷◌, ◌++◌, length, take, drop,
  arith, take-append-drop, length-take,
}
use mathlib.Core.List.{append_assoc}
use unblink.Bridge.{
  BridgeConn, ReadResult, bytes, eof, deadline_exceeded, waits, is_past, receive, read,
}

abbrev pub flatten : List (List ℕ) → List ℕ
flatten [] = []
flatten (x ∷ xs) = x ++ flatten xs

-- What has come in and has not been read.
abbrev pub pending : BridgeConn → List ℕ
pending c = c.read_buf ++ flatten c.chunks

abbrev pub given : ReadResult → List ℕ
given (bytes p) = p
given eof = []
given deadline_exceeded = []
given waits = []

-- A split of the data at hand, of at most `size` bytes.
abbrev pub Splits : ℕ → BridgeConn → BridgeConn × ReadResult → Type 0
Splits size c (c', r) = (pending c ≡ given r ++ pending c') × (length (given r) ≤ size)

receive-Splits :
    (size now : ℕ) (c : BridgeConn) (chunks : List (List ℕ))
    → c.read_buf ≡ []
    → c.chunks ≡ chunks
    → Splits size c (receive size now c)
unfolding receive
receive-Splits size now c [] e h = ground arith
receive-Splits size now c (chunk ∷ rest) e h = ground (
  arith,
  sym (append_assoc (take size chunk) (drop size chunk) (flatten rest)),
  append_assoc (take size chunk) (drop size chunk) (flatten rest),
  take-append-drop size chunk,
  length-take size chunk,
)

read_buf-Splits :
    (size now : ℕ) (c : BridgeConn) (buf : List ℕ)
    → c.read_buf ≡ buf
    → Splits size c (read size now c)
unfolding read
read_buf-Splits size now c [] e = ground (arith, receive-Splits size now c c.chunks e refl)
read_buf-Splits size now c (b ∷ bs) e = ground (
  arith,
  append_assoc (take size (b ∷ bs)) (drop size (b ∷ bs)) (flatten c.chunks),
  take-append-drop size (b ∷ bs),
  length-take size (b ∷ bs),
)

-- A `Read` gives the first bytes of what is pending, at most as many as the buffer holds, and keeps
-- the rest in order, whatever its result.
pub read-Splits :
    (size now : ℕ) (c : BridgeConn)
    → (pending c ≡ given (read size now c).1 ++ pending (read size now c).0)
      × (length (given (read size now c).1) ≤ size)
read-Splits size now c = read_buf-Splits size now c c.read_buf refl

-- Reads one after the other, each with its buffer size and its time.
pub read_all : List (ℕ × ℕ) → BridgeConn → BridgeConn × List ℕ
read_all [] c = (c, [])
read_all ((size, now) ∷ rest) c =
    let (c', r) = read size now c in let (c'', more) = read_all rest c' in (c'', given r ++ more)

-- However the reads are sized and timed, together they give the first bytes of the chunks, in
-- order, with none lost and none doubled.
pub read_all-stream :
    (reads : List (ℕ × ℕ)) (c : BridgeConn)
    → pending c ≡ (read_all reads c).1 ++ pending (read_all reads c).0
unfolding read_all
read_all-stream [] c = refl
read_all-stream ((size, now) ∷ rest) c =
    let (c', r) = read size now c in
    (read-Splits size now c).0
    ∙ ap (λ l. given r ++ l) (read_all-stream rest c')
    ∙ sym (append_assoc (given r) (read_all rest c').1 (pending (read_all rest c').0))

-- An open connection whose read deadline is not past makes progress: if a chunk that is not empty is
-- next in its channel, a `Read` with room for a byte gives at least one.
pub read_progress :
    (size now : ℕ) (c : BridgeConn) (b : ℕ) (bs : List ℕ) (rest : List (List ℕ))
    → c.closed ≡ false
    → is_past c.read_deadline now ≡ false
    → c.chunks ≡ (b ∷ bs) ∷ rest
    → 0 < size
    → 0 < length (given (read size now c).1)
unfolding read receive
read_progress (suc size) now c b bs rest open_ on_time e h = ground arith
read_progress zero now c b bs rest open_ on_time e h = absurd (omega arith)
