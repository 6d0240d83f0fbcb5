-- ===== src/Bridge.antt =====
-- server/bridge_conn.go: a bridge as a `net.Conn`. `Read` cuts the chunks of the data channel to the
-- caller's buffer. Times are in nanoseconds; a zero time is `none`. A lock is held through each
-- critical section, and a `Read` that waits is run again when something has arrived.
pub mod Stream
mod Tests
use unblink.Base.{
  ℕ, ◌+◌, ◌-◌, Bool, true, false, Option, none, some, List, [], ◌∷◌, ◌++◌, length, take, drop, ltb,
  leb, if◌then◌else◌,
}

pub record BridgeConn : Type 0 where
  pub closed : Bool
  pub chunks : List (List ℕ)  -- the data channel
  pub channel_closed : Bool
  pub read_buf : List ℕ
  pub read_deadline : Option ℕ
  pub write_deadline : Option ℕ
  pub last_data_time : ℕ

-- `NewBridgeConn`
unfoldable pub new_bridge_conn : List (List ℕ) → ℕ → BridgeConn
new_bridge_conn chunks now = record {
  closed = false;
  chunks = chunks;
  channel_closed = false;
  read_buf = [];
  read_deadline = none;
  write_deadline = none;
  last_data_time = now;
}

-- What `Read` returns; `waits`: it blocks.
pub data ReadResult : Type 0 where
  bytes : List ℕ → ReadResult
  eof deadline_exceeded waits : ReadResult

-- `deadline` is set and not after `now`.
abbrev pub is_past : Option ℕ → ℕ → Bool
is_past none now = false
is_past (some d) now = leb d now

-- The `select` of `Read`: a chunk, the end of the channel, or nothing yet.
unfoldable pub receive : ℕ → ℕ → BridgeConn → BridgeConn × ReadResult
receive size now c = elim c.chunks [
  | [] ↦ if c.channel_closed then (c, eof) else (c, waits)
  | chunk ∷ rest ↦ (
    record c { chunks = rest; last_data_time = now; read_buf = drop size chunk },
    bytes (take size chunk),
  )
]

-- `Read` with a buffer of `size` bytes. Data left from the last chunk goes first, also past the
-- deadline.
unfoldable pub read : ℕ → ℕ → BridgeConn → BridgeConn × ReadResult
read size now c = if c.closed then (c, eof) else elim c.read_buf [
  | [] ↦ if is_past c.read_deadline now then (c, deadline_exceeded) else receive size now c
  | b ∷ bs ↦ (record c { read_buf = drop size (b ∷ bs) }, bytes (take size (b ∷ bs)))
]

pub data WriteResult : Type 0 where
  written : ℕ → WriteResult
  write_closed write_deadline_exceeded send_failed : WriteResult

abbrev pub is_before : Option ℕ → ℕ → Bool
is_before none now = false
is_before (some d) now = ltb d now

-- `Write`; `sends` says whether `SendData` succeeds.
unfoldable pub write : (List ℕ → Bool) → ℕ → List ℕ → BridgeConn → WriteResult
write sends now p c =
    if c.closed
    then write_closed
    else if is_before c.write_deadline now
    then write_deadline_exceeded
    else if sends p
    then written (length p)
    else send_failed

-- `Close`
unfoldable pub close : BridgeConn → BridgeConn
close c = record c { closed = true }

-- `SetDeadline`, `SetReadDeadline`, `SetWriteDeadline`
unfoldable pub set_deadline : Option ℕ → BridgeConn → BridgeConn
set_deadline t c = record c { read_deadline = t; write_deadline = t }

unfoldable pub set_read_deadline : Option ℕ → BridgeConn → BridgeConn
set_read_deadline t c = record c { read_deadline = t }

unfoldable pub set_write_deadline : Option ℕ → BridgeConn → BridgeConn
set_write_deadline t c = record c { write_deadline = t }

-- `IdleDuration`
unfoldable pub idle_duration : ℕ → BridgeConn → ℕ
idle_duration now c = now - c.last_data_time
