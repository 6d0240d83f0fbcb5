-- ===== src/Bridge/Tests.antt =====
-- server/bridge_conn.go on a connection with two chunks, read in small pieces.
use unblink.Base.{◌≡◌, ◌++◌, [], ◌∷◌}
use unblink.Bridge.{BridgeConn, new_bridge_conn}
use unblink.Bridge.Stream.{pending, read_all, read_all-stream}

abbrev conn : BridgeConn
conn = new_bridge_conn ((1 ∷ 2 ∷ 3 ∷ []) ∷ (4 ∷ 5 ∷ []) ∷ []) 50

read_all-stream_example :
    pending conn
    ≡ (read_all ((2, 60) ∷ (2, 61) ∷ []) conn).1
      ++ pending (read_all ((2, 60) ∷ (2, 61) ∷ []) conn).0
read_all-stream_example = read_all-stream ((2, 60) ∷ (2, 61) ∷ []) conn
