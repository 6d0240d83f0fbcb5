-- ===== src/Events/Audience.antt =====
-- What server/service/event_broadcaster.go promises: subscribers in their order, each with the events
-- that wait for it.
use unblink.Base.{
  ℕ, suc, Bool, true, false, Option, none, some, List, [], ◌∷◌, ◌++◌, ◌&&◌, not, ◌==◌, nat_eq,
  string_eq, String, length, ltb, if◌then◌else◌,
}
use unblink.Batch.Rollup.{Event}
use unblink.Events.{wants, stream_capacity}

pub record Client : Type 0 where
  pub id : ℕ
  pub node_id : String
  pub service_id : String
  pub inbox : List Event
  pub active : Bool

pub record Audience : Type 0 where
  pub clients : List Client
  pub joined : ℕ

abbrev pub nobody : Audience
nobody = record { clients = []; joined = 0 }

abbrev pub join : String → String → Audience → Audience × ℕ
join node service a = (
  record {
    clients =
        a.clients
        ++ record { id = a.joined; node_id = node; service_id = service; inbox = []; active = true }
          ∷ [];
    joined = suc a.joined;
  },
  a.joined,
)

-- A client leaves; it may still read what waits for it. One that joined with no node stays.
abbrev pub dismiss : ℕ → Client → Client
dismiss k c =
    if k == c.id && (c.active && not (c.node_id == "")) then record c { active = false } else c

unfoldable pub each : (Client → Client) → List Client → List Client
each f [] = []
each f (c ∷ cs) = f c ∷ each f cs

-- An event reaches the active clients of the node that want its service and have room.
abbrev pub push : Event → List Event → List Event
push event inbox = if ltb (length inbox) stream_capacity then inbox ++ event ∷ [] else inbox

abbrev pub hear : Event → String → Client → Client
hear event node c =
    if c.active && (c.node_id == node && wants event c.service_id)
    then record c { inbox = push event c.inbox }
    else c

abbrev pub rest_of : List Event → List Event
rest_of [] = []
rest_of (event ∷ rest) = rest

abbrev pub first_of : List Event → Option Event
first_of [] = none
first_of (event ∷ rest) = some event

abbrev pub read_one : ℕ → Client → Client
read_one k c = if k == c.id then record c { inbox = rest_of c.inbox } else c

unfoldable pub inbox_of : ℕ → List Client → List Event
inbox_of k [] = []
inbox_of k (c ∷ cs) = let more = inbox_of k cs in if k == c.id then c.inbox else more

unfoldable pub number_at : String → List Client → ℕ
number_at node [] = 0
number_at node (c ∷ cs) =
    let more = number_at node cs in if c.active && c.node_id == node then suc more else more

-- What is asked of a broadcaster, and answered.
pub data Op : Type 0 where
  subscribes : String → String → Op
  unsubscribes takes : ℕ → Op
  sends : Event → String → Op
  counts : String → Op

pub data Reply : Type 0 where
  joined : ℕ → Reply
  done : Reply
  taken : Option Event → Reply
  number : ℕ → Reply

unfoldable pub serve : Op → Audience → Audience × Reply
serve (subscribes node service) a = let (a', k) = join node service a in (a', joined k)
serve (unsubscribes k) a = (record a { clients = each (dismiss k) a.clients }, done)
serve (sends event node) a = (record a { clients = each (hear event node) a.clients }, done)
serve (takes k) a =
    (record a { clients = each (read_one k) a.clients }, taken (first_of (inbox_of k a.clients)))
serve (counts node) a = (a, number (number_at node a.clients))

unfoldable pub serve_all : List Op → Audience → List Reply
serve_all [] a = []
serve_all (op ∷ ops) a = let (a', reply) = serve op a in reply ∷ serve_all ops a'
