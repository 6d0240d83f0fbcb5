-- ===== src/Events/Moves.antt =====
-- server/service/event_broadcaster.go: how a step of a subscriber changes what the maps hold.
use unblink.Base.{
  ℕ, ◌≡◌, refl, true, false, Option, none, some, List, [], ◌∷◌, ◌==◌, nat_eq, string_eq, String,
  length, if◌then◌else◌, value_or, arith, Bool-cases, inl, inr,
}
use unblink.Batch.Rollup.{Event}
use unblink.NodeConn.Channels.{Channel, Heap}
use unblink.Base.Dict.{lookup}
use unblink.Events.{remove_sub}
use unblink.Events.Audience.{Client, each, dismiss, hear, read_one, inbox_of, number_at, rest_of}
use unblink.Events.Streams.{heard, hears, Ready, on_channel, hears-Absent}
use unblink.Events.Views.{
  stream_for, stream_of, node_of, active_of, Unknown, Numbered, stream_of-Unknown, node_of-Unknown,
  active_of-Absent,
}

-- A step of the subscribers that keeps their numbers.
module _ (f : Client → Client) (same : (c : Client) → (f c).id ≡ c.id) where
  Unknown-each : (k : ℕ) (cs : List Client) → Unknown k cs → Unknown k (each f cs)
  unfolding each
  Unknown-each k [] u = tt
  Unknown-each k (c ∷ cs) (differ, u) = (ground (arith, same c, differ), Unknown-each k cs u)

  pub Numbered-each : (n : ℕ) (cs : List Client) → Numbered n cs → Numbered n (each f cs)
  unfolding each
  Numbered-each n [] u = tt
  Numbered-each n (c ∷ cs) (lt, differ, u) =
      rw (same c) (lt, Unknown-each c.id cs differ, Numbered-each n cs u)

pub dismiss-id : (k : ℕ) (c : Client) → (dismiss k c).id ≡ c.id
dismiss-id k c = ground arith

pub hear-id : (event : Event) (node : String) (c : Client) → (hear event node c).id ≡ c.id
hear-id event node c = ground arith

pub read_one-id : (k : ℕ) (c : Client) → (read_one k c).id ≡ c.id
read_one-id k c = ground arith

-- `Unsubscribe`
abbrev pub node_at : ℕ → List Client → String
node_at k cs = value_or "" (node_of k cs)

dismiss-Unknown : (k : ℕ) (cs : List Client) → Unknown k cs → each (dismiss k) cs ≡ cs
unfolding each
dismiss-Unknown k [] u = refl
dismiss-Unknown k (c ∷ cs) (differ, u) = ground (arith, differ, dismiss-Unknown k cs u)

pub dismiss-unnamed :
    (n k : ℕ) (cs : List Client)
    → Numbered n cs
    → node_at k cs == "" ≡ true
    → each (dismiss k) cs ≡ cs
unfolding each
dismiss-unnamed n k [] u e = refl
dismiss-unnamed n k (c ∷ cs) (lt, differ, u) e =
    ground (arith, differ, dismiss-Unknown k cs, dismiss-unnamed n k cs u)

pub stream_of-named :
    (k : ℕ) (cs : List Client)
    → node_at k cs == "" ≡ false
    → (ch : Channel Event) × (stream_of k cs ≡ some ch) × (ch.closed ≡ false)
stream_of-named k [] e = absurd (ground arith)
stream_of-named k (c ∷ cs) e = elim (Bool-cases (k == c.id)) [
  | inl here ↦ (stream_for c, ground (arith, here), ground (arith, here, e))
  | inr there ↦
      let (ch, f, o) = stream_of-named k cs (ground (arith, there, e)) in
      (ch, ground (arith, there, f), o)
]

pub stream_of-dismiss :
    (n k j : ℕ) (ch : Channel Event) (cs : List Client)
    → Numbered n cs
    → node_at k cs == "" ≡ false
    → stream_of k cs ≡ some ch
    → stream_of j (each (dismiss k) cs)
      ≡ (if j == k then some (record ch { closed = true }) else stream_of j cs)
unfolding each
stream_of-dismiss n k j ch [] u e f = ground arith
stream_of-dismiss n k j ch (c ∷ cs) (lt, differ, u) e f =
    ground (arith, dismiss-Unknown k cs, stream_of-dismiss n k j ch cs u)

pub node_of-dismiss :
    (n k j : ℕ) (cs : List Client)
    → Numbered n cs
    → node_at k cs == "" ≡ false
    → node_of j (each (dismiss k) cs) ≡ (if j == k then none else node_of j cs)
unfolding each
node_of-dismiss n k j [] u e = ground arith
node_of-dismiss n k j (c ∷ cs) (lt, differ, u) e =
    ground (arith, dismiss-Unknown k cs, node_of-Unknown k cs, node_of-dismiss n k j cs u)

pub active_of-dismiss :
    (n k : ℕ) (node : String) (cs : List Client)
    → Numbered n cs
    → node_at k cs == "" ≡ false
    → active_of node (each (dismiss k) cs)
      ≡ (if node_at k cs == node then remove_sub k (active_of node cs) else active_of node cs)
unfolding each remove_sub
active_of-dismiss n k node [] u e = ground arith
active_of-dismiss n k node (c ∷ cs) (lt, differ, u) e =
    ground (arith, dismiss-Unknown k cs, active_of-dismiss n k node cs u)

-- `Broadcast`
pub Ready-active :
    (n : ℕ) (node : String) (cs : List Client) (h : Heap Event)
    → Numbered n cs
    → ((j : ℕ) (ch : Channel Event) → stream_of j cs ≡ some ch → lookup j h ≡ some ch)
    → Ready (active_of node cs) h
Ready-active n node [] h u held = tt
Ready-active n node (c ∷ cs) h (lt, differ, u) held =
    let later : (j : ℕ) (ch : Channel Event) → stream_of j cs ≡ some ch → lookup j h ≡ some ch =
      λ j ch e. held j ch (ground (arith, e, differ, stream_of-Unknown c.id cs)) in
    let rest = Ready-active n node cs h u later in
    let here : lookup c.id h ≡ some (stream_for c) = held c.id (stream_for c) (ground arith) in
    ground (arith, rest, here, active_of-Absent c.id node cs differ)

pub stream_of-hear :
    (n j : ℕ) (event : Event) (node : String) (cs : List Client)
    → Numbered n cs
    → stream_of j (each (hear event node) cs) ≡ (
        if hears event j (active_of node cs)
        then on_channel (heard event) (stream_of j cs)
        else stream_of j cs)
unfolding each
stream_of-hear n j event node [] u = refl
stream_of-hear n j event node (c ∷ cs) (lt, differ, u) = ground (
  arith,
  stream_of-hear n j event node cs u,
  hears-Absent event c.id (active_of node cs) (active_of-Absent c.id node cs differ),
)

pub node_of-hear :
    (j : ℕ) (event : Event) (node : String) (cs : List Client)
    → node_of j (each (hear event node) cs) ≡ node_of j cs
unfolding each
node_of-hear j event node [] = refl
node_of-hear j event node (c ∷ cs) = ground (arith, node_of-hear j event node cs)

pub active_of-hear :
    (m : String) (event : Event) (node : String) (cs : List Client)
    → active_of m (each (hear event node) cs) ≡ active_of m cs
unfolding each
active_of-hear m event node [] = refl
active_of-hear m event node (c ∷ cs) = ground (arith, active_of-hear m event node cs)

-- A subscriber reads its stream.
abbrev pub shorter : Channel Event → Channel Event
shorter ch = record ch { items = rest_of ch.items }

read_one-Unknown : (k : ℕ) (cs : List Client) → Unknown k cs → each (read_one k) cs ≡ cs
unfolding each
read_one-Unknown k [] u = refl
read_one-Unknown k (c ∷ cs) (differ, u) = ground (arith, differ, read_one-Unknown k cs u)

pub stream_of-read_one :
    (n k j : ℕ) (cs : List Client)
    → Numbered n cs
    → stream_of j (each (read_one k) cs)
      ≡ (if j == k then on_channel shorter (stream_of j cs) else stream_of j cs)
unfolding each
stream_of-read_one n k j [] u = ground arith
stream_of-read_one n k j (c ∷ cs) (lt, differ, u) =
    ground (arith, read_one-Unknown k cs, stream_of-read_one n k j cs u)

pub node_of-read_one :
    (j k : ℕ) (cs : List Client) → node_of j (each (read_one k) cs) ≡ node_of j cs
unfolding each
node_of-read_one j k [] = refl
node_of-read_one j k (c ∷ cs) = ground (arith, node_of-read_one j k cs)

pub active_of-read_one :
    (node : String) (k : ℕ) (cs : List Client)
    → active_of node (each (read_one k) cs) ≡ active_of node cs
unfolding each
active_of-read_one node k [] = refl
active_of-read_one node k (c ∷ cs) = ground (arith, active_of-read_one node k cs)

abbrev pub waiting : Option (Channel Event) → List Event
waiting none = []
waiting (some ch) = ch.items

pub inbox_of-stream : (k : ℕ) (cs : List Client) → inbox_of k cs ≡ waiting (stream_of k cs)
unfolding inbox_of
inbox_of-stream k [] = refl
inbox_of-stream k (c ∷ cs) = ground (arith, inbox_of-stream k cs)

pub number_at-active :
    (node : String) (cs : List Client) → number_at node cs ≡ length (active_of node cs)
unfolding number_at
number_at-active node [] = refl
number_at-active node (c ∷ cs) = ground (arith, number_at-active node cs)
