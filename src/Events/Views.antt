-- ===== src/Events/Views.antt =====
-- server/service/event_broadcaster.go: the broadcaster's maps, read off the list of subscribers.
use unblink.Base.{
  ℕ, suc, ◌≡◌, ◌≢◌, ◌<◌, refl, true, Option, none, some, List, [], ◌∷◌, ◌++◌, ◌&&◌, not, ◌==◌,
  nat_eq, string_eq, String, if◌then◌else◌, arith,
}
use unblink.Batch.Rollup.{Event}
use unblink.NodeConn.Channels.{Channel}
use unblink.Events.{Subscription, remove_sub}
use unblink.Events.Audience.{Client}
use unblink.Events.Streams.{Absent}

abbrev pub stream_for : Client → Channel Event
stream_for c = record { items = c.inbox; closed = not c.active }

abbrev pub sub_for : Client → Subscription
sub_for c = record { id = c.id; node_id = c.node_id; service_id = c.service_id }

abbrev pub stream_of : ℕ → List Client → Option (Channel Event)
stream_of k [] = none
stream_of k (c ∷ cs) = if k == c.id then some (stream_for c) else stream_of k cs

abbrev pub node_of : ℕ → List Client → Option String
node_of k [] = none
node_of k (c ∷ cs) = if k == c.id then if c.active then some c.node_id else none else node_of k cs

abbrev pub active_of : String → List Client → List Subscription
active_of node [] = []
active_of node (c ∷ cs) =
    let rest = active_of node cs in if c.active && c.node_id == node then sub_for c ∷ rest else rest

abbrev pub Unknown : ℕ → List Client → Type 0
Unknown k [] = Unit
Unknown k (c ∷ cs) = (k ≢ c.id) × Unknown k cs

-- The numbers are below a bound, and no two are the same.
abbrev pub Numbered : ℕ → List Client → Type 0
Numbered n [] = Unit
Numbered n (c ∷ cs) = (c.id < n) × Unknown c.id cs × Numbered n cs

pub stream_of-Unknown : (k : ℕ) (cs : List Client) → Unknown k cs → stream_of k cs ≡ none
stream_of-Unknown k [] u = refl
stream_of-Unknown k (c ∷ cs) (differ, u) = ground (arith, differ, stream_of-Unknown k cs u)

pub node_of-Unknown : (k : ℕ) (cs : List Client) → Unknown k cs → node_of k cs ≡ none
node_of-Unknown k [] u = refl
node_of-Unknown k (c ∷ cs) (differ, u) = ground (arith, differ, node_of-Unknown k cs u)

pub active_of-Absent :
    (k : ℕ) (node : String) (cs : List Client) → Unknown k cs → Absent k (active_of node cs)
active_of-Absent k node [] u = tt
active_of-Absent k node (c ∷ cs) (differ, u) = ground (arith, differ, active_of-Absent k node cs u)

pub remove_sub-Absent :
    (k : ℕ) (subs : List Subscription) → Absent k subs → remove_sub k subs ≡ subs
unfolding remove_sub
remove_sub-Absent k [] a = refl
remove_sub-Absent k (s ∷ subs) (differ, a) = ground (arith, differ, remove_sub-Absent k subs a)

pub Numbered-next : (n : ℕ) (cs : List Client) → Numbered n cs → Unknown n cs
Numbered-next n [] u = tt
Numbered-next n (c ∷ cs) (lt, _, u) = (omega (arith, lt), Numbered-next n cs u)

-- A new subscriber.
module _ (c : Client) where
  pub stream_of-join :
      (k : ℕ) (cs : List Client)
      → Unknown c.id cs
      → stream_of k (cs ++ c ∷ []) ≡ (if k == c.id then some (stream_for c) else stream_of k cs)
  stream_of-join k [] u = refl
  stream_of-join k (d ∷ cs) (differ, u) = ground (arith, differ, stream_of-join k cs u)

  pub node_of-join :
      (k : ℕ) (cs : List Client)
      → c.active ≡ true
      → Unknown c.id cs
      → node_of k (cs ++ c ∷ []) ≡ (if k == c.id then some c.node_id else node_of k cs)
  node_of-join k [] e u = ground (arith, e)
  node_of-join k (d ∷ cs) e (differ, u) = ground (arith, differ, node_of-join k cs e u)

  pub active_of-join :
      (node : String) (cs : List Client)
      → c.active ≡ true
      → active_of node (cs ++ c ∷ [])
        ≡ (if c.node_id == node then active_of node cs ++ sub_for c ∷ [] else active_of node cs)
  active_of-join node [] e = ground (arith, e)
  active_of-join node (d ∷ cs) e = ground (arith, active_of-join node cs e)

  Unknown-join : (k : ℕ) (cs : List Client) → k ≢ c.id → Unknown k cs → Unknown k (cs ++ c ∷ [])
  Unknown-join k [] e u = (e, tt)
  Unknown-join k (d ∷ cs) e (differ, u) = (differ, Unknown-join k cs e u)

  pub Numbered-join : (cs : List Client) → Numbered c.id cs → Numbered (suc c.id) (cs ++ c ∷ [])
  Numbered-join [] u = (omega arith, tt, tt)
  Numbered-join (d ∷ cs) (lt, differ, u) =
      (omega (arith, lt), Unknown-join d.id cs (omega (arith, lt)) differ, Numbered-join cs u)
