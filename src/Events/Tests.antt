-- ===== src/Events/Tests.antt =====
-- server/service/event_broadcaster.go and event.go with two subscribers of a node.
use unblink.Base.{◌≡◌, refl, true, false, none, some, List, [], ◌∷◌, String, string_eq, nat_eq}
use unblink.Access.{response}
use unblink.TimeUtil.{GranularityLevel}
use unblink.Batch.Rollup.{Event}
use unblink.Events.{new_event_broadcaster}
use unblink.Events.Audience.{
  nobody, Op, subscribes, unsubscribes, sends, takes, counts, serve_all, joined, done, taken,
  number, serve, each, inbox_of, number_at,
}
use unblink.Events.Refinement.{perform_all, perform_all-serve_all}
use unblink.Events.Service.{
  Env, Turn, next, beat, meanwhile, done as ends, Looped, heartbeat, event, broadcasts, joins,
  leaves,
}

abbrev seen : Event
seen = record {
  service_id = "cam";
  granularity = GranularityLevel.second;
  from = 1;
  to = 2;
  response = record { objects = []; description = "a door" };
}

abbrev ops : List Op
ops =
    subscribes "node" "cam"
    ∷ subscribes "node" "yard"
    ∷ sends seen "node"
    ∷ unsubscribes 0
    ∷ sends seen "node"
    ∷ counts "node"
    ∷ takes 0
    ∷ takes 0
    ∷ takes 1
    ∷ []

serve_all_answers :
    serve_all ops nobody
    ≡ joined 0
      ∷ joined 1
      ∷ done
      ∷ done
      ∷ done
      ∷ number 1
      ∷ taken (some seen)
      ∷ taken none
      ∷ taken none
      ∷ []
unfolding serve_all serve each inbox_of number_at string_eq nat_eq
serve_all_answers = refl

perform_all-serve_all_example : perform_all ops new_event_broadcaster ≡ some (serve_all ops nobody)
perform_all-serve_all_example = perform_all-serve_all ops

abbrev env : Env
env = record {
  check_node_access = λ node user. some true;
  list_events = λ node size offset. some ([], 0);
  count_events = λ user. some 0;
}

abbrev node : String
node = "node"

abbrev turns : List Turn
turns =
    beat true
    ∷ meanwhile (broadcasts seen node)
    ∷ next true
    ∷ meanwhile (joins node "yard")
    ∷ meanwhile (leaves 1)
    ∷ ends
    ∷ []

abbrev after : Looped
after = (
  record {
    subscriptions = (node, record { id = 0; node_id = node; service_id = "cam" } ∷ []) ∷ [];
    all_subs = (0, node) ∷ [];
    streams =
        (0, record { items = []; closed = false }) ∷ (1, record { items = []; closed = true }) ∷ [];
    next = 2;
  },
  heartbeat ∷ event seen ∷ [],
  true,
)
