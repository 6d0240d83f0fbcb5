-- ===== src/Registry/Handlers.antt =====
-- server/service/registry.go: the handlers that run, the services that refer to them, and the
-- invariant that ties the two.
use unblink.Base.{
  ◌≡◌, refl, ◌∙◌, true, false, not, ◌||◌, Option, none, some, List, [], ◌∷◌, String, All, eqb,
  if◌then◌else◌, string_eq, ◌==◌, arith, Option-cases, Bool-cases, inl, inr,
}
use unblink.Base.Dict.{Dict, lookup, insert, erase, lookup-insert, lookup-erase}
use unblink.Registry.{
  Handler, ServiceState, Registry, Env, handler_for, start_handler, stopped, stop_handler,
  remove_handler,
}

abbrev pub Services : Type 0
Services = Dict String ServiceState

abbrev pub handler_of : String → Services → Option Handler
handler_of id services = elim (lookup id services) [ none ↦ none | some s ↦ s.handler ]

-- A handler that runs is the handler of its service.
abbrev pub IsHeld : Services → Handler → Type 0
IsHeld services h = handler_of h.service_id services ≡ some h

pub record IsTidy (services : Services) (live : List Handler) : Type 0 where
  pub keyed : (id : String) (s : ServiceState) → lookup id services ≡ some s → s.id ≡ id
  pub idle :
      (id : String) (s : ServiceState)
      → lookup id services ≡ some s
      → s.online ≡ false
      → s.handler ≡ none
  pub held : All (IsHeld services) live

pub All-imp :
    {P Q : Handler → Type 0} (live : List Handler)
    → ((h : Handler) → P h → Q h)
    → All P live
    → All Q live
All-imp [] f a = tt
All-imp (h ∷ live) f (p, a) = (f h p, All-imp live f a)

pub All-remove_handler :
    {P Q : Handler → Type 0} (h : Handler) (live : List Handler)
    → ((k : Handler) → P k → eqb h.number k.number ≡ false → Q k)
    → All P live
    → All Q (remove_handler h live)
All-remove_handler h [] f a = tt
All-remove_handler h (k ∷ live) f (p, a) =
    let rest = All-remove_handler h live f a in
    elim (Bool-cases (eqb h.number k.number)) [
      | inl same ↦ rw same rest
      | inr other ↦ rw other (f k p other, rest)
    ]

pub handler_of-insert :
    (j id : String) (s : ServiceState) (services : Services)
    → handler_of j (insert id s services) ≡ (if j == id then s.handler else handler_of j services)
handler_of-insert j id s services = ground (arith, lookup-insert j id s services)

-- Writing a state whose handler is the one that was there.
pub insert-IsTidy :
    (s : ServiceState) (services : Services) (live : List Handler)
    → handler_of s.id services ≡ s.handler
    → (s.online ≡ false → s.handler ≡ none)
    → IsTidy services live
    → IsTidy (insert s.id s services) live
insert-IsTidy s services live same quiet t = record {
  keyed = λ id x e. ground (arith, t.keyed id x, lookup-insert id s.id s services);
  idle = λ id x e off. ground (arith, t.idle id x, quiet, lookup-insert id s.id s services);
  held =
      All-imp live (λ h p. ground (arith, p, same, handler_of-insert h.service_id s.id s services))
        t.held;
}

-- Stopping the handler that a state refers to.
pub stop_handler-IsTidy :
    (r : Registry) (s : ServiceState)
    → handler_of s.id r.services ≡ s.handler
    → IsTidy r.services r.live
    → IsTidy (stop_handler r s).services (stop_handler r s).live
unfolding stop_handler
stop_handler-IsTidy r s same t = elim (Option-cases s.handler) [
  | inl quiet ↦ rw quiet (insert-IsTidy (stopped s) r.services r.live (same ∙ quiet) (λ e. refl) t)
  | inr (h, runs) ↦ rw runs (record {
    keyed = λ id x e. ground (arith, t.keyed id x, lookup-insert id s.id (stopped s) r.services);
    idle = λ id x e off. ground (arith, t.idle id x, lookup-insert id s.id (stopped s) r.services);
    held =
        All-remove_handler h r.live
          (λ k p other.
            ground
              (arith, p, same, runs, handler_of-insert k.service_id s.id (stopped s) r.services))
          t.held;
  })
]

-- Writing a state with a new handler where there was none.
insert_new-IsTidy :
    (s : ServiceState) (h : Handler) (services : Services) (live : List Handler)
    → handler_of s.id services ≡ none
    → h.service_id ≡ s.id
    → s.handler ≡ some h
    → s.online ≡ true
    → IsTidy services live
    → IsTidy (insert s.id s services) (h ∷ live)
insert_new-IsTidy s h services live quiet mine has on t = record {
  keyed = λ id x e. ground (arith, t.keyed id x, lookup-insert id s.id s services);
  idle = λ id x e off. ground (arith, t.idle id x, lookup-insert id s.id s services);
  held = (
    ground (arith, handler_of-insert h.service_id s.id s services),
    All-imp live (λ k p. ground (arith, p, quiet, handler_of-insert k.service_id s.id s services))
        t.held,
  );
}

-- Starting a handler for a state that has none.
pub start_handler-IsTidy :
    (env : Env) (r : Registry) (s : ServiceState)
    → handler_of s.id r.services ≡ none
    → s.online ≡ true
    → IsTidy r.services r.live
    → IsTidy (start_handler env r s).services (start_handler env r s).live
unfolding start_handler
start_handler-IsTidy env r s quiet on t =
    elim (Bool-cases (not (r.enable_indexing || r.enable_recording))) [
      | inl off ↦ rw off t
      | inr wanted ↦ elim (Bool-cases (env.can_start (handler_for r s))) [
        | inr fails ↦ rw (wanted, fails) t
        | inl starts ↦
            rw (wanted, starts)
              (insert_new-IsTidy
                (record s { handler = some (handler_for r s); successful_since = some env.now })
                (handler_for r s) r.services r.live quiet refl refl on t)
      ]
    ]

pub erase-IsTidy :
    (id : String) (services : Services) (live : List Handler)
    → handler_of id services ≡ none
    → IsTidy services live
    → IsTidy (erase id services) live
erase-IsTidy id services live quiet t = record {
  keyed = λ j x e. ground (arith, t.keyed j x, lookup-erase j id services);
  idle = λ j x e off. ground (arith, t.idle j x, lookup-erase j id services);
  held =
      All-imp live (λ h p. ground (arith, p, quiet, lookup-erase h.service_id id services)) t.held;
}
