-- ===== src/Registry/Index/Moves.antt =====
-- server/service/registry.go: the node of each service under node events and the idle monitor.
use unblink.Base.{
  ℕ, ◌≡◌, refl, ◌∙◌, Bool, true, false, ◌&&◌, none, some, [], ◌∷◌, String, ltb, leb, if◌then◌else◌,
  string_eq, arith, if_ind, on_some_ind, on_some, length,
}
use unblink.Base.{◌++◌}
use unblink.Registry.{ReconnectRequest}
use unblink.Base.Dict.{Dict, lookup}
use unblink.Registry.{ServiceState, Registry, Env, put_state, start_handler, stop_handler}
use unblink.Registry.Operations.{bring_online, bring_all_online, take_offline, take_all_offline}
use unblink.Registry.Monitor.{
  check_bridge, check_handler, check_service, check_services, reconnect_service, enqueue, retried,
  is_stable, queue_capacity,
}
use unblink.Registry.Index.{
  Keyed, node_of, SameNodes, SameNodes-refl, SameNodes-trans, node_of-put_state,
  put_state-SameNodes, stop_handler-SameNodes, start_handler-SameNodes, node_of-Keyed,
}

-- An operation that moves no service, for a registry whose keys are right.
abbrev pub MovesNone : (Registry → Registry) → Type 0
MovesNone f = (r : Registry) → Keyed r → SameNodes r (f r)

enqueue-same : (req : ReconnectRequest) (r : Registry) → SameNodes r (enqueue req r)
unfolding enqueue
enqueue-same req r =
    if_ind (SameNodes r) (ltb (length r.reconnect_queue) queue_capacity)
      (record r { reconnect_queue = r.reconnect_queue ++ req ∷ [] }) r
      (λ _. record { sets = refl; named = λ id. refl; keys = λ k. k }) (λ _. SameNodes-refl r)

module _ (env : Env) (id : String) where
  bring_online-same : MovesNone (bring_online env id)
  unfolding bring_online
  bring_online-same r k =
      on_some_ind (SameNodes r) (lookup id r.services) r _ (λ _. SameNodes-refl r)
        λ s e.
          let s' : ServiceState = record s { online = true } in
          let n = node_of-Keyed r id s k e in
          if_ind (SameNodes r) s.online r (start_handler env (put_state r s') s')
            (λ _. SameNodes-refl r)
            (λ _. SameNodes-trans r (put_state r s') _ (put_state-SameNodes r s' n) (
              start_handler-SameNodes env (put_state r s') s'
                (ground (arith, node_of-put_state s.id r s'))))

  take_offline-same : MovesNone (take_offline id)
  unfolding take_offline
  take_offline-same r k =
      on_some_ind (SameNodes r) (lookup id r.services) r _ (λ _. SameNodes-refl r)
        λ s e.
          if_ind (SameNodes r) s.online (stop_handler r (record s { online = false })) r
            (λ _. stop_handler-SameNodes r (record s { online = false }) (node_of-Keyed r id s k e))
            (λ _. SameNodes-refl r)

  reconnect_service-same :
      (r : Registry) (s : ServiceState)
      → node_of s.id r ≡ some s.node_id
      → SameNodes r (reconnect_service env r s)
  unfolding reconnect_service
  reconnect_service-same r s n =
      let s' = retried env s in
      let q = stop_handler r s in
      let w = put_state q s' in
      let a = stop_handler-SameNodes r s n in
      let b = put_state-SameNodes q s' (a.named s.id ∙ n) in
      SameNodes-trans r w _ (SameNodes-trans r q w a b) (enqueue-same _ w)

  check_service-same : MovesNone (check_service env id)
  unfolding check_service check_handler check_bridge
  check_service-same r k =
      on_some_ind (SameNodes r) (lookup id r.services) r _ (λ _. SameNodes-refl r)
        λ s e.
          let n = node_of-Keyed r id s k e in
          if_ind (SameNodes r) s.online (on_some s.handler r (λ h. check_handler env r s h)) r
            (λ _.
              on_some_ind (SameNodes r) s.handler r _ (λ _. SameNodes-refl r)
                λ h _.
                  on_some_ind (SameNodes r) (env.idle_duration h) r _ (λ _. SameNodes-refl r)
                    λ idle _. check_bridge-same r s idle n)
            (λ _. SameNodes-refl r)
    where
      check_bridge-same :
          (r : Registry) (s : ServiceState) (idle : ℕ)
          → node_of s.id r ≡ some s.node_id
          → SameNodes r (check_bridge env r s idle)
      check_bridge-same r s idle n =
          if_ind (SameNodes r) (ltb r.idle_timeout idle)
            (if leb r.max_retries s.retry_count
              then stop_handler r s
              else reconnect_service env r s)
            (if ltb 0 s.retry_count && is_stable env r s
              then put_state r (record s { retry_count = 0; successful_since = none })
              else r)
            (λ _.
              if_ind (SameNodes r) (leb r.max_retries s.retry_count) (stop_handler r s)
                (reconnect_service env r s) (λ _. stop_handler-SameNodes r s n)
                (λ _. reconnect_service-same r s n))
            (λ _.
              if_ind (SameNodes r) (ltb 0 s.retry_count && is_stable env r s)
                (put_state r (record s { retry_count = 0; successful_since = none })) r
                (λ _. put_state-SameNodes r _ n) (λ _. SameNodes-refl r))

module _ (env : Env) where
  pub bring_all_online-same : (ids : Dict String Bool) → MovesNone (bring_all_online env ids)
  unfolding bring_all_online
  bring_all_online-same [] r k = SameNodes-refl r
  bring_all_online-same ((id, _) ∷ rest) r k =
      let q = bring_online env id r in
      let a = bring_online-same env id r k in
      SameNodes-trans r q _ a (bring_all_online-same rest q (a.keys k))

  pub take_all_offline-same : (ids : Dict String Bool) → MovesNone (take_all_offline ids)
  unfolding take_all_offline
  take_all_offline-same [] r k = SameNodes-refl r
  take_all_offline-same ((id, _) ∷ rest) r k =
      let q = take_offline id r in
      let a = take_offline-same env id r k in
      SameNodes-trans r q _ a (take_all_offline-same rest q (a.keys k))

  pub check_services-same :
      (entries : Dict String ServiceState) → MovesNone (check_services env entries)
  unfolding check_services
  check_services-same [] r k = SameNodes-refl r
  check_services-same ((id, _) ∷ rest) r k =
      let q = check_service env id r in
      let a = check_service-same env id r k in
      SameNodes-trans r q _ a (check_services-same rest q (a.keys k))
