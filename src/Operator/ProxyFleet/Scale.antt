-- ===== src/Operator/ProxyFleet/Scale.antt =====
-- packages/shulker-operator/src/reconcilers: how many replicas a fleet is built with
-- (proxy_fleet/fleet.rs, minecraft_server_fleet/fleet.rs).
use shulker.Prelude.{refl, ℕ, false, String, Option, none, some, ◌≡◌, sym, ap, ◌∙◌, ◌<◌, ◌^◌, arith}
use shulker.Outcome.{Outcome, ok, unwrap, >>=-eq-ok}
use shulker.Fallible.{and_then-eq-ok}
use shulker.Result.{Result}
use shulker.Kubernetes.{Object}
use shulker.Agones.{FleetSpec}
use shulker.Crds.Schemas.{FleetAutoscalingSpec}
use shulker.Crds.ProxyFleet.{ProxyFleet}
use shulker.Operator.BuildError.{BuildError}
use shulker.Operator.Resources.Resolver.{Surroundings}
use shulker.Operator.ProxyFleet.{FleetBuilderContext}
use shulker.Operator.ProxyFleet.Fleet.{build, replicas_of, get_game_server_spec}
use shulker.Operator.ProxyFleet.Service.{fleet_autoscaler_is_needed}

abbrev success : Object FleetSpec → Result BuildError (Object FleetSpec)
success fleet = Result.ok fleet

built_of :
    {a : Object FleetSpec} {b : Object FleetSpec}
    → Outcome.ok (success a) ≡ Outcome.ok (success b)
    → a ≡ b
built_of h = cc

module _ {Bytes Url : Type 0} (around : Surroundings Bytes Url) (show_url : Url → String) where
  build-replicas :
      (proxy_fleet : ProxyFleet) (name : String) (existing_fleet : Option (Object FleetSpec))
      (context : FleetBuilderContext) {built : Object FleetSpec}
      → build around show_url proxy_fleet name existing_fleet context ≡ ok (Result.ok built)
      → built.body.replicas
        ≡ some (replicas_of proxy_fleet.spec.autoscaling existing_fleet proxy_fleet.spec.replicas)
  unfolding build
  build-replicas proxy_fleet name existing_fleet context {built} h =
      let (spec, _, rest) =
        and_then-eq-ok (get_game_server_spec around show_url context proxy_fleet) _ h in
      let (namespace, _, done) = >>=-eq-ok (unwrap proxy_fleet.namespace) _ rest in
      sym (ap (λ (f : Object FleetSpec). f.body.replicas) (built_of done))

replicas_exact :
    (autoscaling : Option FleetAutoscalingSpec) (existing_fleet : Option (Object FleetSpec))
    (replicas : ℕ)
    → autoscaling ≡ none
    → replicas < 2 ^ 31
    → replicas_of autoscaling existing_fleet replicas ≡ replicas
replicas_exact none existing_fleet replicas h small = omega arith
replicas_exact (some a) existing_fleet replicas h small = cc

replicas_kept :
    (autoscaling : Option FleetAutoscalingSpec) (fleet : Object FleetSpec) (asked n : ℕ)
    (a : FleetAutoscalingSpec)
    → autoscaling ≡ some a
    → fleet.body.replicas ≡ some n
    → replicas_of autoscaling (some fleet) asked ≡ n
replicas_kept none fleet asked n a h has = cc
replicas_kept (some b) fleet asked n a h has = simp has

module _ {Bytes Url : Type 0} (around : Surroundings Bytes Url) (show_url : Url → String) where
  -- A fleet of proxies without an autoscaler is built with as many replicas as it asks for, if these
  -- are fewer than 2 ^ 31, the bound of the signed number that Agones takes.
  pub build_replicas_exact :
      (proxy_fleet : ProxyFleet) (name : String) (existing_fleet : Option (Object FleetSpec))
      (context : FleetBuilderContext) {built : Object FleetSpec}
      → build around show_url proxy_fleet name existing_fleet context ≡ ok (Result.ok built)
      → proxy_fleet.spec.autoscaling ≡ none
      → proxy_fleet.spec.replicas < 2 ^ 31
      → built.body.replicas ≡ some proxy_fleet.spec.replicas
  build_replicas_exact proxy_fleet name existing_fleet context h fixed small =
      build-replicas around show_url proxy_fleet name existing_fleet context h
      ∙ ap some (
          replicas_exact proxy_fleet.spec.autoscaling existing_fleet proxy_fleet.spec.replicas fixed
            small)

  -- A fleet of proxies with autoscaling is built with the replicas that the fleet of Agones has, so
  -- that reconciling it does not undo what the autoscaler did.
  build_replicas_kept :
      (proxy_fleet : ProxyFleet) (name : String) (existing : Object FleetSpec)
      (context : FleetBuilderContext) (policy : FleetAutoscalingSpec) (n : ℕ)
      {built : Object FleetSpec}
      → build around show_url proxy_fleet name (some existing) context ≡ ok (Result.ok built)
      → proxy_fleet.spec.autoscaling ≡ some policy
      → existing.body.replicas ≡ some n
      → built.body.replicas ≡ existing.body.replicas
  build_replicas_kept proxy_fleet name existing context policy n h scaled has =
      build-replicas around show_url proxy_fleet name (some existing) context h
      ∙ ap some (
          replicas_kept proxy_fleet.spec.autoscaling existing proxy_fleet.spec.replicas n policy
            scaled has)
      ∙ sym has

-- Autoscaling without a policy of Agones, which the resource allows.
abbrev pub IsUnpoliced : ProxyFleet → Type 0
IsUnpoliced proxy_fleet =
    (autoscaling : FleetAutoscalingSpec) × (proxy_fleet.spec.autoscaling ≡ some autoscaling)
    × (autoscaling.agones_policy ≡ none)

abbrev pub HasNoReplicas : Option (Object FleetSpec) → Type 0
HasNoReplicas none = Unit {0}
HasNoReplicas (some fleet) = fleet.body.replicas ≡ some 0

replicas_none :
    (autoscaling : Option FleetAutoscalingSpec) (existing : Option (Object FleetSpec)) (asked : ℕ)
    (a : FleetAutoscalingSpec)
    → autoscaling ≡ some a
    → HasNoReplicas existing
    → replicas_of autoscaling existing asked ≡ 0
replicas_none none existing asked a h has = cc
replicas_none (some b) none asked a h has = refl
replicas_none (some b) (some fleet) asked a h has = simp has

unneeded :
    (proxy_fleet : ProxyFleet) (autoscaling : FleetAutoscalingSpec)
    → proxy_fleet.spec.autoscaling ≡ some autoscaling
    → autoscaling.agones_policy ≡ none
    → fleet_autoscaler_is_needed proxy_fleet ≡ false
unneeded proxy_fleet autoscaling scaled unpoliced = simp (scaled, unpoliced)

module _ {Bytes Url : Type 0} (around : Surroundings Bytes Url) (show_url : Url → String) where
  -- The fleet of Agones after any number of builds, from none at all, each upon the one before, for
  -- any revisions of the fleet of proxies that have no policy.
  pub data IsReconciled (name : String) (context : FleetBuilderContext)
      : Option (Object FleetSpec) → Type 0 where
    absent : IsReconciled name context none
    rebuilt :
        {existing : Option (Object FleetSpec)} (proxy_fleet : ProxyFleet) {built : Object FleetSpec}
        → IsReconciled name context existing
        → IsUnpoliced proxy_fleet
        → build around show_url proxy_fleet name existing context ≡ ok (Result.ok built)
        → IsReconciled name context (some built)

  reconciled_empty :
      (name : String) (context : FleetBuilderContext) (existing : Option (Object FleetSpec))
      → IsReconciled name context existing
      → HasNoReplicas existing
  reconciled_empty name context none absent = tt
  reconciled_empty name context (some built)
        (rebuilt {existing = existing} proxy_fleet before (autoscaling, scaled, unpoliced) h) =
      build-replicas around show_url proxy_fleet name existing context h
      ∙ ap some (
          replicas_none proxy_fleet.spec.autoscaling existing proxy_fleet.spec.replicas autoscaling
            scaled (reconciled_empty name context existing before))

  -- A fleet of proxies whose autoscaling has no policy never gets a proxy: no autoscaler is made for
  -- it, and from no fleet of Agones on, however often it is built and whatever replicas it asks for,
  -- its fleet of Agones has 0 of them.
  pub unpoliced_fleet-HasNoReplicas :
      (name : String) (context : FleetBuilderContext) (proxy_fleet : ProxyFleet)
      (existing : Option (Object FleetSpec)) {built : Object FleetSpec}
      → IsUnpoliced proxy_fleet
      → IsReconciled name context existing
      → build around show_url proxy_fleet name existing context ≡ ok (Result.ok built)
      → (fleet_autoscaler_is_needed proxy_fleet ≡ false) × HasNoReplicas (some built)
  unpoliced_fleet-HasNoReplicas name context proxy_fleet existing unpoliced before h = (
    unneeded proxy_fleet unpoliced.0 unpoliced.1 unpoliced.2,
    reconciled_empty name context _ (rebuilt proxy_fleet before unpoliced h),
  )
