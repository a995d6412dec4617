-- ===== src/Operator/MinecraftServer/Rcon.antt =====
-- packages/shulker-operator/src/reconcilers/minecraft_server/gameserver.rs: which values the
-- variables of a server have, in particular the two of the RCON password.
use shulker.Prelude.{String, List, ◌++◌, Option, none, some, ◌≡◌, refl, sym, ◌⊎◌, inl, inr}
use shulker.Outcome.{Outcome, ok}
use shulker.Fallible.{and_then-eq-ok}
use shulker.Result.{Result}
use shulker.Kubernetes.Pod.{EnvVar, env_value}
use shulker.Crds.Schemas.{or}
use shulker.Crds.MinecraftServer.{MinecraftServer}
use shulker.Crds.MinecraftServerFleet.{MinecraftServerFleet}
use shulker.Operator.BuildError.{BuildError}
use shulker.Operator.Resources.ResourceRef.{ResourceRefSpec}
use shulker.Operator.Resources.Resolver.{Surroundings}
use shulker.Operator.Cluster.Redis.{RedisRef, from_cluster}
use shulker.Operator.Pods.{env_overrides, redis_credentials}
use shulker.Operator.Pods.Laws.{effective, effective-append}
use shulker.Operator.MinecraftServer.{GameServerBuilderContext}
use shulker.Operator.MinecraftServer.Env.{
  get_env, version_env, resolve_one, base_env, owner_env, get_rcon_password,
}

abbrev success : List EnvVar → Outcome (Result BuildError (List EnvVar))
success env = ok (Result.ok env)

success-injective : {a b : List EnvVar} → success a ≡ success b → a ≡ b
success-injective h = cc

effective-parts :
    (name : String) (a b c d e : List EnvVar)
    → effective name (a ++ b ++ c ++ d ++ e)
      ≡ or
          (effective name e)
          (or (effective name d) (or (effective name c) (or (effective name b) (effective name a))))
effective-parts name a b c d e = rw (
  effective-append name (a ++ b ++ c ++ d) e,
  effective-append name (a ++ b ++ c) d,
  effective-append name (a ++ b) c,
  effective-append name a b,
)

-- The names of the variables that hold the password.
abbrev pub IsRconName : String → Type 0
IsRconName name = (name ≡ "RCON_PASSWORD") ⊎ (name ≡ "CFG_RCON_PASSWORD")

credentials_free :
    (name : String) (secret : Option String)
    → IsRconName name
    → effective name (redis_credentials secret) ≡ none
unfolding effective
credentials_free name none h = refl
credentials_free name (some secret) (inl e) = rw e
credentials_free name (some secret) (inr e) = rw e

owner_free :
    (name : String) (fleet : Option MinecraftServerFleet)
    → IsRconName name
    → effective name (owner_env fleet) ≡ none
unfolding effective
owner_free name none h = refl
owner_free name (some fleet) (inl e) = rw e
owner_free name (some fleet) (inr e) = rw e

-- The operator's own value, under both names.
base_password :
    (context : GameServerBuilderContext) (minecraft_server : MinecraftServer) (r : RedisRef)
    (name : String)
    → IsRconName name
    → effective name (base_env context minecraft_server r)
      ≡ some (env_value name (get_rcon_password context.rcon_password_variable))
unfolding effective
base_password context minecraft_server r name (inl e) = rw e
base_password context minecraft_server r name (inr e) = rw e

module _ {Bytes Url : Type 0} (around : Surroundings Bytes Url) (show_url : Url → String) where
  version_free :
      (name : String) (minecraft_server : MinecraftServer) (custom_jar : Option ResourceRefSpec)
      {vars : List EnvVar}
      → IsRconName name
      → version_env around show_url minecraft_server custom_jar ≡ ok (Result.ok vars)
      → effective name vars ≡ none
  unfolding version_env effective
  version_free name minecraft_server none (inl e) h = rw (sym (success-injective h), e)
  version_free name minecraft_server none (inr e) h = rw (sym (success-injective h), e)
  version_free name minecraft_server (some custom_jar) (inl e) h =
      let (url, _, done) =
        and_then-eq-ok (resolve_one around show_url minecraft_server.namespace custom_jar) _ h in
      rw (sym (success-injective done), e)
  version_free name minecraft_server (some custom_jar) (inr e) h =
      let (url, _, done) =
        and_then-eq-ok (resolve_one around show_url minecraft_server.namespace custom_jar) _ h in
      rw (sym (success-injective done), e)

  -- The parts of the environment of a server, in order.
  get_env-eq-ok :
      (context : GameServerBuilderContext) (minecraft_server : MinecraftServer) {env : List EnvVar}
      → get_env around show_url context minecraft_server ≡ ok (Result.ok env)
      → (r : RedisRef) × (version : List EnvVar) × (version_env around show_url minecraft_server
            minecraft_server.spec.version.custom_jar
          ≡ ok (Result.ok version))
        × (env
            ≡ base_env context minecraft_server r
              ++ redis_credentials r.credentials_secret_name
              ++ owner_env context.owning_fleet
              ++ version
              ++ env_overrides minecraft_server.spec.pod_overrides)
  unfolding get_env
  get_env-eq-ok context minecraft_server h =
      let (r, _, rest) = and_then-eq-ok (ok (from_cluster context.cluster)) _ h in
      let (version, found, done) =
        and_then-eq-ok
          (version_env around show_url minecraft_server minecraft_server.spec.version.custom_jar) _
          rest in
      (r, version, found, sym (success-injective done))

  -- A variable that the overrides of a server set has the value that they give it.
  pub env_override_wins :
      (context : GameServerBuilderContext) (minecraft_server : MinecraftServer) (name : String)
      (var : EnvVar) {env : List EnvVar}
      → get_env around show_url context minecraft_server ≡ ok (Result.ok env)
      → effective name (env_overrides minecraft_server.spec.pod_overrides) ≡ some var
      → effective name env ≡ some var
  env_override_wins context minecraft_server name var h given =
      let (r, version, _, parts) = get_env-eq-ok context minecraft_server h in
      rw (
        parts,
        effective-parts name (base_env context minecraft_server r)
            (redis_credentials r.credentials_secret_name) (owner_env context.owning_fleet) version
            (env_overrides minecraft_server.spec.pod_overrides),
        given,
      )

  -- The two variables of the RCON password, the one in the properties and the one of the client,
  -- have the same value, that of the operator, unless overrides set them.
  pub rcon_password_agrees :
      (context : GameServerBuilderContext) (minecraft_server : MinecraftServer) (name : String)
      {env : List EnvVar}
      → get_env around show_url context minecraft_server ≡ ok (Result.ok env)
      → IsRconName name
      → effective name (env_overrides minecraft_server.spec.pod_overrides) ≡ none
      → effective name env
        ≡ some (env_value name (get_rcon_password context.rcon_password_variable))
  rcon_password_agrees context minecraft_server name h rcon free =
      let (r, version, found, parts) = get_env-eq-ok context minecraft_server h in
      rw (
        parts,
        effective-parts name (base_env context minecraft_server r)
            (redis_credentials r.credentials_secret_name) (owner_env context.owning_fleet) version
            (env_overrides minecraft_server.spec.pod_overrides),
        free,
        version_free name minecraft_server minecraft_server.spec.version.custom_jar rcon found,
        owner_free name context.owning_fleet rcon,
        credentials_free name r.credentials_secret_name rcon,
        base_password context minecraft_server r name rcon,
      )
