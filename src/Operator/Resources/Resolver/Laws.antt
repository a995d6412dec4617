-- ===== src/Operator/Resources/Resolver/Laws.antt =====
-- The addresses that references resolve to.
use shulker.Prelude.{◌≡◌, refl, String, false, List, [], ◌∷◌, none, some}
use shulker.Prelude.Text.{◌⧺◌, ends_with, replace_char}
use shulker.Outcome.{ok}
use shulker.Result.{Result}
use shulker.Operator.Resources.ResourceRef.{
  ResourceRefSpec, ResourceRefError, ResourceRef, as_url, artifact_url, parse_url,
}
use shulker.Operator.Resources.Resolver.{
  Surroundings, resolve, join_all, collect_urls, resolve_all, resolve_from, resolve_maven,
  resolve_credentials, resolve_snapshot, AgentConfig, AgentSide, get_artifact_name,
  get_agent_plugin_url,
}

module _ {Bytes Url : Type 0} (around : Surroundings Bytes Url) (ns : String) where
  -- A reference that resolves to an address.
  abbrev pub ResolvesTo : ResourceRefSpec → Url → Type 0
  ResolvesTo spec url =
      (r : ResourceRef) × (resolve around ns spec ≡ ok (Result.ok r))
      × (as_url around.urls r ≡ ok (Result.ok url))

  -- The addresses of references, one for each and in their order.
  abbrev pub AllResolveTo : List ResourceRefSpec → List Url → Type 0
  AllResolveTo [] [] = Unit
  AllResolveTo [] (url ∷ urls) = ⊥
  AllResolveTo (spec ∷ specs) [] = ⊥
  AllResolveTo (spec ∷ specs) (url ∷ urls) = ResolvesTo spec url × AllResolveTo specs urls

  resolve_in_order :
      (specs : List ResourceRefSpec) (urls : List Url)
      → AllResolveTo specs urls
      → (refs : List (Result ResourceRefError ResourceRef)) × (join_all around ns specs ≡ ok refs)
        × (collect_urls around refs ≡ ok (Result.ok urls))
  unfolding join_all collect_urls
  resolve_in_order [] [] h = ([], refl, refl)
  resolve_in_order [] (url ∷ urls) h = absurd h
  resolve_in_order (spec ∷ specs) [] h = absurd h
  resolve_in_order (spec ∷ specs) (url ∷ urls) ((r, e, f), h) =
      let (refs, j, c) = resolve_in_order specs urls h in (Result.ok r ∷ refs, rw (e, j), rw (f, c))

  -- When each reference resolves to an address, all together resolve to these addresses, in order.
  resolve_all-AllResolveTo :
      (specs : List ResourceRefSpec) (urls : List Url)
      → AllResolveTo specs urls
      → resolve_all around ns specs ≡ ok (Result.ok urls)
  unfolding resolve_all
  resolve_all-AllResolveTo specs urls h =
      let (refs, j, c) = resolve_in_order specs urls h in rw (j, c)

module _ {Bytes Url : Type 0} (around : Surroundings Bytes Url) (config : AgentConfig)
    (side : AgentSide) (platform : String) where
  abbrev agent_metadata_url : String
  agent_metadata_url =
      config.maven_repository
      ⧺ "/"
      ⧺ replace_char b'.' "/" "io.shulkermc"
      ⧺ "/"
      ⧺ get_artifact_name side
      ⧺ "/"
      ⧺ config.version
      ⧺ "/maven-metadata.xml"

  -- The agent's plugin of a released version is downloaded from the file of this version, for the
  -- side and the platform, without asking for metadata.
  agent_release :
      ends_with "-SNAPSHOT" config.version ≡ false
      → get_agent_plugin_url around config side platform
        ≡ ok (
            parse_url around.urls (
              artifact_url config.maven_repository "io.shulkermc"
                (get_artifact_name side)
                config.version
                none
                (some platform)))
  unfolding get_agent_plugin_url resolve resolve_from resolve_maven resolve_credentials
      resolve_snapshot as_url
  agent_release released = rw released
