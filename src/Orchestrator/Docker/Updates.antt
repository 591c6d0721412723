-- ===== src/Orchestrator/Docker/Updates.antt =====
-- What orchestrator/orchestrator/docker/services.py does to the services, as changes of a map from names.
use director.Prelude.{
  ℕ, ◌≡◌, ◌≢◌, refl, sym, String, Option, none, some, Option-cases, List, [], ◌∷◌, ◌==◌, filter_by,
  inl, inr, ◌⊎◌, Bool-cases, eq_iff, arith,
}
use director.Prelude.Exec.{ok}
use director.Orchestrator.Docker.Params.{
  Settings, SiteData, ServiceParams, get_director_service_name, gen_director_service_params,
}
use director.Orchestrator.Docker.Services.{
  Service, Client, is_named, get_service_by_name, update_director_service, remove_director_service,
}

-- At most one service, according to whether there are parameters under the name.
abbrev pub AreServices : Option ServiceParams → List Service → Type 0
AreServices none services = services ≡ []
AreServices (some params) services = (service : Service) × (services ≡ service ∷ [])

-- The map after is the one before, but at one name.
abbrev pub IsPut :
    String
    → Option ServiceParams
    → (String → Option ServiceParams)
    → (String → Option ServiceParams)
    → Type 0
IsPut name o before after = (after name ≡ o) × ((n : String) → n ≢ name → after n ≡ before n)

-- Docker where no call fails: names are unique, the filter of a list lets through at least the services of the
-- name that is asked for, and creation, update and removal do what they say.
pub record IsDocker {W : Type 0} (client : Client W) (services : W → String → Option ServiceParams)
    : Type 0 where
  pub listed :
      (name : String) (w : W)
      → (found : List Service) × (client.list_services name w ≡ (ok found, w))
        × AreServices (services w name) (filter_by (is_named name) found)
  pub created :
      (params : ServiceParams) (w : W)
      → services w params.name ≡ none
      → (service : Service) × (w' : W) × (client.create_service params w ≡ (ok service, w'))
        × IsPut params.name (some params) (services w) (services w')
  pub updated :
      (service : Service) (params : ServiceParams) (w : W)
      → service.name ≡ params.name
      → services w params.name ≢ none
      → (w' : W) × (client.update_service service params w ≡ (ok tt, w'))
        × IsPut params.name (some params) (services w) (services w')
  pub removed :
      (service : Service) (w : W)
      → services w service.name ≢ none
      → (w' : W) × (client.remove_service service w ≡ (ok tt, w'))
        × IsPut service.name none (services w) (services w')

filter_by-head :
    (name : String) (found : List Service) (service : Service)
    → filter_by (is_named name) found ≡ service ∷ []
    → service.name ≡ name
filter_by-head name [] service h = ground arith
filter_by-head name (s ∷ found) service h = elim (Bool-cases (s.name == name)) [
  | inl e ↦
      let h' : s ∷ filter_by (is_named name) found ≡ service ∷ [] = rw (e, filter_by) at h in
      let same : s ≡ service = ground arith in rw (sym same) ((eq_iff s.name name).0 e)
  | inr n ↦ filter_by-head name found service (rw (n, filter_by) at h)
]

module _ {W : Type 0} (client : Client W) (services : W → String → Option ServiceParams)
    (docker : IsDocker client services) where
  -- What a search by name gives.
  Found : String → W → Type 0
  Found name w =
      ((services w name ≡ none) × (get_service_by_name client name w ≡ (ok none, w)))
      ⊎ ((service : Service) × (service.name ≡ name)
          × (services w name ≢ none)
          × (get_service_by_name client name w ≡ (ok (some service), w)))

  get_service_by_name-Found : (name : String) (w : W) → Found name w
  unfolding Found get_service_by_name
  get_service_by_name-Found name w =
      let (found, e, are) = docker.listed name w in
      elim (Option-cases (services w name)) [
        | inl n ↦
            let none_found : filter_by (is_named name) found ≡ [] = rw n at are in
            inl (n, rw (e, none_found) refl)
        | inr (params, s) ↦
            let one : (service : Service) × (filter_by (is_named name) found ≡ service ∷ []) =
              rw s at are in
            inr (
              one.0,
              filter_by-head name found one.0 one.1,
              (λ q. ground arith),
              rw (e, one.1) refl,
            )
      ]

  -- From any state, where no call to Docker fails: the update of the service of a site succeeds, whether the service
  -- is there or not; after it the service of the site has the parameters that were made from the data, and no
  -- other service has changed.
  pub update_director_service-IsPut :
      (settings : Settings) (site_id : ℕ) (data' : SiteData) (w : W)
      → (service : Service) × (w' : W) × (update_director_service client settings site_id data' w
          ≡ (ok service, w'))
        × IsPut
            (get_director_service_name site_id)
            (some (gen_director_service_params settings site_id data'))
            (services w)
            (services w')
  unfolding update_director_service Found gen_director_service_params
  update_director_service-IsPut settings site_id data' w =
      let params = gen_director_service_params settings site_id data' in
      elim (get_service_by_name-Found (get_director_service_name site_id) w) [
        | inl (n, e) ↦
            let (service, w', c, is_put) = docker.created params w n in
            (service, w', rw (e, c) refl, is_put)
        | inr (service, name, s, e) ↦
            let (w', c, is_put) = docker.updated service params w name s in
            (service, w', rw (e, c) refl, is_put)
      ]

  -- From any state, where no call to Docker fails: the removal of the service of a site succeeds, whether the
  -- service is there or not; after it the site has no service, and no other service has changed.
  pub remove_director_service-IsPut :
      (site_id : ℕ) (w : W)
      → (w' : W) × (remove_director_service client site_id w ≡ (ok tt, w'))
        × IsPut (get_director_service_name site_id) none (services w) (services w')
  unfolding remove_director_service Found
  remove_director_service-IsPut site_id w =
      elim (get_service_by_name-Found (get_director_service_name site_id) w) [
        | inl (n, e) ↦ (w, rw e refl, (n, λ m d. refl))
        | inr (service, name, s, e) ↦
            let (w', c, is_put) = docker.removed service w (rw name s) in
            (w', rw (e, c) refl, rw name at is_put)
      ]
