-- ===== src/Sites/Tasks/Domains.antt =====
-- manager/director/apps/sites/tasks.py: `change_site_domains`, the change of a site's custom domains.
use director.Prelude.{
  ℕ, String, Bool, true, false, not, Option, none, some, List, [], ◌∷◌, ◌++◌, ◌==◌, ◌&&◌, eqb, any,
  if◌then◌else◌,
}
use director.Prelude.Text.{◌⊕◌}
use director.Prelude.Exec.{Result, ok, err, pure, ◌>>=◌, ◌>>◌}
use director.Sites.Models.{
  Site, Domain, DomainStatus, active, deleted, blocked, UrlFormats, list_urls,
}
use director.Sites.Wrapper.{text, pair, on_world}
use director.Sites.Actions.{
  Failure, does_not_exist, multiple_objects, Job, Emit, SiteCallback, fail, get_site, get_domains,
}

-- The rows with `domain=name`.
unfoldable pub rows_named : String → List Domain → List Domain
rows_named name [] = []
rows_named name (r ∷ rs) =
    let rest = rows_named name rs in if r.domain == name then r ∷ rest else rest

abbrev pub is_blocked : DomainStatus → Bool
is_blocked blocked = true
is_blocked _ = false

-- `domain_obj.site is not None and domain_obj.site.id != site.id`
abbrev pub is_foreign : ℕ → Option ℕ → Bool
is_foreign id none = false
is_foreign id (some i) = not (eqb i id)

-- Gives the row with this name to the site.
unfoldable pub take_over : ℕ → String → List Domain → List Domain
take_over id name [] = []
take_over id name (r ∷ rs) =
    (if r.domain == name then record r { site = some id; status = active } else r)
    ∷ take_over id name rs

unfoldable pub new_domain : ℕ → String → ℕ → Domain
new_domain id name user = record {
  site = some id;
  domain = name;
  creating_user = some user;
  status = active;
}

-- What one round of the loop makes of the rows, and the text that it yields, if any.
unfoldable pub claim_row :
    ℕ → String → ℕ → List Domain → List Domain → Result Failure (Option String × List Domain)
unfolding take_over new_domain
claim_row id name user [] rows = ok (none, rows ++ new_domain id name user ∷ [])
claim_row id name user (r ∷ []) rows =
    if is_blocked r.status
    then ok (some "Domain {} is blocked; silently ignoring", rows)
    else if is_foreign id r.site
    then ok (some ("Domain " ⊕ name ⊕ " belongs to another site; silently ignoring"), rows)
    else ok (none, take_over id name rows)
claim_row id name user (r ∷ r' ∷ rs) rows = err multiple_objects

unfoldable pub claim : ℕ → String → ℕ → List Domain → Result Failure (Option String × List Domain)
unfolding claim_row rows_named
claim id name user rows = claim_row id name user (rows_named name rows) rows

-- `site.domain_set.exclude(domain__in=names).update(site=None, status="deleted")`
unfoldable pub release : ℕ → List String → Domain → Domain
release id names r =
    if not (is_foreign id r.site)
      && (elim r.site [ none ↦ false | some i ↦ true ])
      && not (any (λ n. n == r.domain) names)
    then record r { site = none; status = deleted }
    else r

unfoldable pub release_all : ℕ → List String → List Domain → List Domain
unfolding release
release_all id names [] = []
release_all id names (r ∷ rs) = release id names r ∷ release_all id names rs

module _ {W : Type 0} where
  abbrev pub set_domains : List Domain → Job W (Unit {0})
  set_domains rows = on_world (λ m. record m { domains = rows })

  abbrev pub yield_text : Emit W → Option String → Job W (Unit {0})
  yield_text emit none = pure tt
  yield_text emit (some t) = emit (text t)

  abbrev pub after_claim : Emit W → Result Failure (Option String × List Domain) → Job W (Unit {0})
  after_claim emit (err e) = fail e
  after_claim emit (ok (t, rows)) = do yield_text emit t; set_domains rows

  unfoldable pub claim_all : Emit W → ℕ → ℕ → List String → Job W (Unit {0})
  unfolding claim
  claim_all emit id user [] = pure tt
  claim_all emit id user (name ∷ names) = do
    rows ← get_domains
    after_claim emit (claim id name user rows)
    claim_all emit id user names

  -- The update behind the loop.
  unfoldable pub release_others :
      UrlFormats → (List String → String) → List String → Site → Emit W → Job W (Unit {0})
  unfolding list_urls release_all
  release_others urls show names s emit = do
    rows ← get_domains
    set_domains (release_all s.id names rows)
    emit (pair "after_state" (show (list_urls urls (release_all s.id names rows) s)))

  -- What follows `get_user_model().objects.get(username=…)`.
  unfoldable pub change_domains_as :
      UrlFormats
      → (List String → String)
      → List String
      → Site
      → Emit W
      → Option ℕ
      → Job W (Unit {0})
  unfolding claim_all release_others
  change_domains_as urls show names s emit none = fail does_not_exist
  change_domains_as urls show names s emit (some user) = do
    claim_all emit s.id user names
    release_others urls show names s emit

  -- `show` is `str` of a list of texts.
  unfoldable pub change_site_domains :
      UrlFormats
      → (List String → String)
      → (String → Option ℕ)
      → List String
      → String
      → SiteCallback W
  unfolding list_urls change_domains_as
  change_site_domains urls show find_user names username emit = do
    s ← get_site
    rows ← get_domains
    emit (pair "before_state" (show (list_urls urls rows s)))
    change_domains_as urls show names s emit (find_user username)
