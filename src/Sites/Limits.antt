-- ===== src/Sites/Limits.antt =====
-- manager/director/apps/sites/models.py: the resource limits that are sent to the appservers, and
-- the filter for the sites with custom limits.
use director.Prelude.{
  ℕ, ◌≡◌, String, Bool, true, false, not, ◌||◌, ◌&&◌, Option, none, some, arith, ltb, if◌then◌else◌,
  ◌==◌,
}
use director.Sites.Models.{Site, SiteResourceLimits}

-- The limits as they are serialized; the `DIRECTOR_RESOURCES_DEFAULT_…` settings are such a record,
-- the body limit after `str`. A memory limit is a text or, by default, a number of bytes.
pub data Memory : Type 0 where
  in_bytes : ℕ → Memory
  as_text : String → Memory

pub record Limits : Type 0 where
  pub cpus : ℕ
  pub mem_limit : Memory
  pub client_body_limit : String

-- The test of the loop: not None, not "", and a number is over 0.
abbrev used_cpus : Option ℕ → ℕ → ℕ
used_cpus none d = d
used_cpus (some c) d = if ltb 0 c then c else d

unfoldable pub override : Limits → SiteResourceLimits → Limits
override d r = record {
  cpus = used_cpus r.cpus d.cpus;
  mem_limit = if r.mem_limit == "" then d.mem_limit else as_text r.mem_limit;
  client_body_limit =
      if r.client_body_limit == "" then d.client_body_limit else r.client_body_limit;
}

unfoldable pub serialize_resource_limits : Limits → Site → Limits
unfolding override
serialize_resource_limits d s = elim s.resource_limits [ none ↦ d | some r ↦ override d r ]

abbrev pub over_zero : Option ℕ → Bool
over_zero none = false
over_zero (some c) = ltb 0 c

abbrev pub is_set : Option ℕ → Bool
is_set none = false
is_set (some c) = true

-- The condition of `filter_has_custom_limits`.
unfoldable pub has_custom_limits : SiteResourceLimits → Bool
has_custom_limits r =
    is_set r.cpus
    || (over_zero r.cpus || (not (r.mem_limit == "") || not (r.client_body_limit == "")))

-- Some field takes the place of a default.
abbrev pub overrides : SiteResourceLimits → Bool
overrides r = over_zero r.cpus || (not (r.mem_limit == "") || not (r.client_body_limit == ""))

override_nothing : (d : Limits) (r : SiteResourceLimits) → overrides r ≡ false → override d r ≡ d
unfolding override
override_nothing d r h = ground arith

-- The filter selects the rows of which some field replaces a default, and besides them exactly the
-- rows with `cpus = 0` and blank texts, with which the serialized limits are the defaults.
pub has_custom_limits-overrides :
    (d : Limits) (s : Site) (r : SiteResourceLimits)
    → s.resource_limits ≡ some r
    → (has_custom_limits r ≡ (overrides r || (is_set r.cpus && not (over_zero r.cpus))))
      × (overrides r ≡ false → serialize_resource_limits d s ≡ d)
unfolding has_custom_limits serialize_resource_limits
has_custom_limits-overrides d s r e = (ground arith, λ h. rw e (override_nothing d r h))
