-- ===== src/Sites/Access.antt =====
-- manager/director/apps/sites/models.py: who may see and edit a site.
use director.Prelude.{
  ◌≡◌, refl, Bool, true, false, ◌&&◌, ◌||◌, List, [], ◌∷◌, arith, eqb, any, if◌then◌else◌,
  filter_by, Bool-cases, inl, inr,
}
use director.Sites.Models.{Site, User, Availability, enabled, not_served, disabled}

-- `availability in ["enabled", "not-served"]`
unfoldable pub is_open : Availability → Bool
is_open enabled = true
is_open not_served = true
is_open disabled = false

-- `self.users.filter(id=user.id).exists()`
unfoldable pub has_user : Site → User → Bool
has_user s u = any (λ i. eqb i u.id) s.users

unfoldable pub can_be_edited_by : Site → User → Bool
unfolding is_open has_user
can_be_edited_by s u =
    u.is_authenticated && (u.is_superuser || (has_user s u && is_open s.availability))

unfoldable pub listable_by_user : User → List Site → List Site
unfolding has_user
listable_by_user u sites = if u.is_superuser then sites else filter_by (λ s. has_user s u) sites

unfoldable pub editable_by_user : User → List Site → List Site
unfolding listable_by_user is_open
editable_by_user u sites =
    let query = listable_by_user u sites in
    if u.is_superuser then query else filter_by (λ s. is_open s.availability) query

all_pass :
    (u : User) (sites : List Site)
    → u.is_authenticated ≡ true
    → u.is_superuser ≡ true
    → filter_by (λ s. can_be_edited_by s u) sites ≡ sites
unfolding can_be_edited_by
all_pass u [] auth super = refl
all_pass u (s ∷ sites) auth super = ground (arith, all_pass u sites auth super)

both_filters :
    (u : User) (sites : List Site)
    → u.is_authenticated ≡ true
    → u.is_superuser ≡ false
    → filter_by (λ s. is_open s.availability) (filter_by (λ s. has_user s u) sites)
      ≡ filter_by (λ s. can_be_edited_by s u) sites
unfolding can_be_edited_by
both_filters u [] auth plain = refl
both_filters u (s ∷ sites) auth plain = ground (arith, both_filters u sites auth plain)

-- For a user who is logged in, `editable_by_user` selects exactly the sites for which
-- `can_be_edited_by` holds, in the same order.
pub editable-can_be_edited :
    (u : User) (sites : List Site)
    → u.is_authenticated ≡ true
    → editable_by_user u sites ≡ filter_by (λ s. can_be_edited_by s u) sites
unfolding editable_by_user
editable-can_be_edited u sites auth = elim (Bool-cases u.is_superuser) [
  | inl super ↦ rw (all_pass u sites auth super) (ground arith)
  | inr plain ↦ rw (← both_filters u sites auth plain) (ground arith)
]
