-- ===== src/Orchestrator/Nginx/Tests.antt =====
-- Runs of the model of orchestrator/orchestrator/configs/nginx.py, and its properties at concrete inputs.
use director.Prelude.{
  ℕ, ◌≡◌, ◌≢◌, refl, sym, ◌∙◌, String, Bool, not, Option, none, some, Bool-cases, [], ◌==◌, eq_iff,
  eq_refl, ◌⊎◌, inl, inr, if◌then◌else◌,
}
use director.Prelude.Text.{◌⊕◌, str}
use director.Prelude.Exec.{ok, err}
use director.Orchestrator.Nginx.{
  null, text, texts, limits, other, NginxError, action_error, Keys, Disk, validate, config_path,
  update_nginx_config, disable_nginx_config, remove_nginx_config,
}
use director.Orchestrator.Nginx.Backups.{IsDisk, is_some, backed_up, update_nginx_config-backup}

abbrev Files : Type 0
Files = String → Option String

abbrev set : String → Option String → Files → Files
set path o files p = if p == path then o else files p

-- A disk that does not fail.
abbrev disk : Disk Files
disk = record {
  exists = λ path w. is_some (w path);
  move = λ from to w. (ok tt, set from none (set to (w from) w));
  write_file = λ path contents w. (ok tt, set path (some contents) w);
  remove = λ path w. (ok tt, set path none w);
}

set-same : (path : String) (o : Option String) (files : Files) → set path o files path ≡ o
set-same path o files = rw (eq_refl path) refl

set-other :
    (path : String) (o : Option String) (files : Files) (p : String)
    → p ≢ path
    → set path o files p ≡ files p
set-other path o files p d = elim (Bool-cases (p == path)) [
  | inl e ↦ elim (d ((eq_iff p path).0 e)) [ ]
  | inr n ↦ rw n refl
]

disk-IsDisk : IsDisk disk (λ w. w)
disk-IsDisk = record {
  existing = λ path w. refl;
  moved = λ from to contents w d e. (
    _,
    refl,
    set-same from none (set to (w from) w),
    set-other from none (set to (w from) w) to (λ q. d (sym q)) ∙ set-same to (w from) w ∙ e,
    λ p d' d''. set-other from none (set to (w from) w) p d' ∙ set-other to (w from) w p d'',
  );
  writes = λ path contents w.
      (_, refl, set-same path (some contents) w, λ p d. set-other path (some contents) w p d);
  removed = λ path w n. (_, refl, set-same path none w, λ p d. set-other path none w p d);
}

abbrev any_match : String → String → Bool
any_match pattern s = not (s == "Bad")

abbrev quoted : Option String → String
quoted none = "None"
quoted (some s) = "'" ⊕ s ⊕ "'"

abbrev rendered : ℕ → Keys → String
rendered site_id keys = "server {}"

abbrev keys_of : String → Keys
keys_of name key =
    if key == "name"
    then some (text name)
    else if key == "no_redirect_domains"
    then some (texts [])
    else if key == "primary_url_base"
    then some null
    else if key == "resource_limits"
    then some (limits (some "10M"))
    else some other

abbrev before : Files
before = set "/etc/site-7.conf" (some "old") (λ p. none)

refused_test :
    update_nginx_config disk any_match quoted rendered "/etc" 7 (keys_of "Bad") before
    ≡ (err (action_error "Invalid name"), before)
unfolding update_nginx_config
refused_test = refl

backup_test :
    let w =
      (update_nginx_config disk any_match quoted rendered "/etc" 7 (keys_of "site") before).1 in
    (w "/etc/site-7.conf" ≡ some "server {}") × (w "/etc/site-7.conf.bak" ≡ some "old")
unfolding update_nginx_config str
backup_test = (refl, refl)

removed_test : (remove_nginx_config disk "/etc" 7 before).1 "/etc/site-7.conf" ≡ none
unfolding remove_nginx_config str
removed_test = refl

update_nginx_config-backup_example :
    let path = config_path "/etc" 7 in
    let run = update_nginx_config disk any_match quoted rendered "/etc" 7 (keys_of "site") before in
    ((e : NginxError) × (validate any_match quoted (keys_of "site") ≡ err e)
      × (run ≡ (err e, before)))
    ⊎ ((validate any_match quoted (keys_of "site") ≡ ok tt)
        × ((w' : Files) × (run ≡ (ok tt, w'))
            × (w' path ≡ some "server {}")
            × (w' (path ⊕ ".bak") ≡ backed_up (before path) (before (path ⊕ ".bak")))
            × ((p : String) → p ≢ path → p ≢ path ⊕ ".bak" → w' p ≡ before p)))
update_nginx_config-backup_example =
    update_nginx_config-backup disk (λ w. w) disk-IsDisk any_match quoted rendered "/etc" 7
      (keys_of "site") before

disabled_test :
    let w = (disable_nginx_config disk "/etc" 7 before).1 in
    (w "/etc/site-7.conf" ≡ none) × (w "/etc/site-7.conf.bad" ≡ some "old")
unfolding disable_nginx_config str
disabled_test = (refl, refl)
