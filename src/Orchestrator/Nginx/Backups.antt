-- ===== src/Orchestrator/Nginx/Backups.antt =====
-- What the functions of orchestrator/orchestrator/configs/nginx.py leave on the disk.
use director.Prelude.{
  ℕ, ◌==◌, ◌≡◌, ◌≢◌, refl, ap, sym, ◌∙◌, String, Bool, true, false, Option, none, some,
  Option-cases, ◌⊎◌, inl, inr, arith,
}
use text.Mathlib.TextLemmas.{append_cancel_left, append-nil}
use director.Prelude.Text.{◌⊕◌}
use director.Prelude.Exec.{Result-cases, ok, err}
use director.Orchestrator.Nginx.{
  Keys, NginxError, Disk, validate, config_path, move_away, update_nginx_config,
}

abbrev pub is_some : Option String → Bool
is_some none = false
is_some (some s) = true

-- A disk on which no call fails: `files` is what the files hold.
pub record IsDisk {W : Type 0} (disk : Disk W) (files : W → String → Option String) : Type 0 where
  pub existing : (path : String) (w : W) → disk.exists path w ≡ is_some (files w path)
  pub moved :
      (from to contents : String) (w : W)
      → from ≢ to
      → files w from ≡ some contents
      → (w' : W) × (disk.move from to w ≡ (ok tt, w'))
        × (files w' from ≡ none)
        × (files w' to ≡ some contents)
        × ((p : String) → p ≢ from → p ≢ to → files w' p ≡ files w p)
  pub writes :
      (path contents : String) (w : W)
      → (w' : W) × (disk.write_file path contents w ≡ (ok tt, w'))
        × (files w' path ≡ some contents)
        × ((p : String) → p ≢ path → files w' p ≡ files w p)
  pub removed :
      (path : String) (w : W)
      → files w path ≢ none
      → (w' : W) × (disk.remove path w ≡ (ok tt, w'))
        × (files w' path ≡ none)
        × ((p : String) → p ≢ path → files w' p ≡ files w p)

suffix-differs : (path suffix : String) → "" ≢ suffix → path ≢ path ⊕ suffix
suffix-differs path suffix n e = n (append_cancel_left path "" suffix (append-nil path ∙ e))

-- The contents of a backup: those that were moved, or what it held where there was nothing to move.
abbrev pub backed_up : Option String → Option String → Option String
backed_up none backup = backup
backed_up (some contents) backup = some contents

-- What was under the path is now under the path with the suffix, and all else is as it was.
IsMoved : (String → Option String) → (String → Option String) → String → String → Type 0
IsMoved before after path suffix =
    (after path ≡ none)
    × (after (path ⊕ suffix) ≡ backed_up (before path) (before (path ⊕ suffix)))
    × ((p : String) → p ≢ path → p ≢ path ⊕ suffix → after p ≡ before p)

bak-differs : ◌≢◌ {A = String} "" ".bak"
bak-differs e = let q : true ≡ false = ap (λ s. s == "") e in ground arith

module _ {W : Type 0} (disk : Disk W) (files : W → String → Option String)
    (sound : IsDisk disk files) where
  move_away-IsMoved :
      (prefix' suffix path : String) (w : W)
      → "" ≢ suffix
      → (w' : W) × (move_away disk prefix' suffix path w ≡ (ok tt, w'))
        × IsMoved (files w) (files w') path suffix
  unfolding move_away IsMoved
  move_away-IsMoved prefix' suffix path w n = elim (Option-cases (files w path)) [
    | inl e ↦
        let there : disk.exists path w ≡ false = sound.existing path w ∙ ap is_some e in
        (w, rw there refl, (e, rw e refl, λ p d d'. refl))
    | inr (contents, e) ↦
        let there : disk.exists path w ≡ true = sound.existing path w ∙ ap is_some e in
        let (w', m, gone, here, rest) =
          sound.moved path (path ⊕ suffix) contents w (suffix-differs path suffix n) e in
        (w', rw (there, m) refl, (gone, rw e here, rest))
  ]

  -- On a disk that does not fail: keys that are refused raise what they are refused for, and nothing has changed; with
  -- keys that are not, the update succeeds, the configuration of the site is the text that was rendered,
  -- the one that it replaces is its backup, and no other file has changed.
  pub update_nginx_config-backup :
      (matches : String → String → Bool) (repr : Option String → String)
      (render : ℕ → Keys → String) (directory : String) (site_id : ℕ) (keys : Keys) (w : W)
      → let path = config_path directory site_id in
        let run = update_nginx_config disk matches repr render directory site_id keys w in
        ((e : NginxError) × (validate matches repr keys ≡ err e) × (run ≡ (err e, w)))
        ⊎ ((validate matches repr keys ≡ ok tt)
            × ((w' : W) × (run ≡ (ok tt, w'))
                × (files w' path ≡ some (render site_id keys))
                × (files w' (path ⊕ ".bak") ≡ backed_up (files w path) (files w (path ⊕ ".bak")))
                × ((p : String) → p ≢ path → p ≢ path ⊕ ".bak" → files w' p ≡ files w p)))
  unfolding update_nginx_config IsMoved
  update_nginx_config-backup matches repr render directory site_id keys w =
      elim (Result-cases (validate matches repr keys)) [
        | inr (e, v) ↦ inl (e, v, rw v refl)
        | inl (u, v) ↦
            let path = config_path directory site_id in
            let (w1, m, (gone, kept, rest)) =
              move_away-IsMoved "Error backing up old Nginx config: " ".bak" path w bak-differs in
            let (w2, m', new, rest') = sound.writes path (render site_id keys) w1 in
            inr (
              v,
              (
                w2,
                rw (v, m, m') refl,
                new,
                rest' (path ⊕ ".bak") (λ e. suffix-differs path ".bak" bak-differs (sym e)) ∙ kept,
                λ p d d'. rest' p d ∙ rest p d d',
              ),
            )
      ]
