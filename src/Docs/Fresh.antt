-- ===== src/Docs/Fresh.antt =====
-- What the cache of manager/director/apps/docs/utils.py may hold: pages as they are on the disk.
use director.Prelude.{
  Bytes, true, false, Option, none, some, List, [], ◌∷◌, eq_bytes, ◌≡◌, refl, sym, ◌⊎◌, inl, inr,
  Bool-cases, Option-cases, In, ℕ, ltb, ltb→lt, ◌≤◌, ◌<◌, arith,
}
use director.Prelude.Paths.{normpath}
use director.Docs.{is_within}
use director.Docs.Urls.{is_within-cases}
use director.Docs.Links.{basename}
use director.Docs.Page.{
  Meta, Disk, Entry, Cache, Setup, Loaded, loaded, crashed, readme, redirect, cache_name, absent,
  base_page_name, render, is_current, fetch, attempt, load_first,
}

cache_name_injective : (p q : Bytes) → cache_name p ≡ cache_name q → p ≡ q
cache_name_injective p q e = cc e

module _ (S : Setup) (C : Cache) where
  -- The page is made of the text that the file has now.
  abbrev pub IsMade : Disk → Bytes → Meta → Bytes → Type 0
  IsMade disk path meta html =
      (name : Bytes) × (text : Bytes) × (disk.read path ≡ some text)
      × (S.convert name text ≡ (meta, html))

  -- An entry is not of the future, and one that is newer than its file is made of the file's text.
  unfoldable pub IsValid : Disk → ℕ → C.State → Type 0
  IsValid disk now cache =
      (path : Bytes) (e : Entry)
      → C.get (cache_name path) cache ≡ some e
      → (e.time ≤ now) × (disk.mtime path < e.time → IsMade disk path e.meta e.html)

  -- A file that is displayed is one of the candidates, lies in the directory, and is as it is now.
  pub record IsCurrent (disk : Disk) (file : Bytes) (r : Loaded) : Type 0 where
    pub meta : Meta
    pub html : Bytes
    pub plain : disk.islink file ≡ false
    pub present : disk.exists file ≡ true
    pub shown : eq_bytes (basename (disk.realpath file)) readme ≡ false
    pub inside : is_within (disk.realpath file) (normpath S.docs_dir) ≡ some true
    pub made : IsMade disk (disk.realpath file) meta html
    pub result : r ≡ loaded meta (some html)

  -- How a load ends.
  pub data Outcome (disk : Disk) (paths : List (Bytes × Bytes)) (r : Loaded) : Type 0 where
    raised : r ≡ crashed → Outcome disk paths r
    unavailable : r ≡ absent → Outcome disk paths r
    redirected :
        (file extra_part url : Bytes)
        → In (file, extra_part) paths
        → disk.islink file ≡ true
        → r ≡ loaded ((redirect, url ∷ []) ∷ []) (some [])
        → Outcome disk paths r
    displayed :
        (file extra_part : Bytes)
        → In (file, extra_part) paths
        → IsCurrent disk file r
        → Outcome disk paths r

  weaken :
      (disk : Disk) (p : Bytes × Bytes) (paths : List (Bytes × Bytes)) (r : Loaded)
      → Outcome disk paths r
      → Outcome disk (p ∷ paths) r
  weaken disk p paths r (raised e) = raised e
  weaken disk p paths r (unavailable e) = unavailable e
  weaken disk p paths r (redirected file extra_part url i l e) =
      redirected file extra_part url (inr i) l e
  weaken disk p paths r (displayed file extra_part i c) = displayed file extra_part (inr i) c

  module _ (disk : Disk) (stamped : ℕ) where
    -- A load that may also have raised an exception, and the cache after it.
    abbrev IsServed : Bytes → Loaded × C.State → Type 0
    IsServed path (r, cache) =
        ((r ≡ crashed)
          ⊎ ((meta : Meta) × (html : Bytes) × IsMade disk path meta html
              × (r ≡ loaded meta (some html))))
        × IsValid disk stamped cache

    set-IsValid :
        (path : Bytes) (e : Entry) (cache : C.State)
        → IsValid disk stamped cache
        → e.time ≡ stamped
        → IsMade disk path e.meta e.html
        → IsValid disk stamped (C.set (cache_name path) e cache)
    unfolding IsValid
    set-IsValid path e cache valid t made path' e' got =
        elim (C.get-set (cache_name path) (cache_name path') e e' cache got) [
          | inl (same, f) ↦
              let p = cache_name_injective path path' same in
              rw (sym f, sym p) (omega (arith, t), λ _. made)
          | inr kept ↦ valid path' e' kept
        ]

    render-IsServed :
        (name path : Bytes) (cache : C.State)
        → IsValid disk stamped cache
        → IsServed path (render S C disk stamped name path cache)
    unfolding render
    render-IsServed name path cache valid = elim (Option-cases (disk.read path)) [
      | inl e ↦ rw (e, render) (inl refl, valid)
      | inr (text, e) ↦
          let (meta, html) = S.convert name text in
          let made : IsMade disk path meta html = (name, text, e, refl) in
          rw (e, render)
            (
              inr (meta, html, (name, text, refl, refl), refl),
              set-IsValid path (record { meta = meta; html = html; time = stamped }) cache valid
                  refl made,
            )
    ]

    fetch-IsServed :
        (name path : Bytes) (cache : C.State)
        → IsValid disk stamped cache
        → IsServed path (fetch S C disk stamped name path cache)
    unfolding fetch IsValid
    fetch-IsServed name path cache valid = elim (Option-cases (C.get (cache_name path) cache)) [
      | inl e ↦ rw (e, fetch) (render-IsServed name path cache valid)
      | inr (entry, e) ↦ elim (Bool-cases (is_current S C disk stamped path entry)) [
        | inl f ↦
            let newer : ltb (disk.mtime path) entry.time ≡ true = ground arith in
            let made = (valid path entry e).1 (ltb→lt (disk.mtime path) entry.time newer) in
            rw (e, f, fetch) (inr (entry.meta, entry.html, made, refl), valid)
        | inr f ↦ rw (e, f, fetch) (render-IsServed name path cache valid)
      ]
    ]

    -- A step of the loop: nothing for the next file, or how the load ends.
    abbrev IsStepped : Bytes → Bytes → Option (Loaded × C.State) → Type 0
    IsStepped file extra_part none = Unit
    IsStepped file extra_part (some (r, cache)) =
        Outcome disk ((file, extra_part) ∷ []) r × IsValid disk stamped cache

    served-IsStepped :
        (file extra_part : Bytes) (result : Loaded × C.State)
        → disk.islink file ≡ false
        → disk.exists file ≡ true
        → eq_bytes (basename (disk.realpath file)) readme ≡ false
        → is_within (disk.realpath file) (normpath S.docs_dir) ≡ some true
        → IsServed (disk.realpath file) result
        → IsStepped file extra_part (some result)
    served-IsStepped file extra_part (r, cache) l x h w (inl e, valid) = (raised e, valid)
    served-IsStepped file extra_part (r, cache) l x h w (inr (meta, html, made, e), valid) = (
      displayed file extra_part (inl refl) (record {
        meta = meta;
        html = html;
        plain = l;
        present = x;
        shown = h;
        inside = w;
        made = made;
        result = e;
      }),
      valid,
    )

    attempt-IsStepped :
        (page file extra_part : Bytes) (cache : C.State)
        → IsValid disk stamped cache
        → IsStepped file extra_part (attempt S C disk stamped page file extra_part cache)
    unfolding attempt
    attempt-IsStepped page file extra_part cache valid =
        let real = disk.realpath file in
        elim (Bool-cases (disk.islink file)) [
          | inl l ↦ rw (l, attempt) (redirected file extra_part _ (inl refl) l refl, valid)
          | inr l ↦ elim (Bool-cases (disk.exists file)) [
            | inr x ↦ rw (l, x, attempt) tt
            | inl x ↦ elim (Bool-cases (eq_bytes (basename real) readme)) [
              | inl h ↦ rw (l, x, h, attempt) tt
              | inr h ↦ elim (is_within-cases real (normpath S.docs_dir)) [
                | inl w ↦ rw (l, x, h, w, attempt) (raised refl, valid)
                | inr (inl w) ↦ rw (l, x, h, w, attempt) tt
                | inr (inr w) ↦
                    rw (l, x, h, w, attempt)
                      (served-IsStepped file extra_part _ l x h w
                        (fetch-IsServed (base_page_name page extra_part) real cache valid))
              ]
            ]
          ]
        ]

    -- How a load ends, and that what it leaves in the cache is valid.
    abbrev pub IsLoaded : List (Bytes × Bytes) → Loaded × C.State → Type 0
    IsLoaded paths (r, cache) = Outcome disk paths r × IsValid disk stamped cache

    widen :
        (p : Bytes × Bytes) (paths : List (Bytes × Bytes)) (r : Loaded)
        → Outcome disk (p ∷ []) r
        → Outcome disk (p ∷ paths) r
    widen p paths r (raised e) = raised e
    widen p paths r (unavailable e) = unavailable e
    widen p paths r (redirected file extra_part url (inl i) l e) =
        redirected file extra_part url (inl i) l e
    widen p paths r (displayed file extra_part (inl i) c) = displayed file extra_part (inl i) c
    widen p paths r (redirected file extra_part url (inr i) l e) = elim i [ ]
    widen p paths r (displayed file extra_part (inr i) c) = elim i [ ]

    step-IsLoaded :
        (page file extra_part : Bytes) (paths : List (Bytes × Bytes)) (cache : C.State)
        (o : Option (Loaded × C.State))
        → attempt S C disk stamped page file extra_part cache ≡ o
        → IsStepped file extra_part o
        → IsLoaded paths (load_first S C disk stamped page paths cache)
        → IsLoaded
            ((file, extra_part) ∷ paths)
            (load_first S C disk stamped page ((file, extra_part) ∷ paths) cache)
    unfolding load_first
    step-IsLoaded page file extra_part paths cache none e _ (outcome, valid) =
        rw (e, load_first) (weaken disk (file, extra_part) paths _ outcome, valid)
    step-IsLoaded page file extra_part paths cache (some (r, cache')) e (outcome, valid) _ =
        rw (e, load_first) (widen (file, extra_part) paths r outcome, valid)

    pub load_first-IsLoaded :
        (page : Bytes) (paths : List (Bytes × Bytes)) (cache : C.State)
        → IsValid disk stamped cache
        → IsLoaded paths (load_first S C disk stamped page paths cache)
    unfolding load_first
    load_first-IsLoaded page [] cache valid = (unavailable refl, valid)
    load_first-IsLoaded page ((file, extra_part) ∷ paths) cache valid =
        step-IsLoaded page file extra_part paths cache
          (attempt S C disk stamped page file extra_part cache) refl
          (attempt-IsStepped page file extra_part cache valid)
          (load_first-IsLoaded page paths cache valid)
