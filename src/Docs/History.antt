-- ===== src/Docs/History.antt =====
-- Loads of pages, manager/director/apps/docs/utils.py, between changes of the files, of the cache and of
-- the time.
use director.Prelude.{
  none-some, Bytes, true, none, some, ◌≡◌, refl, sym, ◌∙◌, ◌⊎◌, inl, inr, ℕ, ◌≤◌, arith,
}
use director.Prelude.Paths.{is_absolute}
use director.Docs.{Found, found, missing, value_error, url_to_path}
use director.Docs.Urls.{IsPublic, url_to_path-IsPublic}
use director.Docs.Page.{
  Disk, Entry, Cache, Setup, Loaded, crashed, cache_name, absent, potential_paths, load_first,
  load_doc_page,
}
use director.Docs.Fresh.{IsValid, Outcome, load_first-IsLoaded}

module _ (S : Setup) (C : Cache) where
  pub record World : Type 0 where
    pub disk : Disk
    pub now : ℕ
    pub cache : C.State

  -- A file that has another text or another time than before was modified now.
  abbrev pub IsEdit : ℕ → Disk → Disk → Type 0
  IsEdit now before after =
      (path : Bytes)
      → ((after.read path ≡ before.read path) × (after.mtime path ≡ before.mtime path))
        ⊎ (now ≤ after.mtime path)

  -- The cache loses entries, and gains none.
  abbrev pub IsEviction : C.State → C.State → Type 0
  IsEviction before after =
      (path : Bytes) (e : Entry)
      → C.get (cache_name path) after ≡ some e
      → C.get (cache_name path) before ≡ some e

  pub data Step : World → World → Type 0 where
    -- A load takes until `later`, the time in the entry that it adds. No file is edited meanwhile.
    loads :
        (page : Bytes) (w : World) (later : ℕ)
        → w.now ≤ later
        → Step w (record w { now = later; cache = (load_doc_page S C w.disk later page w.cache).1 })
    edits : (w : World) (disk : Disk) → IsEdit w.now w.disk disk → Step w (record w { disk = disk })
    waits : (w : World) (later : ℕ) → w.now ≤ later → Step w (record w { now = later })
    evicts :
        (w : World) (cache : C.State)
        → IsEviction w.cache cache
        → Step w (record w { cache = cache })

  pub data Steps : World → World → Type 0 where
    stop : (w : World) → Steps w w
    next : (u v w : World) → Steps u v → Step v w → Steps u w

  abbrev pub IsValidWorld : World → Type 0
  IsValidWorld w = IsValid S C w.disk w.now w.cache

  -- What a load gives for a page: nothing, or what the candidates of its path give.
  abbrev pub IsAnswer : Disk → Bytes → Loaded → Type 0
  IsAnswer disk page r =
      (r ≡ crashed)
      ⊎ (r ≡ absent)
      ⊎ ((base : Bytes) × (url_to_path S.docs_dir page ≡ found base)
          × IsPublic S.docs_dir base
          × Outcome S C disk (potential_paths base) r)

  module _ (disk : Disk) (now : ℕ) (page : Bytes) (cache : C.State) where
    load-value_error :
        url_to_path S.docs_dir page ≡ value_error
        → load_doc_page S C disk now page cache ≡ (crashed, cache)
    unfolding load_doc_page
    load-value_error e = rw (e, load_doc_page) refl

    load-missing :
        url_to_path S.docs_dir page ≡ missing
        → load_doc_page S C disk now page cache ≡ (absent, cache)
    unfolding load_doc_page
    load-missing e = rw (e, load_doc_page) refl

    load-found :
        (base : Bytes)
        → url_to_path S.docs_dir page ≡ found base
        → load_doc_page S C disk now page cache
          ≡ load_first S C disk now page (potential_paths base) cache
    unfolding load_doc_page
    load-found base e = rw (e, load_doc_page) refl

    module _ (root : is_absolute S.docs_dir ≡ true) (valid : IsValid S C disk now cache) where
      abbrev IsAnswered : Loaded × C.State → Type 0
      IsAnswered (r, cache') = IsAnswer disk page r × IsValid S C disk now cache'

      answer :
          (o : Found)
          → url_to_path S.docs_dir page ≡ o
          → IsAnswered (load_doc_page S C disk now page cache)
      answer value_error e = rw (load-value_error e) (inl refl, valid)
      answer missing e = rw (load-missing e) (inr (inl refl), valid)
      answer (found base) e =
          let (outcome, kept) =
            load_first-IsLoaded S C disk now page (potential_paths base) cache valid in
          rw (load-found base e)
            (inr (inr (base, e, url_to_path-IsPublic S.docs_dir page base root e, outcome)), kept)

  edit-IsValid :
      (now : ℕ) (before after : Disk) (cache : C.State)
      → IsEdit now before after
      → IsValid S C before now cache
      → IsValid S C after now cache
  unfolding IsValid
  edit-IsValid now before after cache edit valid path e got =
      let (bound, made) = valid path e got in
      (
        bound,
        λ newer. elim (edit path) [
          | inl (same, t) ↦
              let (name, text, r, c) = made (omega (arith, t, newer)) in (name, text, same ∙ r, c)
          | inr late ↦ absurd (omega (arith, bound, late, newer))
        ],
      )

  wait-IsValid :
      (now later : ℕ) (disk : Disk) (cache : C.State)
      → now ≤ later
      → IsValid S C disk now cache
      → IsValid S C disk later cache
  unfolding IsValid
  wait-IsValid now later disk cache h valid path e got =
      let (bound, made) = valid path e got in (omega (arith, bound, h), made)

  evict-IsValid :
      (now : ℕ) (disk : Disk) (before after : C.State)
      → IsEviction before after
      → IsValid S C disk now before
      → IsValid S C disk now after
  unfolding IsValid
  evict-IsValid now disk before after eviction valid path e got = valid path e (eviction path e got)

  module _ (root : is_absolute S.docs_dir ≡ true) where
    step-IsValid : {u v : World} → Step u v → IsValidWorld u → IsValidWorld v
    step-IsValid {u} (loads page _ later h) valid =
        (answer u.disk later page u.cache root (wait-IsValid u.now later u.disk u.cache h valid)
          (url_to_path S.docs_dir page) refl).1
    step-IsValid {u} (edits _ disk edit) valid = edit-IsValid u.now u.disk disk u.cache edit valid
    step-IsValid {u} (waits _ later h) valid = wait-IsValid u.now later u.disk u.cache h valid
    step-IsValid {u} (evicts _ cache h) valid = evict-IsValid u.now u.disk u.cache cache h valid

    steps-IsValid : {u v : World} → Steps u v → IsValidWorld u → IsValidWorld v
    steps-IsValid (stop w) valid = valid
    steps-IsValid (next u v w steps step) valid = step-IsValid step (steps-IsValid steps valid)

    -- Start with a cache that holds no page, and load pages, in any order, each load taking any time,
    -- while between the loads files are edited, the cache drops entries and time passes: whatever page is
    -- then asked for, the call raises an exception, finds nothing, redirects to where a symbolic link
    -- points, or returns a page that is made of the text which the file has during the call, never of an
    -- older one. The file is where a public path of the directory leads (`url_to_path-IsPublic`), it lies
    -- in the directory when symbolic links are resolved, and it is not a README. The conditions are that
    -- the directory is a path from the root, that an edit gives the file a time that is not before it, and
    -- that no file is edited during a load, from the reading of the files to the moment at which the new
    -- entry is stamped: the test `stale_page` of Docs/Tests is what happens otherwise.
    pub load_doc_page-fresh :
        (u w : World) (page : Bytes) (later : ℕ)
        → w.now ≤ later
        → ((path : Bytes) → C.get (cache_name path) u.cache ≡ none)
        → Steps u w
        → IsAnswer w.disk page (load_doc_page S C w.disk later page w.cache).0
    unfolding IsValid
    load_doc_page-fresh u w page later h empty steps =
        let start : IsValidWorld u = λ path e got. absurd (none-some (sym (empty path) ∙ got)) in
        let valid = wait-IsValid w.now later w.disk w.cache h (steps-IsValid steps start) in
        (answer w.disk later page w.cache root valid (url_to_path S.docs_dir page) refl).0
