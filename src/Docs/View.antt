-- ===== src/Docs/View.antt =====
-- manager/director/apps/docs/views.py: `doc_page_view`.
use director.Prelude.{
  Bytes, Bool, true, false, not, ◌&&◌, ◌||◌, Option, none, some, [], ◌∷◌, ◌++◌, eq_bytes, eqb,
  if◌then◌else◌, ◌≡◌, refl, ◌∙◌, inl, inr, Bool-cases, Option-cases, ℕ, arith,
}
use director.Prelude.Paths.{slash, is_absolute, ends_slash, is_null, starts_with, normpath}
use director.Docs.{Found, found, missing, value_error, find_static_file, url_to_path}
use director.Docs.Urls.{IsPublic, url_to_path-IsPublic, is_within-cases}
use director.Docs.Links.{extension, md, without_md, strip, add_url_docs_prefix}
use director.Docs.Page.{Disk, Cache, Setup, Loaded, loaded, crashed, Meta, load_doc_page, redirect}

-- What is sent: a redirect to another URL of the documentation, or to where a page redirects; a file; a
-- page, with `doc_page` and `doc_content` of its context; 404; or an exception.
pub data Response : Type 0 where
  redirect_page : (url : Bytes) → Response
  redirect_to : (location : Bytes) → Response
  file : (path : Bytes) → Response
  page : (doc_page doc_content : Bytes) → Response
  not_found failed : Response

-- `"//" in url`
abbrev pub has_double : Bytes → Bool
has_double [] = false
has_double (c ∷ cs) = starts_with (slash ∷ slash ∷ []) (c ∷ cs) || has_double cs

-- `re.sub(r"/+", "/", url)`
abbrev pub squeeze : Bytes → Bytes
squeeze [] = []
squeeze (c ∷ cs) = let rest = squeeze cs in if eqb c slash && is_absolute cs then rest else c ∷ rest

-- `metadata.get("Redirect")`, and its first element.
abbrev redirect_of : Meta → Option Bytes
redirect_of [] = none
redirect_of ((key, values) ∷ meta) =
    let rest = redirect_of meta in
    if eq_bytes key redirect then elim values [ [] ↦ none | value ∷ _ ↦ some value ] else rest

module _ (S : Setup) (C : Cache) (disk : Disk) (isfile : Bytes → Bool) (stamped : ℕ) where
  abbrev unclosed : Bytes → Bool
  unclosed url = not (is_null url) && not (ends_slash url)

  -- What is sent for what was loaded.
  unfoldable pub present : (url : Bytes) → Loaded → Response
  present url crashed = failed
  present url (loaded meta none) = not_found
  present url (loaded meta (some html)) = elim (redirect_of meta) [
    | some location ↦ redirect_to (add_url_docs_prefix S.urls location)
    | none ↦ if unclosed url then redirect_page (url ++ slash ∷ []) else page (strip url) html
  ]

  -- From where no file was found.
  unfoldable pub find_page : (url : Bytes) → C.State → Response × C.State
  unfolding present load_doc_page
  find_page url cache =
      let (r, cache') = load_doc_page S C disk stamped url cache in
      if has_double url || is_absolute url
      then (redirect_page (squeeze (strip url ++ slash ∷ [])), cache)
      else (if is_null (extension url) && unclosed url
          then (redirect_page (url ++ slash ∷ []), cache)
          else (present url r, cache'))

  -- `open(fpath, "rb")` raises FileNotFoundError only where the file is gone by then.
  unfoldable pub static_file : (url : Bytes) → Option Response
  unfolding find_static_file
  static_file url = elim (find_static_file S.docs_dir url) [
    | value_error ↦ some failed
    | missing ↦ none
    | found path ↦ if isfile path then some (file path) else none
  ]

  unfoldable pub doc_page_view : (url : Bytes) → C.State → Response × C.State
  doc_page_view url cache =
      if eq_bytes (extension url) md
      then (redirect_page (without_md url ++ slash ∷ []), cache)
      else (if is_null (extension url) then find_page url cache else elim (static_file url) [
        | some response ↦ (response, cache)
        | none ↦ find_page url cache
      ])

  -- What `find_static_file` finds is what `url_to_path` finds.
  find_static_file-found :
      (url path : Bytes)
      → find_static_file S.docs_dir url ≡ found path
      → url_to_path S.docs_dir url ≡ found path
  unfolding find_static_file
  find_static_file-found url path e = go (url_to_path S.docs_dir url) refl
    where
      go : (o : Found) → url_to_path S.docs_dir url ≡ o → url_to_path S.docs_dir url ≡ found path
      go value_error f = absurd (ground (arith, rw (f, find_static_file) at e))
      go missing f = absurd (ground (arith, rw (f, find_static_file) at e))
      go (found p) f = elim (is_within-cases p (normpath S.docs_dir)) [
        | inl w ↦ absurd (ground (arith, rw (f, w, find_static_file) at e))
        | inr (inl w) ↦ absurd (ground (arith, rw (f, w, find_static_file) at e))
        | inr (inr w) ↦
            let same : found p ≡ found path = rw (f, w, find_static_file) at e in f ∙ same
      ]

  -- A file that is sent is public.
  abbrev pub IsSafe : Response → Type 0
  IsSafe (file path) = IsPublic S.docs_dir path × (isfile path ≡ true)
  IsSafe (redirect_page url) = Unit
  IsSafe (redirect_to location) = Unit
  IsSafe (page doc_page doc_content) = Unit
  IsSafe not_found = Unit
  IsSafe failed = Unit

  present-IsSafe : (url : Bytes) (r : Loaded) → IsSafe (present url r)
  unfolding present
  present-IsSafe url crashed = tt
  present-IsSafe url (loaded meta none) = tt
  present-IsSafe url (loaded meta (some html)) = elim (Option-cases (redirect_of meta)) [
    | inr (location, e) ↦ rw (e, present) tt
    | inl e ↦ elim (Bool-cases (unclosed url)) [
      | inl f ↦ rw (e, f, present) tt
      | inr f ↦ rw (e, f, present) tt
    ]
  ]

  find_page-IsSafe : (url : Bytes) (cache : C.State) → IsSafe (find_page url cache).0
  unfolding find_page
  find_page-IsSafe url cache = elim (Bool-cases (has_double url || is_absolute url)) [
    | inl e ↦ rw (e, find_page) tt
    | inr e ↦ elim (Bool-cases (is_null (extension url) && unclosed url)) [
      | inl f ↦ rw (e, f, find_page) tt
      | inr f ↦
          rw (e, f, find_page) (present-IsSafe url (load_doc_page S C disk stamped url cache).0)
    ]
  ]

  module _ (root : is_absolute S.docs_dir ≡ true) where
    abbrev IsSafeOption : Option Response → Type 0
    IsSafeOption none = Unit
    IsSafeOption (some response) = IsSafe response

    static_file-IsSafe : (url : Bytes) → IsSafeOption (static_file url)
    unfolding static_file
    static_file-IsSafe url = go (find_static_file S.docs_dir url) refl
      where
        go : (o : Found) → find_static_file S.docs_dir url ≡ o → IsSafeOption (static_file url)
        go value_error e = rw (e, static_file) tt
        go missing e = rw (e, static_file) tt
        go (found path) e = elim (Bool-cases (isfile path)) [
          | inr f ↦ rw (e, f, static_file) tt
          | inl f ↦
              rw (e, f, static_file)
                (
                  url_to_path-IsPublic S.docs_dir url path root (find_static_file-found url path e),
                  f,
                )
        ]

    -- Whatever is asked for and whatever the cache holds, a file that is sent is a file, in the
    -- directory of the documentation, under names none of which begins with a dot. The directory is a
    -- path from the root.
    pub doc_page_view-IsSafe : (url : Bytes) (cache : C.State) → IsSafe (doc_page_view url cache).0
    unfolding doc_page_view
    doc_page_view-IsSafe url cache = elim (Bool-cases (eq_bytes (extension url) md)) [
      | inl e ↦ rw (e, doc_page_view) tt
      | inr e ↦ elim (Bool-cases (is_null (extension url))) [
        | inl f ↦ rw (e, f, doc_page_view) (find_page-IsSafe url cache)
        | inr f ↦ go e f (static_file url) refl (static_file-IsSafe url)
      ]
    ]
      where
        go :
            eq_bytes (extension url) md ≡ false
            → is_null (extension url) ≡ false
            → (o : Option Response) → static_file url ≡ o
            → IsSafeOption o
            → IsSafe (doc_page_view url cache).0
        go e f none g h = rw (e, f, g, doc_page_view) (find_page-IsSafe url cache)
        go e f (some response) g h = rw (e, f, g, doc_page_view) h
