-- ===== src/Router/Frame.antt =====
-- What the pages of router/router/app.py leave in the directory of Nginx.
use director.Prelude.{
  Bytes, Bool, true, false, Option, none, some, List, [], ◌∷◌, ◌++◌, eqb, all, In, if◌then◌else◌, ℕ,
  ◌≡◌, ◌≢◌, refl, ap, ◌∙◌, ◌⊎◌, inl, inr, Bool-cases, Option-cases, arith,
}
use director.Router.{
  reload, Host, State, Answer, success, failed, name_characters, domain_characters, lookup,
  remove_config, write_config, write_and_reload, update_config, page, update_nginx_page,
  remove_nginx_page,
}
use director.Router.Values.{
  Json, text, iterate, get_field, contains, is_proper_subset, is_proper_subset-text, name_key,
  custom_domains_key,
}

-- The other sites keep their files.
abbrev pub KeepsOthers : ℕ → List (ℕ × Bytes) → List (ℕ × Bytes) → Type 0
KeepsOthers site_id before after =
    (other : ℕ) → eqb other site_id ≡ false → lookup other after ≡ lookup other before

remove_config-KeepsOthers :
    (site_id : ℕ) (configs : List (ℕ × Bytes))
    → KeepsOthers site_id configs (remove_config site_id configs)
unfolding remove_config
remove_config-KeepsOthers site_id [] other e = refl
remove_config-KeepsOthers site_id ((id, config) ∷ configs) other e =
    elim (Bool-cases (eqb id site_id)) [
      | inl f ↦
          let g : eqb id other ≡ false = ground arith in
          rw (f, g) (remove_config-KeepsOthers site_id configs other e)
      | inr f ↦ rw (f, remove_config-KeepsOthers site_id configs other e) refl
    ]

pub remove_config-lookup :
    (site_id : ℕ) (configs : List (ℕ × Bytes))
    → lookup site_id (remove_config site_id configs) ≡ none
unfolding remove_config
remove_config-lookup site_id [] = refl
remove_config-lookup site_id ((id, config) ∷ configs) = elim (Bool-cases (eqb id site_id)) [
  | inl f ↦ rw f (remove_config-lookup site_id configs)
  | inr f ↦ rw (f, f) (remove_config-lookup site_id configs)
]

write_config-KeepsOthers :
    (site_id : ℕ) (config : Bytes) (configs : List (ℕ × Bytes))
    → KeepsOthers site_id configs (write_config site_id config configs)
write_config-KeepsOthers site_id config configs other e =
    let f : eqb site_id other ≡ false = ground arith in
    rw f (remove_config-KeepsOthers site_id configs other e)

failed-success : failed ≢ success
failed-success e = ground (arith, e)

all-In : {A : Type 0} (p : A → Bool) (x : A) (xs : List A) → all p xs ≡ true → In x xs → p x ≡ true
all-In p x [] h i = elim i [ ]
all-In p x (y ∷ ys) h (inl e) = let f : p y ≡ true = ground arith in ap p e ∙ f
all-In p x (y ∷ ys) h (inr i) = let rest : all p ys ≡ true = ground arith in all-In p x ys rest i

is_eq : (n : ℕ) → eqb n n ≡ true
is_eq n = ground arith

module _ (H : Host) where
  -- The configuration was written: of a name and of domains each of which, as Python iterates over it, gives
  -- harmless characters only, so that those that are texts are made of them; the other files are as they
  -- were, and Nginx is told to read them.
  pub record IsWritten (site_id : ℕ) (form : Option Bytes) (s : State) (answer : Answer)
      (s' : State) : Type 0 where
    pub posted_text : Bytes
    pub content : Json
    pub name : Json
    pub domains : Json
    pub elements : List Json
    pub posted : form ≡ some posted_text
    pub parsed : H.json_loads posted_text ≡ some content
    pub name_given : get_field name_key content ≡ some name
    pub domains_given : get_field custom_domains_key content ≡ some domains
    pub listed : iterate domains ≡ some elements
    pub checked_name : is_proper_subset name name_characters ≡ true
    pub checked_domains : all (λ domain. is_proper_subset domain domain_characters) elements ≡ true
    pub safe_name : (cs : Bytes) → name ≡ text cs → all (contains name_characters) cs ≡ true
    pub safe_domains :
        (cs : Bytes) → In (text cs) elements → all (contains domain_characters) cs ≡ true
    pub written : lookup site_id s'.configs ≡ some (H.render site_id name domains)
    pub others : KeepsOthers site_id s.configs s'.configs
    pub started : s'.started ≡ s.started ++ reload ∷ []
    pub answered : answer ≡ (if H.succeeds reload then success else failed)

  abbrev pub IsUpdated : ℕ → Option Bytes → State → Answer × State → Type 0
  IsUpdated site_id form s (answer, s') =
      ((answer ≢ success) × (s' ≡ s)) ⊎ IsWritten site_id form s answer s'

  page-answer : (r : Bool × State) → (page H r).0 ≡ (if r.0 then success else failed)
  page-answer (true, s) = refl
  page-answer (false, s) = refl

  page-state : (r : Bool × State) → (page H r).1 ≡ r.1
  page-state (true, s) = refl
  page-state (false, s) = refl

  removed-KeepsOthers :
      (site_id : ℕ) (config : Bytes) (elements : List Json) (configs : List (ℕ × Bytes))
      → KeepsOthers site_id configs (
          write_config site_id config (elim elements as (λ _. List (ℕ × Bytes)) [
            | [] ↦ remove_config site_id configs
            | _ ↦ configs
          ]))
  removed-KeepsOthers site_id config [] configs other e =
      write_config-KeepsOthers site_id config (remove_config site_id configs) other e
      ∙ remove_config-KeepsOthers site_id configs other e
  removed-KeepsOthers site_id config (domain ∷ elements) configs other e =
      write_config-KeepsOthers site_id config configs other e

  update_nginx_page-page :
      (site_id : ℕ) (posted : Bytes) (content : Json) (s : State)
      → H.json_loads posted ≡ some content
      → update_nginx_page H site_id (some posted) s ≡ page H (update_config H site_id content s)
  unfolding update_nginx_page
  update_nginx_page-page site_id posted content s e = simp (e, update_nginx_page)

  write-IsWritten :
      (site_id : ℕ) (posted : Bytes) (content name domains : Json) (elements : List Json)
      (s : State)
      → H.json_loads posted ≡ some content
      → get_field name_key content ≡ some name
      → get_field custom_domains_key content ≡ some domains
      → iterate domains ≡ some elements
      → is_proper_subset name name_characters ≡ true
      → all (λ domain. is_proper_subset domain domain_characters) elements ≡ true
      → (r : Bool × State) → r ≡ write_and_reload H site_id name domains elements s
      → IsUpdated site_id (some posted) s (page H r)
  write-IsWritten site_id posted content name domains elements s parsed n d l checked_name
        checked_domains r e =
      let state = page-state r ∙ ap (λ x. x.1) e in
      inr (record {
        posted_text = posted;
        content = content;
        name = name;
        domains = domains;
        elements = elements;
        posted = refl;
        parsed = parsed;
        name_given = n;
        domains_given = d;
        listed = l;
        checked_name = checked_name;
        checked_domains = checked_domains;
        safe_name = λ cs f. is_proper_subset-text name_characters cs (rw f at checked_name);
        safe_domains = λ cs i. is_proper_subset-text domain_characters cs (
            all-In (λ domain. is_proper_subset domain domain_characters) (text cs) elements
              checked_domains i);
        written = ap (λ x. lookup site_id x.configs) state ∙ (rw (is_eq site_id) refl);
        others = λ other f.
            ap (λ x. lookup other x.configs) state
            ∙ removed-KeepsOthers site_id (H.render site_id name domains) elements s.configs other
                f;
        started = ap (λ x. x.started) state;
        answered = page-answer r ∙ ap (λ x. if x.0 then success else failed) e;
      })

  update_config-IsUpdated :
      (site_id : ℕ) (posted : Bytes) (content : Json) (s : State)
      → H.json_loads posted ≡ some content
      → IsUpdated site_id (some posted) s (page H (update_config H site_id content s))
  unfolding update_config
  update_config-IsUpdated site_id posted content s e =
      elim (Option-cases (get_field name_key content)) [
        | inl f ↦ simp (f, update_config) (inl (failed-success, refl))
        | inr (name, f) ↦ elim (Bool-cases (is_proper_subset name name_characters)) [
          | inr g ↦ simp (f, g, update_config) (inl (failed-success, refl))
          | inl g ↦ elim (Option-cases (get_field custom_domains_key content)) [
            | inl h ↦ simp (f, g, h, update_config) (inl (failed-success, refl))
            | inr (domains, h) ↦ elim (Option-cases (iterate domains)) [
              | inl l ↦ simp (f, g, h, l, update_config) (inl (failed-success, refl))
              | inr (elements, l) ↦
                  elim (Bool-cases
                    (all (λ domain. is_proper_subset domain domain_characters) elements)) [
                      | inr k ↦ simp (f, g, h, l, k, update_config) (inl (failed-success, refl))
                      | inl k ↦
                          write-IsWritten site_id posted content name domains elements s e f h l g k
                            _ (simp (f, g, h, l, k, update_config))
                    ]
            ]
          ]
        ]
      ]

  -- However the request is made, on a disk that does not fail: the page answers with an error and nothing is
  -- written or started; or the site's configuration is what Jinja makes of the template for the name and
  -- the domains of the request, the configurations of the other sites are as before, and Nginx is told
  -- to read them once, which decides the answer. Then the name, if it is a text, is made of letters,
  -- digits and dashes, and so is each domain that is a text, with dots. Of an array or an object in
  -- their place only this is known: its elements, or its keys, are such characters.
  pub update_nginx_page-IsUpdated :
      (site_id : ℕ) (form : Option Bytes) (s : State)
      → IsUpdated site_id form s (update_nginx_page H site_id form s)
  unfolding update_nginx_page
  update_nginx_page-IsUpdated site_id none s = inl (λ e. ground (arith, e), refl)
  update_nginx_page-IsUpdated site_id (some posted) s = elim (Option-cases (H.json_loads posted)) [
    | inl e ↦ simp (e, update_nginx_page) (inl (failed-success, refl))
    | inr (content, e) ↦
        rw (update_nginx_page-page site_id posted content s e)
          (update_config-IsUpdated site_id posted content s e)
  ]

  -- After a removal the site has no configuration, and the others have theirs.
  pub remove_nginx_page-removed :
      (site_id : ℕ) (s : State)
      → (lookup site_id (remove_nginx_page H site_id s).1.configs ≡ none)
        × KeepsOthers site_id s.configs (remove_nginx_page H site_id s).1.configs
  unfolding remove_nginx_page
  remove_nginx_page-removed site_id s =
      (remove_config-lookup site_id s.configs, remove_config-KeepsOthers site_id s.configs)
