-- ===== src/ConfigManager/Laws.antt =====
-- What a reader of the settings sees after a change of them.
use scamanager.Prelude.{
  String, none, some, Bool, true, false, [], ◌∷◌, ◌++◌, ◌≡◌, refl, sym, ◌∙◌, ◌≢◌, ◌⊎◌, All,
  All-append, All-update_where, All-imp, All-elim, find?, find?-some, update_where, str_eq, eq_iff,
  eq_refl, if◌then◌else◌, arith, Option-cases, Bool-cases, inl, inr,
}
use scamanager.ConfigManager.{
  RepoConfigData, default_config, Configs, is_for, get_repo_config, validate_thresholds,
  store_config, upsert_repo_config,
}

-- Every row of the table passes the validation.
abbrev pub AllValid : Configs → Type 0
AllValid table = All (λ c. validate_thresholds c ≡ none) table

default_config-valid : (repo : String) → validate_thresholds (default_config repo) ≡ none
unfolding validate_thresholds default_config
default_config-valid repo = refl

module _ (p : RepoConfigData → Bool) (c : RepoConfigData) where
  find?-snoc :
      (q : RepoConfigData → Bool) (table : Configs)
      → find? q (table ++ (c ∷ []))
        ≡ elim (find? q table) [ none ↦ if q c then some c else none | some d ↦ some d ]
  find?-snoc q [] = refl
  find?-snoc q (d ∷ table) = ground (arith, find?-snoc q table)

  find?-replaced :
      (table : Configs)
      → p c ≡ true
      → find? p table ≢ none
      → find? p (update_where p (λ _. c) table) ≡ some c
  find?-replaced [] t h = absurd (h refl)
  find?-replaced (d ∷ table) t h = elim (Bool-cases (p d)) [
    | inl e ↦ rw (e, t) refl
    | inr e ↦ rw (e, e) (find?-replaced table t (rw e at h))
  ]

  find?-kept :
      (q : RepoConfigData → Bool) (table : Configs)
      → q c ≡ false
      → ((d : RepoConfigData) → p d ≡ true → q d ≡ false)
      → find? q (update_where p (λ _. c) table) ≡ find? q table
  find?-kept q [] f apart = refl
  find?-kept q (d ∷ table) f apart = ground (arith, apart d, find?-kept q table f apart)

module _ (c : RepoConfigData) where
  own_name : is_for c.repo_full_name c ≡ true
  own_name = eq_refl c.repo_full_name

  find_stored : (table : Configs) → find? (is_for c.repo_full_name) (store_config c table) ≡ some c
  unfolding store_config
  find_stored table = elim (Option-cases (find? (is_for c.repo_full_name) table)) [
    | inl e ↦
        rw
          (
            e,
            store_config,
            find?-snoc (is_for c.repo_full_name) c (is_for c.repo_full_name) table,
            e,
            own_name,
          )
          refl
    | inr (d, e) ↦
        rw (e, store_config)
          (find?-replaced (is_for c.repo_full_name) c table own_name (λ f. some_none (sym e ∙ f)))
  ]
    where
      some_none : {d : RepoConfigData} → some d ≡ none → ⊥
      some_none e = cc

  find_other :
      (repo : String) (table : Configs)
      → str_eq c.repo_full_name repo ≡ false
      → find? (is_for repo) (store_config c table) ≡ find? (is_for repo) table
  unfolding store_config
  find_other repo table other = elim (Option-cases (find? (is_for c.repo_full_name) table)) [
    | inl e ↦
        let not_it : is_for repo c ≡ false = other in
        rw (e, store_config)
          (find?-snoc (is_for repo) c (is_for repo) table ∙ ground (arith, not_it))
    | inr (d, e) ↦
        rw (e, store_config)
          (find?-kept (is_for c.repo_full_name) c (is_for repo) table other apart)
  ]
    where
      apart : (d : RepoConfigData) → is_for c.repo_full_name d ≡ true → is_for repo d ≡ false
      apart d t = rw ((eq_iff d.repo_full_name c.repo_full_name).0 t) other

  store_config-AllValid :
      (table : Configs)
      → validate_thresholds c ≡ none
      → AllValid table
      → AllValid (store_config c table)
  unfolding store_config
  store_config-AllValid table v h = elim (Option-cases (find? (is_for c.repo_full_name) table)) [
    | inl e ↦ rw (e, store_config) (All-append _ table (c ∷ []) h (v, tt))
    | inr (d, e) ↦
        rw (e, store_config)
          (All-update_where _ (is_for c.repo_full_name) (λ _. c) table
            (All-imp _ _ (λ x k t. v) table h) h)
  ]

-- A change is stored exactly if it passes the validation: then the reader of its repository gets it,
-- and the reader of any other repository gets what it got before. A change that fails it leaves the
-- table as it was.
pub upsert_repo_config_lem :
    (c : RepoConfigData) (table : Configs)
    → let (error, table') = upsert_repo_config c table in
      (error ≡ validate_thresholds c)
      × ((error ≡ none)
            × (get_repo_config table' c.repo_full_name ≡ c)
            × ((repo : String)
                → (repo ≡ c.repo_full_name)
                  ⊎ (get_repo_config table' repo ≡ get_repo_config table repo))
          ⊎ (error ≢ none) × (table' ≡ table))
unfolding upsert_repo_config get_repo_config
upsert_repo_config_lem c table = elim (Option-cases (validate_thresholds c)) [
  | inl e ↦
      rw (e, upsert_repo_config)
        (refl, inl (refl, rw (find_stored c table, get_repo_config) refl, other))
  | inr (x, e) ↦ rw (e, upsert_repo_config) (refl, inr ((λ f. cc), refl))
]
  where
    other :
        (repo : String)
        → (repo ≡ c.repo_full_name)
          ⊎ (get_repo_config (store_config c table) repo ≡ get_repo_config table repo)
    other repo = elim (Bool-cases (str_eq c.repo_full_name repo)) [
      | inl t ↦ inl (sym ((eq_iff c.repo_full_name repo).0 t))
      | inr f ↦ inr (rw (find_other c repo table f, get_repo_config) refl)
    ]

-- If every stored row passes the validation, then after any change of the settings every reader
-- still gets thresholds that pass it: a stored row or the defaults.
pub upsert_repo_config-valid :
    (c : RepoConfigData) (table : Configs)
    → AllValid table
    → AllValid (upsert_repo_config c table).1
      × ((repo : String)
          → validate_thresholds (get_repo_config (upsert_repo_config c table).1 repo) ≡ none)
unfolding upsert_repo_config get_repo_config
upsert_repo_config-valid c table h = (stored, λ repo. read _ stored repo)
  where
    stored : AllValid (upsert_repo_config c table).1
    stored = elim (Option-cases (validate_thresholds c)) [
      | inl e ↦ rw (e, upsert_repo_config) (store_config-AllValid c table e h)
      | inr (x, e) ↦ rw (e, upsert_repo_config) h
    ]

    read :
        (t : Configs)
        → AllValid t
        → (repo : String) → validate_thresholds (get_repo_config t repo) ≡ none
    read t k repo = elim (Option-cases (find? (is_for repo) t)) [
      | inl e ↦ rw (e, get_repo_config) (default_config-valid repo)
      | inr (d, e) ↦ rw (e, get_repo_config) (All-elim _ t k (find?-some (is_for repo) t e).0)
    ]
