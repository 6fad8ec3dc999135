-- ===== src/ConfigManager/Tests.antt =====
-- The settings of one repository, changed once.
use scamanager.Prelude.{String, none, some, [], ◌∷◌, ◌≡◌, ◌≢◌, ◌⊎◌, refl}
use scamanager.Prelude.Int.{pos}
use scamanager.ConfigManager.{
  RepoConfigData, default_config, Configs, get_repo_config, validate_thresholds, upsert_repo_config,
  ThresholdError,
}
use scamanager.ConfigManager.Laws.{AllValid, upsert_repo_config_lem}

abbrev stored : Configs
stored = default_config "o/r" ∷ default_config "o/s" ∷ []

abbrev strict : RepoConfigData
strict = record (default_config "o/r") { merge_threshold = pos 90 }

-- A merge threshold below the rejection threshold is refused.
upsert_repo_config_test :
    (upsert_repo_config (record (default_config "o/r") { merge_threshold = pos 40 }) stored).0
    ≡ some ThresholdError.merge_below_reject
unfolding upsert_repo_config validate_thresholds default_config
upsert_repo_config_test = refl

upsert_repo_config_example :
    let (error, table') = upsert_repo_config strict stored in
    (error ≡ validate_thresholds strict)
    × ((error ≡ none)
          × (get_repo_config table' strict.repo_full_name ≡ strict)
          × ((repo : String)
              → (repo ≡ strict.repo_full_name)
                ⊎ (get_repo_config table' repo ≡ get_repo_config stored repo))
        ⊎ (error ≢ none) × (table' ≡ stored))
upsert_repo_config_example = upsert_repo_config_lem strict stored

stored-AllValid : AllValid stored
unfolding validate_thresholds default_config
stored-AllValid = (refl, (refl, tt))
