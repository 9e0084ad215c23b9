-- ===== src/Models/Config.antt =====
-- core/config.py and core/constants.py: the settings that the modelled code reads.
use gsm_sv.Prelude.{ℕ, Option, some, String, str_eq, List, [], ◌∷◌, any, if◌then◌else◌}
use gsm_sv.Models.Enums.{Ip, VmTier, basic, standard, project_custom}

-- NODE_{i}_NAME, and NODE_{i}_CLONE_STORAGES split at commas, stripped, with no empty part.
pub record NodeConfig : Type 0 where
  pub name : String
  pub clone_storages : List String

pub record Settings : Type 0 where
  pub max_vms_per_user : ℕ
  pub project_node_name : String
  pub template_vmid : ℕ
  pub template_vmid_windows : ℕ
  pub vm_default_user : String
  pub vm_default_user_windows : String
  pub verification_code_expire_minutes : ℕ
  pub internal_subnet : Ip
  pub internal_ip_start : ℕ
  pub internal_ip_end : ℕ
  pub gateway_public_ip : Ip
  pub max_https_routes_per_vm : ℕ
  pub nodes : List NodeConfig

-- `list(dict.fromkeys(names))`: the first of each name, in order.
pub dedupe_from : List String → List String → List String
dedupe_from seen [] = []
dedupe_from seen (x ∷ xs) =
    let skip = dedupe_from seen xs in
    let rest = dedupe_from (x ∷ seen) xs in if any (str_eq x) seen then skip else x ∷ rest

-- `Settings.get_clone_storages`
storages_of : String → List NodeConfig → List String
storages_of name [] = []
storages_of name (n ∷ ns) =
    if str_eq n.name name then dedupe_from [] n.clone_storages else storages_of name ns

unfoldable pub get_clone_storages : Settings → String → List String
unfolding storages_of dedupe_from
get_clone_storages cfg name = if str_eq name "" then [] else storages_of name cfg.nodes

pub record Specs : Type 0 where
  pub memory : ℕ
  pub cores : ℕ
  pub disk : ℕ

-- TIER_SPECS. Every tier has an entry.
abbrev pub tier_specs : VmTier → Option Specs
tier_specs basic = some (record { memory = 2048; cores = 1; disk = 20 })
tier_specs standard = some (record { memory = 4096; cores = 2; disk = 20 })
tier_specs project_custom = some (record { memory = 16384; cores = 4; disk = 40 })

-- RESOURCE_USAGE_THRESHOLD_PCT, in tenths of a percent.
abbrev pub usage_threshold_tenths : ℕ
usage_threshold_tenths = 800

abbrev pub provisioning_uptime_threshold_seconds : ℕ
provisioning_uptime_threshold_seconds = 180

abbrev pub seconds_per_day : ℕ
seconds_per_day = 86400
