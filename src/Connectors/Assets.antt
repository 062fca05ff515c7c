-- ===== src/Connectors/Assets.antt =====
-- backend/app/connectors/sync.py, `_upsert_asset`: the asset that a reported finding is on.
pub mod Kept
use getvul.Prelude.{
  ℕ, String, Bool, true, false, not, ◌&&◌, ◌||◌, Option, none, some, is_some, List, [], ◌∷◌, ◌++◌,
  any, codes, length, ltb, ◌==◌, str_eq, if◌then◌else◌, Upserted, upsert_row,
}
use getvul.Exposure.{auto, Asset as ExposedAsset, apply_inference_to_asset, or_empty}
use getvul.Connectors.Classification.{classify_asset_from_data}
use getvul.Connectors.{
  NormalizedVulnerability, Python, is_truthy, or_else, keep_unless, keep_unless_ts,
  keep_unless_bool, parse_ts, model_name, same_text, has_width, fits_width, flushed,
}

-- A row of `assets`: the columns of the exposure context, and those of the device.
pub record Asset : Type 0 where
  pub context : ExposedAsset
  pub hostname : Option String
  pub ip_addresses : List String
  pub mac_addresses : List String
  pub os_name : Option String
  pub os_version : Option String
  pub asset_type : Option String
  pub seen_by_sources : Option (List String)
  pub device_category : Option String
  pub serial_number : Option String
  pub model : Option String
  pub system_manufacturer : Option String
  pub last_login_user : Option String
  pub last_login_at : Option ℕ
  pub last_seen_at : Option ℕ
  pub host_status : Option String
  pub containment_status : Option String
  pub crowdstrike_aid : Option String
  pub defender_device_id : Option String
  pub wiz_asset_id : Option String
  pub nessus_host_id : Option String
  pub risk_score : Option ℕ

-- (tenant, hostname)
abbrev pub HostKey : Type 0
HostKey = ℕ × String

unfoldable pub at_host : HostKey → Asset → Bool
at_host (tenant_id, hostname) a =
    a.context.tenant_id == tenant_id && same_text a.hostname (some hostname)

unfoldable pub list_of : Option (List String) → List String
list_of none = []
list_of (some xs) = xs

unfoldable pub add_seen : String → Option (List String) → Option (List String)
add_seen source seen =
    if any (λ s. str_eq s source) (list_of seen) then seen else some (list_of seen ++ source ∷ [])

-- A longer version is taken for a more precise one.
unfoldable pub newer_version : Option String → Option String → Option String
newer_version old new =
    if is_truthy new
      && (not (is_truthy old)
          || ltb (length (codes (or_empty old))) (length (codes (or_empty new))))
    then new
    else old

unfoldable pub is_unclassified : Option String → Bool
is_unclassified category = not (is_truthy category) || same_text category (some "OTHER")

unfoldable pub one_address : Option String → List String
one_address none = []
one_address (some mac) = if str_eq mac "" then [] else mac ∷ []

module _ (py : Python) where
  unfoldable pub hostname_of : NormalizedVulnerability → String
  hostname_of v = py.texts.strip (py.texts.lower (or_empty (or_else v.hostname (some "unknown"))))

  unfoldable pub device_category_of : NormalizedVulnerability → String
  device_category_of v =
      classify_asset_from_data py.texts py.re_search (hostname_of v) (or_empty v.os_name)
        (or_empty v.platform_name) (or_empty v.product_type_desc)

  unfoldable pub model_of : NormalizedVulnerability → Option String
  model_of v = model_name py (or_empty v.system_manufacturer) (or_empty v.system_product_name)

  -- The columns of a new row; the exposure fields have the columns' defaults.
  unfoldable pub new_asset : ℕ → ℕ → NormalizedVulnerability → String → Asset
  new_asset id tenant_id v source = record {
    context = record {
      id = id;
      tenant_id = tenant_id;
      tags = [];
      department = none;
      job_title = none;
      external_ip = v.external_ip;
      internet_facing_detected = v.internet_facing;
      business_criticality = record { value = "MEDIUM"; source = auto };
      data_sensitivity = record { value = "INTERNAL"; source = auto };
      internet_facing = record { value = false; source = auto };
    };
    hostname = some (hostname_of v);
    ip_addresses = v.ip_addresses;
    mac_addresses = one_address v.mac_address;
    os_name = v.os_name;
    os_version = v.os_version;
    asset_type = or_else v.product_type_desc (some v.asset_type);
    seen_by_sources = some (source ∷ []);
    device_category = some (device_category_of v);
    serial_number = v.serial_number;
    model = model_of v;
    system_manufacturer = or_else v.system_manufacturer none;
    last_login_user = v.last_login_user;
    last_login_at = parse_ts py v.last_login_at;
    last_seen_at = parse_ts py v.last_seen_at;
    host_status = v.host_status;
    containment_status = v.containment_status;
    crowdstrike_aid = v.crowdstrike_aid;
    defender_device_id = v.defender_device_id;
    wiz_asset_id = v.wiz_asset_id;
    nessus_host_id = v.nessus_host_id;
    risk_score = none;
  }

  -- What the connector reports of a host that is known.
  unfoldable pub refresh_asset : NormalizedVulnerability → String → Asset → Asset
  refresh_asset v source a = record {
    context = record a.context {
      external_ip = keep_unless a.context.external_ip v.external_ip;
      internet_facing_detected =
          keep_unless_bool a.context.internet_facing_detected v.internet_facing;
    };
    hostname = a.hostname;
    ip_addresses = a.ip_addresses;
    mac_addresses = if is_truthy v.mac_address then one_address v.mac_address else a.mac_addresses;
    os_name = a.os_name;
    os_version = newer_version a.os_version v.os_version;
    asset_type = keep_unless a.asset_type v.product_type_desc;
    seen_by_sources = add_seen source a.seen_by_sources;
    device_category =
        if is_truthy v.product_type_desc || is_unclassified a.device_category
        then some (device_category_of v)
        else a.device_category;
    serial_number = keep_unless a.serial_number v.serial_number;
    model = keep_unless a.model (model_of v);
    system_manufacturer = keep_unless a.system_manufacturer v.system_manufacturer;
    last_login_user = keep_unless a.last_login_user v.last_login_user;
    last_login_at = keep_unless_ts a.last_login_at (parse_ts py v.last_login_at);
    last_seen_at = keep_unless_ts a.last_seen_at (parse_ts py v.last_seen_at);
    host_status = keep_unless a.host_status v.host_status;
    containment_status = keep_unless a.containment_status v.containment_status;
    crowdstrike_aid = keep_unless a.crowdstrike_aid v.crowdstrike_aid;
    defender_device_id = keep_unless a.defender_device_id v.defender_device_id;
    wiz_asset_id = keep_unless a.wiz_asset_id v.wiz_asset_id;
    nessus_host_id = keep_unless a.nessus_host_id v.nessus_host_id;
    risk_score = a.risk_score;
  }

  -- Both branches end with the inference of the exposure context.
  unfoldable pub infer_context : Asset → Asset
  infer_context a = record a { context = apply_inference_to_asset py.texts a.context }

  -- The values that an update of a known host writes fit the columns of `assets`.
  unfoldable pub fits_known_host : NormalizedVulnerability → Bool
  fits_known_host v =
      fits_width 50 v.os_version
      && fits_width 30 v.product_type_desc
      && fits_width 100 v.serial_number
      && fits_width 200 (model_of v)
      && fits_width 200 v.system_manufacturer
      && fits_width 300 v.last_login_user
      && fits_width 30 v.host_status
      && fits_width 30 v.containment_status
      && fits_width 100 v.crowdstrike_aid
      && fits_width 100 v.defender_device_id
      && fits_width 100 v.wiz_asset_id
      && fits_width 100 v.nessus_host_id
      && fits_width 50 v.external_ip

  -- Those of a new row fit.
  unfoldable pub fits_new_host : NormalizedVulnerability → Bool
  fits_new_host v =
      fits_known_host v
      && has_width 255 (hostname_of v)
      && fits_width 100 v.os_name
      && fits_width 30 (or_else v.product_type_desc (some v.asset_type))

  -- `_upsert_asset`; `id` is the key that a new row gets.
  unfoldable pub upsert_asset :
      ℕ → ℕ → NormalizedVulnerability → String → List Asset → Option (Upserted Asset)
  upsert_asset id tenant_id v source assets = flushed (fits_new_host v) (fits_known_host v) (
      upsert_row (at_host (tenant_id, hostname_of v))
        (λ a. infer_context (refresh_asset v source a))
        (infer_context (new_asset id tenant_id v source)) assets)
