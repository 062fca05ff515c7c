-- ===== src/Connectors.antt =====
-- backend/app/connectors/sync.py: what a connector reports, and the rows that a sync writes.
-- `Texts` and `re_search` are Python's, `fromisoformat` parses a timestamp (`none` for a ValueError).
pub mod Classification
pub mod Sanitize
pub mod Assets
pub mod Findings
pub mod Batch
mod Examples
use Prim.Native.String.{◌++◌ as append}
use getvul.Prelude.{
  ℕ, suc, ◌+◌, ◌*◌, ◌/◌, ◌^◌, ℤ, pos, negsuc, length, codes, leb, ltb, Upserted, String, Bool, true,
  false, not, ◌||◌, Option, none, some, List, [], ◌∷◌, str_eq, if◌then◌else◌,
}
use getvul.Models.{Decimal, Vulnerability}
use getvul.Exposure.{Texts}

-- The `NormalizedVulnerability` of connectors/base.py, with the attributes that `getattr` looks
-- for besides: an absent one is `none`. JSON is kept as text.
pub record NormalizedVulnerability : Type 0 where
  pub cve_id : Option String
  pub vulnerability_name : Option String
  pub cvss_v3_score : Option Decimal
  pub severity : String
  pub exploit_available : Bool
  pub cisa_kev : Bool
  pub source_vuln_id : Option String
  pub affected_product : Option String
  pub affected_version : Option String
  pub fixed_version : Option String
  pub remediation_id : Option String
  pub remediation_action : Option String
  pub remediation_info : Option String
  pub exploit_status_id : Option ℕ
  pub exploit_status_name : Option String
  pub hostname : Option String
  pub ip_addresses : List String
  pub os_name : Option String
  pub os_version : Option String
  pub asset_type : String
  pub platform_name : Option String
  pub product_type_desc : Option String
  pub serial_number : Option String
  pub mac_address : Option String
  pub external_ip : Option String
  pub internet_facing : Option Bool
  pub last_login_user : Option String
  pub last_login_at : Option String
  pub last_seen_at : Option String
  pub host_status : Option String
  pub containment_status : Option String
  pub system_manufacturer : Option String
  pub system_product_name : Option String
  pub crowdstrike_aid : Option String
  pub defender_device_id : Option String
  pub wiz_asset_id : Option String
  pub nessus_host_id : Option String
  pub file_paths : Option (List String)
  pub native_priority_score : Option Decimal
  pub native_priority_rating : Option String
  pub source_signals : Option String

-- What the interpreter and its library give.
pub record Python : Type 0 where
  pub texts : Texts
  pub re_search : String → String → Bool
  pub replace : String → String → String → String
  pub fromisoformat : String → Option ℕ

-- A text is true when it is there and not empty.
unfoldable pub is_truthy : Option String → Bool
is_truthy none = false
is_truthy (some s) = not (str_eq s "")

-- `a or b`
unfoldable pub or_else : Option String → Option String → Option String
or_else a b = if is_truthy a then a else b

-- `if new: row.column = new`
unfoldable pub keep_unless : Option String → Option String → Option String
keep_unless old new = if is_truthy new then new else old

-- The same for a timestamp.
unfoldable pub keep_unless_ts : Option ℕ → Option ℕ → Option ℕ
keep_unless_ts old none = old
keep_unless_ts old (some t) = some t

unfoldable pub keep_unless_bool : Option Bool → Option Bool → Option Bool
keep_unless_bool old none = old
keep_unless_bool old (some b) = some b

module _ (py : Python) where
  unfoldable pub parse_ts : Option String → Option ℕ
  parse_ts none = none
  parse_ts (some val) =
      if str_eq val "" then none else py.fromisoformat (py.replace val "Z" "+00:00")

  -- The model's name: manufacturer and product.
  unfoldable pub model_name : String → String → Option String
  model_name manufacturer product =
      if not (str_eq manufacturer "") || not (str_eq product "")
      then some (py.texts.strip (append manufacturer (append " " product)))
      else none

-- The width of a `String(n)` column.
abbrev pub has_width : ℕ → String → Bool
has_width n s = leb (length (codes s)) n

unfoldable pub fits_width : ℕ → Option String → Bool
fits_width n none = true
fits_width n (some s) = has_width n s

-- An `Integer` column, of 32 bits.
unfoldable pub is_integer : Option ℕ → Bool
is_integer none = true
is_integer (some n) = ltb n (2 ^ 31)

abbrev magnitude : ℤ → ℕ
magnitude (pos n) = n
magnitude (negsuc n) = suc n

-- A `Numeric` column with `whole` digits before the point and `places` behind it: a value is
-- rounded to `places`, half away from zero, and then has to be below 10 ^ whole.
unfoldable pub is_numeric : ℕ → ℕ → Option Decimal → Bool
is_numeric whole places none = true
is_numeric whole places (some d) =
    ltb ((2 * magnitude d.digits * 10 ^ places + 10 ^ d.scale) / (2 * 10 ^ d.scale))
      (10 ^ (whole + places))

-- The flush of an upserted row: the database raises a DataError where a value that is written does
-- not fit its column. `created` and `refreshed` say whether those of either statement fit.
unfoldable pub flushed {ℓ} : {A : Type ℓ} → Bool → Bool → Option (Upserted A) → Option (Upserted A)
flushed created refreshed none = none
flushed created refreshed (some u) =
    if (if u.created then created else refreshed) then some u else none

-- A column compared to a value, which is `IS NULL` for `None`.
unfoldable pub same_text : Option String → Option String → Bool
same_text none none = true
same_text (some a) (some b) = str_eq a b
same_text _ _ = false
