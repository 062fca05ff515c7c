-- ===== src/Models.antt =====
-- The rows that the services read and write: backend/app/vulnerabilities/models.py.
-- A UUID is a number, a timestamp is a number of seconds, a text column is a `String`.
pub mod Samples
use getvul.Prelude.{ℕ, String, Bool, Option, ℤ, ◌||◌, str_eq}

-- A `Decimal`: digits, and how many of them stand behind the point.
pub record Decimal : Type 0 where
  pub digits : ℤ
  pub scale : ℕ

pub record Vulnerability : Type 0 where
  pub id : ℕ
  pub tenant_id : ℕ
  pub cve_id : Option String
  pub asset_id : Option ℕ
  pub source : String
  pub severity : String
  pub status : String
  pub cvss_v3_score : Option Decimal
  pub epss_score : Option Decimal
  pub native_priority_score : Option Decimal
  pub native_priority_rating : Option String
  pub exploit_available : Bool
  pub cisa_kev : Bool
  pub remediation_id : Option String
  pub first_detected_at : Option ℕ
  pub last_seen_at : ℕ
  pub remediated_at : Option ℕ
  pub sla_due_at : Option ℕ
  pub sla_breached : Bool

-- `status.in_(["OPEN", "IN_PROGRESS"])`, the filter of every service below.
unfoldable pub is_open : String → Bool
is_open status = str_eq status "OPEN" || str_eq status "IN_PROGRESS"
