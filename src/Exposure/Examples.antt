-- ===== src/Exposure/Examples.antt =====
-- A laptop of the finance department, in a group that makes it public.
use getvul.Prelude.{◌≡◌, String, false, none, some, List, [], ◌∷◌, str_eq}
use getvul.Exposure.{Texts, auto, asset_override, Asset, GroupOverride, ExposureField}
use getvul.Exposure.{Asset, apply_inference_to_asset, apply_precedence_to_asset}
use getvul.Exposure.Groups.{GroupStore, add_member, set_group_exposure_override, recompute}
use getvul.Exposure.Groups.Settled.{IsSettled}
use getvul.Exposure.Groups.Reach.{
  recomputed, edited, Edit, with_signals, Reach-IsSettled, apply_inference-apply_precedence,
}
use getvul.Exposure.Precedence.{step-again}

abbrev as_is : String → String
as_is s = s

abbrev plain : Texts
plain = record { lower = as_is; strip = as_is; is_in = str_eq }

abbrev laptop : Asset
laptop = record {
  id = 7;
  tenant_id = 1;
  tags = "pci" ∷ [];
  department = some "finance";
  job_title = none;
  external_ip = none;
  internet_facing_detected = none;
  business_criticality = record { value = "LOW"; source = asset_override };
  data_sensitivity = record { value = "INTERNAL"; source = auto };
  internet_facing = record { value = false; source = auto };
}

abbrev overrides : List GroupOverride
overrides =
    record {
      group_id = 2;
      field = ExposureField.data_sensitivity;
      value = "PUBLIC";
      updated_at = 10;
    }
    ∷ []

abbrev store : GroupStore
store = record {
  groups = record { id = 2; tenant_id = 1; name = "Public"; description = none } ∷ [];
  members = [];
  overrides = overrides;
  assets = laptop ∷ [];
}

Reach-IsSettled_example :
    IsSettled plain 1
      (set_group_exposure_override plain 20 1 2 ExposureField.internet_facing "true"
        (add_member plain 1 2 7 (recompute plain 1 store)).0).0
Reach-IsSettled_example = Reach-IsSettled plain (
    edited (edited (recomputed store) (Edit.add 2 7))
      (Edit.override 20 2 ExposureField.internet_facing "true"))

settled_laptop : Asset
settled_laptop = apply_precedence_to_asset plain ((2, 7) ∷ []) overrides laptop

settled_again :
    apply_precedence_to_asset plain ((2, 7) ∷ []) overrides settled_laptop ≡ settled_laptop
unfolding settled_laptop
settled_again = step-again plain ((2, 7) ∷ []) overrides laptop

apply_inference-apply_precedence_example :
    apply_inference_to_asset plain (with_signals (some "203.0.113.9") none settled_laptop)
    ≡ apply_precedence_to_asset plain
        ((2, 7) ∷ [])
        overrides
        (with_signals (some "203.0.113.9") none settled_laptop)
apply_inference-apply_precedence_example =
    apply_inference-apply_precedence plain ((2, 7) ∷ []) overrides (some "203.0.113.9") none
      settled_laptop settled_again
