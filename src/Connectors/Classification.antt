-- ===== src/Connectors/Classification.antt =====
-- backend/app/assets/classification.py: the device category of an asset, from what a source reports.
-- `lower` and `strip` are Python's, `is_in` is a text in a text, `re_search` is `re.search`.
use getvul.Prelude.{
  String, Bool, false, ◌&&◌, not, Option, none, some, List, [], ◌∷◌, any, str_eq, if◌then◌else◌,
}
use getvul.Exposure.{Texts}

-- `CS_TYPE_MAP.get(...)`
unfoldable pub cs_type : String → Option String
cs_type t =
    if str_eq t "workstation"
    then some "WORKSTATION"
    else if str_eq t "server"
    then some "SERVER"
    else if str_eq t "domain controller"
    then some "SERVER"
    else if str_eq t "kubernetes cluster"
    then some "SERVER"
    else none

unfoldable pub container_patterns : List String
container_patterns =
    "(?i)^gke-" ∷ "(?i)^eks-" ∷ "(?i)^aks-" ∷ "(?i)^k8s-" ∷ "(?i)^node-" ∷ "(?i)^ip-10-" ∷ []

unfoldable pub server_hostname : List String
server_hostname =
    "(?i)^srv-" ∷ "(?i)^db-" ∷ "(?i)^web-" ∷ "(?i)^api-" ∷ "(?i)^app-" ∷ "(?i)^mgmt-"
    ∷ "(?i)^infra-" ∷ "(?i)-srv\\d*$" ∷ "(?i)-db\\d*$" ∷ "(?i)-web\\d*$" ∷ "(?i)^prod-"
    ∷ "(?i)^stg-" ∷ "(?i)^dev-" ∷ "(?i)server" ∷ "(?i)^dc\\d" ∷ "(?i)^esxi" ∷ "(?i)^master-"
    ∷ "(?i)^worker-" ∷ []

unfoldable pub workstation_hostname : List String
workstation_hostname =
    "(?i)macbook" ∷ "(?i)imac" ∷ "(?i)mbp-" ∷ "(?i)desktop-" ∷ "(?i)laptop-" ∷ "(?i)^ws-"
    ∷ "(?i)\\.local$" ∷ "(?i)^[A-Z]{2,4}-LT" ∷ "(?i)^[A-Z]{2,4}-DT" ∷ "(?i)^DEP---" ∷ "(?i)^par\\d"
    ∷ []

unfoldable pub network_hostname : List String
network_hostname =
    "(?i)^sw-" ∷ "(?i)^switch" ∷ "(?i)^rtr-" ∷ "(?i)^router" ∷ "(?i)^fw-" ∷ "(?i)^firewall"
    ∷ "(?i)^ap-" ∷ "(?i)^wap-" ∷ "(?i)meraki" ∷ "(?i)cisco" ∷ "(?i)fortigate" ∷ "(?i)paloalto" ∷ []

unfoldable pub mobile_hostname : List String
mobile_hostname = "(?i)iphone" ∷ "(?i)ipad" ∷ "(?i)android" ∷ []

unfoldable pub server_os : List String
server_os =
    "(?i)windows server" ∷ "(?i)rhel" ∷ "(?i)red hat" ∷ "(?i)centos" ∷ "(?i)amazon linux"
    ∷ "(?i)ubuntu server" ∷ "(?i)debian" ∷ "(?i)suse" ∷ "(?i)oracle linux" ∷ "(?i)vmware"
    ∷ "(?i)esxi" ∷ "(?i)cos\\b" ∷ "(?i)container.optimized" ∷ "(?i)flatcar" ∷ "(?i)bottlerocket"
    ∷ "(?i)talos" ∷ []

unfoldable pub workstation_os : List String
workstation_os =
    "(?i)windows 1[01]" ∷ "(?i)windows 11" ∷ "(?i)^mac" ∷ "(?i)macos" ∷ "(?i)mac os" ∷ "(?i)os x"
    ∷ "(?i)chrome\\s?os" ∷ "(?i)ubuntu desktop" ∷ "(?i)tahoe" ∷ "(?i)sequoia" ∷ "(?i)sonoma"
    ∷ "(?i)ventura" ∷ []

unfoldable pub mobile_os : List String
mobile_os = "(?i)^ios" ∷ "(?i)ipados" ∷ "(?i)android" ∷ []

-- `if mapped: return mapped`
unfoldable pub mapped_or : Option String → String → String
mapped_or none rest = rest
mapped_or (some mapped) rest = mapped

module _ (tx : Texts) (re_search : String → String → Bool) where
  open tx use {lower, strip, is_in}

  unfoldable pub match_any : String → List String → Bool
  match_any value patterns =
      if str_eq value "" then false else any (λ p. re_search p value) patterns

  -- 4. Platform hints
  unfoldable pub classify_platform : String → String → String
  classify_platform os_name pl =
      if str_eq pl "mac"
      then "WORKSTATION"
      else if str_eq pl "windows"
      then if not (str_eq os_name "") && is_in "server" (lower os_name)
        then "SERVER"
        else "WORKSTATION"
      else if str_eq pl "linux"
      then if match_any os_name workstation_os then "WORKSTATION" else "SERVER"
      else "OTHER"

  -- 3. OS patterns
  unfoldable pub classify_os : String → String → String
  classify_os os_name pl =
      if match_any os_name mobile_os
      then "MOBILE"
      else if match_any os_name server_os
      then "SERVER"
      else if match_any os_name workstation_os
      then "WORKSTATION"
      else classify_platform os_name pl

  -- 2. Hostname patterns
  unfoldable pub classify_hostname : String → String → String → String
  classify_hostname hostname os_name pl =
      if match_any hostname network_hostname
      then "NETWORK"
      else if match_any hostname mobile_hostname
      then "MOBILE"
      else if match_any hostname container_patterns
      then "SERVER"
      else if match_any hostname server_hostname
      then "SERVER"
      else if match_any hostname workstation_hostname
      then "WORKSTATION"
      else classify_os os_name pl

  unfoldable pub classify_asset_from_data : String → String → String → String → String
  classify_asset_from_data hostname os_name platform_name product_type_desc =
      mapped_or
        (if str_eq product_type_desc "" then none else cs_type (strip (lower product_type_desc)))
        (classify_hostname hostname os_name
          (if str_eq platform_name "" then "" else lower platform_name))
