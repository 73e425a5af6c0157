-- ===== src/Configs/Flags.antt =====
-- flag_container.go
use dr.Base.{String, Option, some}

pub record Flags : Type 0 where
  pub transport_adapter : String

abbrev pub adapter_kube_apiserver : String
adapter_kube_apiserver = "ADAPTER_KUBE_APISERVER"

-- The global variable after the call.
abbrev pub update_flag_to_container : String → Option Flags
update_flag_to_container adapter = some (record { transport_adapter = adapter })
