-- ===== src/Transport/Http.antt =====
-- http/transporter.go, and the choice of a transporter in transportmanager.go.
use dr.Base.{Option, none, some, ok}
use dr.Api.{PairClusterSettings, TransportAdapter, kube_apiserver, http, other_adapter}
use dr.Transport.Manager.{Transporter}

-- Transport does nothing, and succeeds.
abbrev pub http_transporter {ℓ} : {R : Type ℓ} → Option PairClusterSettings → Transporter R
http_transporter settings = record { transport = λ objr remote. (remote, ok tt) }

-- newTransporter; `none` is the nil that it returns for any other adapter.
unfoldable pub new_transporter {ℓ} :
    {R : Type ℓ}
    → (Option PairClusterSettings → Transporter R)
    → TransportAdapter
    → Option (Option PairClusterSettings → Transporter R)
new_transporter kube kube_apiserver = some kube
new_transporter kube http = some http_transporter
new_transporter kube (other_adapter _) = none
