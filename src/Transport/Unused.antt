-- ===== src/Transport/Unused.antt =====
-- prepareTransport beside the two functions that are called in its place.
use dr.Base.{◌≡◌, false}
use dr.Api.{
  UnstructuredApi, ObjResource, Fields, create, update, gvr_eq, persistent_volume_gvr,
  persistent_volume_claim_gvr,
}
use dr.Transport.KubeApiserver.{
  prepare_transport, prepare_transport_when_creating, prepare_transport_when_updating,
}

module _ (u : UnstructuredApi) where
  -- What prepareTransport makes of an update is what is sent, and of a creation too, but that it
  -- leaves the annotations of a volume and of a claim.
  prepare_transport_lem :
      (objr : ObjResource) (original : Fields)
      → (objr.action ≡ update
          → prepare_transport u objr original ≡ prepare_transport_when_updating u objr original)
        × (objr.action ≡ create
            → gvr_eq objr.gvr persistent_volume_gvr ≡ false
            → gvr_eq objr.gvr persistent_volume_claim_gvr ≡ false
            → prepare_transport u objr original ≡ prepare_transport_when_creating u objr)
  unfolding prepare_transport prepare_transport_when_creating prepare_transport_when_updating
  prepare_transport_lem objr original = (
    λ act. simp (act, prepare_transport),
    λ act volume claim. simp (act, prepare_transport, volume, claim),
  )
