-- ===== src/Offload/Response/Rollback.antt =====
-- What a failed `prepare_qmi_response` of upstream-src/sound/usb/qcom/qc_audio_offload.c leaves of the
-- ring addresses that it took.
use audioreach_usb_offload_r.Prelude.{
  ℕ, ◌≡◌, ◌≢◌, ◌⊎◌, refl, inl, inr, Bool, true, false, not, Option, none, some, ◌==◌, arith,
  if_intro, ==_iff,
}
use audioreach_usb_offload_r.Iova.{page_size}
use audioreach_usb_offload_r.Stream.{Ret, iova_mask}
use audioreach_usb_offload_r.Sideband.{add_endpoint, get_endpoint_buffer}
use audioreach_usb_offload_r.Offload.{UaudioQmiDev, Ctx, MemInfo, Endpoint, Substream, Resp}
use audioreach_usb_offload_r.Offload.Iommu.{xfer_ring, iommu_map_pa, iommu_map_xfer_buf}
use audioreach_usb_offload_r.Offload.Setup.{
  EndpointEnv, EventEnv, BufferEnv, is_err, endpoint_setup, ring_mapped, ring_found,
  event_ring_setup, transfer_buffer_setup,
}
use audioreach_usb_offload_r.Offload.Response.{drop_data_ep, drop_sync_ep, drop_sync}
use audioreach_usb_offload_r.Offload.Rings.{
  IsRings, Kept, Holding, Kept-refl, Holding-Kept, iommu_unmap-Kept, iommu_map_pa-Holding,
  iommu_map_pa-Kept,
}

-- The outcome of setting up an endpoint: it has a ring page of its own, or it failed and the rings are
-- as they were.
unfoldable pub Outcome : UaudioQmiDev → Ctx × MemInfo × Ret → Type 0
Outcome q s =
    ((is_err s.2 ≡ true) × Kept q s.0.qdev)
    ⊎ ((is_err s.2 ≡ false) × Holding (iova_mask s.1.iova) q s.0.qdev)

ring_mapped-Outcome :
    (c : Ctx) (ep : Endpoint) (dma : ℕ) (allocated : Bool)
    → IsRings c.qdev
    → let m = iommu_map_pa c.qdev xfer_ring page_size allocated in
      Outcome c.qdev (ring_mapped c ep dma m.0 m.1)
unfolding Outcome
ring_mapped-Outcome c ep dma allocated v =
    let m = iommu_map_pa c.qdev xfer_ring page_size allocated in
    if_intro (Outcome c.qdev) (m.1 == 0)
      (λ z. inl (refl, iommu_map_pa-Kept c.qdev allocated v ((==_iff _ 0).0 z)))
      (λ nz. inr (refl, iommu_map_pa-Holding c.qdev allocated v (λ z. ne_of nz z)))
  where
    ne_of : {x : ℕ} → (x == 0) ≡ false → x ≢ 0
    ne_of e z = ground arith

ring_found-Outcome :
    (c : Ctx) (ep : Endpoint) (env : EndpointEnv) (o : Option ℕ)
    → IsRings c.qdev
    → Outcome c.qdev (ring_found c ep env o)
unfolding Outcome
ring_found-Outcome c ep env none v = inl (refl, Kept-refl c.qdev v)
ring_found-Outcome c ep env (some dma) v =
    if_intro (Outcome c.qdev) (get_endpoint_buffer c.side ep.ep_index true)
      (λ h. ring_mapped-Outcome c ep dma env.allocated v) (λ h. inl (refl, Kept-refl c.qdev v))

pub endpoint_setup-Outcome :
    (c : Ctx) (ep : Endpoint) (env : EndpointEnv)
    → IsRings c.qdev
    → Outcome c.qdev (endpoint_setup c ep env)
unfolding Outcome endpoint_setup
endpoint_setup-Outcome c ep env v =
    if_intro (Outcome c.qdev) (not ep.found) (λ h. inl (refl, Kept-refl c.qdev v))
      λ h.
        if_intro (Outcome c.qdev) (is_err (add_endpoint c.side ep.ep_index).1)
          (λ g. inl (refl, Kept-refl c.qdev v))
          λ g.
            ring_found-Outcome (record c { side = (add_endpoint c.side ep.ep_index).0 }) ep env
              env.ring_dma v

pub event_ring_setup-qdev : (c : Ctx) (env : EventEnv) → (event_ring_setup c env).0.qdev ≡ c.qdev
unfolding event_ring_setup
event_ring_setup-qdev c env = ground arith

pub transfer_buffer_setup-ring :
    (c : Ctx) (requested : ℕ) (env : BufferEnv)
    → ((transfer_buffer_setup c requested env).0.qdev.xfer_ring ≡ c.qdev.xfer_ring)
      × ((transfer_buffer_setup c requested env).0.qdev.sid ≡ c.qdev.sid)
unfolding transfer_buffer_setup iommu_map_xfer_buf
transfer_buffer_setup-ring c requested env = ground arith

-- What is to be given back at the label `drop_sync_ep`: the data ring, and the sync ring on top of it.
unfoldable pub Owes : UaudioQmiDev → Option Endpoint → UaudioQmiDev → MemInfo → MemInfo → Type 0
Owes q none r tr_data tr_sync = Holding (iova_mask tr_data.iova) q r
Owes q (some ep) r tr_data tr_sync =
    (s : UaudioQmiDev) × Holding (iova_mask tr_data.iova) q s × Holding (iova_mask tr_sync.iova) s r

pub Owes-Kept :
    (q : UaudioQmiDev) (ep : Option Endpoint) (r s : UaudioQmiDev) (d t : MemInfo)
    → Owes q ep r d t
    → Kept r s
    → Owes q ep s d t
unfolding Owes
Owes-Kept q none r s d t h k = Holding-Kept _ q r s h k
Owes-Kept q (some ep) r s d t (u, h, g) k = (u, h, Holding-Kept _ u r s g k)

pub Owes-IsRings :
    (q : UaudioQmiDev) (ep : Option Endpoint) (r : UaudioQmiDev) (d t : MemInfo)
    → Owes q ep r d t
    → IsRings r
unfolding Owes
Owes-IsRings q none r d t h = h.in_order
Owes-IsRings q (some ep) r d t (u, h, g) = g.in_order

pub drop_data_ep-Kept :
    (q : UaudioQmiDev) (c : Ctx) (subs : Substream) (resp : Resp)
    → Holding (iova_mask resp.tr_data.iova) q c.qdev
    → Kept q (drop_data_ep c subs resp).qdev
unfolding drop_data_ep
drop_data_ep-Kept q c subs resp h = iommu_unmap-Kept _ q c.qdev h

pub drop_sync_ep-Kept :
    (q : UaudioQmiDev) (c : Ctx) (subs : Substream) (resp : Resp) (ep : Option Endpoint)
    → subs.sync_endpoint ≡ ep
    → Owes q ep c.qdev resp.tr_data resp.tr_sync
    → Kept q (drop_sync_ep c subs resp).qdev
unfolding drop_sync_ep Owes
drop_sync_ep-Kept q c subs resp none e h =
    drop_data_ep-Kept q (drop_sync c subs.sync_endpoint resp) subs resp (rw e h)
drop_sync_ep-Kept q c subs resp (some ep) e (s, h, g) =
    drop_data_ep-Kept q (drop_sync c subs.sync_endpoint resp) subs resp
      (rw e (Holding-Kept _ q s _ h (iommu_unmap-Kept _ s c.qdev g)))
