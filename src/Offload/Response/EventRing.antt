-- ===== src/Offload/Response/EventRing.antt =====
-- The event ring across stream requests: `er_mapped` of
-- upstream-src/sound/usb/qcom/qc_audio_offload.c.
use audioreach_usb_offload_r.Prelude.{ℕ, ◌≡◌, ◌⊎◌, ap, ◌∙◌, true, false, Option, none, some, arith}
use audioreach_usb_offload_r.Offload.{Ctx, Endpoint, Substream, Resp}
use audioreach_usb_offload_r.Offload.Iommu.{iommu_unmap, iommu_map_pa, iommu_map_xfer_buf}
use audioreach_usb_offload_r.Offload.Setup.{
  EndpointEnv, EventEnv, BufferEnv, is_err, populate_uac_desc, endpoint_setup, event_ring_setup,
  transfer_buffer_setup,
}
use audioreach_usb_offload_r.Offload.Response.{
  Call, er_marked, numbered, evented, synced, data_set, drop_data_ep, drop_sync_ep, free_sec_ring,
  publish, cache, with_buffer, with_event, with_sync, prepare_qmi_response,
}

endpoint_setup-er_mapped :
    (c : Ctx) (ep : Endpoint) (env : EndpointEnv)
    → (endpoint_setup c ep env).0.qdev.er_mapped ≡ c.qdev.er_mapped
unfolding endpoint_setup iommu_map_pa
endpoint_setup-er_mapped c ep env = ground arith

-- A ring that is mapped already cannot be set up for another stream.
event_ring_setup-er_mapped :
    (c : Ctx) (env : EventEnv) → c.qdev.er_mapped ≡ true → is_err (event_ring_setup c env).2 ≡ true
unfolding event_ring_setup iommu_map_pa
event_ring_setup-er_mapped c env m = ground arith

with_event-er_mapped :
    (k : Call) (c : Ctx) (resp : Resp)
    → c.qdev.er_mapped ≡ true
    → is_err (with_event k c resp).ret ≡ true
unfolding with_event
with_event-er_mapped k c resp m = ground (arith, event_ring_setup-er_mapped c k.env.event m)

with_sync-er_mapped :
    (ep : Option Endpoint) (k : Call) (c : Ctx) (resp : Resp)
    → c.qdev.er_mapped ≡ true
    → is_err (with_sync ep k c resp).ret ≡ true
unfolding with_sync
with_sync-er_mapped none k c resp m = with_event-er_mapped k c resp m
with_sync-er_mapped (some ep) k c resp m = ground (
  arith,
  endpoint_setup-er_mapped c ep k.env.sync_ep,
  with_event-er_mapped k (endpoint_setup c ep k.env.sync_ep).0
      (synced resp (endpoint_setup c ep k.env.sync_ep).1),
)

-- While the event ring is mapped, no stream can be set up on any card, whatever the environment
-- answers.
pub prepare_qmi_response-er_mapped :
    (k : Call) (c : Ctx) (resp : Resp)
    → c.qdev.er_mapped ≡ true
    → is_err (prepare_qmi_response k c resp).ret ≡ true
unfolding prepare_qmi_response
prepare_qmi_response-er_mapped k c resp m =
    let d = endpoint_setup c k.subs.data_endpoint k.env.data_ep in
    let p = populate_uac_desc resp k.env.desc in
    ground (
      arith,
      endpoint_setup-er_mapped c k.subs.data_endpoint k.env.data_ep,
      with_sync-er_mapped k.subs.sync_endpoint k d.0 (data_set k p.0 d.1),
    )

publish-er_mapped :
    (k : Call) (c : Ctx) (resp : Resp) (cpu : ℕ)
    → c.qdev.er_mapped ≡ true
    → (is_err (publish k c resp cpu).ret ≡ true)
      ⊎ ((publish k c resp cpu).ctx.qdev.er_mapped ≡ true)
unfolding publish cache
publish-er_mapped k c resp cpu m = ground arith

transfer_buffer_setup-er_mapped :
    (c : Ctx) (requested : ℕ) (env : BufferEnv)
    → (transfer_buffer_setup c requested env).0.qdev.er_mapped ≡ c.qdev.er_mapped
unfolding transfer_buffer_setup iommu_map_xfer_buf
transfer_buffer_setup-er_mapped c requested env = ground arith

with_buffer-er_mapped :
    (k : Call) (c : Ctx) (resp : Resp)
    → (is_err (with_buffer k c resp).ret ≡ true)
      ⊎ ((with_buffer k c resp).ctx.qdev.er_mapped ≡ true)
unfolding with_buffer
with_buffer-er_mapped k c resp =
    let b = transfer_buffer_setup (er_marked c) k.xfer_buff_size k.env.buffer in
    ground (
      arith,
      transfer_buffer_setup-er_mapped (er_marked c) k.xfer_buff_size k.env.buffer,
      publish-er_mapped k b.0
          (record (numbered k c resp) { xfer_buff = b.1; xhci_mem_info_valid = true }) b.2,
    )

with_event-er_kept :
    (k : Call) (c : Ctx) (resp : Resp)
    → (is_err (with_event k c resp).ret ≡ true) ⊎ ((with_event k c resp).ctx.qdev.er_mapped ≡ true)
unfolding with_event
with_event-er_kept k c resp =
    let e = event_ring_setup c k.env.event in
    ground (arith, with_buffer-er_mapped k e.0 (evented k resp e.1))

with_sync-er_kept :
    (ep : Option Endpoint) (k : Call) (c : Ctx) (resp : Resp)
    → (is_err (with_sync ep k c resp).ret ≡ true)
      ⊎ ((with_sync ep k c resp).ctx.qdev.er_mapped ≡ true)
unfolding with_sync
with_sync-er_kept none k c resp = with_event-er_kept k c resp
with_sync-er_kept (some ep) k c resp =
    let s = endpoint_setup c ep k.env.sync_ep in
    ground (arith, with_event-er_kept k s.0 (synced resp s.1))

prepare_qmi_response-er_kept :
    (k : Call) (c : Ctx) (resp : Resp)
    → is_err (prepare_qmi_response k c resp).ret ≡ false
    → (prepare_qmi_response k c resp).ctx.qdev.er_mapped ≡ true
unfolding prepare_qmi_response
prepare_qmi_response-er_kept k c resp h =
    let d = endpoint_setup c k.subs.data_endpoint k.env.data_ep in
    let p = populate_uac_desc resp k.env.desc in
    ground (arith, with_sync-er_kept k.subs.sync_endpoint k d.0 (data_set k p.0 d.1))

-- At most one stream at a time: after a request has been prepared with success, the next one on
-- the service's device that it leaves fails, on every card and whatever the environment answers.
pub prepare_qmi_response_once :
    (k l : Call) (c d : Ctx) (resp : Resp)
    → is_err (prepare_qmi_response k c resp).ret ≡ false
    → d.qdev ≡ (prepare_qmi_response k c resp).ctx.qdev
    → is_err (prepare_qmi_response l d resp).ret ≡ true
prepare_qmi_response_once k l c d resp h e =
    prepare_qmi_response-er_mapped l d resp
      (ap (λ q. q.er_mapped) e ∙ prepare_qmi_response-er_kept k c resp h)

free_sec_ring-er_mapped :
    (c : Ctx) (subs : Substream) (resp : Resp)
    → (free_sec_ring c subs resp).qdev.er_mapped ≡ c.qdev.er_mapped
unfolding free_sec_ring drop_sync_ep drop_data_ep iommu_unmap
free_sec_ring-er_mapped c subs resp = ground arith

with_buffer-stuck :
    (k : Call) (c : Ctx) (resp : Resp)
    → k.env.buffer.buffer ≡ none
    → (is_err (with_buffer k c resp).ret ≡ true)
      × ((with_buffer k c resp).ctx.qdev.er_mapped ≡ true)
unfolding with_buffer transfer_buffer_setup
with_buffer-stuck k c resp n =
    let b = transfer_buffer_setup (er_marked c) k.xfer_buff_size k.env.buffer in
    (ground arith, ground (arith, free_sec_ring-er_mapped (er_marked c) k.subs (numbered k c resp)))

-- A request for which the event ring is set up but no transfer buffer can be allocated fails, and
-- a next request on the service's device that it leaves fails too, on every card.
pub with_event_stuck :
    (k l : Call) (c d : Ctx) (resp : Resp)
    → is_err (event_ring_setup c k.env.event).2 ≡ false
    → k.env.buffer.buffer ≡ none
    → d.qdev ≡ (with_event k c resp).ctx.qdev
    → (is_err (with_event k c resp).ret ≡ true)
      × (is_err (prepare_qmi_response l d resp).ret ≡ true)
unfolding with_event
with_event_stuck k l c d resp h n e =
    let r = event_ring_setup c k.env.event in
    let (failed_so, m) = with_buffer-stuck k r.0 (evented k resp r.1) n in
    let kept : (with_event k c resp).ctx.qdev.er_mapped ≡ true = ground (arith, m) in
    (
      ground (arith, failed_so),
      prepare_qmi_response-er_mapped l d resp (ap (λ q. q.er_mapped) e ∙ kept),
    )
