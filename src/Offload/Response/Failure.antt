-- ===== src/Offload/Response/Failure.antt =====
-- A failed `prepare_qmi_response` of upstream-src/sound/usb/qcom/qc_audio_offload.c gives its rings
-- back, whichever step failed.
use audioreach_usb_offload_r.Prelude.{
  ℕ, ◌≡◌, refl, sym, ap, ◌∙◌, inl, inr, true, false, not, Option, none, some, if_intro,
}
use audioreach_usb_offload_r.Iova.{page_size}
use audioreach_usb_offload_r.Stream.{Ret, iova_mask, get_speed_info}
use audioreach_usb_offload_r.Sideband.{remove_interrupter}
use audioreach_usb_offload_r.Offload.{UaudioQmiDev, Ctx, MemInfo, Endpoint, Resp, iova_base}
use audioreach_usb_offload_r.Offload.Iommu.{event_ring, iommu_unmap}
use audioreach_usb_offload_r.Offload.Setup.{
  is_err, populate_uac_desc, endpoint_setup, event_ring_setup, transfer_buffer_setup,
}
use audioreach_usb_offload_r.Offload.Response.{
  Call, Done, er_marked, numbered, controlled, evented, synced, data_set, free_sec_ring, unmap_er,
  publish, cache, with_buffer, with_event, with_sync, prepare_qmi_response, is_invalid,
}
use audioreach_usb_offload_r.Offload.Rings.{
  IsRings, Kept, Holding, Kept-refl, Kept-ring, Holding-Kept,
}
use audioreach_usb_offload_r.Offload.Response.Rollback.{
  Outcome, Owes, endpoint_setup-Outcome, event_ring_setup-qdev, transfer_buffer_setup-ring,
  Owes-Kept, Owes-IsRings, drop_data_ep-Kept, drop_sync_ep-Kept,
}

-- Either the call succeeded, or the rings are as in `q`.
Restores : UaudioQmiDev → Done → Type 0
Restores q d = is_err d.ret ≡ true → Kept q d.ctx.qdev

-- The rings of two devices that differ elsewhere.
Owes-ring :
    (q : UaudioQmiDev) (ep : Option Endpoint) (r s : UaudioQmiDev) (d t : MemInfo)
    → Owes q ep r d t
    → s.xfer_ring ≡ r.xfer_ring
    → s.sid ≡ r.sid
    → Owes q ep s d t
Owes-ring q ep r s d t h e f =
    Owes-Kept q ep r s d t h (Kept-ring r s (Owes-IsRings q ep r d t h) e f)

Outcome-err :
    (q : UaudioQmiDev) (s : Ctx × MemInfo × Ret) → Outcome q s → is_err s.2 ≡ true → Kept q s.0.qdev
unfolding Outcome
Outcome-err q s (inl (e, h)) f = h
Outcome-err q s (inr (e, h)) f = absurd (true_false (sym f ∙ e))
  where
    true_false : true ≡ false → ⊥
    true_false e = cc

Outcome-ok :
    (q : UaudioQmiDev) (s : Ctx × MemInfo × Ret)
    → Outcome q s
    → is_err s.2 ≡ false
    → Holding (iova_mask s.1.iova) q s.0.qdev
unfolding Outcome
Outcome-ok q s (inl (e, h)) f = absurd (true_false (sym e ∙ f))
  where
    true_false : true ≡ false → ⊥
    true_false e = cc
Outcome-ok q s (inr (e, h)) f = h

module _ (k : Call) (q : UaudioQmiDev) where
  free_sec_ring-Kept :
      (c : Ctx) (resp : Resp)
      → Owes q k.subs.sync_endpoint c.qdev resp.tr_data resp.tr_sync
      → Kept q (free_sec_ring c k.subs resp).qdev
  unfolding free_sec_ring
  free_sec_ring-Kept c resp h =
      drop_sync_ep-Kept q (record c { side = remove_interrupter c.side }) k.subs resp
        k.subs.sync_endpoint refl h

  unmap_er-Kept :
      (c : Ctx) (resp : Resp)
      → Owes q k.subs.sync_endpoint c.qdev resp.tr_data resp.tr_sync
      → Kept q (unmap_er c k.subs resp).qdev
  unfolding unmap_er iommu_unmap
  unmap_er-Kept c resp h =
      free_sec_ring-Kept (record c { qdev = iommu_unmap c.qdev event_ring iova_base page_size })
        resp (Owes-ring q k.subs.sync_endpoint c.qdev _ resp.tr_data resp.tr_sync h refl refl)

  publish-Restores :
      (c : Ctx) (resp : Resp) (cpu : ℕ)
      → Owes q k.subs.sync_endpoint c.qdev resp.tr_data resp.tr_sync
      → Restores q (publish k c resp cpu)
  unfolding publish cache Restores
  publish-Restores c resp cpu h =
      if_intro (Restores q) k.dev.in_use (λ used e. absurd (ok_err e))
        λ idle.
          if_intro (Restores q) (not k.env.info_allocated) (λ g e. unmap_er-Kept c resp h)
            (λ g e. absurd (ok_err e))
    where
      ok_err : false ≡ true → ⊥
      ok_err e = cc

  with_buffer-Restores :
      (c : Ctx) (resp : Resp)
      → Owes q k.subs.sync_endpoint c.qdev resp.tr_data resp.tr_sync
      → Restores q (with_buffer k c resp)
  unfolding with_buffer Restores
  with_buffer-Restores c resp h =
      let b = transfer_buffer_setup (er_marked c) k.xfer_buff_size k.env.buffer in
      let (ring, sid) = transfer_buffer_setup-ring (er_marked c) k.xfer_buff_size k.env.buffer in
      let later =
        Owes-ring q k.subs.sync_endpoint c.qdev b.0.qdev resp.tr_data resp.tr_sync h ring sid in
      if_intro (Restores q) (is_invalid (get_speed_info k.subs.speed))
        (λ g e.
          free_sec_ring-Kept (er_marked c) (numbered k c resp)
            (Owes-ring q k.subs.sync_endpoint c.qdev _ resp.tr_data resp.tr_sync h refl refl))
        λ g.
          if_intro (Restores q) (is_err b.3)
            (λ f e. free_sec_ring-Kept b.0 (numbered k c resp) later)
            λ f.
              publish-Restores b.0
                (record (numbered k c resp) { xfer_buff = b.1; xhci_mem_info_valid = true }) b.2
                later

  with_event-Restores :
      (c : Ctx) (resp : Resp)
      → Owes q k.subs.sync_endpoint c.qdev resp.tr_data resp.tr_sync
      → Restores q (with_event k c resp)
  unfolding with_event Restores
  with_event-Restores c resp h =
      let e = event_ring_setup c k.env.event in
      let same = event_ring_setup-qdev c k.env.event in
      let later =
        Owes-ring q k.subs.sync_endpoint c.qdev e.0.qdev resp.tr_data resp.tr_sync h
          (ap (λ r. r.xfer_ring) same) (ap (λ r. r.sid) same) in
      if_intro (Restores q) (is_err e.2)
        (λ g f. drop_sync_ep-Kept q e.0 k.subs (controlled k resp) k.subs.sync_endpoint refl later)
        λ g. with_buffer-Restores e.0 (evented k resp e.1) later

  with_sync-Restores :
      (ep : Option Endpoint) (c : Ctx) (resp : Resp)
      → k.subs.sync_endpoint ≡ ep
      → Holding (iova_mask resp.tr_data.iova) q c.qdev
      → Restores q (with_sync ep k c resp)
  unfolding with_sync Restores Owes
  with_sync-Restores none c resp e h = with_event-Restores c resp (rw e h)
  with_sync-Restores (some ep) c resp e h =
      let s = endpoint_setup c ep k.env.sync_ep in
      let o = endpoint_setup-Outcome c ep k.env.sync_ep h.in_order in
      if_intro (Restores q) (is_err s.2)
        (λ f g.
          drop_data_ep-Kept q s.0 k.subs resp
            (Holding-Kept _ q c.qdev s.0.qdev h (Outcome-err c.qdev s o f)))
        λ f. with_event-Restores s.0 (synced resp s.1) (rw e (c.qdev, h, Outcome-ok c.qdev s o f))

-- If the ring pool is in order and the stream identifier fits 32 bits, a request that fails leaves
-- the same ring addresses in use as it found, whichever step failed, and the pool in order.
pub prepare_qmi_response-rings :
    (k : Call) (c : Ctx) (resp : Resp)
    → IsRings c.qdev
    → is_err (prepare_qmi_response k c resp).ret ≡ true
    → Kept c.qdev (prepare_qmi_response k c resp).ctx.qdev
unfolding prepare_qmi_response Restores
prepare_qmi_response-rings k c resp v =
    let p = populate_uac_desc resp k.env.desc in
    let d = endpoint_setup c k.subs.data_endpoint k.env.data_ep in
    let o = endpoint_setup-Outcome c k.subs.data_endpoint k.env.data_ep v in
    if_intro (Restores c.qdev) (not k.dev.has_ctrl_intf) (λ f g. Kept-refl c.qdev v)
      λ f.
        if_intro (Restores c.qdev) (is_err p.1) (λ f g. Kept-refl c.qdev v)
          λ f.
            if_intro (Restores c.qdev) (not k.env.private_data) (λ f g. Kept-refl c.qdev v)
              λ f.
                if_intro (Restores c.qdev) (is_err d.2) (λ f g. Outcome-err c.qdev d o f)
                  λ f.
                    with_sync-Restores k c.qdev k.subs.sync_endpoint d.0 (data_set k p.0 d.1) refl
                      (Outcome-ok c.qdev d o f)
