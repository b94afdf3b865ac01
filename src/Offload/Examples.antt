-- ===== src/Offload/Examples.antt =====
-- `prepare_qmi_response` of upstream-src/sound/usb/qcom/qc_audio_offload.c for one card with a playback
-- stream.
use audioreach_usb_offload_r.Prelude.{◌≡◌, refl, true, false, none, [], arith}
use audioreach_usb_offload_r.Iova.{get_iova}
use audioreach_usb_offload_r.Iova.Rings.{init_pool-IsRingPool}
use audioreach_usb_offload_r.Stream.{ok, get_speed_info, xfer_buf_len}
use audioreach_usb_offload_r.Sideband.{
  add_endpoint, get_endpoint_buffer, get_event_buffer, create_interrupter,
}
use audioreach_usb_offload_r.Offload.{
  init_qmi_dev, Ctx, empty_resp, iova_xfer_ring_base, iova_xfer_ring_max,
}
use audioreach_usb_offload_r.Offload.Iommu.{iommu_map_pa, iommu_map_xfer_buf, map_sgs}
use audioreach_usb_offload_r.Offload.Setup.{
  is_err, populate_uac_desc, endpoint_setup, event_ring_setup, transfer_buffer_setup,
}
use audioreach_usb_offload_r.Offload.Rings.{IsRings, Kept}
use audioreach_usb_offload_r.Offload.Response.{
  ResponseEnv, prepare_qmi_response, with_event, with_sync, with_buffer, publish, cache,
}
use audioreach_usb_offload_r.Offload.Response.Failure.{prepare_qmi_response-rings}
use audioreach_usb_offload_r.Offload.Response.EventRing.{
  prepare_qmi_response_once, with_event_stuck,
}
use audioreach_usb_offload_r.Offload.Scene.{ctx, env, call}

-- No second interrupter can be had.
abbrev no_interrupter : ResponseEnv
no_interrupter = record env {
  event = record { created = none; offload_got = ok 0; event_dma = none };
}

-- There is no memory for a transfer buffer.
abbrev no_buffer : ResponseEnv
no_buffer = record env { buffer = record { buffer = none; sgs = []; buf_allocated = true } }

ctx-IsRings : IsRings ctx.qdev
unfolding init_qmi_dev
ctx-IsRings = record {
  rings = init_pool-IsRingPool iova_xfer_ring_base iova_xfer_ring_max (omega arith);
  small_sid = omega arith;
}

no_interrupter-is_err :
    is_err (prepare_qmi_response (call no_interrupter) ctx empty_resp).ret ≡ true
unfolding prepare_qmi_response populate_uac_desc endpoint_setup add_endpoint get_endpoint_buffer
    iommu_map_pa get_iova with_sync with_event event_ring_setup create_interrupter init_qmi_dev
no_interrupter-is_err = refl

prepare_qmi_response-rings_example :
    Kept ctx.qdev (prepare_qmi_response (call no_interrupter) ctx empty_resp).ctx.qdev
prepare_qmi_response-rings_example =
    prepare_qmi_response-rings (call no_interrupter) ctx empty_resp ctx-IsRings
      no_interrupter-is_err

prepared_ok : is_err (prepare_qmi_response (call env) ctx empty_resp).ret ≡ false
unfolding prepare_qmi_response populate_uac_desc endpoint_setup add_endpoint get_endpoint_buffer
    iommu_map_pa get_iova with_sync with_event event_ring_setup create_interrupter init_qmi_dev
    with_buffer transfer_buffer_setup get_event_buffer iommu_map_xfer_buf publish cache
    get_speed_info map_sgs xfer_buf_len
prepared_ok = refl

-- The next request, on the state that the first one leaves.
prepare_qmi_response_once_example :
    is_err
      (prepare_qmi_response
        (call env)
        (prepare_qmi_response (call env) ctx empty_resp).ctx
        empty_resp).ret
    ≡ true
prepare_qmi_response_once_example =
    prepare_qmi_response_once (call env) (call env) ctx
      (prepare_qmi_response (call env) ctx empty_resp).ctx empty_resp prepared_ok refl

abbrev mapped : Ctx
mapped = record ctx { qdev = record (ctx.qdev) { er_mapped = true } }

event_ok : is_err (event_ring_setup ctx env.event).2 ≡ false
unfolding event_ring_setup create_interrupter get_event_buffer iommu_map_pa init_qmi_dev
event_ok = refl

with_event_stuck_example :
    (is_err (with_event (call no_buffer) ctx empty_resp).ret ≡ true)
    × (is_err
          (prepare_qmi_response
            (call env)
            (with_event (call no_buffer) ctx empty_resp).ctx
            empty_resp).ret
        ≡ true)
with_event_stuck_example =
    with_event_stuck (call no_buffer) (call env) ctx
      (with_event (call no_buffer) ctx empty_resp).ctx empty_resp event_ok refl refl
