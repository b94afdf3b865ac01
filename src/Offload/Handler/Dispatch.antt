-- ===== src/Offload/Handler/Dispatch.antt =====
-- How `handle_uaudio_stream_req` comes to its two branches: the tests of a request, up to the one of the
-- service interval (upstream-src/sound/usb/qcom/qc_audio_offload.c).
use audioreach_usb_offload_r.Prelude.{
  ℕ, Bool, true, false, not, ◌||◌, ◌&&◌, Option, none, some, leb, ltb, ◌==◌, if◌then◌else◌,
}
use audioreach_usb_offload_r.Stream.{
  Ret, ok, err, einval, enodev, ebusy, token_direction, token_dev_num, handler_card_num,
  get_data_interval_from_si,
}
use audioreach_usb_offload_r.Offload.{UaudioQmiDev, sndrv_cards}
use audioreach_usb_offload_r.Offload.Setup.{is_err}
use audioreach_usb_offload_r.Offload.Request.{Subs, Chip, find_substream, info_idx_from_ifnum}
use audioreach_usb_offload_r.Offload.Handler.{
  Service, Req, HandlerEnv, Reply, last_format, open_subs, ifnum, cache_ctrl, enable_stream,
  disable_stream, fault, replied,
}

-- From the test of the service interval on; `s` has the substream opened for an enable request.
abbrev pub start_stop : Service → UaudioQmiDev → Req → Subs → Option ℕ → Ret → HandlerEnv → Reply
start_stop s q req subs info_idx ret env =
    let t = cache_ctrl s (handler_card_num req.usb_token) in
    if req.enable
    then (elim info_idx [ none ↦ fault | some i ↦ enable_stream t q req subs i env ])
    else disable_stream t q req info_idx ret env

abbrev pub interval_of_req : Subs → Option ℕ → Ret
interval_of_req subs none = ok 0
interval_of_req subs (some si) = get_data_interval_from_si subs.substream.speed si

unfoldable pub check_interval : Service → UaudioQmiDev → Req → Subs → Option ℕ → HandlerEnv → Reply
check_interval s q req subs info_idx env =
    let ret = interval_of_req subs req.service_interval in
    if is_err ret then replied s ret else start_stop s q req subs info_idx ret env

abbrev pub is_none : Option ℕ → Bool
is_none none = true
is_none (some i) = false

abbrev pub suspended : Option Chip → Bool
suspended none = false
suspended (some chip) = chip.system_suspend

-- The request for a substream that was found.
unfoldable pub with_subs : Service → UaudioQmiDev → Req → Subs → HandlerEnv → Reply
with_subs s q req subs env =
    let card = s.cards (handler_card_num req.usb_token) in
    let info_idx = info_idx_from_ifnum card.dev (ifnum subs) req.enable in
    if not subs.wired
    then replied s (err enodev)
    else if req.enable
    then (if is_none info_idx || suspended card.chip || subs.opened
        then replied s (err ebusy)
        else check_interval (open_subs s req true) q req subs info_idx env)
    else check_interval s q req subs info_idx env

abbrev pub with_found : Service → UaudioQmiDev → Req → Option Subs → HandlerEnv → Reply
with_found s q req none env = replied s (err enodev)
with_found s q req (some subs) env = with_subs s q req subs env

abbrev pub with_qdev : Service → Option UaudioQmiDev → Req → HandlerEnv → Reply
with_qdev s none req env = replied s (err einval)
with_qdev s (some q) req env =
    if leb sndrv_cards (handler_card_num req.usb_token)
    then replied s (err einval)
    else if ltb last_format req.audio_format
    then replied s (err einval)
    else with_found s q req
        (find_substream (s.cards (handler_card_num req.usb_token)).chip
          (token_dev_num req.usb_token) (token_direction req.usb_token))
        env

-- The first request names the client.
unfoldable pub connect : Service → ℕ → ℕ → Service
connect s node port =
    if s.client_connected
    then s
    else record s { client_connected = true; client_node = node; client_port = port }

abbrev pub is_complete : Req → Bool
is_complete req =
    req.audio_format_valid && req.bit_rate_valid && req.number_of_ch_valid
    && req.xfer_buff_size_valid

unfoldable pub handle_uaudio_stream_req : Service → ℕ → ℕ → Req → HandlerEnv → Reply
handle_uaudio_stream_req s node port req env =
    let t = connect s node port in
    if not (is_complete req) then replied t (err einval) else with_qdev t t.qdev req env

-- `resp.status`: USB_QMI_STREAM_REQ_FAILURE_V01 for any value but 0.
unfoldable pub is_success : Ret → Bool
is_success (ok n) = n == 0
is_success (err e) = false
