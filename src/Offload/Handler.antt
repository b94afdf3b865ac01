-- ===== src/Offload/Handler.antt =====
-- The state of the driver and the two branches of `handle_uaudio_stream_req` of
-- upstream-src/sound/usb/qcom/qc_audio_offload.c, for the requests that enable a stream and those that
-- disable it. The locks are held throughout, so a request is one step. An access outside an array is a fault.
pub mod Dispatch
pub mod Requests
pub mod Outcomes
mod Examples
use audioreach_usb_offload_r.Prelude.{
  ℕ, zero, suc, ◌+◌, ◌-◌, Bool, true, false, not, ◌||◌, ◌&&◌, Option, none, some, List, [], ◌∷◌,
  set, get_elem?, leb, ltb, ◌==◌, if◌then◌else◌,
}
use audioreach_usb_offload_r.Stream.{
  Ret, ok, err, einval, enodev, ebusy, token_direction, token_dev_num, handler_card_num,
  response_card_num, get_data_interval_from_si,
}
use audioreach_usb_offload_r.Sideband.{State, update, remove_endpoint}
use audioreach_usb_offload_r.Offload.{
  UaudioQmiDev, UaudioDev, IntfInfo, Ctx, Substream, Endpoint, empty_resp, sndrv_cards,
}
use audioreach_usb_offload_r.Offload.Setup.{is_err}
use audioreach_usb_offload_r.Offload.Response.{ResponseEnv, Call, Done, prepare_qmi_response}
use audioreach_usb_offload_r.Offload.Request.{
  Subs, Chip, find_substream, set_opened, info_idx_from_ifnum, EnableEnv, enable_audio_stream,
  intf_cleanup, dev_put,
}

-- `struct snd_soc_usb_device`, as far as the driver fills it in: the array `ppcm_idx` and its length.
pub record Sdev : Type 0 where
  pub num_playback : ℕ
  pub ppcm_idx : List ℕ

-- An entry of `uadev`, with the chip and the sideband that it points to. `held` counts the calls of
-- `enable_audio_stream` whose effect stands.
pub record Card : Type 0 where
  pub dev : UaudioDev
  pub side : State
  pub chip : Option Chip
  pub sdev : Option Sdev
  pub held : ℕ

-- `uaudio_svc`, `uaudio_qdev` and `uadev`.
pub record Service : Type 0 where
  pub client_connected : Bool
  pub client_node : ℕ
  pub client_port : ℕ
  pub qdev : Option UaudioQmiDev
  pub cards : ℕ → Card
  pub coherent : List ℕ

-- `struct qmi_uaudio_stream_req_msg_v01`
pub record Req : Type 0 where
  pub enable : Bool
  pub usb_token : ℕ
  pub audio_format : ℕ
  pub audio_format_valid : Bool
  pub bit_rate_valid : Bool
  pub number_of_ch_valid : Bool
  pub xfer_buff_size : ℕ
  pub xfer_buff_size_valid : Bool
  pub service_interval : Option ℕ

-- The answers of the environment; `endpoint` is `usb_pipe_endpoint`, as the endpoint's index.
pub record HandlerEnv : Type 0 where
  pub enabling : EnableEnv
  pub preparing : ResponseEnv
  pub endpoint : ℕ → Option ℕ

pub data Reply : Type 0 where
  fault : Reply
  replied : Service → Ret → Reply

-- USB_QMI_PCM_FORMAT_U32_BE
abbrev pub last_format : ℕ
last_format = 17

abbrev pub set_card : Service → ℕ → Card → Service
set_card s n card = record s { cards = update s.cards n card }

abbrev pub open_in : ℕ → ℕ → Bool → Option Chip → Option Chip
open_in dev_num direction v none = none
open_in dev_num direction v (some chip) =
    some (record chip { pcm_list = set_opened chip.pcm_list dev_num direction v })

-- `subs->opened = v` for the substream that the token names.
unfoldable pub open_subs : Service → Req → Bool → Service
open_subs s req v =
    let n = handler_card_num req.usb_token in
    let card = s.cards n in
    let dev_num = token_dev_num req.usb_token in
    let direction = token_direction req.usb_token in
    set_card s n (record card { chip = open_in dev_num direction v card.chip })

-- The interface number that is looked up, -1 where there is no format.
abbrev pub ifnum : Subs → ℕ
ifnum subs = if subs.has_audiofmt then subs.substream.iface else 4294967295

abbrev pub has_sync : Subs → Bool
has_sync subs = elim subs.substream.sync_endpoint [ none ↦ false | some ep ↦ true ]

abbrev pub ctrl_of : Option Chip → Bool
ctrl_of none = false
ctrl_of (some chip) = chip.has_ctrl_intf

-- `uadev[pcm_card_num].ctrl_intf = chip->ctrl_intf`
unfoldable pub cache_ctrl : Service → ℕ → Service
cache_ctrl s n =
    let card = s.cards n in
    set_card s n (record card { dev = record (card.dev) { has_ctrl_intf = ctrl_of card.chip } })

-- The state after `prepare_qmi_response`.
unfoldable pub prepared : Service → UaudioQmiDev → Req → Subs → ℕ → ResponseEnv → Service × Ret
prepared s q req subs info_idx env =
    let n = handler_card_num req.usb_token in
    let card = s.cards n in
    let k : Call = record {
      dev = card.dev;
      subs = subs.substream;
      usb_token = req.usb_token;
      xfer_buff_size = req.xfer_buff_size;
      card_num = n;
      info_idx = info_idx;
      env = env;
    } in
    let c : Ctx = record { qdev = q; side = card.side; coherent = s.coherent } in
    let d = prepare_qmi_response k c empty_resp in
    (
      record (set_card s n (record card { dev = d.dev; side = d.ctx.side })) {
        qdev = some d.ctx.qdev;
        coherent = d.ctx.coherent;
      },
      d.ret,
    )

abbrev pub hold : Service → ℕ → Service
hold s n = set_card s n (record (s.cards n) { held = (s.cards n).held + 1 })

abbrev pub opened_unless : Service → Req → Ret → Service × Ret
opened_unless s req (ok n) = (s, ok n)
opened_unless s req (err e) = (open_subs s req false, err e)

-- The branch for an enable request.
unfoldable pub enable_stream : Service → UaudioQmiDev → Req → Subs → ℕ → HandlerEnv → Reply
enable_stream s q req subs info_idx env =
    let n = handler_card_num req.usb_token in
    let e = enable_audio_stream (has_sync subs) env.enabling in
    let held = if e.0 then hold s n else s in
    if is_err e.1
    then (let r = opened_unless held req e.1 in replied r.0 r.1)
    else if leb sndrv_cards (response_card_num req.usb_token)
    then fault
    else (let p = prepared held q req subs info_idx env.preparing in
        let r = opened_unless p.0 req p.1 in replied r.0 r.1)

-- The endpoint behind a pipe is stopped, which changes nothing that is modelled, and removed.
abbrev pub drop_pipe : State → ℕ → (ℕ → Option ℕ) → State
drop_pipe side pipe endpoint =
    if pipe == 0
    then side
    else elim (endpoint pipe) [ none ↦ side | some i ↦ (remove_endpoint side i).0 ]

-- The branch for a disable request with the entry of its interface, and the clean-up behind the label
-- `response`. `ret` is the data interval that the request was checked with, or 0.
unfoldable pub disable_info :
    Service → UaudioQmiDev → Req → ℕ → List IntfInfo → IntfInfo → Ret → HandlerEnv → Reply
disable_info s q req info_idx infos info ret env =
    let n = handler_card_num req.usb_token in
    let closed = open_subs s req false in
    let card = closed.cards n in
    let side =
      drop_pipe (drop_pipe card.side info.data_ep_pipe env.endpoint) info.sync_ep_pipe
        env.endpoint in
    let c : Ctx = record { qdev = q; side = side; coherent = s.coherent } in
    let unpiped = record info { data_ep_pipe = 0; sync_ep_pipe = 0 } in
    let cleaned = intf_cleanup c unpiped in
    let dev = record (card.dev) { info = some (set infos info_idx cleaned.1) } in
    let put = if card.dev.in_use then dev_put cleaned.0 dev n else (cleaned.0, dev) in
    let after = record card { dev = put.1; side = put.0.side; held = card.held - 1 } in
    replied (record (set_card closed n after) { qdev = some put.0.qdev; coherent = put.0.coherent })
      ret

abbrev pub with_entry :
    Service → UaudioQmiDev → Req → ℕ → List IntfInfo → Option IntfInfo → Ret → HandlerEnv → Reply
with_entry s q req info_idx infos none ret env = fault
with_entry s q req info_idx infos (some info) ret env =
    disable_info s q req info_idx infos info ret env

abbrev pub with_infos :
    Service → UaudioQmiDev → Req → ℕ → Option (List IntfInfo) → Ret → HandlerEnv → Reply
with_infos s q req info_idx none ret env = fault
with_infos s q req info_idx (some infos) ret env =
    with_entry s q req info_idx infos (get_elem? infos info_idx) ret env

-- The entry is taken at `info_idx` with no test of its sign.
unfoldable pub disable_stream : Service → UaudioQmiDev → Req → Option ℕ → Ret → HandlerEnv → Reply
disable_stream s q req none ret env = fault
disable_stream s q req (some info_idx) ret env =
    with_infos s q req info_idx (s.cards (handler_card_num req.usb_token)).dev.info ret env
