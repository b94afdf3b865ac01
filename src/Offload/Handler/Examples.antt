-- ===== src/Offload/Handler/Examples.antt =====
-- Requests to `handle_uaudio_stream_req` of upstream-src/sound/usb/qcom/qc_audio_offload.c for one card
-- with a playback stream.
use audioreach_usb_offload_r.Prelude.{◌*◌, ◌^◌, ◌<◌, get_elem?, arith}
use audioreach_usb_offload_r.Stream.{bus_interval}
use audioreach_usb_offload_r.Offload.Handler.Dispatch.{is_success}
use audioreach_usb_offload_r.Offload.Handler.Requests.{Serves, info_idx_from_ifnum_lem}
use audioreach_usb_offload_r.Offload.Handler.Outcomes.{naming, disable_interval_fails}
use audioreach_usb_offload_r.Prelude.{
  ℕ, ◌≡◌, refl, Bool, true, false, Option, none, some, List, [], ◌∷◌,
}
use audioreach_usb_offload_r.Stream.{
  ok, err, ebusy, high, handler_card_num, token_dev_num, token_direction, get_data_interval_from_si,
  ffs,
}
use audioreach_usb_offload_r.Offload.{init_qmi_dev, IntfInfo, zero_info}
use audioreach_usb_offload_r.Offload.Setup.{is_err}
use audioreach_usb_offload_r.Offload.Request.{
  Subs, Chip, find_substream, find_in, info_idx_from_ifnum, info_scan, EnableEnv,
  enable_audio_stream,
}
use audioreach_usb_offload_r.Offload.Handler.{
  Card, Service, Req, HandlerEnv, Reply, fault, replied, open_subs, disable_stream, disable_info,
  cache_ctrl,
}
use audioreach_usb_offload_r.Offload.Handler.Dispatch.{check_interval, with_subs}
use audioreach_usb_offload_r.Offload.Handler.Outcomes.{with_subs_keeps_opened}
use audioreach_usb_offload_r.Offload.Scene.{side, substream, dev, env}

abbrev subs : Bool → Subs
subs opened = record {
  substream = substream;
  ep_num = 1;
  opened = opened;
  wired = true;
  has_audiofmt = true;
}

abbrev chip : Chip
chip = record {
  shutdown = false;
  system_suspend = false;
  has_ctrl_intf = true;
  pcm_devs = 1;
  pcm_list = record { pcm_index = 0; playback = subs false; capture = subs true } ∷ [];
}

-- One entry of the table is in use, for interface 1.
abbrev running : List IntfInfo
running = record zero_info { intf_num = 1; in_use = true } ∷ zero_info ∷ []

abbrev card : Option (List IntfInfo) → Card
card infos = record {
  dev = record dev { info = infos; num_intf = 2; in_use = true; kref = 1; has_udev = true };
  side = side;
  chip = some chip;
  sdev = none;
  held = 1;
}

abbrev service : Option (List IntfInfo) → Service
service infos = record {
  client_connected = true;
  client_node = 5;
  client_port = 6;
  qdev = some init_qmi_dev;
  cards = λ n. card infos;
  coherent = [];
}

abbrev request : Bool → ℕ → Option ℕ → Req
request enable token service_interval = record {
  enable = enable;
  usb_token = token;
  audio_format = 1;
  audio_format_valid = true;
  bit_rate_valid = true;
  number_of_ch_valid = true;
  xfer_buff_size = 4096;
  xfer_buff_size_valid = true;
  service_interval = service_interval;
}

abbrev opening : EnableEnv
opening = record {
  hw_params = ok 0;
  shutdown_now = false;
  lock = ok 0;
  sync_prepare = ok 0;
  data_prepare = ok 0;
}

abbrev answers : HandlerEnv
answers = record { enabling = opening; preparing = env; endpoint = λ pipe. none }

lookup : info_idx_from_ifnum (card (some running)).dev 1 true ≡ some 1
unfolding info_idx_from_ifnum info_scan
lookup = refl

-- 3000 microseconds are no power of two of 125.
refused_interval : get_data_interval_from_si high 3000 ≡ err 22
unfolding get_data_interval_from_si ffs
refused_interval = refl

substream_found :
    find_substream (some chip) (token_dev_num 0) (token_direction 0) ≡ some (subs false)
unfolding find_substream find_in
substream_found = refl

with_subs_keeps_opened_example :
    (with_subs
        (service (some running))
        init_qmi_dev
        (request true 0 (some 3000))
        (subs false)
        answers
      ≡ replied (open_subs (service (some running)) (request true 0 (some 3000)) true) (err 22))
    × (find_substream
          ((open_subs (service (some running)) (request true 0 (some 3000)) true).cards
            (handler_card_num 0)).chip
          (token_dev_num 0)
          (token_direction 0)
        ≡ some (subs true))
    × (with_subs
          (open_subs (service (some running)) (request true 0 (some 3000)) true)
          init_qmi_dev
          (request true 0 none)
          (subs true)
          answers
        ≡ replied
            (open_subs (service (some running)) (request true 0 (some 3000)) true)
            (err ebusy))
with_subs_keeps_opened_example =
    with_subs_keeps_opened (service (some running)) init_qmi_dev init_qmi_dev
      (request true 0 (some 3000)) (request true 0 none) (subs false) answers answers 3000 1 22 refl
      refl refl refl refl refl refl lookup refused_interval substream_found

enabled : is_err (enable_audio_stream false opening).1 ≡ false
unfolding enable_audio_stream
enabled = refl

abbrev after_reply : Reply → Service
after_reply fault = service none
after_reply (replied s ret) = s

-- The stream of interface 1 is stopped.
abbrev stopped : Service
stopped = after_reply (
    check_interval (service (some running)) init_qmi_dev (request false 0 none) (subs false)
      (some 0) answers)

stopped_ok :
    check_interval
      (service (some running))
      init_qmi_dev
      (request false 0 none)
      (subs false)
      (some 0)
      answers
    ≡ replied stopped (ok 0)
unfolding check_interval disable_stream disable_info cache_ctrl handler_card_num
stopped_ok = refl

disable_interval_fails_example :
    (check_interval
        (service (some running))
        init_qmi_dev
        (naming (request false 0 none) (bus_interval high * 2 ^ 3))
        (subs false)
        (some 0)
        answers
      ≡ replied stopped (ok 3))
    × (is_success (ok 0) ≡ true)
    × (is_success (ok 3) ≡ false)
disable_interval_fails_example =
    disable_interval_fails (service (some running)) stopped init_qmi_dev (request false 0 none)
      (subs false) (some 0) answers 3 refl refl (omega arith) (omega arith) stopped_ok

info_idx_from_ifnum_lem_example :
    (info : IntfInfo) × (1 < 2) × (get_elem? running 1 ≡ some info) × Serves 1 true info
info_idx_from_ifnum_lem_example =
    info_idx_from_ifnum_lem (card (some running)).dev 1 true running 1 refl lookup
