-- ===== src/Media/Examples.antt =====
-- An AAC and an OPUS stream through the shared memory module
-- (upstream-src/sound/soc/qcom/qdsp6/audioreach.c).
use audioreach_usb_offload_r.Prelude.{Sat, All, ◌≡◌, refl, true, none, [], ◌∷◌, length, arith}
use audioreach_usb_offload_r.Topology.Widgets.{Params}
use audioreach_usb_offload_r.Media.{Codec, aac, opus_raw, bp_fp, Config, MediaModule}
use audioreach_usb_offload_r.Media.Dispatch.{MediaEnv, set_media_format}
use audioreach_usb_offload_r.Media.Layout.{AreLaidOut}
use audioreach_usb_offload_r.Media.Fits.{
  Overruns, set_media_format-AreLaidOut, set_media_format-opus,
}

abbrev params : Params
params = record {
  interleave_type = 0;
  rate = 0;
  bit_depth = 0;
  log_code = 0;
  log_tap_point_id = 0;
  log_mode = 0;
  hw_interface_idx = 0;
  hw_interface_type = 0;
  data_format = 1;
  sd_line_idx = 0;
  ws_src = 0;
  gain = 0;
}

abbrev shmem_module : MediaModule
shmem_module = record {
  module_id = 0x07001000;
  instance_id = 24577;
  params = params;
  private_data = none;
}

abbrev config : Codec → Config
config codec = record {
  sample_rate = 48000;
  bit_width = 16;
  num_channels = 2;
  dp_idx = 0;
  channel_allocation = 0;
  usb_token = 0;
  usb_svc_interval = 0;
  codec = codec;
  provider = bp_fp;
  flac_d = record {
    sample_size = 0;
    min_blk_size = 0;
    max_blk_size = 0;
    min_frame_size = 0;
    max_frame_size = 0;
  };
  opus_d = record {
    version = 1;
    num_channels = 2;
    pre_skip = 0;
    sample_rate = 48000;
    output_gain = 0;
    mapping_family = 0;
    stream_count = 1;
    coupled_count = 1;
    channel_map = λ i. i;
  };
  channel_map = 1 ∷ 2 ∷ 0 ∷ 0 ∷ 0 ∷ 0 ∷ 0 ∷ 0 ∷ [];
}

abbrev works : MediaEnv
works = record { memory = λ i. true; answer = λ i. 0 }

set_media_format-AreLaidOut_example :
    Sat (set_media_format works shmem_module (config aac)) AreLaidOut
set_media_format-AreLaidOut_example =
    set_media_format-AreLaidOut works shmem_module (config aac) (omega arith) (omega arith)

set_media_format-opus_example :
    Sat
      (set_media_format works shmem_module (config opus_raw))
      (λ s. All Overruns s.commands × (length s.commands ≡ 1))
set_media_format-opus_example =
    set_media_format-opus works shmem_module (config opus_raw) refl refl (omega arith) refl
