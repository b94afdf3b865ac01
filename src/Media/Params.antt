-- ===== src/Media/Params.antt =====
-- The commands for each kind of module (upstream-src/sound/soc/qcom/qdsp6/audioreach.c).
use audioreach_usb_offload_r.Prelude.{
  and_then, ℕ, zero, suc, ◌+◌, ◌-◌, ◌*◌, ◌^◌, Option, none, some, List, [], ◌∷◌,
}
use audioreach_usb_offload_r.Media.{
  Field, dword, word, byte, Param, ConfigCommand, set_cfg, Codec, pcm, mp3, aac, flac, opus_raw,
  Provider, bp_fp, bc_fc, Config, MediaModule, param_data_size, hw_ep_cfg_psize, fs_cfg_psize,
  dp_intf_cfg_psize, usb_intf_cfg_psize, cdma_intf_cfg_psize, hw_ep_pmode_cfg_psize,
  i2s_intf_cfg_psize, gain_cfg_psize, mfc_cfg_psize, pcm_module_fmt_cmd_psize,
  pcm_out_fmt_cfg_psize, shmem_fmt_cfg_psize, sp_vi_op_mode_cfg_psize, sp_vi_ex_mode_cfg_psize,
  sp_vi_ch_map_cfg_psize, channels,
}

-- A parameter of `size` bytes, header included.
abbrev pub param : ℕ → ℕ → ℕ → ℕ → List Field → Param
param at instance id size body = record {
  offset = at;
  module_instance_id = instance;
  param_id = id;
  param_size = size - param_data_size;
  body = body;
}

-- The parameters that several modules have.
abbrev pub hw_ep_mf : ℕ → MediaModule → Config → Param
hw_ep_mf at m c =
    param at m.instance_id 0x08001017 hw_ep_cfg_psize (
      dword c.sample_rate
      ∷ word c.bit_width
      ∷ word c.num_channels
      ∷ dword m.params.data_format
      ∷ [])

abbrev pub frame_size_factor : ℕ → MediaModule → Param
frame_size_factor at m = param at m.instance_id 0x08001018 fs_cfg_psize (dword 1 ∷ [])

unfoldable pub display_port : MediaModule → Config → ConfigCommand
display_port m c = set_cfg (dp_intf_cfg_psize + hw_ep_cfg_psize + fs_cfg_psize) (
    hw_ep_mf 0 m c
    ∷ frame_size_factor hw_ep_cfg_psize m
    ∷ param (hw_ep_cfg_psize + fs_cfg_psize) m.instance_id 0x08001154 dp_intf_cfg_psize
        (dword c.channel_allocation ∷ dword 0 ∷ dword c.dp_idx ∷ [])
    ∷ [])

unfoldable pub usb : MediaModule → Config → ConfigCommand
usb m c = set_cfg (usb_intf_cfg_psize + hw_ep_cfg_psize + fs_cfg_psize) (
    hw_ep_mf 0 m c
    ∷ frame_size_factor hw_ep_cfg_psize m
    ∷ param (hw_ep_cfg_psize + fs_cfg_psize) m.instance_id 0x080010D6 usb_intf_cfg_psize
        (dword c.usb_token ∷ dword c.usb_svc_interval ∷ [])
    ∷ [])

unfoldable pub codec_dma : MediaModule → Config → ConfigCommand
codec_dma m c =
    set_cfg (cdma_intf_cfg_psize + hw_ep_cfg_psize + fs_cfg_psize + hw_ep_pmode_cfg_psize) (
      hw_ep_mf 0 m c
      ∷ frame_size_factor hw_ep_cfg_psize m
      ∷ param (hw_ep_cfg_psize + fs_cfg_psize) m.instance_id 0x08001063 cdma_intf_cfg_psize (
          dword m.params.hw_interface_type
          ∷ dword m.params.hw_interface_idx
          ∷ dword (2 ^ c.num_channels - 1)
          ∷ [])
      ∷ param (hw_ep_cfg_psize + fs_cfg_psize + cdma_intf_cfg_psize) m.instance_id 0x08001176
          hw_ep_pmode_cfg_psize (dword 0 ∷ [])
      ∷ [])

-- `audioreach_send_u32_param`
unfoldable pub u32_param : MediaModule → ℕ → ℕ → ConfigCommand
u32_param m id value =
    set_cfg (4 + param_data_size)
      (param 0 m.instance_id id (4 + param_data_size) (dword value ∷ []) ∷ [])

unfoldable pub mfc : MediaModule → Config → Option ConfigCommand
unfolding channels
mfc m c = and_then (channels word c.num_channels c.channel_map) (λ map. some (
    set_cfg (mfc_cfg_psize c.num_channels + param_data_size) (
      param 0 m.instance_id 0x08001024 (mfc_cfg_psize c.num_channels + param_data_size)
        (dword c.sample_rate ∷ word c.bit_width ∷ word c.num_channels ∷ map)
      ∷ [])))

-- The clock source that is written, if the provider is known.
abbrev pub ws_src : Provider → ℕ
ws_src bp_fp = 1
ws_src bc_fc = 0
ws_src Provider.other = 0

unfoldable pub i2s : MediaModule → Config → ConfigCommand
i2s m c = set_cfg (i2s_intf_cfg_psize + hw_ep_cfg_psize + fs_cfg_psize) (
    param 0 m.instance_id 0x08001019 i2s_intf_cfg_psize (
      dword m.params.hw_interface_type
      ∷ dword m.params.hw_interface_idx
      ∷ word m.params.sd_line_idx
      ∷ word (ws_src c.provider)
      ∷ [])
    ∷ hw_ep_mf i2s_intf_cfg_psize m c
    ∷ frame_size_factor (i2s_intf_cfg_psize + hw_ep_cfg_psize) m
    ∷ [])

unfoldable pub logging : MediaModule → ConfigCommand
logging m = set_cfg (12 + param_data_size) (
    param 0 m.instance_id 0x08001031 (12 + param_data_size)
      (dword m.params.log_code ∷ dword m.params.log_tap_point_id ∷ dword m.params.log_mode ∷ [])
    ∷ [])

unfoldable pub gain_set : MediaModule → ConfigCommand
gain_set m =
    set_cfg gain_cfg_psize
      (param 0 m.instance_id 0x08001006 gain_cfg_psize (word m.params.gain ∷ word 0 ∷ []) ∷ [])

unfoldable pub gain_set_vol_ctrl : MediaModule → ℕ → ConfigCommand
gain_set_vol_ctrl m vol =
    set_cfg (4 + param_data_size)
      (param 0 m.instance_id 0x08001035 (4 + param_data_size) (word vol ∷ word 0 ∷ []) ∷ [])

unfoldable pub pcm_format : MediaModule → Config → Option ConfigCommand
unfolding channels
pcm_format m c = and_then (channels byte c.num_channels c.channel_map) (λ map. some (
    set_cfg (pcm_module_fmt_cmd_psize c.num_channels) (
      param 0 m.instance_id 0x08001008 (pcm_module_fmt_cmd_psize c.num_channels) (
        dword 1
        ∷ dword 0x09001000
        ∷ dword (pcm_out_fmt_cfg_psize c.num_channels)
        ∷ word c.bit_width
        ∷ word 1
        ∷ word c.bit_width
        ∷ word (c.bit_width + 2 ^ 16 - 1)
        ∷ word 1
        ∷ word m.params.interleave_type
        ∷ word 0
        ∷ word c.num_channels
        ∷ map)
      ∷ [])))

-- `struct payload_media_fmt_pcm` without its channels.
abbrev pub media_fmt_pcm : Config → List Field → List Field
media_fmt_pcm c map =
    dword c.sample_rate
    ∷ word c.bit_width
    ∷ word 1
    ∷ word c.bit_width
    ∷ word (c.bit_width + 2 ^ 16 - 1)
    ∷ word 1
    ∷ word c.num_channels
    ∷ map

-- `audioreach_set_compr_media_format`: the header and the payload, `none` for -EINVAL.
unfoldable pub compr_media_format : Config → Codec → Option (List Field)
compr_media_format c mp3 = some (dword 6 ∷ dword 0x09001009 ∷ dword 0 ∷ media_fmt_pcm c [])
compr_media_format c aac = some (
    dword 6
    ∷ dword 0x09001001
    ∷ dword 12
    ∷ word 0
    ∷ word 5
    ∷ word c.num_channels
    ∷ word 0
    ∷ dword c.sample_rate
    ∷ [])
compr_media_format c flac = some (
    dword 6
    ∷ dword 0x09001004
    ∷ dword 20
    ∷ word c.num_channels
    ∷ word c.flac_d.sample_size
    ∷ word c.flac_d.min_blk_size
    ∷ word c.flac_d.max_blk_size
    ∷ dword c.sample_rate
    ∷ dword c.flac_d.min_frame_size
    ∷ dword c.flac_d.max_frame_size
    ∷ [])
compr_media_format c opus_raw = some (
    dword 6
    ∷ dword 0x09001039
    ∷ dword 28
    ∷ word 1
    ∷ word 1
    ∷ byte c.opus_d.version
    ∷ byte c.opus_d.num_channels
    ∷ word c.opus_d.pre_skip
    ∷ dword c.opus_d.sample_rate
    ∷ word c.opus_d.output_gain
    ∷ byte c.opus_d.mapping_family
    ∷ byte c.opus_d.stream_count
    ∷ byte c.opus_d.coupled_count
    ∷ byte (c.opus_d.channel_map 0)
    ∷ byte (c.opus_d.channel_map 1)
    ∷ byte (c.opus_d.channel_map 2)
    ∷ byte (c.opus_d.channel_map 3)
    ∷ byte (c.opus_d.channel_map 4)
    ∷ byte (c.opus_d.channel_map 5)
    ∷ byte (c.opus_d.channel_map 6)
    ∷ byte (c.opus_d.channel_map 7)
    ∷ byte 0
    ∷ byte 0
    ∷ byte 0
    ∷ [])
compr_media_format c pcm = none
compr_media_format c Codec.other = none

-- The command to the shared memory module with the format that is written into it.
abbrev pub shmem_command : MediaModule → Config → List Field → ConfigCommand
shmem_command m c body = set_cfg (shmem_fmt_cfg_psize c.num_channels + param_data_size) (
    param 0 m.instance_id 0x0800100C (shmem_fmt_cfg_psize c.num_channels + param_data_size) body
    ∷ [])

-- The body of PCM, whose header counts the payload of the whole packet but for itself.
unfoldable pub shmem_pcm : Config → Option (List Field)
unfolding channels
shmem_pcm c = and_then (channels byte c.num_channels c.channel_map) (λ map. some (
    dword 1
    ∷ dword 0x09001000
    ∷ dword (shmem_fmt_cfg_psize c.num_channels + param_data_size - 12)
    ∷ media_fmt_pcm c map))

-- The channels of the Vsense and Isense of each speaker.
unfoldable pub vi_channels : ℕ → List ℕ → Option (List Field)
vi_channels zero map = some []
vi_channels (suc n) [] = none
vi_channels (suc n) (c ∷ map) =
    and_then (vi_channels n map)
      (λ fs. some (dword ((c + 2 ^ 32 - 1) * 2 + 1) ∷ dword ((c + 2 ^ 32 - 1) * 2 + 2) ∷ fs))

unfoldable pub speaker_protection_vi : MediaModule → Config → Option ConfigCommand
unfolding vi_channels
speaker_protection_vi m c =
    let n = c.num_channels in
    let op_sz = sp_vi_op_mode_cfg_psize n in
    let cm_sz = sp_vi_ch_map_cfg_psize (n * 2) in
    and_then (vi_channels n c.channel_map) (λ map. some (
      set_cfg (op_sz + cm_sz + sp_vi_ex_mode_cfg_psize) (
        param 0 m.instance_id 0x080011f4 op_sz (dword n ∷ dword 0 ∷ [])
        ∷ param op_sz m.instance_id 0x08001203 cm_sz (dword (n * 2) ∷ map)
        ∷ param (op_sz + cm_sz) m.instance_id 0x080011ff sp_vi_ex_mode_cfg_psize (dword 0 ∷ [])
        ∷ [])))
