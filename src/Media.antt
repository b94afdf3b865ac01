-- ===== src/Media.antt =====
-- The commands that configure the modules of a graph (upstream-src/sound/soc/qcom/qdsp6/audioreach.c), as
-- they lie in the payload of a packet: parameters with a header of 16 bytes each. A size is what the
-- code computes from its structures, and a body is the list of the fields that are written. `none` is a
-- fault: a read through NULL or outside the channel map.
pub mod Params
pub mod Dispatch
pub mod Layout
pub mod Fits
mod Examples
use audioreach_usb_offload_r.Prelude.{
  and_then, ℕ, zero, suc, ◌+◌, ◌-◌, ◌*◌, ◌/◌, Bool, true, false, Option, none, some, List, [], ◌∷◌,
  ◌++◌, ltb, ◌==◌, if◌then◌else◌, length, get_elem?,
}
pub use audioreach_usb_offload_r.Packet.{align8}
use audioreach_usb_offload_r.Topology.Widgets

-- A field of a packed structure, by its width; it holds its number modulo that width.
pub data Field : Type 0 where
  dword word byte : ℕ → Field

abbrev pub bytes : List Field → ℕ
bytes [] = 0
bytes (dword v ∷ fs) = 4 + bytes fs
bytes (word v ∷ fs) = 2 + bytes fs
bytes (byte v ∷ fs) = 1 + bytes fs

-- `struct apm_module_param_data` at its place in the payload, and what is written behind it.
pub record Param : Type 0 where
  pub offset : ℕ
  pub module_instance_id : ℕ
  pub param_id : ℕ
  pub param_size : ℕ
  pub body : List Field

-- An APM_CMD_SET_CFG, with parameters or with the private data of the module.
pub data ConfigCommand : Type 0 where
  set_cfg : ℕ → List Param → ConfigCommand
  set_data : ℕ → List ℕ → ConfigCommand

-- What is read of `struct audioreach_module_config`. Its `fmt` is a codec for the shared memory
-- module and a clock provider for I2S: here these are two fields.
pub data Codec : Type 0 where
  pcm mp3 aac flac opus_raw other : Codec

pub data Provider : Type 0 where
  bp_fp bc_fc other : Provider

pub record FlacOptions : Type 0 where
  pub sample_size : ℕ
  pub min_blk_size : ℕ
  pub max_blk_size : ℕ
  pub min_frame_size : ℕ
  pub max_frame_size : ℕ

pub record OpusOptions : Type 0 where
  pub version : ℕ
  pub num_channels : ℕ
  pub pre_skip : ℕ
  pub sample_rate : ℕ
  pub output_gain : ℕ
  pub mapping_family : ℕ
  pub stream_count : ℕ
  pub coupled_count : ℕ
  pub channel_map : ℕ → ℕ

pub record Config : Type 0 where
  pub sample_rate : ℕ
  pub bit_width : ℕ
  pub num_channels : ℕ
  pub dp_idx : ℕ
  pub channel_allocation : ℕ
  pub usb_token : ℕ
  pub usb_svc_interval : ℕ
  pub codec : Codec
  pub provider : Provider
  pub flac_d : FlacOptions
  pub opus_d : OpusOptions
  pub channel_map : List ℕ

-- `struct audioreach_module_priv_data`: the size that it names, and the bytes behind it.
pub record PrivateData : Type 0 where
  pub size : ℕ
  pub bytes_there : List ℕ

-- A module with the parameters that the topology has given it, and its private data if it has any.
pub record MediaModule : Type 0 where
  pub module_id : ℕ
  pub instance_id : ℕ
  pub params : Widgets.Params
  pub private_data : Option PrivateData

-- ALIGN(n, 4)
abbrev pub align4 : ℕ → ℕ
align4 n = (n + 3) / 4 * 4

-- APM_MODULE_PARAM_DATA_SIZE, and the sizes of the parameters that the other structures give.
abbrev pub param_data_size : ℕ
param_data_size = 16

abbrev pub hw_ep_cfg_psize : ℕ
hw_ep_cfg_psize = align8 (param_data_size + 12)

abbrev pub fs_cfg_psize : ℕ
fs_cfg_psize = align8 (param_data_size + 4)

abbrev pub dp_intf_cfg_psize : ℕ
dp_intf_cfg_psize = align8 (param_data_size + 12)

abbrev pub usb_intf_cfg_psize : ℕ
usb_intf_cfg_psize = align8 (param_data_size + 8)

abbrev pub cdma_intf_cfg_psize : ℕ
cdma_intf_cfg_psize = align8 (param_data_size + 12)

abbrev pub hw_ep_pmode_cfg_psize : ℕ
hw_ep_pmode_cfg_psize = align8 (param_data_size + 4)

abbrev pub i2s_intf_cfg_psize : ℕ
i2s_intf_cfg_psize = align8 (param_data_size + 12)

abbrev pub gain_cfg_psize : ℕ
gain_cfg_psize = align8 (param_data_size + 4)

abbrev pub mfc_cfg_psize : ℕ → ℕ
mfc_cfg_psize n = align4 (8 + 2 * n)

abbrev pub pcm_module_fmt_cmd_psize : ℕ → ℕ
pcm_module_fmt_cmd_psize ch = align8 (param_data_size + 12 + 16 + ch)

abbrev pub pcm_out_fmt_cfg_psize : ℕ → ℕ
pcm_out_fmt_cfg_psize n = align4 (16 + n)

abbrev pub shmem_fmt_cfg_psize : ℕ → ℕ
shmem_fmt_cfg_psize ch = align8 (12 + 16 + ch)

abbrev pub sp_vi_op_mode_cfg_psize : ℕ → ℕ
sp_vi_op_mode_cfg_psize ch = align8 (param_data_size + 12 + 4 * ch)

abbrev pub sp_vi_ex_mode_cfg_psize : ℕ
sp_vi_ex_mode_cfg_psize = align8 (param_data_size + 4)

abbrev pub sp_vi_ch_map_cfg_psize : ℕ → ℕ
sp_vi_ch_map_cfg_psize ch = align8 (param_data_size + 4 + 4 * ch)

-- The first n channels of the map, as fields; `none` behind its end.
unfoldable pub channels : (ℕ → Field) → ℕ → List ℕ → Option (List Field)
channels field zero map = some []
channels field (suc n) [] = none
channels field (suc n) (c ∷ map) = and_then (channels field n map) (λ fs. some (field c ∷ fs))
