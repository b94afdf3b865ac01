-- ===== src/Topology/Widgets.antt =====
-- What the other tokens of a widget set in its module, and the mixer and volume controls
-- (source-reference/kernel/qdsp6/topology.c). Names of widgets, modules and controls are numbers here: the
-- code only compares them.
pub mod Mixers
mod Examples
use audioreach_usb_offload_r.Prelude.{
  ℕ, ◌%◌, ◌^◌, Bool, true, false, not, ◌&&◌, Option, none, some, List, [], ◌∷◌, ◌==◌, if◌then◌else◌,
}
use audioreach_usb_offload_r.Topology.Tables.{
  GraphEntry, Tables, TplgResult, ok, err, fault, einval, set_graph_info, at_graph, update,
}
use audioreach_usb_offload_r.Topology.Tables.Arrays.{
  Elem, sub_graph_instance_id, dai_index, module_hw_if_idx, module_fmt_data, module_hw_if_type,
  module_sd_line_idx, module_ws_src, module_log_code, module_log_tap_point_id, module_log_mode,
  module_fmt_interleave, module_fmt_sample_rate, module_fmt_bit_depth,
}

-- The fields of `struct audioreach_module` that these tokens set.
pub record Params : Type 0 where
  pub interleave_type : ℕ
  pub rate : ℕ
  pub bit_depth : ℕ
  pub log_code : ℕ
  pub log_tap_point_id : ℕ
  pub log_mode : ℕ
  pub hw_interface_idx : ℕ
  pub hw_interface_type : ℕ
  pub data_format : ℕ
  pub sd_line_idx : ℕ
  pub ws_src : ℕ
  pub gain : ℕ

abbrev pub enc_dec_cnv_read : Params → Elem → Params
enc_dec_cnv_read m (module_fmt_interleave v) = record m { interleave_type = v }
enc_dec_cnv_read m (module_fmt_sample_rate v) = record m { rate = v }
enc_dec_cnv_read m (module_fmt_bit_depth v) = record m { bit_depth = v }
enc_dec_cnv_read m _ = m

abbrev pub log_read : Params → Elem → Params
log_read m (module_log_code v) = record m { log_code = v }
log_read m (module_log_tap_point_id v) = record m { log_tap_point_id = v }
log_read m (module_log_mode v) = record m { log_mode = v }
log_read m _ = m

abbrev pub dma_read : Params → Elem → Params
dma_read m (module_hw_if_idx v) = record m { hw_interface_idx = v }
dma_read m (module_fmt_data v) = record m { data_format = v }
dma_read m (module_hw_if_type v) = record m { hw_interface_type = v }
dma_read m _ = m

abbrev pub i2s_read : Params → Elem → Params
i2s_read m (module_hw_if_idx v) = record m { hw_interface_idx = v }
i2s_read m (module_fmt_data v) = record m { data_format = v }
i2s_read m (module_hw_if_type v) = record m { hw_interface_type = v }
i2s_read m (module_sd_line_idx v) = record m { sd_line_idx = v }
i2s_read m (module_ws_src v) = record m { ws_src = v }
i2s_read m _ = m

abbrev pub dp_read : Params → Elem → Params
dp_read m (module_fmt_data v) = record m { data_format = v }
dp_read m _ = m

-- The loop over the elements of the module's array that each of them has.
unfoldable pub params_read : (Params → Elem → Params) → Params → List Elem → Params
params_read f m [] = m
params_read f m (e ∷ es) = params_read f (f m e) es

abbrev pub module_id_i2s_sink : ℕ
module_id_i2s_sink = 0x0700100A

abbrev pub module_id_i2s_source : ℕ
module_id_i2s_source = 0x0700100B

abbrev pub module_id_data_logging : ℕ
module_id_data_logging = 0x0700101A

abbrev pub module_id_codec_dma_sink : ℕ
module_id_codec_dma_sink = 0x07001023

abbrev pub module_id_codec_dma_source : ℕ
module_id_codec_dma_source = 0x07001024

abbrev pub module_id_display_port_sink : ℕ
module_id_display_port_sink = 0x07001069

abbrev pub module_id_usb_audio_sink : ℕ
module_id_usb_audio_sink = 0x0700104F

abbrev pub module_id_usb_audio_source : ℕ
module_id_usb_audio_source = 0x07001050

-- `audioreach_widget_load_buffer` once the module is there: its parameters, `none` for -EINVAL.
unfoldable pub load_buffer : ℕ → List Elem → Params → Option Params
unfolding params_read
load_buffer id es m =
    if id == module_id_codec_dma_sink
    then some (params_read dma_read m es)
    else if id == module_id_codec_dma_source
    then some (params_read dma_read m es)
    else if id == module_id_data_logging
    then some (params_read log_read m es)
    else if id == module_id_i2s_sink
    then some (params_read i2s_read m es)
    else if id == module_id_i2s_source
    then some (params_read i2s_read m es)
    else if id == module_id_display_port_sink
    then some (params_read dp_read m es)
    else if id == module_id_usb_audio_sink
    then some (params_read dp_read m es)
    else if id == module_id_usb_audio_source
    then some (params_read dp_read m es)
    else none

-- `struct snd_ar_control`, and the elements of a mixer widget or a mixer control.
pub record Control : Type 0 where
  pub graph_id : ℕ
  pub sgid : ℕ
  pub module_instance_id : ℕ

abbrev pub control_read : Control → Elem → Control
control_read c (sub_graph_instance_id v) = record c { sgid = v }
control_read c (dai_index v) = record c { graph_id = v }
control_read c _ = c

unfoldable pub control_load_mix : Control → List Elem → Control
control_load_mix c [] = c
control_load_mix c (e ∷ es) = control_load_mix (control_read c e) es

-- `audioreach_connect_sub_graphs`, from the control m1 to the mixer m2.
unfoldable pub connect_sub_graphs : Control → Control → Bool → Tables → TplgResult (Unit {0})
connect_sub_graphs m1 m2 connect t = at_graph t m2.graph_id (λ info. ok tt (
    set_graph_info t m2.graph_id (
      some (
        if connect
        then record info {
          src_mod_inst_id = m1.module_instance_id;
          src_mod_op_port_id = 1;
          dst_mod_inst_id = m2.module_instance_id;
          dst_mod_ip_port_id = 2;
        }
        else record info {
          src_mod_inst_id = 0;
          src_mod_op_port_id = 0;
          dst_mod_inst_id = 0;
          dst_mod_ip_port_id = 0;
        }))))

-- `audioreach_is_vmixer_connected`; `none` is a null pointer.
unfoldable pub is_vmixer_connected : Control → Control → Tables → Option Bool
is_vmixer_connected m1 m2 t = elim (t.graphs m2.graph_id) [
  | none ↦ none
  | some info ↦ some (
      info.dst_mod_inst_id == m2.module_instance_id
      && info.src_mod_inst_id == m1.module_instance_id)
]

-- `audioreach_put_audio_mixer` and `audioreach_get_audio_mixer` of the control m1 in the mixer m2.
unfoldable pub put_audio_mixer : Control → Control → ℕ → Tables → TplgResult (Unit {0})
unfolding connect_sub_graphs
put_audio_mixer m1 m2 value t = connect_sub_graphs m1 m2 (not (value == 0)) t

unfoldable pub get_audio_mixer : Control → Control → Tables → Option ℕ
unfolding is_vmixer_connected
get_audio_mixer m1 m2 t = elim (is_vmixer_connected m1 m2 t) [
  | none ↦ none
  | some connected ↦ some (if connected then 1 else 0)
]

-- `audioreach_put_vol_ctrl_audio_mixer`, whose gain is a `u16`, and the value that is read back.
unfoldable pub put_vol_ctrl_audio_mixer : ℕ → Params → Params
put_vol_ctrl_audio_mixer value m = record m { gain = value % 2 ^ 16 }

unfoldable pub get_vol_ctrl_audio_mixer : Params → ℕ
get_vol_ctrl_audio_mixer m = m.gain

-- A mixer widget: its name, its control, and its kcontrols with the control of each.
pub record Mixer : Type 0 where
  pub name : ℕ
  pub scontrol : ℕ
  pub kcontrols : List (ℕ × ℕ)

pub record Route : Type 0 where
  pub source : ℕ
  pub sink : ℕ
  pub control : Option ℕ

-- The modules with the names of their widgets and their instances.
unfoldable pub find_module : ℕ → List (ℕ × ℕ) → Option ℕ
find_module name [] = none
find_module name ((n, inst) ∷ ms) = if name == n then some inst else find_module name ms

unfoldable pub find_widget : ℕ → List Mixer → Option Mixer
find_widget name [] = none
find_widget name (m ∷ ms) = if name == m.name then some m else find_widget name ms

abbrev pub set_instance : (ℕ → Control) → ℕ → ℕ → ℕ → Control
set_instance cs i inst = update cs i (record (cs i) { module_instance_id = inst })

-- The kcontrols of a mixer whose name is that of the route.
unfoldable pub set_kcontrols : ℕ → ℕ → (ℕ → Control) → List (ℕ × ℕ) → ℕ → Control
set_kcontrols name inst cs [] = cs
set_kcontrols name inst cs ((n, i) ∷ ks) =
    set_kcontrols name inst (if name == n then set_instance cs i inst else cs) ks

-- `audioreach_route_load` on the controls.
unfoldable pub route_load : List (ℕ × ℕ) → List Mixer → Route → (ℕ → Control) → ℕ → Control
unfolding find_module find_widget set_kcontrols
route_load modules mixers route cs = elim (find_module route.source modules) [
  | none ↦ elim (find_module route.sink modules) [
    | none ↦ cs
    | some inst ↦ elim (find_widget route.source mixers) [
      | none ↦ cs
      | some m ↦ set_instance cs m.scontrol inst
    ]
  ]
  | some inst ↦ elim (find_module route.sink modules) [
    | some other ↦ cs
    | none ↦ elim route.control [
      | none ↦ cs
      | some name ↦ elim (find_widget route.sink mixers) [
        | none ↦ cs
        | some m ↦ set_kcontrols name inst cs m.kcontrols
      ]
    ]
  ]
]
