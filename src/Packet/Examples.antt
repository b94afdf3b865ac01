-- ===== src/Packet/Examples.antt =====
-- A graph with one container of two modules, the first of which is one_graph to the second
-- (upstream-src/sound/soc/qcom/qdsp6/audioreach.c).
use audioreach_usb_offload_r.Prelude.{
  Sat, All, ℕ, ◌+◌, ◌*◌, ◌≤◌, ◌<◌, ◌≡◌, refl, List, [], ◌∷◌, length, arith,
}
use audioreach_usb_offload_r.Topology.{Module, SubGraph, GraphInfo}
use audioreach_usb_offload_r.Packet.{
  sub_graph_data_size, container_obj_size, mod_prop_obj_size, module_conn_obj_size, counts,
  count_sub_graphs, count_containers, count_modules, sizes, populate_graph,
}
use audioreach_usb_offload_r.Packet.Written.{IsSubGraph}
use audioreach_usb_offload_r.Packet.Fits.{Section, populate_graph-fits}

abbrev module_of : ℕ → ℕ → ℕ → Module
module_of inst links dst = record {
  module_id = 117469241;
  instance_id = inst;
  max_ip_port = 1;
  max_op_port = links;
  num_connections = links;
  src_mod_inst_id = 0;
  src_mod_op_port_id = 1 ∷ 0 ∷ 0 ∷ 0 ∷ 0 ∷ 0 ∷ 0 ∷ 0 ∷ [];
  dst_mod_inst_id = dst ∷ 0 ∷ 0 ∷ 0 ∷ 0 ∷ 0 ∷ 0 ∷ 0 ∷ [];
  dst_mod_ip_port_id = 2 ∷ 0 ∷ 0 ∷ 0 ∷ 0 ∷ 0 ∷ 0 ∷ 0 ∷ [];
}

abbrev sub_graph : SubGraph
sub_graph = record {
  sub_graph_id = 1;
  perf_mode = 1;
  direction = 1;
  scenario_id = 1;
  container_list =
      record {
        container_id = 16384;
        capability_id = 1;
        graph_pos = 1;
        stack_size = 8192;
        proc_domain = 3;
        num_modules = 2;
        modules_list = module_of 24577 1 24578 ∷ module_of 24578 0 0 ∷ [];
      }
      ∷ [];
}

abbrev info : GraphInfo
info = record {
  src_mod_inst_id = 24579;
  src_mod_op_port_id = 1;
  dst_mod_inst_id = 24577;
  dst_mod_ip_port_id = 2;
  sg_list = sub_graph ∷ [];
}

info-IsSubGraph : All IsSubGraph info.sg_list
info-IsSubGraph = (
  (
    (refl, ((refl, refl, refl, omega arith, refl), ((refl, refl, refl, omega arith, refl), tt))),
    tt,
  ),
  tt,
)

some_container : 0 < (counts info).num_containers
unfolding counts count_sub_graphs count_containers count_modules
some_container = omega arith

populate_graph-fits_example : Sat (populate_graph info) (λ o.
    Section (sizes info).sg_sz sub_graph_data_size (counts info).num_sub_graphs o.sg_cfg
    × Section (sizes info).cont_sz container_obj_size (counts info).num_containers o.cont_obj
    × (length o.mod_list_obj ≡ (counts info).num_containers)
    × All (λ (e : ℕ × List ℕ). e.0 + 4 * length e.1 ≤ (sizes info).ml_sz) o.mod_list_obj
    × Section (sizes info).mp_sz mod_prop_obj_size (counts info).num_modules o.mod_prop_obj
    × Section (sizes info).mc_sz module_conn_obj_size (counts info).num_connections o.conn_obj)
populate_graph-fits_example = populate_graph-fits info info-IsSubGraph some_container
