-- ===== src/Topology/Tables/Examples.antt =====
-- A widget of one module that is loaded and unloaded (source-reference/kernel/qdsp6/topology.c).
use audioreach_usb_offload_r.Topology.Links.{IsModule, parse_common_tokens-IsModule}
use audioreach_usb_offload_r.Topology.{Token, initial, ar_max_mod_links}
use audioreach_usb_offload_r.Prelude.{
  All, ◌⊎◌, ◌+◌, ◌*◌, ◌≤◌, length, Sat, ℕ, ◌≡◌, false, refl, true, Option, none, some, List, [],
  ◌∷◌, ◌==◌, if◌then◌else◌, arith,
}
use audioreach_usb_offload_r.Topology.{
  module_id, instance_id, max_op_ports, allocated, token_read, tokens_read, parse_common_tokens,
}
use audioreach_usb_offload_r.Topology.Tables.{
  SubGraphEntry, ContainerEntry, ModuleEntry, Tables, AllocEnv, alloc_graph_info, alloc_sub_graph,
  alloc_container, alloc_module, add_sub_graph, empty_container, empty_sub_graph, empty_graph,
  graph_with,
}
use audioreach_usb_offload_r.Topology.Tables.Arrays.{
  Elem, sub_graph_instance_id, dai_index, sub_graph_direction, container_instance_id,
  container_stack_size, common, VendorArray, Private, is_container_instance, has_token, read_elems,
  get_array, first_with, get_array-first,
}
use audioreach_usb_offload_r.Topology.Tables.Parse.{
  LoadEnv, sub_graph_field, sg_end, cont_end, container_field, finish_module, load_module,
}
use audioreach_usb_offload_r.Topology.Tables.Data.{
  no_data, get_priv_data, load_module_common, unload_module, HasData,
}
use audioreach_usb_offload_r.Topology.Tables.Kept.{no_tables-IsTables}
use audioreach_usb_offload_r.Topology.Tables.Loads.{IsWidget}
use audioreach_usb_offload_r.Topology.Tables.Faults.{Leaves, unload_module-dangling}
use audioreach_usb_offload_r.Topology.Tables.Runs.{
  Component, WidgetCall, load, widget_step, widget_run, IsComponent, no_component,
}
use audioreach_usb_offload_r.Topology.{GraphInfo}
use audioreach_usb_offload_r.Packet.{
  sub_graph_data_size, container_obj_size, mod_prop_obj_size, module_conn_obj_size, counts, sizes,
  populate_graph,
}
use audioreach_usb_offload_r.Packet.Fits.{Section}
use audioreach_usb_offload_r.Packet.Graphs.{graph_view}
use audioreach_usb_offload_r.Packet.Runs.{widget_run-fits}

abbrev sg_elems : List Elem
sg_elems = sub_graph_instance_id 1 ∷ dai_index 5 ∷ sub_graph_direction 1 ∷ []

abbrev cont_elems : List Elem
cont_elems = container_instance_id 16384 ∷ container_stack_size 8192 ∷ []

abbrev mod_elems : List Elem
mod_elems = common (module_id 117469241) ∷ common (instance_id 24577) ∷ common (max_op_ports 1) ∷ []

abbrev array_of : List Elem → ℕ → VendorArray
array_of es n = record { size = 100; is_module_cfg = false; num_elems = n; value = es }

abbrev private : Private
private = record {
  size = 300;
  array_at = λ sz.
      if sz == 0
      then array_of sg_elems 3
      else if sz == 100
      then array_of cont_elems 2
      else array_of mod_elems 3;
}

get_array-first_example :
    get_array is_container_instance 301 private 0
    ≡ first_with is_container_instance
        (array_of sg_elems 3 ∷ array_of cont_elems 2 ∷ array_of mod_elems 3 ∷ [])
get_array-first_example =
    get_array-first is_container_instance private
      (array_of sg_elems 3 ∷ array_of cont_elems 2 ∷ array_of mod_elems 3 ∷ [])
      (
        refl,
        omega arith,
        omega arith,
        omega arith,
        omega arith,
        (
          refl,
          omega arith,
          omega arith,
          omega arith,
          omega arith,
          (refl, omega arith, omega arith, omega arith, omega arith, refl),
        ),
      )

abbrev plenty : ℕ → AllocEnv
plenty i = record { memory = true; idr = 0; cyclic = 0x7000 }

abbrev env : LoadEnv
env = record {
  sub_graph = plenty;
  graph = plenty;
  container = plenty;
  module_at = plenty;
  data_memory = true;
}

private-IsWidget : IsWidget private
unfolding get_array has_token read_elems tokens_read token_read
private-IsWidget = record {
  sg_elems = sg_elems;
  sg_reads = refl;
  sg_tokens = refl;
  cont_elems = cont_elems;
  cont_reads = refl;
  cont_tokens = tt;
  mod_elems = mod_elems;
  mod_reads = refl;
  mod_instances = (refl, tt);
  mod_ports = omega arith;
}

private-HasData : HasData env private
private-HasData = record {
  arrays = array_of sg_elems 3 ∷ array_of cont_elems 2 ∷ array_of mod_elems 3 ∷ [];
  in_steps = (refl, omega arith, (refl, omega arith, (refl, omega arith, omega arith)));
  memory = refl;
}

no_component-IsComponent : IsComponent no_component
no_component-IsComponent = record {
  tables = no_tables-IsTables;
  linked = λ s. tt;
  held = λ w k e. absurd (cc);
  freeable = λ w k e. absurd (cc);
  apart = λ v w k e f. absurd (cc);
}

abbrev pointed_to : Option Component → ℕ → Option ℕ
pointed_to none w = none
pointed_to (some s) w = s.module_of w

abbrev after : Option Component → Component
after none = no_component
after (some s) = s

abbrev widgets : List WidgetCall
widgets = load 0 env private ∷ []

ran : widget_run no_component widgets ≡ some (after (widget_run no_component widgets))
unfolding widget_run widget_step load_module_common load_module get_priv_data alloc_graph_info
    alloc_sub_graph alloc_container alloc_module add_sub_graph finish_module get_array has_token
    read_elems sub_graph_field sg_end container_field cont_end parse_common_tokens
ran = refl

graph_made :
    (after (widget_run no_component widgets)).tables.graphs 5 ≡ some (graph_with empty_graph 1)
unfolding widget_run widget_step load_module_common load_module get_priv_data alloc_graph_info
    alloc_sub_graph alloc_container alloc_module add_sub_graph finish_module get_array has_token
    read_elems sub_graph_field sg_end container_field cont_end parse_common_tokens
graph_made = refl

widget_run-fits_example :
    (info : GraphInfo) × (graph_view (after (widget_run no_component widgets)).tables 5 ≡ some info)
    × (length info.sg_list ≡ 1)
    × (((counts info).num_containers ≡ 0)
        ⊎ Sat (populate_graph info) (λ o.
          Section (sizes info).sg_sz sub_graph_data_size (counts info).num_sub_graphs o.sg_cfg
          × Section (sizes info).cont_sz container_obj_size (counts info).num_containers o.cont_obj
          × (length o.mod_list_obj ≡ (counts info).num_containers)
          × All (λ (e : ℕ × List ℕ). e.0 + 4 * length e.1 ≤ (sizes info).ml_sz) o.mod_list_obj
          × Section (sizes info).mp_sz mod_prop_obj_size (counts info).num_modules o.mod_prop_obj
          × Section
              (sizes info).mc_sz
              module_conn_obj_size
              (counts info).num_connections
              o.conn_obj))
widget_run-fits_example =
    widget_run-fits no_component (after (widget_run no_component widgets)) widgets 5
      {g = graph_with empty_graph 1} no_component-IsComponent
      ((refl, private-IsWidget, private-HasData, λ i. refl), λ u e. tt) ran graph_made

-- A container with the module at `k` for instance `i`, in a sub-graph of graph 5.
abbrev container : ℕ → ContainerEntry
container k = record (empty_container 1) { num_modules = 1; modules_list = k ∷ [] }

abbrev module_entry : ℕ → ModuleEntry
module_entry i = record { container = 16384; body = allocated i }

abbrev sub_graph : SubGraphEntry
sub_graph = record empty_sub_graph {
  info = some 5;
  num_containers = 1;
  container_list = 16384 ∷ [];
}

abbrev one_module : ℕ → ℕ → Tables
one_module k i = record {
  graphs = λ j. if j == 5 then some (graph_with empty_graph 1) else none;
  sub_graphs = λ j. if j == 1 then some sub_graph else none;
  containers = λ j. if j == 16384 then some (container k) else none;
  modules = λ j. if j == k then some (module_entry i) else none;
  modules_idr = λ j. j == k;
}

unload_module-dangling_example :
    Leaves
      (unload_module no_data (some 0x7000) (one_module 0x7000 0))
      (λ u. (u.modules 0x7000 ≡ none) × (u.modules_idr 0x7000 ≡ true))
unload_module-dangling_example =
    unload_module-dangling (one_module 0x7000 0) no_data 0x7000 5 {y = module_entry 0}
      {x = container 0x7000} {s = sub_graph} {z = graph_with empty_graph 1} refl refl refl refl refl
      refl refl refl

abbrev one_port : List Token
one_port = module_id 117469241 ∷ instance_id 24577 ∷ max_op_ports 1 ∷ []

ports_bounded : (tokens_read initial one_port).max_op_port ≤ ar_max_mod_links
unfolding tokens_read token_read
ports_bounded = omega arith

parse_common_tokens-IsModule_example : Sat (parse_common_tokens 24577 one_port) IsModule
parse_common_tokens-IsModule_example = parse_common_tokens-IsModule 24577 one_port ports_bounded
