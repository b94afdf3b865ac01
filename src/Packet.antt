-- ===== src/Packet.antt =====
-- The packet that opens a graph in the DSP (upstream-src/sound/soc/qcom/qdsp6/audioreach.c): five
-- sections, whose sizes `audioreach_alloc_graph_pkt` computes from the topology in one pass, and that
-- `audioreach_populate_graph` fills in a second one. A structure of the packet is the list of its
-- 32-bit words, and a section the list of its entries in the order of their index. Sizes are in bytes;
-- the code has them in `int`, which they fit. `none` is a fault: a read outside an array.
pub mod Written
pub mod Fits
pub mod Graphs
pub mod Runs
mod Examples
use audioreach_usb_offload_r.Prelude.{
  and_then, ℕ, zero, suc, ◌+◌, ◌*◌, ◌/◌, Bool, true, false, not, ◌||◌, ◌&&◌, Option, none, some,
  List, [], ◌∷◌, ◌++◌, get_elem?, length, ◌==◌, if◌then◌else◌,
}
use audioreach_usb_offload_r.Topology.{Module, Container, SubGraph, GraphInfo}

-- ALIGN(n, 8)
abbrev pub align8 : ℕ → ℕ
align8 n = (n + 7) / 8 * 8

-- `sizeof` of the parameter header with the count that starts each section, of one entry of each, and
-- of `struct apm_mod_list_obj` with n modules.
abbrev pub section_header_size : ℕ
section_header_size = 20

abbrev pub sub_graph_data_size : ℕ
sub_graph_data_size = 44

abbrev pub container_obj_size : ℕ
container_obj_size = 60

abbrev pub mod_prop_obj_size : ℕ
mod_prop_obj_size = 24

abbrev pub module_conn_obj_size : ℕ
module_conn_obj_size = 16

abbrev pub mod_list_obj_psize : ℕ → ℕ
mod_list_obj_psize n = 12 + 8 * n

-- The counters of `audioreach_alloc_graph_pkt`.
pub record Counts : Type 0 where
  pub num_sub_graphs : ℕ
  pub num_containers : ℕ
  pub num_modules : ℕ
  pub num_connections : ℕ
  pub ml_sz : ℕ

unfoldable pub count_modules : Counts → List Module → Counts
count_modules c [] = c
count_modules c (m ∷ ms) =
    count_modules (record c { num_connections = c.num_connections + m.num_connections }) ms

unfoldable pub count_containers : Counts → List Container → Counts
unfolding count_modules
count_containers c [] = c
count_containers c (k ∷ ks) =
    count_containers
      (count_modules
        (record c {
          num_containers = c.num_containers + 1;
          num_modules = c.num_modules + k.num_modules;
          ml_sz = c.ml_sz + section_header_size + mod_list_obj_psize k.num_modules;
        })
        k.modules_list)
      ks

unfoldable pub count_sub_graphs : Counts → List SubGraph → Counts
unfolding count_containers
count_sub_graphs c [] = c
count_sub_graphs c (sg ∷ sgs) =
    count_sub_graphs
      (count_containers (record c { num_sub_graphs = c.num_sub_graphs + 1 }) sg.container_list) sgs

-- Whether the front end and the back end are connected.
abbrev pub is_connected : GraphInfo → Bool
is_connected info = not (info.dst_mod_inst_id == 0) && not (info.src_mod_inst_id == 0)

abbrev pub first_counts : Bool → Counts
first_counts b = record {
  num_sub_graphs = 0;
  num_containers = 0;
  num_modules = 0;
  num_connections = if b then 1 else 0;
  ml_sz = 0;
}

unfoldable pub counts : GraphInfo → Counts
unfolding count_sub_graphs
counts info = count_sub_graphs (first_counts (is_connected info)) info.sg_list

-- The sizes of the sections and of the payload.
pub record Sizes : Type 0 where
  pub sg_sz : ℕ
  pub cont_sz : ℕ
  pub ml_sz : ℕ
  pub mp_sz : ℕ
  pub mc_sz : ℕ
  pub payload_size : ℕ

abbrev pub section_size : ℕ → ℕ → ℕ
section_size entry n = align8 (section_header_size + entry * n)

unfoldable pub sizes : GraphInfo → Sizes
unfolding counts
sizes info =
    let c = counts info in
    let sg_sz = section_size sub_graph_data_size c.num_sub_graphs in
    let cont_sz = section_size container_obj_size c.num_containers in
    let ml_sz = align8 c.ml_sz in
    let mp_sz = section_size mod_prop_obj_size c.num_modules in
    let mc_sz = section_size module_conn_obj_size c.num_connections in
    record {
      sg_sz = sg_sz;
      cont_sz = cont_sz;
      ml_sz = ml_sz;
      mp_sz = mp_sz;
      mc_sz = mc_sz;
      payload_size = sg_sz + cont_sz + ml_sz + mp_sz + mc_sz;
    }

-- `apm_populate_sub_graph_config`: the identity, the number of properties, then each property.
abbrev pub sub_graph_config : SubGraph → List ℕ
sub_graph_config sg =
    sg.sub_graph_id ∷ 3 ∷ 0x0800100E ∷ 4 ∷ sg.perf_mode ∷ 0x0800100F ∷ 4 ∷ sg.direction ∷ 0x08001010
    ∷ 4 ∷ sg.scenario_id ∷ []

-- `apm_populate_container_config`
abbrev pub container_config : Container → List ℕ
container_config k =
    k.container_id ∷ 4 ∷ 0x08001011 ∷ 8 ∷ 1 ∷ k.capability_id ∷ 0x08001012 ∷ 4 ∷ k.graph_pos
    ∷ 0x08001013 ∷ 4 ∷ k.stack_size ∷ 0x08001014 ∷ 4 ∷ k.proc_domain ∷ []

-- `apm_populate_module_prop_obj`
abbrev pub module_prop_obj : Module → List ℕ
module_prop_obj m = m.instance_id ∷ 1 ∷ 0x08001015 ∷ 8 ∷ m.max_ip_port ∷ m.max_op_port ∷ []

abbrev pub module_objs : List Module → List ℕ
module_objs [] = []
module_objs (m ∷ ms) = m.module_id ∷ m.instance_id ∷ module_objs ms

-- `apm_populate_module_list_obj`
abbrev pub module_list_obj : Container → ℕ → List ℕ
module_list_obj k sub_graph_id =
    sub_graph_id ∷ k.container_id ∷ k.num_modules ∷ module_objs k.modules_list

-- The entries written so far. An entry of the module list has its offset in the section, and `mlobj` is
-- the offset of the next one.
pub record Open : Type 0 where
  pub sg_cfg : List (List ℕ)
  pub cont_obj : List (List ℕ)
  pub mod_list_obj : List (ℕ × List ℕ)
  pub mlobj : ℕ
  pub mod_prop_obj : List (List ℕ)
  pub conn_obj : List (List ℕ)

abbrev pub connected : Open → List ℕ → Open
connected o words = record o { conn_obj = o.conn_obj ++ (words ∷ []) }

-- Output port `pn` of a module: a connection if the port has a destination.
abbrev pub port_connected : Open → Module → ℕ → Option Open
port_connected o m pn = and_then (get_elem? m.dst_mod_inst_id pn) (λ dst.
    if dst == 0
    then some o
    else and_then (get_elem? m.src_mod_op_port_id pn) (λ src.
      and_then (get_elem? m.dst_mod_ip_port_id pn)
        (λ ip. some (connected o (m.instance_id ∷ src ∷ dst ∷ ip ∷ [])))))

unfoldable pub ports_connected : Open → Module → ℕ → ℕ → Option Open
ports_connected o m pn zero = some o
ports_connected o m pn (suc n) =
    and_then (port_connected o m pn) (λ p. ports_connected p m (pn + 1) n)

unfoldable pub populate_modules : Open → List Module → Option Open
unfolding ports_connected
populate_modules o [] = some o
populate_modules o (m ∷ ms) =
    and_then
      (ports_connected (record o { mod_prop_obj = o.mod_prop_obj ++ (module_prop_obj m ∷ []) }) m 0
        m.max_op_port)
      (λ p. populate_modules p ms)

unfoldable pub populate_containers : Open → ℕ → List Container → Option Open
unfolding populate_modules
populate_containers o sub_graph_id [] = some o
populate_containers o sub_graph_id (k ∷ ks) =
    and_then
      (populate_modules
        (record o {
          cont_obj = o.cont_obj ++ (container_config k ∷ []);
          mod_list_obj = o.mod_list_obj ++ ((o.mlobj, module_list_obj k sub_graph_id) ∷ []);
        })
        k.modules_list)
      (λ p.
        populate_containers (record p { mlobj = p.mlobj + mod_list_obj_psize k.num_modules })
          sub_graph_id ks)

unfoldable pub populate_sub_graphs : Open → List SubGraph → Option Open
unfolding populate_containers
populate_sub_graphs o [] = some o
populate_sub_graphs o (sg ∷ sgs) =
    and_then
      (populate_containers (record o { sg_cfg = o.sg_cfg ++ (sub_graph_config sg ∷ []) })
        sg.sub_graph_id sg.container_list)
      (λ p. populate_sub_graphs p sgs)

abbrev pub no_entries : Open
no_entries = record {
  sg_cfg = [];
  cont_obj = [];
  mod_list_obj = [];
  mlobj = section_header_size;
  mod_prop_obj = [];
  conn_obj = [];
}

-- The connection of the front end with the back end.
abbrev pub first_entries : GraphInfo → Bool → Open
first_entries info false = no_entries
first_entries info true = connected no_entries (
    info.src_mod_inst_id ∷ info.src_mod_op_port_id ∷ info.dst_mod_inst_id ∷ info.dst_mod_ip_port_id
    ∷ [])

-- `audioreach_populate_graph`
unfoldable pub populate_graph : GraphInfo → Option Open
unfolding populate_sub_graphs
populate_graph info = populate_sub_graphs (first_entries info (is_connected info)) info.sg_list
