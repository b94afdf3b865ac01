-- ===== src/Packet/Fits.antt =====
-- The second pass over a graph stays within the sizes of the first
-- (upstream-src/sound/soc/qcom/qdsp6/audioreach.c).
use audioreach_usb_offload_r.Prelude.{
  Sat, Sat-map, and_then-Sat, All, ℕ, ◌+◌, ◌*◌, ◌≤◌, ◌<◌, ◌≡◌, refl, Bool, true, false, List, [],
  ◌∷◌, ◌++◌, length, arith,
}
use audioreach_usb_offload_r.Topology.{SubGraph, GraphInfo}
use audioreach_usb_offload_r.Packet.{
  align8, section_header_size, sub_graph_data_size, container_obj_size, mod_prop_obj_size,
  module_conn_obj_size, section_size, Counts, count_containers, count_sub_graphs, counts,
  is_connected, sizes, Open, sub_graph_config, populate_containers, populate_sub_graphs, no_entries,
  first_entries, first_counts, populate_graph,
}
use audioreach_usb_offload_r.Packet.Written.{
  IsSubGraph, Entries, Entries-snoc, All-map, Written, connected-Written,
}
use audioreach_usb_offload_r.Packet.Written.Containers.{populate_containers-Written}

populate_sub_graphs-Written :
    (c : Counts) (o : Open) (sgs : List SubGraph)
    → All IsSubGraph sgs
    → Written c c.num_modules 0 o
    → Sat
        (populate_sub_graphs o sgs)
        (Written (count_sub_graphs c sgs) (count_sub_graphs c sgs).num_modules 0)
unfolding populate_sub_graphs count_sub_graphs
populate_sub_graphs-Written c o [] is h = h
populate_sub_graphs-Written c o (sg ∷ sgs) (isg, isgs) h =
    let b : Counts = record c { num_sub_graphs = c.num_sub_graphs + 1 } in
    let p : Open = record o { sg_cfg = o.sg_cfg ++ (sub_graph_config sg ∷ []) } in
    let first : Written b b.num_modules 0 p = record {
      sgs =
          Entries-snoc sub_graph_data_size c.num_sub_graphs o.sg_cfg (sub_graph_config sg) h.sgs
            (omega arith);
      conts = h.conts;
      props = h.props;
      conns = h.conns;
      offset = h.offset;
      lists = h.lists;
      within = h.within;
    } in
    let d = count_containers b sg.container_list in
    and_then-Sat (populate_containers p sg.sub_graph_id sg.container_list)
      (λ q. populate_sub_graphs q sgs) (Written d d.num_modules 0) _
      (populate_containers-Written b p sg.sub_graph_id sg.container_list isg first)
      (λ q w. populate_sub_graphs-Written d q sgs isgs w)

-- A section of `size` bytes holds n entries of `entry` bytes, and nothing is written behind it.
abbrev pub Section : ℕ → ℕ → ℕ → List (List ℕ) → Type 0
Section size entry n l = Entries entry n l × (section_header_size + entry * n ≤ size)

align8_ge : (n : ℕ) → n ≤ align8 n
align8_ge n = omega arith

empty-Written : Written (first_counts false) 0 0 no_entries
empty-Written = record {
  sgs = (refl, tt);
  conts = (refl, tt);
  props = (refl, tt);
  conns = (refl, tt);
  offset = omega arith;
  lists = refl;
  within = tt;
}

first-Written : (info : GraphInfo) (b : Bool) → Written (first_counts b) 0 0 (first_entries info b)
first-Written info false = empty-Written
first-Written info true =
    connected-Written (first_counts false) 0 0 no_entries info.src_mod_inst_id
      info.src_mod_op_port_id info.dst_mod_inst_id info.dst_mod_ip_port_id empty-Written

-- Where the counts that the topology keeps are those of its lists and of its links, and there is a
-- container: the second pass faults nowhere, writes into each section as many entries as the first
-- pass has counted, each of its size, and all of them, with the objects of the module list at their
-- offsets, lie within the size of the section.
pub populate_graph-fits :
    (info : GraphInfo)
    → All IsSubGraph info.sg_list
    → 0 < (counts info).num_containers
    → Sat (populate_graph info) (λ o.
      Section (sizes info).sg_sz sub_graph_data_size (counts info).num_sub_graphs o.sg_cfg
      × Section (sizes info).cont_sz container_obj_size (counts info).num_containers o.cont_obj
      × (length o.mod_list_obj ≡ (counts info).num_containers)
      × All (λ (e : ℕ × List ℕ). e.0 + 4 * length e.1 ≤ (sizes info).ml_sz) o.mod_list_obj
      × Section (sizes info).mp_sz mod_prop_obj_size (counts info).num_modules o.mod_prop_obj
      × Section (sizes info).mc_sz module_conn_obj_size (counts info).num_connections o.conn_obj)
unfolding populate_graph counts sizes
populate_graph-fits info is some_container =
    let b = is_connected info in
    Sat-map (populate_sub_graphs (first_entries info b) info.sg_list)
      (λ o w. placed (count_sub_graphs (first_counts b) info.sg_list) o w some_container)
      (populate_sub_graphs-Written (first_counts b) (first_entries info b) info.sg_list is
        (first-Written info b))
  where
    placed :
        (c : Counts) (o : Open)
        → Written c c.num_modules 0 o
        → 0 < c.num_containers
        → Section
            (section_size sub_graph_data_size c.num_sub_graphs)
            sub_graph_data_size
            c.num_sub_graphs
            o.sg_cfg
          × Section
              (section_size container_obj_size c.num_containers)
              container_obj_size
              c.num_containers
              o.cont_obj
          × (length o.mod_list_obj ≡ c.num_containers)
          × All (λ (e : ℕ × List ℕ). e.0 + 4 * length e.1 ≤ align8 c.ml_sz) o.mod_list_obj
          × Section
              (section_size mod_prop_obj_size c.num_modules)
              mod_prop_obj_size
              c.num_modules
              o.mod_prop_obj
          × Section
              (section_size module_conn_obj_size c.num_connections)
              module_conn_obj_size
              c.num_connections
              o.conn_obj
    placed c o w pos =
        let off = w.offset in
        let room = align8_ge c.ml_sz in
        (
          (w.sgs, align8_ge _),
          (w.conts, align8_ge _),
          w.lists,
          All-map _ _ o.mod_list_obj (λ e b. omega (arith, b, off, room, pos)) w.within,
          (w.props, align8_ge _),
          (w.conns, align8_ge _),
        )
