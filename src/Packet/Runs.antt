-- ===== src/Packet/Runs.antt =====
-- The packet that opens a graph (upstream-src/sound/soc/qcom/qdsp6/audioreach.c), for the graphs that
-- the widgets of source-reference/kernel/qdsp6/topology.c have made.
use audioreach_usb_offload_r.Prelude.{
  Sat, Sat-some, All, ℕ, ◌+◌, ◌*◌, ◌≤◌, ◌≡◌, ◌⊎◌, inl, inr, some, List, length,
}
use native.Mathlib.Nat.{eq-zero-or-pos}
use audioreach_usb_offload_r.Topology.{GraphInfo}
use audioreach_usb_offload_r.Topology.Tables.{GraphEntry}
use audioreach_usb_offload_r.Topology.Tables.Runs.{
  Component, WidgetCall, widget_run, IsComponent, AreAllowed, widget_run-IsComponent,
}
use audioreach_usb_offload_r.Packet.{
  sub_graph_data_size, container_obj_size, mod_prop_obj_size, module_conn_obj_size, counts, sizes,
  populate_graph,
}
use audioreach_usb_offload_r.Packet.Fits.{Section, populate_graph-fits}
use audioreach_usb_offload_r.Packet.Graphs.{graph_view, graph_view-IsSubGraph}

-- However widgets have been loaded and unloaded, from consistent tables, if each load was of a new
-- widget that has what it needs and whose arrays are none of size 0, graphs and the private data of
-- modules could be allocated, and each unload was of a widget that had a module: the lists of each
-- graph of the tables lead to no object that is freed, and to as many sub-graphs as it counts; and if
-- there is a container in them, the second pass over the packet that opens the graph faults nowhere
-- and writes as many entries as the first has counted, all of them within their sections.
pub widget_run-fits :
    (s u : Component) (cs : List WidgetCall) (i : ℕ) {g : GraphEntry}
    → IsComponent s
    → AreAllowed s cs
    → widget_run s cs ≡ some u
    → u.tables.graphs i ≡ some g
    → (info : GraphInfo) × (graph_view u.tables i ≡ some info)
      × (length info.sg_list ≡ g.num_sub_graphs)
      × (((counts info).num_containers ≡ 0)
          ⊎ Sat (populate_graph info) (λ o.
            Section (sizes info).sg_sz sub_graph_data_size (counts info).num_sub_graphs o.sg_cfg
            × Section
                (sizes info).cont_sz
                container_obj_size
                (counts info).num_containers
                o.cont_obj
            × (length o.mod_list_obj ≡ (counts info).num_containers)
            × All (λ (e : ℕ × List ℕ). e.0 + 4 * length e.1 ≤ (sizes info).ml_sz) o.mod_list_obj
            × Section (sizes info).mp_sz mod_prop_obj_size (counts info).num_modules o.mod_prop_obj
            × Section
                (sizes info).mc_sz
                module_conn_obj_size
                (counts info).num_connections
                o.conn_obj))
widget_run-fits s u cs i {g} h all run at_g =
    let is : IsComponent u = rw run at (widget_run-IsComponent s cs h all) in
    let (info, view, (good, len)) =
      Sat-some (graph_view u.tables i) (graph_view-IsSubGraph u.tables is.tables i at_g) in
    (
      info,
      view,
      len,
      elim (eq-zero-or-pos (counts info).num_containers) [
        | inl e ↦ inl e
        | inr pos ↦ inr (populate_graph-fits info good pos)
      ],
    )
