-- ===== src/Topology/Tables/Unload.antt =====
-- `audioreach_widget_unload` of source-reference/kernel/qdsp6/topology.c for the widget of a module.
use audioreach_usb_offload_r.Prelude.{
  ℕ, ◌-◌, ◌^◌, Bool, true, false, Option, none, some, List, [], ◌∷◌, ◌==◌, if◌then◌else◌,
}
use audioreach_usb_offload_r.Topology.Tables.{
  GraphEntry, SubGraphEntry, ContainerEntry, ModuleEntry, Tables, TplgResult, ok, fault, update,
  set_graph_info, set_sub_graph, set_container, set_module, at_graph, at_sub_graph, at_container,
  at_module,
}
use audioreach_usb_offload_r.Topology.Tables.Levels.{del_node}

-- `n--` of a `u32`.
abbrev pub dec : ℕ → ℕ
dec n = if n == 0 then 2 ^ 32 - 1 else n - 1

abbrev pub no_nodes : List ℕ → Bool
no_nodes [] = true
no_nodes (x ∷ xs) = false

-- The module k goes out of its IDR, by its instance, and out of its container.
abbrev pub without_module : Tables → ℕ → ModuleEntry → ContainerEntry → Tables
without_module t k y x =
    record (set_container (set_module t k none) y.container (
      some
        (record x { num_modules = dec x.num_modules; modules_list = del_node k x.modules_list }))) {
          modules_idr = update t.modules_idr y.body.instance_id false;
        }

-- A container without modules goes.
abbrev pub without_container : Tables → ℕ → ℕ → SubGraphEntry → Tables
without_container t c sg s = set_sub_graph (set_container t c none) sg (
    some (record s {
      num_containers = dec s.num_containers;
      container_list = del_node c s.container_list;
    }))

-- A sub-graph without containers goes.
abbrev pub without_sub_graph : Tables → ℕ → ℕ → GraphEntry → Tables
without_sub_graph t sg g x =
    set_graph_info (set_sub_graph t sg none) g
      (some (record x { num_sub_graphs = dec x.num_sub_graphs; sg_list = del_node sg x.sg_list }))

unfoldable pub drop_graph : ℕ → Tables → TplgResult (Unit {0})
drop_graph g t =
    at_graph t g (λ x. if no_nodes x.sg_list then ok tt (set_graph_info t g none) else ok tt t)

unfoldable pub drop_sub_graph : ℕ → Tables → TplgResult (Unit {0})
drop_sub_graph sg t = at_sub_graph t sg (λ s.
    if no_nodes s.container_list
    then elim s.info [
      | none ↦ fault
      | some g ↦ at_graph t g (λ x. drop_graph g (without_sub_graph t sg g x))
    ]
    else ok tt t)

unfoldable pub drop_container : ℕ → Tables → TplgResult (Unit {0})
drop_container c t = at_container t c (λ x.
    if no_nodes x.modules_list
    then at_sub_graph t x.sub_graph
        (λ s. drop_sub_graph x.sub_graph (without_container t c x.sub_graph s))
    else ok tt t)

-- The unload of the module that the widget points to, but for the private data of the module.
unfoldable pub unlink_module : Option ℕ → Tables → TplgResult (Unit {0})
unfolding drop_graph drop_sub_graph drop_container
unlink_module none t = fault
unlink_module (some k) t =
    at_module t k
      (λ y. at_container t y.container (λ x. drop_container y.container (without_module t k y x)))
