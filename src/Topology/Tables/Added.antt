-- ===== src/Topology/Tables/Added.antt =====
-- What is added to the tables of source-reference/kernel/qdsp6/topology.c leaves them consistent.
use audioreach_usb_offload_r.Prelude.{
  ℕ, ◌+◌, ◌≡◌, refl, sym, subst, ap, ◌∙◌, inl, inr, none, some, [], ◌∷◌, ◌++◌, ◌==◌, Bool-cases,
  ==_iff,
}
use audioreach_usb_offload_r.Topology.{Module}
use audioreach_usb_offload_r.Topology.Links.{IsModule}
use audioreach_usb_offload_r.Topology.Tables.{
  GraphEntry, SubGraphEntry, ContainerEntry, ModuleEntry, Tables, empty_graph, empty_container,
  set_graph_info, set_sub_graph, set_container, set_module, with_module, graph_with, linked_tables,
  sub_graph_with, with_container, container_with,
}
use audioreach_usb_offload_r.Topology.Tables.Levels.{IsLevel-ext, IsLevel-insert}
use audioreach_usb_offload_r.Topology.Tables.Kept.{
  container_of, modules_in, num_modules_in, sub_graph_of, containers_in, num_containers_in,
  graph_of, sub_graphs_in, num_sub_graphs_in, IsNamed, IsTables, at_update, kept_update,
}

module _ (t : Tables) (h : IsTables t) where
  pub add_graph-IsTables :
      (i : ℕ) → t.graphs i ≡ none → IsTables (set_graph_info t i (some empty_graph))
  add_graph-IsTables i fresh = record {
    modules_level = h.modules_level;
    containers_level = h.containers_level;
    sub_graphs_level =
        IsLevel-ext (λ j. refl)
          (kept_update sub_graphs_in t.graphs i (some empty_graph) (sym (ap sub_graphs_in fresh)))
          (kept_update num_sub_graphs_in t.graphs i (some empty_graph)
            (sym (ap num_sub_graphs_in fresh)))
          h.sub_graphs_level;
    named = h.named;
  }

  -- A change of a sub-graph that leaves its place in the tables.
  pub set_sub_graph-IsTables :
      (i : ℕ) (s : SubGraphEntry)
      → graph_of (some s) ≡ graph_of (t.sub_graphs i)
      → containers_in (some s) ≡ containers_in (t.sub_graphs i)
      → num_containers_in (some s) ≡ num_containers_in (t.sub_graphs i)
      → IsTables (set_sub_graph t i (some s))
  set_sub_graph-IsTables i s a b c = record {
    modules_level = h.modules_level;
    containers_level =
        IsLevel-ext (λ j. refl) (kept_update containers_in t.sub_graphs i (some s) b)
          (kept_update num_containers_in t.sub_graphs i (some s) c) h.containers_level;
    sub_graphs_level =
        IsLevel-ext (kept_update graph_of t.sub_graphs i (some s) a) (λ j. refl) (λ j. refl)
          h.sub_graphs_level;
    named = h.named;
  }

  pub set_container-IsTables :
      (i : ℕ) (x : ContainerEntry)
      → sub_graph_of (some x) ≡ sub_graph_of (t.containers i)
      → modules_in (some x) ≡ modules_in (t.containers i)
      → num_modules_in (some x) ≡ num_modules_in (t.containers i)
      → IsTables (set_container t i (some x))
  set_container-IsTables i x a b c = record {
    modules_level =
        IsLevel-ext (λ j. refl) (kept_update modules_in t.containers i (some x) b)
          (kept_update num_modules_in t.containers i (some x) c) h.modules_level;
    containers_level =
        IsLevel-ext (kept_update sub_graph_of t.containers i (some x) a) (λ j. refl) (λ j. refl)
          h.containers_level;
    sub_graphs_level = h.sub_graphs_level;
    named = h.named;
  }

  -- A sub-graph without a graph that comes into the list of a graph.
  pub link_sub_graph-IsTables :
      (i k : ℕ) {g : GraphEntry} {s : SubGraphEntry}
      → t.graphs i ≡ some g
      → t.sub_graphs k ≡ some s
      → s.info ≡ none
      → IsTables (linked_tables t i k g s)
  link_sub_graph-IsTables i k {g} {s} at_g at_s unlinked =
      let g' : GraphEntry = graph_with g k in
      let s' : SubGraphEntry = record s { info = some i } in
      record {
        modules_level = h.modules_level;
        containers_level =
            IsLevel-ext (λ j. refl)
              (kept_update containers_in t.sub_graphs k (some s') (sym (ap containers_in at_s)))
              (kept_update num_containers_in t.sub_graphs k (some s')
                (sym (ap num_containers_in at_s)))
              h.containers_level;
        sub_graphs_level =
            IsLevel-insert k i (ap graph_of at_s ∙ unlinked)
              (λ j. at_update graph_of t.sub_graphs k (some s') j refl)
              (λ j.
                at_update sub_graphs_in t.graphs i (some g') j
                  (ap (λ x. sub_graphs_in x ++ k ∷ []) (sym at_g)))
              (λ j.
                at_update num_sub_graphs_in t.graphs i (some g') j
                  (ap (λ x. num_sub_graphs_in x + 1) (sym at_g)))
              h.sub_graphs_level;
        named = h.named;
      }

  -- A new container in the list of a sub-graph.
  pub add_container-IsTables :
      (k i : ℕ) {s : SubGraphEntry}
      → t.containers i ≡ none
      → t.sub_graphs k ≡ some s
      → IsTables (with_container t i k s)
  add_container-IsTables k i {s} fresh at_s =
      let s' : SubGraphEntry = sub_graph_with s i in
      let x : ContainerEntry = empty_container k in
      record {
        modules_level =
            IsLevel-ext (λ j. refl)
              (kept_update modules_in t.containers i (some x) (sym (ap modules_in fresh)))
              (kept_update num_modules_in t.containers i (some x) (sym (ap num_modules_in fresh)))
              h.modules_level;
        containers_level =
            IsLevel-insert i k (ap sub_graph_of fresh)
              (λ j. at_update sub_graph_of t.containers i (some x) j refl)
              (λ j.
                at_update containers_in t.sub_graphs k (some s') j
                  (ap (λ y. containers_in y ++ i ∷ []) (sym at_s)))
              (λ j.
                at_update num_containers_in t.sub_graphs k (some s') j
                  (ap (λ y. num_containers_in y + 1) (sym at_s)))
              h.containers_level;
        sub_graphs_level =
            IsLevel-ext (kept_update graph_of t.sub_graphs k (some s') (sym (ap graph_of at_s)))
              (λ j. refl) (λ j. refl) h.sub_graphs_level;
        named = h.named;
      }

  -- A new module in the list of a container, with the instance of its index.
  pub add_module-IsTables :
      (c k : ℕ) {x : ContainerEntry} (m : Module)
      → t.modules k ≡ none
      → t.containers c ≡ some x
      → m.instance_id ≡ k
      → IsModule m
      → IsTables (with_module t c k x m)
  add_module-IsTables c k {x} m fresh at_c inst is =
      let x' : ContainerEntry = container_with x k in
      let y : ModuleEntry = record { container = c; body = m } in
      record {
        modules_level =
            IsLevel-insert k c (ap container_of fresh)
              (λ j. at_update container_of t.modules k (some y) j refl)
              (λ j.
                at_update modules_in t.containers c (some x') j
                  (ap (λ z. modules_in z ++ k ∷ []) (sym at_c)))
              (λ j.
                at_update num_modules_in t.containers c (some x') j
                  (ap (λ z. num_modules_in z + 1) (sym at_c)))
              h.modules_level;
        containers_level =
            IsLevel-ext
              (kept_update sub_graph_of t.containers c (some x') (sym (ap sub_graph_of at_c)))
              (λ j. refl) (λ j. refl) h.containers_level;
        sub_graphs_level = h.sub_graphs_level;
        named = λ j. elim (Bool-cases (k == j)) [
          | inl e ↦ rw e (refl, inst ∙ (==_iff k j).0 e, is)
          | inr e ↦ rw e (h.named j)
        ];
      }

  -- The body of a module that is there.
  pub set_body-IsTables :
      (k : ℕ) {y : ModuleEntry} (m : Module)
      → t.modules k ≡ some y
      → m.instance_id ≡ k
      → IsModule m
      → IsTables (set_module t k (some (record y { body = m })))
  set_body-IsTables k {y} m at_k inst is = record {
    modules_level =
        IsLevel-ext
          (kept_update container_of t.modules k (some (record y { body = m }))
            (sym (ap container_of at_k)))
          (λ j. refl) (λ j. refl) h.modules_level;
    containers_level = h.containers_level;
    sub_graphs_level = h.sub_graphs_level;
    named = λ j. elim (Bool-cases (k == j)) [
      | inl e ↦
          let there : IsNamed k (t.modules_idr k) (some y) =
            subst (IsNamed k (t.modules_idr k)) at_k (h.named k) in
          rw e (ap t.modules_idr (sym ((==_iff k j).0 e)) ∙ there.0, inst ∙ (==_iff k j).0 e, is)
      | inr e ↦ rw e (h.named j)
    ];
  }
