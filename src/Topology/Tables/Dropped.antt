-- ===== src/Topology/Tables/Dropped.antt =====
-- What is removed from the tables of source-reference/kernel/qdsp6/topology.c leaves them consistent.
use audioreach_usb_offload_r.Prelude.{
  ℕ, ◌-◌, ◌≡◌, refl, sym, subst, ap, ◌∙◌, inl, inr, Option, none, some, List, [], ◌∷◌, length, ◌==◌,
  arith, Bool-cases,
}
use audioreach_usb_offload_r.Topology.Tables.{
  GraphEntry, SubGraphEntry, ContainerEntry, ModuleEntry, Tables, set_graph_info,
}
use audioreach_usb_offload_r.Topology.Tables.Levels.{
  del_node, occurs, IsLevel, IsLevel-ext, IsLevel-member, IsLevel-remove,
}
use audioreach_usb_offload_r.Topology.Tables.Unload.{
  dec, without_module, without_container, without_sub_graph,
}
use audioreach_usb_offload_r.Topology.Tables.Kept.{
  container_of, modules_in, num_modules_in, sub_graph_of, containers_in, num_containers_in,
  graph_of, sub_graphs_in, num_sub_graphs_in, IsNamed, IsTables, at_update, kept_update,
}

-- The number of a list that is not empty does not wrap.
dec_lem : (k n : ℕ) (l : List ℕ) → occurs k l ≡ 1 → n ≡ length l → dec n ≡ n - 1
dec_lem k n [] e len = absurd (omega (arith, e))
dec_lem k n (x ∷ xs) e len = ground (arith, len)

-- The number of a parent after one of its children is gone.
IsLevel-dec :
    {f : ℕ → Option ℕ} {k : ℕ → List ℕ} {m : ℕ → ℕ} (c p : ℕ)
    → IsLevel f k m
    → f c ≡ some p
    → dec (m p) ≡ m p - 1
IsLevel-dec {k} {m} c p v e = dec_lem c (m p) (k p) (IsLevel-member c p v e) (v.counted p)

module _ (t : Tables) (h : IsTables t) where
  pub without_module-IsTables :
      (k : ℕ) {y : ModuleEntry} {x : ContainerEntry}
      → t.modules k ≡ some y
      → t.containers y.container ≡ some x
      → IsTables (without_module t k y x)
  without_module-IsTables k {y} {x} at_k at_c =
      let c = y.container in
      let there = subst (IsNamed k (t.modules_idr k)) at_k (h.named k) in
      let fewer = IsLevel-dec k c h.modules_level (ap container_of at_k) in
      let x' : ContainerEntry = record x {
        num_modules = dec x.num_modules;
        modules_list = del_node k x.modules_list;
      } in
      record {
        modules_level =
            IsLevel-remove k c (ap container_of at_k)
              (λ j. at_update container_of t.modules k none j refl)
              (λ j.
                at_update modules_in t.containers c (some x') j
                  (ap (λ z. del_node k (modules_in z)) (sym at_c)))
              (λ j.
                at_update num_modules_in t.containers c (some x') j
                  (ap (λ z. dec (num_modules_in z)) (sym at_c) ∙ fewer))
              h.modules_level;
        containers_level =
            IsLevel-ext
              (kept_update sub_graph_of t.containers c (some x') (sym (ap sub_graph_of at_c)))
              (λ j. refl) (λ j. refl) h.containers_level;
        sub_graphs_level = h.sub_graphs_level;
        named = λ j. elim (Bool-cases (k == j)) [
          | inl e ↦ rw (there.1, e) refl
          | inr e ↦ rw (there.1, e) (h.named j)
        ];
      }

  pub without_container-IsTables :
      (c : ℕ) {x : ContainerEntry} {s : SubGraphEntry}
      → t.containers c ≡ some x
      → t.sub_graphs x.sub_graph ≡ some s
      → x.modules_list ≡ []
      → IsTables (without_container t c x.sub_graph s)
  without_container-IsTables c {x} {s} at_c at_s empty =
      let sg = x.sub_graph in
      let fewer = IsLevel-dec c sg h.containers_level (ap sub_graph_of at_c) in
      let s' : SubGraphEntry = record s {
        num_containers = dec s.num_containers;
        container_list = del_node c s.container_list;
      } in
      let no_modules = ap modules_in at_c ∙ empty in
      record {
        modules_level =
            IsLevel-ext (λ j. refl) (kept_update modules_in t.containers c none (sym no_modules))
              (kept_update num_modules_in t.containers c none
                (sym (h.modules_level.counted c ∙ ap length no_modules)))
              h.modules_level;
        containers_level =
            IsLevel-remove c sg (ap sub_graph_of at_c)
              (λ j. at_update sub_graph_of t.containers c none j refl)
              (λ j.
                at_update containers_in t.sub_graphs sg (some s') j
                  (ap (λ z. del_node c (containers_in z)) (sym at_s)))
              (λ j.
                at_update num_containers_in t.sub_graphs sg (some s') j
                  (ap (λ z. dec (num_containers_in z)) (sym at_s) ∙ fewer))
              h.containers_level;
        sub_graphs_level =
            IsLevel-ext (kept_update graph_of t.sub_graphs sg (some s') (sym (ap graph_of at_s)))
              (λ j. refl) (λ j. refl) h.sub_graphs_level;
        named = h.named;
      }

  pub without_sub_graph-IsTables :
      (sg g : ℕ) {s : SubGraphEntry} {x : GraphEntry}
      → t.sub_graphs sg ≡ some s
      → t.graphs g ≡ some x
      → s.info ≡ some g
      → s.container_list ≡ []
      → IsTables (without_sub_graph t sg g x)
  without_sub_graph-IsTables sg g {s} {x} at_s at_g linked empty =
      let here = ap graph_of at_s ∙ linked in
      let fewer = IsLevel-dec sg g h.sub_graphs_level here in
      let x' : GraphEntry = record x {
        num_sub_graphs = dec x.num_sub_graphs;
        sg_list = del_node sg x.sg_list;
      } in
      let no_containers = ap containers_in at_s ∙ empty in
      record {
        modules_level = h.modules_level;
        containers_level =
            IsLevel-ext (λ j. refl)
              (kept_update containers_in t.sub_graphs sg none (sym no_containers))
              (kept_update num_containers_in t.sub_graphs sg none
                (sym (h.containers_level.counted sg ∙ ap length no_containers)))
              h.containers_level;
        sub_graphs_level =
            IsLevel-remove sg g here (λ j. at_update graph_of t.sub_graphs sg none j refl)
              (λ j.
                at_update sub_graphs_in t.graphs g (some x') j
                  (ap (λ z. del_node sg (sub_graphs_in z)) (sym at_g)))
              (λ j.
                at_update num_sub_graphs_in t.graphs g (some x') j
                  (ap (λ z. dec (num_sub_graphs_in z)) (sym at_g) ∙ fewer))
              h.sub_graphs_level;
        named = h.named;
      }

  pub without_graph-IsTables :
      (g : ℕ) {x : GraphEntry}
      → t.graphs g ≡ some x
      → x.sg_list ≡ []
      → IsTables (set_graph_info t g none)
  without_graph-IsTables g {x} at_g empty =
      let no_sub_graphs = ap sub_graphs_in at_g ∙ empty in
      record {
        modules_level = h.modules_level;
        containers_level = h.containers_level;
        sub_graphs_level =
            IsLevel-ext (λ j. refl) (kept_update sub_graphs_in t.graphs g none (sym no_sub_graphs))
              (kept_update num_sub_graphs_in t.graphs g none
                (sym (h.sub_graphs_level.counted g ∙ ap length no_sub_graphs)))
              h.sub_graphs_level;
        named = h.named;
      }
