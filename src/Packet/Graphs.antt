-- ===== src/Packet/Graphs.antt =====
-- The graph that the tables of source-reference/kernel/qdsp6/topology.c hold, as the packet that opens it
-- (upstream-src/sound/soc/qcom/qdsp6/audioreach.c) walks it: along the lists, and through pointers that
-- must not be freed.
use audioreach_usb_offload_r.Prelude.{
  Sat, and_then, and_then-Sat, All, ℕ, suc, ◌<◌, ◌≡◌, refl, sym, ap, ◌∙◌, inl, inr, Option, none,
  some, List, [], ◌∷◌, length, ◌==◌, arith, Bool-cases, Option-cases, ==_iff,
}
use audioreach_usb_offload_r.Topology.{Module, Container, SubGraph, GraphInfo}
use audioreach_usb_offload_r.Topology.Links.{IsModule}
use audioreach_usb_offload_r.Topology.Tables.{GraphEntry, ModuleEntry, Tables}
use audioreach_usb_offload_r.Topology.Tables.Levels.{occurs, is_parent, IsLevel}
use audioreach_usb_offload_r.Packet.Written.{IsContainer, IsSubGraph}
use audioreach_usb_offload_r.Topology.Tables.Kept.{
  IsNamed, IsTables, container_of, modules_in, sub_graph_of, containers_in, graph_of, sub_graphs_in,
  num_modules_in, num_sub_graphs_in,
}

-- The objects of a list; `none` is a pointer to a freed one.
abbrev views : {A : Type 0} → (ℕ → Option A) → List ℕ → Option (List A)
views f [] = some []
views f (k ∷ ks) = and_then (f k) (λ a. and_then (views f ks) (λ r. some (a ∷ r)))

abbrev module_view : Tables → ℕ → Option Module
module_view t k = and_then (t.modules k) (λ y. some y.body)

abbrev container_view : Tables → ℕ → Option Container
container_view t c = and_then (t.containers c) (λ x.
    and_then (views (module_view t) x.modules_list) (λ ms. some (record {
      container_id = c;
      capability_id = x.capability_id;
      graph_pos = x.graph_pos;
      stack_size = x.stack_size;
      proc_domain = x.proc_domain;
      num_modules = x.num_modules;
      modules_list = ms;
    })))

abbrev sub_graph_view : Tables → ℕ → Option SubGraph
sub_graph_view t k = and_then (t.sub_graphs k) (λ s.
    and_then (views (container_view t) s.container_list) (λ cs. some (record {
      sub_graph_id = k;
      perf_mode = s.perf_mode;
      direction = s.direction;
      scenario_id = s.scenario_id;
      container_list = cs;
    })))

unfoldable pub graph_view : Tables → ℕ → Option GraphInfo
graph_view t i = and_then (t.graphs i) (λ g. and_then (views (sub_graph_view t) g.sg_list) (λ sgs.
    some (record {
      src_mod_inst_id = g.src_mod_inst_id;
      src_mod_op_port_id = g.src_mod_op_port_id;
      dst_mod_inst_id = g.dst_mod_inst_id;
      dst_mod_ip_port_id = g.dst_mod_ip_port_id;
      sg_list = sgs;
    })))

-- A list of objects that are all there.
views-All :
    {A : Type 0} (P : A → Type 0) (f : ℕ → Option A) (l : List ℕ)
    → ((k : ℕ) → 0 < occurs k l → Sat (f k) P)
    → Sat (views f l) (λ r. All P r × (length r ≡ length l))
views-All P f [] h = (tt, refl)
views-All P f (k ∷ ks) h =
    and_then-Sat (f k) (λ a. and_then (views f ks) (λ r. some (a ∷ r))) P _ (h k (occurs-head k ks))
      (λ a pa.
        and_then-Sat (views f ks) (λ r. some (a ∷ r)) _ _
          (views-All P f ks (λ j m. h j (occurs-tail j k ks m)))
          (λ r (all, len). ((pa, all), ap suc len)))
  where
    occurs-head : (k : ℕ) (ks : List ℕ) → 0 < occurs k (k ∷ ks)
    occurs-head k ks = ground arith

    occurs-tail : (j k : ℕ) (ks : List ℕ) → 0 < occurs j ks → 0 < occurs j (k ∷ ks)
    occurs-tail j k ks m = ground arith

-- What stands in the list of a parent has this parent.
parent_of :
    {f : ℕ → Option ℕ} {k : ℕ → List ℕ} {m : ℕ → ℕ} (c p : ℕ)
    → IsLevel f k m
    → 0 < occurs c (k p)
    → f c ≡ some p
parent_of {f} c p v h = from (f c) (omega (arith, v.listed p c))
  where
    from : (o : Option ℕ) → 0 < is_parent o p → o ≡ some p
    from none h = absurd (omega arith)
    from (some q) h = elim (Bool-cases (q == p)) [
      | inl e ↦ ap some ((==_iff q p).0 e)
      | inr e ↦ absurd (omega (arith, rw e at h))
    ]

module _ (t : Tables) (h : IsTables t) where
  module_view-IsModule :
      (k c : ℕ) → 0 < occurs k (modules_in (t.containers c)) → Sat (module_view t k) IsModule
  module_view-IsModule k c m = from (t.modules k) (parent_of k c h.modules_level m) (h.named k)
    where
      from :
          (o : Option ModuleEntry)
          → container_of o ≡ some c
          → IsNamed k (t.modules_idr k) o
          → Sat (and_then o (λ y. some y.body)) IsModule
      from none e n = absurd (cc)
      from (some y) e n = n.2

  container_view-IsContainer :
      (c s : ℕ)
      → 0 < occurs c (containers_in (t.sub_graphs s))
      → Sat (container_view t c) IsContainer
  container_view-IsContainer c s m = elim (Option-cases (t.containers c)) [
    | inl gone ↦ absurd (cc (parent_of c s h.containers_level m, ap sub_graph_of gone))
    | inr (x, at_c) ↦
        rw (at_c, Sat)
          (and_then-Sat (views (module_view t) x.modules_list) _ _ IsContainer
            (views-All IsModule (module_view t) x.modules_list
              (λ k n. module_view-IsModule k c (rw (ap modules_in at_c) n)))
            (λ r (all, len). (
              len
                  ∙ sym (
                      ap num_modules_in (sym at_c)
                      ∙ h.modules_level.counted c
                      ∙ ap (λ z. length (modules_in z)) at_c),
              all,
            )))
  ]

  sub_graph_view-IsSubGraph :
      (k g : ℕ) → 0 < occurs k (sub_graphs_in (t.graphs g)) → Sat (sub_graph_view t k) IsSubGraph
  sub_graph_view-IsSubGraph k g m = elim (Option-cases (t.sub_graphs k)) [
    | inl gone ↦ absurd (cc (parent_of k g h.sub_graphs_level m, ap graph_of gone))
    | inr (s, at_s) ↦
        rw (at_s, Sat)
          (and_then-Sat (views (container_view t) s.container_list) _ _ IsSubGraph
            (views-All IsContainer (container_view t) s.container_list
              (λ c n. container_view-IsContainer c k (rw (ap containers_in at_s) n)))
            (λ r (all, len). all))
  ]

  -- On consistent tables, the lists of a graph lead to no object that is freed, its sub-graphs are
  -- as many as it counts, and they, their containers and modules have the counts that the first pass
  -- over the packet relies on.
  pub graph_view-IsSubGraph :
      (i : ℕ) {g : GraphEntry}
      → t.graphs i ≡ some g
      → Sat
          (graph_view t i)
          (λ info. All IsSubGraph info.sg_list × (length info.sg_list ≡ g.num_sub_graphs))
  unfolding graph_view
  graph_view-IsSubGraph i {g} at_g =
      let counted =
        ap num_sub_graphs_in (sym at_g)
        ∙ h.sub_graphs_level.counted i
        ∙ ap (λ z. length (sub_graphs_in z)) at_g in
      rw (at_g, Sat)
        (and_then-Sat (views (sub_graph_view t) g.sg_list) _ _ _
          (views-All IsSubGraph (sub_graph_view t) g.sg_list
            (λ k n. sub_graph_view-IsSubGraph k i (rw (ap sub_graphs_in at_g) n)))
          (λ r (all, len). (all, len ∙ sym counted)))
