-- ===== src/Topology/Tables/Faults.antt =====
-- Where the unload of a module goes wrong (source-reference/kernel/qdsp6/topology.c).
use audioreach_usb_offload_r.Prelude.{
  ℕ, ◌≡◌, refl, ◌∙◌, true, false, inl, inr, none, some, ◌==◌, Bool-cases,
}
use audioreach_usb_offload_r.Topology.Tables.{
  GraphEntry, SubGraphEntry, ContainerEntry, ModuleEntry, Tables, TplgResult, ok, err, fault,
  endless,
}
use audioreach_usb_offload_r.Topology.Tables.Unload.{
  no_nodes, without_module, without_sub_graph, without_container, drop_graph, drop_sub_graph,
  drop_container, unlink_module,
}
use audioreach_usb_offload_r.Topology.Tables.Unloads.{Ends, update_self}
use audioreach_usb_offload_r.Topology.Tables.Data.{PrivData, is_bad, unload_module}

-- The modules and their IDR are those of t.
abbrev SameModules : Tables → Tables → Type 0
SameModules t u =
    ((k : ℕ) → u.modules k ≡ t.modules k) × ((k : ℕ) → u.modules_idr k ≡ t.modules_idr k)

same : (t : Tables) → SameModules t t
same t = (λ k. refl, λ k. refl)

-- A call that returns, whatever it returns, with tables as P says.
abbrev pub Leaves : TplgResult (Unit {0}) → (Tables → Type 0) → Type 0
Leaves r P = Ends r (λ _. P) P

drop_graph-SameModules :
    (g : ℕ) (t : Tables) {x : GraphEntry}
    → t.graphs g ≡ some x
    → Leaves (drop_graph g t) (SameModules t)
unfolding drop_graph
drop_graph-SameModules g t {x} at_g =
    rw (at_g, Ends)
      (elim (Bool-cases (no_nodes x.sg_list)) [
        | inl e ↦ rw (e, Ends) (same t)
        | inr e ↦ rw (e, Ends) (same t)
      ])

drop_sub_graph-SameModules :
    (k g : ℕ) (t : Tables) {s : SubGraphEntry} {x : GraphEntry}
    → t.sub_graphs k ≡ some s
    → s.info ≡ some g
    → t.graphs g ≡ some x
    → Leaves (drop_sub_graph k t) (SameModules t)
unfolding drop_sub_graph
drop_sub_graph-SameModules k g t {s} {x} at_s linked at_g =
    rw (at_s, Ends)
      (elim (Bool-cases (no_nodes s.container_list)) [
        | inr e ↦ rw (e, Ends) (same t)
        | inl e ↦
            rw (e, linked, at_g, Ends)
              (drop_graph-SameModules g (without_sub_graph t k g x) (update_self t.graphs g _))
      ])

drop_container-SameModules :
    (c g : ℕ) (t : Tables) {x : ContainerEntry} {s : SubGraphEntry} {z : GraphEntry}
    → t.containers c ≡ some x
    → t.sub_graphs x.sub_graph ≡ some s
    → s.info ≡ some g
    → t.graphs g ≡ some z
    → Leaves (drop_container c t) (SameModules t)
unfolding drop_container
drop_container-SameModules c g t {x} {s} at_c at_s linked at_g =
    rw (at_c, Ends)
      (elim (Bool-cases (no_nodes x.modules_list)) [
        | inr e ↦ rw (e, Ends) (same t)
        | inl e ↦
            rw (e, at_s, Ends)
              (drop_sub_graph-SameModules x.sub_graph g (without_container t c x.sub_graph s)
                (update_self t.sub_graphs x.sub_graph _) linked at_g)
      ])

-- A module that stands in the IDR at another index than its instance, as one that was made for
-- instance 0 does, whose private data can be freed, and whose container, sub-graph and graph are
-- there: its unload returns, the module is freed, and its index in the IDR is still in use.
pub unload_module-dangling :
    (t : Tables) (d : PrivData) (k g : ℕ) {y : ModuleEntry} {x : ContainerEntry} {s : SubGraphEntry}
    {z : GraphEntry}
    → is_bad d ≡ false
    → t.modules k ≡ some y
    → t.containers y.container ≡ some x
    → t.sub_graphs x.sub_graph ≡ some s
    → s.info ≡ some g
    → t.graphs g ≡ some z
    → (y.body.instance_id == k) ≡ false
    → t.modules_idr k ≡ true
    → Leaves (unload_module d (some k) t) (λ u. (u.modules k ≡ none) × (u.modules_idr k ≡ true))
unfolding unload_module unlink_module
unload_module-dangling t d k g {y} {x} free at_k at_c at_s linked at_g other used =
    let u = without_module t k y x in
    rw (free, at_k, at_c, Ends)
      (after (drop_container y.container u) (
        drop_container-SameModules y.container g u (update_self t.containers y.container _) at_s
          linked at_g))
  where
    after :
        (r : TplgResult (Unit {0}))
        → Leaves r (SameModules (without_module t k y x))
        → Leaves r (λ u. (u.modules k ≡ none) × (u.modules_idr k ≡ true))
    after (ok a u) (a', b) = (a' k ∙ update_self t.modules k none, b k ∙ rw other used)
    after (err e u) (a', b) = (a' k ∙ update_self t.modules k none, b k ∙ rw other used)
    after fault h = h
    after endless h = h
