-- ===== src/Topology/Tables/Loads.antt =====
-- `audioreach_widget_load_module_common` of source-reference/kernel/qdsp6/topology.c on consistent tables.
use audioreach_usb_offload_r.Prelude.{ℕ, ◌≤◌, ◌≡◌, refl, sym, ◌∙◌, Option, none, some, List}
use audioreach_usb_offload_r.Topology.{ar_max_mod_links, initial, tokens_read}
use audioreach_usb_offload_r.Topology.Tables.{
  SubGraphEntry, Tables, TplgResult, ok, err, fault, endless, ◌>>=◌, enodev,
}
use audioreach_usb_offload_r.Topology.Tables.Arrays.{
  Elem, Private, is_sub_graph_instance, is_container_instance, is_module_instance, rounds,
  read_elems, Search, found, absent, out_of_fuel,
}
use audioreach_usb_offload_r.Topology.Tables.Parse.{
  LoadEnv, module_tokens, with_elems, array_with, sg_tokens, cont_tokens, mod_tokens,
  parse_sg_tokens, parse_cont_tokens, parse_module_tokens, load_module,
}
use audioreach_usb_offload_r.Topology.Tables.Kept.{IsTables}
use audioreach_usb_offload_r.Topology.Tables.Unloads.{Ends, Ends->>=, HasGraphs, Stays}
use audioreach_usb_offload_r.Topology.Tables.SubGraphLoads.{
  IsSubGraphTokens, AllocatesGraphs, IsLoaded,
}
use audioreach_usb_offload_r.Topology.Tables.SubGraphLoads.Loop.{sg_tokens-IsLoaded}
use audioreach_usb_offload_r.Topology.Tables.ContainerLoads.{
  IsContainerTokens, HasContainer, cont_tokens-HasContainer,
}
use audioreach_usb_offload_r.Topology.Tables.ModuleLoads.{
  HasInstances, Grows, IsNew, HasNew, mod_tokens-HasNew,
}

-- A search finds an array whose elements are `es`.
abbrev pub Reads : Search → List Elem → Type 0
Reads (found a) es = read_elems a.value (rounds a.num_elems) ≡ some es
Reads absent es = ⊥
Reads Search.fault es = ⊥
Reads out_of_fuel es = ⊥

with_elems-Reads :
    {A : Type 0} (s : Search) (f : List Elem → TplgResult A) {es : List Elem}
    → Reads s es
    → with_elems s f ≡ f es
with_elems-Reads (found a) f r = rw (r, with_elems) refl
with_elems-Reads absent f r = absurd r
with_elems-Reads Search.fault f r = absurd r
with_elems-Reads out_of_fuel f r = absurd r

-- What the widget of a module has: the array of its sub-graph, with a graph, and that of its container,
-- both with the instance first, and the array of the module with an instance that is not 0 and at
-- most AR_MAX_MOD_LINKS output ports.
pub record IsWidget (p : Private) : Type 0 where
  pub sg_elems : List Elem
  pub sg_reads : Reads (array_with p is_sub_graph_instance) sg_elems
  pub sg_tokens : IsSubGraphTokens sg_elems
  pub cont_elems : List Elem
  pub cont_reads : Reads (array_with p is_container_instance) cont_elems
  pub cont_tokens : IsContainerTokens cont_elems
  pub mod_elems : List Elem
  pub mod_reads : Reads (array_with p is_module_instance) mod_elems
  pub mod_instances : HasInstances mod_elems
  pub mod_ports : (tokens_read initial (module_tokens mod_elems)).max_op_port ≤ ar_max_mod_links

since : (t v u : Tables) → ((k : ℕ) → v.modules k ≡ t.modules k) → Grows v u → Grows t u
since t v u same (h, l, keeps) = (h, l, λ k y e. keeps k y (same k ∙ e))

Stays-Grows : (t u : Tables) → Stays t u → Grows t u
Stays-Grows t u (h, l, same) = (h, l, λ k y e. same k ∙ e)

-- What a load leaves: consistent tables, with the modules that were there and a new one.
abbrev pub Loaded : Tables → ℕ → Tables → Type 0
Loaded t k u = Grows t u × IsNew t k u

-- A load whose module parser starts from `v`.
finished :
    (t v : Tables) (r : TplgResult (Option ℕ))
    → ((k : ℕ) → v.modules k ≡ t.modules k)
    → Ends r (HasNew v) (Grows v)
    → Ends (r >>= λ m w. elim m [ none ↦ err enodev w | some k ↦ ok k w ]) (Loaded t) (Grows t)
finished t v (ok none w) same g = since t v w same g
finished t v (ok (some k) w) same (g, (n, there)) = (since t v w same g, (sym (same k) ∙ n, there))
finished t v (err e w) same g = since t v w same g
finished t v fault same g = g
finished t v endless same g = g

Ends-weaken :
    {A : Type 0} (m : TplgResult A) (P : A → Tables → Type 0) (E F : Tables → Type 0)
    → ((u : Tables) → E u → F u)
    → Ends m P E
    → Ends m P F
Ends-weaken (ok a t) P E F f h = h
Ends-weaken (err e t) P E F f h = f t h
Ends-weaken fault P E F f h = h
Ends-weaken endless P E F f h = h

-- The load from the container on, in a sub-graph that is there.
contained :
    (env : LoadEnv) (p : Private) (t u : Tables) (w : IsWidget p) (sg : ℕ)
    → Stays t u
    → ((s : SubGraphEntry) × (u.sub_graphs sg ≡ some s))
    → Ends
        (cont_tokens env sg none 0 w.cont_elems u >>= λ c v.
          parse_module_tokens env c p v >>= λ m w. elim m [ none ↦ err enodev w | some k ↦ ok k w ])
        (Loaded t)
        (Grows t)
unfolding parse_module_tokens
contained env p t u w sg (h, l, same) (s, at_s) =
    let call = cont_tokens env sg none 0 w.cont_elems u in
    Ends->>= call _ (HasContainer u) (Loaded t) (Grows t)
      (Ends-weaken call (HasContainer u) (Stays u) (Grows t)
        (λ v b. since t u v same (Stays-Grows u v b))
        (cont_tokens-HasContainer env sg w.cont_elems u h l at_s w.cont_tokens))
      (λ c v b.
        let kept : (k : ℕ) → v.modules k ≡ t.modules k = λ k. b.0.2 k ∙ same k in
        let tokens = module_tokens w.mod_elems in
        rw
          (with_elems-Reads (array_with p is_module_instance)
            (λ es. mod_tokens env c (module_tokens es) none 0 es v) w.mod_reads)
          (finished t v _ kept (
            mod_tokens-HasNew v env c tokens w.mod_elems w.mod_ports w.mod_instances b.0.0 b.0.1
              b.1.1)))

-- The load of a widget that has what it needs, on consistent tables whose sub-graphs all have a
-- graph, where graphs can be allocated while any other allocation may fail: it ends and faults
-- nowhere, whether it succeeds or reports an error the tables are consistent afterwards and have the
-- modules that were there, and with success there is a new module.
pub load_module-IsTables :
    (env : LoadEnv) (p : Private) (t : Tables)
    → IsWidget p
    → AllocatesGraphs env
    → IsTables t
    → HasGraphs t
    → Ends (load_module env p t) (Loaded t) (Grows t)
unfolding load_module parse_sg_tokens parse_cont_tokens parse_module_tokens
load_module-IsTables env p t w works h l =
    let first =
      with_elems-Reads (array_with p is_sub_graph_instance) (λ es. sg_tokens env none none 0 es t)
        w.sg_reads in
    rw first (
      Ends->>= (sg_tokens env none none 0 w.sg_elems t) _ (IsLoaded t) (Loaded t) (Grows t)
        (Ends-weaken (sg_tokens env none none 0 w.sg_elems t) (IsLoaded t) (Stays t) (Grows t)
          (Stays-Grows t) (sg_tokens-IsLoaded env w.sg_elems t works h l w.sg_tokens))
        (λ sg u a.
          rw
            (with_elems-Reads (array_with p is_container_instance)
              (λ es. cont_tokens env sg none 0 es u) w.cont_reads)
            (contained env p t u w sg a.0 a.1)))
