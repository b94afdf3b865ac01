-- ===== src/Topology/Tables/Unloads.antt =====
-- The unload of a module (source-reference/kernel/qdsp6/topology.c) on consistent tables.
use audioreach_usb_offload_r.Prelude.{
  ℕ, ◌≡◌, refl, subst, ap, ◌∙◌, true, inl, inr, Option, none, some, List, [], ◌∷◌, ◌==◌, Bool-cases,
  Option-cases, ==_iff,
}
use audioreach_usb_offload_r.Topology.Tables.{
  GraphEntry, SubGraphEntry, ContainerEntry, ModuleEntry, Tables, TplgResult, ok, err, fault,
  endless, ◌>>=◌, update,
}
use audioreach_usb_offload_r.Topology.Tables.Levels.{IsLevel-childless}
use audioreach_usb_offload_r.Topology.Tables.Unload.{
  no_nodes, without_module, without_container, without_sub_graph, drop_graph, drop_sub_graph,
  drop_container, unlink_module,
}
use audioreach_usb_offload_r.Topology.Tables.Kept.{
  container_of, modules_in, sub_graph_of, containers_in, graph_of, sub_graphs_in, IsTables,
}
use audioreach_usb_offload_r.Topology.Tables.Dropped.{
  without_module-IsTables, without_container-IsTables, without_sub_graph-IsTables,
  without_graph-IsTables,
}

-- A call that returns, and what it leaves with a value or with an error.
abbrev pub Ends : {A : Type 0} → TplgResult A → (A → Tables → Type 0) → (Tables → Type 0) → Type 0
Ends (ok a t) P E = P a t
Ends (err e t) P E = E t
Ends fault P E = ⊥
Ends endless P E = ⊥

pub Ends->>= :
    {A B : Type 0} (m : TplgResult A) (f : A → Tables → TplgResult B) (P : A → Tables → Type 0)
    (Q : B → Tables → Type 0) (E : Tables → Type 0)
    → Ends m P E
    → ((a : A) (t : Tables) → P a t → Ends (f a t) Q E)
    → Ends (m >>= f) Q E
Ends->>= (ok a t) f P Q E h k = k a t h
Ends->>= (err e t) f P Q E h k = h
Ends->>= fault f P Q E h k = h
Ends->>= endless f P Q E h k = h

-- A sub-graph has a graph.
abbrev pub HasGraph : Option SubGraphEntry → Type 0
HasGraph none = Unit {0}
HasGraph (some s) = (g : ℕ) × (s.info ≡ some g)

abbrev pub HasGraphs : Tables → Type 0
HasGraphs t = (s : ℕ) → HasGraph (t.sub_graphs s)

pub update_self {ℓ} : {A : Type ℓ} (f : ℕ → A) (i : ℕ) (v : A) → update f i v i ≡ v
update_self f i v = rw ((==_iff i i).1 refl) refl

pub update-HasGraph :
    (f : ℕ → Option SubGraphEntry) (i : ℕ) (v : Option SubGraphEntry)
    → HasGraph v
    → ((s : ℕ) → HasGraph (f s))
    → (s : ℕ) → HasGraph (update f i v s)
update-HasGraph f i v p h s = elim (Bool-cases (i == s)) [ inl e ↦ rw e p | inr e ↦ rw e (h s) ]

-- The tables stay consistent, and the modules are those that were there.
abbrev pub Stays : Tables → Tables → Type 0
Stays t u = IsTables u × HasGraphs u × ((k : ℕ) → u.modules k ≡ t.modules k)

no_nodes-nil : (l : List ℕ) → no_nodes l ≡ true → l ≡ []
no_nodes-nil [] e = refl
no_nodes-nil (x ∷ xs) e = cc

module _ (t : Tables) (h : IsTables t) where
  pub parent_container :
      (k c : ℕ)
      → container_of (t.modules k) ≡ some c
      → (x : ContainerEntry) × (t.containers c ≡ some x)
  parent_container k c e = elim (Option-cases (t.containers c)) [
    | inl n ↦ absurd (IsLevel-childless k c h.modules_level (ap modules_in n) e)
    | inr there ↦ there
  ]

  pub parent_sub_graph :
      (c s : ℕ)
      → sub_graph_of (t.containers c) ≡ some s
      → (x : SubGraphEntry) × (t.sub_graphs s ≡ some x)
  parent_sub_graph c s e = elim (Option-cases (t.sub_graphs s)) [
    | inl n ↦ absurd (IsLevel-childless c s h.containers_level (ap containers_in n) e)
    | inr there ↦ there
  ]

  pub parent_graph :
      (s g : ℕ) → graph_of (t.sub_graphs s) ≡ some g → (x : GraphEntry) × (t.graphs g ≡ some x)
  parent_graph s g e = elim (Option-cases (t.graphs g)) [
    | inl n ↦ absurd (IsLevel-childless s g h.sub_graphs_level (ap sub_graphs_in n) e)
    | inr there ↦ there
  ]

  drop_graph-Stays :
      (g : ℕ) {x : GraphEntry}
      → HasGraphs t
      → t.graphs g ≡ some x
      → Ends (drop_graph g t) (λ _. Stays t) (Stays t)
  unfolding drop_graph
  drop_graph-Stays g {x} l at_g =
      rw (at_g, Ends)
        (elim (Bool-cases (no_nodes x.sg_list)) [
          | inl e ↦
              rw (e, Ends)
                (without_graph-IsTables t h g at_g (no_nodes-nil x.sg_list e), l, λ k. refl)
          | inr e ↦ rw (e, Ends) (h, l, λ k. refl)
        ])

drop_sub_graph-Stays :
    (t : Tables) (h : IsTables t) (sg : ℕ) {s : SubGraphEntry}
    → HasGraphs t
    → t.sub_graphs sg ≡ some s
    → Ends (drop_sub_graph sg t) (λ _. Stays t) (Stays t)
unfolding drop_sub_graph
drop_sub_graph-Stays t h sg {s} l at_s =
    let (g, linked) = subst HasGraph at_s (l sg) in
    let (x, at_g) = parent_graph t h sg g (ap graph_of at_s ∙ linked) in
    rw (at_s, Ends)
      (elim (Bool-cases (no_nodes s.container_list)) [
        | inl e ↦
            rw (e, linked, at_g, Ends)
              (drop_graph-Stays (without_sub_graph t sg g x)
                (without_sub_graph-IsTables t h sg g at_s at_g linked
                  (no_nodes-nil s.container_list e))
                g (update-HasGraph t.sub_graphs sg none tt l) (update_self t.graphs g _))
        | inr e ↦ rw (e, Ends) (h, l, λ k. refl)
      ])

drop_container-Stays :
    (t : Tables) (h : IsTables t) (c : ℕ) {x : ContainerEntry}
    → HasGraphs t
    → t.containers c ≡ some x
    → Ends (drop_container c t) (λ _. Stays t) (Stays t)
unfolding drop_container
drop_container-Stays t h c {x} l at_c =
    let (s, at_s) = parent_sub_graph t h c x.sub_graph (ap sub_graph_of at_c) in
    let has = subst HasGraph at_s (l x.sub_graph) in
    rw (at_c, Ends)
      (elim (Bool-cases (no_nodes x.modules_list)) [
        | inl e ↦
            rw (e, at_s, Ends)
              (drop_sub_graph-Stays (without_container t c x.sub_graph s)
                (without_container-IsTables t h c at_c at_s (no_nodes-nil x.modules_list e))
                x.sub_graph (update-HasGraph t.sub_graphs x.sub_graph _ has l)
                (update_self t.sub_graphs x.sub_graph _))
        | inr e ↦ rw (e, Ends) (h, l, λ k. refl)
      ])

-- What an unload of the module k leaves.
abbrev pub Unloaded : Tables → ℕ → Tables → Type 0
Unloaded t k u = IsTables u × HasGraphs u × ((j : ℕ) → u.modules j ≡ update t.modules k none j)

-- On consistent tables whose sub-graphs all have a graph, the unload of a module that is there faults
-- nowhere: it leaves consistent tables, with no module but this one gone.
pub unlink_module-IsTables :
    (t : Tables) (k : ℕ) {y : ModuleEntry}
    → IsTables t
    → HasGraphs t
    → t.modules k ≡ some y
    → Ends (unlink_module (some k) t) (λ _. Unloaded t k) (Unloaded t k)
unfolding unlink_module
unlink_module-IsTables t k {y} h l at_k =
    let (x, at_c) = parent_container t h k y.container (ap container_of at_k) in
    rw (at_k, at_c, Ends)
      (drop_container-Stays (without_module t k y x) (without_module-IsTables t h k at_k at_c)
        y.container l (update_self t.containers y.container _))
