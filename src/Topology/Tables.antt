-- ===== src/Topology/Tables.antt =====
-- The tables of source-reference/kernel/qdsp6/topology.c: graphs, sub-graphs, containers and modules, each
-- in an IDR of the driver (`struct q6apm`) and in the list of its parent. An object is named by the
-- index at which its IDR holds it. A call returns a value, an errno, or faults: a null or an
-- uninitialised pointer, a freed object, or an access outside an array.
pub mod Levels
pub mod Parse
pub mod Arrays
pub mod Unload
pub mod Kept
pub mod Added
pub mod Dropped
pub mod Unloads
pub mod Data
pub mod SubGraphLoads
pub mod ContainerLoads
pub mod ModuleLoads
pub mod Loads
pub mod Runs
pub mod Faults
mod Examples
use audioreach_usb_offload_r.Prelude.{
  ℕ, ◌+◌, Bool, true, false, not, Option, none, some, List, [], ◌∷◌, ◌++◌, ◌==◌, if◌then◌else◌,
}
pub use audioreach_usb_offload_r.Prelude.{update}
pub use audioreach_usb_offload_r.Stream.{einval, enomem, enodev}
use audioreach_usb_offload_r.Topology.{Module, allocated}

-- `struct audioreach_graph_info`, `struct audioreach_sub_graph`, `struct audioreach_container` and
-- `struct audioreach_module` as they point to one another.
pub record GraphEntry : Type 0 where
  pub num_sub_graphs : ℕ
  pub sg_list : List ℕ
  pub src_mod_inst_id : ℕ
  pub src_mod_op_port_id : ℕ
  pub dst_mod_inst_id : ℕ
  pub dst_mod_ip_port_id : ℕ

pub record SubGraphEntry : Type 0 where
  pub info : Option ℕ
  pub num_containers : ℕ
  pub container_list : List ℕ
  pub perf_mode : ℕ
  pub direction : ℕ
  pub scenario_id : ℕ

pub record ContainerEntry : Type 0 where
  pub sub_graph : ℕ
  pub num_modules : ℕ
  pub modules_list : List ℕ
  pub capability_id : ℕ
  pub stack_size : ℕ
  pub graph_pos : ℕ
  pub proc_domain : ℕ

pub record ModuleEntry : Type 0 where
  pub container : ℕ
  pub body : Module

-- The four IDRs. `modules` are the modules that are allocated, `modules_idr` the indices in use:
-- these two can differ.
pub record Tables : Type 0 where
  pub graphs : ℕ → Option GraphEntry
  pub sub_graphs : ℕ → Option SubGraphEntry
  pub containers : ℕ → Option ContainerEntry
  pub modules : ℕ → Option ModuleEntry
  pub modules_idr : ℕ → Bool

abbrev pub no_tables : Tables
no_tables = record {
  graphs = λ i. none;
  sub_graphs = λ i. none;
  containers = λ i. none;
  modules = λ i. none;
  modules_idr = λ i. false;
}

-- What a call leaves; `endless` is a loop that does not end.
pub data TplgResult (A : Type 0) : Type 0 where
  ok : A → Tables → TplgResult A
  err : ℕ → Tables → TplgResult A
  fault endless : TplgResult A

infixl 5 ◌>>=◌
abbrev pub ◌>>=◌ : {A B : Type 0} → TplgResult A → (A → Tables → TplgResult B) → TplgResult B
ok a t >>= f = f a t
err e t >>= f = err e t
fault >>= f = fault
endless >>= f = endless

-- One allocation: whether there is memory, the error of the IDR or 0, and the index that
-- `idr_alloc_cyclic` picks.
pub record AllocEnv : Type 0 where
  pub memory : Bool
  pub idr : ℕ
  pub cyclic : ℕ

-- The error of an allocation, 0 if there is none.
abbrev pub alloc_error : AllocEnv → ℕ
alloc_error e = if e.memory then e.idr else enomem

-- The result of an allocation that makes the tables `t'`.
abbrev pub allocated_as : AllocEnv → ℕ → Tables → Tables → TplgResult (ℕ × Bool)
allocated_as e i t t' = if alloc_error e == 0 then ok (i, false) t' else err (alloc_error e) t

abbrev pub empty_graph : GraphEntry
empty_graph = record {
  num_sub_graphs = 0;
  sg_list = [];
  src_mod_inst_id = 0;
  src_mod_op_port_id = 0;
  dst_mod_inst_id = 0;
  dst_mod_ip_port_id = 0;
}

abbrev pub empty_sub_graph : SubGraphEntry
empty_sub_graph = record {
  info = none;
  num_containers = 0;
  container_list = [];
  perf_mode = 0;
  direction = 0;
  scenario_id = 0;
}

abbrev pub empty_container : ℕ → ContainerEntry
empty_container sg = record {
  sub_graph = sg;
  num_modules = 0;
  modules_list = [];
  capability_id = 0;
  stack_size = 0;
  graph_pos = 0;
  proc_domain = 0;
}

abbrev pub set_graph_info : Tables → ℕ → Option GraphEntry → Tables
set_graph_info t i v = record t { graphs = update t.graphs i v }

abbrev pub set_sub_graph : Tables → ℕ → Option SubGraphEntry → Tables
set_sub_graph t i v = record t { sub_graphs = update t.sub_graphs i v }

abbrev pub set_container : Tables → ℕ → Option ContainerEntry → Tables
set_container t i v = record t { containers = update t.containers i v }

abbrev pub set_module : Tables → ℕ → Option ModuleEntry → Tables
set_module t i v = record t { modules = update t.modules i v }

-- What is done to the entry at index i; a null or a freed entry faults.
abbrev pub at_graph : {A : Type 0} → Tables → ℕ → (GraphEntry → TplgResult A) → TplgResult A
at_graph t i f = elim (t.graphs i) [ none ↦ fault | some x ↦ f x ]

abbrev pub at_sub_graph : {A : Type 0} → Tables → ℕ → (SubGraphEntry → TplgResult A) → TplgResult A
at_sub_graph t i f = elim (t.sub_graphs i) [ none ↦ fault | some x ↦ f x ]

abbrev pub at_module : {A : Type 0} → Tables → ℕ → (ModuleEntry → TplgResult A) → TplgResult A
at_module t i f = elim (t.modules i) [ none ↦ fault | some x ↦ f x ]

abbrev pub at_container : {A : Type 0} → Tables → ℕ → (ContainerEntry → TplgResult A) → TplgResult A
at_container t i f = elim (t.containers i) [ none ↦ fault | some x ↦ f x ]

-- `audioreach_tplg_alloc_graph_info`: the graph and whether it was there.
unfoldable pub alloc_graph_info : AllocEnv → ℕ → Tables → TplgResult (ℕ × Bool)
alloc_graph_info e i t = elim (t.graphs i) [
  | some x ↦ ok (i, true) t
  | none ↦ allocated_as e i t (set_graph_info t i (some empty_graph))
]

-- The graph g with the sub-graph k in its list, and the tables after it.
abbrev pub graph_with : GraphEntry → ℕ → GraphEntry
graph_with g k = record g { sg_list = g.sg_list ++ k ∷ []; num_sub_graphs = g.num_sub_graphs + 1 }

abbrev pub linked_tables : Tables → ℕ → ℕ → GraphEntry → SubGraphEntry → Tables
linked_tables t i k g s =
    set_sub_graph (set_graph_info t i (some (graph_with g k))) k (some (record s { info = some i }))

-- `audioreach_tplg_add_sub_graph`
unfoldable pub add_sub_graph : ℕ → ℕ → Tables → TplgResult ℕ
add_sub_graph sg i t = at_graph t i (λ g. at_sub_graph t sg (λ s. ok sg (linked_tables t i sg g s)))

-- `audioreach_tplg_alloc_sub_graph`
unfoldable pub alloc_sub_graph : AllocEnv → ℕ → Tables → TplgResult (ℕ × Bool)
alloc_sub_graph e i t = if i == 0 then err einval t else elim (t.sub_graphs i) [
  | some x ↦ ok (i, true) t
  | none ↦ allocated_as e i t (set_sub_graph t i (some empty_sub_graph))
]

-- The sub-graph s with the container i in its list, and the tables after it.
abbrev pub sub_graph_with : SubGraphEntry → ℕ → SubGraphEntry
sub_graph_with s i = record s {
  container_list = s.container_list ++ i ∷ [];
  num_containers = s.num_containers + 1;
}

abbrev pub with_container : Tables → ℕ → ℕ → SubGraphEntry → Tables
with_container t i sg s =
    set_sub_graph (set_container t i (some (empty_container sg))) sg (some (sub_graph_with s i))

-- `audioreach_tplg_alloc_container`
unfoldable pub alloc_container : AllocEnv → ℕ → ℕ → Tables → TplgResult (ℕ × Bool)
alloc_container e sg i t = if i == 0 then err einval t else elim (t.containers i) [
  | some x ↦ ok (i, true) t
  | none ↦ at_sub_graph t sg (λ s. allocated_as e i t (with_container t i sg s))
]

-- The container x with the module k in its list, and the tables with this module.
abbrev pub container_with : ContainerEntry → ℕ → ContainerEntry
container_with x k = record x {
  modules_list = x.modules_list ++ k ∷ [];
  num_modules = x.num_modules + 1;
}

abbrev pub with_module : Tables → ℕ → ℕ → ContainerEntry → Module → Tables
with_module t c k x m =
    record (set_container (set_module t k (some (record { container = c; body = m }))) c
      (some (container_with x k))) { modules_idr = update t.modules_idr k true }

-- `audioreach_tplg_alloc_module`: for instance 0 the IDR picks the index, and the instance stays 0.
unfoldable pub alloc_module : AllocEnv → ℕ → ℕ → Tables → TplgResult (ℕ × Bool)
alloc_module e c i t =
    if t.modules_idr i
    then ok (i, true) t
    else at_container t c (λ x.
      let k = if i == 0 then e.cyclic else i in
      allocated_as e k t (with_module t c k x (allocated i)))
