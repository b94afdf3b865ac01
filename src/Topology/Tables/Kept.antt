-- ===== src/Topology/Tables/Kept.antt =====
-- When the tables of source-reference/kernel/qdsp6/topology.c are consistent.
use audioreach_usb_offload_r.Prelude.{
  ℕ, ◌≡◌, refl, ap, ◌∙◌, Bool, true, false, inl, inr, Option, none, some, List, [], ◌==◌,
  if◌then◌else◌, Bool-cases, ==_iff,
}
use audioreach_usb_offload_r.Topology.Links.{IsModule}
use audioreach_usb_offload_r.Topology.Tables.{
  GraphEntry, SubGraphEntry, ContainerEntry, ModuleEntry, Tables, no_tables, update,
}
use audioreach_usb_offload_r.Topology.Tables.Levels.{IsLevel}

-- The parent of an object, its children and their number; those of an object that is not there.
abbrev pub container_of : Option ModuleEntry → Option ℕ
container_of none = none
container_of (some y) = some y.container

abbrev pub modules_in : Option ContainerEntry → List ℕ
modules_in none = []
modules_in (some x) = x.modules_list

abbrev pub num_modules_in : Option ContainerEntry → ℕ
num_modules_in none = 0
num_modules_in (some x) = x.num_modules

abbrev pub sub_graph_of : Option ContainerEntry → Option ℕ
sub_graph_of none = none
sub_graph_of (some x) = some x.sub_graph

abbrev pub containers_in : Option SubGraphEntry → List ℕ
containers_in none = []
containers_in (some s) = s.container_list

abbrev pub num_containers_in : Option SubGraphEntry → ℕ
num_containers_in none = 0
num_containers_in (some s) = s.num_containers

abbrev pub graph_of : Option SubGraphEntry → Option ℕ
graph_of none = none
graph_of (some s) = s.info

abbrev pub sub_graphs_in : Option GraphEntry → List ℕ
sub_graphs_in none = []
sub_graphs_in (some g) = g.sg_list

abbrev pub num_sub_graphs_in : Option GraphEntry → ℕ
num_sub_graphs_in none = 0
num_sub_graphs_in (some g) = g.num_sub_graphs

-- A module is in the IDR at its instance, and its links are in order.
abbrev pub IsNamed : ℕ → Bool → Option ModuleEntry → Type 0
IsNamed k b none = b ≡ false
IsNamed k b (some y) = (b ≡ true) × (y.body.instance_id ≡ k) × IsModule y.body

-- Every object stands once in the list of its parent and in no other list, the counts are those of
-- the lists, and every module is in the IDR at its instance.
pub record IsTables (t : Tables) : Type 0 where
  pub modules_level :
      IsLevel
        (λ k. container_of (t.modules k))
        (λ c. modules_in (t.containers c))
        (λ c. num_modules_in (t.containers c))
  pub containers_level :
      IsLevel
        (λ c. sub_graph_of (t.containers c))
        (λ s. containers_in (t.sub_graphs s))
        (λ s. num_containers_in (t.sub_graphs s))
  pub sub_graphs_level :
      IsLevel
        (λ s. graph_of (t.sub_graphs s))
        (λ g. sub_graphs_in (t.graphs g))
        (λ g. num_sub_graphs_in (t.graphs g))
  pub named : (k : ℕ) → IsNamed k (t.modules_idr k) (t.modules k)

pub no_tables-IsTables : IsTables no_tables
no_tables-IsTables = record {
  modules_level = record { listed = λ p k. refl; counted = λ p. refl };
  containers_level = record { listed = λ p k. refl; counted = λ p. refl };
  sub_graphs_level = record { listed = λ p k. refl; counted = λ p. refl };
  named = λ k. refl;
}

module _ {ℓ κ} {A : Type ℓ} {B : Type κ} (f : A → B) (g : ℕ → A) (i : ℕ) (v : A) where
  -- What is read of an entry that changes, and of the others.
  pub at_update : (j : ℕ) {b : B} → f v ≡ b → f (update g i v j) ≡ (if i == j then b else f (g j))
  at_update j e = elim (Bool-cases (i == j)) [ inl h ↦ rw h e | inr h ↦ rw h refl ]

  -- A change that cannot be read.
  pub kept_update : f v ≡ f (g i) → (j : ℕ) → f (update g i v j) ≡ f (g j)
  kept_update e j = elim (Bool-cases (i == j)) [
    | inl h ↦ rw h (e ∙ ap (λ k. f (g k)) ((==_iff i j).0 h))
    | inr h ↦ rw h refl
  ]
