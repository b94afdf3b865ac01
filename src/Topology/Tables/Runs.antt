-- ===== src/Topology/Tables/Runs.antt =====
-- Widgets that come and go (source-reference/kernel/qdsp6/topology.c), in any order.
use audioreach_usb_offload_r.Prelude.{
  arith, Sat, and_then, and_then-Sat_at, ℕ, ◌≡◌, sym, ap, ◌∙◌, ◌⊎◌, false, inl, inr, Option, none,
  some, List, [], ◌∷◌, ◌==◌, Bool-cases, ==_iff,
}
use audioreach_usb_offload_r.Topology.Tables.{
  ModuleEntry, Tables, no_tables, TplgResult, ok, err, fault, endless, update,
}
use audioreach_usb_offload_r.Topology.Tables.Arrays.{Private}
use audioreach_usb_offload_r.Topology.Tables.Parse.{LoadEnv}
use audioreach_usb_offload_r.Topology.Tables.Kept.{IsTables}
use audioreach_usb_offload_r.Topology.Tables.Unloads.{Ends, HasGraphs, Unloaded}
use audioreach_usb_offload_r.Topology.Tables.Data.{
  PrivData, no_data, is_bad, load_module_common, unload_module, HasData, LoadedData,
  load_module_common-IsTables, unload_module-IsTables,
}
use audioreach_usb_offload_r.Topology.Tables.SubGraphLoads.{AllocatesGraphs}
use audioreach_usb_offload_r.Topology.Tables.ModuleLoads.{Grows}
use audioreach_usb_offload_r.Topology.Tables.Loads.{IsWidget}

-- The tables, the private data of the module at each index, and the module that each widget points to.
pub record Component : Type 0 where
  pub tables : Tables
  pub priv_data : ℕ → PrivData
  pub module_of : ℕ → Option ℕ

-- A widget is loaded or unloaded.
pub data WidgetCall : Type 0 where
  load : ℕ → LoadEnv → Private → WidgetCall
  unload : ℕ → WidgetCall

-- What a load leaves of the component; `none` is a fault.
abbrev after_load : Component → ℕ → TplgResult (ℕ × PrivData) → Option Component
after_load s w (ok (k, d) t) = some (record {
  tables = t;
  priv_data = update s.priv_data k d;
  module_of = update s.module_of w (some k);
})
after_load s w (err e t) = some (record s { tables = t })
after_load s w fault = none
after_load s w endless = none

abbrev after_unload : Component → ℕ → TplgResult (Unit {0}) → Option Component
after_unload s w (ok k t) = some (record s { tables = t; module_of = update s.module_of w none })
after_unload s w (err e t) = some (record s { tables = t; module_of = update s.module_of w none })
after_unload s w fault = none
after_unload s w endless = none

-- The data of the module that a widget points to, if it points to one.
abbrev held_data : Component → Option ℕ → PrivData
held_data s none = no_data
held_data s (some k) = s.priv_data k

unfoldable pub widget_step : Component → WidgetCall → Option Component
widget_step s (load w env p) = after_load s w (load_module_common env p s.tables)
widget_step s (unload w) =
    after_unload s w (unload_module (held_data s (s.module_of w)) (s.module_of w) s.tables)

unfoldable pub widget_run : Component → List WidgetCall → Option Component
widget_run s [] = some s
widget_run s (c ∷ cs) = and_then (widget_step s c) (λ u. widget_run u cs)

-- A widget is loaded when it is new, and unloaded if it has a module.
abbrev pub IsAllowed : Component → WidgetCall → Type 0
IsAllowed s (load w env p) =
    (s.module_of w ≡ none) × IsWidget p × HasData env p × AllocatesGraphs env
IsAllowed s (unload w) = (k : ℕ) × (s.module_of w ≡ some k)

-- Each call of a sequence is allowed when it is made.
abbrev pub AreAllowed : Component → List WidgetCall → Type 0
AreAllowed s [] = Unit
AreAllowed s (c ∷ cs) =
    IsAllowed s c × ((u : Component) → widget_step s c ≡ some u → AreAllowed u cs)

-- Consistent tables, in which every widget that points to a module has one of its own, whose data can
-- be freed.
pub record IsComponent (s : Component) : Type 0 where
  pub tables : IsTables s.tables
  pub linked : HasGraphs s.tables
  pub held : (w k : ℕ) → s.module_of w ≡ some k → (y : ModuleEntry) × (s.tables.modules k ≡ some y)
  pub freeable : (w k : ℕ) → s.module_of w ≡ some k → is_bad (s.priv_data k) ≡ false
  pub apart : (v w k : ℕ) → s.module_of v ≡ some k → s.module_of w ≡ some k → v ≡ w

-- A widget that points to a module is the one that was changed, or pointed to it before.
update_inv :
    (f : ℕ → Option ℕ) (w v : ℕ) {k : ℕ} (o : Option ℕ)
    → update f w o v ≡ some k
    → ((w ≡ v) × (o ≡ some k)) ⊎ (f v ≡ some k)
update_inv f w v o e = elim (Bool-cases (w == v)) [
  | inl same ↦ inl ((==_iff w v).0 same, rw same at e)
  | inr other ↦ inr (rw other at e)
]

not_other : (m k : ℕ) → some m ≡ some k → (m == k) ≡ false → ⊥
not_other m k e other = let same = (==_iff m k).1 (ground (arith, e)) in cc

after_load-IsComponent :
    (s : Component) (w : ℕ) (r : TplgResult (ℕ × PrivData))
    → IsComponent s
    → Ends r (LoadedData s.tables) (Grows s.tables)
    → Sat (after_load s w r) IsComponent
after_load-IsComponent s w fault h e = e
after_load-IsComponent s w endless h e = e
after_load-IsComponent s w (err n t) h (is, l, keeps) = record {
  tables = is;
  linked = l;
  held = λ v k at_v. let (y, there) = h.held v k at_v in (y, keeps k y there);
  freeable = h.freeable;
  apart = h.apart;
}
after_load-IsComponent s w (ok (m, d) t) h (((is, l, keeps), (fresh, (z, here))), good) =
    let not_held : (v k : ℕ) → some m ≡ some k → s.module_of v ≡ some k → ⊥ =
      λ v k e at_v. let (y, there) = h.held v k at_v in cc in
    record {
      tables = is;
      linked = l;
      held = λ v k at_v. elim (update_inv s.module_of w v (some m) at_v) [
        | inl (same, e) ↦ (z, cc)
        | inr old ↦ let (y, there) = h.held v k old in (y, keeps k y there)
      ];
      freeable = λ v k at_v. elim (Bool-cases (m == k)) [
        | inl same ↦ rw same good
        | inr other ↦ elim (update_inv s.module_of w v (some m) at_v) [
          | inl (same, e) ↦ absurd (not_other m k e other)
          | inr old ↦ rw other (h.freeable v k old)
        ]
      ];
      apart = λ u v k at_u at_v. elim (update_inv s.module_of w u (some m) at_u) [
        | inl (a, e) ↦ elim (update_inv s.module_of w v (some m) at_v) [
          | inl (b, d) ↦ sym a ∙ b
          | inr old ↦ absurd (not_held v k e old)
        ]
        | inr old ↦ elim (update_inv s.module_of w v (some m) at_v) [
          | inl (b, d) ↦ absurd (not_held u k d old)
          | inr older ↦ h.apart u v k old older
        ]
      ];
    }

-- The tables after an unload of the module m of the widget w.
unload-IsComponent :
    (s : Component) (w m : ℕ) (t : Tables)
    → IsComponent s
    → s.module_of w ≡ some m
    → Unloaded s.tables m t
    → IsComponent (record s { tables = t; module_of = update s.module_of w none })
unload-IsComponent s w m t h at_w (is, l, gone) = record {
  tables = is;
  linked = l;
  held = λ v k at_v. elim (Bool-cases (w == v)) [
    | inl same ↦ absurd (cc (rw same at at_v))
    | inr other ↦
        let old : s.module_of v ≡ some k = rw other at at_v in
        let (y, there) = h.held v k old in
        let kept : (m == k) ≡ false = elim (Bool-cases (m == k)) [
          | inl e ↦
              let w_v = h.apart w v k (at_w ∙ ap some ((==_iff m k).0 e)) old in
              absurd (cc ((==_iff w v).1 w_v))
          | inr ne ↦ ne
        ] in
        (y, gone k ∙ rw kept there)
  ];
  freeable = λ v k at_v. elim (update_inv s.module_of w v none at_v) [
    | inl (a, e) ↦ absurd (cc)
    | inr old ↦ h.freeable v k old
  ];
  apart = λ u v k at_u at_v. elim (update_inv s.module_of w u none at_u) [
    | inl (a, e) ↦ absurd (cc)
    | inr old ↦ elim (update_inv s.module_of w v none at_v) [
      | inl (b, d) ↦ absurd (cc)
      | inr older ↦ h.apart u v k old older
    ]
  ];
}

after_unload-IsComponent :
    (s : Component) (w m : ℕ) (r : TplgResult (Unit {0}))
    → IsComponent s
    → s.module_of w ≡ some m
    → Ends r (λ _. Unloaded s.tables m) (Unloaded s.tables m)
    → Sat (after_unload s w r) IsComponent
after_unload-IsComponent s w m (ok x t) h at_w u = unload-IsComponent s w m t h at_w u
after_unload-IsComponent s w m (err n t) h at_w u = unload-IsComponent s w m t h at_w u
after_unload-IsComponent s w m fault h at_w u = u
after_unload-IsComponent s w m endless h at_w u = u

widget_step-IsComponent :
    (s : Component) (c : WidgetCall)
    → IsComponent s
    → IsAllowed s c
    → Sat (widget_step s c) IsComponent
unfolding widget_step
widget_step-IsComponent s (load w env p) h (new, is, has, works) =
    after_load-IsComponent s w (load_module_common env p s.tables) h
      (load_module_common-IsTables env p s.tables is has works h.tables h.linked)
widget_step-IsComponent s (unload w) h (m, at_w) =
    let (y, there) = h.held w m at_w in
    rw at_w (
      after_unload-IsComponent s w m (unload_module (s.priv_data m) (some m) s.tables) h at_w (
        unload_module-IsTables s.tables (s.priv_data m) m (h.freeable w m at_w) h.tables h.linked
          there))

pub widget_run-IsComponent :
    (s : Component) (cs : List WidgetCall)
    → IsComponent s
    → AreAllowed s cs
    → Sat (widget_run s cs) IsComponent
unfolding widget_run
widget_run-IsComponent s [] h all = h
widget_run-IsComponent s (c ∷ cs) h (one, later) =
    and_then-Sat_at (widget_step s c) (λ u. widget_run u cs) IsComponent IsComponent
      (widget_step-IsComponent s c h one) (λ u e is. widget_run-IsComponent u cs is (later u e))

abbrev pub no_component : Component
no_component = record { tables = no_tables; priv_data = λ k. no_data; module_of = λ w. none }
