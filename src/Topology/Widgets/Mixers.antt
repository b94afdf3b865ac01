-- ===== src/Topology/Widgets/Mixers.antt =====
-- What the mixer controls of source-reference/kernel/qdsp6/topology.c connect.
use audioreach_usb_offload_r.Prelude.{
  ℕ, ◌≡◌, refl, ◌&&◌, inl, inr, Option, some, ◌==◌, if◌then◌else◌, Bool-cases,
}
use audioreach_usb_offload_r.Topology.Tables.{GraphEntry, Tables}
use audioreach_usb_offload_r.Topology.Tables.Unloads.{Ends}
use audioreach_usb_offload_r.Topology.Widgets.{
  Control, connect_sub_graphs, is_vmixer_connected, put_audio_mixer, get_audio_mixer,
}

-- The value of the control n1 in the mixer n2 after the control m1 of the mixer m2 was set to `value`,
-- if it was `before` until then.
abbrev pub read_back : Control → Control → ℕ → Control → Control → Option ℕ → Option ℕ
read_back m1 m2 value n1 n2 before =
    if m2.graph_id == n2.graph_id
    then some (
        if value == 0
        then (if 0 == n2.module_instance_id && 0 == n1.module_instance_id then 1 else 0)
        else (if m2.module_instance_id == n2.module_instance_id
              && m1.module_instance_id == n1.module_instance_id
            then 1
            else 0))
    else before

-- A graph has one input: where the graph of a mixer is there, setting one of its controls succeeds.
-- After a value that is not 0 exactly the controls with the same two modules read as 1 for this graph, so
-- that any other is off again; after 0 none does, but those whose modules are both unset. The controls
-- of other graphs read as before.
pub put_audio_mixer-get :
    (t : Tables) (m1 m2 n1 n2 : Control) (value : ℕ) {g : GraphEntry}
    → t.graphs m2.graph_id ≡ some g
    → Ends
        (put_audio_mixer m1 m2 value t)
        (λ _ u. get_audio_mixer n1 n2 u ≡ read_back m1 m2 value n1 n2 (get_audio_mixer n1 n2 t))
        (λ _. ⊥)
unfolding put_audio_mixer get_audio_mixer connect_sub_graphs is_vmixer_connected
put_audio_mixer-get t m1 m2 n1 n2 value {g} at_g =
    rw (at_g, Ends)
      (elim (Bool-cases (m2.graph_id == n2.graph_id)) [
        | inl e ↦
            rw (e, get_audio_mixer, is_vmixer_connected)
              (elim (Bool-cases (value == 0)) [ inl z ↦ rw z refl | inr z ↦ rw z refl ])
        | inr e ↦ rw (e, get_audio_mixer, is_vmixer_connected) refl
      ])
