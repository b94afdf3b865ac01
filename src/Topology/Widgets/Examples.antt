-- ===== src/Topology/Widgets/Examples.antt =====
-- Two controls of one mixer (source-reference/kernel/qdsp6/topology.c).
use audioreach_usb_offload_r.Prelude.{ℕ, ◌≡◌, refl, none, some, if◌then◌else◌, ◌==◌}
use audioreach_usb_offload_r.Topology.Tables.{Tables, no_tables, empty_graph}
use audioreach_usb_offload_r.Topology.Tables.Unloads.{Ends}
use audioreach_usb_offload_r.Topology.Widgets.{Control, put_audio_mixer, get_audio_mixer}
use audioreach_usb_offload_r.Topology.Widgets.Mixers.{read_back, put_audio_mixer-get}

abbrev control : ℕ → Control
control i = record { graph_id = 5; sgid = 1; module_instance_id = i }

abbrev one_graph : Tables
one_graph = record no_tables { graphs = λ j. if j == 5 then some empty_graph else none }

put_audio_mixer-get_example :
    Ends
      (put_audio_mixer (control 24577) (control 24600) 1 one_graph)
      (λ _ u.
        get_audio_mixer (control 24578) (control 24600) u
        ≡ read_back
            (control 24577)
            (control 24600)
            1
            (control 24578)
            (control 24600)
            (get_audio_mixer (control 24578) (control 24600) one_graph))
      (λ _. ⊥)
put_audio_mixer-get_example =
    put_audio_mixer-get one_graph (control 24577) (control 24600) (control 24578) (control 24600) 1
      {g = empty_graph} refl
