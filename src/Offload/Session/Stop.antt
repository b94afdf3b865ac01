-- ===== src/Offload/Session/Stop.antt =====
-- The end of the client's session in upstream-src/sound/usb/qcom/qc_audio_offload.c: the two QMI
-- callbacks and `qmi_stop_session`. `none` is a fault: an access through a pointer that is null or not
-- set.
use audioreach_usb_offload_r.Prelude.{
  ℕ, zero, suc, ◌-◌, Bool, false, not, ◌&&◌, Option, none, some, List, [], ◌∷◌, ◌==◌, if◌then◌else◌,
}
use audioreach_usb_offload_r.Sideband.{remove_endpoint, is_set}
use audioreach_usb_offload_r.Offload.{IntfInfo, sndrv_cards}
use audioreach_usb_offload_r.Offload.Request.{Chip, find_substream}
use audioreach_usb_offload_r.Offload.Handler.{Service, set_card}
use audioreach_usb_offload_r.Offload.Session.{set_in_use, cleanup_card}

-- `ep` of `qmi_stop_session`: it is not set before the first pipe, and stays as it is where a pipe is
-- 0. Removing an endpoint through it when it is not set or null faults.
abbrev next_ep : Option ℕ → ℕ → (ℕ → Option ℕ) → Option ℕ
next_ep ep pipe endpoint = if pipe == 0 then ep else endpoint pipe

abbrev remove_at : Service → ℕ → Option ℕ → Option Service
remove_at s n none = none
remove_at s n (some i) =
    let card = s.cards n in
    some (set_card s n (record card { side = (remove_endpoint card.side i).0 }))

abbrev release : ℕ → Option ℕ → Option Service → Option (Service × Option ℕ)
release n ep none = none
release n ep (some s) = some (set_card s n (record (s.cards n) { held = (s.cards n).held - 1 }), ep)

abbrev remove_next : Option Service → ℕ → Option ℕ → Option Service
remove_next none n ep = none
remove_next (some s) n ep = remove_at s n ep

abbrev is_live : Option Chip → Bool
is_live none = false
is_live (some chip) = not chip.shutdown

-- One entry in use of the table of card idx: both endpoints are removed, and the stream is disabled.
unfoldable pub stop_info :
    Service → ℕ → Option ℕ → (ℕ → Option ℕ) → IntfInfo → Option (Service × Option ℕ)
stop_info s idx ep endpoint info =
    let n = info.pcm_card_num in
    let data_ep = next_ep ep info.data_ep_pipe endpoint in
    let sync_ep = next_ep data_ep info.sync_ep_pipe endpoint in
    if is_set (find_substream (s.cards n).chip info.pcm_dev_num info.direction)
      && is_live (s.cards idx).chip
    then release n sync_ep (remove_next (remove_at s n data_ep) n sync_ep)
    else some (s, ep)

-- The entries of the table of card idx that are in use, of the first `num_intf`.
unfoldable pub stop_infos :
    ℕ → Service → ℕ → Option ℕ → (ℕ → Option ℕ) → List IntfInfo → Option (Service × Option ℕ)
unfolding stop_info
stop_infos zero s idx ep endpoint infos = some (s, ep)
stop_infos (suc k) s idx ep endpoint [] = some (s, ep)
stop_infos (suc k) s idx ep endpoint (info ∷ infos) =
    if not info.in_use
    then stop_infos k s idx ep endpoint infos
    else elim (stop_info s idx ep endpoint info) [
      | none ↦ none
      | some r ↦ stop_infos k r.0 idx r.1 endpoint infos
    ]

abbrev table_of : Option (List IntfInfo) → List IntfInfo
table_of none = []
table_of (some l) = l

-- After its entries a card is not in use any more; its chip's lock is taken and it is cleaned up.
abbrev close_card : ℕ → Option (Service × Option ℕ) → Option (Service × Option ℕ)
close_card idx none = none
close_card idx (some (s, ep)) =
    if not (is_set (s.cards idx).chip)
    then none
    else elim (cleanup_card (set_in_use s idx false) idx) [ none ↦ none | some t ↦ some (t, ep) ]

unfoldable pub stop_card : Service → ℕ → Option ℕ → (ℕ → Option ℕ) → Option (Service × Option ℕ)
unfolding stop_infos cleanup_card
stop_card s idx ep endpoint =
    let dev = (s.cards idx).dev in
    if not dev.in_use
    then some (s, ep)
    else close_card idx (stop_infos dev.num_intf s idx ep endpoint (table_of dev.info))

-- `qmi_stop_session`, over the first n cards.
unfoldable pub stop_cards : ℕ → Service → (ℕ → Option ℕ) → Option (Service × Option ℕ)
unfolding stop_card
stop_cards zero s endpoint = some (s, none)
stop_cards (suc n) s endpoint = elim (stop_cards n s endpoint) [
  | none ↦ none
  | some r ↦ stop_card r.0 n r.1 endpoint
]

unfoldable pub qmi_stop_session : Service → (ℕ → Option ℕ) → Option Service
unfolding stop_cards
qmi_stop_session s endpoint = elim (stop_cards sndrv_cards s endpoint) [
  | none ↦ none
  | some r ↦ some r.0
]

abbrev cleared : Option Service → Option Service
cleared none = none
cleared (some s) = some (record s { client_connected = false; client_node = 0; client_port = 0 })

-- `qmi_bye_cb`; `same_handle` says whether the callback is for the service's handle.
unfoldable pub qmi_bye : Service → Bool → ℕ → (ℕ → Option ℕ) → Option Service
unfolding qmi_stop_session
qmi_bye s same_handle node endpoint =
    if not same_handle
    then some s
    else if s.client_connected && s.client_node == node
    then cleared (qmi_stop_session s endpoint)
    else some s

-- `qmi_svc_disconnect_cb`
unfoldable pub qmi_svc_disconnect : Service → Bool → ℕ → ℕ → (ℕ → Option ℕ) → Option Service
unfolding qmi_stop_session
qmi_svc_disconnect s same_handle node port endpoint =
    if not same_handle
    then some s
    else if s.client_connected && s.client_node == node && s.client_port == port
    then cleared (qmi_stop_session s endpoint)
    else some s
