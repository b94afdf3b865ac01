-- ===== src/Offload/Session/Pcms.antt =====
-- The PCM indexes that probe hands to the USB back end
-- (upstream-src/sound/usb/qcom/qc_audio_offload.c).
use audioreach_usb_offload_r.Prelude.{ℕ, ◌+◌, ◌≡◌, refl, List, [], ◌∷◌, ◌==◌, if◌then◌else◌, arith}
use audioreach_usb_offload_r.Offload.Request.{SndStream, get_pcm_num}
use audioreach_usb_offload_r.Offload.Session.{fill_avail_pcms}

-- The devices of the streams that can play.
unfoldable pub playback_devices : (SndStream → ℕ) → List SndStream → List ℕ
playback_devices device [] = []
playback_devices device (str ∷ rest) =
    if str.playback.ep_num == 0
    then playback_devices device rest
    else device str ∷ playback_devices device rest

none_left :
    (device : SndStream → ℕ) (l : List SndStream)
    → get_pcm_num l 0 ≡ 0
    → playback_devices device l ≡ []
unfolding get_pcm_num playback_devices
none_left device [] h = refl
none_left device (str ∷ l) h = ground (arith, none_left device l)

fill_from :
    (device : SndStream → ℕ) (n idx : ℕ) (l : List SndStream)
    → idx + get_pcm_num l 0 ≡ n
    → fill_avail_pcms device n idx l ≡ playback_devices device l
unfolding get_pcm_num fill_avail_pcms playback_devices
fill_from device n idx [] h = refl
fill_from device n idx (str ∷ l) h =
    ground (arith, fill_from device n idx l, fill_from device n (idx + 1) l, none_left device l)

-- With the number of streams that can play as the length of the array, it is filled with the
-- devices of exactly these streams, in order.
pub fill_avail_pcms_lem :
    (device : SndStream → ℕ) (l : List SndStream)
    → fill_avail_pcms device (get_pcm_num l 0) 0 l ≡ playback_devices device l
fill_avail_pcms_lem device l = fill_from device (get_pcm_num l 0) 0 l (omega arith)
