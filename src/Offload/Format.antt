-- ===== src/Offload/Format.antt =====
-- The sample formats of upstream-src/sound/usb/qcom/qc_audio_offload.c: `enum usb_qmi_audio_format` is
-- its number, and `snd_pcm_format_t` one of the formats that `map_pcm_format` can return.
use audioreach_usb_offload_r.Prelude.{
  ℕ, zero, suc, ◌<◌, ◌≤◌, ◌≡◌, refl, sym, ap, ◌∙◌, Bool, true, ◌&&◌, Option, none, some, List, [],
  ◌∷◌, get_elem?, ◌==◌, arith, ==_iff,
}
use audioreach_usb_offload_r.Offload.Handler.{last_format}

pub data PcmFormat : Type 0 where
  s8 u8 s16_le s16_be u16_le u16_be s24_le s24_be u24_le u24_be : PcmFormat
  s24_3le s24_3be u24_3le u24_3be s32_le s32_be u32_le u32_be : PcmFormat

-- The cases of the switch, in the order of the enumeration.
abbrev formats : List PcmFormat
formats =
    s8 ∷ u8 ∷ s16_le ∷ s16_be ∷ u16_le ∷ u16_be ∷ s24_le ∷ s24_be ∷ u24_le ∷ u24_be ∷ s24_3le
    ∷ s24_3be ∷ u24_3le ∷ u24_3be ∷ s32_le ∷ s32_be ∷ u32_le ∷ u32_be ∷ []

abbrev or_s8 : Option PcmFormat → PcmFormat
or_s8 none = s8
or_s8 (some f) = f

unfoldable pub map_pcm_format : ℕ → PcmFormat
map_pcm_format fmt_received = or_s8 (get_elem? formats fmt_received)

-- The number that a format is received as.
number_of : PcmFormat → ℕ
number_of s8 = 0
number_of u8 = 1
number_of s16_le = 2
number_of s16_be = 3
number_of u16_le = 4
number_of u16_be = 5
number_of s24_le = 6
number_of s24_be = 7
number_of u24_le = 8
number_of u24_be = 9
number_of s24_3le = 10
number_of s24_3be = 11
number_of u24_3le = 12
number_of u24_3be = 13
number_of s32_le = 14
number_of s32_be = 15
number_of u32_le = 16
number_of u32_be = 17

all_below : ℕ → (ℕ → Bool) → Bool
all_below zero p = true
all_below (suc n) p = p n && all_below n p

all_below-true : (n : ℕ) (p : ℕ → Bool) (x : ℕ) → all_below n p ≡ true → x < n → p x ≡ true
unfolding all_below
all_below-true zero p x h lt = absurd (omega arith)
all_below-true (suc n) p x h lt = ground (arith, all_below-true n p x)

numbers : all_below 18 (λ n. number_of (map_pcm_format n) == n) ≡ true
unfolding all_below number_of map_pcm_format
numbers = refl

number_of-map_pcm_format : (n : ℕ) → n ≤ last_format → number_of (map_pcm_format n) ≡ n
number_of-map_pcm_format n h = (==_iff _ n).0 (all_below-true 18 _ n numbers (omega arith))

-- The formats that the handler lets through are told apart: no two of them are opened as the same PCM
-- format.
pub map_pcm_format_injective :
    (m n : ℕ) → m ≤ last_format → n ≤ last_format → map_pcm_format m ≡ map_pcm_format n → m ≡ n
map_pcm_format_injective m n h k e =
    sym (number_of-map_pcm_format m h) ∙ ap number_of e ∙ number_of-map_pcm_format n k
