-- ===== src/Media/Layout.antt =====
-- The commands of upstream-src/sound/soc/qcom/qdsp6/audioreach.c, each by itself: how its parameters lie.
use audioreach_usb_offload_r.Prelude.{
  Sat, and_then-Sat, All, ℕ, zero, suc, ◌+◌, ◌*◌, ◌≤◌, ◌≡◌, refl, ◌∙◌, inl, inr, ◌⊎◌, Option, none,
  some, List, [], ◌∷◌, ◌++◌, ◌==◌, length, arith, Bool-cases,
}
use audioreach_usb_offload_r.Media.{
  Field, word, byte, bytes, Param, ConfigCommand, set_cfg, set_data, Codec, pcm, mp3, aac, flac,
  opus_raw, Config, MediaModule, param_data_size, channels,
}
use audioreach_usb_offload_r.Media.Params.{
  display_port, usb, codec_dma, u32_param, mfc, i2s, logging, gain_set, pcm_format,
  compr_media_format, shmem_command, shmem_pcm, vi_channels, speaker_protection_vi,
}
use audioreach_usb_offload_r.Media.Dispatch.{
  MediaEnv, Sent, send, send_both, rejected, shmem_format,
}

-- From `at` to `end` the parameters lie one after another, where the DSP looks for them, and what is
-- written into each lies in the size that its header gives.
abbrev pub Consecutive : ℕ → ℕ → List Param → Type 0
Consecutive at end [] = at ≡ end
Consecutive at end (p ∷ ps) =
    (p.offset ≡ at)
    × (bytes p.body ≤ p.param_size)
    × Consecutive (at + param_data_size + p.param_size) end ps

-- The payload that is allocated holds the command, and nothing else.
abbrev pub IsLaidOut : ConfigCommand → Type 0
IsLaidOut (set_cfg size ps) = Consecutive 0 size ps
IsLaidOut (set_data size d) = length d ≡ size

abbrev pub AreLaidOut : Sent → Type 0
AreLaidOut s = All IsLaidOut s.commands

pub send-AreLaidOut :
    (env : MediaEnv) (i : ℕ) (cmd : ConfigCommand) → IsLaidOut cmd → AreLaidOut (send env i cmd)
send-AreLaidOut env i cmd h = elim (Bool-cases (env.memory i)) [
  | inl e ↦ rw e (h, tt)
  | inr e ↦ rw e tt
]

pub All-append {ℓ κ} :
    {A : Type ℓ} (P : A → Type κ) (xs ys : List A) → All P xs → All P ys → All P (xs ++ ys)
All-append P [] ys a b = b
All-append P (x ∷ xs) ys (p, a) b = (p, All-append P xs ys a b)

pub send_both-AreLaidOut :
    (env : MediaEnv) (a b : ConfigCommand)
    → IsLaidOut a
    → IsLaidOut b
    → AreLaidOut (send_both env a b)
send_both-AreLaidOut env a b h k = elim (Bool-cases ((send env 0 a).rc == 0)) [
  | inl e ↦ rw e (
      All-append IsLaidOut (send env 0 a).commands (send env 1 b).commands
        (send-AreLaidOut env 0 a h) (send-AreLaidOut env 1 b k))
  | inr e ↦ rw e (send-AreLaidOut env 0 a h)
]

-- n channels are there, in as many fields of the width that they have.
pub channels-bytes :
    (width : ℕ) (field : ℕ → Field) (n : ℕ) (map : List ℕ)
    → ((v : ℕ) (fs : List Field) → bytes (field v ∷ fs) ≡ width + bytes fs)
    → n ≤ length map
    → Sat (channels field n map) (λ fs. bytes fs ≡ n * width)
unfolding channels
channels-bytes width field zero map w h = omega arith
channels-bytes width field (suc n) [] w h = absurd (omega arith)
channels-bytes width field (suc n) (c ∷ map) w h =
    and_then-Sat (channels field n map) (λ fs. some (field c ∷ fs)) _ _
      (channels-bytes width field n map w (omega arith)) (λ fs e. w c fs ∙ grind (arith, e))

pub vi_channels-bytes :
    (n : ℕ) (map : List ℕ) → n ≤ length map → Sat (vi_channels n map) (λ fs. bytes fs ≡ 8 * n)
unfolding vi_channels
vi_channels-bytes zero map h = refl
vi_channels-bytes (suc n) [] h = absurd (omega arith)
vi_channels-bytes (suc n) (c ∷ map) h =
    and_then-Sat (vi_channels n map) _ _ _ (vi_channels-bytes n map (omega arith))
      (λ fs e. omega (arith, e))

pub display_port-IsLaidOut : (m : MediaModule) (c : Config) → IsLaidOut (display_port m c)
unfolding display_port
display_port-IsLaidOut m c = omega arith

pub usb-IsLaidOut : (m : MediaModule) (c : Config) → IsLaidOut (usb m c)
unfolding usb
usb-IsLaidOut m c = omega arith

pub codec_dma-IsLaidOut : (m : MediaModule) (c : Config) → IsLaidOut (codec_dma m c)
unfolding codec_dma
codec_dma-IsLaidOut m c = omega arith

pub u32_param-IsLaidOut : (m : MediaModule) (id v : ℕ) → IsLaidOut (u32_param m id v)
unfolding u32_param
u32_param-IsLaidOut m id v = omega arith

pub i2s-IsLaidOut : (m : MediaModule) (c : Config) → IsLaidOut (i2s m c)
unfolding i2s
i2s-IsLaidOut m c = omega arith

pub logging-IsLaidOut : (m : MediaModule) → IsLaidOut (logging m)
unfolding logging
logging-IsLaidOut m = omega arith

pub gain_set-IsLaidOut : (m : MediaModule) → IsLaidOut (gain_set m)
unfolding gain_set
gain_set-IsLaidOut m = omega arith

pub mfc-IsLaidOut :
    (m : MediaModule) (c : Config) → c.num_channels ≤ length c.channel_map → Sat (mfc m c) IsLaidOut
unfolding mfc
mfc-IsLaidOut m c h =
    and_then-Sat (channels word c.num_channels c.channel_map) _ _ IsLaidOut
      (channels-bytes 2 word c.num_channels c.channel_map (λ v fs. refl) h)
      (λ fs e. (refl, omega (arith, e), omega arith))

pub pcm_format-IsLaidOut :
    (m : MediaModule) (c : Config)
    → c.num_channels ≤ length c.channel_map
    → Sat (pcm_format m c) IsLaidOut
unfolding pcm_format
pcm_format-IsLaidOut m c h =
    and_then-Sat (channels byte c.num_channels c.channel_map) _ _ IsLaidOut
      (channels-bytes 1 byte c.num_channels c.channel_map (λ v fs. refl) h)
      (λ fs e. (refl, omega (arith, e), omega arith))

pub speaker_protection_vi-IsLaidOut :
    (m : MediaModule) (c : Config)
    → c.num_channels ≤ length c.channel_map
    → Sat (speaker_protection_vi m c) IsLaidOut
unfolding speaker_protection_vi
speaker_protection_vi-IsLaidOut m c h =
    and_then-Sat (vi_channels c.num_channels c.channel_map) _ _ IsLaidOut
      (vi_channels-bytes c.num_channels c.channel_map h) (λ fs e. omega (arith, e))

-- A result that has a property, if there is one.
abbrev pub SatOr {ℓ} : {A : Type ℓ} → Option A → (A → Type 0) → Type 0
SatOr none P = Unit
SatOr (some a) P = P a

abbrev pub compr_size : Codec → ℕ
compr_size mp3 = 28
compr_size aac = 24
compr_size flac = 32
compr_size opus_raw = 40
compr_size _ = 0

-- The bytes of the format that is written for a codec.
pub compr_media_format-bytes :
    (c : Config) (k : Codec) → SatOr (compr_media_format c k) (λ fs. bytes fs ≡ compr_size k)
unfolding compr_media_format
compr_media_format-bytes c pcm = tt
compr_media_format-bytes c mp3 = refl
compr_media_format-bytes c aac = refl
compr_media_format-bytes c flac = refl
compr_media_format-bytes c opus_raw = refl
compr_media_format-bytes c Codec.other = tt

pub shmem_command-IsLaidOut :
    (m : MediaModule) (c : Config) (body : List Field)
    → bytes body ≤ 28 + c.num_channels ⊎ bytes body ≤ 32
    → IsLaidOut (shmem_command m c body)
shmem_command-IsLaidOut m c body (inl h) = (refl, omega (arith, h), omega arith)
shmem_command-IsLaidOut m c body (inr h) = (refl, omega (arith, h), omega arith)

pub compr-AreLaidOut :
    (env : MediaEnv) (m : MediaModule) (c : Config) (k : Codec) (o : Option (List Field))
    → compr_size k ≤ 32
    → SatOr o (λ fs. bytes fs ≡ compr_size k)
    → Sat
        (elim o [ none ↦ some rejected | some body ↦ some (send env 0 (shmem_command m c body)) ])
        AreLaidOut
compr-AreLaidOut env m c k none le h = tt
compr-AreLaidOut env m c k (some body) le h =
    send-AreLaidOut env 0 (shmem_command m c body)
      (shmem_command-IsLaidOut m c body (inr (omega (arith, h, le))))

pub shmem_pcm-bytes :
    (c : Config)
    → c.num_channels ≤ length c.channel_map
    → Sat (shmem_pcm c) (λ fs. bytes fs ≤ 28 + c.num_channels)
unfolding shmem_pcm
shmem_pcm-bytes c h =
    and_then-Sat (channels byte c.num_channels c.channel_map) _ _ _
      (channels-bytes 1 byte c.num_channels c.channel_map (λ v fs. refl) h)
      (λ fs e. omega (arith, e))

pub shmem_format-AreLaidOut :
    (env : MediaEnv) (m : MediaModule) (c : Config) (k : Codec)
    → compr_size k ≤ 32
    → c.num_channels ≤ length c.channel_map
    → Sat (shmem_format env m c k) AreLaidOut
unfolding shmem_format
shmem_format-AreLaidOut env m c pcm le h =
    and_then-Sat (shmem_pcm c) _ (λ fs. bytes fs ≤ 28 + c.num_channels) AreLaidOut
      (shmem_pcm-bytes c h)
      (λ fs e.
        send-AreLaidOut env 0 (shmem_command m c fs) (shmem_command-IsLaidOut m c fs (inl e)))
shmem_format-AreLaidOut env m c mp3 le h =
    compr-AreLaidOut env m c mp3 _ le (compr_media_format-bytes c mp3)
shmem_format-AreLaidOut env m c aac le h =
    compr-AreLaidOut env m c aac _ le (compr_media_format-bytes c aac)
shmem_format-AreLaidOut env m c flac le h =
    compr-AreLaidOut env m c flac _ le (compr_media_format-bytes c flac)
shmem_format-AreLaidOut env m c opus_raw le h = absurd (omega arith)
shmem_format-AreLaidOut env m c Codec.other le h =
    compr-AreLaidOut env m c Codec.other _ le (compr_media_format-bytes c Codec.other)
