-- ===== src/Media/Fits.antt =====
-- The commands of upstream-src/sound/soc/qcom/qdsp6/audioreach.c fit the packets that are allocated for them.
use audioreach_usb_offload_r.Prelude.{
  zero, suc, Sat, and_then, and_then-Sat, All, ℕ, ◌+◌, ◌≤◌, ◌≡◌, refl, true, false, inl, inr,
  Option, some, List, [], ◌∷◌, ltb, if◌then◌else◌, length, arith, Bool-cases,
}
use audioreach_usb_offload_r.Media.{
  bytes, ConfigCommand, set_cfg, opus_raw, Config, MediaModule, PrivateData, param_data_size,
}
use audioreach_usb_offload_r.Media.Params.{
  mfc, pcm_format, compr_media_format, speaker_protection_vi,
}
use audioreach_usb_offload_r.Media.Dispatch.{
  copied, MediaEnv, send, enomem, pcm_set_media_format, shmem_format, shmem_set_media_format,
  mfc_set_media_format, sp_vi_set_media_format, set_module_config, Kind, data_logging, pcm_module,
  display_port_sink, usb_audio, smecns_v2, i2s_module, wr_shared_mem_ep, gain, codec_dma_module,
  sal, mfc_module, gapless, speaker_protection, protection_vi, unknown, kind_of, set_kind,
  set_media_format,
}
use audioreach_usb_offload_r.Media.Layout.{
  IsLaidOut, AreLaidOut, send-AreLaidOut, send_both-AreLaidOut, display_port-IsLaidOut,
  usb-IsLaidOut, codec_dma-IsLaidOut, u32_param-IsLaidOut, i2s-IsLaidOut, logging-IsLaidOut,
  gain_set-IsLaidOut, mfc-IsLaidOut, pcm_format-IsLaidOut, speaker_protection_vi-IsLaidOut,
  compr_size, shmem_format-AreLaidOut,
}

-- What some kinds of module need: private data for SMECNS, with as many bytes as their size says, and
-- another codec than OPUS for the shared memory module.
abbrev pub Configures : Kind → MediaModule → Config → Type 0
Configures smecns_v2 m c =
    (d : PrivateData) × (m.private_data ≡ some d) × (d.size ≤ length d.bytes_there)
Configures wr_shared_mem_ep m c = compr_size c.codec ≤ 32
Configures _ m c = Unit

length-copied : (n : ℕ) (bs : List ℕ) → n ≤ length bs → Sat (copied n bs) (λ r. length r ≡ n)
unfolding copied
length-copied zero bs le = refl
length-copied (suc n) [] le = absurd (omega arith)
length-copied (suc n) (b ∷ bs) le =
    and_then-Sat (copied n bs) (λ r. some (b ∷ r)) (λ r. length r ≡ n) (λ r. length r ≡ suc n)
      (length-copied n bs (omega arith)) (λ r e. omega (arith, e))

-- A command that is made if there is memory for it.
made-AreLaidOut :
    (env : MediaEnv) (cmd : Option ConfigCommand)
    → Sat cmd IsLaidOut
    → Sat
        (if env.memory 0
          then and_then cmd (λ k. some (send env 0 k))
          else some (record { commands = []; rc = enomem }))
        AreLaidOut
made-AreLaidOut env cmd h = elim (Bool-cases (env.memory 0)) [
  | inr e ↦ rw (e, Sat) tt
  | inl e ↦
      rw (e, Sat)
        (and_then-Sat cmd (λ k. some (record { commands = k ∷ []; rc = env.answer 0 })) IsLaidOut
          AreLaidOut h (λ k is. (is, tt)))
]

module _ (env : MediaEnv) (m : MediaModule) (c : Config)
    (h : c.num_channels ≤ length c.channel_map) where
  pcm_set-AreLaidOut : Sat (pcm_set_media_format env m c) AreLaidOut
  unfolding pcm_set_media_format
  pcm_set-AreLaidOut = elim (Bool-cases (ltb 4 c.num_channels)) [
    | inl e ↦ rw (e, Sat) tt
    | inr e ↦ rw (e, Sat) (made-AreLaidOut env (pcm_format m c) (pcm_format-IsLaidOut m c h))
  ]

  shmem_set-AreLaidOut : compr_size c.codec ≤ 32 → Sat (shmem_set_media_format env m c) AreLaidOut
  unfolding shmem_set_media_format
  shmem_set-AreLaidOut le = elim (Bool-cases (ltb 4 c.num_channels)) [
    | inl e ↦ rw (e, Sat) tt
    | inr e ↦
        rw (e, Sat)
          (elim (Bool-cases (env.memory 0)) [
            | inr f ↦ rw (f, Sat) tt
            | inl f ↦ rw (f, Sat) (shmem_format-AreLaidOut env m c c.codec le h)
          ])
  ]

  sp_vi_set-AreLaidOut : Sat (sp_vi_set_media_format env m c) AreLaidOut
  unfolding sp_vi_set_media_format
  sp_vi_set-AreLaidOut = elim (Bool-cases (ltb 2 c.num_channels)) [
    | inl e ↦ rw (e, Sat) tt
    | inr e ↦
        rw (e, Sat)
          (made-AreLaidOut env (speaker_protection_vi m c) (speaker_protection_vi-IsLaidOut m c h))
  ]

  set_kind-AreLaidOut : (k : Kind) → Configures k m c → Sat (set_kind env k m c) AreLaidOut
  unfolding set_kind mfc_set_media_format set_module_config
  set_kind-AreLaidOut data_logging a =
      send_both-AreLaidOut env _ _ (u32_param-IsLaidOut m 0x08001026 1) (logging-IsLaidOut m)
  set_kind-AreLaidOut pcm_module a = pcm_set-AreLaidOut
  set_kind-AreLaidOut display_port_sink a = send-AreLaidOut env 0 _ (display_port-IsLaidOut m c)
  set_kind-AreLaidOut usb_audio a = send-AreLaidOut env 0 _ (usb-IsLaidOut m c)
  set_kind-AreLaidOut smecns_v2 (d, e, le) = rw e (
      made-AreLaidOut env _ (
        and_then-Sat (copied d.size d.bytes_there) _ (λ bs. length bs ≡ d.size) IsLaidOut
          (length-copied d.size d.bytes_there le) (λ bs len. len)))
  set_kind-AreLaidOut i2s_module a = send-AreLaidOut env 0 _ (i2s-IsLaidOut m c)
  set_kind-AreLaidOut wr_shared_mem_ep a = shmem_set-AreLaidOut a
  set_kind-AreLaidOut gain a = send-AreLaidOut env 0 _ (gain_set-IsLaidOut m)
  set_kind-AreLaidOut codec_dma_module a = send-AreLaidOut env 0 _ (codec_dma-IsLaidOut m c)
  set_kind-AreLaidOut sal a =
      send_both-AreLaidOut env _ _ (u32_param-IsLaidOut m 0x08001016 c.bit_width)
        (u32_param-IsLaidOut m 0x0800101E 1)
  set_kind-AreLaidOut mfc_module a = made-AreLaidOut env (mfc m c) (mfc-IsLaidOut m c h)
  set_kind-AreLaidOut gapless a = send-AreLaidOut env 0 _ (u32_param-IsLaidOut m 0x0800114C 150)
  set_kind-AreLaidOut speaker_protection a =
      send-AreLaidOut env 0 _ (u32_param-IsLaidOut m 0x080011e9 0)
  set_kind-AreLaidOut protection_vi a = sp_vi_set-AreLaidOut
  set_kind-AreLaidOut unknown a = tt

-- To configure a module whose channels are in the map, where SMECNS has all of its private data and the
-- shared memory module does not get OPUS: nothing faults, and in every command that is sent the
-- parameters lie one after another, each written within the size in its header, and together they
-- fill exactly the payload that is allocated.
pub set_media_format-AreLaidOut :
    (env : MediaEnv) (m : MediaModule) (c : Config)
    → c.num_channels ≤ length c.channel_map
    → Configures (kind_of m.module_id) m c
    → Sat (set_media_format env m c) AreLaidOut
unfolding set_media_format
set_media_format-AreLaidOut env m c h a = set_kind-AreLaidOut env m c h (kind_of m.module_id) a

-- A command of one parameter that is written 8 bytes behind the end of its payload.
abbrev pub Overruns : ConfigCommand → Type 0
Overruns (set_cfg size (p ∷ [])) = p.offset + param_data_size + bytes p.body ≡ size + 8
Overruns _ = ⊥

-- The shared memory module gets OPUS in a packet that is 8 bytes too short for the format that is
-- written into it, whenever the packet can be allocated and there are at most four channels.
pub set_media_format-opus :
    (env : MediaEnv) (m : MediaModule) (c : Config)
    → kind_of m.module_id ≡ wr_shared_mem_ep
    → c.codec ≡ opus_raw
    → c.num_channels ≤ 4
    → env.memory 0 ≡ true
    → Sat (set_media_format env m c) (λ s. All Overruns s.commands × (length s.commands ≡ 1))
unfolding set_media_format set_kind shmem_set_media_format shmem_format compr_media_format
set_media_format-opus env m c is_shmem is_opus le works =
    let few : ltb 4 c.num_channels ≡ false = ground arith in
    rw (is_shmem, few, works, is_opus, works, Sat) ((omega arith, tt), refl)
