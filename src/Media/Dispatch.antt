-- ===== src/Media/Dispatch.antt =====
-- `audioreach_set_media_format` of upstream-src/sound/soc/qcom/qdsp6/audioreach.c: which commands a module
-- gets, and what is returned.
use audioreach_usb_offload_r.Prelude.{
  zero, suc, and_then, ℕ, Bool, Option, none, some, List, [], ◌∷◌, ◌++◌, ltb, ◌==◌, ◌||◌,
  if◌then◌else◌,
}
pub use audioreach_usb_offload_r.Stream.{einval, enomem}
use audioreach_usb_offload_r.Media.{
  ConfigCommand, set_data, Codec, pcm, Config, MediaModule, PrivateData,
}
use audioreach_usb_offload_r.Media.Params.{
  display_port, usb, codec_dma, u32_param, mfc, i2s, logging, gain_set, pcm_format,
  compr_media_format, shmem_command, shmem_pcm, speaker_protection_vi,
}

-- Whether there is memory for each packet, and what the DSP answers to it.
pub record MediaEnv : Type 0 where
  pub memory : ℕ → Bool
  pub answer : ℕ → ℕ

-- The commands that were sent and the errno, 0 for success.
pub record Sent : Type 0 where
  pub commands : List ConfigCommand
  pub rc : ℕ

abbrev pub send : MediaEnv → ℕ → ConfigCommand → Sent
send env i cmd =
    if env.memory i
    then record { commands = cmd ∷ []; rc = env.answer i }
    else record { commands = []; rc = enomem }

-- A command, and a second one if the first succeeds.
abbrev pub send_both : MediaEnv → ConfigCommand → ConfigCommand → Sent
send_both env a b =
    let first = send env 0 a in
    let second = send env 1 b in
    if first.rc == 0
    then record { commands = first.commands ++ second.commands; rc = second.rc }
    else first

abbrev pub rejected : Sent
rejected = record { commands = []; rc = einval }

-- `audioreach_pcm_set_media_format`
unfoldable pub pcm_set_media_format : MediaEnv → MediaModule → Config → Option Sent
pcm_set_media_format env m c =
    if ltb 4 c.num_channels
    then some rejected
    else if env.memory 0
    then and_then (pcm_format m c) (λ cmd. some (send env 0 cmd))
    else some (record { commands = []; rc = enomem })

-- The format that `audioreach_shmem_set_media_format` writes into its packet.
unfoldable pub shmem_format : MediaEnv → MediaModule → Config → Codec → Option Sent
shmem_format env m c pcm =
    and_then (shmem_pcm c) (λ body. some (send env 0 (shmem_command m c body)))
shmem_format env m c codec = elim (compr_media_format c codec) [
  | none ↦ some rejected
  | some body ↦ some (send env 0 (shmem_command m c body))
]

-- `audioreach_shmem_set_media_format`
unfoldable pub shmem_set_media_format : MediaEnv → MediaModule → Config → Option Sent
unfolding shmem_format
shmem_set_media_format env m c =
    if ltb 4 c.num_channels
    then some rejected
    else if env.memory 0
    then shmem_format env m c c.codec
    else some (record { commands = []; rc = enomem })

-- `audioreach_mfc_set_media_format`
unfoldable pub mfc_set_media_format : MediaEnv → MediaModule → Config → Option Sent
mfc_set_media_format env m c =
    if env.memory 0
    then and_then (mfc m c) (λ cmd. some (send env 0 cmd))
    else some (record { commands = []; rc = enomem })

-- `audioreach_speaker_protection_vi`
unfoldable pub sp_vi_set_media_format : MediaEnv → MediaModule → Config → Option Sent
sp_vi_set_media_format env m c =
    if ltb 2 c.num_channels
    then some rejected
    else if env.memory 0
    then and_then (speaker_protection_vi m c) (λ cmd. some (send env 0 cmd))
    else some (record { commands = []; rc = enomem })

-- `memcpy` of n bytes; `none` is a read behind the last of them.
unfoldable pub copied : ℕ → List ℕ → Option (List ℕ)
copied zero bs = some []
copied (suc n) [] = none
copied (suc n) (b ∷ bs) = and_then (copied n bs) (λ r. some (b ∷ r))

abbrev module_data : PrivateData → Option ConfigCommand
module_data d = and_then (copied d.size d.bytes_there) (λ bs. some (set_data d.size bs))

-- `audioreach_set_module_config`: as much of the private data as their size says.
unfoldable pub set_module_config : MediaEnv → MediaModule → Option Sent
unfolding copied
set_module_config env m = and_then m.private_data (λ d.
    if env.memory 0
    then and_then (module_data d) (λ cmd. some (send env 0 cmd))
    else some (record { commands = []; rc = enomem }))

-- The kinds of module that `audioreach_set_media_format` tells apart.
pub data Kind : Type 0 where
  data_logging pcm_module display_port_sink usb_audio smecns_v2 i2s_module wr_shared_mem_ep : Kind
  gain codec_dma_module sal mfc_module gapless speaker_protection protection_vi unknown : Kind

abbrev pub kind_of : ℕ → Kind
kind_of id =
    if id == 0x0700101A
    then data_logging
    else if (id == 0x07001005 || id == 0x07001004)
        || (id == 0x07001003 || (id == 0x07001009 || id == 0x07001008))
    then pcm_module
    else if id == 0x07001069
    then display_port_sink
    else if id == 0x0700104F || id == 0x07001050
    then usb_audio
    else if id == 0x07001031
    then smecns_v2
    else if id == 0x0700100B || id == 0x0700100A
    then i2s_module
    else if id == 0x07001000
    then wr_shared_mem_ep
    else if id == 0x07001002
    then gain
    else if id == 0x07001023 || id == 0x07001024
    then codec_dma_module
    else if id == 0x07001010
    then sal
    else if id == 0x07001015
    then mfc_module
    else if id == 0x0700104D
    then gapless
    else if id == 0x070010E2
    then speaker_protection
    else if id == 0x070010E3
    then protection_vi
    else unknown

unfoldable pub set_kind : MediaEnv → Kind → MediaModule → Config → Option Sent
unfolding pcm_set_media_format shmem_set_media_format mfc_set_media_format sp_vi_set_media_format
    set_module_config
set_kind env data_logging m c = some (send_both env (u32_param m 0x08001026 1) (logging m))
set_kind env pcm_module m c = pcm_set_media_format env m c
set_kind env display_port_sink m c = some (send env 0 (display_port m c))
set_kind env usb_audio m c = some (send env 0 (usb m c))
set_kind env smecns_v2 m c = set_module_config env m
set_kind env i2s_module m c = some (send env 0 (i2s m c))
set_kind env wr_shared_mem_ep m c = shmem_set_media_format env m c
set_kind env gain m c = some (send env 0 (gain_set m))
set_kind env codec_dma_module m c = some (send env 0 (codec_dma m c))
set_kind env sal m c =
    some (send_both env (u32_param m 0x08001016 c.bit_width) (u32_param m 0x0800101E 1))
set_kind env mfc_module m c = mfc_set_media_format env m c
set_kind env gapless m c = some (send env 0 (u32_param m 0x0800114C 150))
set_kind env speaker_protection m c = some (send env 0 (u32_param m 0x080011e9 0))
set_kind env protection_vi m c = sp_vi_set_media_format env m c
set_kind env unknown m c = some (record { commands = []; rc = 0 })

unfoldable pub set_media_format : MediaEnv → MediaModule → Config → Option Sent
unfolding set_kind
set_media_format env m c = set_kind env (kind_of m.module_id) m c
