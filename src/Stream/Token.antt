-- ===== src/Stream/Token.antt =====
-- The USB token between the DAI drivers and the QMI handler, and the stream identifier in an IOVA:
-- upstream-src/sound/usb/qcom/qc_audio_offload.c, source-reference/kernel/qdsp6/q6afe.c.
use audioreach_usb_offload_r.Prelude.{ℕ, ◌+◌, ◌*◌, ◌/◌, ◌^◌, ◌<◌, ◌≡◌, ◌↔◌, arith, bit_or-disjoint}
use audioreach_usb_offload_r.Iova.{u64}
use audioreach_usb_offload_r.Stream.{
  token_direction, token_dev_num, token_card_num, usb_dev_token, handler_card_num,
  response_card_num, prepend_sid_to_iova, iova_mask,
}

usb_dev_token_lem :
    (card pcm : ℕ) → card < 65536 → pcm < 256 → usb_dev_token card pcm ≡ pcm * 256 + card * 65536
unfolding usb_dev_token
usb_dev_token_lem card pcm c p =
    rw (bit_or-disjoint 16 (pcm * 2 ^ 8) card (omega arith)) (omega arith)

-- The handler reads back the card and the PCM device that the DAI drivers put into the token, with
-- playback as the direction, for card and device numbers of one byte; and the two places that read
-- the card number agree on it.
pub usb_dev_token-decode :
    (card pcm : ℕ)
    → card < 256
    → pcm < 256
    → (handler_card_num (usb_dev_token card pcm) ≡ card)
      × (response_card_num (usb_dev_token card pcm) ≡ card)
      × (token_dev_num (usb_dev_token card pcm) ≡ pcm)
      × (token_direction (usb_dev_token card pcm) ≡ 0)
unfolding handler_card_num response_card_num
usb_dev_token-decode card pcm c p = omega (arith, usb_dev_token_lem card pcm (omega arith) p)

-- The two readings of the card number agree exactly on tokens whose card number fits a byte.
pub handler_card_num_iff :
    (usb_token : ℕ)
    → (handler_card_num usb_token ≡ response_card_num usb_token) ↔ (token_card_num usb_token < 256)
unfolding handler_card_num response_card_num
handler_card_num_iff usb_token = (λ h. omega arith, λ h. omega arith)

-- For an address and a stream identifier of 32 bits each, both come back from the prepended
-- address: the lower half is the address, the upper half the identifier.
pub iova_mask-prepend :
    (iova sid : ℕ)
    → iova < 4294967296
    → sid < 4294967296
    → (iova_mask (prepend_sid_to_iova iova sid) ≡ iova)
      × (prepend_sid_to_iova iova sid / 4294967296 ≡ sid)
unfolding prepend_sid_to_iova iova_mask
iova_mask-prepend iova sid i s =
    let e : u64 (sid * 2 ^ 32) ≡ sid * 2 ^ 32 = omega arith in
    rw (e, bit_or-disjoint 32 iova sid i) (omega arith)
