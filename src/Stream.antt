-- ===== src/Stream.antt =====
-- The request of the audio DSP, taken apart: the pure helpers of
-- upstream-src/sound/usb/qcom/qc_audio_offload.c that decode and check what the QMI stream request
-- asks for.
pub mod Interval
pub mod Token
pub mod Length
mod Examples
use audioreach_usb_offload_r.Prelude.{
  ℕ, zero, suc, ◌+◌, ◌-◌, ◌*◌, ◌/◌, ◌%◌, ◌^◌, Bool, true, false, not, ◌&&◌, ◌||◌, Option, none,
  some, List, [], ◌∷◌, leb, ltb, ◌==◌, if◌then◌else◌,
}
use Prim.Native.Nat.{bit_or}
use audioreach_usb_offload_r.Iova.{page_size, u64}

-- An `int` that a function returns: a number, or the negative of an errno.
pub data Ret : Type 0 where
  ok : ℕ → Ret
  err : ℕ → Ret

abbrev pub einval : ℕ
einval = 22

abbrev pub enodev : ℕ
enodev = 19

abbrev pub enomem : ℕ
enomem = 12

abbrev pub ebusy : ℕ
ebusy = 16

abbrev pub u8 : ℕ → ℕ
u8 n = n % 256

abbrev pub u32 : ℕ → ℕ
u32 n = n % 4294967296

-- `enum usb_device_speed` of the kernel, in its order.
pub data UsbSpeed : Type 0 where
  unknown low full high wireless super super_plus : UsbSpeed

-- `speed >= USB_SPEED_HIGH`
abbrev pub at_least_high : UsbSpeed → Bool
at_least_high unknown = false
at_least_high low = false
at_least_high full = false
at_least_high _ = true

-- `enum usb_qmi_audio_device_speed_enum_v01`
pub data QmiSpeed : Type 0 where
  invalid_v01 low_v01 full_v01 high_v01 super_v01 super_plus_v01 : QmiSpeed

unfoldable pub get_speed_info : UsbSpeed → QmiSpeed
get_speed_info low = low_v01
get_speed_info full = full_v01
get_speed_info high = high_v01
get_speed_info super = super_v01
get_speed_info super_plus = super_plus_v01
get_speed_info unknown = invalid_v01
get_speed_info wireless = invalid_v01

-- BUS_INTERVAL_FULL_SPEED, BUS_INTERVAL_HIGHSPEED_AND_ABOVE and MAX_BINTERVAL_ISOC_EP
abbrev pub bus_interval_full_speed : ℕ
bus_interval_full_speed = 1000

abbrev pub bus_interval_highspeed_and_above : ℕ
bus_interval_highspeed_and_above = 125

abbrev pub max_binterval_isoc_ep : ℕ
max_binterval_isoc_ep = 16

-- `ffs` of the C library: the position of the lowest bit that is set, counted from 1, or 0.
unfoldable pub ffs_bits : ℕ → ℕ → ℕ
ffs_bits zero x = 0
ffs_bits (suc bits) x =
    let later = ffs_bits bits (x / 2) in if x == 0 then 0 else if x % 2 == 1 then 1 else later + 1

unfoldable pub ffs : ℕ → ℕ
unfolding ffs_bits
ffs x = ffs_bits 32 x

abbrev pub bus_interval : UsbSpeed → ℕ
bus_interval speed =
    if at_least_high speed then bus_interval_highspeed_and_above else bus_interval_full_speed

-- The tests, over the remainder, `binterval` and what is left of the multiple above that bit.
pub interval_of : ℕ → ℕ → ℕ → Ret
interval_of remainder binterval above =
    if not (remainder == 0)
    then err einval
    else if binterval == 0 || ltb max_binterval_isoc_ep binterval
    then err einval
    else if not (above == 0)
    then err einval
    else ok (binterval - 1)

unfoldable pub get_data_interval_from_si : UsbSpeed → ℕ → Ret
unfolding interval_of
get_data_interval_from_si speed service_interval =
    let bus_intval = bus_interval speed in
    let bus_intval_mult = service_interval / bus_intval in
    let binterval = ffs bus_intval_mult in
    interval_of (service_interval % bus_intval) binterval (bus_intval_mult / 2 ^ binterval)

-- `usb_token`: the card number in the upper 16 bits, the PCM device and the direction in a byte each
-- (QMI_STREAM_REQ_CARD_NUM_MASK, QMI_STREAM_REQ_DEV_NUM_MASK, QMI_STREAM_REQ_DIRECTION).
abbrev pub token_direction : ℕ → ℕ
token_direction usb_token = u8 usb_token

abbrev pub token_dev_num : ℕ → ℕ
token_dev_num usb_token = usb_token / 256 % 256

abbrev pub token_card_num : ℕ → ℕ
token_card_num usb_token = usb_token / 65536 % 65536

-- The token that the DSP is told: `afe_port_send_usb_dev_param` of q6afe.c and `q6usb_hw_params` of
-- q6apm-lpass-dais.c both compute `(card << 16) | (pcm << 8)`, the second into a `u32`.
unfoldable pub usb_dev_token : ℕ → ℕ → ℕ
usb_dev_token card_idx pcm_idx = u32 (bit_or (pcm_idx * 2 ^ 8) (card_idx * 2 ^ 16))

-- `handle_uaudio_stream_req` keeps the card number in a `u8`; `prepare_qmi_response` in an `int`.
unfoldable pub handler_card_num : ℕ → ℕ
handler_card_num usb_token = u8 (token_card_num usb_token)

unfoldable pub response_card_num : ℕ → ℕ
response_card_num usb_token = token_card_num usb_token

-- PREPEND_SID_TO_IOVA and IOVA_MASK.
unfoldable pub prepend_sid_to_iova : ℕ → ℕ → ℕ
prepend_sid_to_iova iova sid = bit_or iova (u64 (sid * 2 ^ 32))

unfoldable pub iova_mask : ℕ → ℕ
iova_mask iova = iova % 4294967296

abbrev pub max_xfer_buff_len : ℕ
max_xfer_buff_len = 24 * page_size

-- The length that `uaudio_transfer_buffer_setup` allocates for a requested one, in `u32` arithmetic.
unfoldable pub xfer_buf_len : ℕ → ℕ
xfer_buf_len requested =
    let len = if requested == 0 then page_size else requested in
    let mult = len / page_size in
    let remainder = len % page_size in
    let rounded = u32 (u32 (mult * page_size) + (if remainder == 0 then 0 else page_size)) in
    if ltb max_xfer_buff_len rounded then max_xfer_buff_len else rounded
