-- ===== src/Stream/Examples.antt =====
-- The request decoder of upstream-src/sound/usb/qcom/qc_audio_offload.c at concrete requests.
use audioreach_usb_offload_r.Prelude.{ℕ, ◌%◌, ◌≤◌, ◌+◌, ◌⊎◌}
use audioreach_usb_offload_r.Stream.{max_xfer_buff_len, xfer_buf_len}
use audioreach_usb_offload_r.Iova.{page_size}
use audioreach_usb_offload_r.Stream.Length.{xfer_buf_len_lem}
use audioreach_usb_offload_r.Prelude.{◌*◌, ◌^◌, ◌<◌, ◌≡◌, ◌↔◌, refl, arith}
use audioreach_usb_offload_r.Stream.{
  high, full, bus_interval, ok, err, ffs, get_data_interval_from_si, token_direction, token_dev_num,
  usb_dev_token, handler_card_num, response_card_num,
}
use audioreach_usb_offload_r.Stream.Interval.{get_data_interval_from_si_iff}
use audioreach_usb_offload_r.Stream.Token.{usb_dev_token-decode}

one_ms : get_data_interval_from_si high 1000 ≡ ok 3
unfolding get_data_interval_from_si ffs
one_ms = refl

three_ms : get_data_interval_from_si full 3000 ≡ err 22
unfolding get_data_interval_from_si ffs
three_ms = refl

get_data_interval_from_si_iff_example :
    (get_data_interval_from_si high 1000 ≡ ok 3) ↔ ((3 < 16) × (1000 ≡ bus_interval high * 2 ^ 3))
get_data_interval_from_si_iff_example = get_data_interval_from_si_iff high 1000 3

usb_dev_token-decode_example :
    (handler_card_num (usb_dev_token 1 2) ≡ 1)
    × (response_card_num (usb_dev_token 1 2) ≡ 1)
    × (token_dev_num (usb_dev_token 1 2) ≡ 2)
    × (token_direction (usb_dev_token 1 2) ≡ 0)
usb_dev_token-decode_example = usb_dev_token-decode 1 2 (omega arith) (omega arith)

abbrev requested : ℕ
requested = 10000

xfer_buf_len_lem_example :
    (xfer_buf_len requested % page_size ≡ 0)
    × (page_size ≤ xfer_buf_len requested)
    × (xfer_buf_len requested ≤ max_xfer_buff_len)
    × ((max_xfer_buff_len < requested)
        ⊎ ((requested ≤ xfer_buf_len requested)
            × ((requested ≡ 0) ⊎ (xfer_buf_len requested < requested + page_size))))
xfer_buf_len_lem_example = xfer_buf_len_lem requested (omega arith)
