-- ===== src/Stream/Length.antt =====
-- The buffer length of `uaudio_transfer_buffer_setup` in
-- upstream-src/sound/usb/qcom/qc_audio_offload.c.
use audioreach_usb_offload_r.Prelude.{ℕ, ◌+◌, ◌%◌, ◌<◌, ◌≤◌, ◌≡◌, ◌⊎◌, arith}
use audioreach_usb_offload_r.Iova.{page_size}
use audioreach_usb_offload_r.Stream.{max_xfer_buff_len, xfer_buf_len}

-- For a request of up to 2 ^ 32 - 4096 bytes the buffer is whole pages, at least one and at most
-- 24; it holds the request if that is at most 24 pages, with less than a page to spare unless the
-- request is empty.
pub xfer_buf_len_lem :
    (requested : ℕ)
    → requested ≤ 4294963200
    → (xfer_buf_len requested % page_size ≡ 0)
      × (page_size ≤ xfer_buf_len requested)
      × (xfer_buf_len requested ≤ max_xfer_buff_len)
      × ((max_xfer_buff_len < requested)
          ⊎ ((requested ≤ xfer_buf_len requested)
              × ((requested ≡ 0) ⊎ (xfer_buf_len requested < requested + page_size))))
unfolding xfer_buf_len
xfer_buf_len_lem requested h = ground arith

-- For a request above 2 ^ 32 - 4096 bytes that fits a `u32` the sum wraps around: the length is 0.
pub xfer_buf_len_wraps :
    (requested : ℕ) → 4294963200 < requested → requested < 4294967296 → xfer_buf_len requested ≡ 0
unfolding xfer_buf_len
xfer_buf_len_wraps requested lo hi = ground arith
