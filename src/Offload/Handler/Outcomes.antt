-- ===== src/Offload/Handler/Outcomes.antt =====
-- How `handle_uaudio_stream_req` of upstream-src/sound/usb/qcom/qc_audio_offload.c answers requests at
-- the edges of what it checks.
use audioreach_usb_offload_r.Prelude.{
  ℕ, zero, suc, ◌+◌, ◌*◌, ◌^◌, ◌<◌, ◌≤◌, ◌≡◌, refl, sym, ap, ◌∙◌, Bool, true, false, Option, none,
  some, List, [], ◌∷◌, get_elem?, leb, ◌==◌, arith, All,
}
use audioreach_usb_offload_r.Stream.{
  Ret, ok, err, ebusy, token_direction, token_dev_num, token_card_num, handler_card_num,
  response_card_num, get_data_interval_from_si, bus_interval,
}
use audioreach_usb_offload_r.Stream.Interval.{get_data_interval_from_si_iff}
use audioreach_usb_offload_r.Offload.{UaudioQmiDev, IntfInfo, sndrv_cards}
use audioreach_usb_offload_r.Offload.Setup.{is_err}
use audioreach_usb_offload_r.Offload.Request.{
  Subs, Chip, find_substream, info_scan, info_idx_from_ifnum, enable_audio_stream,
}
use audioreach_usb_offload_r.Offload.Handler.{
  Service, Req, HandlerEnv, Reply, fault, replied, open_subs, ifnum, has_sync, enable_stream,
  disable_stream, disable_info, cache_ctrl, with_infos, with_entry, open_in,
}
use audioreach_usb_offload_r.Offload.Handler.Dispatch.{
  check_interval, with_subs, suspended, interval_of_req, is_success,
}
use audioreach_usb_offload_r.Offload.Handler.Requests.{find_in-set_opened}

find_substream-open :
    (chip : Option Chip) (pcm direction : ℕ) (v : Bool) (subs : Subs)
    → find_substream chip pcm direction ≡ some subs
    → find_substream (open_in pcm direction v chip) pcm direction
      ≡ some (record subs { opened = v })
unfolding find_substream
find_substream-open none pcm direction v subs h = cc
find_substream-open (some chip) pcm direction v subs h =
    ground (arith, find_in-set_opened chip.pcm_list pcm direction v subs)

open_subs-found :
    (s : Service) (req : Req) (v : Bool) (subs : Subs)
    → let n = handler_card_num req.usb_token in
      let dev_num = token_dev_num req.usb_token in
      let direction = token_direction req.usb_token in
      find_substream (s.cards n).chip dev_num direction ≡ some subs
      → find_substream ((open_subs s req v).cards n).chip dev_num direction
        ≡ some (record subs { opened = v })
unfolding open_subs
open_subs-found s req v subs h =
    let n = handler_card_num req.usb_token in
    let e : (n == n) ≡ true = ground arith in
    rw e (find_substream-open (s.cards n).chip _ _ v subs h)

-- An enable request for a substream that can be opened, with a service interval that is refused,
-- is answered with the error and leaves the substream marked as opened: it is then found as
-- opened, and a later enable request for it is answered as busy.
pub with_subs_keeps_opened :
    (s : Service) (q r : UaudioQmiDev) (req later : Req) (subs : Subs) (env env' : HandlerEnv)
    (si i e : ℕ)
    → req.enable ≡ true
    → req.service_interval ≡ some si
    → later.enable ≡ true
    → later.usb_token ≡ req.usb_token
    → subs.wired ≡ true
    → subs.opened ≡ false
    → suspended (s.cards (handler_card_num req.usb_token)).chip ≡ false
    → info_idx_from_ifnum (s.cards (handler_card_num req.usb_token)).dev (ifnum subs) true ≡ some i
    → get_data_interval_from_si subs.substream.speed si ≡ err e
    → find_substream
        (s.cards (handler_card_num req.usb_token)).chip
        (token_dev_num req.usb_token)
        (token_direction req.usb_token)
      ≡ some subs
    → let t = open_subs s req true in
      (with_subs s q req subs env ≡ replied t (err e))
      × (find_substream
            (t.cards (handler_card_num later.usb_token)).chip
            (token_dev_num later.usb_token)
            (token_direction later.usb_token)
          ≡ some (record subs { opened = true }))
      × (with_subs t r later (record subs { opened = true }) env' ≡ replied t (err ebusy))
unfolding with_subs check_interval
with_subs_keeps_opened s q r req later subs env env' si i e en siv len tok w o sus idx bad found = (
  ground (arith, en, siv, w, o, sus, idx, bad),
  rw tok (open_subs-found s req true subs found),
  ground (arith, len, w),
)

-- For an enable request whose token has a card number above 255, once the endpoints are open, the
-- array of cards is indexed with the whole number, which lies outside of it.
pub enable_stream_fault :
    (s : Service) (q : UaudioQmiDev) (req : Req) (subs : Subs) (info_idx : ℕ) (env : HandlerEnv)
    → 256 ≤ token_card_num req.usb_token
    → is_err (enable_audio_stream (has_sync subs) env.enabling).1 ≡ false
    → enable_stream s q req subs info_idx env ≡ fault
unfolding enable_stream response_card_num
enable_stream_fault s q req subs info_idx env big on =
    let f : leb sndrv_cards (token_card_num req.usb_token) ≡ true = ground arith in rw (on, f)

-- No entry among the first n is for the interface.
info_scan-none :
    (n i : ℕ) (infos : List IntfInfo) (intf_num : ℕ)
    → All (λ info. (info.intf_num == intf_num) ≡ false) infos
    → info_scan n i infos intf_num false ≡ none
unfolding info_scan
info_scan-none zero i infos intf_num h = refl
info_scan-none (suc n) i [] intf_num h = refl
info_scan-none (suc n) i (info ∷ infos) intf_num h =
    ground (arith, info_scan-none n (i + 1) infos intf_num h.1)

-- A disable request without a service interval, for an interface that no entry of the table is
-- for, takes the entry at -EINVAL: an access outside the table.
pub with_subs_disable_fault :
    (s : Service) (q : UaudioQmiDev) (req : Req) (subs : Subs) (env : HandlerEnv)
    (infos : List IntfInfo)
    → req.enable ≡ false
    → req.service_interval ≡ none
    → subs.wired ≡ true
    → (s.cards (handler_card_num req.usb_token)).dev.info ≡ some infos
    → All (λ info. (info.intf_num == ifnum subs) ≡ false) infos
    → with_subs s q req subs env ≡ fault
unfolding with_subs check_interval disable_stream info_idx_from_ifnum
with_subs_disable_fault s q req subs env infos off no_si w e h =
    let dev = (s.cards (handler_card_num req.usb_token)).dev in
    let scan = info_scan-none dev.num_intf 0 infos (ifnum subs) h in
    ground (arith, off, no_si, w, e, scan)

-- The return value is passed through a disable request, and the interval is not looked at again.
with_ret : ℕ → Reply → Reply
with_ret k fault = fault
with_ret k (replied t r) = replied t (ok k)

abbrev pub naming : Req → ℕ → Req
naming req si = record req { service_interval = some si }

with_entry-ret :
    (s : Service) (q : UaudioQmiDev) (req : Req) (i : ℕ) (infos : List IntfInfo)
    (o : Option IntfInfo) (env : HandlerEnv) (si k : ℕ)
    → with_entry s q (naming req si) i infos o (ok k) env
      ≡ with_ret k (with_entry s q req i infos o (ok 0) env)
unfolding disable_info open_subs with_ret
with_entry-ret s q req i infos none env si k = refl
with_entry-ret s q req i infos (some info) env si k = refl

with_infos-ret :
    (s : Service) (q : UaudioQmiDev) (req : Req) (i : ℕ) (o : Option (List IntfInfo))
    (env : HandlerEnv) (si k : ℕ)
    → with_infos s q (naming req si) i o (ok k) env ≡ with_ret k (with_infos s q req i o (ok 0) env)
unfolding with_ret
with_infos-ret s q req i none env si k = refl
with_infos-ret s q req i (some infos) env si k =
    with_entry-ret s q req i infos (get_elem? infos i) env si k

disable_stream-ret :
    (s : Service) (q : UaudioQmiDev) (req : Req) (idx : Option ℕ) (env : HandlerEnv) (si k : ℕ)
    → disable_stream s q (naming req si) idx (ok k) env
      ≡ with_ret k (disable_stream s q req idx (ok 0) env)
unfolding disable_stream with_ret
disable_stream-ret s q req none env si k = refl
disable_stream-ret s q req (some i) env si k =
    with_infos-ret s q req i (s.cards (handler_card_num req.usb_token)).dev.info env si k

check_disable :
    (s : Service) (q : UaudioQmiDev) (req : Req) (subs : Subs) (idx : Option ℕ) (env : HandlerEnv)
    (ret : Ret)
    → req.enable ≡ false
    → interval_of_req subs req.service_interval ≡ ret
    → is_err ret ≡ false
    → check_interval s q req subs idx env
      ≡ disable_stream (cache_ctrl s (handler_card_num req.usb_token)) q req idx ret env
unfolding check_interval
check_disable s q req subs idx env ret off e good = rw (e, good, off) refl

-- Where a disable request that names no service interval succeeds, one that names an interval of 2
-- ^ k bus intervals with 0 < k < 16 does the same to the state, but returns k, which is reported
-- as a failure.
pub disable_interval_fails :
    (s t : Service) (q : UaudioQmiDev) (req : Req) (subs : Subs) (idx : Option ℕ) (env : HandlerEnv)
    (k : ℕ)
    → req.enable ≡ false
    → req.service_interval ≡ none
    → 0 < k
    → k < 16
    → check_interval s q req subs idx env ≡ replied t (ok 0)
    → (check_interval s q (naming req (bus_interval subs.substream.speed * 2 ^ k)) subs idx env
        ≡ replied t (ok k))
      × (is_success (ok 0) ≡ true)
      × (is_success (ok k) ≡ false)
unfolding is_success with_ret
disable_interval_fails s t q req subs idx env k off no_si pos lt h =
    let si = bus_interval subs.substream.speed * 2 ^ k in
    let i = (get_data_interval_from_si_iff subs.substream.speed si k).1 (lt, refl) in
    let card = handler_card_num req.usb_token in
    let plain =
      check_disable s q req subs idx env (ok 0) off (ap (interval_of_req subs) no_si) refl in
    (
      check_disable s q (naming req si) subs idx env (ok k) off i refl
          ∙ disable_stream-ret (cache_ctrl s card) q req idx env si k
          ∙ ap (with_ret k) (sym plain ∙ h),
      refl,
      ground arith,
    )
