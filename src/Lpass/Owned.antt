-- ===== src/Lpass/Owned.antt =====
-- Who refers to the graph of a back-end DAI of upstream-src/sound/soc/qcom/qdsp6/q6apm-lpass-dais.c over
-- the life of its streams.
use audioreach_usb_offload_r.Prelude.{
  and_then, Sat, Sat-map, ℕ, inl, inr, refl, true, false, some, List, [], ◌∷◌, if◌then◌else◌,
}
use audioreach_usb_offload_r.Stream.{Ret, ok, err}
use audioreach_usb_offload_r.Apm.{Direction, playback, capture}
use audioreach_usb_offload_r.Apm.Graphs.{CmdEnv, OpenEnv}
use audioreach_usb_offload_r.Lpass.{
  Lpass, Session, prepare_all, after_startup, sessions, PrepareEnv, stop_port, close_port,
  open_port, dai_shutdown, dai_startup, dai_prepare,
}
use audioreach_usb_offload_r.Lpass.Ports.{
  Idle, Holds, Apart, stops, closes, Opened, opens, and_then-Apart,
}
use audioreach_usb_offload_r.Lpass.Prepare.{Quiet, Owned, Stepped, prepares}

stepped-Owned : (dir : Direction) (n : ℕ) (r : Lpass × Ret) → Stepped dir n true r → Owned dir r.0 n
stepped-Owned dir n (t, ok i) h = inr h
stepped-Owned dir n (t, err e) h = inl h

prepares_all :
    (s : Lpass) (n : ℕ) (dir : Direction) (envs : List PrepareEnv)
    → Owned dir s n
    → Sat (prepare_all s n dir envs) (λ t. Owned dir t n × Apart n s t)
unfolding prepare_all
prepares_all s n dir [] h = (h, λ m ne. (refl, refl))
prepares_all s n dir (env ∷ rest) h =
    and_then-Apart n s (dai_prepare s n dir env) (λ r. prepare_all r.0 n dir rest)
      (Stepped dir n true) (λ r. r.0) (λ t. t) _ (prepares s n dir env h)
      (λ r k. prepares_all r.0 n dir rest (stepped-Owned dir n r k))

closes_held :
    (s : Lpass) (n : ℕ) (x : CmdEnv)
    → Holds s n false
    → Sat (if (s.dais n).graph then close_port s n x else some s) (λ t. Idle t n × Apart n s t)
closes_held s n x h = rw (h.0, Sat) (closes s n x h)

shuts_down :
    (s : Lpass) (n : ℕ) (dir : Direction) (stop close : CmdEnv)
    → Owned dir s n
    → Sat (dai_shutdown s n stop close) (λ t. Idle t n × Apart n s t)
unfolding dai_shutdown
shuts_down s n playback stop close (inl h) = rw (h.1, h.0, Sat) (h, λ m ne. (refl, refl))
shuts_down s n capture stop close (inl h) = rw (h.1, Sat) (closes_held s n close h)
shuts_down s n dir stop close (inr h) =
    rw (h.1, Sat)
      (and_then-Apart n s (stop_port s n stop)
        (λ t. if (t.dais n).graph then close_port t n close else some t) (λ t. Holds t n false)
        (λ t. t) (λ t. t) _ (stops s n true stop h) (λ t k. closes_held t n close k))

-- After startup.
Begun : Direction → ℕ → Lpass × Ret → Type 0
Begun dir n (t, ok i) = Quiet dir t n
Begun dir n (t, err e) = Idle t n

starts_up :
    (s : Lpass) (n : ℕ) (dir : Direction) (env : OpenEnv)
    → Idle s n
    → Sat (dai_startup s n dir env) (λ r. Begun dir n r × Apart n s r.0)
unfolding dai_startup Begun
starts_up s n playback env h = (h, λ m ne. (refl, refl))
starts_up s n capture env h =
    Sat-map (open_port s n env) (λ r q. (opened_begun r q.0, q.1)) (opens s n env h)
  where
    opened_begun : (r : Lpass × Ret) → Opened n r → Begun capture n r
    opened_begun (t, ok i) o = o
    opened_begun (t, err e) o = o

used_lem :
    (n : ℕ) (x : Session) (r : Lpass × Ret)
    → Begun x.dir n r
    → Sat (after_startup n x r) (λ t. Idle t n × Apart n r.0 t)
unfolding Begun
used_lem n x (s, err e) h = (h, λ m ne. (refl, refl))
used_lem n x (s, ok i) h =
    and_then-Apart n s (prepare_all s n x.dir x.prepares) (λ t. dai_shutdown t n x.stop x.close)
      (λ t. Owned x.dir t n) (λ t. t) (λ t. t) _ (prepares_all s n x.dir x.prepares (inl h))
      (λ t k. shuts_down t n x.dir x.stop x.close k)

-- The uses of a DAI one after another, from a DAI without a graph, each with any number of calls of
-- prepare between startup and shutdown, and with any outcome of every allocation and command: no
-- call is made on a null or a freed graph, afterwards the DAI has no graph and graph n does not
-- exist, and all other graphs and DAIs are as they were.
pub sessions-Idle :
    (s : Lpass) (n : ℕ) (xs : List Session)
    → Idle s n
    → Sat (sessions s n xs) (λ t. Idle t n × Apart n s t)
unfolding sessions
sessions-Idle s n [] h = (h, λ m ne. (refl, refl))
sessions-Idle s n (x ∷ xs) h =
    and_then-Apart n s (and_then (dai_startup s n x.dir x.opening) (after_startup n x))
      (λ t. sessions t n xs) (λ t. Idle t n) (λ t. t) (λ t. t) _
      (and_then-Apart n s (dai_startup s n x.dir x.opening) (after_startup n x) (Begun x.dir n)
        (λ r. r.0) (λ t. t) _ (starts_up s n x.dir x.opening h) (λ r k. used_lem n x r k))
      (λ t k. sessions-Idle t n xs k)
