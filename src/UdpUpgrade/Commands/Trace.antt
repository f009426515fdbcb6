-- ===== src/UdpUpgrade/Commands/Trace.antt =====
-- Parts of a list of calls out of udp_fw_upgrade.c: what is sent, what touches flash, which hooks
-- run, and what the boot loader is asked.
use iot_zephyr_app.Base.{
  ℕ, ◌≡◌, refl, ap, ◌∙◌, Bool, true, false, Option, none, some, List, [], ◌∷◌, ◌++◌, if◌then◌else◌,
  Bool-cases, inl, inr, append-nil, arith,
}
use iot_zephyr_app.UdpUpgrade.{
  Build, UdpFw, Answers, Effect, send, erase, img_init, img_write, img_flush, request_upgrade, hook,
}
use iot_zephyr_app.UdpUpgrade.Commands.{call_hook, udp_fw_reply}

abbrev pub is_send : Effect → Bool
is_send (send to bytes) = true
is_send _ = false

abbrev pub is_request : Effect → Bool
is_request (request_upgrade n) = true
is_request _ = false

abbrev pub is_hook : Effect → Bool
is_hook (hook h) = true
is_hook _ = false

-- Whatever reads or writes the image slot or the boot loader's state.
abbrev pub is_flash : Effect → Bool
is_flash (erase n) = true
is_flash img_init = true
is_flash (img_write bytes ok) = true
is_flash img_flush = true
is_flash (request_upgrade n) = true
is_flash _ = false

abbrev pub only : (Effect → Bool) → List Effect → List Effect
only p [] = []
only p (e ∷ es) = if p e then e ∷ only p es else only p es

pub only-append :
    (p : Effect → Bool) (es fs : List Effect) → only p (es ++ fs) ≡ only p es ++ only p fs
only-append p [] fs = refl
only-append p (e ∷ es) fs = elim (Bool-cases (p e)) [
  | inl kept ↦ rw kept (ap (◌∷◌ e) (only-append p es fs))
  | inr left ↦ rw left (only-append p es fs)
]

module _ (b : Build) (a : Answers) (s : UdpFw) (cmd : ℕ) (bytes : List ℕ) where
  pub only-reply_send : only is_send (udp_fw_reply b a s cmd bytes) ≡ udp_fw_reply b a s cmd bytes
  unfolding udp_fw_reply
  only-reply_send = ground arith

  pub only-reply_flash : only is_flash (udp_fw_reply b a s cmd bytes) ≡ []
  unfolding udp_fw_reply
  only-reply_flash = ground arith

  pub only-reply_hook : only is_hook (udp_fw_reply b a s cmd bytes) ≡ []
  unfolding udp_fw_reply
  only-reply_hook = ground arith

  pub only-reply_request : only is_request (udp_fw_reply b a s cmd bytes) ≡ []
  unfolding udp_fw_reply
  only-reply_request = ground arith

pub only-call_hook_send : (h : Option ℕ) → only is_send (call_hook h) ≡ []
only-call_hook_send none = refl
only-call_hook_send (some h) = refl

pub only-call_hook_flash : (h : Option ℕ) → only is_flash (call_hook h) ≡ []
only-call_hook_flash none = refl
only-call_hook_flash (some h) = refl

pub only-call_hook : (h : Option ℕ) → only is_hook (call_hook h) ≡ call_hook h
only-call_hook none = refl
only-call_hook (some h) = refl

pub only-call_hook_request : (h : Option ℕ) → only is_request (call_hook h) ≡ []
only-call_hook_request none = refl
only-call_hook_request (some h) = refl

pub ruleset trace = (
  only-append, only-reply_send, only-reply_flash, only-reply_hook, only-reply_request,
  only-call_hook_send, only-call_hook_flash, only-call_hook, only-call_hook_request, append-nil,
)
