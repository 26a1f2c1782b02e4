-- ===== src/Sys/Tls.antt =====
-- The calls of OpenSSL, and what a trace leaves of its contexts and handles.
use native.Mathlib.Decide.{ℕ_discrete}
use mathlib.Core.List.{erase}
use mathlib.Core.Option
use linux_network_programmin.Base.{
  ℕ, suc, ◌-◌, ℤ, pos, ◌||◌, List, [], ◌∷◌, Option, some, take, length, leb, ◌==◌, if◌then◌else◌,
}
use linux_network_programmin.Sys.Types.{Event, Trace, Bytes, Kernel, ok, M}

unfoldable pub ssl_ctx_free : M (Unit {0})
ssl_ctx_free t = ok tt (Event.ssl_ctx_free ∷ t)

unfoldable pub ssl_set_fd : ℕ → ℕ → M (Unit {0})
ssl_set_fd handle fd t = ok tt (Event.ssl_set_fd handle fd ∷ t)

unfoldable pub ssl_shutdown : ℕ → M (Unit {0})
ssl_shutdown handle t = ok tt (Event.ssl_shutdown handle ∷ t)

unfoldable pub ssl_free : ℕ → M (Unit {0})
ssl_free handle t = ok tt (Event.ssl_free handle ∷ t)

module _ (os : Kernel) where
  unfoldable pub ssl_ctx_new : M (Option ℕ)
  ssl_ctx_new t = let r = os.on_ssl_ctx_new t in ok r (Event.ssl_ctx_new r ∷ t)

  unfoldable pub ssl_use_certificate : M ℤ
  ssl_use_certificate t =
      let r = os.on_ssl_use_certificate t in ok r (Event.ssl_use_certificate r ∷ t)

  unfoldable pub ssl_use_private_key : M ℤ
  ssl_use_private_key t =
      let r = os.on_ssl_use_private_key t in ok r (Event.ssl_use_private_key r ∷ t)

  unfoldable pub ssl_new : M (Option ℕ)
  ssl_new t = let r = os.on_ssl_new t in ok r (Event.ssl_new r ∷ t)

  unfoldable pub ssl_accept : ℕ → M ℤ
  ssl_accept handle t = let r = os.on_ssl_accept t handle in ok r (Event.ssl_accept handle r ∷ t)

  unfoldable pub ssl_connect : ℕ → M ℤ
  ssl_connect handle t = let r = os.on_ssl_connect t handle in ok r (Event.ssl_connect handle r ∷ t)

  -- At most `len` bytes; `none` for a result that is not positive.
  unfoldable pub ssl_read : ℕ → ℕ → M (Option Bytes)
  ssl_read handle len t =
      let r = Option.map (take len) (os.on_ssl_read t handle) in
      ok r (Event.ssl_read handle len r ∷ t)

  unfoldable pub ssl_write : ℕ → Bytes → M ℤ
  ssl_write handle bytes t =
      let r = os.on_ssl_write t handle bytes in ok r (Event.ssl_write handle bytes r ∷ t)

abbrev handle_changes : Event → List ℕ → List ℕ
handle_changes (Event.ssl_new (some handle)) handles = handle ∷ handles
handle_changes (Event.ssl_free handle) handles = erase ℕ_discrete handles handle
handle_changes _ handles = handles

-- The handles that were made and not freed.
abbrev pub open_handles : Trace → List ℕ
open_handles [] = []
open_handles (e ∷ t) = handle_changes e (open_handles t)

abbrev context_changes : Event → ℕ → ℕ
context_changes (Event.ssl_ctx_new (some context)) n = suc n
context_changes Event.ssl_ctx_free n = n - 1
context_changes _ n = n

-- How many contexts were made and not freed.
abbrev pub open_contexts : Trace → ℕ
open_contexts [] = 0
open_contexts (e ∷ t) = context_changes e (open_contexts t)

-- The clients that a server with room for `n` handles has no slot for, and those that came with
-- descriptor 0.
abbrev refuses : ℕ → Trace → Event → List ℕ → List ℕ
refuses n t (Event.accept l (pos fd)) fds =
    if fd == 0 || leb n (length (open_handles t)) then fd ∷ fds else fds
refuses n t _ fds = fds

abbrev pub refused : ℕ → Trace → List ℕ
refused n [] = []
refused n (e ∷ t) = refuses n t e (refused n t)
