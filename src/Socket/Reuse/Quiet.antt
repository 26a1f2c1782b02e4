-- ===== src/Socket/Reuse/Quiet.antt =====
-- The set-up receives nothing.
use linux_network_programmin.Base.{
  ℕ, ◌≡◌, refl, ap, ◌∙◌, ℤ, pos, negsuc, is_neg, is_nonzero, [], ◌∷◌, List, Option, none, some,
  if◌then◌else◌,
}
use linux_network_programmin.Sys.{
  Kernel, Event, Trace, M, pure, ◌>>◌, checked, report_error, freeaddrinfo, close, getprotobyname,
  getaddrinfo, socket, setsockopt, listen, bind,
}
use linux_network_programmin.Sys.Partial.{Partial, Partial-bind, Partial-if, Partial-checked}
use linux_network_programmin.Socket.Port.{tcp_port, port_text}
use linux_network_programmin.Socket.Listen.{bind_first}
use linux_network_programmin.Socket.Reuse.{
  Variant, simple, threaded, listen_stage, bind_stage, socket_result, resolve_result,
  protocol_result, open_reusable,
}
use linux_network_programmin.Session.Quiet.{forsaken}

abbrev pub Same : {A : Type 0} → Trace → A → Trace → Type 0
Same t a u = forsaken u ≡ forsaken t

abbrev pub IsQuiet : (ℕ → M (Unit {0})) → Type 0
IsQuiet release = (fd : ℕ) (t : Trace) → Partial (Same t) (release fd t)

pub simple-IsQuiet : IsQuiet simple.release
unfolding simple close freeaddrinfo
simple-IsQuiet fd t = refl

pub threaded-IsQuiet : IsQuiet threaded.release
unfolding threaded close freeaddrinfo
threaded-IsQuiet fd t = refl

module _ (os : Kernel) where
  bind_first-Same :
      (fd : ℕ) (addrs : List ℕ) (rc : ℤ) (t : Trace)
      → Partial (Same t) (bind_first os fd addrs rc t)
  unfolding bind_first bind
  bind_first-Same fd [] rc t = refl
  bind_first-Same fd (a ∷ addrs) rc t =
      let rc' = os.on_bind t fd a in
      Partial-if (Same t) (is_nonzero rc') _ _ _
        (λ _. bind_first-Same fd addrs rc' (Event.bind fd a rc' ∷ t)) (λ _. refl)

  module _ (v : Variant) (quiet : IsQuiet v.release) where
    release-Same :
        (fd : ℕ) (t u : Trace)
        → forsaken u ≡ forsaken t
        → Partial (Same {A = Option ℕ} t) ((do v.release fd; pure none) u)
    release-Same fd t u e =
        Partial-bind (Same u) (Same t) (v.release fd) _ u (quiet fd u) (λ _ w k. k ∙ e)

    listen_stage-Same :
        (fd : ℕ) (t u : Trace) → forsaken u ≡ forsaken t → Partial (Same t) (listen_stage os v fd u)
    unfolding listen_stage listen report_error
    listen_stage-Same fd t u e =
        Partial-if (Same t) (is_neg (os.on_listen u fd v.backlog)) _ _ _
          (λ _. release-Same fd t _ e) (λ _. e)

    bind_stage-Same :
        (fd : ℕ) (addrs : List ℕ) (t u : Trace)
        → forsaken u ≡ forsaken t
        → Partial (Same t) (bind_stage os v fd addrs u)
    unfolding bind_stage setsockopt report_error
    bind_stage-Same fd addrs t u e =
        Partial-bind (Same t) (Same t)
          (if is_neg rc then report_error "Server setsockopt() failed" else pure tt) _
          (Event.setsockopt fd rc ∷ u)
          (Partial-if (Same t) (is_neg rc) _ _ (Event.setsockopt fd rc ∷ u) (λ _. e) (λ _. e))
          (λ _ w k.
            Partial-bind (Same w) (Same t) (bind_first os fd addrs rc) _ w
              (bind_first-Same fd addrs rc w)
              (λ rc' x h.
                Partial-if (Same t) (is_nonzero rc') _ _ x (λ _. release-Same fd t _ (h ∙ k))
                  (λ _. listen_stage-Same fd t x (h ∙ k))))
      where
        rc : ℤ
        rc = os.on_setsockopt u fd

    -- From any trace, the set-up calls `recv` on no socket that could hang up.
    pub open_reusable-Same : (t : Trace) → Partial (Same t) (open_reusable os v t)
    unfolding open_reusable getprotobyname getaddrinfo report_error socket freeaddrinfo
    open_reusable-Same t = protocol (os.on_getprotobyname t)
      where
        made :
            (addrs : List ℕ) (r : ℤ) (u : Trace)
            → forsaken u ≡ forsaken t
            → Partial (Same t) (socket_result os v addrs r (Event.socket r ∷ u))
        made addrs (negsuc n) u e = e
        made addrs (pos fd) u e = bind_stage-Same fd addrs t _ e

        resolved :
            (r : Option (List ℕ)) (u : Trace)
            → forsaken u ≡ forsaken t
            → Partial (Same t) (resolve_result os v r u)
        resolved none u e = e
        resolved (some []) u e = tt
        resolved (some (a ∷ addrs)) u e = made (a ∷ addrs) (os.on_socket u) u e

        protocol :
            (r : Option ℕ) → Partial (Same t) (protocol_result os v r (Event.getprotobyname r ∷ t))
        protocol none = refl
        protocol (some proto) =
            Partial-bind (λ _ u. u ≡ Event.getprotobyname (some proto) ∷ t) (Same t)
              (checked (port_text tcp_port)) _ _
              (Partial-checked (λ _ u. u ≡ Event.getprotobyname (some proto) ∷ t)
                (port_text tcp_port) _ (λ _. refl))
              (λ port u e. resolved (os.on_getaddrinfo u none port) _ (ap forsaken e))
