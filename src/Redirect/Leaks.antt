-- ===== src/Redirect/Leaks.antt =====
-- What a request that is redirected leaves open, and how often it can be redirected.
use linux_network_programmin.Base.{
  ℕ, zero, suc, ◌+◌, ◌≤◌, ◌<◌, ◌≡◌, ap, ltb, arith, Bool-cases, inl, inr,
}
use linux_network_programmin.Sys.{Bytes, Kernel, ◌>>=◌, getprotobyname}
use linux_network_programmin.Sys.Partial.{Partial}
use linux_network_programmin.CString.{text}
use mathlib.Core.Path.{fun_ext}
use linux_network_programmin.Redirect.{
  max_redirection, Again, protocol_result, perform_http_request,
}

-- The recursion ends by the test of `redirect_count`: fuel for `max_redirection + 2` calls is
-- enough, and more changes nothing.
pub perform_http_request_fuel :
    (os : Kernel) (f g redirect_count : ℕ) (host path response : Bytes)
    → redirect_count ≤ max_redirection + 1
    → max_redirection + 1 < redirect_count + f
    → max_redirection + 1 < redirect_count + g
    → perform_http_request os f host path response redirect_count
      ≡ perform_http_request os g host path response redirect_count
unfolding perform_http_request
perform_http_request_fuel os zero g redirect_count host path response h p q = absurd (omega arith)
perform_http_request_fuel os (suc f) zero redirect_count host path response h p q =
    absurd (omega arith)
perform_http_request_fuel os (suc f) (suc g) redirect_count host path response h p q =
    elim (Bool-cases (ltb max_redirection redirect_count)) [
      | inl over ↦ rw (over, perform_http_request)
      | inr within ↦
          rw (within, perform_http_request)
            (ap
              (λ (again : Again).
                getprotobyname os >>= λ proto. protocol_result os proto again host path response)
              (fun_ext (λ new_host. fun_ext (λ new_response.
                perform_http_request_fuel os f g (redirect_count + 1) new_host (text "/")
                  new_response (ground arith) (omega arith) (omega arith)))))
    ]
