-- ===== src/Select/Scan.antt =====
-- The scan of the descriptors ends by its own test.
use linux_network_programmin.Base.{
  ℕ, zero, suc, ◌+◌, ◌≤◌, ◌<◌, ◌≡◌, refl, Bool-cases, inl, inr, ℤ, pos, negsuc, List, Option, none,
  some, arith, Bool, true, false, if◌then◌else◌, ◌==◌, ltb, leb,
}
use linux_network_programmin.Sys.{
  Kernel, Trace, Run, ok, fault, M, pure, ◌>>=◌, report_error, accept,
}
use linux_network_programmin.Sys.Partial.{Partial, Partial-bind, Partial-if}
use linux_network_programmin.Poll.{exchange}
use linux_network_programmin.Select.{
  Server, fd_setsize, fd_set, store, drop_client, stored, accepted, serve_listener, serve_client,
  scan,
}

-- After a step the largest descriptor still fits an `fd_set`.
abbrev Fits : Server → Trace → Type 0
Fits s t = s.global_max_fd < fd_setsize

leb-past : (i top : ℕ) → top < i → leb i top ≡ false
leb-past i top h = ground (arith, h)

anything : {A : Type 0} (r : Run A) → Partial (λ _ _. Unit {0}) r
anything (ok a t) = tt
anything fault = tt

bind-congr_if :
    {A B : Type 0} (Q : A → Trace → Type 0) (m : M A) (f g : A → M B) (t : Trace)
    → Partial Q (m t)
    → ((a : A) (t' : Trace) → Q a t' → f a t' ≡ g a t')
    → (m >>= f) t ≡ (m >>= g) t
bind-congr_if {A} {B} Q m f g t h k = go (m t) h
  where
    go :
        (r : Run A)
        → Partial Q r
        → ◌≡◌ {A = Run B}
            (elim r [ ok a t' ↦ f a t' | fault ↦ fault ])
            (elim r [ ok a t' ↦ g a t' | fault ↦ fault ])
    go (ok a t') q = k a t' q
    go fault q = refl

stored-Fits :
    (s : Server) (fd : ℕ) (r : Option (List ℕ)) (t : Trace)
    → s.global_max_fd < fd_setsize
    → Partial Fits (stored s fd r t)
unfolding stored fd_set
stored-Fits s fd none t h = h
stored-Fits s fd (some fds) t h =
    Partial-bind (λ _ _. fd < fd_setsize) Fits (fd_set fd s.master_set) _ t
      (Partial-if (λ _ _. fd < fd_setsize) (ltb fd fd_setsize) _ _ t (λ e. ground (arith, e))
        (λ e. tt))
      (λ set t' k. ground (arith, h, k))

accepted-Fits :
    (s : Server) (r : ℤ) (t : Trace) → s.global_max_fd < fd_setsize → Partial Fits (accepted s r t)
unfolding accepted report_error
accepted-Fits s (negsuc n) t h = h
accepted-Fits s (pos fd) t h = stored-Fits s fd (store s.fds_client fd) t h

module _ (os : Kernel) (sock : ℕ) where
  serve_client-Fits :
      (i : ℕ) (s : Server) (t : Trace)
      → s.global_max_fd < fd_setsize
      → Partial Fits (serve_client os sock i s t)
  unfolding serve_client drop_client
  serve_client-Fits i s t h =
      Partial-bind (λ _ _. Unit {0}) Fits (exchange os i) _ t (anything (exchange os i t))
        (λ gone t' _. next gone t')
    where
      next : (gone : Bool) (t' : Trace) → Fits (if gone then drop_client s i else s) t'
      next true t' = h
      next false t' = h

  step-Fits :
      (i : ℕ) (ready : ℕ → Bool) (s : Server) (t : Trace)
      → s.global_max_fd < fd_setsize
      → Partial Fits (
          (if ready i
              then (if i == sock then serve_listener os sock s else serve_client os sock i s)
              else pure s)
            t)
  unfolding serve_listener accept
  step-Fits i ready s t h =
      Partial-if Fits (ready i) _ _ t
        (λ _.
          Partial-if Fits (i == sock) _ _ t (λ _. accepted-Fits s (os.on_accept t sock) _ h)
            (λ _. serve_client-Fits i s t h))
        (λ _. h)

  -- From a state whose largest descriptor fits an `fd_set`, any two numbers of rounds that reach
  -- FD_SETSIZE give the same run of the scan, whatever clients come or go in it.
  pub scan_rounds :
      (n m i : ℕ) (ready : ℕ → Bool) (s : Server) (t : Trace)
      → s.global_max_fd < fd_setsize
      → fd_setsize ≤ n + i
      → fd_setsize ≤ m + i
      → scan os sock n i ready s t ≡ scan os sock m i ready s t
  unfolding scan
  scan_rounds zero zero i ready s t h a b = refl
  scan_rounds zero (suc m) i ready s t h a b =
      rw (leb-past i s.global_max_fd (omega (arith, a, h)), scan) refl
  scan_rounds (suc n) zero i ready s t h a b =
      rw (leb-past i s.global_max_fd (omega (arith, b, h)), scan) refl
  scan_rounds (suc n) (suc m) i ready s t h a b = elim (Bool-cases (leb i s.global_max_fd)) [
    | inr past ↦ rw (past, scan) refl
    | inl within ↦
        rw (within, scan)
          (bind-congr_if Fits
            (if ready i
              then (if i == sock then serve_listener os sock s else serve_client os sock i s)
              else pure s)
            (λ s'. scan os sock n (i + 1) ready s') (λ s'. scan os sock m (i + 1) ready s') t
            (step-Fits i ready s t h)
            (λ s' t' k.
              scan_rounds n m (i + 1) ready s' t' k (omega (arith, a)) (omega (arith, b))))
  ]
