-- ===== src/Daemon/Serve.antt =====
-- daemon/daemon.c: the loop of start_daemon, which forks a process for each client.
use dumbos_dumbos.Base.{
  ℕ, ◌≡◌, ◌≢◌, refl, sym, ap, ◌∙◌, List, [], ◌∷◌, ◌++◌, append_assoc, append-nil, Bytes, All, arith,
  subst, ◌==◌, if◌then◌else◌,
}
use dumbos_dumbos.Base.Int.{ℤ}
use dumbos_dumbos.Stream.{Conn}
use dumbos_dumbos.Session.{Reply}
use dumbos_dumbos.Session.Handler.{handler}

-- How one round of the loop goes: accept(2) fails, or gives a descriptor of a connection, and then
-- fork(2) fails or not.
pub data Round : Type 0 where
  accept_fails : ℕ → Round
  fork_fails : ℕ → Conn → ℕ → Round
  forks : ℕ → Conn → Round

-- A child: the descriptors that it has open while it runs handler(), and how that ends.
pub record Child : Type 0 where
  pub held : List ℕ
  pub session : ℤ × Conn

-- The open descriptors of the parent, without the standard ones that it was started with, and the
-- children in the order of their fork(2).
pub record LoopState : Type 0 where
  pub held : List ℕ
  pub children : List Child

-- close(2)
unfoldable pub close : ℕ → List ℕ → List ℕ
close fd [] = []
close fd (x ∷ xs) = let rest = close fd xs in if x == fd then rest else x ∷ rest

module _ (socket_fd : ℕ) (run : List Bytes → Reply) where
  abbrev pub child : ℕ → Conn → List ℕ → Child
  child client conn held = record { held = close socket_fd held; session = handler run conn }

  unfoldable pub accept_one : Round → LoopState → LoopState
  unfolding close handler
  accept_one (accept_fails e) p = p
  accept_one (fork_fails client conn e) p = record p { held = close client (client ∷ p.held) }
  accept_one (forks client conn) p =
      let held = client ∷ p.held in
      record { held = close client held; children = p.children ++ child client conn held ∷ [] }

  unfoldable pub accept_loop : List Round → LoopState → LoopState
  unfolding accept_one
  accept_loop [] p = p
  accept_loop (r ∷ rs) p = accept_loop rs (accept_one r p)

  -- The parent in the loop: the socket is all that it has open.
  abbrev pub listener : List Child → LoopState
  listener children = record { held = socket_fd ∷ []; children = children }

  -- What accept(2) documents: the descriptor is not open yet.
  abbrev pub IsFresh : Round → LoopState → Type 0
  IsFresh (accept_fails e) p = Unit
  IsFresh (fork_fails client conn e) p = All (λ fd. fd ≢ client) p.held
  IsFresh (forks client conn) p = All (λ fd. fd ≢ client) p.held

  abbrev pub AreFresh : List Round → LoopState → Type 0
  AreFresh [] p = Unit
  AreFresh (r ∷ rs) p = IsFresh r p × AreFresh rs (accept_one r p)

  -- For each client whose fork succeeds, a session in a child that has only this client open.
  abbrev pub served : List Round → List Child
  served [] = []
  served (accept_fails e ∷ rs) = served rs
  served (fork_fails client conn e ∷ rs) = served rs
  served (forks client conn ∷ rs) =
      record { held = client ∷ []; session = handler run conn } ∷ served rs

  close_socket : (c : ℕ) → socket_fd ≢ c → close socket_fd (c ∷ socket_fd ∷ []) ≡ c ∷ []
  unfolding close
  close_socket c ne = ground arith

  close_client : (c : ℕ) → socket_fd ≢ c → close c (c ∷ socket_fd ∷ []) ≡ socket_fd ∷ []
  unfolding close
  close_client c ne = ground arith

  accept_one-listener :
      (r : Round) (cs : List Child)
      → IsFresh r (listener cs)
      → accept_one r (listener cs) ≡ listener (cs ++ served (r ∷ []))
  unfolding accept_one
  accept_one-listener (accept_fails e) cs h = ap listener (sym (append-nil cs))
  accept_one-listener (fork_fails c conn e) cs (ne, _) =
      rw (close_client c ne) (ap listener (sym (append-nil cs)))
  accept_one-listener (forks c conn) cs (ne, _) = rw (close_client c ne, close_socket c ne) refl

  served-cons : (r : Round) (rs : List Round) → served (r ∷ rs) ≡ served (r ∷ []) ++ served rs
  served-cons (accept_fails e) rs = refl
  served-cons (fork_fails c conn e) rs = refl
  served-cons (forks c conn) rs = refl

  accept_loop-listener :
      (rs : List Round) (cs : List Child)
      → AreFresh rs (listener cs)
      → accept_loop rs (listener cs) ≡ listener (cs ++ served rs)
  unfolding accept_loop
  accept_loop-listener [] cs h = ap listener (sym (append-nil cs))
  accept_loop-listener (r ∷ rs) cs (fresh, h) =
      let one = accept_one-listener r cs fresh in
      ap (λ (p : LoopState). accept_loop rs p) one
      ∙ accept_loop-listener rs (cs ++ served (r ∷ []))
          (subst (λ (p : LoopState). AreFresh rs p) one h)
      ∙ ap listener (
          append_assoc cs (served (r ∷ [])) (served rs)
          ∙ ap (λ (l : List Child). cs ++ l) (sym (served-cons r rs)))

  -- However many clients come, and whichever calls of accept and fork fail on the way, the daemon is
  -- back in its loop with its socket as the only open descriptor, apart from those that it was started
  -- with; each client for whom fork succeeded has had one session of handler, in their order, in a
  -- process that had no descriptor but the client's open, apart from the same.
  pub accept_loop-Alone :
      (rs : List Round)
      → AreFresh rs (listener [])
      → ((accept_loop rs (listener [])).held ≡ socket_fd ∷ [])
        × ((accept_loop rs (listener [])).children ≡ served rs)
  accept_loop-Alone rs h =
      let same = accept_loop-listener rs [] h in
      (ap (λ (p : LoopState). p.held) same, ap (λ (p : LoopState). p.children) same)
