-- ===== src/Proxy/Binding.antt =====
-- The public socket of crates/sleepytale/src/state.rs.
use sleepytale.Base.{
  ℕ, ◌≡◌, ◌↔◌, refl, ap, true, false, Option, none, some, List, [], ◌∷◌, ◌++◌, arith, if◌then◌else◌,
  Bool-cases, inl, inr,
}
use sleepytale.Base.Result.{ok}
use sleepytale.Net.{SocketAddr}
use sleepytale.Proxy.Serve.{
  SocketCall, create, set_only_v6, set_nonblocking, bind_to, hand_over, Sockets, domain_of,
  is_any_v6, set_up, bind_public,
}

-- The calls on a socket that is bound for the address.
abbrev pub calls_for : SocketAddr → ℕ → List SocketCall
calls_for addr s =
    create (domain_of addr)
    ∷ ((if is_any_v6 addr then set_only_v6 s false ∷ [] else [])
        ++ (set_nonblocking s ∷ bind_to s addr ∷ hand_over s ∷ []))

module _ (sockets : Sockets) where
  -- A socket of the address's family was made, every call on it succeeds, and mapped clients are
  -- let in if the address is the unspecified one of IPv6.
  pub record IsBound (addr : SocketAddr) (s : ℕ) : Type 0 where
    pub made : sockets.socket (domain_of addr) ≡ some s
    pub mapped : is_any_v6 addr ≡ true → sockets.allow_mapped s ≡ true
    pub unblocked : sockets.unblock s ≡ true
    pub bound : sockets.bind s addr ≡ true
    pub adopted : sockets.adopt s ≡ true

  bound_ok :
      (addr : SocketAddr) (s : ℕ)
      → IsBound addr s
      → bind_public sockets addr ≡ (ok s, calls_for addr s)
  unfolding bind_public
  bound_ok addr s h = elim (Bool-cases (is_any_v6 addr)) [
    | inl any ↦ rw (h.made, any, h.mapped any, h.unblocked, h.bound, h.adopted) refl
    | inr one ↦ rw (h.made, one, h.unblocked, h.bound, h.adopted) refl
  ]

  ok-IsBound :
      (addr : SocketAddr) (s : ℕ) (o : Option ℕ)
      → sockets.socket (domain_of addr) ≡ o
      → (set_up sockets addr o).0 ≡ ok s
      → IsBound addr s
  ok-IsBound addr s none e h = absurd cc
  ok-IsBound addr s (some t) e h = record {
    made = ground (arith, e, h);
    mapped = λ any. ground (arith, h, any);
    unblocked = ground (arith, h);
    bound = ground (arith, h);
    adopted = ground (arith, h);
  }

  -- The public socket is bound exactly when the calls for it succeed. It is then made in the family of
  -- the address, opened to IPv4 clients before anything else if the address is the unspecified one of
  -- IPv6 and only then, made non-blocking, bound to the address and handed over, in this order.
  pub bind_public-ok_iff :
      (addr : SocketAddr) (s : ℕ)
      → (((bind_public sockets addr).0 ≡ ok s) ↔ IsBound addr s)
        × (IsBound addr s → (bind_public sockets addr).1 ≡ calls_for addr s)
  unfolding bind_public
  bind_public-ok_iff addr s = (
    (
      ok-IsBound addr s (sockets.socket (domain_of addr)) refl,
      λ h. ap (λ r. r.0) (bound_ok addr s h),
    ),
    λ h. ap (λ r. r.1) (bound_ok addr s h),
  )
